-- ===== src/Server/Http/Ownership.antt =====
-- Whose files and repositories a request reaches (server/src/files/files.controller.ts and
-- server/src/git/git.controller.ts).
use pocket_dev.Base.{
  String, Text, ◌≡◌, refl, Bool, true, false, List, arith, Result, ok, err, Option-cases,
  Bool-cases, ◌&&◌, inl, inr,
}
use pocket_dev.Server.Db.{Db, Project, find_unique}
use pocket_dev.Server.Projects.{find_project_of}
use pocket_dev.Server.Projects.Ownership.{is_mine, find_project_of-is_mine}
use pocket_dev.Server.SimpleGit.{SimpleGit}
use pocket_dev.Files.Disk.{Bytes, Node}
use pocket_dev.Server.Execute.{Execute}
use pocket_dev.Server.Http.{
  FileRequest, GitRequest, valid_file_request, valid_git_request, validated, serve_files, serve_git,
  owned, own, handle_files, handle_git,
}

-- The call throws and leaves everything as it was.
abbrev pub IsRefused : {S A : Type 0} → Result A × S → S → Type 0
IsRefused (ok _, t) s = ⊥
IsRefused (err _, t) s = t ≡ s

-- Where the test holds the call is the service's, and elsewhere it throws and leaves all as it was.
abbrev pub IsGated : {S A : Type 0} → Bool → Execute S A → S → Result A × S → Type 0
IsGated true m s handled = handled ≡ m s
IsGated false m s handled = IsRefused handled s

find_project_of-ok :
    (user_id id : String) (db : Db)
    → is_mine user_id db id ≡ true
    → (p : Project) × ((find_project_of user_id id db).0 ≡ ok p)
find_project_of-ok user_id id db mine =
    elim (Option-cases (find_unique (λ (p : Project). p.id) id db.projects)) [
      | inl e ↦ absurd (cc (rw e at mine))
      | inr (p, e) ↦ (p, unfold find_project_of in ground (arith, e, mine))
    ]

module _ {S A : Type 0} (user_id id : String) (db : Db) (m : Execute S A) (s : S) where
  owned-IsRefused :
      (r : Result Project)
      → (find_project_of user_id id db).0 ≡ r
      → is_mine user_id db id ≡ false
      → IsRefused (owned r m s) s
  owned-IsRefused (err e) f other = refl
  owned-IsRefused (ok p) f other = absurd (cc (find_project_of-is_mine user_id id db p f, other))

  gate :
      (valid : Bool)
      → IsGated (valid && is_mine user_id db id) m s (validated valid (own user_id id db m) s)
  gate false = refl
  gate true = elim (Bool-cases (is_mine user_id db id)) [
    | inl mine ↦ let (p, f) = find_project_of-ok user_id id db mine in rw mine (rw f refl)
    | inr other ↦ rw other (owned-IsRefused (find_project_of user_id id db).0 refl other)
  ]

module _ (root : List Text) (user_id id : String) (db : Db) where
  -- The files of a project are its owner's: a request with a valid body for a project that is there and
  -- the user's own is served, and every other one throws and leaves the disk as it was.
  pub handle_files_lem :
      (encode : Text → Bytes) (decode : Bytes → Text) (not_after : Text → Text → Bool)
      (request : FileRequest) (disk : Node)
      → IsGated
          (valid_file_request request && is_mine user_id db id)
          (serve_files root encode decode not_after user_id id request)
          disk
          (handle_files root encode decode not_after user_id id db request disk)
  unfolding handle_files
  handle_files_lem encode decode not_after request disk =
      gate user_id id db (serve_files root encode decode not_after user_id id request) disk
        (valid_file_request request)

  -- The repository of a project is its owner's: a request with a valid body for a project that is there
  -- and the user's own is served, and for every other one no git command runs and the call throws.
  pub handle_git_lem :
      {R : Type 0} (git : SimpleGit R) (request : GitRequest) (r : R)
      → IsGated
          (valid_git_request request && is_mine user_id db id)
          (serve_git git root user_id id request)
          r
          (handle_git git root user_id id db request r)
  unfolding handle_git
  handle_git_lem git request r =
      gate user_id id db (serve_git git root user_id id request) r (valid_git_request request)
