-- ===== src/Server/Http/Tests.antt =====
-- Requests on a project, over a git of one remote.
use pocket_dev.Base.{
  ℕ, Text, codes, text_eq, ◌≡◌, refl, Bool, true, false, ◌&&◌, Option, none, some, List, [], ◌∷◌,
  any, is_some, if◌then◌else◌, ok, err, failure, arith, text_eq_iff, Bool-cases, inl, inr,
}
use pocket_dev.Server.Execute.{Execute}
use pocket_dev.Server.Db.{Db}
use pocket_dev.Server.Projects.Ownership.{is_mine}
use pocket_dev.Server.SimpleGit.{SimpleGit, Status, Repository}
use pocket_dev.Server.Git
use pocket_dev.Server.Git.{repository, no_repository, file_status}
use pocket_dev.Server.Git.Keeps.{Keeps}
use pocket_dev.Server.Git.Remote.{HasRemotes, set_remote_lem}
use pocket_dev.Files.Disk.{dir, empty}
use pocket_dev.Server.Http.{
  FileRequest, write, commit, valid_file_request, valid_git_request, serve_files, serve_git,
  handle_files, handle_git,
}
use pocket_dev.Server.Http.Ownership.{IsGated, handle_files_lem, handle_git_lem}

-- Whether there is a repository, the URL of `origin`, and how often a commit was made elsewhere.
record World : Type 0 where
  there : Bool
  origin_url : Option Text
  elsewhere : ℕ

abbrev is_origin : Text → Bool
is_origin name = text_eq (codes "origin") name

abbrev url_of : World → Text → Option Text
url_of w name = if is_origin name then w.origin_url else none

abbrev listed : Option Text → List Text
listed none = []
listed (some url) = codes "origin" ∷ []

abbrev with_url : Text → Text → Execute World Unit
with_url name url w =
    if is_origin name then (ok tt, record w { origin_url = some url }) else (err (failure "no"), w)

abbrev clean : Status
clean = record { current = some (codes "main"); ahead = 0; behind = 0; is_clean = true; files = [] }

abbrev small_git : SimpleGit World
small_git = record {
  make_dirs = λ d w. (ok tt, w);
  check_is_repo = λ g w. (ok w.there, w);
  init = λ g args w. (ok tt, record w { there = true });
  add_config = λ g key value w. (ok tt, w);
  status = λ g w. (ok clean, w);
  get_remotes = λ g w. (ok (listed w.origin_url), w);
  set_url = λ g name url. with_url name url;
  add_remote = λ g name url. with_url name url;
  add = λ g path w. (ok tt, w);
  commit = λ g message w.
      (ok (record { commit = codes "1f"; changes = 1; insertions = 2; deletions = 0 }), w);
  push = λ g args w. (ok tt, w);
  pull = λ g w. (ok tt, w);
  log = λ g most w. (ok [], w);
  branch_local = λ g w. (ok (record { current = codes "main"; all = codes "main" ∷ [] }), w);
  diff = λ g args w. (ok [], w);
}

abbrev root : List Text
root = codes "srv" ∷ []

abbrev rows : Db
rows = record {
  users = [];
  projects =
      record {
        id = "p1";
        user_id = "alice";
        name = codes "Notes";
        slug = codes "notes";
        description = none;
        manifest = none;
        last_synced_at = none;
      }
      ∷ [];
  jobs = [];
  sessions = [];
  subscriptions = [];
  presences = [];
}

abbrev bare : World
bare = record { there = false; origin_url = none; elsewhere = 5 }

abbrev linked : World
linked = record { there = true; origin_url = some (codes "old"); elsewhere = 5 }

abbrev own : Repository
own = repository root (codes "alice") (codes "p1")

modified_file :
    file_status (record { path = codes "a.ts"; index = codes " "; working_dir = codes "M" })
    ≡ record { path = codes "a.ts"; status = codes "M"; staged = false }
unfolding file_status text_eq
modified_file = refl

new_file :
    file_status (record { path = codes "a.ts"; index = codes "?"; working_dir = codes "?" })
    ≡ record { path = codes "a.ts"; status = codes "??"; staged = false }
unfolding file_status text_eq
new_file = refl

abbrev saved : FileRequest
saved = write (record { path = codes "a.ts"; content = codes "hi" })

handle_files_lem_example :
    IsGated
      (valid_file_request saved && is_mine "mallory" rows "p1")
      (serve_files root (λ t. t) (λ b. b) (λ a b. true) "mallory" "p1" saved)
      (dir empty)
      (handle_files root (λ t. t) (λ b. b) (λ a b. true) "mallory" "p1" rows saved (dir empty))
handle_files_lem_example =
    handle_files_lem root "mallory" "p1" rows (λ t. t) (λ b. b) (λ a b. true) saved (dir empty)

handle_git_lem_example :
    IsGated
      (valid_git_request (commit (codes "wip")) && is_mine "alice" rows "p1")
      (serve_git small_git root "alice" "p1" (commit (codes "wip")))
      linked
      (handle_git small_git root "alice" "p1" rows (commit (codes "wip")) linked)
handle_git_lem_example =
    handle_git_lem root "alice" "p1" rows small_git (commit (codes "wip")) linked

abbrev Quiet : World → Type 0
Quiet w = w.elsewhere ≡ 5

with_url-url_of :
    (name url other : Text) (r s : World)
    → with_url name url r ≡ (ok tt, s)
    → url_of s other ≡ (if text_eq name other then some url else url_of r other)
with_url-url_of name url other r s h = elim (Bool-cases (is_origin name)) [
  | inl it ↦
      let one : codes "origin" ≡ name = (text_eq_iff (codes "origin") name).0 it in
      let after : record r { origin_url = some url } ≡ s = cc (rw it at h) in
      rw (← after) (rw (← one) (ground arith))
  | inr other_name ↦ absurd (cc (rw other_name at h))
]

listed-names :
    (o : Option Text) (name : Text)
    → any (λ n. text_eq n name) (listed o) ≡ is_some (if is_origin name then o else none)
listed-names none name = ground arith
listed-names (some url) name = ground arith

small_git-HasRemotes : HasRemotes small_git own url_of
small_git-HasRemotes = record {
  names = λ r s remotes name h.
      let same : r ≡ s = cc h in
      let given : listed r.origin_url ≡ remotes = cc h in
      (rw (← given) (rw (← same) (listed-names r.origin_url name)), rw same refl);
  kept-make_dirs = λ r s h. let same : r ≡ s = cc h in rw same refl;
  kept-check = λ r s b h. let same : r ≡ s = cc h in rw same refl;
  url-set_url = λ r s name url other e h. with_url-url_of name url other r s h;
  url-add_remote = λ r s name url other e h. with_url-url_of name url other r s h;
}

set_remote_lem_example :
    url_of
      (Git.set_remote small_git root (codes "alice") (codes "p1") (codes "new") linked).1
      (codes "origin")
    ≡ some (codes "new")
unfolding Git.set_remote text_eq
set_remote_lem_example =
    set_remote_lem small_git root (codes "alice") (codes "p1") url_of small_git-HasRemotes
      (codes "new") (codes "new") (codes "origin") linked
      (record linked { origin_url = some (codes "new") }) refl
