-- ===== src/Server/Projects.antt =====
-- Projects (server/src/projects/projects.service.ts). The rows keep no `updatedAt`, by which `list`
-- orders them.
pub mod Slug
pub mod Ownership
pub mod Creation
use pocket_dev.Base.{
  ℕ, ◌+◌, String, Text, Bool, true, false, ◌&&◌, ◌||◌, not, Option, none, some, List, [], ◌∷◌, ◌++◌,
  ◌==◌, if◌then◌else◌, not_found, forbidden, keep, take, leb, nat_eq, get_or_else,
}
use pocket_dev.Server.Execute.{Execute, return, throw, modify, ◌>>◌}
use pocket_dev.Server.Db.{Db, Project, Job, Session, find_unique, update_many}
use pocket_dev.Sync.Manifest.{FileManifest}

-- `CreateProjectDto`
pub record CreateProject : Type 0 where
  pub name : Text
  pub slug : Option Text
  pub description : Option Text

abbrev pub dash : ℕ
dash = b'-'

-- `toLowerCase` of one code unit, as far as a slug can tell: the Kelvin sign and the dotted capital I
-- are the only others whose lower case has a letter of ASCII.
abbrev pub lower : ℕ → Text
lower c =
    if leb b'A' c && leb c b'Z'
    then (c + 32) ∷ []
    else if nat_eq c 0x212a
    then b'k' ∷ []
    else if nat_eq c 0x130
    then b'i' ∷ 0x307 ∷ []
    else c ∷ []

-- `[a-z0-9]`
abbrev pub is_word : ℕ → Bool
is_word c = (leb b'a' c && leb c b'z') || (leb b'0' c && leb c b'9')

-- `replace(/[^a-z0-9]+/g, '-')`: a run of other units is one dash; `run` says that one has begun.
unfoldable pub dash_runs : Bool → Text → Text
dash_runs run [] = []
dash_runs run (c ∷ s) =
    let kept = dash_runs false s in
    let skipped = dash_runs true s in
    if is_word c then c ∷ kept else if run then skipped else dash ∷ skipped

-- `replace(/(^-|-$)/g, '')`: one dash at either end.
abbrev pub drop_first_dash : Text → Text
drop_first_dash [] = []
drop_first_dash (c ∷ s) = if nat_eq c dash then s else c ∷ s

unfoldable pub drop_last_dash : Text → Text
drop_last_dash [] = []
drop_last_dash (c ∷ []) = if nat_eq c dash then [] else c ∷ []
drop_last_dash (c ∷ d ∷ s) = c ∷ drop_last_dash (d ∷ s)

unfoldable pub lower_all : Text → Text
lower_all [] = []
lower_all (c ∷ s) = lower c ++ lower_all s

unfoldable pub slugify : Text → Text
unfolding dash_runs drop_last_dash lower_all
slugify name = take 60 (drop_last_dash (drop_first_dash (dash_runs false (lower_all name))))

abbrev owned_project : String → Option Project → Execute Db Project
owned_project user_id none = throw (not_found "Project not found")
owned_project user_id (some p) =
    if p.user_id == user_id then return p else throw (forbidden "Not your project")

unfoldable pub find_project_of : String → String → Execute Db Project
find_project_of user_id id db =
    owned_project user_id (find_unique (λ (p : Project). p.id) id db.projects) db

-- `remove`: the rows of the project's jobs and sessions go with it (`onDelete: Cascade`).
unfoldable pub remove_project : String → String → Execute Db Unit
unfolding find_project_of
remove_project user_id id =
    find_project_of user_id id
    >> modify
        (λ db. record db {
          projects = keep (λ p. not (p.id == id)) db.projects;
          jobs = keep (λ j. not (j.project_id == id)) db.jobs;
          sessions = keep (λ s. not (s.project_id == id)) db.sessions;
        })
        tt

unfoldable pub update_manifest : String → String → FileManifest → ℕ → Execute Db Unit
unfolding find_project_of
update_manifest user_id id manifest now =
    find_project_of user_id id
    >> modify
        (λ db. record db {
          projects =
              update_many (λ p. p.id == id)
                (λ p. record p { manifest = some manifest; last_synced_at = some now }) db.projects;
        })
        tt
