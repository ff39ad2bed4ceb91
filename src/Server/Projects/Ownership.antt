-- ===== src/Server/Projects/Ownership.antt =====
-- Whose a project is (`findOne` of server/src/projects/projects.service.ts).
use pocket_dev.Base.{ℕ, String, ◌≡◌, refl, Bool, true, false, Option, none, some, ◌==◌, arith, ok}
use pocket_dev.Server.Db.{Db, Project, find_unique, find-update}
use pocket_dev.Server.Projects.{find_project_of, update_manifest}
use pocket_dev.Sync.Manifest.{FileManifest}

abbrev is_of : String → Option Project → Bool
is_of user_id none = false
is_of user_id (some p) = p.user_id == user_id

-- The project is there, and the user's own.
abbrev pub is_mine : String → Db → String → Bool
is_mine user_id db id = is_of user_id (find_unique (λ (p : Project). p.id) id db.projects)

pub find_project_of-is_mine :
    (user_id id : String) (db : Db) (p : Project)
    → (find_project_of user_id id db).0 ≡ ok p
    → is_mine user_id db id ≡ true
unfolding find_project_of
find_project_of-is_mine user_id id db p h = ground arith

pub is_mine-update_manifest :
    (user_id id : String) (m : FileManifest) (now : ℕ) (db : Db) (other : String)
    → is_mine user_id (update_manifest user_id id m now db).1 other ≡ is_mine user_id db other
unfolding update_manifest
is_mine-update_manifest user_id id m now db other = ground (
  arith,
  find-update (λ (p : Project). p.id) other (λ p. p.id == id)
      (λ p. record p { manifest = some m; last_synced_at = some now }) db.projects (λ p. refl),
)
