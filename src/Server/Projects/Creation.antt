-- ===== src/Server/Projects/Creation.antt =====
-- A new project (`create` of server/src/projects/projects.service.ts). The database draws the id, and
-- refuses a second project of one user with the same slug.
use pocket_dev.Base.{
  String, Text, text_eq, codes, ◌≡◌, refl, ap, Bool, ◌&&◌, none, [], ◌∷◌, ◌++◌, ◌==◌, any,
  if◌then◌else◌, get_or_else, ok, err, failure, forbidden, Bool-cases, inl, inr,
}
use pocket_dev.Server.Execute.{Execute}
use pocket_dev.Server.Db.{Db, Project, find_unique, find-append_new}
use pocket_dev.Server.Projects.{
  CreateProject, slugify, dash_runs, drop_last_dash, lower_all, find_project_of,
}

abbrev pub new_project : String → String → CreateProject → Project
new_project id user_id dto = record {
  id = id;
  user_id = user_id;
  name = dto.name;
  slug = get_or_else dto.slug (slugify dto.name);
  description = dto.description;
  manifest = none;
  last_synced_at = none;
}

-- `@@unique([userId, slug])`
abbrev pub is_taken : String → Text → Db → Bool
is_taken user_id slug db =
    any (λ (p : Project). (p.user_id == user_id) && text_eq p.slug slug) db.projects

unfoldable pub create_project : String → String → CreateProject → Execute Db Project
create_project id user_id dto db =
    let new = new_project id user_id dto in
    if is_taken user_id new.slug db
    then (err (failure "Unique constraint failed"), db)
    else (ok new, record db { projects = db.projects ++ new ∷ [] })

-- A project that is created is found by its user, and by no other.
created_project_found :
    (id user_id other : String) (dto : CreateProject) (db : Db) (p : Project)
    → find_unique (λ (q : Project). q.id) id db.projects ≡ none
    → (create_project id user_id dto db).0 ≡ ok p
    → let after = (create_project id user_id dto db).1 in
      (find_project_of other id after).0
      ≡ (if user_id == other then ok p else err (forbidden "Not your project"))
unfolding create_project find_project_of
created_project_found id user_id other dto db p new_id h =
    let new = new_project id user_id dto in
    let found = find-append_new (λ (q : Project). q.id) new db.projects new_id in
    elim (Bool-cases (is_taken user_id new.slug db)) [
      | inl taken ↦ absurd (cc (rw taken at h))
      | inr free ↦
          let same : new ≡ p = cc (rw free at h) in
          elim (Bool-cases (user_id == other)) [
            | inl mine ↦ rw (free, found, mine) (ap ok same)
            | inr not_mine ↦ rw (free, found, not_mine) refl
          ]
    ]

-- A name without a letter or a digit of ASCII has no slug, so a user's second one is refused.
no_slug : slugify (codes "日本") ≡ []
unfolding slugify dash_runs drop_last_dash lower_all
no_slug = refl
