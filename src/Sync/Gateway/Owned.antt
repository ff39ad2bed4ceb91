-- ===== src/Sync/Gateway/Owned.antt =====
-- A sync socket touches its user's own projects only (server/src/sync/sync.gateway.ts).
use pocket_dev.Base.{
  ℕ, zero, suc, String, ◌≡◌, refl, ◌∙◌, true, Option, none, some, List, [], ◌∷◌, ◌++◌, false, arith,
  eq_iff, All, All-append, Bool-cases, inl, inr, Result, ok, err,
}
use pocket_dev.Server.Db.{Db, Project}
use pocket_dev.Server.Projects.Ownership.{is_mine, find_project_of-is_mine, is_mine-update_manifest}
use pocket_dev.Server.Projects.{find_project_of, update_manifest}
use pocket_dev.Sync.Manifest.{FileManifest}
use pocket_dev.Sync.Gateway.{
  FileStore, SyncClientMessage, Task, check, write, delete, persist, SyncState, Event, frame,
  resumed, is_project, assert_project, begin, pick, begun, checked, stored, written, dropped,
  complete, resume_picked, step, run, connected,
}

module _ {F : Type 0} (store : FileStore F) (user_id : String) (start : Db) where
  abbrev pub Mine : String → Type 0
  Mine id = is_mine user_id start id ≡ true

  -- What each call of the store for a project of the user's own keeps of the files, and what each
  -- storing of a manifest in such a project's row keeps of the database; all are made as this user.
  pub record OwnKeeps (P : F → Type 0) (Q : Db → Type 0) : Type 0 where
    pub write :
        (id path content : String) (f : F)
        → Mine id
        → P f
        → P (store.write_base64 user_id id path content f).1
    pub remove : (id path : String) (f : F) → Mine id → P f → P (store.remove user_id id path f).1
    pub persist :
        (id : String) (m : FileManifest) (now : ℕ) (db : Db)
        → Mine id
        → Q db
        → Q (update_manifest user_id id m now db).1

  module _ (P : F → Type 0) (Q : Db → Type 0) (keeps : OwnKeeps P Q) where
    abbrev IsOwnTask : Task → Type 0
    IsOwnTask (check _ _) = Unit
    IsOwnTask (write id _ _) = Mine id
    IsOwnTask (delete id _) = Mine id
    IsOwnTask (persist id _) = Mine id

    record IsOwn (s : SyncState F) : Type 0 where
      same_user : s.conn.user_id ≡ user_id
      project : (id : String) → s.conn.project_id ≡ some id → Mine id
      own_tasks : All IsOwnTask s.tasks
      rows : (id : String) → is_mine user_id s.db id ≡ is_mine user_id start id
      kept_files : P s.files
      kept_rows : Q s.db

    closed-IsOwn : (s : SyncState F) → IsOwn s → IsOwn (record s { is_open = false })
    closed-IsOwn s h = record {
      same_user = h.same_user;
      project = h.project;
      own_tasks = h.own_tasks;
      rows = h.rows;
      kept_files = h.kept_files;
      kept_rows = h.kept_rows;
    }

    task-IsOwn :
        (t : Task) (s : SyncState F)
        → IsOwnTask t
        → IsOwn s
        → IsOwn (record s { tasks = s.tasks ++ t ∷ [] })
    task-IsOwn t s own h = record {
      same_user = h.same_user;
      project = h.project;
      own_tasks = All-append IsOwnTask s.tasks (t ∷ []) h.own_tasks (own, tt);
      rows = h.rows;
      kept_files = h.kept_files;
      kept_rows = h.kept_rows;
    }

    files-IsOwn : (f : F) (s : SyncState F) → P f → IsOwn s → IsOwn (record s { files = f })
    files-IsOwn f s kept h = record {
      same_user = h.same_user;
      project = h.project;
      own_tasks = h.own_tasks;
      rows = h.rows;
      kept_files = kept;
      kept_rows = h.kept_rows;
    }

    db-IsOwn :
        (db : Db) (s : SyncState F)
        → ((i : String) → is_mine user_id db i ≡ is_mine user_id s.db i)
        → Q db
        → IsOwn s
        → IsOwn (record s { db = db })
    db-IsOwn db s same kept h = record {
      same_user = h.same_user;
      project = h.project;
      own_tasks = h.own_tasks;
      rows = λ i. same i ∙ h.rows i;
      kept_files = h.kept_files;
      kept_rows = kept;
    }

    assert-Mine :
        (o : Option String) (id : String)
        → ((i : String) → o ≡ some i → Mine i)
        → is_project id o ≡ true
        → Mine id
    assert-Mine none id h e = cc
    assert-Mine (some p) id h e = h id (ground (arith, eq_iff p id))

    asserted-IsOwn :
        (id : String) (t : Task) (s : SyncState F)
        → (Mine id → IsOwnTask t)
        → IsOwn s
        → IsOwn (begun (assert_project s.conn id t) s).0
    asserted-IsOwn id t s own h = elim (Bool-cases (is_project id s.conn.project_id)) [
      | inl yes_it ↦
          rw yes_it (task-IsOwn t s (own (assert-Mine s.conn.project_id id h.project yes_it)) h)
      | inr not_it ↦ rw not_it (closed-IsOwn s h)
    ]

    begin-IsOwn :
        (m : SyncClientMessage) (s : SyncState F) → IsOwn s → IsOwn (begun (begin s.conn m) s).0
    unfolding begin
    begin-IsOwn (SyncClientMessage.manifest id m) s h = task-IsOwn (check id m) s tt h
    begin-IsOwn (SyncClientMessage.file id path content) s h = asserted-IsOwn id _ s (λ o. o) h
    begin-IsOwn (SyncClientMessage.removed id path) s h = asserted-IsOwn id _ s (λ o. o) h
    begin-IsOwn (SyncClientMessage.done id) s h = asserted-IsOwn id _ s (λ o. o) h

    checked-IsOwn :
        (id : String) (m : FileManifest) (r : Result Project) (s : SyncState F)
        → (find_project_of s.conn.user_id id s.db).0 ≡ r
        → IsOwn s
        → IsOwn (checked id m r s).0
    checked-IsOwn id m (err e) s f h = closed-IsOwn s h
    checked-IsOwn id m (ok p) s f h = record {
      same_user = h.same_user;
      project = λ i same.
          let found = find_project_of-is_mine s.conn.user_id id s.db p f in
          cc (same, h.rows id, h.same_user, found);
      own_tasks = h.own_tasks;
      rows = h.rows;
      kept_files = h.kept_files;
      kept_rows = h.kept_rows;
    }

    stored-IsOwn :
        (id : String) (m : FileManifest) (r : Result (Unit {0}) × Db) (s : SyncState F)
        → ((i : String) → is_mine user_id r.1 i ≡ is_mine user_id s.db i)
        → Q r.1
        → IsOwn s
        → IsOwn (stored id m r s).0
    stored-IsOwn id m (err e, db) s same kept h = closed-IsOwn _ (db-IsOwn db s same kept h)
    stored-IsOwn id m (ok _, db) s same kept h = db-IsOwn db s same kept h

    written-IsOwn :
        (id path : String) (r : Result ℕ × F) (s : SyncState F)
        → P r.1
        → IsOwn s
        → IsOwn (written id path r s).0
    written-IsOwn id path (err e, f) s kept h = closed-IsOwn _ (files-IsOwn f s kept h)
    written-IsOwn id path (ok _, f) s kept h = files-IsOwn f s kept h

    dropped-IsOwn :
        (id path : String) (r : Result (Unit {0}) × F) (s : SyncState F)
        → P r.1
        → IsOwn s
        → IsOwn (dropped id path r s).0
    dropped-IsOwn id path (err e, f) s kept h = closed-IsOwn _ (files-IsOwn f s kept h)
    dropped-IsOwn id path (ok _, f) s kept h = files-IsOwn f s kept h

    complete-IsOwn :
        (now : ℕ) (t : Task) (s : SyncState F)
        → IsOwnTask t
        → IsOwn s
        → IsOwn (complete store now t s).0
    unfolding complete
    complete-IsOwn now (check id m) s own h =
        checked-IsOwn id m (find_project_of s.conn.user_id id s.db).0 s refl h
    complete-IsOwn now (write id path content) s own h =
        written-IsOwn id path _ s
          (rw h.same_user (keeps.write id path content s.files own h.kept_files)) h
    complete-IsOwn now (delete id path) s own h =
        dropped-IsOwn id path _ s (rw h.same_user (keeps.remove id path s.files own h.kept_files)) h
    complete-IsOwn now (persist id m) s own h =
        stored-IsOwn id m (update_manifest s.conn.user_id id m now s.db) s
          (λ i.
            let kept = is_mine-update_manifest s.conn.user_id id m now s.db i in
            cc (h.same_user, kept))
          (rw h.same_user (keeps.persist id m now s.db own h.kept_rows)) h

    abbrev PickedOwn : Option (Task × List Task) → Type 0
    PickedOwn none = Unit
    PickedOwn (some (t, ts)) = IsOwnTask t × All IsOwnTask ts

    pick-PickedOwn : (n : ℕ) (ts : List Task) → All IsOwnTask ts → PickedOwn (pick n ts)
    unfolding pick
    pick-PickedOwn n [] h = tt
    pick-PickedOwn zero (t ∷ ts) h = h
    pick-PickedOwn (suc n) (t ∷ ts) h = go (pick n ts) (pick-PickedOwn n ts h.1)
      where
        go :
            (o : Option (Task × List Task))
            → PickedOwn o
            → PickedOwn (elim o [ none ↦ none | some r ↦ some (r.0, t ∷ r.1) ])
        go none p = tt
        go (some (u, us)) p = (p.0, (h.0, p.1))

    picked-IsOwn :
        (now : ℕ) (o : Option (Task × List Task)) (s : SyncState F)
        → PickedOwn o
        → IsOwn s
        → IsOwn (resume_picked store now o s).0
    picked-IsOwn now none s p h = h
    picked-IsOwn now (some (t, ts)) s p h =
        complete-IsOwn now t (record s { tasks = ts }) p.0
          (record {
            same_user = h.same_user;
            project = h.project;
            own_tasks = p.1;
            rows = h.rows;
            kept_files = h.kept_files;
            kept_rows = h.kept_rows;
          })

    step-IsOwn : (e : Event) (s : SyncState F) → IsOwn s → IsOwn (step store e s).0
    unfolding step
    step-IsOwn (frame none) s h = h
    step-IsOwn (frame (some m)) s h = begin-IsOwn m s h
    step-IsOwn (resumed n now) s h =
        picked-IsOwn now (pick n s.tasks) s (pick-PickedOwn n s.tasks h.own_tasks) h

    run-IsOwn : (es : List Event) (s : SyncState F) → IsOwn s → IsOwn (run store es s).0
    unfolding run
    run-IsOwn [] s h = h
    run-IsOwn (e ∷ es) s h = run-IsOwn es (step store e s).0 (step-IsOwn e s h)

    -- A sync socket touches its user's own projects only: a property of the files that the store's writes
    -- and removals keep when they are made as this user in a project of the user's own, and a property of
    -- the database that the storing of a manifest in such a project keeps, hold after whatever frames have
    -- come, however the handlers interleave.
    pub run-Keeps :
        (es : List Event) (files : F)
        → P files
        → Q start
        → let end = (run store es (connected user_id start files)).0 in P end.files × Q end.db
    run-Keeps es files p q =
        let own = run-IsOwn es (connected user_id start files) (record {
          same_user = refl;
          project = λ id e. absurd (cc e);
          own_tasks = tt;
          rows = λ id. refl;
          kept_files = p;
          kept_rows = q;
        }) in
        (own.kept_files, own.kept_rows)
