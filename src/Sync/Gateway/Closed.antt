-- ===== src/Sync/Gateway/Closed.antt =====
-- A sync socket that the server has closed is never open again (server/src/sync/sync.gateway.ts).
use pocket_dev.Base.{
  ℕ, String, ◌≡◌, refl, false, Option, none, some, List, [], ◌∷◌, Result, ok, err,
}
use pocket_dev.Server.Db.{Db, Project}
use pocket_dev.Sync.Manifest.{FileManifest}
use pocket_dev.Sync.Gateway.{
  FileStore, SyncState, Event, frame, resumed, Task, check, write, delete, persist, begun, begin,
  checked, stored, written, dropped, complete, resume_picked, pick, step, run,
}

module _ {F : Type 0} where
  begun-closed :
      (r : Result Task) (s : SyncState F) → s.is_open ≡ false → (begun r s).0.is_open ≡ false
  begun-closed (ok t) s h = h
  begun-closed (err e) s h = refl

  checked-closed :
      (id : String) (m : FileManifest) (r : Result Project) (s : SyncState F)
      → s.is_open ≡ false
      → (checked id m r s).0.is_open ≡ false
  checked-closed id m (ok p) s h = h
  checked-closed id m (err e) s h = refl

  stored-closed :
      (id : String) (m : FileManifest) (r : Result (Unit {0}) × Db) (s : SyncState F)
      → s.is_open ≡ false
      → (stored id m r s).0.is_open ≡ false
  stored-closed id m (ok _, db) s h = h
  stored-closed id m (err e, db) s h = refl

  written-closed :
      (id path : String) (r : Result ℕ × F) (s : SyncState F)
      → s.is_open ≡ false
      → (written id path r s).0.is_open ≡ false
  written-closed id path (ok n, g) s h = h
  written-closed id path (err e, g) s h = refl

  dropped-closed :
      (id path : String) (r : Result (Unit {0}) × F) (s : SyncState F)
      → s.is_open ≡ false
      → (dropped id path r s).0.is_open ≡ false
  dropped-closed id path (ok _, g) s h = h
  dropped-closed id path (err e, g) s h = refl

  module _ (store : FileStore F) where
    complete-closed :
        (now : ℕ) (t : Task) (s : SyncState F)
        → s.is_open ≡ false
        → (complete store now t s).0.is_open ≡ false
    unfolding complete
    complete-closed now (check id m) s h = checked-closed id m _ s h
    complete-closed now (write id path c) s h = written-closed id path _ s h
    complete-closed now (delete id path) s h = dropped-closed id path _ s h
    complete-closed now (persist id m) s h = stored-closed id m _ s h

    picked-closed :
        (now : ℕ) (o : Option (Task × List Task)) (s : SyncState F)
        → s.is_open ≡ false
        → (resume_picked store now o s).0.is_open ≡ false
    picked-closed now none s h = h
    picked-closed now (some (t, ts)) s h = complete-closed now t (record s { tasks = ts }) h

    step-closed :
        (e : Event) (s : SyncState F) → s.is_open ≡ false → (step store e s).0.is_open ≡ false
    unfolding step
    step-closed (frame none) s h = h
    step-closed (frame (some m)) s h = begun-closed (begin s.conn m) s h
    step-closed (resumed n now) s h = picked-closed now (pick n s.tasks) s h

    pub run-closed :
        (es : List Event) (s : SyncState F) → s.is_open ≡ false → (run store es s).0.is_open ≡ false
    unfolding run
    run-closed [] s h = h
    run-closed (e ∷ es) s h = run-closed es (step store e s).0 (step-closed e s h)
