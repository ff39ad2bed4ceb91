-- ===== src/Sync/Gateway/Order.antt =====
-- The order of a round's handlers on the server (`onMessage` of server/src/sync/sync.gateway.ts).
use pocket_dev.Base.{
  ℕ, String, ◌≡◌, refl, true, Option, some, [], ◌∷◌, arith, eq_refl, ok, err, Exception,
}
use pocket_dev.Server.Db.{Db, Project, find_unique, find-update_key}
use pocket_dev.Server.Projects.{find_project_of, update_manifest}
use pocket_dev.Sync.Manifest.{FileManifest}
use pocket_dev.Sync.Gateway.{
  FileStore, SyncClientMessage, SyncState, frame, resumed, write, send, close, persisted, synced,
  begin, pick, complete, step, run,
}

abbrev pub project_row : String → Db → Option Project
project_row id db = find_unique (λ (p : Project). p.id) id db.projects

-- What a manifest is kept as.
abbrev pub with_manifest : FileManifest → ℕ → Project → Project
with_manifest m now p = record p { manifest = some m; last_synced_at = some now }

pub update_manifest-ok :
    (user_id id : String) (m : FileManifest) (now : ℕ) (db : Db) (p : Project)
    → (find_project_of user_id id db).0 ≡ ok p
    → ((update_manifest user_id id m now db).0 ≡ ok tt)
      × (project_row id (update_manifest user_id id m now db).1 ≡ some (with_manifest m now p))
unfolding find_project_of update_manifest
update_manifest-ok user_id id m now db p h = ground (
  arith,
  find-update_key (λ (q : Project). q.id) id (with_manifest m now) db.projects {r = p} (λ q. refl),
)

module _ {F : Type 0} (store : FileStore F) (s : SyncState F) (id path content : String)
    (m : FileManifest) (p : Project) where
  -- The `done` of a round does not wait for its files: where its handler ends first, the manifest is
  -- kept and the client told that all is synced, with the file not written yet.
  pub done_overtakes :
      (now : ℕ)
      → s.is_open ≡ true
      → s.tasks ≡ []
      → s.conn.project_id ≡ some id
      → s.conn.pending_manifest ≡ some m
      → (find_project_of s.conn.user_id id s.db).0 ≡ ok p
      → let (t, out) =
          run store
            (frame (some (SyncClientMessage.file id path content))
              ∷ frame (some (SyncClientMessage.done id))
              ∷ resumed 1 now
              ∷ [])
            s in
        (out ≡ persisted s.conn.user_id id m ∷ send (synced id) ∷ [])
        × (t.tasks ≡ write id path content ∷ [])
        × (t.files ≡ s.files)
        × (project_row id t.db ≡ some (with_manifest m now p))
  unfolding run step begin pick complete
  done_overtakes now o e c q f =
      let kept = update_manifest-ok s.conn.user_id id m now s.db p f in
      ground (arith, kept, eq_refl id)

  -- A file that the store refuses closes the socket, but a `done` that is on its way is still handled:
  -- the manifest, with the file in it, is kept.
  pub persists_after_failure :
      (first now : ℕ) (e : Exception)
      → s.tasks ≡ []
      → s.conn.project_id ≡ some id
      → s.conn.pending_manifest ≡ some m
      → (find_project_of s.conn.user_id id s.db).0 ≡ ok p
      → (store.write_base64 s.conn.user_id id path content s.files).0 ≡ err e
      → let (t, out) =
          run store
            (frame (some (SyncClientMessage.file id path content))
              ∷ resumed 0 first
              ∷ frame (some (SyncClientMessage.done id))
              ∷ resumed 0 now
              ∷ [])
            s in
        (out ≡ close 1011 e ∷ persisted s.conn.user_id id m ∷ [])
        × (project_row id t.db ≡ some (with_manifest m now p))
  unfolding run step begin pick complete
  persists_after_failure first now e t c q f w =
      let kept = update_manifest-ok s.conn.user_id id m now s.db p f in
      ground (arith, kept, eq_refl id)
