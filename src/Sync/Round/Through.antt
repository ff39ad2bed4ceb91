-- ===== src/Sync/Round/Through.antt =====
-- A round that goes through to its end (services/cli-agent/src/sync-client.ts and
-- server/src/sync/sync.gateway.ts together).
use pocket_dev.Base.{ℕ, String, ◌≡◌, refl, true, some, [], ◌++◌, get_or_else, Result, ok}
use pocket_dev.Base.Dict.{get}
use pocket_dev.Server.Db.{Db, Project}
use pocket_dev.Server.Projects.{find_project_of}
use pocket_dev.Sync.Manifest.{FileManifestEntry, FileManifest, changed_paths, removed_paths}
use pocket_dev.Sync.Gateway.{FileStore, SyncConn}
use pocket_dev.Sync.Round.Frames.{removed_paths-NoRepeat, last_frame}
use pocket_dev.Sync.Round.Phases.{final, final-append, ready, files-Phase}
use pocket_dev.Sync.Round.Open.{TakesAt, CanRemove, files-FilesEnd, removals_open}
use pocket_dev.Sync.Round.Faithful.{round_end, frames_lem, file_events, removed_events, done_event}
use pocket_dev.Sync.Round.{Contract}
use pocket_dev.Sync.Round.Outcome.{IsAdvertised, IsKept, changed-All, removed-IsHeld}

module _ {F : Type 0} (store : FileStore F) (u id : String) {B : Type 0}
    (contract : Contract store u id B) (hash : B → String) (read_base64 : String → Result String)
    (m : FileManifest) (Fits : F → Type 0) where
  answered_open :
      (db : Db) (now : ℕ) (p : Project) (known : (find_project_of u id db).0 ≡ ok p)
      (advertised : IsAdvertised contract hash read_base64 m) (f : F)
      → IsKept contract hash (get_or_else p.manifest []) f
      → ((path : String) (e : FileManifestEntry)
          → get path m ≡ some e
          → TakesAt store u id Fits path)
      → CanRemove store u id contract
      → Fits f
      → (final store
          (file_events store u id contract hash read_base64 m db now p known advertised
            ++ (removed_events store u id contract hash read_base64 m db now p known advertised
                ++ done_event store u id contract hash read_base64 m db now p known advertised))
          (ready store u id m db now true f)).is_open
        ≡ true
  answered_open db now p known advertised f before takes can fits =
      let kept = get_or_else p.manifest [] in
      let files = file_events store u id contract hash read_base64 m db now p known advertised in
      let gone = removed_events store u id contract hash read_base64 m db now p known advertised in
      let done = done_event store u id contract hash read_base64 m db now p known advertised in
      let all =
        changed-All store u id contract hash read_base64 m (TakesAt store u id Fits) kept
          advertised.distinct takes in
      let (g, e) =
        files-FilesEnd store u id m db now read_base64 Fits (changed_paths kept m) f all fits in
      let first =
        files-Phase store u id m db now contract read_base64 (changed_paths kept m) true f
          (changed-All store u id contract hash read_base64 m contract.Sound kept
            advertised.distinct advertised.sound)
          (rw e refl) in
      let held =
        removed-IsHeld store u id contract hash read_base64 m kept f first.files advertised before
          first.reads in
      let (t, e') =
        removals_open store u id m db now contract (removed_paths kept m) first.files can
          (removed_paths-NoRepeat kept m before.distinct) held in
      rw
        (
          final-append store files (gone ++ done) (ready store u id m db now true f),
          first.ends,
          final-append store gone done (ready store u id m db now true first.files),
          e',
        )
        (last_frame store u id m db now p known t).2

  -- A round goes through to its end: where each file that the agent lists can be written, whatever has
  -- been written of the others, and each file that the project holds can be removed, the socket is open
  -- after the last of the frames.
  pub round_end_open :
      (conn : SyncConn) (db : Db) (f : F) (now : ℕ) (p : Project)
      → conn.user_id ≡ u
      → (find_project_of u id db).0 ≡ ok p
      → IsAdvertised contract hash read_base64 m
      → IsKept contract hash (get_or_else p.manifest []) f
      → ((path : String) (e : FileManifestEntry)
          → get path m ≡ some e
          → TakesAt store u id Fits path)
      → CanRemove store u id contract
      → Fits f
      → (round_end store id read_base64 m conn db f now p).is_open ≡ true
  round_end_open conn db f now p same known advertised before takes can fits =
      rw (frames_lem store u id contract hash read_base64 m conn db f now p same known advertised)
        (answered_open db now p known advertised f before takes can fits)
