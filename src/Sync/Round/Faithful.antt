-- ===== src/Sync/Round/Faithful.antt =====
-- What a whole round leaves in the project (services/cli-agent/src/sync-client.ts and
-- server/src/sync/sync.gateway.ts together).
use pocket_dev.Base.{
  ℕ, String, ◌≡◌, refl, ap, ◌∙◌, true, List, [], ◌∷◌, ◌++◌, get_or_else, Result, ok, map,
}
use pocket_dev.Server.Db.{Db, Project}
use pocket_dev.Server.Projects.{find_project_of}
use pocket_dev.Sync.Manifest.{FileManifest, compute_diff, changed_paths, removed_paths}
use pocket_dev.Sync.Gateway.{FileStore, SyncClientMessage, SyncConn, SyncState, Event}
use pocket_dev.Sync.Client
use pocket_dev.Sync.Client.{file_frames}
use pocket_dev.Sync.Round.Frames.{
  removed_paths-NoRepeat, in_order-append, agent_frames_lem, open_before, first_frame, last_frame,
}
use pocket_dev.Sync.Round.Phases.{final, final-append, ready, files-Phase}
use pocket_dev.Sync.Round.Removals.{removals, removals-Phase}
use pocket_dev.Sync.Round.{Contract, in_order, agent_frames, at_rest}
use pocket_dev.Sync.Round.Outcome.{
  IsAdvertised, IsKept, IsSynced, changed-All, removed-IsHeld, phases-IsSynced,
}

module _ {F : Type 0} (store : FileStore F) (id : String) (read_base64 : String → Result String)
    (m : FileManifest) where
  -- The end of a round: the agent's frames to the difference of its manifest and the one in the row.
  unfoldable pub round_end : SyncConn → Db → F → ℕ → Project → SyncState F
  round_end conn db f now p =
      final store
        (in_order now (agent_frames id read_base64 m (compute_diff (get_or_else p.manifest []) m)))
        (at_rest conn true db f)

module _ {F : Type 0} (store : FileStore F) (u id : String) {B : Type 0}
    (contract : Contract store u id B) (hash : B → String) (read_base64 : String → Result String)
    (m : FileManifest) where
  module _ (db : Db) (now : ℕ) (p : Project) (known : (find_project_of u id db).0 ≡ ok p)
      (advertised : IsAdvertised contract hash read_base64 m) where
    abbrev pub kept_of : FileManifest
    kept_of = get_or_else p.manifest []

    abbrev pub file_events : List Event
    file_events = in_order now (file_frames id read_base64 (changed_paths kept_of m))

    abbrev pub removed_events : List Event
    removed_events = removals store u id m db now contract (removed_paths kept_of m)

    abbrev pub done_event : List Event
    done_event = in_order now (SyncClientMessage.done id ∷ [])

    answered-IsSynced :
        (f : F)
        → IsKept contract hash kept_of f
        → (final store
            (file_events ++ (removed_events ++ done_event))
            (ready store u id m db now true f)).is_open
          ≡ true
        → IsSynced contract hash read_base64 m kept_of f now p (
            final store
              (file_events ++ (removed_events ++ done_event))
              (ready store u id m db now true f))
    answered-IsSynced f before h =
        let start = ready store u id m db now true f in
        let rest = removed_events ++ done_event in
        let first =
          files-Phase store u id m db now contract read_base64 (changed_paths kept_of m) true f
            (changed-All store u id contract hash read_base64 m contract.Sound kept_of
              advertised.distinct advertised.sound)
            (open_before store file_events rest start h) in
        let e = final-append store file_events rest start ∙ ap (final store rest) first.ends in
        let held =
          removed-IsHeld store u id contract hash read_base64 m kept_of f first.files advertised
            before first.reads in
        let second =
          removals-Phase store u id m db now contract (removed_paths kept_of m) true first.files
            (removed_paths-NoRepeat kept_of m before.distinct) held
            (open_before store removed_events done_event _ (rw e at h)) in
        let e' =
          final-append store removed_events done_event (ready store u id m db now true first.files)
          ∙ ap (final store done_event) second.ends in
        let last = last_frame store u id m db now p known second.files in
        rw (e, e')
          (phases-IsSynced store u id contract hash read_base64 m kept_of f now p _ first.files
            second.files advertised before first.reads second.reads last.0 last.1)

  pub frames_lem :
      (conn : SyncConn) (db : Db) (f : F) (now : ℕ) (p : Project)
      → conn.user_id ≡ u
      → (known : (find_project_of u id db).0 ≡ ok p)
      → (advertised : IsAdvertised contract hash read_base64 m)
      → round_end store id read_base64 m conn db f now p
        ≡ final store
            (file_events db now p known advertised
              ++ (removed_events db now p known advertised ++ done_event db now p known advertised))
            (ready store u id m db now true f)
  unfolding round_end compute_diff Client.push_diff in_order
  frames_lem conn db f now p same known advertised =
      let kept = get_or_else p.manifest [] in
      let files = file_frames id read_base64 (changed_paths kept m) in
      let gone = map (λ path. SyncClientMessage.removed id path) (removed_paths kept m) in
      let last = SyncClientMessage.done id ∷ [] in
      let first = in_order now (SyncClientMessage.manifest id m ∷ []) in
      rw
        (
          agent_frames_lem id read_base64 m (compute_diff kept m),
          final-append store first (in_order now (files ++ (gone ++ last)))
              (at_rest conn true db f),
          (first_frame store u id m db now p known conn f same).0,
          in_order-append now files (gone ++ last),
          in_order-append now gone last,
        )
        refl

  -- A round keeps the row's manifest true. Where the agent's manifest lists files that it can read, with
  -- their hashes, and the manifest in the project's row tells what the project holds, a round whose
  -- frames are handled one after the other, and after which the socket is still open, leaves the agent's
  -- manifest in the row, and that tells what the project holds then: the old files that the agent has no
  -- more are gone, but for the names that every object inherits, and those of neither manifest are as
  -- they were.
  pub round_end-IsSynced :
      (conn : SyncConn) (db : Db) (f : F) (now : ℕ) (p : Project)
      → conn.user_id ≡ u
      → (find_project_of u id db).0 ≡ ok p
      → IsAdvertised contract hash read_base64 m
      → IsKept contract hash (get_or_else p.manifest []) f
      → (round_end store id read_base64 m conn db f now p).is_open ≡ true
      → IsSynced contract hash read_base64 m
          (get_or_else p.manifest [])
          f
          now
          p
          (round_end store id read_base64 m conn db f now p)
  unfolding round_end
  round_end-IsSynced conn db f now p same known advertised before h =
      let e = frames_lem conn db f now p same known advertised in
      rw e (answered-IsSynced db now p known advertised f before (rw e at h))
