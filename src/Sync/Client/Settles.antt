-- ===== src/Sync/Client/Settles.antt =====
-- How a round of the agent ends (services/cli-agent/src/sync-client.ts).
use pocket_dev.Base.{
  ◌+◌, String, ◌≡◌, refl, Bool, true, false, none, some, List, [], ◌∷◌, ◌++◌, map, arith, count,
  count-append, length, Result, Result-cases, inl, inr,
}
use pocket_dev.Sync.Manifest.{FileManifest, ManifestDiff}
use pocket_dev.Sync.Gateway.{SyncClientMessage, diff, ack, synced}
use pocket_dev.Sync.Client.{
  SyncResult, Outcome, Round, Event, opened, message, failed, closed, finish, file_frames,
  push_diff, pushed, step, run,
}

-- A frame of each kind.
abbrev pub is_file : SyncClientMessage → Bool
is_file (SyncClientMessage.file _ _ _) = true
is_file _ = false

abbrev pub is_removed : SyncClientMessage → Bool
is_removed (SyncClientMessage.removed _ _) = true
is_removed _ = false

abbrev pub is_done : SyncClientMessage → Bool
is_done (SyncClientMessage.done _) = true
is_done _ = false

module _ (project_id : String) (read_base64 : String → Result String) where
  settled_step :
      (m : FileManifest) (e : Event) (r : Round) (o : Outcome)
      → r.settled ≡ some o
      → (step project_id read_base64 m e r).0.settled ≡ some o
  unfolding step finish
  settled_step m (message none) r o h = h
  settled_step m (message (some (diff _ d))) r o h = h
  settled_step m (message (some (synced _))) r o h = ground arith
  settled_step m (message (some (ack _ _))) r o h = h
  settled_step m opened r o h = h
  settled_step m (failed reason) r o h = ground arith
  settled_step m (closed code) r o h = ground arith

  -- The first end of a round decides: a promise that is settled keeps what it was settled with,
  -- whatever comes on the socket afterwards.
  pub first_end_decides :
      (m : FileManifest) (es : List Event) (r : Round) (o : Outcome)
      → r.settled ≡ some o
      → (run project_id read_base64 m es r).0.settled ≡ some o
  unfolding run
  first_end_decides m [] r o h = h
  first_end_decides m (e ∷ es) r o h =
      first_end_decides m es (step project_id read_base64 m e r).0 o (settled_step m e r o h)

  count-file_frames :
      (paths : List String)
      → let frames = file_frames project_id read_base64 paths in
        (count is_file frames ≡ length frames)
        × (count is_removed frames ≡ 0)
        × (count is_done frames ≡ 0)
  unfolding file_frames
  count-file_frames [] = (refl, refl, refl)
  count-file_frames (path ∷ paths) = elim (Result-cases (read_base64 path)) [
    | inl (content, e) ↦ ground (arith, e, count-file_frames paths)
    | inr (x, e) ↦ ground (arith, e, count-file_frames paths)
  ]

  count-map_removed :
      (paths : List String)
      → let frames = map (λ path. SyncClientMessage.removed project_id path) paths in
        (count is_removed frames ≡ length paths)
        × (count is_file frames ≡ 0)
        × (count is_done frames ≡ 0)
  count-map_removed [] = (refl, refl, refl)
  count-map_removed (path ∷ paths) = ground (arith, count-map_removed paths)

  -- An answer to a diff counts what it sends: the result grows by the file frames and by the removals
  -- that are sent, and one `done` is sent.
  pub pushed_lem :
      (d : ManifestDiff) (r : SyncResult)
      → let frames = push_diff project_id read_base64 d in
        let after = pushed project_id read_base64 d r in
        (after.changed ≡ r.changed + count is_file frames)
        × (after.removed ≡ r.removed + count is_removed frames)
        × (count is_done frames ≡ 1)
  unfolding push_diff pushed
  pushed_lem d r =
      let files = file_frames project_id read_base64 d.changed in
      let dropped = map (λ path. SyncClientMessage.removed project_id path) d.removed in
      let last = SyncClientMessage.done project_id ∷ [] in
      let both = λ (p : SyncClientMessage → Bool). count-append p files (dropped ++ last) in
      let tail = λ (p : SyncClientMessage → Bool). count-append p dropped last in
      let f = count-file_frames d.changed in
      let g = count-map_removed d.removed in
      (
        omega (arith, both is_file, tail is_file, f, g),
        omega (arith, both is_removed, tail is_removed, f, g),
        omega (arith, both is_done, tail is_done, f, g),
      )
