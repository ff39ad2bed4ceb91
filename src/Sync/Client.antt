-- ===== src/Sync/Client.antt =====
-- One round of the agent (services/cli-agent/src/sync-client.ts). What reading a file gives is a
-- parameter; `pushDiff` is one event, as nothing that it waits for answers to the server.
pub mod Settles
use pocket_dev.Base.{
  ℕ, ◌+◌, String, Bool, true, false, Option, none, some, List, [], ◌∷◌, ◌++◌, map, length, Result,
  ok, err, is_some, if◌then◌else◌,
}
use pocket_dev.Sync.Manifest.{FileManifest, ManifestDiff}
use pocket_dev.Sync.Gateway.{SyncClientMessage, SyncServerMessage, diff, ack, synced}

pub record SyncResult : Type 0 where
  pub changed : ℕ
  pub removed : ℕ

-- What the promise of `syncOnce` was settled with.
pub data Outcome : Type 0 where
  resolved : SyncResult → Outcome
  socket_error : String → Outcome
  closed_early : ℕ → Outcome

pub record Round : Type 0 where
  pub settled : Option Outcome
  pub result : SyncResult

pub data Effect : Type 0 where
  send : SyncClientMessage → Effect
  close : ℕ → String → Effect

pub data Event : Type 0 where
  opened : Event
  -- a frame; `none` is one that does not parse
  message : Option SyncServerMessage → Event
  failed : String → Event
  closed : ℕ → Event

-- `finish`
unfoldable pub finish : Outcome → Round → Round
finish o r = if is_some r.settled then r else record r { settled = some o }

module _ (project_id : String) (read_base64 : String → Result String) where
  abbrev pub file_frame : String → Result String → List SyncClientMessage
  file_frame path (ok content) = SyncClientMessage.file project_id path content ∷ []
  file_frame path (err e) = []

  -- The files that can be read, in the order of the diff.
  unfoldable pub file_frames : List String → List SyncClientMessage
  file_frames [] = []
  file_frames (path ∷ paths) = file_frame path (read_base64 path) ++ file_frames paths

  unfoldable pub push_diff : ManifestDiff → List SyncClientMessage
  unfolding file_frames
  push_diff d =
      file_frames d.changed
      ++ (map (λ path. SyncClientMessage.removed project_id path) d.removed
          ++ SyncClientMessage.done project_id ∷ [])

  -- The counts that `pushDiff` adds to the result.
  unfoldable pub pushed : ManifestDiff → SyncResult → SyncResult
  unfolding file_frames
  pushed d r = record {
    changed = r.changed + length (file_frames d.changed);
    removed = r.removed + length d.removed;
  }

  unfoldable pub step : FileManifest → Event → Round → Round × List Effect
  unfolding finish push_diff pushed
  step m opened r = (r, send (SyncClientMessage.manifest project_id m) ∷ [])
  step m (message none) r = (r, [])
  step m (message (some (diff _ d))) r =
      (record r { result = pushed d r.result }, map (λ f. send f) (push_diff d))
  step m (message (some (synced _))) r = (finish (resolved r.result) r, close 1000 "done" ∷ [])
  step m (message (some (ack _ _))) r = (r, [])
  step m (failed reason) r = (finish (socket_error reason) r, [])
  step m (closed code) r = (finish (closed_early code) r, [])

  unfoldable pub run : FileManifest → List Event → Round → Round × List Effect
  run m [] r = (r, [])
  run m (e ∷ es) r = let (q, out) = step m e r in let (p, rest) = run m es q in (p, out ++ rest)

abbrev pub begun : Round
begun = record { settled = none; result = record { changed = 0; removed = 0 } }
