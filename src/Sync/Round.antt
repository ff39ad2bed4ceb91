-- ===== src/Sync/Round.antt =====
-- A round of the sync from end to end: the agent's frames (services/cli-agent/src/sync-client.ts) at the
-- server's gateway (server/src/sync/sync.gateway.ts), each handled before the next one comes, over what
-- the gateway assumes of the file store.
mod Phases
mod Removals
mod Frames
pub mod Open
pub mod Outcome
pub mod Faithful
pub mod Through
pub mod Settled
use pocket_dev.Base.{
  ℕ, String, ◌≡◌, Bool, true, false, ◌&&◌, Option, none, some, List, [], ◌∷◌, ◌++◌, ◌==◌,
  if◌then◌else◌, Result, ok, err,
}
use pocket_dev.Base.Dict.{get}
use pocket_dev.Server.Db.{Db}
use pocket_dev.Sync.Manifest.{FileManifestEntry, FileManifest, ManifestDiff}
use pocket_dev.Sync.Gateway.{
  FileStore, SyncClientMessage, SyncConn, SyncState, Event, frame, resumed, diff, run,
}
use pocket_dev.Sync.Client

-- What one user's project holds at a path, and what the operations of a store do to it. `Sound` are the
-- paths that name a file as the agent writes it; `decode` is the decoding of base64.
pub record Contract {F : Type 0} (store : FileStore F) (user_id project_id : String) (B : Type 0)
    : Type 1 where
  pub decode : String → B
  pub Sound : String → Type 0
  pub content : F → String → Option B
  pub content-write :
      (path q c : String) (n : ℕ) (f after : F)
      → Sound path
      → Sound q
      → store.write_base64 user_id project_id path c f ≡ (ok n, after)
      → content after q ≡ (if path == q then some (decode c) else content f q)
  pub content-remove :
      (path q : String) (b : B) (f after : F)
      → Sound path
      → Sound q
      → content f path ≡ some b
      → store.remove user_id project_id path f ≡ (ok tt, after)
      → content after q ≡ (if path == q then none else content f q)

-- Each frame is handled to its end before the next one comes.
unfoldable pub in_order : ℕ → List SyncClientMessage → List Event
in_order now [] = []
in_order now (m ∷ ms) = frame (some m) ∷ resumed 0 now ∷ in_order now ms

-- The frames among what the agent does.
unfoldable pub sent : List Client.Effect → List SyncClientMessage
sent [] = []
sent (Client.send m ∷ out) = m ∷ sent out
sent (Client.close _ _ ∷ out) = sent out

-- The frames of an agent whose socket opens and that is then answered with a difference.
unfoldable pub agent_frames :
    String → (String → Result String) → FileManifest → ManifestDiff → List SyncClientMessage
unfolding sent
agent_frames project_id read_base64 m d =
    sent
      (Client.run project_id read_base64 m
        (Client.opened ∷ Client.message (some (diff project_id d)) ∷ []) Client.begun).1

-- The socket between two frames of a round.
abbrev pub at_rest : {F : Type 0} → SyncConn → Bool → Db → F → SyncState F
at_rest conn is_open db files = record {
  conn = conn;
  is_open = is_open;
  tasks = [];
  db = db;
  files = files;
}

abbrev pub advertised : String → String → FileManifest → SyncConn
advertised user_id project_id m = record {
  user_id = user_id;
  project_id = some project_id;
  pending_manifest = some m;
}

-- A manifest tells what the project holds: every file that it lists is there, with its hash.
abbrev pub IsFaithful : {B : Type 0} → (B → String) → FileManifest → (String → Option B) → Type 0
IsFaithful {B} hash m content =
    (path : String) (e : FileManifestEntry)
    → get path m ≡ some e
    → (b : B) × (content path ≡ some b) × (hash b ≡ e.hash)
