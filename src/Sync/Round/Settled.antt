-- ===== src/Sync/Round/Settled.antt =====
-- A round after which nothing has changed (services/cli-agent/src/sync-client.ts and
-- server/src/sync/sync.gateway.ts together).
use pocket_dev.Base.{String, ◌≡◌}
use pocket_dev.Base.Dict.{get}
use pocket_dev.Server.Db.{Db}
use pocket_dev.Sync.Manifest.{FileManifest}
use pocket_dev.Sync.Manifest.Diff.{hash_of}
use pocket_dev.Sync.Client

-- The two manifests have one hash at every path, or neither has one.
abbrev pub HaveSameHashes : FileManifest → FileManifest → Type 0
HaveSameHashes kept m = (path : String) → hash_of (get path kept) ≡ hash_of (get path m)
