-- ===== src/Sync/Stored/Disks/First.antt =====
-- The first round of a project (services/cli-agent/src/sync-client.ts and
-- server/src/sync/sync.gateway.ts, over the disks of both sides).
use pocket_dev.Base.{ℕ, String, Text, ◌≡◌, Option, none, some, List}
use pocket_dev.Server.Db.{Db, Project}
use pocket_dev.Files.Disk.{Bytes, Node, Entries, dir, node_at}
use pocket_dev.Files.SafePath.Portable.{IsPortable}
use pocket_dev.Files.Manifest.{build_manifest}
use pocket_dev.Files.Manifest.Complete.{IsTidy}
use pocket_dev.Files.Manifest.Listed.{AllNames}
use pocket_dev.Sync.Manifest.{FileManifest}
use pocket_dev.Sync.Gateway.{SyncConn, SyncState}
use pocket_dev.Sync.Round.Faithful.{round_end}
use pocket_dev.Sync.Stored.{disk_store}
use pocket_dev.Sync.Stored.Disks

-- What a path holds after it has been copied, if there is anything to copy.
abbrev pub copied : Option Bytes → Option Bytes → Option Bytes
copied (some b) old = some b
copied none old = old

module _ (encode : Bytes → Text) (decode : Text → Bytes) (hash : Bytes → String)
    (mtime : String → ℕ) (home : List Text) (laptop : Node) (es : Entries)
    (base64 : Disks.IsBase64 encode decode es)
    (at_home : node_at home (some laptop) ≡ some (dir es)) (tidy : IsTidy es)
    (portable : AllNames IsPortable es) (root : List Text) (u p : String) (conn : SyncConn)
    (db : Db) (disk : Node) (now : ℕ) (row : Project) where
  abbrev m : FileManifest
  m = build_manifest hash mtime home laptop

  abbrev after : SyncState Node
  after =
      round_end (disk_store root decode) p (Disks.agent_reads encode home laptop) m conn db disk now
        row
