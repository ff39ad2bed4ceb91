-- ===== src/Sync/Stored/Disks/Tests.antt =====
-- A round of the sync between two small disks.
use pocket_dev.Base.{◌≡◌, Text, codes, text_eq, refl, Option, none, some, List, [], ◌∷◌, ◌++◌}
use pocket_dev.Base.Dict.{get, put}
use pocket_dev.Base.Names.{char_of, string_of}
use pocket_dev.Server.Db.{Db, Project, find_unique}
use pocket_dev.Server.Projects.{find_project_of, update_manifest}
use pocket_dev.Files.Disk.{
  Bytes, Node, find_entry, set_entry, drop_entry, node_at, make_dirs, write_node, remove_node,
}
use pocket_dev.Files.Paths.{split, resolve, relative, enter, drop_last}
use pocket_dev.Files.SafePath.{project_dir, safe_resolve, to_posix, drop_slashes}
use pocket_dev.Files.Store.Refines.{files}
use pocket_dev.Files.Manifest.{build_manifest, walk, read_base64}
use pocket_dev.Sync.Manifest.{FileManifest, compute_diff, is_in, is_inherited}
use pocket_dev.Files.Tree.{is_ignored, join}
use pocket_dev.Files.Store
use pocket_dev.Sync.Client
use pocket_dev.Sync.Round.{in_order, agent_frames, sent}
use pocket_dev.Sync.Gateway.{SyncConn, SyncState, run, step, begin, pick, complete}
use pocket_dev.Sync.Round.Faithful.{round_end}
use pocket_dev.Sync.Stored.{disk_store, project}
use pocket_dev.Sync.Stored.Disks.{agent_reads}
use pocket_dev.Sync.Stored.Disks.Sample.{encode, decode, hash, mtime, home, laptop, root, disk}

abbrev conn : SyncConn
conn = record { user_id = "alice"; project_id = none; pending_manifest = none }

abbrev old_manifest : FileManifest
old_manifest =
    ("old.ts", record { path = "old.ts"; size = 1; mtime_ms = 5; hash = "hash of another" }) ∷ []

abbrev row_of : Option FileManifest → Project
row_of manifest = record {
  id = "p1";
  user_id = "alice";
  name = codes "Notes";
  slug = codes "notes";
  description = none;
  manifest = manifest;
  last_synced_at = none;
}

abbrev rows : Project → Db
rows row = record {
  users = [];
  projects = row ∷ [];
  jobs = [];
  sessions = [];
  subscriptions = [];
  presences = [];
}

abbrev after : Project → SyncState Node
after row =
    round_end (disk_store root decode) "p1" (agent_reads encode home laptop)
      (build_manifest hash mtime home laptop) conn (rows row) disk 7 row

-- The new file of the agent is there after a round, and the old one is gone.
abbrev at_project : List Text → Project → Option Bytes
at_project path row = files (after row).files (project root decode "alice" "p1" ++ path)

file_comes :
    at_project (codes "src" ∷ codes "a.ts" ∷ []) (row_of (some old_manifest)) ≡ some (codes "A")
unfolding round_end agent_frames sent in_order run step begin pick complete compute_diff Client.run
    Client.step find_project_of find_unique update_manifest get is_in is_inherited
    Store.write_base64 Store.remove safe_resolve project_dir split resolve enter relative to_posix
    drop_slashes drop_last text_eq make_dirs write_node remove_node find_entry set_entry drop_entry
    build_manifest walk read_base64 node_at put is_ignored string_of char_of join
file_comes = refl

file_goes : at_project (codes "old.ts" ∷ []) (row_of (some old_manifest)) ≡ none
unfolding round_end agent_frames sent in_order run step begin pick complete compute_diff Client.run
    Client.step find_project_of find_unique update_manifest get is_in is_inherited
    Store.write_base64 Store.remove safe_resolve project_dir split resolve enter relative to_posix
    drop_slashes drop_last text_eq make_dirs write_node remove_node find_entry set_entry drop_entry
    build_manifest walk read_base64 node_at put is_ignored string_of char_of join
file_goes = refl

-- Without a manifest in the row the server does not take the file for one of the agent's.
file_stays : at_project (codes "old.ts" ∷ []) (row_of none) ≡ some (codes "C")
unfolding round_end agent_frames sent in_order run step begin pick complete compute_diff Client.run
    Client.step find_project_of find_unique update_manifest get is_in is_inherited
    Store.write_base64 Store.remove safe_resolve project_dir split resolve enter relative to_posix
    drop_slashes drop_last text_eq make_dirs write_node remove_node find_entry set_entry drop_entry
    build_manifest walk read_base64 node_at put is_ignored string_of char_of join
file_stays = refl
