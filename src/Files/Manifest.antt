-- ===== src/Files/Manifest.antt =====
-- The manifest of what is on a disk: `computeManifest` and `collectManifest` of
-- server/src/files/file-store.service.ts, and the agent's `buildManifest`, `walk` and `readBase64` of
-- services/cli-agent/src/manifest.ts. SHA-256, base64 and the times of the files are parameters; every
-- file can be read.
pub mod Complete
pub mod Agrees
pub mod Listed
pub mod Readable
pub mod Refused
mod Tests
use pocket_dev.Base.{
  ℕ, ◌*◌, String, Text, Bool, true, false, Option, none, some, List, [], ◌∷◌, ◌++◌, length, ltb,
  if◌then◌else◌, Result, ok, err,
}
use pocket_dev.Base.Dict.{assign}
use pocket_dev.Server.Execute.{Execute}
use pocket_dev.Files.Disk.{Bytes, Node, Entries, file, dir, empty, entry, node_at, make_dirs}
use pocket_dev.Files.Paths.{split, resolve}
use pocket_dev.Files.SafePath.{project_dir}
use pocket_dev.Files.Store.{io_error}
use pocket_dev.Files.Tree.{is_ignored}
use pocket_dev.Files.Keys.{key}
use pocket_dev.Sync.Manifest.{FileManifestEntry, FileManifest}

-- `MAX_FILE_BYTES` of the agent.
abbrev pub max_file_bytes : ℕ
max_file_bytes = 10 * 1024 * 1024

module _ (hash : Bytes → String) (mtime : String → ℕ) where
  abbrev pub entry_for : String → Bytes → FileManifestEntry
  entry_for path b = record { path = path; size = length b; mtime_ms = mtime path; hash = hash b }

  -- `collectManifest`, for the entries of the directory with these segments; what is found is put into
  -- the manifest so far.
  unfoldable pub collect_manifest : List Text → Entries → FileManifest → FileManifest
  unfolding is_ignored assign
  collect_manifest rel empty out = out
  collect_manifest rel (entry s (file b) es) out =
      let path = key (rel ++ s ∷ []) in collect_manifest rel es (assign path (entry_for path b) out)
  collect_manifest rel (entry s (dir sub) es) out =
      let below = collect_manifest (rel ++ s ∷ []) sub out in
      collect_manifest rel es (if is_ignored s then out else below)

  -- The agent's `walk`: a file that is too large is left out.
  unfoldable pub walk : List Text → Entries → FileManifest → FileManifest
  unfolding is_ignored assign
  walk rel empty out = out
  walk rel (entry s (file b) es) out =
      let path = key (rel ++ s ∷ []) in
      walk rel es
        (if ltb max_file_bytes (length b) then out else assign path (entry_for path b) out)
  walk rel (entry s (dir sub) es) out =
      let below = walk (rel ++ s ∷ []) sub out in walk rel es (if is_ignored s then out else below)

  -- `readdir` fails on what is no directory, and nothing is collected.
  abbrev collected : Option Node → FileManifest
  collected (some (dir es)) = collect_manifest [] es []
  collected _ = []

  abbrev computed : List Text → Option Node → Execute Node FileManifest
  computed project_root none disk = (err io_error, disk)
  computed project_root (some made) _ = (ok (collected (node_at project_root (some made))), made)

  unfoldable pub compute_manifest : List Text → Text → Text → Execute Node FileManifest
  unfolding collect_manifest
  compute_manifest root user_id project_id disk =
      let project_root = project_dir root user_id project_id in
      computed project_root (make_dirs project_root (some disk)) disk

  abbrev walked : Option Node → FileManifest
  walked (some (dir es)) = walk [] es []
  walked _ = []

  unfoldable pub build_manifest : List Text → Node → FileManifest
  unfolding walk
  build_manifest root disk = walked (node_at root (some disk))

abbrev encoded : (Bytes → Text) → Option Node → Result Text
encoded encode (some (file b)) = ok (encode b)
encoded encode _ = err io_error

-- `readBase64`
unfoldable pub read_base64 : (Bytes → Text) → List Text → Node → Text → Result Text
read_base64 encode root disk rel_path =
    encoded encode (node_at (resolve root (split rel_path)) (some disk))
