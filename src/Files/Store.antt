-- ===== src/Files/Store.antt =====
-- The operations of the file store on one file (server/src/files/file-store.service.ts). The disk is the
-- state; the encodings are parameters, since they are Node's.
pub mod Contents
pub mod Refines
use pocket_dev.Base.{
  ℕ, ◌*◌, Text, Bool, true, false, Option, none, some, List, [], ◌∷◌, any, nat_eq, ltb, length,
  if◌then◌else◌, Result, ok, err, Exception, bad_request, failure,
}
use pocket_dev.Server.Execute.{Execute}
use pocket_dev.Files.Paths.{drop_last}
use pocket_dev.Files.SafePath.{project_dir, safe_resolve}
use pocket_dev.Files.Disk.{Bytes, Node, file, dir, node_at, make_dirs, write_node, remove_node}

-- What Node throws when a call on the disk fails.
abbrev pub io_error : Exception
io_error = failure "the file system refuses the call"

abbrev pub max_editable_bytes : ℕ
max_editable_bytes = 2 * 1024 * 1024

-- `content` and `size` of an opened file.
pub record Opened : Type 0 where
  pub content : Text
  pub size : ℕ

abbrev pub written_or : Bytes → Node → Option Node → Result ℕ × Node
written_or bytes made none = (err io_error, made)
written_or bytes made (some after) = (ok (length bytes), after)

-- `writeFile`, once the directory is there.
abbrev pub write_made : List Text → Bytes → Option Node → Execute Node ℕ
write_made abs bytes none disk = (err io_error, disk)
write_made abs bytes (some made) _ = written_or bytes made (write_node abs bytes (some made))

abbrev pub write_resolved : Bytes → Result (List Text) → Execute Node ℕ
write_resolved bytes (err e) disk = (err e, disk)
write_resolved bytes (ok abs) disk =
    write_made abs bytes (make_dirs (drop_last abs) (some disk)) disk

-- A file that is at the path, as the editor may see it.
abbrev pub read_found : (Bytes → Text) → Option Node → Result Opened
read_found decode none = err (bad_request "File not found")
read_found decode (some (dir _)) = err (bad_request "Not a file")
read_found decode (some (file b)) =
    if ltb max_editable_bytes (length b)
    then err (bad_request "File too large to edit")
    else if any (λ c. nat_eq c 0) b
    then err (bad_request "Binary file is not editable")
    else ok (record { content = decode b; size = length b })

abbrev pub read_resolved : (Bytes → Text) → Result (List Text) → Node → Result Opened
read_resolved decode (err e) disk = err e
read_resolved decode (ok abs) disk = read_found decode (node_at abs (some disk))

abbrev pub removed_or : Node → Option Node → Result (Unit {0}) × Node
removed_or disk none = (err io_error, disk)
removed_or disk (some after) = (ok tt, after)

abbrev pub remove_resolved : Result (List Text) → Execute Node Unit
remove_resolved (err e) disk = (err e, disk)
remove_resolved (ok abs) disk = removed_or disk (remove_node abs disk)

module _ (root : List Text) where
  -- What `writeText` and `writeBase64` share, once the content is decoded.
  unfoldable pub write_bytes : Text → Text → Text → Bytes → Execute Node ℕ
  write_bytes user_id project_id rel_path bytes disk =
      write_resolved bytes (safe_resolve (project_dir root user_id project_id) rel_path) disk

  unfoldable pub write_text : (Text → Bytes) → Text → Text → Text → Text → Execute Node ℕ
  unfolding write_bytes
  write_text encode user_id project_id rel_path content =
      write_bytes user_id project_id rel_path (encode content)

  unfoldable pub write_base64 : (Text → Bytes) → Text → Text → Text → Text → Execute Node ℕ
  unfolding write_bytes
  write_base64 decode user_id project_id rel_path base64 =
      write_bytes user_id project_id rel_path (decode base64)

  unfoldable pub read_text : (Bytes → Text) → Text → Text → Text → Node → Result Opened
  read_text decode user_id project_id rel_path disk =
      read_resolved decode (safe_resolve (project_dir root user_id project_id) rel_path) disk

  unfoldable pub remove : Text → Text → Text → Execute Node Unit
  remove user_id project_id rel_path disk =
      remove_resolved (safe_resolve (project_dir root user_id project_id) rel_path) disk
