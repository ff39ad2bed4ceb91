-- ===== src/Files/Store/Contents.antt =====
-- What the file store holds after a write (server/src/files/file-store.service.ts).
use pocket_dev.Base.{
  ℕ, ◌≤◌, Text, ◌≡◌, ◌≢◌, refl, false, Option, none, some, List, arith, any, nat_eq, length,
  Option-cases, Result-cases, inl, inr, Result, ok, err,
}
use pocket_dev.Files.Paths.{drop_last}
use pocket_dev.Files.SafePath.{project_dir, safe_resolve}
use pocket_dev.Files.SafePath.Inside.{IsSegment, projects_disjoint}
use pocket_dev.Files.Disk.{Bytes, Node, Entries, file, dir, node_at, make_dirs, write_node}
use pocket_dev.Files.Disk.Laws.{
  node_at-write_node, write_node-keeps, make_dirs-keeps, make_dirs-dir, write_node-dir,
}
use pocket_dev.Files.Store.{
  io_error, max_editable_bytes, written_or, write_made, write_bytes, write_text, read_text,
}

-- A write that succeeded made the directories and then wrote the file.
pub record Written (abs : List Text) (bytes : Bytes) (disk after : Node) (n : ℕ) : Type 0 where
  pub made : Node
  pub directories : make_dirs (drop_last abs) (some disk) ≡ some made
  pub contents : write_node abs bytes (some made) ≡ some after
  pub size : n ≡ length bytes

made-Written :
    (abs : List Text) (bytes : Bytes) (disk made after : Node) (n : ℕ) (o : Option Node)
    → make_dirs (drop_last abs) (some disk) ≡ some made
    → write_node abs bytes (some made) ≡ o
    → written_or bytes made o ≡ (ok n, after)
    → Written abs bytes disk after n
made-Written abs bytes disk made after n none e f h = absurd (cc h)
made-Written abs bytes disk made after n (some m) e f h = record {
  made = made;
  directories = e;
  contents = cc (f, h);
  size = cc h;
}

resolved-Written :
    (abs : List Text) (bytes : Bytes) (disk after : Node) (n : ℕ) (o : Option Node)
    → make_dirs (drop_last abs) (some disk) ≡ o
    → write_made abs bytes o disk ≡ (ok n, after)
    → Written abs bytes disk after n
resolved-Written abs bytes disk after n none e h = absurd (cc h)
resolved-Written abs bytes disk after n (some made) e h =
    made-Written abs bytes disk made after n _ e refl h

module _ (root : List Text) (user_id project_id : Text) where
  abbrev resolved : Text → Result (List Text)
  resolved path = safe_resolve (project_dir root user_id project_id) path

  pub bytes-Written :
      (path : Text) (bytes : Bytes) (abs : List Text) (disk after : Node) (n : ℕ)
      → resolved path ≡ ok abs
      → write_bytes root user_id project_id path bytes disk ≡ (ok n, after)
      → Written abs bytes disk after n
  unfolding write_bytes
  bytes-Written path bytes abs disk after n r h =
      resolved-Written abs bytes disk after n _ refl (rw r at h)

  -- A text that was written is read back, with the size that the write gave, where the encoding is
  -- undone by the decoding, the file is not too large for the editor, and it has no zero byte.
  pub read_text-write_text :
      (encode : Text → Bytes) (decode : Bytes → Text) (path content : Text) (disk after : Node)
      (n : ℕ)
      → decode (encode content) ≡ content
      → length (encode content) ≤ max_editable_bytes
      → any (λ c. nat_eq c 0) (encode content) ≡ false
      → write_text root encode user_id project_id path content disk ≡ (ok n, after)
      → read_text root decode user_id project_id path after
        ≡ ok (record { content = content; size = n })
  unfolding write_text read_text
  read_text-write_text encode decode path content disk after n undone small text h =
      elim (Result-cases (resolved path)) [
        | inl (abs, r) ↦
            let w = bytes-Written path (encode content) abs disk after n r h in
            let there = node_at-write_node abs (encode content) (some w.made) after w.contents in
            rw (r, there) (ground (arith, text, small, undone, w.size))
        | inr (e, r) ↦ absurd (unfold write_bytes in cc (rw r at h))
      ]

  -- A write leaves the other files of the disk as they are.
  pub write_bytes-keeps :
      (path : Text) (bytes : Bytes) (abs other : List Text) (c : Bytes) (disk after : Node) (n : ℕ)
      → safe_resolve (project_dir root user_id project_id) path ≡ ok abs
      → abs ≢ other
      → write_bytes root user_id project_id path bytes disk ≡ (ok n, after)
      → node_at other (some disk) ≡ some (file c)
      → node_at other (some after) ≡ some (file c)
  write_bytes-keeps path bytes abs other c disk after n r apart h f =
      let w = bytes-Written path bytes abs disk after n r h in
      write_node-keeps abs bytes (some w.made) after other c w.contents apart
        (make_dirs-keeps (drop_last abs) (some disk) w.made other c w.directories f)

-- A write in one project leaves the files of every other project as they are.
pub write_bytes-isolated :
    (root : List Text) (u p u' p' path path' : Text) (bytes c : Bytes) (other : List Text)
    (disk after : Node) (n : ℕ)
    → IsSegment u
    → IsSegment p
    → IsSegment u'
    → IsSegment p'
    → ¬ ((u ≡ u') × (p ≡ p'))
    → safe_resolve (project_dir root u' p') path' ≡ ok other
    → write_bytes root u p path bytes disk ≡ (ok n, after)
    → node_at other (some disk) ≡ some (file c)
    → node_at other (some after) ≡ some (file c)
write_bytes-isolated root u p u' p' path path' bytes c other disk after n hu hp hu' hp' apart r' h
      f =
    elim (Result-cases (safe_resolve (project_dir root u p) path)) [
      | inl (abs, r) ↦
          write_bytes-keeps root u p path bytes abs other c disk after n r
            (λ same.
              apart (
                projects_disjoint root u p u' p' path path' other hu hp hu' hp' (rw (← same) r) r'))
            h f
      | inr (e, r) ↦ absurd (unfold write_bytes in cc (rw r at h))
    ]

-- A file is not written where a directory stands: the write fails, whatever it would write.
pub directory_blocks_write :
    (root : List Text) (u p path : Text) (bytes : Bytes) (abs : List Text) (es : Entries)
    (disk : Node)
    → safe_resolve (project_dir root u p) path ≡ ok abs
    → node_at abs (some disk) ≡ some (dir es)
    → (write_bytes root u p path bytes disk).0 ≡ err io_error
unfolding write_bytes
directory_blocks_write root u p path bytes abs es disk r d =
    elim (Option-cases (make_dirs (drop_last abs) (some disk))) [
      | inl e ↦ rw (r, e)
      | inr (made, e) ↦
          let (fs, stays) = make_dirs-dir (drop_last abs) (some disk) made abs es e d in
          rw (r, e) (rw (write_node-dir abs bytes (some made) fs stays))
    ]
