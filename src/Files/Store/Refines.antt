-- ===== src/Files/Store/Refines.antt =====
-- The file store as a map from paths to contents (server/src/files/file-store.service.ts): what the
-- directories are, and in which order their entries stand, is forgotten.
use pocket_dev.Base.{
  ℕ, Text, ◌≡◌, refl, ◌∙◌, Option, none, some, List, [], ◌∷◌, Option-cases, inl, inr, ok,
  if◌then◌else◌,
}
use pocket_dev.Files.Paths.{drop_last, relative}
use pocket_dev.Files.SafePath.Inside.{accepted-leaves}
use pocket_dev.Files.SafePath.{project_dir, safe_resolve}
use pocket_dev.Files.Disk.{Bytes, Node, remove_node}
use pocket_dev.Files.Store.{write_bytes, remove, removed_or}
use pocket_dev.Files.Store.Contents.{bytes-Written}
use pocket_dev.Files.Disk.Contents.{
  contents, same_path, is_below, write_node-contents, make_dirs-contents, remove_node-contents,
}

-- The specification: a write is an update of the map, and a removal drops all that lies below a path.
abbrev pub FileMap : Type 0
FileMap = List Text → Option Bytes

abbrev pub files : Node → FileMap
files disk path = contents path (some disk)

abbrev pub update : List Text → Bytes → FileMap → FileMap
update path b m q = if same_path path q then some b else m q

abbrev pub drop_below : List Text → FileMap → FileMap
drop_below path m q = if is_below path q then none else m q

pub accepted-not_root : (above : List Text) (path : Text) → ¬ (safe_resolve above path ≡ ok [])
unfolding relative
accepted-not_root [] path h = let stays = (accepted-leaves [] path [] h).0 in cc stays
accepted-not_root (s ∷ above) path h =
    let stays = (accepted-leaves (s ∷ above) path [] h).0 in cc stays

removed-contents :
    (abs : List Text) (disk after : Node) (q : List Text)
    → ¬ (abs ≡ [])
    → removed_or disk (remove_node abs disk) ≡ (ok tt, after)
    → contents q (some after) ≡ (if is_below abs q then none else contents q (some disk))
removed-contents [] disk after q inside h = absurd (inside refl)
removed-contents (s ∷ path) disk after q inside h =
    elim (Option-cases (remove_node (s ∷ path) disk)) [
      | inl e ↦ absurd (cc (rw e at h))
      | inr (n, e) ↦ remove_node-contents s path disk after q (cc (e, rw e at h))
    ]

module _ (root : List Text) (user_id project_id path : Text) (abs : List Text)
    (disk after : Node) where
  -- A write that succeeds is an update of the map: the path has the new content, and every other path
  -- has the content, or none, that it had.
  pub write_bytes-files :
      (bytes : Bytes) (n : ℕ) (q : List Text)
      → safe_resolve (project_dir root user_id project_id) path ≡ ok abs
      → write_bytes root user_id project_id path bytes disk ≡ (ok n, after)
      → files after q ≡ update abs bytes (files disk) q
  write_bytes-files bytes n q r h =
      let w = bytes-Written root user_id project_id path bytes abs disk after n r h in
      let before = make_dirs-contents (drop_last abs) (some disk) w.made q w.directories in
      let done = write_node-contents abs bytes (some w.made) after q w.contents in
      done ∙ rw before refl

  -- A removal that succeeds drops from the map what lies at the path and below it, a directory that is
  -- not empty included, and nothing else.
  pub remove-files :
      (q : List Text)
      → safe_resolve (project_dir root user_id project_id) path ≡ ok abs
      → remove root user_id project_id path disk ≡ (ok tt, after)
      → files after q ≡ drop_below abs (files disk) q
  unfolding remove
  remove-files q r h =
      removed-contents abs disk after q
        (λ e. accepted-not_root (project_dir root user_id project_id) path (rw (← e) r)) (rw r at h)
