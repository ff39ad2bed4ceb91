-- ===== src/Files/Tree.antt =====
-- The file tree for the browser (`tree` and `walk` of server/src/files/file-store.service.ts, `FileNode`
-- of packages/shared/src/files.ts). `localeCompare` is a parameter: whether one name is not after another.
pub mod Order
use pocket_dev.Base.{
  ℕ, Text, codes, text_eq, Bool, true, false, Option, none, some, List, [], ◌∷◌, ◌++◌, any, length,
  if◌then◌else◌, ok, err,
}
use pocket_dev.Files.Paths.{slash}
use pocket_dev.Files.Disk.{Node, Entries, file, dir, empty, entry, node_at, make_dirs}
use pocket_dev.Files.SafePath.{project_dir}
use pocket_dev.Files.Store.{io_error}
use pocket_dev.Server.Execute.{Execute}

mutual
  pub data FileNode : Type 0 where
    -- the name, the path from the project, and the size or the children
    file_node : Text → Text → ℕ → FileNode
    dir_node : Text → Text → FileNodes → FileNode

  pub data FileNodes : Type 0 where
    no_nodes : FileNodes
    node : FileNode → FileNodes → FileNodes

-- `IGNORED_DIRS`
abbrev ignored_dirs : List Text
ignored_dirs =
    codes ".git" ∷ codes "node_modules" ∷ codes "dist" ∷ codes ".expo" ∷ codes ".turbo" ∷ []

unfoldable pub is_ignored : Text → Bool
is_ignored name = any (λ d. text_eq d name) ignored_dirs

-- `join('/')`
unfoldable pub join : List Text → Text
join [] = []
join (s ∷ []) = s
join (s ∷ t ∷ path) = s ++ slash ∷ join (t ∷ path)

module _ (not_after : Text → Text → Bool) where
  -- Directories first, then files, each by name.
  abbrev pub in_order : FileNode → FileNode → Bool
  in_order (dir_node a _ _) (dir_node b _ _) = not_after a b
  in_order (file_node a _ _) (file_node b _ _) = not_after a b
  in_order (dir_node _ _ _) (file_node _ _ _) = true
  in_order (file_node _ _ _) (dir_node _ _ _) = false

  -- One node among sorted ones, before those that compare equal: the sort is stable.
  unfoldable pub insert : FileNode → FileNodes → FileNodes
  insert x no_nodes = node x no_nodes
  insert x (node y ys) =
      let rest = insert x ys in if in_order x y then node x (node y ys) else node y rest

  -- `walk`, for the entries of the directory with these segments.
  unfoldable pub walk : List Text → Entries → FileNodes
  unfolding insert is_ignored join
  walk rel empty = no_nodes
  walk rel (entry s (file b) es) =
      insert (file_node s (join (rel ++ s ∷ [])) (length b)) (walk rel es)
  walk rel (entry s (dir sub) es) =
      let rest = walk rel es in
      let children = walk (rel ++ s ∷ []) sub in
      if is_ignored s then rest else insert (dir_node s (join (rel ++ s ∷ [])) children) rest

  abbrev walk_found : Option Node → FileNodes
  walk_found (some (dir es)) = walk [] es
  walk_found _ = no_nodes

  abbrev tree_made : List Text → Option Node → Execute Node FileNode
  tree_made project_root none disk = (err io_error, disk)
  tree_made project_root (some made) _ =
      (ok (dir_node [] [] (walk_found (node_at project_root (some made)))), made)

  -- `tree`: the project's directory is made if it is not there.
  unfoldable pub tree : List Text → Text → Text → Execute Node FileNode
  unfolding walk
  tree root user_id project_id disk =
      let project_root = project_dir root user_id project_id in
      tree_made project_root (make_dirs project_root (some disk)) disk
