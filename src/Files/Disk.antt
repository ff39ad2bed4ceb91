-- ===== src/Files/Disk.antt =====
-- The disk under the file store, as a tree, with the calls of Node that the store makes: `mkdir` with
-- `recursive`, `writeFile`, `rm` with `recursive` and `force`. `none` is a call that throws.
pub mod Laws
pub mod Contents
pub mod Fits
use pocket_dev.Base.{
  ℕ, Text, text_eq, Bool, true, false, Option, none, some, List, [], ◌∷◌, if◌then◌else◌,
}

abbrev pub Bytes : Type 0
Bytes = List ℕ

mutual
  pub data Node : Type 0 where
    file : Bytes → Node
    dir : Entries → Node

  pub data Entries : Type 0 where
    empty : Entries
    entry : Text → Node → Entries → Entries

unfoldable pub find_entry : Text → Entries → Option Node
find_entry s empty = none
find_entry s (entry t n es) = let rest = find_entry s es in if text_eq t s then some n else rest

-- An entry that is there keeps its place.
unfoldable pub set_entry : Text → Node → Entries → Entries
set_entry s n empty = entry s n empty
set_entry s n (entry t m es) =
    let rest = set_entry s n es in if text_eq t s then entry s n es else entry t m rest

unfoldable pub drop_entry : Text → Entries → Entries
drop_entry s empty = empty
drop_entry s (entry t m es) =
    let rest = drop_entry s es in if text_eq t s then rest else entry t m rest

-- What is at a path below a node.
unfoldable pub node_at : List Text → Option Node → Option Node
node_at [] o = o
node_at (s ∷ path) none = none
node_at (s ∷ path) (some (file _)) = none
node_at (s ∷ path) (some (dir es)) = node_at path (find_entry s es)

-- A directory with a new or changed entry, if there is one.
abbrev pub put_in : Text → Entries → Option Node → Option Node
put_in s es none = none
put_in s es (some n) = some (dir (set_entry s n es))

-- `mkdir(path, { recursive: true })`: it throws where the path meets a file.
unfoldable pub make_dirs : List Text → Option Node → Option Node
make_dirs [] none = some (dir empty)
make_dirs [] (some (dir es)) = some (dir es)
make_dirs (s ∷ path) none = put_in s empty (make_dirs path none)
make_dirs (s ∷ path) (some (dir es)) = put_in s es (make_dirs path (find_entry s es))
make_dirs _ (some (file _)) = none

-- `writeFile(path, bytes)`: it throws on a directory, and without the directory of the path.
unfoldable pub write_node : List Text → Bytes → Option Node → Option Node
write_node [] b (some (dir _)) = none
write_node [] b _ = some (file b)
write_node (s ∷ path) b (some (dir es)) = put_in s es (write_node path b (find_entry s es))
write_node (s ∷ path) b _ = none

-- `rm(path, { recursive: true, force: true })`: nothing where there is nothing; it throws where the way
-- to the path meets a file.
unfoldable pub remove_node : List Text → Node → Option Node
remove_node [] n = some n
remove_node (s ∷ path) (file _) = none
remove_node (s ∷ []) (dir es) = some (dir (drop_entry s es))
remove_node (s ∷ t ∷ path) (dir es) = elim (find_entry s es) [
  | none ↦ some (dir es)
  | some n ↦ put_in s es (remove_node (t ∷ path) n)
]
