-- ===== src/Files/Tests.antt =====
-- Paths that the file store accepts and refuses.
use pocket_dev.Base.{
  Text, codes, text_eq, ◌≡◌, ◌≢◌, refl, List, [], ◌∷◌, ◌++◌, All, ok, err, bad_request, arith, leb,
  length, Bool, true, false,
}
use pocket_dev.Files.Paths.{split, resolve, relative, enter, drop_last, IsPlain}
use pocket_dev.Files.SafePath.{project_dir, safe_resolve, to_posix, drop_slashes}
use pocket_dev.Files.SafePath.Inside.{IsSegment, accepted_inside, projects_disjoint}
use pocket_dev.Files.Disk.{
  Bytes, Node, file, dir, empty, entry, node_at, find_entry, set_entry, make_dirs, write_node,
  Entries, remove_node, drop_entry,
}
use pocket_dev.Files.Store.{write_text, read_text, remove}
use pocket_dev.Files.Store.Contents.{read_text-write_text}
use pocket_dev.Files.Tree.{walk, file_node, dir_node, no_nodes, node}
use pocket_dev.Files.Store.Refines.{files, update, drop_below, write_bytes-files, remove-files}

abbrev store : List Text
store = codes "data" ∷ []

abbrev alice_p1 : List Text
alice_p1 = codes "data" ∷ codes "alice" ∷ codes "p1" ∷ []

abbrev main_file : List Text
main_file = codes "data" ∷ codes "alice" ∷ codes "p1" ∷ codes "src" ∷ codes "main.ts" ∷ []

alice_p1-IsPlain : All IsPlain alice_p1
unfolding text_eq
alice_p1-IsPlain = (
  record { not_idle = refl; not_parent = refl },
  (
    record { not_idle = refl; not_parent = refl },
    (record { not_idle = refl; not_parent = refl }, tt),
  ),
)

accepts_back : safe_resolve alice_p1 (codes "src/x/..//./main.ts") ≡ ok main_file
unfolding safe_resolve resolve text_eq enter drop_last relative split to_posix drop_slashes
accepts_back = refl

refuses_parent :
    safe_resolve alice_p1 (codes "src/../../p2/main.ts") ≡ err (bad_request "Illegal path")
unfolding safe_resolve resolve text_eq enter drop_last relative split to_posix drop_slashes
refuses_parent = refl

-- A name that begins with two dots is refused too.
refuses_dots : safe_resolve alice_p1 (codes "..notes") ≡ err (bad_request "Illegal path")
unfolding safe_resolve resolve text_eq enter drop_last relative split to_posix drop_slashes
refuses_dots = refl

refuses_drive : safe_resolve alice_p1 (codes "C:\\x") ≡ err (bad_request "Illegal path")
unfolding safe_resolve resolve text_eq enter drop_last relative split to_posix drop_slashes
refuses_drive = refl

accepted_inside_example :
    (below : List Text) × (main_file ≡ alice_p1 ++ below) × (below ≢ []) × All IsPlain below
accepted_inside_example =
    accepted_inside alice_p1 (codes "src/x/..//./main.ts") main_file alice_p1-IsPlain accepts_back

alice-IsSegment : IsSegment (codes "alice")
unfolding split text_eq
alice-IsSegment = record { one = refl; plain = record { not_idle = refl; not_parent = refl } }

p1-IsSegment : IsSegment (codes "p1")
unfolding split text_eq
p1-IsSegment = record { one = refl; plain = record { not_idle = refl; not_parent = refl } }

projects_disjoint_example : (codes "alice" ≡ codes "alice") × (codes "p1" ≡ codes "p1")
unfolding project_dir text_eq safe_resolve resolve enter drop_last relative split to_posix
    drop_slashes
projects_disjoint_example =
    projects_disjoint store (codes "alice") (codes "p1") (codes "alice") (codes "p1")
      (codes "src/x/..//./main.ts") (codes "src/main.ts") main_file alice-IsSegment p1-IsSegment
      alice-IsSegment p1-IsSegment refl refl

abbrev disk0 : Node
disk0 = dir (
    entry (codes "data")
      (dir (
        entry (codes "bob")
          (dir (entry (codes "p2") (dir (entry (codes "a.ts") (file (7 ∷ [])) empty)) empty))
          empty))
      empty)

-- ASCII texts are their own bytes.
abbrev ascii : Text → Bytes
ascii s = s

abbrev disk1 : Node
disk1 =
    (write_text store ascii (codes "alice") (codes "p1") (codes "src/main.ts") (codes "hi") disk0).1

read_text-write_text_example :
    read_text store ascii (codes "alice") (codes "p1") (codes "src/main.ts") disk1
    ≡ ok (record { content = codes "hi"; size = 2 })
unfolding write_text project_dir safe_resolve resolve text_eq enter drop_last relative split
    to_posix drop_slashes find_entry set_entry make_dirs write_node
read_text-write_text_example =
    read_text-write_text store (codes "alice") (codes "p1") ascii ascii (codes "src/main.ts")
      (codes "hi") disk0 disk1 2 refl (omega arith) refl refl

abbrev bob_file : List Text
bob_file = codes "data" ∷ codes "bob" ∷ codes "p2" ∷ codes "a.ts" ∷ []

bob-IsSegment : IsSegment (codes "bob")
unfolding split text_eq
bob-IsSegment = record { one = refl; plain = record { not_idle = refl; not_parent = refl } }

p2-IsSegment : IsSegment (codes "p2")
unfolding split text_eq
p2-IsSegment = record { one = refl; plain = record { not_idle = refl; not_parent = refl } }

abbrev shorter : Text → Text → Bool
shorter a b = leb (length a) (length b)

abbrev listing : Entries
listing = entry (codes "main.ts") (file (7 ∷ [])) (
    entry (codes "dist") (dir (entry (codes "x.js") (file []) empty))
      (entry (codes "src") (dir (entry (codes "a.ts") (file (1 ∷ 2 ∷ [])) empty)) empty))

lists_tree :
    walk shorter [] listing
    ≡ node
        (dir_node
          (codes "src")
          (codes "src")
          (node (file_node (codes "a.ts") (codes "src/a.ts") 2) no_nodes))
        (node (file_node (codes "main.ts") (codes "main.ts") 1) no_nodes)
unfolding walk text_eq
lists_tree = refl

shorter_total : (a b : Text) → shorter a b ≡ false → shorter b a ≡ true
shorter_total a b h = ground arith

shorter_trans : (a b c : Text) → shorter a b ≡ true → shorter b c ≡ true → shorter a c ≡ true
shorter_trans a b c h g = ground arith

write_bytes-files_example :
    files disk1 bob_file ≡ update main_file (codes "hi") (files disk0) bob_file
unfolding write_text project_dir safe_resolve resolve text_eq enter drop_last relative split
    to_posix drop_slashes find_entry set_entry make_dirs write_node node_at
write_bytes-files_example =
    write_bytes-files store (codes "alice") (codes "p1") (codes "src/main.ts") main_file disk0 disk1
      (codes "hi") 2 bob_file refl refl

-- The directory of the file goes with all that is in it.
abbrev disk2 : Node
disk2 = (remove store (codes "alice") (codes "p1") (codes "src") disk1).1

remove-files_example :
    files disk2 main_file ≡ drop_below (alice_p1 ++ codes "src" ∷ []) (files disk1) main_file
unfolding write_text project_dir safe_resolve resolve text_eq enter drop_last relative split
    to_posix drop_slashes find_entry set_entry make_dirs write_node node_at remove remove_node
    drop_entry
remove-files_example =
    remove-files store (codes "alice") (codes "p1") (codes "src") (alice_p1 ++ codes "src" ∷ [])
      disk1 disk2 main_file refl refl
