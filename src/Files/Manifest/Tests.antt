-- ===== src/Files/Manifest/Tests.antt =====
-- The manifest of a small tree.
use pocket_dev.Base.{
  ℕ, String, Text, codes, text_eq, ◌≡◌, refl, false, some, List, [], ◌∷◌, if◌then◌else◌, All, err,
  bad_request, nat_eq,
}
use pocket_dev.Base.Names.{string_of, char_of, IsCharText}
use pocket_dev.Base.Dict.{get, put}
use pocket_dev.Files.Disk.{Bytes, Node, Entries, file, dir, empty, entry, find_entry, node_at}
use pocket_dev.Files.Paths.{IsPlain, slash}
use pocket_dev.Files.Tree.{is_ignored, join}
use pocket_dev.Files.Keys.{key, IsName}
use pocket_dev.Files.Manifest.{entry_for, build_manifest}
use pocket_dev.Files.Manifest.Refused.{dotted, dotted_refused}
use pocket_dev.Files.SafePath.{to_posix}
use pocket_dev.Files.Store.{write_bytes}

abbrev hash : Bytes → String
hash b = if text_eq b (codes "A") then "hash of A" else "hash of B"

abbrev mtime : String → ℕ
mtime path = 5

abbrev source : Entries
source = entry (codes "a.ts") (file (codes "A")) empty

abbrev entries : Entries
entries =
    entry (codes "src") (dir source)
      (entry (codes ".git") (dir source) (entry (codes "b.ts") (file (codes "B")) empty))

abbrev disk : Node
disk = dir (entry (codes "home") (dir entries) empty)

abbrev root : List Text
root = codes "home" ∷ []

lists_sources :
    build_manifest hash mtime root disk
    ≡ ("src/a.ts", entry_for hash mtime "src/a.ts" (codes "A"))
      ∷ ("b.ts", entry_for hash mtime "b.ts" (codes "B"))
      ∷ []
unfolding build_manifest node_at find_entry text_eq put is_ignored string_of char_of join
lists_sources = refl

-- A file `__proto__` at the top is not listed, one further down is.
abbrev proto_disk : Node
proto_disk = dir (
    entry (codes "home")
      (dir (
        entry (codes "__proto__") (file (codes "A"))
          (entry (codes "src") (dir (entry (codes "__proto__") (file (codes "B")) empty)) empty)))
      empty)

skips_proto :
    build_manifest hash mtime root proto_disk
    ≡ ("src/__proto__", entry_for hash mtime "src/__proto__" (codes "B")) ∷ []
unfolding build_manifest node_at find_entry text_eq put is_ignored string_of char_of join
skips_proto = refl

named : (s : Text) → All (λ c. nat_eq c slash ≡ false) s → IsCharText s → IsName s
named s no_slash chars = record { no_slash = no_slash; chars = chars }

abbrev dot_entries : Entries
dot_entries = entry (codes "..env") (file (codes "A")) empty

abbrev dot_disk : Node
dot_disk = dir (entry (codes "home") (dir dot_entries) empty)

dots-IsName : IsName (dotted (codes "env"))
unfolding char_of
dots-IsName =
    named (dotted (codes "env")) (refl, (refl, (refl, (refl, (refl, tt)))))
      (refl, (refl, (refl, (refl, (refl, tt)))))

dots-IsPlain : IsPlain (dotted (codes "env"))
unfolding text_eq
dots-IsPlain = record { not_idle = refl; not_parent = refl }

dotted_refused_example :
    (get (key (dotted (codes "env") ∷ [])) (build_manifest hash mtime root dot_disk)
      ≡ some (entry_for hash mtime (key (dotted (codes "env") ∷ [])) (codes "A")))
    × (write_bytes
          (codes "srv" ∷ [])
          (codes "alice")
          (codes "p1")
          (dotted (codes "env"))
          (codes "A")
          (dir empty)
        ≡ (err (bad_request "Illegal path"), dir empty))
unfolding find_entry text_eq node_at to_posix
dotted_refused_example =
    dotted_refused hash mtime root (codes "srv" ∷ []) dot_disk (dir empty) dot_entries (codes "env")
      (codes "alice") (codes "p1") (codes "A") refl (dots-IsName, refl, tt) dots-IsName dots-IsPlain
      refl refl refl
