-- ===== src/Sync/Stored/Disks/Sample.antt =====
-- Two small disks, the agent's and the server's, for runs of a round between them.
use pocket_dev.Base.{
  ◌≡◌, ℕ, zero, suc, String, Text, codes, text_eq, refl, ap, ◌∙◌, none, some, List, [], ◌∷◌, nat_eq,
  if◌then◌else◌,
}
use pocket_dev.Base.Names.{char_of, IsCharText}
use pocket_dev.Files.Disk.{
  Bytes, Node, Entries, file, dir, empty, entry, find_entry, set_entry, node_at,
}
use pocket_dev.Files.Disk.Fits.{Fits, fits, nest, Fits-set_entry, Fits-none}
use pocket_dev.Files.Paths.{split, resolve, enter}
use pocket_dev.Files.SafePath.{project_dir}
use pocket_dev.Files.SafePath.Portable.{IsPortable}
use pocket_dev.Files.Manifest.Complete.{IsTidy}
use pocket_dev.Files.Manifest.Listed.{AllNames}
use pocket_dev.Sync.Stored.Takes.{FitsProject}
use pocket_dev.Sync.Stored.Disks.{IsBase64}

-- An encoding in two letters that can be undone: a number as that many times the one, then the other.
abbrev pub unary : ℕ → Text → Text
unary zero rest = b'B' ∷ rest
unary (suc n) rest = b'A' ∷ unary n rest

abbrev pub encode : Bytes → Text
encode [] = []
encode (n ∷ b) = unary n (encode b)

abbrev pub bump : Bytes → Bytes
bump [] = []
bump (n ∷ b) = suc n ∷ b

abbrev pub decode : Text → Bytes
decode [] = []
decode (c ∷ s) = let rest = decode s in if nat_eq c b'B' then 0 ∷ rest else bump rest

decode-unary : (n : ℕ) (s : Text) → decode (unary n s) ≡ n ∷ decode s
decode-unary zero s = refl
decode-unary (suc n) s = rw (decode-unary n s) refl

decode-encode : (b : Bytes) → decode (encode b) ≡ b
decode-encode [] = refl
decode-encode (n ∷ b) = decode-unary n (encode b) ∙ ap (λ r. n ∷ r) (decode-encode b)

unary-IsCharText : (n : ℕ) (s : Text) → IsCharText s → IsCharText (unary n s)
unfolding char_of
unary-IsCharText zero s h = (refl, h)
unary-IsCharText (suc n) s h = (refl, unary-IsCharText n s h)

encode-IsCharText : (b : Bytes) → IsCharText (encode b)
encode-IsCharText [] = tt
encode-IsCharText (n ∷ b) = unary-IsCharText n (encode b) (encode-IsCharText b)

abbrev pub hash : Bytes → String
hash b = if text_eq b (codes "A") then "hash of A" else "hash of another"

abbrev pub mtime : String → ℕ
mtime path = 5

-- The agent's project, in its home.
abbrev pub entries : Entries
entries =
    entry (codes "src") (dir (entry (codes "a.ts") (file (codes "A")) empty))
      (entry (codes "b.ts") (file (codes "B")) empty)

abbrev pub home : List Text
home = codes "home" ∷ []

abbrev pub laptop : Node
laptop = dir (entry (codes "home") (dir entries) empty)

pub at_home : node_at home (some laptop) ≡ some (dir entries)
unfolding node_at find_entry text_eq
at_home = refl

a-IsPortable : IsPortable (codes "a.ts")
unfolding char_of text_eq
a-IsPortable = record {
  name = record {
    no_slash = (refl, (refl, (refl, (refl, tt))));
    chars = (refl, (refl, (refl, (refl, tt))));
  };
  plain = record { not_idle = refl; not_parent = refl };
  no_backslash = (refl, (refl, (refl, (refl, tt))));
  no_dots = refl;
  no_drive = refl;
}

b-IsPortable : IsPortable (codes "b.ts")
unfolding char_of text_eq
b-IsPortable = record {
  name = record {
    no_slash = (refl, (refl, (refl, (refl, tt))));
    chars = (refl, (refl, (refl, (refl, tt))));
  };
  plain = record { not_idle = refl; not_parent = refl };
  no_backslash = (refl, (refl, (refl, (refl, tt))));
  no_dots = refl;
  no_drive = refl;
}

src-IsPortable : IsPortable (codes "src")
unfolding char_of text_eq
src-IsPortable = record {
  name = record { no_slash = (refl, (refl, (refl, tt))); chars = (refl, (refl, (refl, tt))) };
  plain = record { not_idle = refl; not_parent = refl };
  no_backslash = (refl, (refl, (refl, tt)));
  no_dots = refl;
  no_drive = refl;
}

pub entries-IsTidy : IsTidy entries
unfolding find_entry text_eq
entries-IsTidy =
    (src-IsPortable.name, refl, (a-IsPortable.name, refl, tt), (b-IsPortable.name, refl, tt))

pub entries-IsPortable : AllNames IsPortable entries
entries-IsPortable = (src-IsPortable, (a-IsPortable, tt), (b-IsPortable, tt))

pub base64 : IsBase64 encode decode entries
base64 = record {
  undone = λ path b found. decode-encode b;
  chars = λ path b found. encode-IsCharText b;
}

-- The server's disk, where the project has one old file.
abbrev pub root : List Text
root = codes "srv" ∷ []

abbrev pub old_entries : Entries
old_entries = entry (codes "old.ts") (file (codes "C")) empty

abbrev pub disk : Node
disk = dir (
    entry (codes "srv")
      (dir (entry (codes "alice") (dir (entry (codes "p1") (dir old_entries) empty)) empty)) empty)

one-Fits :
    (s : Text) (n : Node) (fs : Entries)
    → Fits (some n) (find_entry s fs)
    → Fits (some (dir (entry s n empty))) (some (dir fs))
one-Fits s n fs h = unfold set_entry in Fits-set_entry s n empty fs h (Fits-none fs)

file-Fits : (b : Bytes) → Fits (some (file b)) none
unfolding node_at fits
file-Fits b [] = refl
file-Fits b (t ∷ path) = refl

pub disk-FitsProject : FitsProject root decode "alice" "p1" entries disk
unfolding project_dir split resolve enter text_eq nest find_entry
disk-FitsProject = one-Fits (codes "srv") _ _ (
    one-Fits (codes "alice") _ _ (
      one-Fits (codes "p1") _ _
        (one-Fits (codes "old.ts") (file (codes "C")) entries (file-Fits (codes "C")))))
