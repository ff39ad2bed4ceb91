-- ===== src/Files/Disk/Fits.antt =====
-- Two disks on which no file stands where the other has a directory: the writes of one's files in the
-- other (server/src/files/file-store.service.ts) go through.
use pocket_dev.Base.{
  Text, text_eq, text_eq_iff, text_eq_refl, ◌≡◌, refl, ap, ◌∙◌, Bool, true, false, Option, none,
  some, List, [], ◌∷◌, ◌++◌, Bool-cases, inl, inr,
}
use pocket_dev.Files.Paths.{drop_last}
use pocket_dev.Files.Disk.{
  Bytes, Node, Entries, file, dir, empty, entry, find_entry, set_entry, node_at, make_dirs,
  write_node,
}
use pocket_dev.Files.Disk.Laws.{find-set_entry}

-- Whether two things at one path are not a file and a directory.
unfoldable pub fits : Option Node → Option Node → Bool
fits (some (file _)) (some (dir _)) = false
fits (some (dir _)) (some (file _)) = false
fits _ _ = true

-- No path leads to a file on the one and to a directory on the other.
abbrev pub Fits : Option Node → Option Node → Type 0
Fits o a = (path : List Text) → fits (node_at path o) (node_at path a) ≡ true

-- A disk with one directory, at a path, that has these entries.
unfoldable pub nest : List Text → Entries → Node
nest [] es = dir es
nest (s ∷ path) es = dir (entry s (nest path es) empty)

-- A file is written, once the directories to it are made.
pub record Stores (path : List Text) (b : Bytes) (o : Option Node) (after : Node) : Type 0 where
  pub made : Node
  pub directories : make_dirs (drop_last path) o ≡ some made
  pub contents : write_node path b (some made) ≡ some after

make_dirs_none : (path : List Text) → make_dirs path none ≡ make_dirs path (some (dir empty))
unfolding make_dirs find_entry
make_dirs_none [] = refl
make_dirs_none (s ∷ path) = refl

Stores-none :
    (path : List Text) (b : Bytes) (after : Node)
    → Stores path b (some (dir empty)) after
    → Stores path b none after
Stores-none path b after w = record {
  made = w.made;
  directories = make_dirs_none (drop_last path) ∙ w.directories;
  contents = w.contents;
}

pub Fits-none : (a : Entries) → Fits (some (dir empty)) (some (dir a))
unfolding node_at find_entry fits
Fits-none a [] = refl
Fits-none a (s ∷ []) = refl
Fits-none a (s ∷ t ∷ path) = refl

-- An entry that fits in the place of one that is there.
pub Fits-set_entry :
    (s : Text) (n : Node) (es fs : Entries)
    → Fits (some n) (find_entry s fs)
    → Fits (some (dir es)) (some (dir fs))
    → Fits (some (dir (set_entry s n es))) (some (dir fs))
unfolding node_at fits
Fits-set_entry s n es fs new old [] = refl
Fits-set_entry s n es fs new old (t ∷ path) =
    let there = old (t ∷ path) in
    elim (Bool-cases (text_eq s t)) [
      | inl same ↦
          rw (find-set_entry s t n es)
            (rw same (rw (← (ap (λ r. find_entry r fs) ((text_eq_iff s t).0 same))) (new path)))
      | inr apart ↦ rw (find-set_entry s t n es) (rw apart there)
    ]

-- What is stored below an entry is stored below its directory.
Stores-entry :
    (s t : Text) (path : List Text) (b : Bytes) (es : Entries) (n : Node)
    → (w : Stores (t ∷ path) b (find_entry s es) n)
    → Stores (s ∷ t ∷ path) b (some (dir es)) (dir (set_entry s n (set_entry s w.made es)))
unfolding drop_last make_dirs write_node
Stores-entry s t path b es n w = record {
  made = dir (set_entry s w.made es);
  directories = rw w.directories refl;
  contents = rw (find-set_entry s s w.made es) (rw (text_eq_refl s) (rw w.contents refl));
}

Fits-entry :
    (s : Text) (es fs : Entries)
    → Fits (some (dir es)) (some (dir fs))
    → Fits (find_entry s es) (find_entry s fs)
unfolding node_at
Fits-entry s es fs h path = h (s ∷ path)

Fits-file : (b c : Bytes) → Fits (some (file b)) (some (file c))
unfolding node_at fits
Fits-file b c [] = refl
Fits-file b c (t ∷ path) = refl

-- The directories that are made on the way fit.
Fits-Stores :
    (s t : Text) (path : List Text) (b : Bytes) (es fs ks : Entries) (n : Node)
    → find_entry s fs ≡ some (dir ks)
    → Fits (some n) (some (dir ks))
    → Fits (some (dir es)) (some (dir fs))
    → (w : Stores (t ∷ path) b (find_entry s es) n)
    → Fits (some (dir (set_entry s n (set_entry s w.made es)))) (some (dir fs))
unfolding node_at fits
Fits-Stores s t path b es fs ks n e new old w [] = refl
Fits-Stores s t path b es fs ks n e new old w (u ∷ q) =
    let there = old (u ∷ q) in
    elim (Bool-cases (text_eq s u)) [
      | inl same ↦
          rw (find-set_entry s u n (set_entry s w.made es))
            (rw same (rw (← (ap (λ r. find_entry r fs) ((text_eq_iff s u).0 same))) (rw e (new q))))
      | inr apart ↦
          rw (find-set_entry s u n (set_entry s w.made es))
            (rw apart (rw (find-set_entry s u w.made es) (rw apart there)))
    ]

-- A write that was made, and still fits.
abbrev pub Stored : List Text → Bytes → Option Node → Node → Type 0
Stored path b o a = (n : Node) × Stores path b o n × Fits (some n) (some a)

file_goes :
    (s : Text) (b c : Bytes) (o : Option Node) (es fs : Entries)
    → find_entry s es ≡ o
    → find_entry s fs ≡ some (file c)
    → Fits (some (dir es)) (some (dir fs))
    → Stored (s ∷ []) b (some (dir es)) (dir fs)
unfolding drop_last make_dirs write_node
file_goes s b c (some (dir _)) es fs e f h =
    absurd (unfold node_at fits in cc (rw (e, f) at (h (s ∷ []))))
file_goes s b c none es fs e f h = (
  dir (set_entry s (file b) es),
  record { made = dir es; directories = refl; contents = rw e refl },
  Fits-set_entry s (file b) es fs (rw f (Fits-file b c)) h,
)
file_goes s b c (some (file _)) es fs e f h = (
  dir (set_entry s (file b) es),
  record { made = dir es; directories = refl; contents = rw e refl },
  Fits-set_entry s (file b) es fs (rw f (Fits-file b c)) h,
)

-- Where a directory would do, nothing does as well.
below_goes :
    (path : List Text) (b : Bytes) (ks : Entries) (o : Option Node)
    → ((es : Entries)
        → Fits (some (dir es)) (some (dir ks))
        → Stored path b (some (dir es)) (dir ks))
    → Fits o (some (dir ks))
    → Stored path b o (dir ks)
below_goes path b ks none goes h =
    let (n, w, f) = goes empty (Fits-none ks) in (n, Stores-none path b n w, f)
below_goes path b ks (some (file _)) goes h = absurd (unfold node_at fits in cc (h []))
below_goes path b ks (some (dir es)) goes h = goes es h

-- What is above a file is a directory.
dir_above :
    (t : Text) (path : List Text) (o : Option Node) (c : Bytes)
    → node_at (t ∷ path) o ≡ some (file c)
    → (ks : Entries) × (o ≡ some (dir ks))
unfolding node_at
dir_above t path none c h = absurd (cc h)
dir_above t path (some (file _)) c h = absurd (cc h)
dir_above t path (some (dir ks)) c h = (ks, refl)

-- Where the files of one disk fit in another, a write at the path of one of them goes through, whatever
-- it writes, and they still fit.
pub Fits-Stored :
    (s : Text) (path : List Text) (b c : Bytes) (es fs : Entries)
    → node_at (s ∷ path) (some (dir fs)) ≡ some (file c)
    → Fits (some (dir es)) (some (dir fs))
    → Stored (s ∷ path) b (some (dir es)) (dir fs)
unfolding node_at
Fits-Stored s [] b c es fs there h = file_goes s b c _ es fs refl there h
Fits-Stored s (t ∷ path) b c es fs there h =
    let below : node_at (t ∷ path) (find_entry s fs) ≡ some (file c) = there in
    let (ks, e) = dir_above t path (find_entry s fs) c there in
    let (n, w, f) =
      below_goes (t ∷ path) b ks (find_entry s es)
        (λ ds g. Fits-Stored t path b c ds ks (rw e at below) g) (rw e at (Fits-entry s es fs h)) in
    (
      dir (set_entry s n (set_entry s w.made es)),
      Stores-entry s t path b es n w,
      Fits-Stores s t path b es fs ks n e f h w,
    )

node_at-nest :
    (d path : List Text) (es : Entries)
    → node_at (d ++ path) (some (nest d es)) ≡ node_at path (some (dir es))
unfolding node_at nest find_entry
node_at-nest [] path es = refl
node_at-nest (s ∷ d) path es = rw (text_eq_refl s) (node_at-nest d path es)

-- The same, where the files are those of a directory of the other disk.
pub nest-Stored :
    (d : List Text) (s : Text) (path : List Text) (b c : Bytes) (o : Option Node) (es : Entries)
    → node_at (s ∷ path) (some (dir es)) ≡ some (file c)
    → Fits o (some (nest d es))
    → Stored (d ++ s ∷ path) b o (nest d es)
unfolding nest
nest-Stored [] s path b c o es there h =
    below_goes (s ∷ path) b es o (λ ds g. Fits-Stored s path b c ds es there g) h
nest-Stored (r ∷ d) s path b c o es there h =
    below_goes (r ∷ d ++ s ∷ path) b (entry r (nest d es) empty) o
      (λ ds g.
        Fits-Stored r (d ++ s ∷ path) b c ds (entry r (nest d es) empty)
          (node_at-nest (r ∷ d) (s ∷ path) es ∙ there) g)
      h
