-- ===== src/Files/Disk/Laws.antt =====
-- What a write leaves on the disk.
use pocket_dev.Base.{
  Text, text_eq, text_eq_iff, text_eq_refl, ◌≡◌, ◌≢◌, refl, sym, ap, Option, none, some, List, [],
  ◌∷◌, arith, Option-cases, Bool-cases, inl, inr, if◌then◌else◌,
}
use mathlib.Core.Option.{some-injective}
use pocket_dev.Files.Disk.{
  Bytes, Node, Entries, file, dir, empty, entry, find_entry, set_entry, node_at, make_dirs,
  write_node, remove_node, drop_entry,
}

pub find-set_entry :
    (s t : Text) (n : Node) (es : Entries)
    → find_entry t (set_entry s n es) ≡ (if text_eq s t then some n else find_entry t es)
unfolding find_entry set_entry
find-set_entry s t n empty = refl
find-set_entry s t n (entry u m es) =
    ground (arith, text_eq_iff s t, text_eq_iff u s, text_eq_iff u t, find-set_entry s t n es)

-- The file that was written is there.
pub node_at-write_node :
    (path : List Text) (b : Bytes) (o : Option Node) (n : Node)
    → write_node path b o ≡ some n
    → node_at path (some n) ≡ some (file b)
unfolding write_node node_at
node_at-write_node [] b none n h = sym h
node_at-write_node [] b (some (file _)) n h = sym h
node_at-write_node [] b (some (dir _)) n h = cc
node_at-write_node (s ∷ path) b none n h = cc
node_at-write_node (s ∷ path) b (some (file _)) n h = cc
node_at-write_node (s ∷ path) b (some (dir es)) n h =
    elim (Option-cases (write_node path b (find_entry s es))) [
      | inl e ↦ absurd (cc (rw e at h))
      | inr (m, e) ↦
          let made : dir (set_entry s m es) ≡ n = some-injective _ _ (rw e at h) in
          rw (← made) (
            rw (find-set_entry s s m es)
              (rw (text_eq_refl s) (node_at-write_node path b (find_entry s es) m e)))
    ]

-- A file that is somewhere else stays as it is.
pub write_node-keeps :
    (path : List Text) (b : Bytes) (o : Option Node) (n : Node) (other : List Text) (c : Bytes)
    → write_node path b o ≡ some n
    → path ≢ other
    → node_at other o ≡ some (file c)
    → node_at other (some n) ≡ some (file c)
unfolding write_node node_at
write_node-keeps [] b o n [] c h p f = absurd (p refl)
write_node-keeps [] b none n (t ∷ other) c h p f = absurd (cc f)
write_node-keeps [] b (some (file _)) n (t ∷ other) c h p f = absurd (cc f)
write_node-keeps [] b (some (dir _)) n (t ∷ other) c h p f = absurd (cc h)
write_node-keeps (s ∷ path) b none n other c h p f = absurd (cc h)
write_node-keeps (s ∷ path) b (some (file _)) n other c h p f = absurd (cc h)
write_node-keeps (s ∷ path) b (some (dir es)) n [] c h p f = absurd (cc f)
write_node-keeps (s ∷ path) b (some (dir es)) n (t ∷ other) c h p f =
    elim (Option-cases (write_node path b (find_entry s es))) [
      | inl e ↦ absurd (cc (rw e at h))
      | inr (m, e) ↦
          let made : dir (set_entry s m es) ≡ n = some-injective _ _ (rw e at h) in
          elim (Bool-cases (text_eq s t)) [
            | inl same ↦
                let one : s ≡ t = (text_eq_iff s t).0 same in
                rw (← made) (
                  rw (find-set_entry s t m es) (
                    rw same (
                      write_node-keeps path b (find_entry s es) m other c e (λ q. p (cc (one, q)))
                        (rw one f))))
            | inr apart ↦ rw (← made) (rw (find-set_entry s t m es) (rw apart f))
          ]
    ]

-- Making directories changes no file.
pub make_dirs-keeps :
    (path : List Text) (o : Option Node) (n : Node) (other : List Text) (c : Bytes)
    → make_dirs path o ≡ some n
    → node_at other o ≡ some (file c)
    → node_at other (some n) ≡ some (file c)
unfolding make_dirs node_at
make_dirs-keeps path none n [] c h f = absurd (cc f)
make_dirs-keeps path none n (t ∷ other) c h f = absurd (cc f)
make_dirs-keeps [] (some (file _)) n other c h f = absurd (cc h)
make_dirs-keeps (s ∷ path) (some (file _)) n other c h f = absurd (cc h)
make_dirs-keeps [] (some (dir es)) n other c h f = rw (← (some-injective _ _ h)) f
make_dirs-keeps (s ∷ path) (some (dir es)) n [] c h f = absurd (cc f)
make_dirs-keeps (s ∷ path) (some (dir es)) n (t ∷ other) c h f =
    elim (Option-cases (make_dirs path (find_entry s es))) [
      | inl e ↦ absurd (cc (rw e at h))
      | inr (m, e) ↦
          let made : dir (set_entry s m es) ≡ n = some-injective _ _ (rw e at h) in
          elim (Bool-cases (text_eq s t)) [
            | inl same ↦
                let one : s ≡ t = (text_eq_iff s t).0 same in
                rw (← made) (
                  rw (find-set_entry s t m es)
                    (rw same (make_dirs-keeps path (find_entry s es) m other c e (rw one f))))
            | inr apart ↦ rw (← made) (rw (find-set_entry s t m es) (rw apart f))
          ]
    ]

-- A directory does not give way to a file.
pub write_node-dir :
    (path : List Text) (b : Bytes) (o : Option Node) (es : Entries)
    → node_at path o ≡ some (dir es)
    → write_node path b o ≡ none
unfolding write_node node_at
write_node-dir [] b o es h = rw h
write_node-dir (s ∷ path) b none es h = refl
write_node-dir (s ∷ path) b (some (file _)) es h = refl
write_node-dir (s ∷ path) b (some (dir fs)) es h = rw (write_node-dir path b (find_entry s fs) es h)

-- A directory is still one after others have been made.
pub make_dirs-dir :
    (path : List Text) (o : Option Node) (n : Node) (other : List Text) (es : Entries)
    → make_dirs path o ≡ some n
    → node_at other o ≡ some (dir es)
    → (fs : Entries) × (node_at other (some n) ≡ some (dir fs))
unfolding make_dirs node_at
make_dirs-dir path none n [] es h f = absurd (cc f)
make_dirs-dir path none n (t ∷ other) es h f = absurd (cc f)
make_dirs-dir [] (some (file _)) n other es h f = absurd (cc h)
make_dirs-dir (s ∷ path) (some (file _)) n other es h f = absurd (cc h)
make_dirs-dir [] (some (dir gs)) n other es h f = (es, rw (← (some-injective _ _ h)) f)
make_dirs-dir (s ∷ path) (some (dir gs)) n [] es h f =
    elim (Option-cases (make_dirs path (find_entry s gs))) [
      | inl e ↦ absurd (cc (rw e at h))
      | inr (m, e) ↦ (set_entry s m gs, ap some (cc (rw e at h)))
    ]
make_dirs-dir (s ∷ path) (some (dir gs)) n (t ∷ other) es h f =
    elim (Option-cases (make_dirs path (find_entry s gs))) [
      | inl e ↦ absurd (cc (rw e at h))
      | inr (m, e) ↦
          let made : dir (set_entry s m gs) ≡ n = some-injective _ _ (rw e at h) in
          elim (Bool-cases (text_eq s t)) [
            | inl same ↦
                let one : s ≡ t = (text_eq_iff s t).0 same in
                let (fs, g) = make_dirs-dir path (find_entry s gs) m other es e (rw one f) in
                (fs, rw (← made) (rw (find-set_entry s t m gs) (rw same g)))
            | inr apart ↦ (es, rw (← made) (rw (find-set_entry s t m gs) (rw apart f)))
          ]
    ]

-- A file that is there can be removed.
pub remove_node-file :
    (s : Text) (path : List Text) (n : Node) (c : Bytes)
    → node_at (s ∷ path) (some n) ≡ some (file c)
    → (after : Node) × (remove_node (s ∷ path) n ≡ some after)
unfolding remove_node node_at
remove_node-file s path (file _) c h = absurd (cc h)
remove_node-file s [] (dir es) c h = (dir (drop_entry s es), refl)
remove_node-file s (t ∷ path) (dir es) c h = elim (Option-cases (find_entry s es)) [
  | inl e ↦ (dir es, rw (e, remove_node) refl)
  | inr (m, e) ↦
      let below : node_at (t ∷ path) (find_entry s es) ≡ some (file c) = h in
      let (after, f) = remove_node-file t path m c (rw e at below) in
      (dir (set_entry s after es), rw (e, remove_node) (rw f refl))
]
