-- ===== src/Files/Disk/Contents.antt =====
-- The disk as a map from paths to contents, as the calls of server/src/files/file-store.service.ts change
-- it: what the directories are, and in which order their entries stand, is forgotten.
use pocket_dev.Base.{
  Text, text_eq, text_eq_iff, ◌≡◌, refl, sym, ◌∙◌, Bool, true, false, ◌&&◌, Option, none, some,
  List, [], ◌∷◌, arith, Option-cases, Bool-cases, inl, inr, if◌then◌else◌,
}
use mathlib.Core.Option.{some-injective}
use pocket_dev.Files.Disk.{
  Bytes, Node, Entries, file, dir, empty, entry, find_entry, set_entry, drop_entry, node_at,
  make_dirs, write_node, remove_node,
}
use pocket_dev.Files.Disk.Laws.{find-set_entry}

abbrev pub file_of : Option Node → Option Bytes
file_of (some (file b)) = some b
file_of _ = none

-- The content of the file at a path, if there is a file.
abbrev pub contents : List Text → Option Node → Option Bytes
contents path o = file_of (node_at path o)

-- A test on paths below an entry.
abbrev pub below_entry : Text → (List Text → Bool) → List Text → Bool
below_entry s g [] = false
below_entry s g (t ∷ path) = text_eq s t && g path

abbrev is_empty : List Text → Bool
is_empty [] = true
is_empty (t ∷ path) = false

unfoldable pub same_path : List Text → List Text → Bool
same_path [] q = is_empty q
same_path (s ∷ path) q = below_entry s (same_path path) q

unfoldable pub is_below : List Text → List Text → Bool
is_below [] q = true
is_below (s ∷ path) q = below_entry s (is_below path) q

contents_none : (q : List Text) → contents q none ≡ none
unfolding node_at
contents_none [] = refl
contents_none (t ∷ q) = refl

-- Where the test holds below an entry, the changed entry gives `new`, and elsewhere what was there.
set_entry-contents :
    (s : Text) (g : List Text → Bool) (new : Option Bytes) (m : Node) (es : Entries) (r : List Text)
    → ((q : List Text) → contents q (some m) ≡ (if g q then new else contents q (find_entry s es)))
    → contents r (some (dir (set_entry s m es)))
      ≡ (if below_entry s g r then new else contents r (some (dir es)))
unfolding node_at
set_entry-contents s g new m es [] h = refl
set_entry-contents s g new m es (t ∷ r) h = elim (Bool-cases (text_eq s t)) [
  | inl same ↦
      let one : s ≡ t = (text_eq_iff s t).0 same in
      rw (find-set_entry s t m es) (rw same (rw (← one) (h r)))
  | inr apart ↦ rw (find-set_entry s t m es) (rw apart refl)
]

pub write_node-contents :
    (path : List Text) (b : Bytes) (o : Option Node) (n : Node) (q : List Text)
    → write_node path b o ≡ some n
    → contents q (some n) ≡ (if same_path path q then some b else contents q o)
unfolding write_node node_at same_path
write_node-contents [] b none n [] h = rw (← (some-injective _ _ h)) refl
write_node-contents [] b none n (t ∷ q) h = rw (← (some-injective _ _ h)) refl
write_node-contents [] b (some (file c)) n [] h = rw (← (some-injective _ _ h)) refl
write_node-contents [] b (some (file c)) n (t ∷ q) h = rw (← (some-injective _ _ h)) refl
write_node-contents [] b (some (dir es)) n q h = absurd (cc h)
write_node-contents (s ∷ path) b none n q h = absurd (cc h)
write_node-contents (s ∷ path) b (some (file c)) n q h = absurd (cc h)
write_node-contents (s ∷ path) b (some (dir es)) n q h =
    elim (Option-cases (write_node path b (find_entry s es))) [
      | inl e ↦ absurd (cc (rw e at h))
      | inr (m, e) ↦
          let made : dir (set_entry s m es) ≡ n = some-injective _ _ (rw e at h) in
          rw (← made) (
            set_entry-contents s (same_path path) (some b) m es q
              (λ r. write_node-contents path b (find_entry s es) m r e))
    ]

-- Making directories changes the content of no file.
never_below :
    (s : Text) (q : List Text) (c : Option Bytes)
    → (if below_entry s (λ _. false) q then none else c) ≡ c
never_below s [] c = refl
never_below s (t ∷ q) c = ground arith

empty_none :
    (s : Text) (q : List Text)
    → (if below_entry s (λ _. false) q then none else contents q (some (dir empty))) ≡ none
unfolding node_at find_entry
empty_none s [] = refl
empty_none s (t ∷ q) = ground (arith, contents_none q)

pub make_dirs-contents :
    (path : List Text) (o : Option Node) (n : Node) (q : List Text)
    → make_dirs path o ≡ some n
    → contents q (some n) ≡ contents q o
unfolding make_dirs node_at find_entry
make_dirs-contents [] none n [] h = rw (← (some-injective _ _ h)) refl
make_dirs-contents [] none n (t ∷ q) h = rw (← (some-injective _ _ h)) (contents_none q)
make_dirs-contents [] (some (dir es)) n q h = rw (← (some-injective _ _ h)) refl
make_dirs-contents [] (some (file c)) n q h = absurd (cc h)
make_dirs-contents (s ∷ path) (some (file c)) n q h = absurd (cc h)
make_dirs-contents (s ∷ path) none n q h = elim (Option-cases (make_dirs path none)) [
  | inl e ↦ absurd (cc (rw e at h))
  | inr (m, e) ↦
      let made : dir (set_entry s m empty) ≡ n = some-injective _ _ (rw e at h) in
      rw (← made) (
        set_entry-contents s (λ _. false) none m empty q (λ r. make_dirs-contents path none m r e)
        ∙ (empty_none s q ∙ sym (contents_none q)))
]
make_dirs-contents (s ∷ path) (some (dir es)) n q h =
    elim (Option-cases (make_dirs path (find_entry s es))) [
      | inl e ↦ absurd (cc (rw e at h))
      | inr (m, e) ↦
          let made : dir (set_entry s m es) ≡ n = some-injective _ _ (rw e at h) in
          rw (← made) (
            set_entry-contents s (λ _. false) none m es q
              (λ r. make_dirs-contents path (find_entry s es) m r e)
            ∙ never_below s q (contents q (some (dir es))))
    ]

find-drop_entry :
    (s t : Text) (es : Entries)
    → find_entry t (drop_entry s es) ≡ (if text_eq s t then none else find_entry t es)
unfolding find_entry drop_entry
find-drop_entry s t empty = ground arith
find-drop_entry s t (entry u m es) =
    ground (arith, text_eq_iff s t, text_eq_iff u s, text_eq_iff u t, find-drop_entry s t es)

missing-contents :
    (s : Text) (path : List Text) (es : Entries) (q : List Text)
    → find_entry s es ≡ none
    → contents q (some (dir es))
      ≡ (if below_entry s (is_below path) q then none else contents q (some (dir es)))
unfolding node_at
missing-contents s path es [] h = refl
missing-contents s path es (t ∷ q) h = elim (Bool-cases (text_eq s t)) [
  | inl same ↦
      let one : s ≡ t = (text_eq_iff s t).0 same in
      let gone : find_entry t es ≡ none = rw (← one) h in rw gone (ground (arith, contents_none q))
  | inr apart ↦ rw apart refl
]

pub remove_node-contents :
    (s : Text) (path : List Text) (n after : Node) (q : List Text)
    → remove_node (s ∷ path) n ≡ some after
    → contents q (some after) ≡ (if is_below (s ∷ path) q then none else contents q (some n))
unfolding remove_node node_at is_below
remove_node-contents s path (file c) after q h = absurd (cc h)
remove_node-contents s [] (dir es) after [] h = rw (← (some-injective _ _ h)) refl
remove_node-contents s [] (dir es) after (t ∷ q) h = elim (Bool-cases (text_eq s t)) [
  | inl same ↦
      rw (← (some-injective _ _ h)) (rw (find-drop_entry s t es) (rw same (contents_none q)))
  | inr apart ↦ rw (← (some-injective _ _ h)) (rw (find-drop_entry s t es) (rw apart refl))
]
remove_node-contents s (t ∷ path) (dir es) after q h = elim (Option-cases (find_entry s es)) [
  | inl e ↦
      let same : dir es ≡ after = some-injective _ _ (rw (e, remove_node) at h) in
      rw (← same) (missing-contents s (t ∷ path) es q e)
  | inr (m, e) ↦ elim (Option-cases (remove_node (t ∷ path) m)) [
    | inl f ↦ absurd (cc (rw f at (rw (e, remove_node) at h)))
    | inr (k, f) ↦
        let made : dir (set_entry s k es) ≡ after =
          some-injective _ _ (rw f at (rw (e, remove_node) at h)) in
        rw (← made) (
          set_entry-contents s (is_below (t ∷ path)) none k es q
            (λ r. rw e (remove_node-contents t path m k r f)))
  ]
]
