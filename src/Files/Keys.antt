-- ===== src/Files/Keys.antt =====
-- Paths of a manifest: the segments below the project joined by slashes, as a string
-- (server/src/files/file-store.service.ts and services/cli-agent/src/manifest.ts).
use Prim.Native.Char.{code}
use mathlib.Core.Path.{ap₂}
use text.Mathlib.TextEquality.{Char-path}
use pocket_dev.Base.{
  ℕ, String, Text, codes, text_eq_refl, text_eq_iff, ◌≡◌, ◌↔◌, refl, sym, ap, ◌∙◌, true, false,
  List, [], ◌∷◌, ◌++◌, ◌==◌, arith, nat_eq, nat_eq_iff, eq_iff, if◌then◌else◌, Bool-cases, inl, inr,
  All, All-append,
}
use pocket_dev.Base.Names.{string_of, char_of, IsCharText, codes-string_of}
use pocket_dev.Files.Paths.{split, slash}
use pocket_dev.Files.Disk.Contents.{same_path}
use pocket_dev.Files.Tree.{join}

pub codes-injective : (s t : String) → codes s ≡ codes t → s ≡ t
codes-injective String.[] String.[] h = refl
codes-injective String.[] (String.◌∷◌ d t) h = absurd (cc h)
codes-injective (String.◌∷◌ c s) String.[] h = absurd (cc h)
codes-injective (String.◌∷◌ c s) (String.◌∷◌ d t) h =
    ap₂ String.◌∷◌ (Char-path c d (cc h)) (codes-injective s t (cc h))

-- A split text has a first segment.
pub split-first : (s : Text) → (t : Text) × (path : List Text) × (split s ≡ t ∷ path)
unfolding split
split-first [] = ([], [], refl)
split-first (c ∷ s) =
    let (t, path, e) = split-first s in
    elim (Bool-cases (nat_eq c slash)) [
      | inl cut ↦ ([], split s, rw cut refl)
      | inr on ↦ (c ∷ t, path, rw (on, e) refl)
    ]

join-next :
    (c : ℕ) (t : Text) (path : List Text)
    → join (if nat_eq c slash then [] ∷ t ∷ path else (c ∷ t) ∷ path) ≡ c ∷ join (t ∷ path)
unfolding join
join-next c t [] = ground (arith, nat_eq_iff c slash)
join-next c t (u ∷ path) = ground (arith, nat_eq_iff c slash)

pub join-split : (s : Text) → join (split s) ≡ s
unfolding join split
join-split [] = refl
join-split (c ∷ s) =
    let (t, path, e) = split-first s in
    let rest = join-split s in rw e (join-next c t path ∙ ap (λ r. c ∷ r) (rw e at rest))

pub same_path_iff : (p q : List Text) → (same_path p q ≡ true) ↔ (p ≡ q)
unfolding same_path
same_path_iff [] [] = (λ _. refl, λ _. refl)
same_path_iff [] (t ∷ q) = ((λ h. absurd (cc h)), (λ h. absurd (cc h)))
same_path_iff (s ∷ p) [] = ((λ h. absurd (cc h)), (λ h. absurd (cc h)))
same_path_iff (s ∷ p) (t ∷ q) = ground (arith, text_eq_iff s t, same_path_iff p q)

pub same_path-below : (d p q : List Text) → same_path (d ++ p) (d ++ q) ≡ same_path p q
unfolding same_path
same_path-below [] p q = refl
same_path-below (s ∷ d) p q = rw (text_eq_refl s) (same_path-below d p q)

-- A name in a directory: no slash, and characters only.
pub record IsName (s : Text) : Type 0 where
  pub no_slash : All (λ c. nat_eq c slash ≡ false) s
  pub chars : IsCharText s

pub split-plain : (s : Text) → All (λ c. nat_eq c slash ≡ false) s → split s ≡ s ∷ []
unfolding split
split-plain [] h = refl
split-plain (c ∷ s) h = rw (split-plain s h.1, h.0) refl

split-prefix :
    (s r : Text) → All (λ c. nat_eq c slash ≡ false) s → split (s ++ slash ∷ r) ≡ s ∷ split r
unfolding split
split-prefix [] r h = refl
split-prefix (c ∷ s) r h = rw (split-prefix s r h.1, h.0) refl

pub split-join :
    (s : Text) (path : List Text) → All IsName (s ∷ path) → split (join (s ∷ path)) ≡ s ∷ path
unfolding join
split-join s [] h = split-plain s h.0.no_slash
split-join s (t ∷ path) h =
    split-prefix s (join (t ∷ path)) h.0.no_slash ∙ ap (λ r. s ∷ r) (split-join t path h.1)

slash_char : code (char_of slash) ≡ slash
unfolding char_of
slash_char = refl

pub join-IsCharText : (path : List Text) → All IsName path → IsCharText (join path)
unfolding join
join-IsCharText [] h = tt
join-IsCharText (s ∷ []) h = h.0.chars
join-IsCharText (s ∷ t ∷ path) h =
    All-append (λ c. code (char_of c) ≡ c) s (slash ∷ join (t ∷ path)) h.0.chars
      (slash_char, join-IsCharText (t ∷ path) h.1)

-- The key of a path in a manifest.
abbrev pub key : List Text → String
key path = string_of (join path)

-- Two paths of names have one key only if they are one.
pub key_eq :
    (s t : Text) (p q : List Text)
    → All IsName (s ∷ p)
    → All IsName (t ∷ q)
    → (key (s ∷ p) == key (t ∷ q)) ≡ same_path (s ∷ p) (t ∷ q)
key_eq s t p q hp hq = elim (Bool-cases (same_path (s ∷ p) (t ∷ q))) [
  | inl same ↦ rw same ((eq_iff _ _).1 (ap key ((same_path_iff (s ∷ p) (t ∷ q)).0 same)))
  | inr apart ↦ elim (Bool-cases (key (s ∷ p) == key (t ∷ q))) [
    | inr differs ↦ rw apart differs
    | inl one ↦
        let texts = ap codes ((eq_iff _ _).0 one) in
        let joined =
          sym (codes-string_of _ (join-IsCharText (s ∷ p) hp))
          ∙ texts
          ∙ codes-string_of _ (join-IsCharText (t ∷ q) hq) in
        let same = sym (split-join s p hp) ∙ ap split joined ∙ split-join t q hq in
        absurd (cc ((same_path_iff (s ∷ p) (t ∷ q)).1 same, apart))
  ]
]
