-- ===== src/Files/Paths.antt =====
-- The POSIX path functions of Node that the file store uses. An absolute path is the list of its
-- segments, outermost first; a segment of a normalized path is not empty, "." or "..".
use mathlib.Core.List.{append-nil, append_assoc}
use pocket_dev.Base.{
  ℕ, Text, codes, text_eq, ◌≡◌, refl, Bool, false, ◌||◌, List, [], ◌∷◌, ◌++◌, nat_eq, if◌then◌else◌,
  All, All-append, Bool-cases, inl, inr, map, sym, text_eq_refl, ◌∙◌,
}

abbrev pub slash : ℕ
slash = b'/'

abbrev cons_first : ℕ → List Text → List Text
cons_first c [] = (c ∷ []) ∷ []
cons_first c (s ∷ segments) = (c ∷ s) ∷ segments

-- `path.split('/')`
unfoldable pub split : Text → List Text
split [] = [] ∷ []
split (c ∷ s) = let rest = split s in if nat_eq c slash then [] ∷ rest else cons_first c rest

abbrev pub parent : Text
parent = codes ".."

-- Whether a segment says nothing: an empty one, or ".".
abbrev pub is_idle : Text → Bool
is_idle s = text_eq s [] || text_eq s (codes ".")

unfoldable pub drop_last : List Text → List Text
drop_last [] = []
drop_last (s ∷ []) = []
drop_last (s ∷ t ∷ dir) = s ∷ drop_last (t ∷ dir)

-- One segment, seen from a directory.
unfoldable pub enter : List Text → Text → List Text
unfolding drop_last
enter dir s = if is_idle s then dir else if text_eq s parent then drop_last dir else dir ++ s ∷ []

-- `resolve(dir, path)` and `join(dir, path)` for an absolute `dir` and a relative path.
unfoldable pub resolve : List Text → List Text → List Text
unfolding enter
resolve dir [] = dir
resolve dir (s ∷ segments) = resolve (enter dir s) segments

-- `relative(from, to)`: one ".." for each directory that is left, then the rest of the way.
unfoldable pub relative : List Text → List Text → List Text
relative [] to = to
relative (a ∷ from) [] = parent ∷ map (λ _. parent) from
relative (a ∷ from) (b ∷ to) =
    let rest = relative from to in
    if text_eq a b then rest else map (λ _. parent) (a ∷ from) ++ b ∷ to

abbrev pub IsUp : Text → Type 0
IsUp s = s ≡ parent

-- A normalized segment.
pub record IsPlain (s : Text) : Type 0 where
  pub not_idle : is_idle s ≡ false
  pub not_parent : text_eq s parent ≡ false

pub drop_last-All : (P : Text → Type 0) (dir : List Text) → All P dir → All P (drop_last dir)
unfolding drop_last
drop_last-All P [] h = tt
drop_last-All P (s ∷ []) h = tt
drop_last-All P (s ∷ t ∷ dir) h = (h.0, drop_last-All P (t ∷ dir) h.1)

enter-IsPlain : (dir : List Text) (s : Text) → All IsPlain dir → All IsPlain (enter dir s)
unfolding enter
enter-IsPlain dir s h = elim (Bool-cases (is_idle s)) [
  | inl idle ↦ rw idle h
  | inr busy ↦ elim (Bool-cases (text_eq s parent)) [
    | inl up ↦ rw (busy, up) (drop_last-All IsPlain dir h)
    | inr down ↦
        rw (busy, down)
          (All-append IsPlain dir (s ∷ []) h (record { not_idle = busy; not_parent = down }, tt))
  ]
]

-- What is resolved from a normalized directory is normalized.
pub resolve-IsPlain :
    (dir segments : List Text) → All IsPlain dir → All IsPlain (resolve dir segments)
unfolding resolve
resolve-IsPlain dir [] h = h
resolve-IsPlain dir (s ∷ segments) h =
    resolve-IsPlain (enter dir s) segments (enter-IsPlain dir s h)

-- Normalized segments are appended as they stand.
pub resolve_plain :
    (dir segments : List Text) → All IsPlain segments → resolve dir segments ≡ dir ++ segments
unfolding resolve
resolve_plain dir [] h = sym (append-nil dir)
resolve_plain dir (s ∷ segments) h =
    rw (h.0.not_idle, h.0.not_parent)
      (resolve_plain (dir ++ s ∷ []) segments h.1 ∙ append_assoc dir (s ∷ []) segments)

pub relative_below : (dir rest : List Text) → relative dir (dir ++ rest) ≡ rest
unfolding relative
relative_below [] rest = refl
relative_below (s ∷ dir) rest = rw (text_eq_refl s) (relative_below dir rest)
