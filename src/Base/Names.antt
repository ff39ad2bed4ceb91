-- ===== src/Base/Names.antt =====
-- A text as a string, where its units are characters; any other unit is read as U+FFFD.
use Prim.Native.Nat.{ℕ, compare, Ordering}
use Prim.Native.Char.{Char, char, code, IsScalar, IsLt}
use Prim.Native.String.{String}
use mathlib.Core.Path.{◌≡◌, refl, ap₂}
use mathlib.Core.Option.{Option, none, some}
use mathlib.Core.List.{[], ◌∷◌}
use pocket_dev.Base.Texts.{Text, codes}
use pocket_dev.Base.Lists.{All}

-- The three comparisons of `IsScalar`.
abbrev BothLt : Ordering → Ordering → Type 0
BothLt Ordering.lt o = IsLt o
BothLt Ordering.eq _ = ⊥
BothLt Ordering.gt _ = ⊥

abbrev ScalarOf : Ordering → Ordering → Ordering → Type 0
ScalarOf Ordering.lt _ _ = Unit
ScalarOf Ordering.eq o p = BothLt o p
ScalarOf Ordering.gt o p = BothLt o p

lt? : (o : Ordering) → Option (IsLt o)
lt? Ordering.lt = some tt
lt? Ordering.eq = none
lt? Ordering.gt = none

both? : (o p : Ordering) → Option (BothLt o p)
unfolding lt?
both? Ordering.lt p = lt? p
both? Ordering.eq p = none
both? Ordering.gt p = none

scalar? : (o p q : Ordering) → Option (ScalarOf o p q)
unfolding both?
scalar? Ordering.lt p q = some tt
scalar? Ordering.eq p q = both? p q
scalar? Ordering.gt p q = both? p q

char_or : (n : ℕ) → Option (IsScalar n) → Char
char_or n (some h) = char n h
char_or n none = char 0xfffd tt

unfoldable pub char_of : ℕ → Char
unfolding char_or scalar?
char_of n = char_or n (scalar? (compare n 55296) (compare 57343 n) (compare n 1114112))

unfoldable pub string_of : Text → String
unfolding char_of
string_of [] = String.[]
string_of (c ∷ s) = String.◌∷◌ (char_of c) (string_of s)

-- A text of characters is the code units of its string.
abbrev pub IsCharText : Text → Type 0
IsCharText s = All (λ c. code (char_of c) ≡ c) s

pub codes-string_of : (s : Text) → IsCharText s → codes (string_of s) ≡ s
unfolding string_of
codes-string_of [] h = refl
codes-string_of (c ∷ s) h = ap₂ ◌∷◌ h.0 (codes-string_of s h.1)
