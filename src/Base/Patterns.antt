-- ===== src/Base/Patterns.antt =====
-- Patterns of letters that are matched in either case, as in `/http/i`.
use Prim.Native.Nat.{ℕ, ◌+◌}
use mathlib.Core.Bool.{Bool, true, false, ◌&&◌, ◌||◌}
use mathlib.Core.List.{[], ◌∷◌}
use pocket_dev.Base.Comparisons.{leb, nat_eq, if◌then◌else◌}
use pocket_dev.Base.Texts.{Text, text_eq}

abbrev pub lower : ℕ → ℕ
lower c = if leb b'A' c && leb c b'Z' then c + 32 else c

-- Whether a text begins with a pattern in lower case, letters of either case being one.
unfoldable pub starts_with : Text → Text → Bool
starts_with [] s = true
starts_with (p ∷ ps) [] = false
starts_with (p ∷ ps) (c ∷ s) = nat_eq p (lower c) && starts_with ps s

unfoldable pub has_part : Text → Text → Bool
unfolding starts_with
has_part p [] = starts_with p []
has_part p (c ∷ s) = starts_with p (c ∷ s) || has_part p s

unfoldable pub lower_all : Text → Text
lower_all [] = []
lower_all (c ∷ s) = lower c ∷ lower_all s

-- Whether a text ends with a pattern in lower case.
unfoldable pub ends_with : Text → Text → Bool
ends_with p [] = text_eq p []
ends_with p (c ∷ s) = text_eq (lower_all (c ∷ s)) p || ends_with p s
