-- ===== src/Server/Projects/Slug.antt =====
-- The slugs that the server makes (`slugify` of server/src/projects/projects.service.ts).
use pocket_dev.Base.{
  ℕ, zero, suc, ◌≤◌, Text, ◌≡◌, Bool, true, false, ◌&&◌, ◌||◌, [], ◌∷◌, arith, All, length, take,
  nat_eq,
}
use pocket_dev.Server.Projects.{
  dash, is_word, dash_runs, drop_first_dash, drop_last_dash, lower_all, slugify,
}

-- `[a-z0-9-]`
abbrev pub is_slug_unit : ℕ → Bool
is_slug_unit c = is_word c || nat_eq c dash

abbrev IsSlug : Text → Type 0
IsSlug s = All (λ c. is_slug_unit c ≡ true) s

-- No dash stands first, and none after another one; `after` says that one stands before.
abbrev pub IsSpaced : Bool → Text → Type 0
IsSpaced after [] = Unit
IsSpaced after (c ∷ s) = ((after && nat_eq c dash) ≡ false) × IsSpaced (nat_eq c dash) s

word-no_dash : (c : ℕ) → is_word c ≡ true → nat_eq c dash ≡ false
word-no_dash c h = ground arith

dash_runs-IsSlug :
    (run : Bool) (s : Text) → IsSlug (dash_runs run s) × IsSpaced run (dash_runs run s)
unfolding dash_runs
dash_runs-IsSlug run [] = (tt, tt)
dash_runs-IsSlug run (c ∷ s) =
    ground (arith, dash_runs-IsSlug true s, dash_runs-IsSlug false s, word-no_dash c)

drop_first_dash-IsSlug :
    (s : Text)
    → IsSlug s
    → IsSpaced false s
    → IsSlug (drop_first_dash s) × IsSpaced true (drop_first_dash s)
drop_first_dash-IsSlug [] h g = (tt, tt)
drop_first_dash-IsSlug (c ∷ s) h g = ground arith

drop_last_dash-IsSlug :
    (after : Bool) (s : Text)
    → IsSlug s
    → IsSpaced after s
    → IsSlug (drop_last_dash s) × IsSpaced after (drop_last_dash s)
unfolding drop_last_dash
drop_last_dash-IsSlug after [] h g = (tt, tt)
drop_last_dash-IsSlug after (c ∷ []) h g = ground arith
drop_last_dash-IsSlug after (c ∷ d ∷ s) h g =
    let rest = drop_last_dash-IsSlug (nat_eq c dash) (d ∷ s) h.1 g.1 in
    ((h.0, rest.0), (g.0, rest.1))

take-IsSlug :
    (after : Bool) (n : ℕ) (s : Text)
    → IsSlug s
    → IsSpaced after s
    → IsSlug (take n s) × IsSpaced after (take n s)
take-IsSlug after zero s h g = (tt, tt)
take-IsSlug after (suc n) [] h g = (tt, tt)
take-IsSlug after (suc n) (c ∷ s) h g =
    let rest = take-IsSlug (nat_eq c dash) n s h.1 g.1 in ((h.0, rest.0), (g.0, rest.1))

length-take : (n : ℕ) (s : Text) → length (take n s) ≤ n
length-take zero s = omega arith
length-take (suc n) [] = omega arith
length-take (suc n) (c ∷ s) = omega (arith, length-take n s)

-- A slug that is made from a name has at most 60 units, all of them lower-case letters, digits and
-- dashes; no dash stands first, and no two stand together.
pub slugify_lem :
    (name : Text)
    → (length (slugify name) ≤ 60)
      × All (λ c. is_slug_unit c ≡ true) (slugify name)
      × IsSpaced true (slugify name)
unfolding slugify
slugify_lem name =
    let runs = dash_runs-IsSlug false (lower_all name) in
    let first = drop_first_dash-IsSlug (dash_runs false (lower_all name)) runs.0 runs.1 in
    let trimmed = drop_first_dash (dash_runs false (lower_all name)) in
    let last = drop_last_dash-IsSlug true trimmed first.0 first.1 in
    let cut = take-IsSlug true 60 (drop_last_dash trimmed) last.0 last.1 in
    (length-take 60 (drop_last_dash trimmed), cut.0, cut.1)
