-- ===== src/Pty/Root.antt =====
-- The search for the repository's root (`findRepoRoot` of packages/pty-core/src/env.ts). A directory is
-- the list of its segments; which directories hold the marker file is a parameter.
use pocket_dev.Base.{
  ℕ, zero, suc, Text, ◌≡◌, ◌≤◌, ◌<◌, refl, ap, ◌∙◌, arith, length, Bool, true, false, List, [], ◌∷◌,
  ◌++◌, ◌⊎◌, inl, inr, if◌then◌else◌, Bool-cases,
}
use mathlib.Core.List.{append-nil, append_assoc}
use pocket_dev.Files.Paths.{drop_last}

-- The rounds of the loop: a hit, then the end at the top directory, then the parent.
unfoldable pub search_up : (List Text → Bool) → List Text → ℕ → List Text → List Text
search_up marked start zero dir = start
search_up marked start (suc rounds) [] = if marked [] then [] else start
search_up marked start (suc rounds) (s ∷ path) =
    let above = search_up marked start rounds (drop_last (s ∷ path)) in
    if marked (s ∷ path) then s ∷ path else above

unfoldable pub find_repo_root : (List Text → Bool) → List Text → List Text
unfolding search_up
find_repo_root marked start = search_up marked start 10 start

-- The directory is one that lies on the way up.
abbrev pub IsAbove : List Text → List Text → Type 0
IsAbove dir start = (rest : List Text) × (start ≡ dir ++ rest)

drop_last-IsAbove : (dir : List Text) → IsAbove (drop_last dir) dir
unfolding drop_last
drop_last-IsAbove [] = ([], refl)
drop_last-IsAbove (s ∷ []) = (s ∷ [], refl)
drop_last-IsAbove (s ∷ t ∷ dir) = let (rest, e) = drop_last-IsAbove (t ∷ dir) in (rest, cc e)

IsAbove-trans : (a b c : List Text) → IsAbove a b → IsAbove b c → IsAbove a c
IsAbove-trans a b c (r, e) (q, f) = (r ++ q, rw (f, e) (append_assoc a r q))

search_up-IsAbove :
    (marked : List Text → Bool) (start : List Text) (rounds : ℕ) (dir : List Text)
    → IsAbove dir start
    → let found = search_up marked start rounds dir in
      IsAbove found start × ((marked found ≡ true) ⊎ (found ≡ start))
unfolding search_up
search_up-IsAbove marked start zero dir h = (([], cc (append-nil start)), inr refl)
search_up-IsAbove marked start (suc rounds) [] h = elim (Bool-cases (marked [])) [
  | inl hit ↦ rw hit (h, inl hit)
  | inr miss ↦ rw miss (([], cc (append-nil start)), inr refl)
]
search_up-IsAbove marked start (suc rounds) (s ∷ path) h = elim (Bool-cases (marked (s ∷ path))) [
  | inl hit ↦ rw hit (h, inl hit)
  | inr miss ↦ rw miss (
      search_up-IsAbove marked start rounds (drop_last (s ∷ path))
        (IsAbove-trans (drop_last (s ∷ path)) (s ∷ path) start (drop_last-IsAbove (s ∷ path)) h))
]

-- The root is a directory on the way up from the start; it holds the marker, or else is the start.
pub find_repo_root-IsAbove :
    (marked : List Text → Bool) (start : List Text)
    → let found = find_repo_root marked start in
      IsAbove found start × ((marked found ≡ true) ⊎ (found ≡ start))
unfolding find_repo_root
find_repo_root-IsAbove marked start =
    search_up-IsAbove marked start 10 start ([], cc (append-nil start))

drop_last-append :
    (dir : List Text) (s : Text) (rest : List Text)
    → drop_last (dir ++ s ∷ rest) ≡ dir ++ drop_last (s ∷ rest)
unfolding drop_last
drop_last-append [] s rest = refl
drop_last-append (r ∷ []) s rest = refl
drop_last-append (r ∷ q ∷ dir) s rest = ap (λ d. r ∷ d) (drop_last-append (q ∷ dir) s rest)

length-drop_last : (s : Text) (rest : List Text) → length (drop_last (s ∷ rest)) ≡ length rest
unfolding drop_last
length-drop_last s [] = refl
length-drop_last s (t ∷ rest) = ap suc (length-drop_last t rest)

-- No directory between the two has the marker.
abbrev pub IsNearest : (List Text → Bool) → List Text → List Text → Type 0
IsNearest marked dir rest =
    (s : Text) (q : List Text) → IsAbove (s ∷ q) rest → marked (dir ++ s ∷ q) ≡ false

search_up_below :
    (marked : List Text → Bool) (start dir : List Text) (s : Text) (rest : List Text) (rounds : ℕ)
    → marked (dir ++ s ∷ rest) ≡ false
    → search_up marked start (suc rounds) (dir ++ s ∷ rest)
      ≡ search_up marked start rounds (dir ++ drop_last (s ∷ rest))
unfolding search_up
search_up_below marked start [] s rest rounds h = rw h refl
search_up_below marked start (r ∷ dir) s rest rounds h =
    rw h (ap (search_up marked start rounds) (drop_last-append (r ∷ dir) s rest))

search_up_here :
    (marked : List Text → Bool) (start dir : List Text) (rounds : ℕ)
    → marked dir ≡ true
    → search_up marked start (suc rounds) dir ≡ dir
unfolding search_up
search_up_here marked start [] rounds h = rw h refl
search_up_here marked start (s ∷ dir) rounds h = rw h refl

search_up-nearest :
    (marked : List Text → Bool) (start dir rest : List Text) (rounds : ℕ)
    → marked dir ≡ true
    → IsNearest marked dir rest
    → length rest < rounds
    → search_up marked start rounds (dir ++ rest) ≡ dir
search_up-nearest marked start dir rest zero hit near h = absurd (omega (arith, h))
search_up-nearest marked start dir [] (suc rounds) hit near h =
    rw (append-nil dir) (search_up_here marked start dir rounds hit)
search_up-nearest marked start dir (s ∷ rest) (suc rounds) hit near h =
    search_up_below marked start dir s rest rounds (near s rest ([], cc (append-nil rest)))
    ∙ search_up-nearest marked start dir (drop_last (s ∷ rest)) rounds hit
        (λ t q above. near t q (
          IsAbove-trans (t ∷ q) (drop_last (s ∷ rest)) (s ∷ rest) above
            (drop_last-IsAbove (s ∷ rest))))
        (omega (arith, h, length-drop_last s rest))

-- From a directory at most nine levels below one with the marker, and none between, the root is found.
pub find_repo_root-nearest :
    (marked : List Text → Bool) (dir rest : List Text)
    → marked dir ≡ true
    → IsNearest marked dir rest
    → length rest ≤ 9
    → find_repo_root marked (dir ++ rest) ≡ dir
unfolding find_repo_root
find_repo_root-nearest marked dir rest hit near h =
    search_up-nearest marked (dir ++ rest) dir rest 10 hit near (omega (arith, h))
