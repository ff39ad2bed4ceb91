-- ===== src/Files/SafePath/Inside.antt =====
-- No path leads out of the project (`safeResolve` of server/src/files/file-store.service.ts).
use mathlib.Core.Path.{ap₂, subst}
use mathlib.Core.List.{append_assoc, append_cancel_left}
use pocket_dev.Base.{
  Text, text_eq, ◌≡◌, ◌≢◌, refl, sym, ap, ◌∙◌, false, List, [], ◌∷◌, ◌++◌, arith, text_eq_iff, All,
  Bool-cases, inl, inr, ok, any,
}
use pocket_dev.Files.Paths.{
  split, resolve, relative, parent, IsPlain, resolve-IsPlain, resolve_plain, relative_below,
}
use pocket_dev.Files.SafePath.{
  drop_slashes, to_posix, project_dir, is_absolute, has_drive, starts_up, leaves, normalized,
  safe_resolve,
}

-- A path whose way from the directory does not leave it lies in it, by that way.
relative-inside :
    (dir abs : List Text) → leaves (relative dir abs) ≡ false → abs ≡ dir ++ relative dir abs
unfolding relative
relative-inside [] abs h = refl
relative-inside (a ∷ dir) [] h = absurd (cc h)
relative-inside (a ∷ dir) (b ∷ abs) h = elim (Bool-cases (text_eq a b)) [
  | inl same ↦
      rw same (ap₂ ◌∷◌ (sym ((text_eq_iff a b).0 same)) (relative-inside dir abs (rw same at h)))
  | inr other ↦ absurd (cc (rw other at h))
]

All-rest : (P : Text → Type 0) (xs ys : List Text) → All P (xs ++ ys) → All P ys
All-rest P [] ys h = h
All-rest P (x ∷ xs) ys h = All-rest P xs ys h.1

pub accepted-leaves :
    (dir : List Text) (rel_path : Text) (abs : List Text)
    → safe_resolve dir rel_path ≡ ok abs
    → (leaves (relative dir abs) ≡ false) × (resolve dir (split (normalized rel_path)) ≡ abs)
unfolding safe_resolve
accepted-leaves dir rel_path abs h = ground arith

-- An accepted path is a normalized path strictly below the project's directory: it is the directory,
-- then at least one segment, none of them "..", empty or ".".
pub accepted_inside :
    (dir : List Text) (rel_path : Text) (abs : List Text)
    → All IsPlain dir
    → safe_resolve dir rel_path ≡ ok abs
    → (below : List Text) × (abs ≡ dir ++ below) × (below ≢ []) × All IsPlain below
accepted_inside dir rel_path abs plain h =
    let (stays, lands) = accepted-leaves dir rel_path abs h in
    let below = relative dir abs in
    let split_at = relative-inside dir abs stays in
    let all_plain = subst (All IsPlain) split_at (rw (← lands) (resolve-IsPlain dir _ plain)) in
    (
      below,
      split_at,
      (λ none_left. absurd (cc (rw none_left at stays))),
      All-rest IsPlain dir below all_plain,
    )

-- An id that is one plain segment of a path.
pub record IsSegment (id : Text) : Type 0 where
  pub one : split id ≡ id ∷ []
  pub plain : IsPlain id

project_dir_plain :
    (root : List Text) (u p : Text)
    → IsSegment u
    → IsSegment p
    → project_dir root u p ≡ root ++ u ∷ p ∷ []
unfolding project_dir
project_dir_plain root u p hu hp =
    rw (hu.one, hp.one)
      (rw (resolve_plain root (u ∷ []) (hu.plain, tt)) (
        resolve_plain (root ++ u ∷ []) (p ∷ []) (hp.plain, tt)
        ∙ append_assoc root (u ∷ []) (p ∷ [])))

below_ids :
    (root : List Text) (u p x : Text) (abs : List Text)
    → IsSegment u
    → IsSegment p
    → safe_resolve (project_dir root u p) x ≡ ok abs
    → (rest : List Text) × (abs ≡ root ++ u ∷ p ∷ rest)
below_ids root u p x abs hu hp a =
    let dir = project_dir root u p in
    let (stays, _) = accepted-leaves dir x abs a in
    let rest = relative dir abs in
    (
      rest,
      relative-inside dir abs stays
          ∙ ap (λ d. d ++ rest) (project_dir_plain root u p hu hp)
          ∙ append_assoc root (u ∷ p ∷ []) rest,
    )

-- No path is accepted in two projects: where the ids of users and projects are single names, two relative
-- paths that resolve to one place were given for the same user and project. The places are compared as
-- paths; where a link leads is not looked at.
pub projects_disjoint :
    (root : List Text) (u p u' p' x y : Text) (abs : List Text)
    → IsSegment u
    → IsSegment p
    → IsSegment u'
    → IsSegment p'
    → safe_resolve (project_dir root u p) x ≡ ok abs
    → safe_resolve (project_dir root u' p') y ≡ ok abs
    → (u ≡ u') × (p ≡ p')
projects_disjoint root u p u' p' x y abs hu hp hu' hp' a b =
    let (r, e) = below_ids root u p x abs hu hp a in
    let (r', e') = below_ids root u' p' y abs hu' hp' b in
    let same = append_cancel_left root (u ∷ p ∷ r) (u' ∷ p' ∷ r') (sym e ∙ e') in (cc same, cc same)

drop_slashes-not_absolute : (s : Text) → is_absolute (drop_slashes s) ≡ false
unfolding drop_slashes
drop_slashes-not_absolute [] = refl
drop_slashes-not_absolute (c ∷ s) = ground (arith, drop_slashes-not_absolute s)

any-parent-IsPlain :
    (segments : List Text) → All IsPlain segments → any (λ t. text_eq t parent) segments ≡ false
any-parent-IsPlain [] h = refl
any-parent-IsPlain (s ∷ segments) h = rw h.0.not_parent (any-parent-IsPlain segments h.1)

-- A relative path of normalized segments, without a drive letter, and whose first segment does not
-- begin with two dots, is accepted as it stands.
pub plain_accepted :
    (dir : List Text) (rel_path first : Text) (rest : List Text)
    → is_absolute rel_path ≡ false
    → has_drive (normalized rel_path) ≡ false
    → split (normalized rel_path) ≡ first ∷ rest
    → All IsPlain (first ∷ rest)
    → starts_up first ≡ false
    → safe_resolve dir rel_path ≡ ok (dir ++ first ∷ rest)
unfolding safe_resolve
plain_accepted dir rel_path first rest rooted drive cut plain dots =
    rw (rooted, drop_slashes-not_absolute (to_posix rel_path), drive, cut)
      (rw (resolve_plain dir (first ∷ rest) plain) (
        rw (relative_below dir (first ∷ rest))
          (rw (dots, any-parent-IsPlain (first ∷ rest) plain))))
