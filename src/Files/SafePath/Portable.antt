-- ===== src/Files/SafePath/Portable.antt =====
-- Names that mean the same on the agent's machine and on the server (services/cli-agent/src/manifest.ts
-- and server/src/files/file-store.service.ts).
use pocket_dev.Base.{
  Text, text_eq, ◌≡◌, refl, ap, ◌∙◌, false, List, [], ◌∷◌, ◌++◌, arith, nat_eq, All, All-append, ok,
}
use pocket_dev.Files.Paths.{slash, IsPlain}
use pocket_dev.Files.SafePath.{
  backslash, to_posix, drop_slashes, normalized, is_absolute, has_drive, starts_up, safe_resolve,
}
use pocket_dev.Files.SafePath.Inside.{plain_accepted}
use pocket_dev.Files.Tree.{join}
use pocket_dev.Files.Keys.{IsName, split-join}

-- A name that is normalized, and has no slash, no backslash, no dots in front, and no drive letter.
pub record IsPortable (s : Text) : Type 0 where
  pub name : IsName s
  pub plain : IsPlain s
  pub no_backslash : All (λ c. nat_eq c backslash ≡ false) s
  pub no_dots : starts_up s ≡ false
  pub no_drive : has_drive s ≡ false

pub All-IsName : (path : List Text) → All IsPortable path → All IsName path
All-IsName [] h = tt
All-IsName (s ∷ path) h = (h.0.name, All-IsName path h.1)

pub All-IsPlain : (path : List Text) → All IsPortable path → All IsPlain path
All-IsPlain [] h = tt
All-IsPlain (s ∷ path) h = (h.0.plain, All-IsPlain path h.1)

join-no_backslash :
    (path : List Text) → All IsPortable path → All (λ c. nat_eq c backslash ≡ false) (join path)
unfolding join
join-no_backslash [] h = tt
join-no_backslash (s ∷ []) h = h.0.no_backslash
join-no_backslash (s ∷ t ∷ path) h =
    All-append (λ c. nat_eq c backslash ≡ false) s (slash ∷ join (t ∷ path)) h.0.no_backslash
      (refl, join-no_backslash (t ∷ path) h.1)

to_posix_same : (s : Text) → All (λ c. nat_eq c backslash ≡ false) s → to_posix s ≡ s
unfolding to_posix
to_posix_same [] h = refl
to_posix_same (c ∷ s) h = rw (h.0, to_posix_same s h.1) refl

drop_slashes_same : (s : Text) → is_absolute s ≡ false → drop_slashes s ≡ s
unfolding drop_slashes
drop_slashes_same [] h = refl
drop_slashes_same (c ∷ s) h = rw h refl

join-is_absolute :
    (s : Text) (path : List Text) → IsPortable s → is_absolute (join (s ∷ path)) ≡ false
unfolding join text_eq
join-is_absolute [] path h = absurd (cc h.plain.not_idle)
join-is_absolute (c ∷ s) [] h = h.name.no_slash.0
join-is_absolute (c ∷ s) (t ∷ path) h = h.name.no_slash.0

join-has_drive : (s : Text) (path : List Text) → IsPortable s → has_drive (join (s ∷ path)) ≡ false
unfolding join text_eq
join-has_drive s [] h = h.no_drive
join-has_drive [] (t ∷ path) h = absurd (cc h.plain.not_idle)
join-has_drive (c ∷ []) (t ∷ path) h = ground arith
join-has_drive (c ∷ d ∷ s) (t ∷ path) h = h.no_drive

-- A path of portable names is accepted as it stands.
pub portable_accepted :
    (dir : List Text) (s : Text) (path : List Text)
    → All IsPortable (s ∷ path)
    → safe_resolve dir (join (s ∷ path)) ≡ ok (dir ++ s ∷ path)
portable_accepted dir s path h =
    let rooted = join-is_absolute s path h.0 in
    let same : normalized (join (s ∷ path)) ≡ join (s ∷ path) =
      ap drop_slashes (to_posix_same (join (s ∷ path)) (join-no_backslash (s ∷ path) h))
      ∙ drop_slashes_same (join (s ∷ path)) rooted in
    plain_accepted dir (join (s ∷ path)) s path rooted (rw same (join-has_drive s path h.0))
      (rw same (split-join s path (All-IsName (s ∷ path) h))) (All-IsPlain (s ∷ path) h) h.0.no_dots
