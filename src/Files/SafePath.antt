-- ===== src/Files/SafePath.antt =====
-- The confinement of a caller's path to the project's directory (`projectDir` and `safeResolve` of
-- server/src/files/file-store.service.ts). The message of a refusal is kept without the path.
pub mod Inside
pub mod Portable
use pocket_dev.Base.{
  ℕ, Text, codes, text_eq, Bool, true, false, ◌&&◌, ◌||◌, List, [], ◌∷◌, map, any, nat_eq, leb,
  if◌then◌else◌, Result, ok, err, bad_request,
}
use pocket_dev.Files.Paths.{slash, split, resolve, relative, parent}

-- `join(this.root, userId, projectId)`
unfoldable pub project_dir : List Text → Text → Text → List Text
project_dir root user_id project_id = resolve (resolve root (split user_id)) (split project_id)

abbrev pub backslash : ℕ
backslash = 0x5c

-- `replace(/\\/g, '/')`
unfoldable pub to_posix : Text → Text
to_posix = map (λ c. if nat_eq c backslash then slash else c)

-- `replace(/^\/+/, '')`
unfoldable pub drop_slashes : Text → Text
drop_slashes [] = []
drop_slashes (c ∷ s) = let rest = drop_slashes s in if nat_eq c slash then rest else c ∷ s

-- `isAbsolute`
abbrev pub is_absolute : Text → Bool
is_absolute [] = false
is_absolute (c ∷ s) = nat_eq c slash

abbrev is_letter : ℕ → Bool
is_letter c = (leb b'a' c && leb c b'z') || (leb b'A' c && leb c b'Z')

-- `/^[a-zA-Z]:/`
abbrev pub has_drive : Text → Bool
has_drive (c ∷ d ∷ s) = is_letter c && nat_eq d b':'
has_drive _ = false

-- `rel.startsWith('..')`, on the first segment
abbrev pub starts_up : Text → Bool
starts_up (c ∷ d ∷ s) = nat_eq c b'.' && nat_eq d b'.'
starts_up _ = false

-- The test on the path relative to the project.
abbrev pub leaves : List Text → Bool
leaves [] = true
leaves (s ∷ segments) = starts_up s || any (λ t. text_eq t parent) (s ∷ segments)

abbrev pub normalized : Text → Text
normalized rel_path = drop_slashes (to_posix rel_path)

unfoldable pub safe_resolve : List Text → Text → Result (List Text)
safe_resolve project_root rel_path =
    let abs = resolve project_root (split (normalized rel_path)) in
    if is_absolute rel_path
      || (is_absolute (normalized rel_path) || has_drive (normalized rel_path))
    then err (bad_request "Illegal path")
    else if leaves (relative project_root abs)
    then err (bad_request "Illegal path")
    else ok abs
