-- ===== src/Sync/Manifest.antt =====
-- File manifests (packages/shared/src/sync-protocol.ts) and their difference (`computeDiff` of
-- server/src/sync/sync.gateway.ts).
pub mod Diff
use pocket_dev.Base.{
  ℕ, String, Bool, true, false, not, ◌||◌, Option, none, some, List, [], ◌∷◌, ◌==◌, if◌then◌else◌,
  any, is_some,
}
use pocket_dev.Base.Dict.{Dict, get}

pub record FileManifestEntry : Type 0 where
  pub path : String
  pub size : ℕ
  pub mtime_ms : ℕ
  pub hash : String

-- A `Record` keyed by path, in the order of `Object.entries`.
abbrev pub FileManifest : Type 0
FileManifest = Dict FileManifestEntry

pub record ManifestDiff : Type 0 where
  pub changed : List String
  pub removed : List String

-- The members that every object inherits: `path in client` holds for them too.
abbrev inherited : List String
inherited =
    "constructor" ∷ "toString" ∷ "toLocaleString" ∷ "valueOf" ∷ "hasOwnProperty" ∷ "isPrototypeOf"
    ∷ "propertyIsEnumerable" ∷ "__proto__" ∷ "__defineGetter__" ∷ "__defineSetter__"
    ∷ "__lookupGetter__" ∷ "__lookupSetter__" ∷ []

unfoldable pub is_inherited : String → Bool
is_inherited path = any (λ name. name == path) inherited

-- `path in client`
unfoldable pub is_in : String → FileManifest → Bool
is_in path client = is_some (get path client) || is_inherited path

-- `!prev || prev.hash !== entry.hash`. An inherited member has no hash, which differs as a missing
-- entry does.
abbrev pub differs : Option FileManifestEntry → FileManifestEntry → Bool
differs none entry = true
differs (some prev) entry = not (prev.hash == entry.hash)

unfoldable pub changed_paths : FileManifest → FileManifest → List String
changed_paths server [] = []
changed_paths server ((path, entry) ∷ client) =
    let rest = changed_paths server client in
    if differs (get path server) entry then path ∷ rest else rest

unfoldable pub removed_paths : FileManifest → FileManifest → List String
removed_paths [] client = []
removed_paths ((path, entry) ∷ server) client =
    let rest = removed_paths server client in if not (is_in path client) then path ∷ rest else rest

unfoldable pub compute_diff : FileManifest → FileManifest → ManifestDiff
unfolding changed_paths removed_paths
compute_diff server client = record {
  changed = changed_paths server client;
  removed = removed_paths server client;
}
