-- ===== src/Sync/Manifest/Diff.antt =====
-- What the difference of two manifests says (`computeDiff` of server/src/sync/sync.gateway.ts).
use pocket_dev.Base.{
  String, ◌≡◌, refl, Bool, true, false, Option, none, some, List, [], ◌∷◌, ◌==◌, arith, eq_iff,
  eq_refl, any, is_some, if◌then◌else◌, Bool-cases, Option-cases, inl, inr,
}
use pocket_dev.Base.Dict.{get, IsDistinct}
use pocket_dev.Sync.Manifest.{
  FileManifestEntry, FileManifest, differs, is_in, is_inherited, changed_paths, removed_paths,
  compute_diff,
}

-- `paths.includes(path)`
abbrev pub includes : String → List String → Bool
includes path paths = any (λ p. p == path) paths

abbrev pub is_changed : FileManifest → String → Option FileManifestEntry → Bool
is_changed server path none = false
is_changed server path (some entry) = differs (get path server) entry

pub includes-changed_paths :
    (server client : FileManifest) (path : String)
    → IsDistinct client
    → includes path (changed_paths server client) ≡ is_changed server path (get path client)
unfolding get changed_paths
includes-changed_paths server [] path d = refl
includes-changed_paths server ((p, e) ∷ client) path d = elim (Bool-cases (p == path)) [
  | inl same ↦
      let one : p ≡ path = (eq_iff p path).0 same in
      let rest = includes-changed_paths server client path d.1 in
      let gone : get path client ≡ none = rw (← one) d.0 in ground (arith, one, rest, gone)
  | inr apart ↦ ground (arith, includes-changed_paths server client path d.1)
]

pub includes-removed_paths :
    (server client : FileManifest) (path : String)
    → includes path (removed_paths server client)
      ≡ (if is_in path client then false else is_some (get path server))
unfolding get removed_paths
includes-removed_paths [] client path = ground arith
includes-removed_paths ((p, e) ∷ server) client path =
    ground (arith, eq_iff p path, includes-removed_paths server client path)

-- The hash that a manifest has for a path.
abbrev pub hash_of : Option FileManifestEntry → Option String
hash_of none = none
hash_of (some e) = some e.hash

-- The hash of a path on the server after it has taken the changed files from the client and dropped the
-- removed ones.
abbrev pub hash_after : FileManifest → FileManifest → String → Option String
hash_after server client path =
    let diff = compute_diff server client in
    if includes path diff.removed
    then none
    else if includes path diff.changed
    then hash_of (get path client)
    else hash_of (get path server)

-- The difference is enough: a server that takes the changed files and drops the removed ones has the
-- client's hash at every path, but for a path that every object inherits.
pub hash_after_lem :
    (server client : FileManifest) (path : String)
    → IsDistinct client
    → is_inherited path ≡ false
    → hash_after server client path ≡ hash_of (get path client)
unfolding compute_diff is_in
hash_after_lem server client path d own =
    let c = includes-changed_paths server client path d in
    let r = includes-removed_paths server client path in
    elim (Option-cases (get path client)) [
      | inl e ↦ elim (Option-cases (get path server)) [
        | inl f ↦ ground (arith, e, f, c, r, own)
        | inr (s, f) ↦ ground (arith, e, f, c, r, own)
      ]
      | inr (k, e) ↦ elim (Option-cases (get path server)) [
        | inl f ↦ ground (arith, e, f, c, r, own)
        | inr (s, f) ↦ ground (arith, e, f, c, r, own, eq_iff s.hash k.hash)
      ]
    ]

-- Every file of the client is on the server with its hash.
abbrev IsCovered : FileManifest → FileManifest → Type 0
IsCovered server client =
    (path : String) (e : FileManifestEntry)
    → get path client ≡ some e
    → (s : FileManifestEntry) × (get path server ≡ some s) × (s.hash ≡ e.hash)

IsCovered-rest :
    (server client : FileManifest) (p : String) (e : FileManifestEntry)
    → get p client ≡ none
    → IsCovered server ((p, e) ∷ client)
    → IsCovered server client
unfolding get
IsCovered-rest server client p e new h path k f = h path k (ground (arith, eq_iff p path, f, new))

changed_paths-IsCovered :
    (server client : FileManifest)
    → IsDistinct client
    → IsCovered server client
    → changed_paths server client ≡ []
unfolding changed_paths
changed_paths-IsCovered server [] d h = refl
changed_paths-IsCovered server ((p, e) ∷ client) d h =
    let (s, f, same) = h p e (unfold get in ground (arith, eq_refl p)) in
    rw f (
      ground (
        arith,
        same,
        eq_iff s.hash e.hash,
        changed_paths-IsCovered server client d.1 (IsCovered-rest server client p e d.0 h),
      ))

removed_paths-none :
    (server client : FileManifest)
    → ((path : String) → is_some (get path server) ≡ true → is_some (get path client) ≡ true)
    → IsDistinct server
    → removed_paths server client ≡ []
unfolding removed_paths is_in get
removed_paths-none [] client h d = refl
removed_paths-none ((p, e) ∷ server) client h d = ground (
  arith,
  h p (ground (arith, eq_refl p)),
  removed_paths-none server client (λ path f. h path (ground (arith, eq_iff p path, f))) d.1,
)

-- The difference of a manifest with itself is empty: what has been synced is not sent again.
pub compute_diff_same :
    (m : FileManifest) → IsDistinct m → compute_diff m m ≡ record { changed = []; removed = [] }
unfolding compute_diff
compute_diff_same m d = rw (
  changed_paths-IsCovered m m d (λ path e f. (e, f, refl)),
  removed_paths-none m m (λ path f. f) d,
)
