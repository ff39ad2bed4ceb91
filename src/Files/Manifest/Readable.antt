-- ===== src/Files/Manifest/Readable.antt =====
-- What the agent lists it can read (services/cli-agent/src/manifest.ts).
use pocket_dev.Base.{
  ℕ, String, Text, ◌≡◌, refl, Option, none, some, List, [], ◌∷◌, ◌++◌, arith, All, Bool-cases,
  Option-cases, inl, inr, ok,
}
use pocket_dev.Base.Dict.{get}
use pocket_dev.Files.Disk.{Bytes, Node, Entries, file, dir, find_entry, node_at}
use pocket_dev.Files.Paths.{IsPlain, resolve_plain}
use pocket_dev.Files.Tree.{is_ignored, join}
use pocket_dev.Files.Keys.{key, IsName, split-join}
use pocket_dev.Sync.Manifest.{FileManifestEntry}
use pocket_dev.Files.Manifest.{entry_for, build_manifest, read_base64}
use pocket_dev.Files.Manifest.Complete.{
  IsTidy, synced, synced-listed, synced_from, get-build_manifest,
}

synced_from-node_at :
    (s : Text) (path : List Text) (o : Option Node) (b : Bytes)
    → synced_from s path o ≡ some b
    → node_at path o ≡ some (file b)
unfolding synced_from node_at
synced_from-node_at s [] none b h = absurd (cc h)
synced_from-node_at s [] (some (dir es)) b h = absurd (cc h)
synced_from-node_at s [] (some (file c)) b h = ground arith
synced_from-node_at s (t ∷ path) none b h = absurd (cc h)
synced_from-node_at s (t ∷ path) (some (file c)) b h = absurd (cc h)
synced_from-node_at s (t ∷ path) (some (dir es)) b h = elim (Bool-cases (is_ignored s)) [
  | inl skipped ↦ absurd (cc (rw skipped at h))
  | inr kept ↦ synced_from-node_at t path (find_entry t es) b (rw kept at h)
]

node_at-none : (p : List Text) → none ≡ node_at p none
unfolding node_at
node_at-none [] = refl
node_at-none (t ∷ p) = refl

pub synced-node_at :
    (t : Text) (q : List Text) (es : Entries) (b : Bytes)
    → synced (t ∷ q) es ≡ some b
    → node_at (t ∷ q) (some (dir es)) ≡ some (file b)
unfolding node_at
synced-node_at t q es b h =
    synced_from-node_at t q (find_entry t es) b (synced-listed (t ∷ q) es b h)

node_at-append : (a p : List Text) (o : Option Node) → node_at (a ++ p) o ≡ node_at p (node_at a o)
unfolding node_at
node_at-append [] p o = refl
node_at-append (s ∷ a) p none = node_at-none p
node_at-append (s ∷ a) p (some (file c)) = node_at-none p
node_at-append (s ∷ a) p (some (dir es)) = node_at-append a p (find_entry s es)

module _ (hash : Bytes → String) (mtime : String → ℕ) (encode : Bytes → Text) (root : List Text)
    (disk : Node) (es : Entries) where
  pub synced-read :
      (t : Text) (q : List Text) (b : Bytes)
      → node_at root (some disk) ≡ some (dir es)
      → All IsName (t ∷ q)
      → All IsPlain (t ∷ q)
      → synced (t ∷ q) es ≡ some b
      → read_base64 encode root disk (join (t ∷ q)) ≡ ok (encode b)
  unfolding read_base64 node_at
  synced-read t q b there names plain h =
      let at = synced-node_at t q es b h in
      rw (split-join t q names, resolve_plain root (t ∷ q) plain)
        (rw (node_at-append root (t ∷ q) (some disk), there) (rw at refl))

  -- What is listed is a file that is to be synced.
  pub listed-synced :
      (t : Text) (q : List Text) (e : FileManifestEntry)
      → node_at root (some disk) ≡ some (dir es)
      → IsTidy es
      → All IsName (t ∷ q)
      → get (key (t ∷ q)) (build_manifest hash mtime root disk) ≡ some e
      → (b : Bytes) × (synced (t ∷ q) es ≡ some b) × (e ≡ entry_for hash mtime (key (t ∷ q)) b)
  listed-synced t q e there tidy names h =
      let exact = get-build_manifest hash mtime t q names root disk es there tidy in
      elim (Option-cases (synced (t ∷ q) es)) [
        | inl absent ↦ absurd (cc (h, rw absent at exact))
        | inr (b, found) ↦ (b, found, cc (h, rw found at exact))
      ]

  -- What the agent lists it can read: an entry at the key of a path of plain names is that of a file
  -- that a later read of this path gives, with the entry's size and hash, while the disk stays as it is.
  pub listed_read :
      (t : Text) (q : List Text) (e : FileManifestEntry)
      → node_at root (some disk) ≡ some (dir es)
      → IsTidy es
      → All IsName (t ∷ q)
      → All IsPlain (t ∷ q)
      → get (key (t ∷ q)) (build_manifest hash mtime root disk) ≡ some e
      → (b : Bytes) × (read_base64 encode root disk (join (t ∷ q)) ≡ ok (encode b))
        × (e ≡ entry_for hash mtime (key (t ∷ q)) b)
  listed_read t q e there tidy names plain h =
      let (b, found, listed) = listed-synced t q e there tidy names h in
      (b, synced-read t q b there names plain found, listed)
