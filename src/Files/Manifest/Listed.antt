-- ===== src/Files/Manifest/Listed.antt =====
-- The keys of the agent's manifest (services/cli-agent/src/manifest.ts).
use pocket_dev.Base.{
  ℕ, String, Text, ◌≡◌, refl, Bool, true, false, some, List, [], ◌∷◌, ◌++◌, ◌==◌, eq_iff,
  if◌then◌else◌, length, ltb, All, All-append, Bool-cases, inl, inr, ◌∙◌, arith,
}
use pocket_dev.Base.Dict.{get, assign, get-assign, IsDistinct, assign-IsDistinct}
use pocket_dev.Files.Disk.{Bytes, Node, Entries, file, dir, empty, entry, node_at}
use pocket_dev.Files.Tree.{is_ignored}
use pocket_dev.Files.Keys.{key}
use pocket_dev.Sync.Manifest.{FileManifestEntry, FileManifest}
use pocket_dev.Files.Manifest.{max_file_bytes, entry_for, walk, build_manifest}

-- Every name in a directory and below it.
abbrev pub AllNames : (Text → Type 0) → Entries → Type 0
AllNames P empty = Unit
AllNames P (entry s (file b) es) = P s × AllNames P es
AllNames P (entry s (dir sub) es) = P s × AllNames P sub × AllNames P es

-- A path of such names, of which this is the key.
abbrev pub IsKey : (Text → Type 0) → String → Type 0
IsKey P k = (t : Text) × (q : List Text) × All P (t ∷ q) × (k ≡ key (t ∷ q))

abbrev KeysIn : (Text → Type 0) → FileManifest → Type 0
KeysIn P m = (k : String) (e : FileManifestEntry) → get k m ≡ some e → IsKey P k

snoc-IsKey :
    (P : Text → Type 0) (rel : List Text) (s : Text)
    → All P rel
    → P s
    → IsKey P (key (rel ++ s ∷ []))
snoc-IsKey P [] s h p = (s, [], (p, tt), refl)
snoc-IsKey P (r ∷ rel) s h p =
    (r, rel ++ s ∷ [], (h.0, All-append P rel (s ∷ []) h.1 (p, tt)), refl)

get-assign_other :
    (path k : String) (e : FileManifestEntry) (m : FileManifest)
    → (path == k) ≡ false
    → get k m ≡ get k (assign path e m)
get-assign_other path k e m apart = ground (arith, get-assign path k e m, apart)

assign-KeysIn :
    (P : Text → Type 0) (path : String) (e : FileManifestEntry) (m : FileManifest)
    → IsKey P path
    → KeysIn P m
    → KeysIn P (assign path e m)
assign-KeysIn P path e m new old k f h = elim (Bool-cases (path == k)) [
  | inl same ↦ rw (← ((eq_iff path k).0 same)) new
  | inr apart ↦ old k f (get-assign_other path k e m apart ∙ h)
]

if_both :
    (Q : FileManifest → Type 0) (c : Bool) (m n : FileManifest) → Q m → Q n → Q (if c then m else n)
if_both Q true m n h k = h
if_both Q false m n h k = k

module _ (hash : Bytes → String) (mtime : String → ℕ) where
  walk-KeysIn :
      (P : Text → Type 0) (rel : List Text) (es : Entries) (out : FileManifest)
      → All P rel
      → AllNames P es
      → KeysIn P out
      → KeysIn P (walk hash mtime rel es out)
  unfolding walk
  walk-KeysIn P rel empty out above names h = h
  walk-KeysIn P rel (entry s (file b) es) out above names h =
      let path = key (rel ++ s ∷ []) in
      walk-KeysIn P rel es _ above names.1 (
        if_both (KeysIn P) (ltb max_file_bytes (length b)) out _ h (
          assign-KeysIn P path (entry_for hash mtime path b) out (snoc-IsKey P rel s above names.0)
            h))
  walk-KeysIn P rel (entry s (dir sub) es) out above names h =
      walk-KeysIn P rel es _ above names.2 (
        if_both (KeysIn P) (is_ignored s) out _ h (
          walk-KeysIn P (rel ++ s ∷ []) sub out (All-append P rel (s ∷ []) above (names.0, tt))
            names.1 h))

  walk-IsDistinct :
      (rel : List Text) (es : Entries) (out : FileManifest)
      → IsDistinct out
      → IsDistinct (walk hash mtime rel es out)
  unfolding walk
  walk-IsDistinct rel empty out h = h
  walk-IsDistinct rel (entry s (file b) es) out h =
      let path = key (rel ++ s ∷ []) in
      walk-IsDistinct rel es _ (
        if_both IsDistinct (ltb max_file_bytes (length b)) out _ h
          (assign-IsDistinct path (entry_for hash mtime path b) out h))
  walk-IsDistinct rel (entry s (dir sub) es) out h =
      walk-IsDistinct rel es _
        (if_both IsDistinct (is_ignored s) out _ h (walk-IsDistinct (rel ++ s ∷ []) sub out h))

  module _ (root : List Text) (disk : Node) (es : Entries)
      (there : node_at root (some disk) ≡ some (dir es)) where
    pub build_manifest-IsDistinct : IsDistinct (build_manifest hash mtime root disk)
    unfolding build_manifest
    build_manifest-IsDistinct = rw there (walk-IsDistinct [] es [] tt)

    -- Every key is that of a path of names from the project.
    pub build_manifest-IsKey :
        (P : Text → Type 0) (k : String) (e : FileManifestEntry)
        → AllNames P es
        → get k (build_manifest hash mtime root disk) ≡ some e
        → IsKey P k
    unfolding build_manifest get
    build_manifest-IsKey P k e names h =
        walk-KeysIn P [] es [] tt names (λ j f g. absurd (cc g)) k e (rw there at h)
