-- ===== src/Files/Manifest/Agrees.antt =====
-- The agent and the server see the same manifest (services/cli-agent/src/manifest.ts and
-- server/src/files/file-store.service.ts).
use pocket_dev.Base.{
  String, ◌≡◌, refl, false, List, [], ◌∷◌, ◌++◌, ℕ, Text, length, ltb, if◌then◌else◌, Bool-cases,
  inl, inr,
}
use pocket_dev.Files.Disk.{Bytes, Entries, file, dir, empty, entry}
use pocket_dev.Files.Tree.{is_ignored}
use pocket_dev.Sync.Manifest.{FileManifest}
use pocket_dev.Files.Manifest.{max_file_bytes, collect_manifest, walk}

-- No file outside the ignored directories is too large for the agent.
abbrev pub IsSmall : Entries → Type 0
IsSmall empty = Unit
IsSmall (entry s (file b) es) = (ltb max_file_bytes (length b) ≡ false) × IsSmall es
IsSmall (entry s (dir sub) es) = (if is_ignored s then Unit else IsSmall sub) × IsSmall es

module _ (hash : Bytes → String) (mtime : String → ℕ) where
  -- On one tree, without a file that is too large, the agent's manifest is the server's.
  pub walk-collect_manifest :
      (rel : List Text) (es : Entries) (out : FileManifest)
      → IsSmall es
      → walk hash mtime rel es out ≡ collect_manifest hash mtime rel es out
  unfolding walk collect_manifest
  walk-collect_manifest rel empty out small = refl
  walk-collect_manifest rel (entry s (file b) es) out small =
      rw small.0 (walk-collect_manifest rel es _ small.1)
  walk-collect_manifest rel (entry s (dir sub) es) out small = elim (Bool-cases (is_ignored s)) [
    | inl skipped ↦ rw skipped (walk-collect_manifest rel es out small.1)
    | inr kept ↦
        rw (kept, walk-collect_manifest (rel ++ s ∷ []) sub out (rw kept at small.0))
          (walk-collect_manifest rel es _ small.1)
  ]
