-- ===== src/Sync/Stored/Takes.antt =====
-- When the store on the disk takes a file of the agent (server/src/files/file-store.service.ts, as
-- server/src/sync/sync.gateway.ts calls it), and when it lets one go.
use pocket_dev.Base.{
  String, Text, codes, ◌≡◌, refl, ap, ◌∙◌, Option, none, some, List, [], ◌∷◌, length, ok,
}
use pocket_dev.Files.Disk.{Bytes, Node, Entries, file, dir, node_at, remove_node}
use pocket_dev.Files.Disk.Laws.{remove_node-file}
use pocket_dev.Files.Disk.Fits.{Fits, Stores, nest, nest-Stored}
use pocket_dev.Files.Paths.{split}
use pocket_dev.Files.Store
use pocket_dev.Files.Disk.Contents.{file_of, contents}
use pocket_dev.Files.Store.Refines.{accepted-not_root}
use pocket_dev.Files.Keys.{split-first}
use pocket_dev.Sync.Round.Open.{TakesAt, CanRemove}
use pocket_dev.Sync.Stored.{disk_store, disk_contract, project, place, IsPlace}

file_of-some : (o : Option Node) (b : Bytes) → file_of o ≡ some b → o ≡ some (file b)
file_of-some none b h = absurd (cc h)
file_of-some (some (dir _)) b h = absurd (cc h)
file_of-some (some (file c)) b h = ap (λ x. some (file x)) (cc h)

module _ (root : List Text) (decode : Text → Bytes) (u p : String) where
  write_base64-Stores :
      (path c : String) (disk after : Node)
      → IsPlace root decode u p path
      → Stores (place root decode u p path) (decode (codes c)) (some disk) after
      → (disk_store root decode).write_base64 u p path c disk
        ≡ (ok (length (decode (codes c))), after)
  unfolding Store.write_base64
  write_base64-Stores path c disk after sound w = rw (sound, w.directories) (rw w.contents refl)

  -- The disk has no file where the agent's project, put in the place of the server's, has a directory,
  -- and no directory where it has a file.
  abbrev pub FitsProject : Entries → Node → Type 0
  FitsProject es disk = Fits (some disk) (some (nest (project root decode u p) es))

  pub disk-TakesAt :
      (es : Entries) (path : String) (b : Bytes)
      → IsPlace root decode u p path
      → node_at (split (codes path)) (some (dir es)) ≡ some (file b)
      → TakesAt (disk_store root decode) u p (FitsProject es) path
  disk-TakesAt es path b sound there c disk fits =
      let (s, rest, e) = split-first (codes path) in
      let (after, w, still) =
        nest-Stored (project root decode u p) s rest (decode (codes c)) b (some disk) es
          (rw e at there) fits in
      (
        length (decode (codes c)),
        after,
        write_base64-Stores path c disk after sound (rw e w),
        still,
      )

  removes :
      (abs : List Text) (disk : Node) (b : Bytes)
      → ¬ (abs ≡ [])
      → contents abs (some disk) ≡ some b
      → (after : Node) × (remove_node abs disk ≡ some after)
  removes [] disk b inside h = absurd (inside refl)
  removes (s ∷ path) disk b inside h =
      remove_node-file s path disk b (file_of-some (node_at (s ∷ path) (some disk)) b h)

  pub disk-CanRemove : CanRemove (disk_store root decode) u p (disk_contract root decode u p)
  unfolding Store.remove
  disk-CanRemove path disk (sound, (b, there)) =
      let (after, e) =
        removes (place root decode u p path) disk b
          (λ top. accepted-not_root (project root decode u p) (codes path) (sound ∙ ap ok top))
          there in
      (after, rw sound (rw e refl))
