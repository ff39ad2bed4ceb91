-- ===== src/Sync/Stored/Disks.antt =====
-- A round of the sync between two disks: the agent's manifest and files (services/cli-agent/src/manifest.ts)
-- at the server's store (server/src/files/file-store.service.ts), by the frames of
-- services/cli-agent/src/sync-client.ts and the gateway of server/src/sync/sync.gateway.ts.
pub mod First
mod Sample
mod Tests
use pocket_dev.Base.{
  ℕ, String, Text, codes, ◌≡◌, refl, sym, ap, ◌∙◌, Option, none, some, List, ◌∷◌, ◌++◌, All, Result,
  ok, err,
}
use pocket_dev.Base.Dict.{get}
use pocket_dev.Base.Names.{string_of, IsCharText, codes-string_of}
use pocket_dev.Server.Db.{Db, Project}
use pocket_dev.Files.Disk.{Bytes, Node, Entries, file, dir, node_at}
use pocket_dev.Files.Paths.{split}
use pocket_dev.Files.SafePath.Portable.{IsPortable, All-IsName, All-IsPlain, portable_accepted}
use pocket_dev.Files.Store.Refines.{files}
use pocket_dev.Files.Tree.{join}
use pocket_dev.Files.Keys.{key, split-join, join-IsCharText}
use pocket_dev.Files.Manifest.{build_manifest, read_base64, entry_for}
use pocket_dev.Files.Manifest.Complete.{IsTidy, synced, get-build_manifest}
use pocket_dev.Files.Manifest.Readable.{listed-synced, synced-read, synced-node_at}
use pocket_dev.Files.Manifest.Listed.{AllNames, build_manifest-IsDistinct, build_manifest-IsKey}
use pocket_dev.Sync.Manifest.{FileManifestEntry, FileManifest}
use pocket_dev.Sync.Gateway.{SyncConn, SyncState}
use pocket_dev.Sync.Gateway.Order.{project_row, with_manifest}
use pocket_dev.Sync.Round.{Contract}
use pocket_dev.Sync.Round.Outcome.{IsAdvertised}
use pocket_dev.Sync.Round.Faithful.{round_end}
use pocket_dev.Sync.Stored.{disk_store, disk_contract, project, place, IsPlace}

-- What is relied on of base64, for the files that are to be synced: it writes characters, and decoding
-- undoes it.
pub record IsBase64 (encode : Bytes → Text) (decode : Text → Bytes) (es : Entries) : Type 0 where
  pub undone : (path : List Text) (b : Bytes) → synced path es ≡ some b → decode (encode b) ≡ b
  pub chars : (path : List Text) (b : Bytes) → synced path es ≡ some b → IsCharText (encode b)

abbrev as_string : Result Text → Result String
as_string (ok t) = ok (string_of t)
as_string (err e) = err e

-- What the agent reads, as the strings that it sends.
abbrev pub agent_reads : (Bytes → Text) → List Text → Node → String → Result String
agent_reads encode home laptop path = as_string (read_base64 encode home laptop (codes path))

module _ (encode : Bytes → Text) (decode : Text → Bytes) (hash : Bytes → String)
    (mtime : String → ℕ) (home : List Text) (laptop : Node) (es : Entries)
    (base64 : IsBase64 encode decode es) (at_home : node_at home (some laptop) ≡ some (dir es))
    (tidy : IsTidy es) (portable : AllNames IsPortable es) where
  abbrev manifest : FileManifest
  manifest = build_manifest hash mtime home laptop

  abbrev reads : String → Result String
  reads = agent_reads encode home laptop

  module _ (root : List Text) (u p : String) where
    codes-key :
        (t : Text) (q : List Text) → All IsPortable (t ∷ q) → codes (key (t ∷ q)) ≡ join (t ∷ q)
    codes-key t q h = codes-string_of _ (join-IsCharText (t ∷ q) (All-IsName (t ∷ q) h))

    split-key :
        (t : Text) (q : List Text) → All IsPortable (t ∷ q) → split (codes (key (t ∷ q))) ≡ t ∷ q
    split-key t q h = ap split (codes-key t q h) ∙ split-join t q (All-IsName (t ∷ q) h)

    pub place-key :
        (t : Text) (q : List Text)
        → All IsPortable (t ∷ q)
        → place root decode u p (key (t ∷ q)) ≡ project root decode u p ++ t ∷ q
    place-key t q h = ap (λ path. project root decode u p ++ path) (split-key t q h)

    -- What is to be synced is read.
    pub reads-key :
        (t : Text) (q : List Text) (b : Bytes)
        → All IsPortable (t ∷ q)
        → synced (t ∷ q) es ≡ some b
        → reads (key (t ∷ q)) ≡ ok (string_of (encode b))
    reads-key t q b h found = rw (codes-key t q h) (
        ap as_string (
          synced-read hash mtime encode home laptop es t q b at_home (All-IsName (t ∷ q) h)
            (All-IsPlain (t ∷ q) h) found))

    pub key-IsPlace :
        (t : Text) (q : List Text) → All IsPortable (t ∷ q) → IsPlace root decode u p (key (t ∷ q))
    key-IsPlace t q h =
        rw (split-key t q h, codes-key t q h) (portable_accepted (project root decode u p) t q h)

    -- A listed path is that of a file that the agent reads.
    record Listed (path : String) (e : FileManifestEntry) : Type 0 where
      bytes : Bytes
      sound : IsPlace root decode u p path
      there : node_at (split (codes path)) (some (dir es)) ≡ some (file bytes)
      sent : reads path ≡ ok (string_of (encode bytes))
      undone : decode (codes (string_of (encode bytes))) ≡ bytes
      hashed : hash bytes ≡ e.hash

    listed : (path : String) (e : FileManifestEntry) → get path manifest ≡ some e → Listed path e
    listed path e h =
        let (t, q, names, k) =
          build_manifest-IsKey hash mtime home laptop es at_home IsPortable path e portable h in
        let at_key : get (key (t ∷ q)) manifest ≡ some e = rw (← k) h in
        let (b, found, entry) =
          listed-synced hash mtime encode home laptop es t q e at_home tidy
            (All-IsName (t ∷ q) names) at_key in
        rw k (record {
          bytes = b;
          sound = key-IsPlace t q names;
          there = rw (split-key t q names) (synced-node_at t q es b found);
          sent = reads-key t q b names found;
          undone =
              ap decode (codes-string_of _ (base64.chars (t ∷ q) b found))
              ∙ base64.undone (t ∷ q) b found;
          hashed = rw entry refl;
        })

    abbrev contract : Contract (disk_store root decode) u p Bytes
    contract = disk_contract root decode u p

    pub manifest-IsAdvertised : IsAdvertised contract hash reads manifest
    manifest-IsAdvertised = record {
      distinct = build_manifest-IsDistinct hash mtime home laptop es at_home;
      sound = λ path e h. (listed path e h).sound;
      readable = λ path e h.
          let l = listed path e h in
          (string_of (encode l.bytes), l.sent, ap hash l.undone ∙ l.hashed);
    }

    module _ (conn : SyncConn) (db : Db) (disk : Node) (now : ℕ) (row : Project) where
      abbrev after : SyncState Node
      after = round_end (disk_store root decode) p reads manifest conn db disk now row
