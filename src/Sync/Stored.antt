-- ===== src/Sync/Stored.antt =====
-- The file store on the disk (server/src/files/file-store.service.ts) as the store of the sync gateway
-- (server/src/sync/sync.gateway.ts): it keeps the contract that a round relies on.
mod Takes
pub mod Disks
use Prim.Native.Char.{code}
use mathlib.Core.Path.{ap₂}
use text.Mathlib.TextEquality.{Char-path}
use pocket_dev.Base.{
  ℕ, String, Text, codes, text_eq, text_eq_refl, text_eq_iff, ◌≡◌, ◌↔◌, refl, sym, ap, ◌∙◌, Bool,
  true, false, ◌&&◌, Option, none, some, List, [], ◌∷◌, ◌++◌, ◌==◌, arith, nat_eq, nat_eq_iff,
  eq_iff, eq_refl, if◌then◌else◌, Bool-cases, inl, inr, ok,
}
use pocket_dev.Files.Disk.{Bytes, Node, Entries, file, dir, find_entry, node_at}
use pocket_dev.Files.Paths.{split, slash}
use pocket_dev.Files.SafePath.{project_dir, safe_resolve}
use pocket_dev.Files.Store
use pocket_dev.Files.Disk.Contents.{contents, same_path, is_below}
use pocket_dev.Files.Store.Refines.{files, write_bytes-files, remove-files}
use pocket_dev.Files.Tree.{join}
use pocket_dev.Files.Keys.{codes-injective, join-split, same_path_iff, same_path-below}
use pocket_dev.Sync.Gateway.{FileStore}
use pocket_dev.Sync.Round.{Contract}

same-is_below : (p q : List Text) → same_path p q ≡ true → is_below p q ≡ true
unfolding same_path is_below
same-is_below [] q h = refl
same-is_below (s ∷ p) [] h = absurd (cc h)
same-is_below (s ∷ p) (t ∷ q) h = ground (arith, same-is_below p q)

-- Nothing lies below a file.
file-alone :
    (p q : List Text) (o : Option Node) (b : Bytes)
    → contents p o ≡ some b
    → is_below p q ≡ true
    → same_path p q ≡ false
    → contents q o ≡ none
unfolding same_path is_below node_at
file-alone [] [] o b h below apart = absurd (cc apart)
file-alone [] (t ∷ q) none b h below apart = refl
file-alone [] (t ∷ q) (some (file c)) b h below apart = refl
file-alone [] (t ∷ q) (some (dir es)) b h below apart = absurd (cc h)
file-alone (s ∷ p) [] o b h below apart = absurd (cc below)
file-alone (s ∷ p) (t ∷ q) none b h below apart = absurd (cc h)
file-alone (s ∷ p) (t ∷ q) (some (file c)) b h below apart = absurd (cc h)
file-alone (s ∷ p) (t ∷ q) (some (dir es)) b h below apart = elim (Bool-cases (text_eq s t)) [
  | inl same ↦
      let one = (text_eq_iff s t).0 same in
      file-alone p q (find_entry t es) b (rw one at h) (rw same at below) (rw same at apart)
  | inr other ↦ absurd (cc (rw other at below))
]

-- The store of the gateway is the store on the disk, with the decoding of base64 that Node has.
abbrev pub disk_store : List Text → (Text → Bytes) → FileStore Node
disk_store root decode = record {
  write_base64 = λ u p path content disk.
      Store.write_base64 root decode (codes u) (codes p) (codes path) (codes content) disk;
  remove = λ u p path disk. Store.remove root (codes u) (codes p) (codes path) disk;
}

module _ (root : List Text) (decode : Text → Bytes) (u p : String) where
  abbrev pub project : List Text
  project = project_dir root (codes u) (codes p)

  -- Where a path of a manifest lies.
  abbrev pub place : String → List Text
  place path = project ++ split (codes path)

  -- The path lies in the project as it stands, as those that the agent makes do.
  abbrev pub IsPlace : String → Type 0
  IsPlace path = safe_resolve project (codes path) ≡ ok (place path)

  same_place : (a b : String) → same_path (place a) (place b) ≡ (a == b)
  same_place a b = elim (Bool-cases (a == b)) [
    | inl same ↦ rw same ((same_path_iff (place a) (place b)).1 (ap place ((eq_iff a b).0 same)))
    | inr apart ↦ elim (Bool-cases (same_path (place a) (place b))) [
      | inr differs ↦ rw apart differs
      | inl one ↦
          let cut =
            (same_path_iff (split (codes a)) (split (codes b))).0
              (sym (same_path-below project (split (codes a)) (split (codes b))) ∙ one) in
          let texts = sym (join-split (codes a)) ∙ ap join cut ∙ join-split (codes b) in
          absurd (cc ((eq_iff a b).1 (codes-injective a b texts), apart))
    ]
  ]

  pub place-write :
      (path q c : String) (n : ℕ) (f after : Node)
      → IsPlace path
      → IsPlace q
      → (disk_store root decode).write_base64 u p path c f ≡ (ok n, after)
      → files after (place q) ≡ (if path == q then some (decode (codes c)) else files f (place q))
  unfolding Store.write_base64
  place-write path q c n f after sound sound' h = rw (← (same_place path q)) (
      write_bytes-files root (codes u) (codes p) (codes path) (place path) f after
        (decode (codes c)) n (place q) sound h)

  pub place-remove :
      (path q : String) (b : Bytes) (f after : Node)
      → IsPlace path
      → IsPlace q
      → files f (place path) ≡ some b
      → (disk_store root decode).remove u p path f ≡ (ok tt, after)
      → files after (place q) ≡ (if path == q then none else files f (place q))
  place-remove path q b f after sound sound' there h =
      let all =
        remove-files root (codes u) (codes p) (codes path) (place path) f after (place q) sound h in
      elim (Bool-cases (path == q)) [
        | inl same ↦
            let below = same-is_below (place path) (place q) (same_place path q ∙ same) in
            all ∙ rw (same, below) refl
        | inr apart ↦ elim (Bool-cases (is_below (place path) (place q))) [
          | inl below ↦
              let gone =
                file-alone (place path) (place q) (some f) b there below
                  (same_place path q ∙ apart) in
              all ∙ rw (apart, below) (sym gone)
          | inr beside ↦ all ∙ rw (apart, beside) refl
        ]
      ]

  -- What the gateway relies on holds of the disk.
  abbrev pub disk_contract : Contract (disk_store root decode) u p Bytes
  disk_contract = record {
    decode = λ c. decode (codes c);
    Sound = IsPlace;
    content = λ f path. files f (place path);
    content-write = place-write;
    content-remove = place-remove;
  }
