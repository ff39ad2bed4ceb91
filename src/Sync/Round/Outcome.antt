-- ===== src/Sync/Round/Outcome.antt =====
-- What the two ends of a round make of the manifests (services/cli-agent/src/sync-client.ts and
-- server/src/sync/sync.gateway.ts): the files before, and after the changes and the removals.
use pocket_dev.Base.{
  ℕ, String, ◌≡◌, ◌∙◌, true, false, none, some, ◌==◌, arith, eq_iff, if◌then◌else◌, Result, ok, All,
  Bool-cases, Option-cases, inl, inr,
}
use pocket_dev.Base.Dict.{get, IsDistinct}
use pocket_dev.Server.Db.{Project}
use pocket_dev.Sync.Manifest.{
  FileManifestEntry, FileManifest, changed_paths, removed_paths, is_in, is_inherited,
}
use pocket_dev.Sync.Manifest.Diff.{includes, includes-changed_paths, includes-removed_paths}
use pocket_dev.Sync.Gateway.{FileStore, SyncState}
use pocket_dev.Sync.Gateway.Order.{project_row, with_manifest}
use pocket_dev.Sync.Round.Frames.{All-includes}
use pocket_dev.Sync.Round.Phases.{after_files}
use pocket_dev.Sync.Round.Removals.{IsHeld, after_removals}
use pocket_dev.Sync.Round.{Contract, IsFaithful}

module _ {F : Type 0} {store : FileStore F} {u id : String} {B : Type 0}
    (contract : Contract store u id B) (hash : B → String) where
  -- The manifest is the agent's: its files can be read, and have the hashes that it lists.
  pub record IsAdvertised (read_base64 : String → Result String) (m : FileManifest) : Type 0 where
    pub distinct : IsDistinct m
    pub sound : (path : String) (e : FileManifestEntry) → get path m ≡ some e → contract.Sound path
    pub readable :
        (path : String) (e : FileManifestEntry)
        → get path m ≡ some e
        → (c : String) × (read_base64 path ≡ ok c) × (hash (contract.decode c) ≡ e.hash)

  -- The manifest that the server kept tells what the project holds.
  pub record IsKept (kept : FileManifest) (f : F) : Type 0 where
    pub distinct : IsDistinct kept
    pub sound :
        (path : String) (e : FileManifestEntry) → get path kept ≡ some e → contract.Sound path
    pub faithful : IsFaithful hash kept (contract.content f)

  -- What the round leaves, from the project's files before it.
  pub record IsSynced (read_base64 : String → Result String) (m kept : FileManifest) (f : F)
      (now : ℕ) (p : Project) (t : SyncState F) : Type 0 where
    pub holds : IsKept m t.files
    pub changed :
        (q c : String)
        → includes q (changed_paths kept m) ≡ true
        → read_base64 q ≡ ok c
        → contract.content t.files q ≡ some (contract.decode c)
    pub dropped :
        (q : String) (e : FileManifestEntry)
        → get q m ≡ none
        → is_inherited q ≡ false
        → get q kept ≡ some e
        → contract.content t.files q ≡ none
    pub others :
        (q : String)
        → contract.Sound q
        → get q m ≡ none
        → get q kept ≡ none
        → contract.content t.files q ≡ contract.content f q
    pub row : project_row id t.db ≡ some (with_manifest m now p)

module _ {F : Type 0} (store : FileStore F) (u id : String) {B : Type 0}
    (contract : Contract store u id B) (hash : B → String) (read_base64 : String → Result String)
    (m : FileManifest) where
  -- A changed path is one that the agent's manifest lists.
  changed_listed :
      (kept : FileManifest) (p : String)
      → IsDistinct m
      → includes p (changed_paths kept m) ≡ true
      → (e : FileManifestEntry) × (get p m ≡ some e)
  changed_listed kept p distinct h = elim (Option-cases (get p m)) [
    | inl e ↦ let c = rw e at (includes-changed_paths kept m p distinct) in absurd (cc (h, c))
    | inr listed ↦ listed
  ]

  pub changed-All :
      (P : String → Type 0) (kept : FileManifest)
      → IsDistinct m
      → ((path : String) (e : FileManifestEntry) → get path m ≡ some e → P path)
      → All P (changed_paths kept m)
  changed-All P kept distinct each =
      All-includes P (changed_paths kept m)
        (λ p h. let (e, listed) = changed_listed kept p distinct h in each p e listed)

  module _ (kept : FileManifest) (f g : F) (advertised : IsAdvertised contract hash read_base64 m)
      (before : IsKept contract hash kept f)
      (changes : (q : String)
        → contract.Sound q
        → contract.content g q
          ≡ after_files contract.decode read_base64
              (changed_paths kept m)
              q
              (contract.content f q)) where
    pub removed-IsHeld : All (IsHeld contract g) (removed_paths kept m)
    unfolding is_in
    removed-IsHeld = All-includes (IsHeld contract g) (removed_paths kept m) (λ p h.
        elim (Option-cases (get p kept)) [
          | inl e ↦ let r = includes-removed_paths kept m p in absurd (ground (arith, h, r, e))
          | inr (e, there) ↦
              let (b, held, tells) = before.faithful p e there in
              let sound = before.sound p e there in
              let c = includes-changed_paths kept m p advertised.distinct in
              let r = includes-removed_paths kept m p in
              let now_there = changes p sound in
              (sound, (b, ground (arith, c, r, h, held, now_there)))
        ])

    module _ (t : F)
        (removes : (q : String)
          → contract.Sound q
          → contract.content t q
            ≡ after_removals (removed_paths kept m) q (contract.content g q)) where
      -- What a path of neither manifest, of the old one alone, and of the new one holds.
      path_after :
          (q : String)
          → contract.Sound q
          → contract.content t q ≡ (
              if includes q (removed_paths kept m)
              then none
              else after_files contract.decode read_base64
                  (changed_paths kept m)
                  q
                  (contract.content f q))
      path_after q s = let c = changes q s in let r = removes q s in ground (arith, c, r)

      pub changed_path :
          (q c : String)
          → includes q (changed_paths kept m) ≡ true
          → read_base64 q ≡ ok c
          → contract.content t q ≡ some (contract.decode c)
      unfolding is_in
      changed_path q c sent read =
          let (e, listed) = changed_listed kept q advertised.distinct sent in
          let r = includes-removed_paths kept m q in
          let after = path_after q (advertised.sound q e listed) in
          ground (arith, r, after, listed, sent, read)

      pub kept_path :
          (q : String)
          → contract.Sound q
          → get q m ≡ none
          → get q kept ≡ none
          → contract.content t q ≡ contract.content f q
      kept_path q s gone absent =
          let c = includes-changed_paths kept m q advertised.distinct in
          let r = includes-removed_paths kept m q in
          let after = path_after q s in ground (arith, c, r, after, gone, absent)

      pub gone_path :
          (q : String) (e : FileManifestEntry)
          → get q m ≡ none
          → is_inherited q ≡ false
          → get q kept ≡ some e
          → contract.content t q ≡ none
      unfolding is_in
      gone_path q e gone own listed =
          let c = includes-changed_paths kept m q advertised.distinct in
          let r = includes-removed_paths kept m q in
          let after = path_after q (before.sound q e listed) in
          ground (arith, c, r, after, gone, own, listed)

      pub IsFaithful-after : IsFaithful hash m (contract.content t)
      unfolding is_in
      IsFaithful-after q e listed =
          let c = includes-changed_paths kept m q advertised.distinct in
          let r = includes-removed_paths kept m q in
          let (content, read, same) = advertised.readable q e listed in
          let after = path_after q (advertised.sound q e listed) in
          elim (Option-cases (get q kept)) [
            | inl absent ↦
                (contract.decode content, ground (arith, c, r, after, listed, absent, read), same)
            | inr (s, there) ↦
                let (b, held, tells) = before.faithful q s there in
                elim (Bool-cases (s.hash == e.hash)) [
                  | inl unchanged ↦ (
                    b,
                    ground (arith, c, r, after, listed, there, unchanged, held),
                    tells ∙ (eq_iff s.hash e.hash).0 unchanged,
                  )
                  | inr changed ↦ (
                    contract.decode content,
                    ground (arith, c, r, after, listed, there, changed, read),
                    same,
                  )
                ]
          ]

  pub phases-IsSynced :
      (kept : FileManifest) (f : F) (now : ℕ) (p : Project) (t : SyncState F) (g h : F)
      (advertised : IsAdvertised contract hash read_base64 m) (before : IsKept contract hash kept f)
      (changes : (q : String)
        → contract.Sound q
        → contract.content g q
          ≡ after_files contract.decode read_base64 (changed_paths kept m) q (contract.content f q))
      (removes : (q : String)
        → contract.Sound q
        → contract.content h q ≡ after_removals (removed_paths kept m) q (contract.content g q))
      → t.files ≡ h
      → project_row id t.db ≡ some (with_manifest m now p)
      → IsSynced contract hash read_base64 m kept f now p t
  phases-IsSynced kept f now p t g h advertised before changes removes same row = record {
    holds = record {
      distinct = advertised.distinct;
      sound = advertised.sound;
      faithful = rw same (IsFaithful-after kept f g advertised before changes h removes);
    };
    changed = rw same (changed_path kept f g advertised before changes h removes);
    dropped = rw same (gone_path kept f g advertised before changes h removes);
    others = rw same (kept_path kept f g advertised before changes h removes);
    row = row;
  }
