-- ===== src/Sync/Round/Open.antt =====
-- When the socket is still open after the frames of a round (services/cli-agent/src/sync-client.ts and
-- server/src/sync/sync.gateway.ts together).
use pocket_dev.Base.{ℕ, String, ◌≡◌, refl, ◌∙◌, true, List, [], ◌∷◌, ◌++◌, Result, ok, err, All}
use pocket_dev.Server.Db.{Db}
use pocket_dev.Sync.Manifest.{FileManifest}
use pocket_dev.Sync.Gateway.{FileStore, SyncClientMessage, run}
use pocket_dev.Sync.Client.{file_frame, file_frames}
use pocket_dev.Sync.Round.Phases.{final, final-append, ready, one_file, one_removed}
use pocket_dev.Sync.Round.Removals.{NoRepeat, IsHeld, IsHeld-rest, removals}
use pocket_dev.Sync.Round.{Contract, in_order}

module _ {F : Type 0} (store : FileStore F) (u id : String) where
  -- From a state of the store in which `Fits` holds, a write at the path goes through, whatever it
  -- writes, and `Fits` still holds.
  abbrev pub TakesAt : (F → Type 0) → String → Type 0
  TakesAt Fits path =
      (c : String) (f : F)
      → Fits f
      → (n : ℕ) × (g : F) × (store.write_base64 u id path c f ≡ (ok n, g)) × Fits g

  -- A file that the project holds can be removed.
  abbrev pub CanRemove : {B : Type 0} → Contract store u id B → Type 0
  CanRemove {B} contract =
      (path : String) (f : F)
      → IsHeld contract f path
      → (g : F) × (store.remove u id path f ≡ (ok tt, g))

  module _ (m : FileManifest) (db : Db) (now : ℕ) where
    module _ (read_base64 : String → Result String) (Fits : F → Type 0) where
      -- The end of the file frames.
      abbrev pub FilesEnd : List String → F → Type 0
      FilesEnd paths f =
          (g : F) × (final store (in_order now (file_frames id read_base64 paths))
              (ready store u id m db now true f)
            ≡ ready store u id m db now true g)

      frame-FilesEnd :
          (p : String) (rd : Result String) (paths : List String) (f : F)
          → TakesAt Fits p
          → Fits f
          → ((g : F) → Fits g → FilesEnd paths g)
          → (g : F) × (final store
                (in_order now (file_frame id read_base64 p rd ++ file_frames id read_base64 paths))
                (ready store u id m db now true f)
              ≡ ready store u id m db now true g)
      unfolding in_order
      frame-FilesEnd p (err e) paths f takes h rest = rest f h
      frame-FilesEnd p (ok c) paths f takes h rest =
          let (n, g, w, k) = takes c f h in
          let (t, e) = rest g k in
          let es = in_order now (file_frames id read_base64 paths) in
          (
            t,
            final-append store (in_order now (SyncClientMessage.file id p c ∷ [])) es
                  (ready store u id m db now true f)
                ∙ rw (one_file store u id m db now p c true f) (rw w e),
          )

      pub files-FilesEnd :
          (paths : List String) (f : F) → All (TakesAt Fits) paths → Fits f → FilesEnd paths f
      unfolding file_frames
      files-FilesEnd [] f takes h = unfold run in_order in (f, refl)
      files-FilesEnd (p ∷ paths) f takes h =
          frame-FilesEnd p (read_base64 p) paths f takes.0 h
            (λ g k. files-FilesEnd paths g takes.1 k)

    pub removals_open :
        {B : Type 0} (contract : Contract store u id B) (paths : List String) (f : F)
        → CanRemove contract
        → NoRepeat paths
        → All (IsHeld contract f) paths
        → (g : F) × (final store
              (removals store u id m db now contract paths)
              (ready store u id m db now true f)
            ≡ ready store u id m db now true g)
    unfolding run in_order
    removals_open contract [] f can once held = (f, refl)
    removals_open contract (p ∷ paths) f can once held =
        let (g, w) = can p f held.0 in
        let (sound, (b, there)) = held.0 in
        let gone = λ (q : String) (s : contract.Sound q).
          contract.content-remove p q b f g sound s there w in
        let (t, e) =
          removals_open contract paths g can once.1
            (IsHeld-rest store u id m db now contract p paths f g gone once.0 held.1) in
        (
          t,
          final-append store (in_order now (SyncClientMessage.removed id p ∷ []))
                (removals store u id m db now contract paths) (ready store u id m db now true f)
              ∙ rw (one_removed store u id m db now p true f) (rw w e),
        )
