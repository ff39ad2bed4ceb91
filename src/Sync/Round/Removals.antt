-- ===== src/Sync/Round/Removals.antt =====
-- What the `removed` frames of a round do to the store.
use pocket_dev.Base.{
  ℕ, String, ◌≡◌, refl, ◌∙◌, Bool, true, false, ◌&&◌, Option, none, some, List, [], ◌∷◌, arith,
  eq_iff, ◌==◌, if◌then◌else◌, Result, ok, err, map, All,
}
use pocket_dev.Server.Db.{Db}
use pocket_dev.Sync.Manifest.{FileManifest}
use pocket_dev.Sync.Manifest.Diff.{includes}
use pocket_dev.Sync.Gateway.{FileStore, SyncClientMessage, Event, run}
use pocket_dev.Sync.Gateway.Closed.{run-closed}
use pocket_dev.Sync.Round.Phases.{is_ok, final, final-append, ready, one_removed, Phase}
use pocket_dev.Sync.Round.{Contract, in_order}

-- No path is named twice.
abbrev pub NoRepeat : List String → Type 0
NoRepeat [] = Unit
NoRepeat (p ∷ paths) = (includes p paths ≡ false) × NoRepeat paths

abbrev pub after_removals {ℓ} : {B : Type ℓ} → List String → String → Option B → Option B
after_removals paths q old = if includes q paths then none else old

-- The path is that of a file that the project holds.
abbrev pub IsHeld :
    {F B : Type 0} {store : FileStore F} {u id : String}
    → Contract store u id B
    → F
    → String
    → Type 0
IsHeld {B} contract f p = contract.Sound p × ((b : B) × (contract.content f p ≡ some b))

module _ {F : Type 0} (store : FileStore F) (u id : String) (m : FileManifest) (db : Db) (now : ℕ)
    {B : Type 0} (contract : Contract store u id B) where
  abbrev pub removals : List String → List Event
  removals paths = in_order now (map (λ path. SyncClientMessage.removed id path) paths)

  pub IsHeld-rest :
      (p : String) (paths : List String) (f g : F)
      → ((q : String)
          → contract.Sound q
          → contract.content g q ≡ (if p == q then none else contract.content f q))
      → includes p paths ≡ false
      → All (IsHeld contract f) paths
      → All (IsHeld contract g) paths
  IsHeld-rest p [] f g gone apart h = tt
  IsHeld-rest p (q ∷ paths) f g gone apart h =
      let (sound, (b, there)) = h.0 in
      let now_there = gone q sound in
      (
        (sound, (b, ground (arith, eq_iff p q, eq_iff q p, there, now_there))),
        IsHeld-rest p paths f g gone (ground arith) h.1,
      )

  held-Phase :
      (p : String) (paths : List String) (w : Result (Unit {0}) × F) (f : F) (is_open : Bool)
      → IsHeld contract f p
      → includes p paths ≡ false
      → All (IsHeld contract f) paths
      → store.remove u id p f ≡ w
      → (All (IsHeld contract w.1) paths
          → Phase store u id m db now contract
              (removals paths)
              (is_ok w.0 && is_open)
              w.1
              (after_removals paths))
      → (final store
          (removals paths)
          (ready store u id m db now (is_ok w.0 && is_open) w.1)).is_open
        ≡ true
      → Phase store u id m db now contract
          (removals (p ∷ paths))
          is_open
          f
          (after_removals (p ∷ paths))
  unfolding in_order
  held-Phase p paths (err e, g) f is_open held apart others w rest h =
      absurd (cc (run-closed store (removals paths) (ready store u id m db now false g) refl, h))
  held-Phase p paths (ok x, g) f is_open (sound, (b, there)) apart others w rest h =
      let gone =
        λ (q : String) (s : contract.Sound q). contract.content-remove p q b f g sound s there w in
      let later = rest (IsHeld-rest p paths f g gone apart others) in
      record {
        was_open = later.was_open;
        files = later.files;
        ends =
            final-append store (in_order now (SyncClientMessage.removed id p ∷ [])) (removals paths)
              _
            ∙ rw (one_removed store u id m db now p is_open f) (rw w later.ends);
        reads = λ q s.
            let now_gone = gone q s in
            let after = later.reads q s in ground (arith, eq_iff p q, now_gone, after);
      }

  -- Every path of files that the project holds is gone after its removal, and the rest stays.
  pub removals-Phase :
      (paths : List String) (is_open : Bool) (f : F)
      → NoRepeat paths
      → All (IsHeld contract f) paths
      → (final store (removals paths) (ready store u id m db now is_open f)).is_open ≡ true
      → Phase store u id m db now contract (removals paths) is_open f (after_removals paths)
  unfolding run in_order
  removals-Phase [] is_open f once held h = record {
    was_open = h;
    files = f;
    ends = rw h refl;
    reads = λ q s. refl;
  }
  removals-Phase (p ∷ paths) is_open f once held h =
      let w = store.remove u id p f in
      let first = in_order now (SyncClientMessage.removed id p ∷ []) in
      let both = final-append store first (removals paths) (ready store u id m db now is_open f) in
      let rest_open = rw (one_removed store u id m db now p is_open f) at (rw both at h) in
      held-Phase p paths w f is_open held.0 once.0 held.1 refl
        (λ still. removals-Phase paths (is_ok w.0 && is_open) w.1 once.1 still rest_open) rest_open
