-- ===== src/Sync/Round/Frames.antt =====
-- The first and the last frame of a round, and the lists of paths in between (services/cli-agent/src/sync-client.ts
-- and server/src/sync/sync.gateway.ts together).
use mathlib.Core.List.{append-nil}
use pocket_dev.Base.{
  ℕ, String, ◌≡◌, refl, ap, true, some, List, [], ◌∷◌, ◌++◌, arith, eq_refl, get_or_else, Result,
  ok, err, map, All, Bool-cases, inl, inr,
}
use pocket_dev.Base.Dict.{IsDistinct}
use pocket_dev.Server.Db.{Db, Project}
use pocket_dev.Server.Projects.{find_project_of, update_manifest}
use pocket_dev.Sync.Manifest.{FileManifest, ManifestDiff, compute_diff, removed_paths, is_in}
use pocket_dev.Sync.Manifest.Diff.{includes, includes-removed_paths}
use pocket_dev.Sync.Gateway.{
  FileStore, SyncClientMessage, SyncConn, SyncState, Event, send, diff, stored, begin, pick,
  complete, step, run,
}
use pocket_dev.Sync.Gateway.Closed.{run-closed}
use pocket_dev.Sync.Gateway.Order.{project_row, with_manifest, update_manifest-ok}
use pocket_dev.Sync.Client
use pocket_dev.Sync.Client.{file_frames}
use pocket_dev.Sync.Round.Phases.{final, final-append, ready, one_done}
use pocket_dev.Sync.Round.Removals.{NoRepeat}
use pocket_dev.Sync.Round.{in_order, agent_frames, sent, at_rest}

pub All-includes :
    (P : String → Type 0) (paths : List String)
    → ((p : String) → includes p paths ≡ true → P p)
    → All P paths
All-includes P [] h = tt
All-includes P (p ∷ paths) h =
    (h p (ground (arith, eq_refl p)), All-includes P paths (λ q m. h q (ground (arith, m))))

pub removed_paths-NoRepeat :
    (server client : FileManifest) → IsDistinct server → NoRepeat (removed_paths server client)
unfolding removed_paths
removed_paths-NoRepeat [] client d = tt
removed_paths-NoRepeat ((p, e) ∷ server) client d = elim (Bool-cases (is_in p client)) [
  | inl stays ↦ rw stays (removed_paths-NoRepeat server client d.1)
  | inr goes ↦ rw goes (
    ground (arith, includes-removed_paths server client p, goes, d.0),
    removed_paths-NoRepeat server client d.1,
  )
]

pub in_order-append :
    (now : ℕ) (ms ns : List SyncClientMessage)
    → in_order now (ms ++ ns) ≡ in_order now ms ++ in_order now ns
unfolding in_order
in_order-append now [] ns = refl
in_order-append now (m ∷ ms) ns = rw (in_order-append now ms ns) refl

sent-map : (ms : List SyncClientMessage) → sent (map (λ f. Client.send f) ms) ≡ ms
unfolding sent
sent-map [] = refl
sent-map (m ∷ ms) = rw (sent-map ms) refl

-- The agent advertises its manifest, and answers a difference with its files, removals and `done`.
pub agent_frames_lem :
    (id : String) (read_base64 : String → Result String) (m : FileManifest) (d : ManifestDiff)
    → agent_frames id read_base64 m d
      ≡ SyncClientMessage.manifest id m ∷ Client.push_diff id read_base64 d
unfolding agent_frames Client.run Client.step sent
agent_frames_lem id read_base64 m d =
    let answers = map (λ f. Client.send f) (Client.push_diff id read_base64 d) in
    rw (append-nil answers) (ap (λ ms. SyncClientMessage.manifest id m ∷ ms) (sent-map _))

module _ {F : Type 0} (store : FileStore F) where
  pub open_before :
      (es fs : List Event) (s : SyncState F)
      → (final store (es ++ fs) s).is_open ≡ true
      → (final store es s).is_open ≡ true
  open_before es fs s h = elim (Bool-cases (final store es s).is_open) [
    | inl open_there ↦ open_there
    | inr closed ↦
        absurd (cc (final-append store es fs s, run-closed store fs (final store es s) closed, h))
  ]

  module _ (u id : String) (m : FileManifest) (db : Db) (now : ℕ) (p : Project)
      (known : (find_project_of u id db).0 ≡ ok p) where
    abbrev pub server : FileManifest
    server = get_or_else p.manifest []

    pub first_frame :
        (conn : SyncConn) (f : F)
        → conn.user_id ≡ u
        → let (t, out) =
            run store
              (in_order now (SyncClientMessage.manifest id m ∷ []))
              (at_rest conn true db f) in
          (t ≡ ready store u id m db now true f)
          × (out ≡ send (diff id (compute_diff server m)) ∷ [])
    unfolding run step begin pick complete in_order
    first_frame conn f same = rw (same, known) (refl, refl)

    stored-rest :
        (r : Result (Unit {0}) × Db) (f : F)
        → r.0 ≡ ok tt
        → let t = (stored id m r (ready store u id m db now true f)).0 in
          (t.files ≡ f) × (t.db ≡ r.1) × (t.is_open ≡ true)
    stored-rest (ok _, db') f h = (refl, refl, refl)
    stored-rest (err e, db') f h = absurd (cc h)

    pub last_frame :
        (f : F)
        → let t =
            final store
              (in_order now (SyncClientMessage.done id ∷ []))
              (ready store u id m db now true f) in
          (t.files ≡ f) × (project_row id t.db ≡ some (with_manifest m now p)) × (t.is_open ≡ true)
    unfolding complete
    last_frame f =
        let kept = update_manifest-ok u id m now db p known in
        let rest = stored-rest (update_manifest u id m now db) f kept.0 in
        rw (one_done store u id m db now true f) (rest.0, rw rest.1 kept.1, rest.2)
