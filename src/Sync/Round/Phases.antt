-- ===== src/Sync/Round/Phases.antt =====
-- What the frames of a round do to the store, kind by kind.
use pocket_dev.Base.{
  ℕ, String, ◌≡◌, refl, ◌∙◌, Bool, true, false, ◌&&◌, Option, some, List, [], ◌∷◌, ◌++◌, arith,
  eq_iff, eq_refl, if◌then◌else◌, Result, ok, err, Exception, All,
}
use pocket_dev.Server.Db.{Db}
use pocket_dev.Sync.Manifest.{FileManifest}
use pocket_dev.Sync.Gateway.{
  FileStore, SyncClientMessage, SyncState, Event, written, dropped, begin, pick, complete, step,
  run, persist,
}
use pocket_dev.Sync.Manifest.Diff.{includes}
use pocket_dev.Sync.Client.{file_frame, file_frames}
use pocket_dev.Sync.Round.{Contract, in_order, at_rest, advertised}

abbrev pub is_ok {ℓ} : {A : Type ℓ} → Result A → Bool
is_ok (ok _) = true
is_ok (err _) = false

-- What a path holds after its file frame, if the file could be read.
abbrev pub taken : {B : Type 0} → (String → B) → Result String → Option B → Option B
taken decode (ok c) old = some (decode c)
taken decode (err _) old = old

abbrev pub after_files :
    {B : Type 0}
    → (String → B)
    → (String → Result String)
    → List String
    → String
    → Option B
    → Option B
after_files decode read_base64 paths q old =
    if includes q paths then taken decode (read_base64 q) old else old

module _ {F : Type 0} (store : FileStore F) where
  -- The state in which a run ends.
  abbrev pub final : List Event → SyncState F → SyncState F
  final es s = (run store es s).0

  pub final-append :
      (es fs : List Event) (s : SyncState F) → final (es ++ fs) s ≡ final fs (final es s)
  unfolding run
  final-append [] fs s = refl
  final-append (e ∷ es) fs s = final-append es fs (step store e s).0

  module _ (u id : String) (m : FileManifest) (db : Db) (now : ℕ) where
    abbrev pub ready : Bool → F → SyncState F
    ready is_open files = at_rest (advertised u id m) is_open db files

    written-rest :
        (path : String) (w : Result ℕ × F) (is_open : Bool) (f : F)
        → (written id path w (ready is_open f)).0 ≡ ready (is_ok w.0 && is_open) w.1
    written-rest path (ok n, g) is_open f = refl
    written-rest path (err e, g) is_open f = refl

    dropped-rest :
        (path : String) (w : Result (Unit {0}) × F) (is_open : Bool) (f : F)
        → (dropped id path w (ready is_open f)).0 ≡ ready (is_ok w.0 && is_open) w.1
    dropped-rest path (ok _, g) is_open f = refl
    dropped-rest path (err e, g) is_open f = refl

    pub one_file :
        (path c : String) (is_open : Bool) (f : F)
        → let w = store.write_base64 u id path c f in
          final (in_order now (SyncClientMessage.file id path c ∷ [])) (ready is_open f)
          ≡ ready (is_ok w.0 && is_open) w.1
    unfolding run step begin pick complete in_order
    one_file path c is_open f = rw (final, eq_refl id) (written-rest path _ is_open f)

    pub one_removed :
        (path : String) (is_open : Bool) (f : F)
        → let w = store.remove u id path f in
          final (in_order now (SyncClientMessage.removed id path ∷ [])) (ready is_open f)
          ≡ ready (is_ok w.0 && is_open) w.1
    unfolding run step begin pick complete in_order
    one_removed path is_open f = rw (final, eq_refl id) (dropped-rest path _ is_open f)

    pub one_done :
        (is_open : Bool) (f : F)
        → final (in_order now (SyncClientMessage.done id ∷ [])) (ready is_open f)
          ≡ (complete store now (persist id m) (ready is_open f)).0
    unfolding run step begin pick in_order
    one_done is_open f = rw (final, eq_refl id) refl

    module _ {B : Type 0} (contract : Contract store u id B) where
      -- The frames have been handled with the socket open, and this is what every path reads as then.
      pub record Phase (es : List Event) (is_open : Bool) (f : F)
          (view : String → Option B → Option B) : Type 0 where
        pub was_open : is_open ≡ true
        pub files : F
        pub ends : final es (ready is_open f) ≡ ready true files
        pub reads :
            (q : String)
            → contract.Sound q
            → contract.content files q ≡ view q (contract.content f q)

      module _ (read_base64 : String → Result String) where
        -- A file that can be read replaces what was there.
        file-Phase :
            (p c : String) (paths : List String) (n : ℕ) (f g : F) (is_open : Bool)
            (es : List Event)
            → contract.Sound p
            → read_base64 p ≡ ok c
            → store.write_base64 u id p c f ≡ (ok n, g)
            → Phase es is_open g (after_files contract.decode read_base64 paths)
            → Phase
                (in_order now (SyncClientMessage.file id p c ∷ []) ++ es)
                is_open
                f
                (after_files contract.decode read_base64 (p ∷ paths))
        file-Phase p c paths n f g is_open es sound r w rest = record {
          was_open = rest.was_open;
          files = rest.files;
          ends =
              final-append (in_order now (SyncClientMessage.file id p c ∷ [])) es (ready is_open f)
              ∙ rw (one_file p c is_open f) (rw w rest.ends);
          reads = λ q s.
              let now_there = contract.content-write p q c n f g sound s w in
              let later = rest.reads q s in ground (arith, eq_iff p q, r, now_there, later);
        }

        -- The state after one file frame, and what is known if the socket is open in the end.
        wrote-Phase :
            (p c : String) (paths : List String) (w : Result ℕ × F) (f : F) (is_open : Bool)
            (es : List Event)
            → contract.Sound p
            → read_base64 p ≡ ok c
            → store.write_base64 u id p c f ≡ w
            → Phase es (is_ok w.0 && is_open) w.1 (after_files contract.decode read_base64 paths)
            → Phase
                (in_order now (SyncClientMessage.file id p c ∷ []) ++ es)
                is_open
                f
                (after_files contract.decode read_base64 (p ∷ paths))
        wrote-Phase p c paths (ok n, g) f is_open es sound r w rest =
            file-Phase p c paths n f g is_open es sound r w rest
        wrote-Phase p c paths (err e, g) f is_open es sound r w rest = absurd (cc rest.was_open)

        skipped-Phase :
            (p : String) (e : Exception) (paths : List String) (f : F) (is_open : Bool)
            (es : List Event)
            → read_base64 p ≡ err e
            → Phase es is_open f (after_files contract.decode read_base64 paths)
            → Phase es is_open f (after_files contract.decode read_base64 (p ∷ paths))
        skipped-Phase p e paths f is_open es r rest = record {
          was_open = rest.was_open;
          files = rest.files;
          ends = rest.ends;
          reads = λ q s. let later = rest.reads q s in ground (arith, eq_iff p q, r, later);
        }

        frame-Phase :
            (p : String) (rd : Result String) (paths : List String) (f : F) (is_open : Bool)
            → contract.Sound p
            → read_base64 p ≡ rd
            → ((o : Bool) (g : F)
                → (final (in_order now (file_frames id read_base64 paths)) (ready o g)).is_open
                  ≡ true
                → Phase
                    (in_order now (file_frames id read_base64 paths))
                    o
                    g
                    (after_files contract.decode read_base64 paths))
            → let frames = file_frame id read_base64 p rd ++ file_frames id read_base64 paths in
              (final (in_order now frames) (ready is_open f)).is_open ≡ true
              → Phase
                  (in_order now frames)
                  is_open
                  f
                  (after_files contract.decode read_base64 (p ∷ paths))
        unfolding in_order
        frame-Phase p (err e) paths f is_open sound r rest h =
            skipped-Phase p e paths f is_open _ r (rest is_open f h)
        frame-Phase p (ok c) paths f is_open sound r rest h =
            let es = in_order now (file_frames id read_base64 paths) in
            let first = in_order now (SyncClientMessage.file id p c ∷ []) in
            let w = store.write_base64 u id p c f in
            let both = final-append first es (ready is_open f) in
            wrote-Phase p c paths w f is_open es sound r refl
              (rest (is_ok w.0 && is_open) w.1 (rw (← (one_file p c is_open f)) (rw (← both) h)))

        pub files-Phase :
            (paths : List String) (is_open : Bool) (f : F)
            → All contract.Sound paths
            → (final (in_order now (file_frames id read_base64 paths)) (ready is_open f)).is_open
              ≡ true
            → Phase
                (in_order now (file_frames id read_base64 paths))
                is_open
                f
                (after_files contract.decode read_base64 paths)
        unfolding file_frames
        files-Phase [] is_open f sound h =
            unfold run in_order in
            record { was_open = h; files = f; ends = rw h refl; reads = λ q s. refl }
        files-Phase (p ∷ paths) is_open f sound h =
            frame-Phase p (read_base64 p) paths f is_open sound.0 refl
              (λ o g. files-Phase paths o g sound.1) h
