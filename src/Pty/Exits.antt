-- ===== src/Pty/Exits.antt =====
-- The end of a session and of its terminal (`finish` and its callers in
-- packages/pty-core/src/gateway.ts).
use pocket_dev.Base.{
  ℕ, ◌+◌, ◌≤◌, String, ◌≡◌, refl, ◌∙◌, Bool, true, false, ◌&&◌, Option, none, some, List, [], ◌∷◌,
  ◌++◌, arith, count, count-append, if◌then◌else◌, is_some, ◌⊎◌, ◌≢◌,
}
use pocket_dev.Pty.Messages.{PtyTokenClaims, PtyHandle}
use pocket_dev.Pty.Gateway.{
  Conn, Effect, Event, session_exit, kill, connect, message, spawned, socket_closed, closed, step,
  run, on_message, on_spawned, on_spawn_failed, on_output, on_process_exit, on_drain, finish,
}

abbrev pub is_report : Effect → Bool
is_report (session_exit _ _ _) = true
is_report _ = false

abbrev pub is_kill : Effect → Bool
is_kill kill = true
is_kill _ = false

-- How often the end of the session was reported, and how often the terminal was killed.
abbrev pub reports : List Effect → ℕ
reports = count is_report

abbrev pub kills : List Effect → ℕ
kills = count is_kill

-- A finished connection that had started has reported its end.
abbrev pub settled : Conn → ℕ
settled c = if c.exited && c.started then 1 else 0

-- What holds of a connection between two callbacks.
pub record IsSound (c : Conn) : Type 0 where
  pub claims_kept : c.started ≡ true → is_some c.claims ≡ true
  pub ctx_kept : c.started ≡ true → is_some c.ctx ≡ true
  pub ended : c.exited ≡ true → (c.started ≡ true) ⊎ (c.ready_state ≡ closed)
  pub handle_started : is_some c.handle ≡ true → c.started ≡ true
  pub spawning_started : c.spawning ≡ true → c.started ≡ true
  pub closed_ended : c.ready_state ≡ closed → c.exited ≡ true

pub connect-IsSound : (query_token : Option String) → IsSound (connect query_token)
unfolding connect
connect-IsSound query_token = ground arith

module _ (verify : String → Option PtyTokenClaims) where
  pub step-IsSound : (e : Event) (c : Conn) → IsSound c → IsSound (step verify e c).0
  unfolding step on_message on_spawned on_spawn_failed on_output on_process_exit on_drain finish
  step-IsSound (message none) c h = h
  step-IsSound e c h = ground arith

  settled-step :
      (e : Event) (c : Conn)
      → IsSound c
      → settled c + reports (step verify e c).1 ≡ settled (step verify e c).0
  unfolding step on_message on_spawned on_spawn_failed on_output on_process_exit on_drain finish
  settled-step (message none) c h = ground arith
  settled-step e c h = ground arith

  settled-run :
      (es : List Event) (c : Conn)
      → IsSound c
      → settled c + reports (run verify es c).1 ≡ settled (run verify es c).0
  unfolding run
  settled-run [] c h = ground arith
  settled-run (e ∷ es) c h =
      let (d, out) = step verify e c in
      omega (
        arith,
        count-append is_report out (run verify es d).1,
        settled-step e c h,
        settled-run es d (step-IsSound e c h),
      )

  -- Whatever callbacks come, in whatever order, the end of the session is reported once if the
  -- connection has both started and finished, and never otherwise.
  pub report_once :
      (query_token : Option String) (es : List Event)
      → let (c, out) = run verify es (connect query_token) in
        reports out ≡ (if c.exited && c.started then 1 else 0)
  unfolding connect
  report_once query_token es =
      omega (arith, settled-run es (connect query_token) (connect-IsSound query_token))

  run-IsSound : (es : List Event) (c : Conn) → IsSound c → IsSound (run verify es c).0
  unfolding run
  run-IsSound [] c h = h
  run-IsSound (e ∷ es) c h = run-IsSound es (step verify e c).0 (step-IsSound e c h)

  step-socket_closed :
      (c : Conn)
      → IsSound c
      → let d = (run verify (socket_closed ∷ []) c).0 in (d.exited ≡ true) × (d.started ≡ c.started)
  unfolding run step finish
  step-socket_closed c h = ground arith

  run-append :
      (es fs : List Event) (c : Conn)
      → (run verify (es ++ fs) c).0 ≡ (run verify fs (run verify es c).0).0
  unfolding run
  run-append [] fs c = refl
  run-append (e ∷ es) fs c = run-append es fs (step verify e c).0

  -- Once the client has gone, the end of a session that had started has been reported once.
  pub disconnect_reports :
      (query_token : Option String) (es : List Event)
      → (run verify es (connect query_token)).0.started ≡ true
      → reports (run verify (es ++ socket_closed ∷ []) (connect query_token)).1 ≡ 1
  disconnect_reports query_token es h =
      let c = (run verify es (connect query_token)).0 in
      let gone = step-socket_closed c (run-IsSound es _ (connect-IsSound query_token)) in
      report_once query_token (es ++ socket_closed ∷ [])
      ∙ rw (run-append es (socket_closed ∷ []) (connect query_token)) (rw (gone.0, gone.1, h))

  -- A callback that ends a connection with a live terminal kills the terminal.
  pub finish_kills :
      (e : Event) (c : Conn) {h : PtyHandle}
      → c.handle ≡ some h
      → c.exited ≡ false
      → (step verify e c).0.exited ≡ true
      → 1 ≤ kills (step verify e c).1
  unfolding step on_message on_spawned on_spawn_failed on_output on_process_exit on_drain finish
  finish_kills (message none) c p q r = ground arith
  finish_kills e c p q r = ground arith

  quiet-step :
      (e : Event) (c : Conn)
      → c.ready_state ≡ closed
      → c.exited ≡ true
      → c.spawning ≡ false
      → let (d, out) = step verify e c in
        (d.ready_state ≡ closed)
        × (d.exited ≡ true)
        × (d.spawning ≡ false)
        × (kills out ≡ 0)
        × (reports out ≡ 0)
  unfolding step on_message on_spawned on_spawn_failed on_output on_process_exit on_drain finish
  quiet-step (message none) c p q r = ground arith
  quiet-step e c p q r = ground arith

  quiet-run :
      (es : List Event) (c : Conn)
      → c.ready_state ≡ closed
      → c.exited ≡ true
      → c.spawning ≡ false
      → (kills (run verify es c).1 ≡ 0) × (reports (run verify es c).1 ≡ 0)
  unfolding run
  quiet-run [] c p q r = (refl, refl)
  quiet-run (e ∷ es) c p q r =
      let (d, out) = step verify e c in
      let Quiet = quiet-step e c p q r in
      let rest = quiet-run es d Quiet.0 Quiet.1 Quiet.2 in
      omega (
        arith,
        rest,
        Quiet,
        count-append is_kill out (run verify es d).1,
        count-append is_report out (run verify es d).1,
      )

  step-late_spawn :
      (h : PtyHandle) (c : Conn)
      → c.ready_state ≢ closed
      → c.spawning ≡ true
      → let (d, out) = step verify (spawned h) (step verify socket_closed c).0 in
        (d.handle ≡ some h)
        × (d.ready_state ≡ closed)
        × (d.exited ≡ true)
        × (d.spawning ≡ false)
        × (kills out ≡ 0)
        × (reports out ≡ 0)
  unfolding step on_spawned finish
  step-late_spawn h c p q = ground arith

  -- The terminal of a client that left while `resolveSpawn` was waiting is started all the same,
  -- and then neither killed nor its end reported, whatever callbacks follow.
  pub late_spawn_leaks :
      (h : PtyHandle) (es : List Event) (c : Conn)
      → c.ready_state ≢ closed
      → c.spawning ≡ true
      → let d = (step verify socket_closed c).0 in
        ((step verify (spawned h) d).0.handle ≡ some h)
        × (kills (run verify (spawned h ∷ es) d).1 ≡ 0)
        × (reports (run verify (spawned h ∷ es) d).1 ≡ 0)
  unfolding run
  late_spawn_leaks h es c p q =
      let (d, out) = step verify (spawned h) (step verify socket_closed c).0 in
      let late = step-late_spawn h c p q in
      let Quiet = quiet-run es d late.1 late.2 late.3 in
      let kept = λ (p : Effect → Bool). count-append p out (run verify es d).1 in
      (late.0, omega (arith, late, Quiet, kept is_kill), omega (arith, late, Quiet, kept is_report))
