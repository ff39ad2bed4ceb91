-- ===== src/Pty/Flow.antt =====
-- Flow control (`applyBackpressure` and the drain timer of packages/pty-core/src/gateway.ts).
use pocket_dev.Base.{
  ℕ, ◌+◌, ◌≤◌, ◌<◌, String, ◌≡◌, Bool, true, false, Option, none, some, List, [], ◌∷◌, arith, count,
  count-append, if◌then◌else◌, ◌⊎◌, ◌≢◌,
}
use pocket_dev.Pty.Messages.{PtyTokenClaims, PtyHandle}
use pocket_dev.Pty.Gateway.{
  Conn, Effect, Event, pause, resume, connect, message, drain_tick, opened, step, run, on_message,
  on_start, on_spawned, on_spawn_failed, on_output, on_process_exit, on_drain, finish, low_water,
}

abbrev pub is_pause : Effect → Bool
is_pause pause = true
is_pause _ = false

abbrev pub is_resume : Effect → Bool
is_resume resume = true
is_resume _ = false

abbrev paused_once : Conn → ℕ
paused_once c = if c.paused then 1 else 0

-- A running drain timer belongs to a paused terminal, and a paused terminal that has not ended has one.
pub record IsFlowing (c : Conn) : Type 0 where
  pub timer_paused : c.drain_timer ≡ true → c.paused ≡ true
  pub paused_timer : c.paused ≡ true → (c.drain_timer ≡ true) ⊎ (c.exited ≡ true)

connect-IsFlowing : (query_token : Option String) → IsFlowing (connect query_token)
unfolding connect
connect-IsFlowing query_token = ground arith

module _ (verify : String → Option PtyTokenClaims) where
  step-IsFlowing : (e : Event) (c : Conn) → IsFlowing c → IsFlowing (step verify e c).0
  unfolding step on_message on_start on_spawned on_spawn_failed on_output on_process_exit on_drain
      finish
  step-IsFlowing (message none) c h = h
  step-IsFlowing e c h = ground arith

  run-IsFlowing : (es : List Event) (c : Conn) → IsFlowing c → IsFlowing (run verify es c).0
  unfolding run
  run-IsFlowing [] c h = h
  run-IsFlowing (e ∷ es) c h = run-IsFlowing es (step verify e c).0 (step-IsFlowing e c h)

  -- A terminal that is paused and whose session has not ended has a drain timer that will look again.
  pub never_stuck :
      (query_token : Option String) (es : List Event)
      → (run verify es (connect query_token)).0.paused ≡ true
      → (run verify es (connect query_token)).0.exited ≡ false
      → (run verify es (connect query_token)).0.drain_timer ≡ true
  never_stuck query_token es p q =
      ground (arith, run-IsFlowing es (connect query_token) (connect-IsFlowing query_token))

  -- Below the low mark, or once the socket is no longer open, the drain timer of a paused terminal
  -- resumes it and stops.
  pub drain_resumes :
      (buffered : ℕ) (c : Conn) {h : PtyHandle}
      → c.handle ≡ some h
      → h.resumes ≡ true
      → c.drain_timer ≡ true
      → (buffered < low_water) ⊎ (c.ready_state ≢ opened)
      → let (d, out) = step verify (drain_tick buffered) c in
        (d.paused ≡ false) × (d.drain_timer ≡ false) × (out ≡ resume ∷ [])
  unfolding step on_drain
  drain_resumes buffered c p q r s = ground arith

  balance-step :
      (e : Event) (c : Conn)
      → IsFlowing c
      → count is_resume (step verify e c).1 + paused_once (step verify e c).0
        ≤ count is_pause (step verify e c).1 + paused_once c
  unfolding step on_message on_start on_spawned on_spawn_failed on_output on_process_exit on_drain
      finish
  balance-step (message none) c h = ground arith
  balance-step e c h = ground arith

  balance-run :
      (es : List Event) (c : Conn)
      → IsFlowing c
      → count is_resume (run verify es c).1 + paused_once (run verify es c).0
        ≤ count is_pause (run verify es c).1 + paused_once c
  unfolding run
  balance-run [] c h = ground arith
  balance-run (e ∷ es) c h =
      let (d, out) = step verify e c in
      omega (
        arith,
        count-append is_resume out (run verify es d).1,
        count-append is_pause out (run verify es d).1,
        balance-step e c h,
        balance-run es d (step-IsFlowing e c h),
      )

  -- A terminal is paused at least as often as it is resumed, and once more while it is paused.
  pub pauses_cover_resumes :
      (query_token : Option String) (es : List Event)
      → let (c, out) = run verify es (connect query_token) in
        count is_resume out + (if c.paused then 1 else 0) ≤ count is_pause out
  unfolding connect
  pauses_cover_resumes query_token es =
      omega (arith, balance-run es (connect query_token) (connect-IsFlowing query_token))
