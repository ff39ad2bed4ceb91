-- ===== src/Pty/Refusal.antt =====
-- A client with no valid token (`onStart` of packages/pty-core/src/gateway.ts).
use pocket_dev.Base.{
  String, ◌≡◌, refl, Bool, true, false, Option, none, some, List, [], ◌∷◌, arith, All, All-append,
  get_or_else,
}
use pocket_dev.Pty.Messages.{PtyTokenClaims, PtyClientMessage}
use pocket_dev.Pty.Gateway.{
  Conn, Effect, Event, send, close, connect, message, step, run, on_message, on_spawned,
  on_spawn_failed, on_output, on_process_exit, on_drain, finish,
}

-- Frames that the client sees, and nothing that reaches a program.
abbrev pub is_refusal : Effect → Bool
is_refusal (send _) = true
is_refusal (close _ _) = true
is_refusal _ = false

abbrev IsLocked : Conn → Type 0
IsLocked c =
    (c.started ≡ false) × (c.spawning ≡ false) × (c.handle ≡ none) × (c.drain_timer ≡ false)

module _ (verify : String → Option PtyTokenClaims) where
  step-IsLocked :
      (e : Event) (c : Conn)
      → ((t : String) → verify t ≡ none)
      → IsLocked c
      → IsLocked (step verify e c).0 × All (λ o. is_refusal o ≡ true) (step verify e c).1
  unfolding step on_message on_spawned on_spawn_failed on_output on_process_exit on_drain finish
  step-IsLocked (message none) c refused h = ground arith
  step-IsLocked (message (some (PtyClientMessage.start m))) c refused h =
      ground (arith, refused (get_or_else m.token (get_or_else c.query_token "")))
  step-IsLocked e c refused h = ground arith

  run-IsLocked :
      (es : List Event) (c : Conn)
      → ((t : String) → verify t ≡ none)
      → IsLocked c
      → All (λ o. is_refusal o ≡ true) (run verify es c).1
  unfolding run
  run-IsLocked [] c refused h = tt
  run-IsLocked (e ∷ es) c refused h =
      let next = step-IsLocked e c refused h in
      All-append _ (step verify e c).1 _ next.1 (run-IsLocked es (step verify e c).0 refused next.0)

  -- Without a token that verifies, nothing is ever started, written, resized or killed: the client
  -- gets frames and a close, whatever it sends.
  pub rejected_runs_nothing :
      (query_token : Option String) (es : List Event)
      → ((t : String) → verify t ≡ none)
      → All (λ o. is_refusal o ≡ true) (run verify es (connect query_token)).1
  unfolding connect
  rejected_runs_nothing query_token es refused =
      run-IsLocked es (connect query_token) refused (refl, refl, refl, refl)
