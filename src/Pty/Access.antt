-- ===== src/Pty/Access.antt =====
-- Who gets a terminal (`onStart` of packages/pty-core/src/gateway.ts).
use pocket_dev.Base.{
  ℕ, String, ◌≡◌, refl, Bool, true, false, Option, none, some, List, [], ◌∷◌, ◌++◌, arith, eq_iff,
  All, All-append, ◌==◌, if◌then◌else◌,
}
use mathlib.Core.Path.{subst₂}
use mathlib.Core.Option.{some-injective}
use pocket_dev.Pty.Messages.{
  error, PtyTokenClaims, StartContext, StartMessage, PtyClientMessage, PtyServerMessage, PtyHandle,
}
use pocket_dev.Pty.Gateway.{
  Conn, Effect, Event, close, resolve_spawn, session_start, session_exit, connect, message, step,
  run, on_message, on_start, on_spawned, on_spawn_failed, on_output, on_process_exit, on_drain,
  finish, on_verified, is_closed, after_close, context, spawned, spawn_failed, output, process_exit,
  drain_tick, socket_closed, send_message, kill_effects, exit_effects, start_effects, on_handle,
  apply_backpressure, resume_effects, ReadyState, opened, closing, closed, must_pause,
}

-- The claims and the context of a call to the service are of one session, by a token that verifies.
abbrev pub IsGranted : (String → Option PtyTokenClaims) → PtyTokenClaims → StartContext → Type 0
IsGranted verify k x = (t : String) × (verify t ≡ some k) × (k.session_id ≡ x.session_id)

abbrev pub IsAuthorized : (String → Option PtyTokenClaims) → Effect → Type 0
IsAuthorized verify (resolve_spawn k x) = IsGranted verify k x
IsAuthorized verify (session_start k x) = IsGranted verify k x
IsAuthorized verify (session_exit k x _) = IsGranted verify k x
IsAuthorized verify _ = Unit

module _ (verify : String → Option PtyTokenClaims) where
  -- What the connection has stored was granted.
  abbrev Granted : Option PtyTokenClaims → Option StartContext → Type 0
  Granted claims ctx =
      (k : PtyTokenClaims) (x : StartContext)
      → claims ≡ some k
      → ctx ≡ some x
      → IsGranted verify k x

  abbrev AllAuthorized : List Effect → Type 0
  AllAuthorized out = All (IsAuthorized verify) out

  send-AllAuthorized : (s : ReadyState) (m : PtyServerMessage) → AllAuthorized (send_message s m)
  unfolding send_message
  send-AllAuthorized opened m = (tt, tt)
  send-AllAuthorized closing m = tt
  send-AllAuthorized closed m = tt

  start-AllAuthorized :
      (claims : Option PtyTokenClaims) (ctx : Option StartContext)
      → Granted claims ctx
      → AllAuthorized (start_effects claims ctx)
  start-AllAuthorized (some k) (some x) g = (g k x refl refl, tt)
  start-AllAuthorized (some k) none g = tt
  start-AllAuthorized none ctx g = tt

  exit-AllAuthorized :
      (b : Bool) (claims : Option PtyTokenClaims) (ctx : Option StartContext) (code : ℕ)
      → Granted claims ctx
      → AllAuthorized (exit_effects b claims ctx code)
  exit-AllAuthorized true (some k) (some x) code g = (g k x refl refl, tt)
  exit-AllAuthorized true (some k) none code g = tt
  exit-AllAuthorized true none ctx code g = tt
  exit-AllAuthorized false claims ctx code g = tt

  kill-AllAuthorized : (h : Option PtyHandle) → AllAuthorized (kill_effects h)
  kill-AllAuthorized none = tt
  kill-AllAuthorized (some h) = (tt, tt)

  abbrev Authorized : Conn × List Effect → Type 0
  Authorized (d, out) = Granted d.claims d.ctx × AllAuthorized out

  if-Authorized :
      (b : Bool) (x y : Conn × List Effect)
      → (b ≡ true → Authorized x)
      → (b ≡ false → Authorized y)
      → Authorized (if b then x else y)
  if-Authorized true x y p q = p refl
  if-Authorized false x y p q = q refl

  verify-Granted :
      (t : String) (k : PtyTokenClaims) (x : StartContext)
      → verify t ≡ some k
      → k.session_id ≡ x.session_id
      → Granted (some k) (some x)
  verify-Granted t k x v s k' x' p q =
      subst₂ (IsGranted verify) (some-injective _ _ p) (some-injective _ _ q) (t, v, s)

  refused-Authorized :
      (c : Conn) (session_id reason : String) (code : ℕ) (s : ReadyState)
      → Granted c.claims c.ctx
      → Authorized (
        record c { ready_state = s },
        send_message c.ready_state (error session_id reason) ++ close code reason ∷ [],
      )
  refused-Authorized c session_id reason code s g = (
    g,
    All-append _ (send_message c.ready_state _) _ (send-AllAuthorized c.ready_state _) (tt, tt),
  )

  verified-Authorized :
      (m : StartMessage) (c : Conn) (t : String) (v : Option PtyTokenClaims)
      → verify t ≡ v
      → Granted c.claims c.ctx
      → Authorized (on_verified m c v)
  verified-Authorized m c t none e g =
      refused-Authorized c m.session_id "Unauthorized" 4401 (after_close c.ready_state) g
  verified-Authorized m c t (some k) e g =
      if-Authorized (k.session_id == m.session_id) _ _
        (λ same.
          let s = (eq_iff k.session_id m.session_id).0 same in
          (verify-Granted t k (context m) e s, ((t, e, s), tt)))
        (λ _.
          refused-Authorized c m.session_id "Session mismatch" 4403 (after_close c.ready_state) g)

  start-Authorized :
      (m : StartMessage) (c : Conn) → Granted c.claims c.ctx → Authorized (on_start verify m c)
  unfolding on_start
  start-Authorized m c g =
      if-Authorized c.started _ _ (λ _. (g, tt)) (λ _. verified-Authorized m c _ _ refl g)

  handle-AllAuthorized :
      (h : Option PtyHandle) (o : Effect) → IsAuthorized verify o → AllAuthorized (on_handle h o)
  handle-AllAuthorized none o a = tt
  handle-AllAuthorized (some h) o a = (a, tt)

  message-Authorized :
      (m : PtyClientMessage) (c : Conn)
      → Granted c.claims c.ctx
      → Authorized (on_message verify m c)
  unfolding on_message
  message-Authorized (PtyClientMessage.start m) c g = start-Authorized m c g
  message-Authorized (PtyClientMessage.input _ text) c g = (g, handle-AllAuthorized c.handle _ tt)
  message-Authorized (PtyClientMessage.resize _ cols rows) c g =
      (g, handle-AllAuthorized c.handle _ tt)
  message-Authorized (PtyClientMessage.kill _) c g = (g, handle-AllAuthorized c.handle _ tt)

  -- `finish` leaves the stored claims alone.
  finish-Authorized : (code : ℕ) (c : Conn) → Granted c.claims c.ctx → Authorized (finish code c)
  unfolding finish
  finish-Authorized code c g =
      if-Authorized c.exited _ _ (λ _. (g, tt))
        (λ _. (
          g,
          All-append _ (kill_effects c.handle) _ (kill-AllAuthorized c.handle)
              (exit-AllAuthorized c.started c.claims c.ctx code g),
        ))

  -- A frame, then what `finish` does, then a close.
  ended-Authorized :
      (code reason : ℕ) (why : String) (m : PtyServerMessage) (s : ReadyState) (c : Conn)
      → Granted c.claims c.ctx
      → let (d, out) = finish code c in
        Authorized (
          record d { ready_state = after_close d.ready_state },
          send_message s m ++ (out ++ close reason why ∷ []),
        )
  ended-Authorized code reason why m s c g =
      let done = finish-Authorized code c g in
      (
        done.0,
        All-append _ (send_message s m) _ (send-AllAuthorized s m)
            (All-append _ (finish code c).1 _ done.1 (tt, tt)),
      )

  resume-AllAuthorized : (h : Option PtyHandle) → AllAuthorized (resume_effects h)
  resume-AllAuthorized none = tt
  resume-AllAuthorized (some h) = ground arith

  drain-Authorized :
      (buffered : ℕ) (c : Conn) → Granted c.claims c.ctx → Authorized (on_drain buffered c)
  unfolding on_drain
  drain-Authorized buffered c g =
      if-Authorized c.drain_timer _ _
        (λ _. if-Authorized _ _ _ (λ _. (g, resume-AllAuthorized c.handle)) (λ _. (g, tt)))
        (λ _. (g, tt))

  output-Authorized :
      (text : String) (buffered : ℕ) (c : Conn)
      → Granted c.claims c.ctx
      → Authorized (on_output text buffered c)
  unfolding on_output
  output-Authorized text buffered c g =
      let pressed : Authorized (apply_backpressure buffered c) =
        if-Authorized (must_pause c buffered) _ _ (λ _. (g, (tt, tt))) (λ _. (g, tt)) in
      (
        pressed.0,
        All-append _ (send_message c.ready_state _) _ (send-AllAuthorized c.ready_state _)
            pressed.1,
      )

  handle-Authorized :
      (h : Option PtyHandle) (c : Conn) (r : Conn × List Effect)
      → Granted c.claims c.ctx
      → Authorized r
      → Authorized (elim h [ none ↦ (c, []) | some _ ↦ r ])
  handle-Authorized none c r g a = (g, tt)
  handle-Authorized (some h) c r g a = a

  step-Authorized : (e : Event) (c : Conn) → Granted c.claims c.ctx → Authorized (step verify e c)
  unfolding step
  step-Authorized (message none) c g = (g, tt)
  step-Authorized (message (some m)) c g =
      if-Authorized (is_closed c.ready_state) _ _ (λ _. (g, tt)) (λ _. message-Authorized m c g)
  step-Authorized (spawned h) c g =
      if-Authorized c.spawning _ _
        (λ _.
          unfold on_spawned in
          (
            g,
            All-append _ (send_message c.ready_state _) _ (send-AllAuthorized c.ready_state _)
                (start-AllAuthorized c.claims c.ctx g),
          ))
        (λ _. (g, tt))
  step-Authorized (spawn_failed reason) c g =
      if-Authorized c.spawning _ _
        (λ _.
          unfold on_spawn_failed in
          ended-Authorized 1 1011 "spawn failed" _ c.ready_state (record c { spawning = false }) g)
        (λ _. (g, tt))
  step-Authorized (output text buffered) c g =
      handle-Authorized c.handle c _ g (output-Authorized text buffered c g)
  step-Authorized (process_exit code) c g =
      handle-Authorized c.handle c _ g
        (unfold on_process_exit in ended-Authorized code 1000 "session ended" _ c.ready_state c g)
  step-Authorized (drain_tick buffered) c g = drain-Authorized buffered c g
  step-Authorized socket_closed c g =
      if-Authorized (is_closed c.ready_state) _ _ (λ _. (g, tt))
        (λ _. finish-Authorized 0 (record c { ready_state = closed }) g)

  run-AllAuthorized :
      (es : List Event) (c : Conn) → Granted c.claims c.ctx → AllAuthorized (run verify es c).1
  unfolding run
  run-AllAuthorized [] c g = tt
  run-AllAuthorized (e ∷ es) c g =
      let next = step-Authorized e c g in
      All-append _ (step verify e c).1 _ next.1 (run-AllAuthorized es (step verify e c).0 next.0)

  -- Every start, spawn and exit that the service is told of is for a session whose id is the one
  -- in the claims of a token that verifies.
  pub run-IsAuthorized :
      (query_token : Option String) (es : List Event)
      → All (IsAuthorized verify) (run verify es (connect query_token)).1
  unfolding connect
  run-IsAuthorized query_token es =
      run-AllAuthorized es (connect query_token) (λ k x p q. absurd (cc p))
