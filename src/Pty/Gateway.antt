-- ===== src/Pty/Gateway.antt =====
-- One connection of the gateway (packages/pty-core/src/gateway.ts). The callbacks of the socket,
-- the terminal and the drain timer are events; what they do to the outside is a list of effects.
-- `onStart` waits for `resolveSpawn`: its part up to the `await` and its part after it are two
-- events, so that any other event may come between them.
mod Connection
pub use Connection.*
use pocket_dev.Base.{
  ℕ, ◌*◌, String, Bool, true, false, not, ◌&&◌, ◌||◌, Option, none, some, List, [], ◌∷◌, ◌++◌, ltb,
  ◌==◌, if◌then◌else◌, get_or_else,
}
use pocket_dev.Pty.Messages.{
  PtyTokenClaims, StartMessage, PtyClientMessage, PtyServerMessage, StartContext, PtyHandle, ready,
  chunk, exit, error,
}

abbrev pub high_water : ℕ
high_water = 1024 * 1024

abbrev pub low_water : ℕ
low_water = 256 * 1024

-- The state of `handleConnection` for a new socket.
unfoldable pub connect : Option String → Conn
connect query_token = record {
  ready_state = opened;
  query_token = query_token;
  claims = none;
  ctx = none;
  handle = none;
  started = false;
  exited = false;
  paused = false;
  drain_timer = false;
  spawning = false;
}

abbrev pub is_open : ReadyState → Bool
is_open opened = true
is_open _ = false

abbrev pub is_closed : ReadyState → Bool
is_closed closed = true
is_closed _ = false

-- `ws.close()` starts the closing handshake of an open socket, and is nothing on another.
abbrev pub after_close : ReadyState → ReadyState
after_close opened = closing
after_close s = s

-- `send`
unfoldable pub send_message : ReadyState → PtyServerMessage → List Effect
send_message s m = if is_open s then send m ∷ [] else []

abbrev pub kill_effects : Option PtyHandle → List Effect
kill_effects none = []
kill_effects (some _) = kill ∷ []

abbrev pub exit_effects : Bool → Option PtyTokenClaims → Option StartContext → ℕ → List Effect
exit_effects true (some claims) (some ctx) code = session_exit claims ctx code ∷ []
exit_effects _ _ _ _ = []

unfoldable pub finish : ℕ → Conn → Conn × List Effect
finish code c = if c.exited then (record c { drain_timer = false }, []) else (
  record c { drain_timer = false; exited = true },
  kill_effects c.handle ++ exit_effects c.started c.claims c.ctx code,
)

-- The test at the head of `applyBackpressure`: the terminal is to be paused now.
abbrev pub must_pause : Conn → ℕ → Bool
must_pause c buffered = elim c.handle [
  | none ↦ false
  | some h ↦ not c.paused && (h.pauses && ltb high_water buffered)
]

unfoldable pub apply_backpressure : ℕ → Conn → Conn × List Effect
apply_backpressure buffered c =
    if must_pause c buffered
    then (record c { paused = true; drain_timer = true }, pause ∷ [])
    else (c, [])

abbrev pub resume_effects : Option PtyHandle → List Effect
resume_effects none = []
resume_effects (some h) = if h.resumes then resume ∷ [] else []

-- One round of the drain timer.
unfoldable pub on_drain : ℕ → Conn → Conn × List Effect
on_drain buffered c =
    if c.drain_timer
    then (if ltb buffered low_water || not (is_open c.ready_state)
        then (record c { paused = false; drain_timer = false }, resume_effects c.handle)
        else (c, []))
    else (c, [])

abbrev pub context : StartMessage → StartContext
context m = record {
  session_id = m.session_id;
  project_id = m.project_id;
  command = m.command;
  cols = m.cols;
  rows = m.rows;
}

-- `onStart` once the token has been looked at, up to the `await`
abbrev pub on_verified : StartMessage → Conn → Option PtyTokenClaims → Conn × List Effect
on_verified m c none = (
  record c { ready_state = after_close c.ready_state },
  send_message c.ready_state (error m.session_id "Unauthorized") ++ close 4401 "Unauthorized" ∷ [],
)
on_verified m c (some claims) =
    if claims.session_id == m.session_id
    then (
      record c { claims = some claims; ctx = some (context m); started = true; spawning = true },
      resolve_spawn claims (context m) ∷ [],
    )
    else (
      record c { ready_state = after_close c.ready_state },
      send_message c.ready_state (error m.session_id "Session mismatch")
          ++ close 4403 "Session mismatch" ∷ [],
    )

-- `onStart` up to the `await`: one PTY per socket, the token of the message before the URL's.
unfoldable pub on_start :
    (String → Option PtyTokenClaims) → StartMessage → Conn → Conn × List Effect
unfolding send_message
on_start verify m c =
    if c.started
    then (c, [])
    else on_verified m c (verify (get_or_else m.token (get_or_else c.query_token "")))

-- The session id that the callbacks of a started connection have captured.
abbrev pub started_id : Option StartContext → String
started_id none = ""
started_id (some x) = x.session_id

abbrev pub start_effects : Option PtyTokenClaims → Option StartContext → List Effect
start_effects (some claims) (some ctx) = session_start claims ctx ∷ []
start_effects _ _ = []

-- `onStart` after the `await`, when there is a terminal.
unfoldable pub on_spawned : PtyHandle → Conn → Conn × List Effect
unfolding send_message
on_spawned h c = (
  record c { handle = some h; spawning = false },
  send_message c.ready_state (ready (started_id c.ctx)) ++ start_effects c.claims c.ctx,
)

-- The `catch` of `onStart`.
unfoldable pub on_spawn_failed : String → Conn → Conn × List Effect
unfolding send_message finish
on_spawn_failed reason c =
    let (d, out) = finish 1 (record c { spawning = false }) in
    (
      record d { ready_state = after_close d.ready_state },
      send_message c.ready_state (error (started_id c.ctx) reason)
          ++ (out ++ close 1011 "spawn failed" ∷ []),
    )

-- `handle.onData`
unfoldable pub on_output : String → ℕ → Conn → Conn × List Effect
unfolding send_message apply_backpressure
on_output text buffered c =
    let (d, out) = apply_backpressure buffered c in
    (d, send_message c.ready_state (chunk (started_id c.ctx) text) ++ out)

-- `handle.onExit`
unfoldable pub on_process_exit : ℕ → Conn → Conn × List Effect
unfolding send_message finish
on_process_exit code c =
    let (d, out) = finish code c in
    (
      record d { ready_state = after_close d.ready_state },
      send_message c.ready_state (exit (started_id c.ctx) code)
          ++ (out ++ close 1000 "session ended" ∷ []),
    )

-- What `conn.handle?.…` does: nothing without a terminal.
abbrev pub on_handle : Option PtyHandle → Effect → List Effect
on_handle none e = []
on_handle (some _) e = e ∷ []

-- `onMessage`
unfoldable pub on_message :
    (String → Option PtyTokenClaims) → PtyClientMessage → Conn → Conn × List Effect
unfolding on_start
on_message verify (PtyClientMessage.start m) c = on_start verify m c
on_message verify (PtyClientMessage.input _ text) c = (c, on_handle c.handle (write text))
on_message verify (PtyClientMessage.resize _ cols rows) c =
    (c, on_handle c.handle (resize cols rows))
on_message verify (PtyClientMessage.kill _) c = (c, on_handle c.handle kill)

-- One callback. An event that cannot come, such as a frame after the close or an output with no
-- terminal, changes nothing.
unfoldable pub step : (String → Option PtyTokenClaims) → Event → Conn → Conn × List Effect
step verify (message none) c = (c, [])
step verify (message (some m)) c =
    if is_closed c.ready_state then (c, []) else on_message verify m c
step verify (spawned h) c = if c.spawning then on_spawned h c else (c, [])
step verify (spawn_failed reason) c = if c.spawning then on_spawn_failed reason c else (c, [])
step verify (output text buffered) c = elim c.handle [
  | none ↦ (c, [])
  | some h ↦ on_output text buffered c
]
step verify (process_exit code) c = elim c.handle [
  | none ↦ (c, [])
  | some h ↦ on_process_exit code c
]
step verify (drain_tick buffered) c = on_drain buffered c
step verify socket_closed c =
    if is_closed c.ready_state then (c, []) else finish 0 (record c { ready_state = closed })

-- The callbacks of a connection in the order in which they come.
unfoldable pub run : (String → Option PtyTokenClaims) → List Event → Conn → Conn × List Effect
run verify [] c = (c, [])
run verify (e ∷ es) c =
    let (d, out) = step verify e c in let (f, rest) = run verify es d in (f, out ++ rest)
