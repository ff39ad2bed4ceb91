-- ===== src/Pty/Gateway/Connection.antt =====
-- The state of a connection of the gateway, what happens to it and what it does
-- (packages/pty-core/src/gateway.ts).
use pocket_dev.Base.{ℕ, String, Bool, Option}
use pocket_dev.Pty.Messages.{
  PtyTokenClaims, PtyClientMessage, PtyServerMessage, StartContext, PtyHandle,
}

-- `readyState` of a socket that has connected.
pub data ReadyState : Type 0 where
  opened closing closed : ReadyState

pub record Conn : Type 0 where
  pub ready_state : ReadyState
  pub query_token : Option String
  pub claims : Option PtyTokenClaims
  pub ctx : Option StartContext
  pub handle : Option PtyHandle
  pub started : Bool
  pub exited : Bool
  pub paused : Bool
  pub drain_timer : Bool
  -- `onStart` is suspended at its `await`
  pub spawning : Bool

pub data Effect : Type 0 where
  send : PtyServerMessage → Effect
  close : ℕ → String → Effect
  resolve_spawn : PtyTokenClaims → StartContext → Effect
  write : String → Effect
  resize : ℕ → ℕ → Effect
  kill pause resume : Effect
  session_start : PtyTokenClaims → StartContext → Effect
  session_exit : PtyTokenClaims → StartContext → ℕ → Effect

pub data Event : Type 0 where
  -- a frame; `none` is one that does not parse, or has no known type
  message : Option PtyClientMessage → Event
  -- `resolveSpawn` and `spawnPty` gave a terminal, or one of them threw
  spawned : PtyHandle → Event
  spawn_failed : String → Event
  -- the terminal printed, and `bufferedAmount` is what it is after the send
  output : String → ℕ → Event
  process_exit : ℕ → Event
  -- the drain timer fired, and found this `bufferedAmount`
  drain_tick : ℕ → Event
  socket_closed : Event
