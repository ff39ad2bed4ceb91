-- ===== src/Pty/Messages.antt =====
-- The wire protocol of a terminal (packages/shared/src/pty-protocol.ts, session-api.ts) and the
-- contexts of the gateway (packages/pty-core/src/types.ts).
use pocket_dev.Base.{ℕ, String, Text, Bool, Option}

-- `PtyTokenClaims`; the field `scope` has the one value "pty".
pub record PtyTokenClaims : Type 0 where
  pub sub : String
  pub session_id : String
  pub project_id : String

-- The `start` message.
pub record StartMessage : Type 0 where
  pub session_id : String
  pub project_id : String
  pub command : Option Text
  pub cols : Option ℕ
  pub rows : Option ℕ
  pub token : Option String

pub data PtyClientMessage : Type 0 where
  start : StartMessage → PtyClientMessage
  input : String → String → PtyClientMessage
  resize : String → ℕ → ℕ → PtyClientMessage
  kill : String → PtyClientMessage

pub data PtyServerMessage : Type 0 where
  ready : String → PtyServerMessage
  chunk : String → String → PtyServerMessage
  exit : String → ℕ → PtyServerMessage
  error : String → String → PtyServerMessage

pub record StartContext : Type 0 where
  pub session_id : String
  pub project_id : String
  pub command : Option Text
  pub cols : Option ℕ
  pub rows : Option ℕ

-- Which of the optional flow-control hooks a live terminal has.
pub record PtyHandle : Type 0 where
  pub pauses : Bool
  pub resumes : Bool
