-- ===== src/Worker/Events.antt =====
-- The domain words and the messages between the worker and the server
-- (packages/shared/src/domain.ts, exec-events.ts, queue.ts). Time stamps are milliseconds.
use pocket_dev.Base.{ℕ, String, Text, Option}

pub data Tier : Type 0 where
  free paid : Tier

pub data JobStatus : Type 0 where
  queued running succeeded failed canceled : JobStatus

pub data ExecutionTarget : Type 0 where
  cloud desktop : ExecutionTarget

pub data SessionStatus : Type 0 where
  active closed : SessionStatus

-- `RunCommandJobData`, for the target CLOUD.
pub record RunCommandJobData : Type 0 where
  pub job_id : String
  pub session_id : String
  pub project_id : String
  pub user_id : String
  pub command : Option Text
  pub target : ExecutionTarget

pub record SessionStarted : Type 0 where
  pub job_id : String
  pub session_id : String
  pub user_id : String
  pub project_id : String
  pub target : ExecutionTarget
  pub container_id : String
  pub at : ℕ

pub record SessionExited : Type 0 where
  pub job_id : String
  pub session_id : String
  pub exit_code : ℕ
  pub duration_ms : ℕ
  pub at : ℕ

pub record SessionError : Type 0 where
  pub job_id : String
  pub session_id : String
  pub message : String
  pub at : ℕ

pub data ExecutionEvent : Type 0 where
  session_started : SessionStarted → ExecutionEvent
  session_exited : SessionExited → ExecutionEvent
  session_error : SessionError → ExecutionEvent
