-- ===== src/Server/Sessions.antt =====
-- Terminal sessions (server/src/sessions/sessions.service.ts), and the kill signal of
-- server/src/execution/exec-control.service.ts.
use pocket_dev.Base.{
  ℕ, String, Bool, true, false, ◌&&◌, Option, none, some, List, [], ◌∷◌, ◌++◌, ◌==◌, if◌then◌else◌,
  not_found, forbidden, keep, take,
}
use pocket_dev.Worker.Events.{
  JobStatus, ExecutionTarget, SessionStatus, queued, running, succeeded, active, closed, desktop,
  cloud,
}
use pocket_dev.Server.Execute.{Execute, throw, modify}
use pocket_dev.Server.Db.{
  Db, Job, Session, Api, order_desc, find_session, update_jobs, update_sessions,
}

abbrev pub is_active : SessionStatus → Bool
is_active active = true
is_active closed = false

abbrev pub is_desktop : ExecutionTarget → Bool
is_desktop desktop = true
is_desktop cloud = false

-- `status: { in: ['QUEUED', 'RUNNING'] }`
abbrev pub is_pending : JobStatus → Bool
is_pending queued = true
is_pending running = true
is_pending _ = false

unfoldable pub list_active : String → Db → List Session
list_active user_id db =
    order_desc (λ s. s.started_at)
      (keep (λ s. (s.user_id == user_id) && is_active s.status) db.sessions)

unfoldable pub history : String → Db → List Session
history user_id db =
    take 50 (order_desc (λ s. s.started_at) (keep (λ s. s.user_id == user_id) db.sessions))

-- `open`
unfoldable pub open_session : String → ℕ → String → String → String → ExecutionTarget → Db → Db
open_session id now user_id project_id job_id target db = record db {
  sessions =
      db.sessions
      ++ record {
        id = id;
        job_id = some job_id;
        project_id = project_id;
        user_id = user_id;
        target = target;
        status = active;
        container_id = none;
        started_at = now;
        ended_at = none;
      }
        ∷ [];
}

unfoldable pub mark_started : String → String → Db → Db
mark_started session_id container_id =
    update_sessions (λ s. s.id == session_id) (λ s. record s { container_id = some container_id })

abbrev pub close_row : ℕ → Session → Session
close_row now s = record s { status = closed; ended_at = some now }

abbrev pub succeed_row : ℕ → Job → Job
succeed_row now j = record j { status = succeeded; finished_at = some now }

-- The second part of `markClosed`: a desktop session completes its job.
abbrev pub complete_desktop : ℕ → ExecutionTarget → Option String → Db → Db
complete_desktop now desktop (some job_id) db =
    if job_id == ""
    then db
    else update_jobs (λ j. (j.id == job_id) && is_pending j.status) (succeed_row now) db
complete_desktop now _ _ db = db

abbrev pub close_found : String → ℕ → Option Session → Db → Db
close_found session_id now none db = db
close_found session_id now (some s) db =
    complete_desktop now s.target s.job_id
      (update_sessions (λ r. (r.id == session_id) && is_active r.status) (close_row now) db)

unfoldable pub mark_closed : String → ℕ → Db → Db
mark_closed session_id now db = close_found session_id now (find_session session_id db) db

-- `execControl.killSession`
abbrev pub kill_session : String → Api → Api
kill_session session_id a = record a { signals = a.signals ++ session_id ∷ [] }

abbrev pub close_owned : String → String → ℕ → Option Session → Execute Api String
close_owned user_id session_id now none = throw (not_found "Session not found")
close_owned user_id session_id now (some s) =
    if s.user_id == user_id
    then modify
        (λ a.
          let b : Api = record a { db = mark_closed session_id now a.db } in
          if is_desktop s.target then b else kill_session session_id b)
        session_id
    else throw (forbidden "Not your session")

-- `close`: the user ends a session.
unfoldable pub close : String → String → ℕ → Execute Api String
unfolding mark_closed
close user_id session_id now a = close_owned user_id session_id now (find_session session_id a.db) a
