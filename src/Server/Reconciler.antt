-- ===== src/Server/Reconciler.antt =====
-- The writing of execution events into the database
-- (server/src/execution/execution-reconciler.service.ts).
use pocket_dev.Base.{
  ℕ, String, Bool, true, false, ◌&&◌, Option, none, some, ◌==◌, nat_eq, if◌then◌else◌,
}
use pocket_dev.Worker.Events.{
  JobStatus, ExecutionEvent, queued, running, succeeded, failed, session_started, session_exited,
  session_error,
}
use pocket_dev.Server.Db.{Db, Job, update_jobs}
use pocket_dev.Server.Sessions.{mark_started, mark_closed, is_pending}

abbrev pub is_queued : JobStatus → Bool
is_queued queued = true
is_queued _ = false

abbrev pub start_row : ℕ → Job → Job
start_row now j = record j { status = running; started_at = some now }

-- `event.exitCode === 0 ? 'SUCCEEDED' : 'FAILED'`
abbrev pub exit_status : ℕ → JobStatus
exit_status code = if nat_eq code 0 then succeeded else failed

abbrev pub exit_row : ℕ → ℕ → Job → Job
exit_row code now j = record j {
  status = exit_status code;
  exit_code = some code;
  finished_at = some now;
}

abbrev pub fail_row : ℕ → Job → Job
fail_row now j = record j { status = failed; finished_at = some now }

-- `onEvent`, at the time `now`; `none` is a payload that does not parse. A write to a row that is not
-- there throws, and is caught.
unfoldable pub on_event : ℕ → Option ExecutionEvent → Db → Db
unfolding mark_started mark_closed
on_event now none db = db
on_event now (some (session_started e)) db =
    mark_started e.session_id e.container_id
      (update_jobs (λ j. (j.id == e.job_id) && is_queued j.status) (start_row now) db)
on_event now (some (session_exited e)) db =
    mark_closed e.session_id now (update_jobs (λ j. j.id == e.job_id) (exit_row e.exit_code now) db)
on_event now (some (session_error e)) db =
    mark_closed e.session_id now (update_jobs (λ j. j.id == e.job_id) (fail_row now) db)

abbrev pub is_queue_job : String → Option String → Bool
is_queue_job id none = false
is_queue_job id (some q) = q == id

-- `onQueueFailed`, the backstop.
unfoldable pub on_queue_failed : ℕ → String → Db → Db
on_queue_failed now queue_job_id =
    update_jobs (λ j. is_queue_job queue_job_id j.queue_job_id && is_pending j.status)
      (fail_row now)
