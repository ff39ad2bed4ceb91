-- ===== src/Server/Jobs.antt =====
-- Jobs (server/src/jobs/jobs.service.ts). Ids are drawn by the database and the queue; the signing
-- of a token is a parameter.
pub mod Creation
use pocket_dev.Base.{
  ℕ, String, Text, Bool, true, false, ◌&&◌, Option, none, some, List, [], ◌∷◌, ◌++◌, ◌==◌, not,
  if◌then◌else◌, Result, ok, err, not_found, forbidden, keep, take, get_or_else,
}
use pocket_dev.Pty.Token.{Payload, text, absent}
use pocket_dev.Worker.Events.{ExecutionTarget, JobStatus, queued, running, cloud, desktop, Tier}
use pocket_dev.Server.Execute.{Execute, return, throw, ◌>>=◌, ◌>>◌}
use pocket_dev.Server.Db.{
  Db, Job, Project, Api, QueuedJob, find_job, find_unique, order_desc, update_jobs,
}
use pocket_dev.Server.Sessions.{open_session, is_desktop}
use pocket_dev.Server.Quota.{enforce_quota}
use pocket_dev.Server.Desktop.{Route, resolve_target}

-- What the configuration says of execution.
pub record ExecutionConfig : Type 0 where
  pub worker_ws_url : Option String
  pub ws_token_ttl : Option String
  pub desktop_heartbeat_window_ms : Option ℕ

-- `CreateJobDto`
pub record CreateJob : Type 0 where
  pub project_id : String
  pub command : Text

-- `StartSessionResponse`
pub record StartSessionResponse : Type 0 where
  pub job_id : String
  pub session_id : String
  pub target : ExecutionTarget
  pub ws_url : String
  pub ws_token : String

-- The ids that the database and the queue draw.
pub record FreshIds : Type 0 where
  pub job_id : String
  pub session_id : String
  pub queue_id : String

unfoldable pub list_jobs : String → Db → List Job
list_jobs user_id db =
    take 50 (order_desc (λ j. j.created_at) (keep (λ j. j.user_id == user_id) db.jobs))

abbrev owned_job : String → Option Job → Execute Db Job
owned_job user_id none = throw (not_found "Job not found")
owned_job user_id (some j) =
    if j.user_id == user_id then return j else throw (forbidden "Not your job")

unfoldable pub find_one : String → String → Execute Db Job
find_one user_id id db = owned_job user_id (find_job id db) db

abbrev pub find_project : String → Db → Option Project
find_project id db = find_unique (λ (p : Project). p.id) id db.projects

-- The claims of a terminal token, as a payload.
abbrev pub pty_payload : String → String → String → Payload
pty_payload user_id session_id project_id = record {
  sub = text user_id;
  session_id = text session_id;
  project_id = text project_id;
  scope = text "pty";
  email = absent;
  tier = absent;
}

-- `!project || project.userId !== userId`
abbrev pub owns : String → Option Project → Bool
owns user_id none = false
owns user_id (some p) = p.user_id == user_id

abbrev pub first_status : ExecutionTarget → JobStatus
first_status desktop = running
first_status cloud = queued

abbrev pub first_started : ExecutionTarget → ℕ → Option ℕ
first_started desktop now = some now
first_started cloud now = none

abbrev pub new_job : FreshIds → String → CreateJob → ExecutionTarget → ℕ → Job
new_job ids user_id dto target now = record {
  id = ids.job_id;
  project_id = dto.project_id;
  user_id = user_id;
  command = dto.command;
  status = first_status target;
  target = target;
  queue_job_id = none;
  exit_code = none;
  created_at = now;
  started_at = first_started target now;
  finished_at = none;
}

-- A smaller number is served first.
abbrev pub priority_of : String → ℕ
priority_of tier = if tier == "PAID" then 1 else 10

abbrev pub queued_job : FreshIds → String → String → CreateJob → QueuedJob
queued_job ids user_id tier dto = record {
  payload = record {
    job_id = ids.job_id;
    session_id = ids.session_id;
    project_id = dto.project_id;
    user_id = user_id;
    command = some dto.command;
    target = cloud;
  };
  priority = priority_of tier;
  queue_id = ids.queue_id;
}

-- `queue.add`, and the id of the queue in the job's row.
abbrev pub enqueue : ExecutionTarget → FreshIds → String → String → CreateJob → Api → Api
enqueue desktop ids user_id tier dto a = a
enqueue cloud ids user_id tier dto a = record a {
  db =
      update_jobs (λ j. j.id == ids.job_id) (λ j. record j { queue_job_id = some ids.queue_id })
        a.db;
  queue = a.queue ++ queued_job ids user_id tier dto ∷ [];
}

abbrev pub url_of : ExecutionConfig → Route → String
url_of config route =
    if is_desktop route.target
    then get_or_else route.tunnel_url ""
    else get_or_else config.worker_ws_url "ws://localhost:4100"

module _ (sign : Payload → String → String) (config : ExecutionConfig) where
  -- `mintPtyToken`
  unfoldable pub mint_pty_token : String → String → String → String
  mint_pty_token user_id session_id project_id =
      sign (pty_payload user_id session_id project_id) (get_or_else config.ws_token_ttl "5m")

  -- The part of `create` after the quota, which does not throw.
  unfoldable pub launch :
      FreshIds → String → String → CreateJob → ℕ → Route → Api → StartSessionResponse × Api
  unfolding mint_pty_token open_session
  launch ids user_id tier dto now route a =
      let with_job : Db = record a.db {
        jobs = a.db.jobs ++ new_job ids user_id dto route.target now ∷ [];
      } in
      let with_session : Db =
        open_session ids.session_id now user_id dto.project_id ids.job_id route.target with_job in
      (
        record {
          job_id = ids.job_id;
          session_id = ids.session_id;
          target = route.target;
          ws_url = url_of config route;
          ws_token = mint_pty_token user_id ids.session_id dto.project_id;
        },
        enqueue route.target ids user_id tier dto (record a { db = with_session }),
      )

  abbrev pub after_quota :
      FreshIds
      → String
      → String
      → CreateJob
      → ℕ
      → Api
      → Result (Unit {0}) × Db
      → Result StartSessionResponse × Api
  after_quota ids user_id tier dto now a (err e, db) = (err e, record a { db = db })
  after_quota ids user_id tier dto now a (ok _, db) =
      let route = resolve_target config.desktop_heartbeat_window_ms user_id now db in
      let (response, b) = launch ids user_id tier dto now route (record a { db = db }) in
      (ok response, b)

  -- `create`
  unfoldable pub create :
      FreshIds → String → String → CreateJob → ℕ → Execute Api StartSessionResponse
  create ids user_id tier dto now a =
      if owns user_id (find_project dto.project_id a.db)
      then after_quota ids user_id tier dto now a (enforce_quota user_id now a.db)
      else (err (not_found "Project not found"), a)
