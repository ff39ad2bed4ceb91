-- ===== src/Server/Tests.antt =====
-- Runs of the server's services on concrete rows.
use pocket_dev.Base.{
  ◌-◌, String, codes, ◌≡◌, refl, true, none, some, List, [], ◌∷◌, arith, min, if◌then◌else◌, ok,
  unauthorized, Text, Bool, err, ◌==◌, ℕ, nat_eq,
}
use pocket_dev.Pty.Token.{Payload}
use pocket_dev.Worker.Events.{failed, queued, active, cloud, free, session_exited, SessionExited}
use pocket_dev.Server.Db.{
  Db, Job, Session, Subscription, Project, Api, find_unique, find_job, find_session,
}
use pocket_dev.Server.Reconciler.{on_event}
use pocket_dev.Server.Lifecycle.{
  Write, event, queue_failed, closing, writes, may_move, status_moves,
}
use pocket_dev.Server.Lifecycle.Ends.{ended, exit_settles}
use pocket_dev.Server.Quota.Bounds.{grants, grants_in_window}
use pocket_dev.Server.Jobs.{ExecutionConfig, CreateJob, FreshIds, StartSessionResponse}
use pocket_dev.Server.Projects.{slugify, dash_runs, drop_last_dash, lower_all}
use pocket_dev.Server.Auth.{Register, Issued, register, login, login-register, account}

abbrev job1 : Job
job1 = record {
  id = "j1";
  project_id = "p1";
  user_id = "alice";
  command = codes "npm test";
  status = queued;
  target = cloud;
  queue_job_id = some "q1";
  exit_code = none;
  created_at = 5;
  started_at = none;
  finished_at = none;
}

abbrev session1 : Session
session1 = record {
  id = "s1";
  job_id = some "j1";
  project_id = "p1";
  user_id = "alice";
  target = cloud;
  status = active;
  container_id = none;
  started_at = 5;
  ended_at = none;
}

abbrev subscription1 : Subscription
subscription1 = record {
  user_id = "alice";
  tier = free;
  status = "active";
  quota_jobs_per_day = 50;
  jobs_used_today = 49;
  quota_reset_at = 0;
}

abbrev project1 : Project
project1 = record {
  id = "p1";
  user_id = "alice";
  name = codes "Notes";
  slug = codes "notes";
  description = none;
  manifest = none;
  last_synced_at = none;
}

abbrev rows1 : Db
rows1 = record {
  users = [];
  projects = project1 ∷ [];
  jobs = job1 ∷ [];
  sessions = session1 ∷ [];
  subscriptions = subscription1 ∷ [];
  presences = [];
}

abbrev exit1 : SessionExited
exit1 = record { job_id = "j1"; session_id = "s1"; exit_code = 2; duration_ms = 7; at = 20 }

abbrev reported : List Write
reported = event 21 (some (session_exited exit1)) ∷ queue_failed 22 "q1" ∷ closing "s1" 23 ∷ []

status_moves_example :
    (j' : Job) × (find_job "j1" (writes reported rows1) ≡ some j')
    × (may_move queued j'.status ≡ true)
unfolding find_unique
status_moves_example = status_moves "j1" reported rows1 job1 refl

exit_settles_example :
    let after = on_event 21 (some (session_exited exit1)) rows1 in
    (find_job "j1" after
      ≡ some (record job1 { status = failed; exit_code = some 2; finished_at = some 21 }))
    × (find_session "s1" after ≡ some (ended 21 active session1))
unfolding find_unique
exit_settles_example = exit_settles 21 exit1 rows1 job1 session1 refl refl

grants_in_window_example : grants "alice" (1 ∷ 2 ∷ 3 ∷ []) rows1 ≡ min 3 (50 - 49)
unfolding find_unique
grants_in_window_example =
    grants_in_window "alice" (1 ∷ 2 ∷ 3 ∷ []) rows1 subscription1 refl
      (omega arith, (omega arith, (omega arith, tt)))

abbrev sign : Payload → String → String
sign p ttl = "jwt"

abbrev config : ExecutionConfig
config = record {
  worker_ws_url = some "wss://worker";
  ws_token_ttl = none;
  desktop_heartbeat_window_ms = none;
}

abbrev ids : FreshIds
ids = record { job_id = "j9"; session_id = "s9"; queue_id = "q9" }

abbrev dto : CreateJob
dto = record { project_id = "p1"; command = codes "npm test" }

abbrev api1 : Api
api1 = record { db = rows1; signals = []; queue = [] }

abbrev response : StartSessionResponse
response = record {
  job_id = "j9";
  session_id = "s9";
  target = cloud;
  ws_url = "wss://worker";
  ws_token = "jwt";
}

-- The cut at 60 units comes last, and may leave a dash at the end.
abbrev long_name : Text
long_name = codes "aaaaaaaaaaaaaaaaaaaaaaaaaaaaaaaaaaaaaaaaaaaaaaaaaaaaaaaaaaa and so on"

makes_slug : slugify (codes " My App, v2! ") ≡ codes "my-app-v2"
unfolding slugify dash_runs drop_last_dash lower_all
makes_slug = refl

cuts_slug : slugify long_name ≡ codes "aaaaaaaaaaaaaaaaaaaaaaaaaaaaaaaaaaaaaaaaaaaaaaaaaaaaaaaaaaa-"
unfolding slugify dash_runs drop_last_dash lower_all
cuts_slug = refl

abbrev plain_hash : String → String
plain_hash password = password

abbrev same_hash : String → String → Bool
same_hash password hashed = password == hashed

abbrev sign_in : Payload → ℕ → String
sign_in p now = if nat_eq now 5 then "jwt" else "later jwt"

abbrev bob : Register
bob = record { email = "bob@example.com"; password = "correct horse"; name = none }

abbrev issued_bob : Issued
issued_bob = record { access_token = "jwt"; user_id = "u2"; email = "bob@example.com"; tier = free }

login-register_example :
    (issued_bob ≡ account plain_hash same_hash sign_in "u2" bob 5)
    × (login plain_hash same_hash sign_in
          (record { email = "bob@example.com"; password = "correct horse" })
          9
          (register plain_hash same_hash sign_in "u2" 5 bob rows1).1
        ≡ (if same_hash "correct horse" (plain_hash "correct horse")
            then ok (account plain_hash same_hash sign_in "u2" bob 9)
            else err (unauthorized "Invalid credentials")))
unfolding register find_unique
login-register_example =
    login-register plain_hash same_hash sign_in "u2" 5 9 bob "correct horse" rows1 issued_bob refl
