-- ===== src/Worker/Jobs.antt =====
-- The worker's jobs (services/execution-worker/src/index.ts): each holds its concurrency slot until
-- its promise is resolved by a release, a kill signal or one of two timers.
pub mod Accounts
pub mod Slots
pub mod Timers
use pocket_dev.Base.{
  ℕ, ◌-◌, String, Bool, true, false, Option, none, some, List, [], ◌∷◌, ◌++◌, ◌≡◌, if◌then◌else◌,
  is_some,
}
use pocket_dev.Base.Dict.{Dict, get, put, erase}
use pocket_dev.Worker.Events.{
  RunCommandJobData, ExecutionEvent, session_started, session_exited, session_error, cloud,
}
use pocket_dev.Worker.Registry.{SessionEntry, Registry}

-- The promise of a job: its two timers, and what it was resolved with.
pub record Slot : Type 0 where
  pub connect_timer : Bool
  pub max_timer : Bool
  pub settled : Option ℕ

-- A job between the start of its container and the end of its handler.
pub record Job : Type 0 where
  pub session_id : String
  pub container_id : String
  pub started : ℕ
  pub slot : Slot

pub record Worker : Type 0 where
  pub registry : Registry
  pub jobs : Dict Job

pub data Effect : Type 0 where
  create_container : String → Effect
  destroy_container : String → Effect
  publish : ExecutionEvent → Effect

pub data Event : Type 0 where
  -- `createSessionContainer` gave this container: the times are `started` and that of the event
  provisioned : RunCommandJobData → String → ℕ → ℕ → Event
  provision_failed : RunCommandJobData → String → ℕ → Event
  -- `attached` and `release` of the session's entry
  attach : String → Event
  release : String → ℕ → Event
  -- a frame of the control channel
  kill_signal : String → Event
  -- a timer of the job fires
  connect_timeout : String → Event
  max_timeout : String → Event
  -- the handler goes on after its `await`
  resumed : String → ℕ → Event

-- `done`
unfoldable pub settle : ℕ → Slot → Slot
settle code s =
    if is_some s.settled
    then s
    else record s { settled = some code; connect_timer = false; max_timer = false }

-- A timer that was cleared does not fire.
abbrev pub fire : Bool → ℕ → Slot → Slot
fire armed code s = if armed then settle code s else s

unfoldable pub on_slot : (Slot → Slot) → Option Job → String → Dict Job → Dict Job
on_slot f none job_id jobs = jobs
on_slot f (some job) job_id jobs = put job_id (record job { slot = f job.slot }) jobs

abbrev pub update_slot : (Slot → Slot) → String → Worker → Worker
update_slot f job_id w = record w { jobs = on_slot f (get job_id w.jobs) job_id w.jobs }

-- `registry.get(sessionId)?.…`: the callbacks of an entry are those of its job.
abbrev pub on_entry : (Slot → Slot) → Option SessionEntry → Worker → Worker
on_entry f none w = w
on_entry f (some entry) w = update_slot f entry.job_id w

abbrev pub new_job : RunCommandJobData → String → ℕ → Job
new_job d container_id started = record {
  session_id = d.session_id;
  container_id = container_id;
  started = started;
  slot = record { connect_timer = true; max_timer = true; settled = none };
}

abbrev pub new_entry : RunCommandJobData → String → SessionEntry
new_entry d container_id = record {
  session_id = d.session_id;
  job_id = d.job_id;
  user_id = d.user_id;
  project_id = d.project_id;
  container_id = container_id;
}

abbrev pub started_event : RunCommandJobData → String → ℕ → ExecutionEvent
started_event d container_id now = session_started (record {
  job_id = d.job_id;
  session_id = d.session_id;
  user_id = d.user_id;
  project_id = d.project_id;
  target = cloud;
  container_id = container_id;
  at = now;
})

abbrev pub exited_event : String → Job → ℕ → ℕ → ExecutionEvent
exited_event job_id job code now = session_exited (record {
  job_id = job_id;
  session_id = job.session_id;
  exit_code = code;
  duration_ms = now - job.started;
  at = now;
})

-- The handler after its `await`: the registry forgets the session, the container is destroyed and
-- the exit is published. Nothing happens before the promise is resolved.
abbrev finish_job : String → ℕ → Job → Option ℕ → Worker → Worker × List Effect
finish_job job_id now job none w = (w, [])
finish_job job_id now job (some code) w = (
  record { registry = erase job.session_id w.registry; jobs = erase job_id w.jobs },
  destroy_container job.container_id ∷ publish (exited_event job_id job code now) ∷ [],
)

abbrev resume_job : String → ℕ → Option Job → Worker → Worker × List Effect
resume_job job_id now none w = (w, [])
resume_job job_id now (some job) w = finish_job job_id now job job.slot.settled w

unfoldable pub step : Event → Worker → Worker × List Effect
unfolding settle on_slot
step (provisioned d container_id started now) w = (
  record {
    registry = put d.session_id (new_entry d container_id) w.registry;
    jobs = put d.job_id (new_job d container_id started) w.jobs;
  },
  create_container container_id ∷ publish (started_event d container_id now) ∷ [],
)
step (provision_failed d message now) w = (
  w,
  publish (
        session_error
          (record { job_id = d.job_id; session_id = d.session_id; message = message; at = now }))
      ∷ [],
)
step (attach session_id) w =
    (on_entry (λ s. record s { connect_timer = false }) (get session_id w.registry) w, [])
step (release session_id code) w = (on_entry (settle code) (get session_id w.registry) w, [])
step (kill_signal session_id) w = (on_entry (settle 137) (get session_id w.registry) w, [])
step (connect_timeout job_id) w = (update_slot (λ s. fire s.connect_timer 0 s) job_id w, [])
step (max_timeout job_id) w = (update_slot (λ s. fire s.max_timer 124 s) job_id w, [])
step (resumed job_id now) w = resume_job job_id now (get job_id w.jobs) w

-- A job is handed to the worker at most once at a time: `true` where the event may come.
abbrev pub MayCome : Event → Worker → Type 0
MayCome (provisioned d _ _ _) w = get d.job_id w.jobs ≡ none
MayCome _ _ = Unit

-- The callbacks in the order in which they come.
unfoldable pub run : List Event → Worker → Worker × List Effect
run [] w = (w, [])
run (e ∷ es) w = let (v, out) = step e w in let (u, rest) = run es v in (u, out ++ rest)

-- A schedule in which every event may come when it does.
abbrev pub Admissible : List Event → Worker → Type 0
Admissible [] w = Unit
Admissible (e ∷ es) w = MayCome e w × Admissible es (step e w).0

abbrev pub idle : Worker
idle = record { registry = []; jobs = [] }
