-- ===== src/Worker/Tests.antt =====
-- Runs of the worker on concrete callbacks.
use pocket_dev.Base.{
  ℕ, zero, suc, ◌+◌, String, codes, ◌≡◌, refl, true, Option, none, some, List, [], ◌∷◌, arith,
  count, false,
}
use pocket_dev.Base.Dict.{get, put, erase}
use pocket_dev.Pty.Messages.{PtyTokenClaims, StartContext}
use pocket_dev.Pty.Gateway
use pocket_dev.Pty.Gateway.{
  Conn, connect, message, spawned, process_exit, socket_closed, on_message, on_start,
}
use pocket_dev.Worker.Events.{RunCommandJobData, cloud}
use pocket_dev.Worker.Registry.{SessionEntry, Registry, wait_for, Outcome, wait_for_ends}
use pocket_dev.Worker.Jobs.{
  Job, Worker, Event, provisioned, attach, release, kill_signal, connect_timeout, max_timeout,
  resumed, destroy_container, publish, exited_event, step, run, idle, settle, on_slot,
}
use pocket_dev.Worker.Jobs.Accounts.{holders, is_create, is_destroy, containers_accounted}
use pocket_dev.Worker.Jobs.Slots.{first_release_decides}
use pocket_dev.Worker.Jobs.Timers.{never_held_forever}
use pocket_dev.Worker.Gateway.{releases}
use pocket_dev.Worker.Held.{late_attach_holds_slot}
use pocket_dev.Worker.Containers.{DockerConfig, ProvisionOpts, Container, session_spec}

abbrev data1 : RunCommandJobData
data1 = record {
  job_id = "j1";
  session_id = "s1";
  project_id = "p1";
  user_id = "alice";
  command = none;
  target = cloud;
}

abbrev data2 : RunCommandJobData
data2 = record data1 { job_id = "j2"; session_id = "s2" }

abbrev one_job : Worker
one_job = (step (provisioned data1 "c1" 10 20) idle).0

abbrev entry1 : SessionEntry
entry1 = record {
  session_id = "s1";
  job_id = "j1";
  user_id = "alice";
  project_id = "p1";
  container_id = "c1";
}

abbrev job1 : Job
job1 = record {
  session_id = "s1";
  container_id = "c1";
  started = 10;
  slot = record { connect_timer = true; max_timer = true; settled = none };
}

-- Two sessions, of which one ends.
abbrev two_sessions : List Event
two_sessions =
    provisioned data1 "c1" 10 20
    ∷ provisioned data2 "c2" 11 21
    ∷ attach "s1"
    ∷ release "s1" 3
    ∷ resumed "j1" 50
    ∷ []

containers_accounted_example :
    let (w, out) = run two_sessions idle in
    count (is_create "c1") out ≡ count (is_destroy "c1") out + holders "c1" w.jobs
unfolding run step get put erase settle on_slot
containers_accounted_example =
    containers_accounted two_sessions "c1" (refl, (refl, (tt, (tt, (tt, tt)))))

-- The second release, the kill and the timers come too late.
abbrev too_late : List Event
too_late = release "s1" 0 ∷ kill_signal "s1" ∷ max_timeout "j1" ∷ []

first_release_decides_example :
    (step (resumed "j1" 50) (run too_late (step (release "s1" 3) one_job).0).0).1
    ≡ destroy_container "c1" ∷ publish (exited_event "j1" job1 3 50) ∷ []
unfolding step get put erase settle on_slot
first_release_decides_example =
    first_release_decides one_job "s1" 3 50 entry1 job1 too_late refl refl refl (tt, (tt, (tt, tt)))
      (tt, (tt, (tt, tt)))

never_held_forever_example :
    (job1.slot.max_timer ≡ true)
    × ((after : Job) × (get "j1"
            (step (max_timeout "j1") (run (provisioned data1 "c1" 10 20 ∷ []) idle).0).0.jobs
          ≡ some after)
        × (after.slot.settled ≡ some 124))
unfolding run step get put
never_held_forever_example =
    never_held_forever (provisioned data1 "c1" 10 20 ∷ []) "j1" job1 refl refl

-- The session appears at the third round.
abbrev appears : ℕ → Registry
appears zero = []
appears (suc zero) = []
appears (suc (suc n)) = ("s1", entry1) ∷ []

abbrev ticking : ℕ → ℕ
ticking n = n

wait_for_ends_example :
    Outcome appears ticking "s1" (0 + 10) 0 (wait_for appears ticking "s1" 0 10 12)
wait_for_ends_example = wait_for_ends appears ticking "s1" 0 10 (omega arith) (λ i. omega arith)

abbrev alice : PtyTokenClaims
alice = record { sub = "alice"; session_id = "s1"; project_id = "p1" }

abbrev context1 : StartContext
context1 = record {
  session_id = "s1";
  project_id = "p1";
  command = some (codes "npm test");
  cols = none;
  rows = none;
}

abbrev verify : String → Option PtyTokenClaims
verify token = some alice

abbrev waiting : Conn
waiting = record (connect none) {
  claims = some alice;
  ctx = some context1;
  started = true;
  spawning = true;
}

abbrev gone_user : List Gateway.Effect
gone_user =
    (Gateway.run verify (spawned (record { pauses = true; resumes = true }) ∷ process_exit 0 ∷ [])
      (Gateway.step verify socket_closed waiting).0).1

late_attach_holds_slot_example :
    (after : Job) × (get "j1"
        (run (attach "s1" ∷ connect_timeout "j1" ∷ releases gone_user) one_job).0.jobs
      ≡ some after)
    × (after.slot.settled ≡ none)
unfolding step get put connect
late_attach_holds_slot_example =
    late_attach_holds_slot verify waiting (record { pauses = true; resumes = true })
      (process_exit 0 ∷ []) one_job "s1" entry1 job1 (ground arith) refl refl refl refl

-- A terminal that ends at once frees the slot with its code.
abbrev whole_session : List Event
whole_session = provisioned data1 "c1" 10 20 ∷ attach "s1" ∷ kill_signal "s1" ∷ resumed "j1" 60 ∷ []

killed_slot : (run whole_session idle).0 ≡ idle
unfolding run step get put erase settle on_slot
killed_slot = refl

abbrev docker : DockerConfig
docker = record {
  image = "node:22";
  runtime = "runc";
  memory_mb = 512;
  nano_cpus = 1000000000;
  pids_limit = 256;
  network = true;
  readonly_rootfs = false;
  user = none;
}

abbrev provision : ProvisionOpts
provision = record {
  user_id = codes "alice";
  project_id = codes "p1";
  session_id = codes "s1";
  job_id = codes "j1";
}

abbrev old_containers : List Container
old_containers =
    record { id = "c0"; spec = session_spec (codes "data" ∷ []) docker provision }
    ∷ record {
      id = "db";
      spec = record (session_spec (codes "data" ∷ []) docker provision) { session = false };
    }
    ∷ []
