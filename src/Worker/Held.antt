-- ===== src/Worker/Held.antt =====
-- The two halves of the worker together: a client that leaves while its job is still in the queue
-- (packages/pty-core/src/gateway.ts with services/execution-worker/src/gateway.ts and index.ts).
use pocket_dev.Base.{String, ◌≡◌, ◌≢◌, refl, true, Option, none, some, List, [], ◌∷◌, arith}
use pocket_dev.Base.Dict.{get}
use pocket_dev.Pty.Messages.{PtyTokenClaims, PtyHandle}
use pocket_dev.Pty.Gateway
use pocket_dev.Pty.Gateway.{Conn, session_exit, spawned, socket_closed, closed}
use pocket_dev.Pty.Exits.{reports, late_spawn_leaks}
use pocket_dev.Worker.Registry.{SessionEntry}
use pocket_dev.Worker.Jobs.{Job, Worker, attach, connect_timeout, run}
use pocket_dev.Worker.Jobs.Timers.{attached_outlives_connect_timeout}
use pocket_dev.Worker.Gateway.{releases}

releases-nil : (out : List Gateway.Effect) → reports out ≡ 0 → releases out ≡ []
unfolding releases
releases-nil [] h = refl
releases-nil (session_exit _ _ _ ∷ out) h = absurd (omega arith)
releases-nil (_ ∷ out) h = releases-nil out h

-- A client that left while `resolveSpawn` waited, and whose session is then found: whatever happens
-- on the connection from there on, the job is not released, and the timer for a client that does not
-- come, which the attach has stopped, does not end it either.
pub late_attach_holds_slot :
    (verify : String → Option PtyTokenClaims) (c : Conn) (h : PtyHandle) (es : List Gateway.Event)
    (w : Worker) (session_id : String) (entry : SessionEntry) (job : Job)
    → c.ready_state ≢ closed
    → c.spawning ≡ true
    → get session_id w.registry ≡ some entry
    → get entry.job_id w.jobs ≡ some job
    → job.slot.settled ≡ none
    → let out = (Gateway.run verify (spawned h ∷ es) (Gateway.step verify socket_closed c).0).1 in
      (after : Job) × (get entry.job_id
          (run (attach session_id ∷ connect_timeout entry.job_id ∷ releases out) w).0.jobs
        ≡ some after)
      × (after.slot.settled ≡ none)
late_attach_holds_slot verify c h es w session_id entry job o p r g free =
    let out = (Gateway.run verify (spawned h ∷ es) (Gateway.step verify socket_closed c).0).1 in
    let nothing = releases-nil out (late_spawn_leaks verify h es c o p).2 in
    rw nothing (attached_outlives_connect_timeout w session_id entry job r g free)
