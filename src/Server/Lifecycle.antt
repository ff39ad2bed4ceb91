-- ===== src/Server/Lifecycle.antt =====
-- The life of a job and of a session in the database, over all that writes to them
-- (server/src/execution/execution-reconciler.service.ts, server/src/sessions/sessions.service.ts).
pub mod Ends
use pocket_dev.Base.{
  ℕ, String, ◌≡◌, refl, Bool, true, false, ◌&&◌, Option, none, some, List, [], ◌∷◌, arith, eq_iff,
  ◌==◌, if◌then◌else◌, Bool-cases, Option-cases, inl, inr,
}
use pocket_dev.Worker.Events.{
  JobStatus, ExecutionTarget, ExecutionEvent, queued, running, succeeded, failed, canceled, desktop,
  cloud, session_started, session_exited, session_error,
}
use pocket_dev.Server.Db.{
  Db, Job, Session, find_job, find_session, update_jobs, update_many, find-update, update_if,
}
use pocket_dev.Server.Sessions.{
  mark_closed, mark_started, close_found, complete_desktop, is_pending,
}
use pocket_dev.Server.Reconciler.{on_event, on_queue_failed, exit_status, exit_row, fail_row}

-- What writes to the job and session rows after their creation, but for the removal of a project, which
-- deletes them.
pub data Write : Type 0 where
  event : ℕ → Option ExecutionEvent → Write
  queue_failed : ℕ → String → Write
  closing : String → ℕ → Write
  -- the end of `create`: the id of the queue, in the job's row
  enqueued : String → String → Write

unfoldable pub write : Write → Db → Db
write (event now e) db = on_event now e db
write (queue_failed now id) db = on_queue_failed now id db
write (closing session_id now) db = mark_closed session_id now db
write (enqueued job_id queue_id) db =
    update_jobs (λ j. j.id == job_id) (λ j. record j { queue_job_id = some queue_id }) db

unfoldable pub writes : List Write → Db → Db
writes [] db = db
writes (w ∷ ws) db = writes ws (write w db)

-- The status of a job stays, starts from QUEUED, or ends.
abbrev pub may_move : JobStatus → JobStatus → Bool
may_move queued queued = true
may_move queued running = true
may_move running running = true
may_move canceled canceled = true
may_move _ succeeded = true
may_move _ failed = true
may_move _ _ = false

may_move_trans :
    (a b c : JobStatus) → may_move a b ≡ true → may_move b c ≡ true → may_move a c ≡ true
may_move_trans a b c p q = ground arith

may_move_refl : (a : JobStatus) → may_move a a ≡ true
may_move_refl a = ground arith

may_exit : (a : JobStatus) (code : ℕ) → may_move a (exit_status code) ≡ true
may_exit a code = ground arith

-- The job of this id is there afterwards too, with a status that its status may move to.
abbrev Moved : String → Db → Job → Type 0
Moved id db j = (j' : Job) × (find_job id db ≡ some j') × (may_move j.status j'.status ≡ true)

module _ (id : String) where
  may_move-Moved :
      (db : Db) (i j : Job) → may_move i.status j.status ≡ true → Moved id db j → Moved id db i
  may_move-Moved db i j p (k, f, q) = (k, f, may_move_trans i.status j.status k.status p q)

  update-Moved :
      (p : Job → Bool) (f : Job → Job) (db : Db) (j : Job)
      → ((i : Job) → (f i).id ≡ i.id)
      → (p j ≡ true → may_move j.status (f j).status ≡ true)
      → find_job id db ≡ some j
      → Moved id (update_jobs p f db) j
  update-Moved p f db j keep move e = elim (Bool-cases (p j)) [
    | inl y ↦ (f j, ground (arith, find-update (λ (i : Job). i.id) id p f db.jobs keep), move y)
    | inr n ↦ (j, ground (arith, find-update (λ (i : Job). i.id) id p f db.jobs keep), ground arith)
  ]

  complete-Moved :
      (now : ℕ) (t : ExecutionTarget) (o : Option String) (db : Db) (j : Job)
      → find_job id db ≡ some j
      → Moved id (complete_desktop now t o db) j
  complete-Moved now desktop (some job_id) db j e = elim (Bool-cases (job_id == "")) [
    | inl y ↦ rw y (j, e, ground arith)
    | inr n ↦ rw n (update-Moved _ _ db j (λ i. refl) (λ h. ground arith) e)
  ]
  complete-Moved now desktop none db j e = (j, e, ground arith)
  complete-Moved now cloud o db j e = (j, e, ground arith)

  closed-Moved :
      (session_id : String) (now : ℕ) (db : Db) (j : Job)
      → find_job id db ≡ some j
      → Moved id (mark_closed session_id now db) j
  unfolding mark_closed
  closed-Moved session_id now db j e = go (find_session session_id db)
    where
      go : (o : Option Session) → Moved id (close_found session_id now o db) j
      go none = (j, e, ground arith)
      go (some s) = complete-Moved now s.target s.job_id _ j e

  event-Moved :
      (now : ℕ) (e : Option ExecutionEvent) (db : Db) (j : Job)
      → find_job id db ≡ some j
      → Moved id (on_event now e db) j
  unfolding on_event
  event-Moved now none db j f = (j, f, ground arith)
  event-Moved now (some (session_started e)) db j f =
      update-Moved _ _ db j (λ i. refl) (λ h. ground arith) f
  event-Moved now (some (session_exited e)) db j f =
      let ended = update_jobs (λ i. i.id == e.job_id) (exit_row e.exit_code now) db in
      let (k, g, m) =
        update-Moved (λ i. i.id == e.job_id) (exit_row e.exit_code now) db j (λ i. refl)
          (λ h. may_exit j.status e.exit_code) f in
      may_move-Moved (mark_closed e.session_id now ended) j k m
        (closed-Moved e.session_id now ended k g)
  event-Moved now (some (session_error e)) db j f =
      let ended = update_jobs (λ i. i.id == e.job_id) (fail_row now) db in
      let (k, g, m) =
        update-Moved (λ i. i.id == e.job_id) (fail_row now) db j (λ i. refl) (λ h. ground arith)
          f in
      may_move-Moved (mark_closed e.session_id now ended) j k m
        (closed-Moved e.session_id now ended k g)

  write-Moved : (w : Write) (db : Db) (j : Job) → find_job id db ≡ some j → Moved id (write w db) j
  unfolding write on_queue_failed
  write-Moved (event now e) db j f = event-Moved now e db j f
  write-Moved (queue_failed now q) db j f = update-Moved _ _ db j (λ i. refl) (λ h. ground arith) f
  write-Moved (closing session_id now) db j f = closed-Moved session_id now db j f
  write-Moved (enqueued job_id queue_id) db j f =
      update-Moved _ _ db j (λ i. refl) (λ h. may_move_refl j.status) f

  -- Whatever the worker, the queue and the user report, in any order and any number of times, a job
  -- keeps its status, goes from QUEUED to RUNNING, or ends: an ended job is never QUEUED or RUNNING
  -- again, a running one never QUEUED, and none becomes CANCELED.
  pub status_moves :
      (ws : List Write) (db : Db) (j : Job)
      → find_job id db ≡ some j
      → (j' : Job) × (find_job id (writes ws db) ≡ some j') × (may_move j.status j'.status ≡ true)
  unfolding writes
  status_moves [] db j f = (j, f, may_move_refl j.status)
  status_moves (w ∷ ws) db j f =
      let (k, g, m) = write-Moved w db j f in
      may_move-Moved (writes ws (write w db)) j k m (status_moves ws (write w db) k g)
