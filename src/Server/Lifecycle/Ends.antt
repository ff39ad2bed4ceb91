-- ===== src/Server/Lifecycle/Ends.antt =====
-- How a job and its session end (`session-exited` in
-- server/src/execution/execution-reconciler.service.ts, `markClosed` in
-- server/src/sessions/sessions.service.ts).
use pocket_dev.Base.{
  ℕ, String, ◌≡◌, refl, ap, ◌∙◌, zero, suc, Bool, false, ◌&&◌, Option, none, some, arith, eq_iff,
  ◌==◌, if◌then◌else◌, Bool-cases, Option-cases, inl, inr,
}
use pocket_dev.Worker.Events.{
  ExecutionTarget, SessionExited, SessionStatus, JobStatus, desktop, cloud, session_exited, active,
  closed, succeeded, failed,
}
use pocket_dev.Server.Db.{
  Db, Job, Session, find_unique-key, find_job, find_session, update_jobs, update_sessions,
  find-update, update_if,
}
use pocket_dev.Server.Sessions.{
  mark_closed, close_found, complete_desktop, is_pending, is_active, close_row, succeed_row,
}
use pocket_dev.Server.Reconciler.{on_event, exit_row}

session-update :
    (id : String) (p : Session → Bool) (f : Session → Session) (db : Db)
    → ((s : Session) → (f s).id ≡ s.id)
    → find_session id (update_sessions p f db) ≡ update_if p f (find_session id db)
session-update id p f db keep = find-update (λ (s : Session). s.id) id p f db.sessions keep

job-update :
    (id : String) (p : Job → Bool) (f : Job → Job) (db : Db)
    → ((j : Job) → (f j).id ≡ j.id)
    → find_job id (update_jobs p f db) ≡ update_if p f (find_job id db)
job-update id p f db keep = find-update (λ (j : Job). j.id) id p f db.jobs keep

-- The completion of a desktop job touches no session.
sessions_complete :
    (now : ℕ) (t : ExecutionTarget) (o : Option String) (db : Db)
    → (complete_desktop now t o db).sessions ≡ db.sessions
sessions_complete now desktop (some job_id) db = ground arith
sessions_complete now desktop none db = refl
sessions_complete now cloud o db = refl

unclosed :
    (id session_id : String) (now : ℕ) (db : Db)
    → find_session session_id db ≡ none
    → find_session id db
      ≡ update_if
          (λ s. (s.id == session_id) && is_active s.status)
          (close_row now)
          (find_session id db)
unclosed id session_id now db e = elim (Option-cases (find_session id db)) [
  | inl n ↦ rw n
  | inr (s, f) ↦
      let same = find_unique-key (λ (r : Session). r.id) id db.sessions f in
      let apart : ¬ (s.id ≡ session_id) = λ p. cc (e, f, same, p) in
      elim (Bool-cases (s.id == session_id)) [
        | inl y ↦ absurd (apart ((eq_iff s.id session_id).0 y))
        | inr n ↦ ground (arith, f)
      ]
]

ended_complete :
    (id : String) (now : ℕ) (t : ExecutionTarget) (o : Option String) (db : Db) (j : Job)
    → find_job id db ≡ some j
    → is_pending j.status ≡ false
    → find_job id (complete_desktop now t o db) ≡ some j
ended_complete id now desktop (some job_id) db j f e = elim (Bool-cases (job_id == "")) [
  | inl y ↦ rw y f
  | inr n ↦ rw n (job-update id _ (succeed_row now) db (λ i. refl) ∙ ground arith)
]
ended_complete id now desktop none db j f e = f
ended_complete id now cloud o db j f e = f

-- A session is closed by `markClosed`, and the time of the first close stays; others are untouched.
pub find-mark_closed :
    (id session_id : String) (now : ℕ) (db : Db)
    → find_session id (mark_closed session_id now db)
      ≡ update_if
          (λ s. (s.id == session_id) && is_active s.status)
          (close_row now)
          (find_session id db)
unfolding mark_closed
find-mark_closed id session_id now db = elim (Option-cases (find_session session_id db)) [
  | inl e ↦ rw e (unclosed id session_id now db e)
  | inr (s, e) ↦
      let closing =
        update_sessions (λ r. (r.id == session_id) && is_active r.status) (close_row now) db in
      rw e (
        rw (sessions_complete now s.target s.job_id closing)
          (session-update id _ (close_row now) db (λ r. refl)))
]

-- A job that has ended is not touched by the close of a session.
pub ended-mark_closed :
    (id session_id : String) (now : ℕ) (db : Db) (j : Job)
    → find_job id db ≡ some j
    → is_pending j.status ≡ false
    → find_job id (mark_closed session_id now db) ≡ some j
unfolding mark_closed
ended-mark_closed id session_id now db j f e = go (find_session session_id db)
  where
    go : (o : Option Session) → find_job id (close_found session_id now o db) ≡ some j
    go none = f
    go (some s) = ended_complete id now s.target s.job_id _ j f e

-- A session that is closed at this time, unless it was closed before.
abbrev pub ended : ℕ → SessionStatus → Session → Session
ended now active s = record s { status = closed; ended_at = some now }
ended now closed s = s

closed-ended :
    (now : ℕ) (s : Session)
    → (if is_active s.status then close_row now s else s) ≡ ended now s.status s
closed-ended now s = go s.status
  where
    go : (t : SessionStatus) → (if is_active t then close_row now s else s) ≡ ended now t s
    go active = refl
    go closed = refl

exit_row-code :
    (now code : ℕ) (j : Job)
    → exit_row code now j ≡ record j {
      status = elim code [ zero ↦ succeeded | suc _ ↦ failed ];
      exit_code = some code;
      finished_at = some now;
    }
exit_row-code now zero j = refl
exit_row-code now (suc code) j =
    ap
      (λ (t : JobStatus). record j {
        status = t;
        exit_code = some (suc code);
        finished_at = some now;
      })
      (ground arith)

-- The report of an exit ends the job, whatever its status was: succeeded with the code 0 and failed
-- with every other one, the code and the time in its row. It closes the session, keeping the end of
-- one that was closed already.
pub exit_settles :
    (now : ℕ) (e : SessionExited) (db : Db) (j : Job) (s : Session)
    → find_job e.job_id db ≡ some j
    → find_session e.session_id db ≡ some s
    → let after = on_event now (some (session_exited e)) db in
      (find_job e.job_id after
        ≡ some (record j {
          status = elim e.exit_code [ zero ↦ succeeded | suc _ ↦ failed ];
          exit_code = some e.exit_code;
          finished_at = some now;
        }))
      × (find_session e.session_id after ≡ some (ended now s.status s))
unfolding on_event
exit_settles now e db j s f g =
    let after_job = update_jobs (λ i. i.id == e.job_id) (exit_row e.exit_code now) db in
    let job_key = find_unique-key (λ (i : Job). i.id) e.job_id db.jobs f in
    let key = find_unique-key (λ (r : Session). r.id) e.session_id db.sessions g in
    let found : find_job e.job_id after_job ≡ some (exit_row e.exit_code now j) =
      job-update e.job_id (λ i. i.id == e.job_id) (exit_row e.exit_code now) db (λ i. refl)
      ∙ ground (arith, f, eq_iff j.id e.job_id) in
    (
      ended-mark_closed e.job_id e.session_id now after_job (exit_row e.exit_code now j) found
            (ground arith)
          ∙ ap some (exit_row-code now e.exit_code j),
      find-mark_closed e.session_id e.session_id now after_job
          ∙ ground (arith, g, eq_iff s.id e.session_id)
          ∙ ap some (closed-ended now s),
    )
