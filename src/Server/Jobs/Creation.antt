-- ===== src/Server/Jobs/Creation.antt =====
-- What the creation of a job leaves behind (server/src/jobs/jobs.service.ts).
use pocket_dev.Base.{
  ℕ, String, ◌≡◌, ◌≢◌, refl, ap, true, Option, none, some, List, [], ◌∷◌, ◌++◌, arith, Result, ok,
  err, Exception, Bool-cases, inl, inr, get_or_else, ◌==◌, if◌then◌else◌,
}
use pocket_dev.Pty.Token.{Payload, jwt_verifier, Carries, verifier_exact}
use pocket_dev.Worker.Events.{
  ExecutionTarget, RunCommandJobData, cloud, desktop, active, running, queued,
}
use pocket_dev.Server.Db.{
  Db, Job, Session, Api, find_job, find_session, find-update_key, find-append_new, QueuedJob,
}
use pocket_dev.Server.Quota.{enforce_quota}
use pocket_dev.Server.Desktop.{Route, resolve_target}
use pocket_dev.Server.Jobs.{
  ExecutionConfig, CreateJob, StartSessionResponse, FreshIds, pty_payload, owns, new_job,
  mint_pty_token, launch, after_quota, create, find_project,
}

-- The quota writes to no job and no session, and a refusal writes nothing.
quota_tables :
    (user_id : String) (now : ℕ) (db : Db)
    → ((enforce_quota user_id now db).1.jobs ≡ db.jobs)
      × ((enforce_quota user_id now db).1.sessions ≡ db.sessions)
unfolding enforce_quota
quota_tables user_id now db = ground arith

refused_unchanged :
    (user_id : String) (now : ℕ) (db : Db) (e : Exception)
    → (enforce_quota user_id now db).0 ≡ err e
    → (enforce_quota user_id now db).1 ≡ db
unfolding enforce_quota
refused_unchanged user_id now db e h = ground arith

module _ (sign : Payload → String → String) (config : ExecutionConfig) (ids : FreshIds)
    (user_id tier : String) (dto : CreateJob) (now : ℕ) where
  abbrev pub created : Api → Result StartSessionResponse × Api
  created a = create sign config ids user_id tier dto now a

  -- What a creation that succeeds did.
  record Launched (a : Api) (r : StartSessionResponse) : Type 0 where
    owned : owns user_id (find_project dto.project_id a.db) ≡ true
    paid_for : (enforce_quota user_id now a.db).0 ≡ ok tt
    launched :
        let db = (enforce_quota user_id now a.db).1 in
        let route = resolve_target config.desktop_heartbeat_window_ms user_id now db in
        let (response, b) =
          launch sign config ids user_id tier dto now route (record a { db = db }) in
        (r ≡ response) × ((created a).1 ≡ b)

  quota-Launched :
      (a : Api) (q : Result (Unit {0}) × Db) (r : StartSessionResponse)
      → (after_quota sign config ids user_id tier dto now a q).0 ≡ ok r
      → (q.0 ≡ ok tt)
        × (let route = resolve_target config.desktop_heartbeat_window_ms user_id now q.1 in
            let (response, b) =
              launch sign config ids user_id tier dto now route (record a { db = q.1 }) in
            (r ≡ response) × ((after_quota sign config ids user_id tier dto now a q).1 ≡ b))
  quota-Launched a (ok tt, db) r h = (refl, (ground arith, refl))
  quota-Launched a (err e, db) r h = absurd (cc h)

  create-Launched : (a : Api) (r : StartSessionResponse) → (created a).0 ≡ ok r → Launched a r
  unfolding create
  create-Launched a r h = elim (Bool-cases (owns user_id (find_project dto.project_id a.db))) [
    | inl mine ↦
        let (p, q) = quota-Launched a (enforce_quota user_id now a.db) r (rw mine at h) in
        record { owned = mine; paid_for = p; launched = rw mine q }
    | inr other ↦ absurd (ground arith)
  ]

  quota-failed :
      (a : Api) (e : Exception) (q : Result (Unit {0}) × Db)
      → ((x : Exception) → q.0 ≡ err x → q.1 ≡ a.db)
      → (after_quota sign config ids user_id tier dto now a q).0 ≡ err e
      → (after_quota sign config ids user_id tier dto now a q).1 ≡ a
  quota-failed a e (ok tt, db) keep h = absurd (cc h)
  quota-failed a e (err x, db) keep h = ap (λ d. record a { db = d }) (keep x refl)

  -- A creation that fails leaves everything as it was.
  pub failed_creation_keeps : (a : Api) (e : Exception) → (created a).0 ≡ err e → (created a).1 ≡ a
  unfolding create
  failed_creation_keeps a e h =
      elim (Bool-cases (owns user_id (find_project dto.project_id a.db))) [
        | inl mine ↦ rw mine (
            quota-failed a e (enforce_quota user_id now a.db) (refused_unchanged user_id now a.db)
              (rw mine at h))
        | inr other ↦ rw other
      ]

  -- The row of the job.
  abbrev pub left_job : ExecutionTarget → Job
  left_job desktop = record {
    id = ids.job_id;
    project_id = dto.project_id;
    user_id = user_id;
    command = dto.command;
    status = running;
    target = desktop;
    queue_job_id = none;
    exit_code = none;
    created_at = now;
    started_at = some now;
    finished_at = none;
  }
  left_job cloud = record {
    id = ids.job_id;
    project_id = dto.project_id;
    user_id = user_id;
    command = dto.command;
    status = queued;
    target = cloud;
    queue_job_id = some ids.queue_id;
    exit_code = none;
    created_at = now;
    started_at = none;
    finished_at = none;
  }

  -- What the worker is given.
  abbrev pub left_data : RunCommandJobData
  left_data = record {
    job_id = ids.job_id;
    session_id = ids.session_id;
    project_id = dto.project_id;
    user_id = user_id;
    command = some dto.command;
    target = cloud;
  }

  -- Who pays is served first.
  abbrev pub left_queued : QueuedJob
  left_queued = record {
    payload = left_data;
    priority = if tier == "PAID" then 1 else 10;
    queue_id = ids.queue_id;
  }

  abbrev pub left_queue : ExecutionTarget → List QueuedJob → List QueuedJob
  left_queue desktop q = q
  left_queue cloud q = q ++ left_queued ∷ []

  abbrev pub new_session : ExecutionTarget → Session
  new_session target = record {
    id = ids.session_id;
    job_id = some ids.job_id;
    project_id = dto.project_id;
    user_id = user_id;
    target = target;
    status = active;
    container_id = none;
    started_at = now;
    ended_at = none;
  }

  abbrev pub Leaves : ExecutionTarget → List QueuedJob → Api → Type 0
  Leaves target queue b =
      (find_job ids.job_id b.db ≡ some (left_job target))
      × (find_session ids.session_id b.db ≡ some (new_session target))
      × (b.queue ≡ left_queue target queue)

  launch-Leaves :
      (target : ExecutionTarget) (url : Option String) (a : Api)
      → find_job ids.job_id a.db ≡ none
      → find_session ids.session_id a.db ≡ none
      → let route : Route = record { target = target; tunnel_url = url } in
        Leaves target a.queue (launch sign config ids user_id tier dto now route a).1
  unfolding launch
  launch-Leaves desktop url a f g = (
    find-append_new (λ (j : Job). j.id) (new_job ids user_id dto desktop now) a.db.jobs f,
    find-append_new (λ (s : Session). s.id) (new_session desktop) a.db.sessions g,
    refl,
  )
  launch-Leaves cloud url a f g = (
    find-update_key (λ (j : Job). j.id) ids.job_id
        (λ j. record j { queue_job_id = some ids.queue_id })
        (a.db.jobs ++ new_job ids user_id dto cloud now ∷ []) (λ j. refl)
        (find-append_new (λ (j : Job). j.id) (new_job ids user_id dto cloud now) a.db.jobs f),
    find-append_new (λ (s : Session). s.id) (new_session cloud) a.db.sessions g,
    refl,
  )

  pub create-Leaves :
      (a : Api) (r : StartSessionResponse)
      → (created a).0 ≡ ok r
      → find_job ids.job_id a.db ≡ none
      → find_session ids.session_id a.db ≡ none
      → (owns user_id (find_project dto.project_id a.db) ≡ true)
        × Leaves r.target a.queue (created a).1
  create-Leaves a r h f g =
      let done = create-Launched a r h in
      let db = (enforce_quota user_id now a.db).1 in
      let route = resolve_target config.desktop_heartbeat_window_ms user_id now db in
      let (same_jobs, same_sessions) = quota_tables user_id now a.db in
      let left : Leaves route.target a.queue (created a).1 = rw (done.launched.1) (
        launch-Leaves route.target route.tunnel_url (record a { db = db }) (rw same_jobs f)
          (rw same_sessions g)) in
      let target : r.target ≡ route.target = rw (done.launched.0) (unfold launch in refl) in
      (done.owned, rw target left)

  pub created_session :
      (a : Api) (r : StartSessionResponse) → (created a).0 ≡ ok r → r.session_id ≡ ids.session_id
  created_session a r h = rw ((create-Launched a r h).launched.0) (unfold launch in refl)

  -- The token of the answer.
  pub created_token :
      (a : Api) (r : StartSessionResponse)
      → (created a).0 ≡ ok r
      → r.ws_token ≡ mint_pty_token sign config user_id ids.session_id dto.project_id
  created_token a r h = rw ((create-Launched a r h).launched.0) (unfold launch in refl)

  -- The token of a creation that succeeds is accepted by the terminal servers, as the user's own
  -- for this session and project, where decoding gives back what was signed, and that is not empty.
  pub created_token_verifies :
      (decode : String → Option Payload) (a : Api) (r : StartSessionResponse)
      → ((ttl : String)
          → decode (sign (pty_payload user_id ids.session_id dto.project_id) ttl)
            ≡ some (pty_payload user_id ids.session_id dto.project_id))
      → ((ttl : String) → sign (pty_payload user_id ids.session_id dto.project_id) ttl ≢ "")
      → (created a).0 ≡ ok r
      → jwt_verifier decode r.ws_token
        ≡ some (record { sub = user_id; session_id = r.session_id; project_id = dto.project_id })
  created_token_verifies decode a r decodes filled h =
      let done = create-Launched a r h in
      let p = pty_payload user_id ids.session_id dto.project_id in
      let ttl = get_or_else config.ws_token_ttl "5m" in
      let carried : Carries p _ = record {
        scope_pty = refl;
        sub_text = refl;
        session_text = refl;
        project_text = refl;
      } in
      rw (done.launched.0) (
        unfold launch mint_pty_token in
        (verifier_exact decode (sign p ttl) p _ (decodes ttl)).1 (filled ttl, carried))
