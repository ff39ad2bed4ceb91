-- ===== src/Worker/Jobs/Slots.antt =====
-- How a job's wait ends (the promise of services/execution-worker/src/index.ts).
use mathlib.Core.Option.{some-injective}
use pocket_dev.Base.{
  ℕ, ◌-◌, String, ◌≡◌, ◌≢◌, refl, false, Option, none, some, List, [], ◌∷◌, arith, eq_iff, ◌==◌,
  Option-cases, Bool-cases, inl, inr, All,
}
use pocket_dev.Base.Dict.{get, get-put, get-erase}
use pocket_dev.Worker.Events.{session_exited}
use pocket_dev.Worker.Registry.{SessionEntry}
use pocket_dev.Worker.Jobs.{
  Slot, Job, Worker, Event, destroy_container, publish, provisioned, provision_failed, attach,
  release, kill_signal, connect_timeout, max_timeout, resumed, on_slot, on_entry, step, MayCome,
  run, Admissible, settle, fire, new_job, resume_job, exited_event,
}

-- The job is there, of this session and container, and its promise is resolved with the code.
pub record IsSettled (job : Job) (code : ℕ) (found : Job) : Type 0 where
  pub same_session : found.session_id ≡ job.session_id
  pub same_container : found.container_id ≡ job.container_id
  pub same_start : found.started ≡ job.started
  pub with_code : found.slot.settled ≡ some code

abbrev Holds : String → (Job → Type 0) → Worker → Type 0
Holds job_id P w = (job : Job) × (get job_id w.jobs ≡ some job) × P job

-- A job keeps `P` when a function on slots that keeps it is applied to any job.
abbrev KeepsSlot : (Job → Type 0) → (Slot → Slot) → Type 0
KeepsSlot P f = (job : Job) → P job → P (record job { slot = f job.slot })

module _ (P : Job → Type 0) (job_id : String) where
  slot-Holds :
      (f : Slot → Slot) (o : Option Job) (k : String) (w : Worker)
      → get k w.jobs ≡ o
      → KeepsSlot P f
      → Holds job_id P w
      → Holds job_id P (record w { jobs = on_slot f o k w.jobs })
  unfolding on_slot
  slot-Holds f none k w e keep h = h
  slot-Holds f (some other) k w e keep (job, g, p) = elim (Bool-cases (k == job_id)) [
    | inl same ↦
        let one : some other ≡ some job = ground (arith, eq_iff k job_id) in
        (
          record other { slot = f other.slot },
          ground (arith, get-put k job_id (record other { slot = f other.slot }) w.jobs),
          keep other (rw (some-injective _ _ one) p),
        )
    | inr apart ↦
        (job, ground (arith, get-put k job_id (record other { slot = f other.slot }) w.jobs), p)
  ]

  entry-Holds :
      (f : Slot → Slot) (o : Option SessionEntry) (w : Worker)
      → KeepsSlot P f
      → Holds job_id P w
      → Holds job_id P (on_entry f o w)
  entry-Holds f none w keep h = h
  entry-Holds f (some entry) w keep h = slot-Holds f _ entry.job_id w refl keep h

settle-keeps : (job : Job) (code now_code : ℕ) → KeepsSlot (IsSettled job code) (settle now_code)
unfolding settle
settle-keeps job code now_code found h = ground arith

-- The handler of this job does not go on in the event.
abbrev pub IsOther : String → Event → Type 0
IsOther job_id (resumed k _) = k ≢ job_id
IsOther job_id _ = Unit

resume-Holds :
    (P : Job → Type 0) (job_id k : String) (now : ℕ) (o : Option Job) (w : Worker)
    → k ≢ job_id
    → Holds job_id P w
    → Holds job_id P (resume_job k now o w).0
resume-Holds P job_id k now none w apart h = h
resume-Holds P job_id k now (some other) w apart (job, g, p) =
    elim (Option-cases other.slot.settled) [
      | inl e ↦ simp e (job, g, p)
      | inr (code, e) ↦ simp e (job, ground (arith, get-erase k job_id w.jobs, eq_iff k job_id), p)
    ]

step-IsSettled :
    (e : Event) (w : Worker) (job_id : String) (job : Job) (code : ℕ)
    → MayCome e w
    → IsOther job_id e
    → Holds job_id (IsSettled job code) w
    → Holds job_id (IsSettled job code) (step e w).0
unfolding step
step-IsSettled (provisioned d container_id started now) w job_id job code new _ (found, g, p) = (
  found,
  ground (
    arith,
    get-put d.job_id job_id (new_job d container_id started) w.jobs,
    eq_iff d.job_id job_id,
  ),
  p,
)
step-IsSettled (provision_failed d message now) w job_id job code _ _ h = h
step-IsSettled (attach session_id) w job_id job code _ _ h =
    entry-Holds (IsSettled job code) job_id (λ s. record s { connect_timer = false }) _ w
      (λ found p. ground arith) h
step-IsSettled (release session_id n) w job_id job code _ _ h =
    entry-Holds (IsSettled job code) job_id (settle n) _ w (settle-keeps job code n) h
step-IsSettled (kill_signal session_id) w job_id job code _ _ h =
    entry-Holds (IsSettled job code) job_id (settle 137) _ w (settle-keeps job code 137) h
step-IsSettled (connect_timeout k) w job_id job code _ _ h =
    slot-Holds (IsSettled job code) job_id (λ s. fire s.connect_timer 0 s) _ k w refl
      (λ found p. unfold settle in ground arith) h
step-IsSettled (max_timeout k) w job_id job code _ _ h =
    slot-Holds (IsSettled job code) job_id (λ s. fire s.max_timer 124 s) _ k w refl
      (λ found p. unfold settle in ground arith) h
step-IsSettled (resumed k now) w job_id job code _ other h =
    resume-Holds (IsSettled job code) job_id k now _ w other h

run-IsSettled :
    (es : List Event) (w : Worker) (job_id : String) (job : Job) (code : ℕ)
    → Admissible es w
    → All (IsOther job_id) es
    → Holds job_id (IsSettled job code) w
    → Holds job_id (IsSettled job code) (run es w).0
unfolding run
run-IsSettled [] w job_id job code a o h = h
run-IsSettled (e ∷ es) w job_id job code a o h =
    run-IsSettled es (step e w).0 job_id job code a.1 o.1
      (step-IsSettled e w job_id job code a.0 o.0 h)

resumed_publishes :
    (w : Worker) (job_id : String) (now code : ℕ) (job : Job)
    → Holds job_id (IsSettled job code) w
    → (step (resumed job_id now) w).1
      ≡ destroy_container job.container_id ∷ publish (exited_event job_id job code now) ∷ []
unfolding step
resumed_publishes w job_id now code job (found, g, p) =
    rw g (simp (p.with_code, p.same_session, p.same_container, p.same_start))

release-settled :
    (w : Worker) (session_id : String) (code : ℕ) (entry : SessionEntry) (job : Job)
    → get session_id w.registry ≡ some entry
    → get entry.job_id w.jobs ≡ some job
    → job.slot.settled ≡ none
    → Holds entry.job_id (IsSettled job code) (step (release session_id code) w).0
unfolding step settle
release-settled w session_id code entry job r g free =
    rw (r, g)
      (
        record job { slot = settle code job.slot },
        ground (
          arith,
          get-put entry.job_id entry.job_id (record job { slot = settle code job.slot }) w.jobs,
          eq_iff entry.job_id entry.job_id,
        ),
        ground arith,
      )

-- The first release of a waiting job decides: whatever callbacks come before its handler goes on,
-- further releases, kills and timers among them, its container is destroyed then and the exit is
-- published with the code of that release.
pub first_release_decides :
    (w : Worker) (session_id : String) (code now : ℕ) (entry : SessionEntry) (job : Job)
    (es : List Event)
    → get session_id w.registry ≡ some entry
    → get entry.job_id w.jobs ≡ some job
    → job.slot.settled ≡ none
    → Admissible es (step (release session_id code) w).0
    → All (IsOther entry.job_id) es
    → (step (resumed entry.job_id now) (run es (step (release session_id code) w).0).0).1
      ≡ destroy_container job.container_id
        ∷ publish (
            session_exited (record {
              job_id = entry.job_id;
              session_id = job.session_id;
              exit_code = code;
              duration_ms = now - job.started;
              at = now;
            }))
        ∷ []
first_release_decides w session_id code now entry job es r g free a o =
    resumed_publishes _ entry.job_id now code job (
      run-IsSettled es _ entry.job_id job code a o
        (release-settled w session_id code entry job r g free))
