-- ===== src/Worker/Jobs/Timers.antt =====
-- The timers of a job (services/execution-worker/src/index.ts): no job waits for ever.
use pocket_dev.Base.{
  ℕ, String, ◌≡◌, refl, Bool, true, false, Option, none, some, List, [], ◌∷◌, arith, eq_iff,
  eq_refl, ◌==◌, Option-cases, Bool-cases, inl, inr, is_some,
}
use pocket_dev.Base.Dict.{get, get-put, get-erase}
use pocket_dev.Worker.Registry.{SessionEntry}
use pocket_dev.Worker.Jobs.{
  Slot, Job, Worker, Event, provisioned, provision_failed, attach, release, kill_signal,
  connect_timeout, max_timeout, resumed, on_slot, on_entry, step, run, idle, settle, fire, new_job,
  resume_job,
}

-- A slot whose promise is not resolved has its wall-clock timer armed; a resolved one has none armed.
pub record IsTimed (s : Slot) : Type 0 where
  pub capped : s.settled ≡ none → s.max_timer ≡ true
  pub cleared : is_some s.settled ≡ true → (s.connect_timer ≡ false) × (s.max_timer ≡ false)

abbrev AllTimed : Worker → Type 0
AllTimed w = (k : String) (job : Job) → get k w.jobs ≡ some job → IsTimed job.slot

KeepsTimed : (Slot → Slot) → Type 0
KeepsTimed f = (s : Slot) → IsTimed s → IsTimed (f s)

slot-AllTimed :
    (f : Slot → Slot) (o : Option Job) (k : String) (w : Worker)
    → get k w.jobs ≡ o
    → KeepsTimed f
    → AllTimed w
    → AllTimed (record w { jobs = on_slot f o k w.jobs })
unfolding on_slot KeepsTimed
slot-AllTimed f none k w e keep all = all
slot-AllTimed f (some other) k w e keep all = λ j job g.
    let stored = record other { slot = f other.slot } in
    elim (Bool-cases (k == j)) [
      | inl same ↦
          let one : some stored ≡ some job = ground (arith, get-put k j stored w.jobs) in
          let kept = keep other.slot (all k other e) in ground arith
      | inr apart ↦ all j job (ground (arith, get-put k j stored w.jobs))
    ]

entry-AllTimed :
    (f : Slot → Slot) (o : Option SessionEntry) (w : Worker)
    → KeepsTimed f
    → AllTimed w
    → AllTimed (on_entry f o w)
entry-AllTimed f none w keep all = all
entry-AllTimed f (some entry) w keep all = slot-AllTimed f _ entry.job_id w refl keep all

resume-AllTimed :
    (k : String) (now : ℕ) (o : Option Job) (w : Worker)
    → AllTimed w
    → AllTimed (resume_job k now o w).0
resume-AllTimed k now none w all = all
resume-AllTimed k now (some other) w all = elim (Option-cases other.slot.settled) [
  | inl e ↦ simp e all
  | inr (code, e) ↦ simp e (λ j job g. all j job (ground (arith, get-erase k j w.jobs)))
]

settle-KeepsTimed : (code : ℕ) → KeepsTimed (settle code)
unfolding settle KeepsTimed
settle-KeepsTimed code s h = ground arith

fire-KeepsTimed : (timer : Slot → Bool) (code : ℕ) → KeepsTimed (λ s. fire (timer s) code s)
unfolding settle KeepsTimed
fire-KeepsTimed timer code s h = ground arith

attach-KeepsTimed : KeepsTimed (λ s. record s { connect_timer = false })
unfolding KeepsTimed
attach-KeepsTimed s h = ground arith

step-AllTimed : (e : Event) (w : Worker) → AllTimed w → AllTimed (step e w).0
unfolding step
step-AllTimed (provisioned d container_id started now) w all = λ k job g.
    elim (Bool-cases (d.job_id == k)) [
      | inl same ↦
          let one : some (new_job d container_id started) ≡ some job =
            ground (arith, get-put d.job_id k (new_job d container_id started) w.jobs) in
          ground arith
      | inr apart ↦
          all k job (ground (arith, get-put d.job_id k (new_job d container_id started) w.jobs))
    ]
step-AllTimed (provision_failed d message now) w all = all
step-AllTimed (attach session_id) w all = entry-AllTimed _ _ w attach-KeepsTimed all
step-AllTimed (release session_id code) w all = entry-AllTimed _ _ w (settle-KeepsTimed code) all
step-AllTimed (kill_signal session_id) w all = entry-AllTimed _ _ w (settle-KeepsTimed 137) all
step-AllTimed (connect_timeout k) w all =
    slot-AllTimed _ _ k w refl (fire-KeepsTimed (λ s. s.connect_timer) 0) all
step-AllTimed (max_timeout k) w all =
    slot-AllTimed _ _ k w refl (fire-KeepsTimed (λ s. s.max_timer) 124) all
step-AllTimed (resumed k now) w all = resume-AllTimed k now _ w all

run-AllTimed : (es : List Event) (w : Worker) → AllTimed w → AllTimed (run es w).0
unfolding run
run-AllTimed [] w all = all
run-AllTimed (e ∷ es) w all = run-AllTimed es (step e w).0 (step-AllTimed e w all)

AllTimed-idle : AllTimed idle
unfolding get
AllTimed-idle k job g = absurd (cc g)

timeout-settles :
    (w : Worker) (job_id : String) (job : Job)
    → get job_id w.jobs ≡ some job
    → job.slot.settled ≡ none
    → job.slot.max_timer ≡ true
    → (after : Job) × (get job_id (step (max_timeout job_id) w).0.jobs ≡ some after)
      × (after.slot.settled ≡ some 124)
unfolding step settle
timeout-settles w job_id job g free armed =
    let after = record job { slot = fire job.slot.max_timer 124 job.slot } in
    (
      after,
      rw g (ground (arith, get-put job_id job_id after w.jobs, eq_iff job_id job_id)),
      ground arith,
    )

-- No job waits for ever: however the worker came to hold it, a job whose promise is not resolved has
-- its wall-clock timer armed, and when that fires the job ends with 124.
pub never_held_forever :
    (es : List Event) (job_id : String) (job : Job)
    → get job_id (run es idle).0.jobs ≡ some job
    → job.slot.settled ≡ none
    → (job.slot.max_timer ≡ true)
      × ((after : Job) × (get job_id (step (max_timeout job_id) (run es idle).0).0.jobs
            ≡ some after)
          × (after.slot.settled ≡ some 124))
never_held_forever es job_id job g free =
    let armed = (run-AllTimed es idle AllTimed-idle job_id job g).capped free in
    (armed, timeout-settles (run es idle).0 job_id job g free armed)

-- Once the client has attached, the timer that waits for it no longer ends the job.
pub attached_outlives_connect_timeout :
    (w : Worker) (session_id : String) (entry : SessionEntry) (job : Job)
    → get session_id w.registry ≡ some entry
    → get entry.job_id w.jobs ≡ some job
    → job.slot.settled ≡ none
    → (after : Job) × (get entry.job_id
          (run (attach session_id ∷ connect_timeout entry.job_id ∷ []) w).0.jobs
        ≡ some after)
      × (after.slot.settled ≡ none)
unfolding run step settle
attached_outlives_connect_timeout w session_id entry job r g free = (
  record job { slot = record job.slot { connect_timer = false } },
  simp (r, g, get-put, eq_refl),
  free,
)
