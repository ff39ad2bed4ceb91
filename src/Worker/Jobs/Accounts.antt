-- ===== src/Worker/Jobs/Accounts.antt =====
-- Containers are not leaked (services/execution-worker/src/index.ts).
use pocket_dev.Base.{
  ℕ, ◌+◌, String, ◌≡◌, refl, Bool, false, Option, none, some, List, [], ◌∷◌, arith, count,
  count-append, ◌==◌, eq_iff, if◌then◌else◌, Bool-cases, Option-cases, inl, inr,
}
use mathlib.Core.Option.{some-injective}
use pocket_dev.Base.Dict.{
  Dict, get, put, erase, IsDistinct, put-IsDistinct, erase-IsDistinct, erase-absent,
}
use pocket_dev.Worker.Jobs.{
  Slot, Job, Worker, Effect, Event, create_container, destroy_container, provisioned,
  provision_failed, attach, release, kill_signal, connect_timeout, max_timeout, resumed, on_slot,
  on_entry, step, MayCome, run, Admissible, idle, new_job, resume_job,
}
use pocket_dev.Worker.Registry.{SessionEntry}

abbrev pub is_create : String → Effect → Bool
is_create id (create_container c) = c == id
is_create id _ = false

abbrev pub is_destroy : String → Effect → Bool
is_destroy id (destroy_container c) = c == id
is_destroy id _ = false

-- The jobs that hold this container.
abbrev pub holders : String → Dict Job → ℕ
holders id jobs = count (λ entry. entry.1.container_id == id) jobs

holders-put_new :
    (id k : String) (job : Job) (jobs : Dict Job)
    → get k jobs ≡ none
    → holders id (put k job jobs) ≡ (if job.container_id == id then 1 else 0) + holders id jobs
unfolding get put
holders-put_new id k job [] h = ground arith
holders-put_new id k job ((j, other) ∷ jobs) h = ground (arith, holders-put_new id k job jobs)

holders-put_same :
    (id k : String) (job old : Job) (jobs : Dict Job)
    → get k jobs ≡ some old
    → job.container_id ≡ old.container_id
    → holders id (put k job jobs) ≡ holders id jobs
unfolding get put
holders-put_same id k job old [] h same = absurd (cc h)
holders-put_same id k job old ((j, other) ∷ jobs) h same = elim (Bool-cases (j == k)) [
  | inl here ↦
      let one : other ≡ old = some-injective _ _ (rw here at h) in rw (here, same) (rw one refl)
  | inr apart ↦
      rw apart
        (let rest = holders-put_same id k job old jobs (rw apart at h) same in ground (arith, rest))
]

holders-erase :
    (id k : String) (job : Job) (jobs : Dict Job)
    → IsDistinct jobs
    → get k jobs ≡ some job
    → holders id jobs ≡ (if job.container_id == id then 1 else 0) + holders id (erase k jobs)
unfolding get erase
holders-erase id k job [] d h = absurd (cc h)
holders-erase id k job ((j, other) ∷ jobs) d h = elim (Bool-cases (j == k)) [
  | inl here ↦
      let one : other ≡ job = some-injective _ _ (rw here at h) in
      let gone = erase-absent k jobs (rw ((eq_iff j k).0 here) at d.0) in
      rw (here, gone) (rw one (ground arith))
  | inr apart ↦
      rw apart (let rest = holders-erase id k job jobs d.1 (rw apart at h) in ground (arith, rest))
]

module _ (id : String) where
  -- The jobs stay distinct, and a step that has these effects goes from the one count to the other.
  record Accounts (before after : Dict Job) (out : List Effect) : Type 0 where
    distinct : IsDistinct after
    balance :
        count (is_create id) out + holders id before ≡ count (is_destroy id) out + holders id after

  Quiet : (jobs : Dict Job) → IsDistinct jobs → Accounts jobs jobs []
  Quiet jobs d = record { distinct = d; balance = refl }

  slot-Accounts :
      (f : Slot → Slot) (o : Option Job) (job_id : String) (jobs : Dict Job)
      → get job_id jobs ≡ o
      → IsDistinct jobs
      → Accounts jobs (on_slot f o job_id jobs) []
  unfolding on_slot
  slot-Accounts f none job_id jobs e d = Quiet jobs d
  slot-Accounts f (some job) job_id jobs e d = record {
    distinct = put-IsDistinct job_id _ jobs d;
    balance =
        omega
          (arith, holders-put_same id job_id (record job { slot = f job.slot }) job jobs e refl);
  }

  entry-Accounts :
      (f : Slot → Slot) (o : Option SessionEntry) (w : Worker)
      → IsDistinct w.jobs
      → Accounts w.jobs (on_entry f o w).jobs []
  entry-Accounts f none w d = Quiet w.jobs d
  entry-Accounts f (some entry) w d = slot-Accounts f _ entry.job_id w.jobs refl d

  resume-Accounts :
      (job_id : String) (now : ℕ) (o : Option Job) (w : Worker)
      → get job_id w.jobs ≡ o
      → IsDistinct w.jobs
      → let (v, out) = resume_job job_id now o w in Accounts w.jobs v.jobs out
  resume-Accounts job_id now none w e d = Quiet w.jobs d
  resume-Accounts job_id now (some job) w e d = elim (Option-cases job.slot.settled) [
    | inl p ↦ simp p (Quiet w.jobs d)
    | inr (code, p) ↦ simp p (record {
      distinct = erase-IsDistinct job_id w.jobs d;
      balance = ground (arith, holders-erase id job_id job w.jobs d e);
    })
  ]

  step-Accounts :
      (e : Event) (w : Worker)
      → IsDistinct w.jobs
      → MayCome e w
      → let (v, out) = step e w in Accounts w.jobs v.jobs out
  unfolding step
  step-Accounts (provisioned d container_id started now) w h new = record {
    distinct = put-IsDistinct d.job_id _ w.jobs h;
    balance =
        ground (arith, holders-put_new id d.job_id (new_job d container_id started) w.jobs new);
  }
  step-Accounts (provision_failed d message now) w h _ = record { distinct = h; balance = refl }
  step-Accounts (attach session_id) w h _ = entry-Accounts _ _ w h
  step-Accounts (release session_id code) w h _ = entry-Accounts _ _ w h
  step-Accounts (kill_signal session_id) w h _ = entry-Accounts _ _ w h
  step-Accounts (connect_timeout job_id) w h _ = slot-Accounts _ _ job_id w.jobs refl h
  step-Accounts (max_timeout job_id) w h _ = slot-Accounts _ _ job_id w.jobs refl h
  step-Accounts (resumed job_id now) w h _ = resume-Accounts job_id now _ w refl h

  run-Accounts :
      (es : List Event) (w : Worker)
      → IsDistinct w.jobs
      → Admissible es w
      → let (v, out) = run es w in Accounts w.jobs v.jobs out
  unfolding run
  run-Accounts [] w h a = Quiet w.jobs h
  run-Accounts (e ∷ es) w h a =
      let (v, out) = step e w in
      let first = step-Accounts e w h a.0 in
      let rest = run-Accounts es v first.distinct a.1 in
      record {
        distinct = rest.distinct;
        balance = omega (
          arith,
          first.balance,
          rest.balance,
          count-append (is_create id) out (run es v).1,
          count-append (is_destroy id) out (run es v).1,
        );
      }

-- Whatever callbacks come, every container that was created is destroyed or is held by a job that
-- still occupies its concurrency slot: of each container, as many creations have come as destructions of
-- this very container and jobs that hold it.
pub containers_accounted :
    (es : List Event) (id : String)
    → Admissible es idle
    → let (w, out) = run es idle in
      count (is_create id) out ≡ count (is_destroy id) out + holders id w.jobs
containers_accounted es id a = omega (arith, (run-Accounts id es idle tt a).balance)
