-- ===== src/Worker/Registry.antt =====
-- The session registry and its polling wait (services/execution-worker/src/session-registry.ts).
use pocket_dev.Base.{
  ℕ, zero, suc, ◌+◌, ◌≤◌, ◌<◌, String, ◌≡◌, Bool, true, false, Option, none, some, arith, leb,
  Option-cases, Bool-cases, inl, inr,
}
use pocket_dev.Base.Dict.{Dict, get}

-- The callbacks `attached` and `release` of an entry are those of the job `job_id`.
pub record SessionEntry : Type 0 where
  pub session_id : String
  pub job_id : String
  pub user_id : String
  pub project_id : String
  pub container_id : String

abbrev pub Registry : Type 0
Registry = Dict SessionEntry

-- How a wait ends; `exhausted` is no behaviour of the code, it says that the fuel was too little.
pub data Waited : Type 0 where
  found : SessionEntry → Waited
  timed_out exhausted : Waited

add-two : (n : ℕ) → n + 2 ≡ suc (suc n)
add-two n = omega arith

-- One round: a hit, then the deadline, then the next round.
abbrev choose : Option SessionEntry → Bool → Waited → Waited
choose (some entry) late rest = found entry
choose none true rest = timed_out
choose none false rest = rest

-- `registry` and `clock` are what the rounds of the loop see, one after the other, from round `k` on.
module _ (registry : ℕ → Registry) (clock : ℕ → ℕ) (session_id : String) where
  poll : ℕ → ℕ → ℕ → Waited
  poll deadline zero k = exhausted
  poll deadline (suc fuel) k =
      let rest = poll deadline fuel (suc k) in
      choose (get session_id (registry k)) (leb deadline (clock k)) rest

  -- `waitFor`, called at the time `now`.
  pub wait_for : ℕ → ℕ → ℕ → Waited
  unfolding poll
  wait_for now timeout_ms fuel = poll (now + timeout_ms) fuel 0

  -- Round `j` finds the entry, and no round from `k` up to it did, or was past the deadline.
  pub record FoundAt (deadline k j : ℕ) (entry : SessionEntry) : Type 0 where
    pub reached : k ≤ j
    pub here : get session_id (registry j) ≡ some entry
    pub waiting :
        (i : ℕ) → k ≤ i → i < j → (get session_id (registry i) ≡ none) × (clock i < deadline)

  -- Round `j` is past the deadline and finds nothing, and no round before it was or did.
  pub record MissedAt (deadline k j : ℕ) : Type 0 where
    pub reached : k ≤ j
    pub missing : get session_id (registry j) ≡ none
    pub late : deadline ≤ clock j
    pub waiting :
        (i : ℕ) → k ≤ i → i < j → (get session_id (registry i) ≡ none) × (clock i < deadline)

  -- What a result says of the rounds from `k` on.
  abbrev pub Outcome : ℕ → ℕ → Waited → Type 0
  Outcome deadline k (found entry) = (j : ℕ) × FoundAt deadline k j entry
  Outcome deadline k timed_out = (j : ℕ) × MissedAt deadline k j
  Outcome deadline k exhausted = ⊥

  -- Before a round that found nothing and was in time, the same outcome.
  earlier :
      (deadline k : ℕ) (w : Waited)
      → get session_id (registry k) ≡ none
      → clock k < deadline
      → Outcome deadline (suc k) w
      → Outcome deadline k w
  earlier deadline k (found entry) p q (j, f) = (
    j,
    record {
      reached = omega (arith, f.reached);
      here = f.here;
      waiting = λ i h l. ground (arith, f.waiting i);
    },
  )
  earlier deadline k timed_out p q (j, f) = (
    j,
    record {
      reached = omega (arith, f.reached);
      missing = f.missing;
      late = f.late;
      waiting = λ i h l. ground (arith, f.waiting i);
    },
  )
  earlier deadline k exhausted p q h = h

  round-Outcome :
      (deadline k : ℕ) (rest : Waited)
      → (clock k < deadline → Outcome deadline (suc k) rest)
      → Outcome deadline k (choose (get session_id (registry k)) (leb deadline (clock k)) rest)
  round-Outcome deadline k rest next = elim (Option-cases (get session_id (registry k))) [
    | inr (entry, e) ↦
        rw e
          (k, record { reached = omega arith; here = e; waiting = λ i a b. absurd (omega arith) })
    | inl e ↦ elim (Bool-cases (leb deadline (clock k))) [
      | inl late ↦
          rw (e, late)
            (
              k,
              record {
                reached = omega arith;
                missing = e;
                late = ground arith;
                waiting = λ i a b. absurd (omega arith);
              },
            )
      | inr early ↦
          let in_time : clock k < deadline = ground arith in
          rw (e, early) (earlier deadline k rest e in_time (next in_time))
    ]
  ]

  poll-Outcome :
      (deadline fuel k : ℕ)
      → ((i : ℕ) → clock i < clock (suc i))
      → deadline < clock k + fuel
      → Outcome deadline k (poll deadline (suc fuel) k)
  unfolding poll
  poll-Outcome deadline zero k ticks h = round-Outcome deadline k exhausted (λ l. omega arith)
  poll-Outcome deadline (suc f) k ticks h =
      round-Outcome deadline k (poll deadline (suc f) (suc k))
        (λ _. poll-Outcome deadline f (suc k) ticks (omega (arith, ticks k)))

  -- With a clock that moves on between two rounds, the wait ends: it gives the entry of the first
  -- round that finds the session, if no earlier round was past the deadline, and otherwise times
  -- out at the first round past the deadline. `timeout_ms + 2` rounds are
  -- enough.
  pub wait_for_ends :
      (now timeout_ms : ℕ)
      → now ≤ clock 0
      → ((i : ℕ) → clock i < clock (suc i))
      → Outcome (now + timeout_ms) 0 (wait_for now timeout_ms (timeout_ms + 2))
  unfolding wait_for
  wait_for_ends now timeout_ms begun ticks =
      rw (add-two timeout_ms)
        (poll-Outcome (now + timeout_ms) (suc timeout_ms) 0 ticks (omega (arith, begun)))
