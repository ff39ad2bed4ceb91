-- ===== src/Sync/Serial.antt =====
-- The serialized rounds of the watcher (`makeSerializedSync` of services/cli-agent/src/index.ts).
use pocket_dev.Base.{
  ℕ, zero, suc, ◌+◌, ◌≤◌, ◌≡◌, refl, Bool, true, false, List, [], ◌∷◌, ◌++◌, arith, count,
  count-append, if◌then◌else◌,
}

pub record Serial : Type 0 where
  pub running : Bool
  pub queued : Bool

pub data Event : Type 0 where
  -- `run` is called, and the round that runs has ended, well or not
  request finished : Event

pub data Effect : Type 0 where
  start end : Effect

abbrev pub idle : Serial
idle = record { running = false; queued = false }

-- `run` up to its await.
unfoldable pub request_run : Serial → Serial × List Effect
request_run s =
    if s.running
    then (record s { queued = true }, [])
    else (record s { running = true }, start ∷ [])

-- The `finally` of `run`; only a round that runs ends.
unfoldable pub finish_run : Serial → Serial × List Effect
unfolding request_run
finish_run s =
    if s.running
    then (if s.queued
        then (let (t, out) = request_run (record { running = false; queued = false }) in
            (t, end ∷ out))
        else (record s { running = false }, end ∷ []))
    else (s, [])

unfoldable pub step : Event → Serial → Serial × List Effect
unfolding request_run finish_run
step request s = request_run s
step finished s = finish_run s

unfoldable pub run : List Event → Serial → Serial × List Effect
run [] s = (s, [])
run (e ∷ es) s = let (t, out) = step e s in let (u, rest) = run es t in (u, out ++ rest)

abbrev pub is_start : Effect → Bool
is_start start = true
is_start end = false

abbrev pub is_end : Effect → Bool
is_end end = true
is_end start = false

abbrev in_flight : Serial → ℕ
in_flight s = if s.running then 1 else 0

step-balance :
    (e : Event) (s : Serial)
    → let (t, out) = step e s in in_flight s + count is_start out ≡ in_flight t + count is_end out
unfolding step
step-balance e s = ground arith

run-balance :
    (es : List Event) (s : Serial)
    → let (t, out) = run es s in in_flight s + count is_start out ≡ in_flight t + count is_end out
unfolding run
run-balance [] s = refl
run-balance (e ∷ es) s =
    let (t, out) = step e s in
    omega (
      arith,
      count-append is_start out (run es t).1,
      count-append is_end out (run es t).1,
      step-balance e s,
      run-balance es t,
    )

-- Rounds do not overlap: whatever is asked, in whatever order, the rounds that have started are those
-- that have ended, and one more while one runs.
pub one_at_a_time :
    (es : List Event)
    → let (s, out) = run es idle in
      count is_start out ≡ count is_end out + (if s.running then 1 else 0)
one_at_a_time es = omega (arith, run-balance es idle)

queued_starts :
    (es : List Event) (s : Serial)
    → s.running ≡ true
    → s.queued ≡ true
    → (run es s).0.running ≡ false
    → 1 ≤ count is_start (run es s).1
unfolding run step
queued_starts [] s r q h = absurd (cc (r, h))
queued_starts (request ∷ es) s r q h = ground (arith, queued_starts es (record s { queued = true }))
queued_starts (finished ∷ es) s r q h = ground arith

-- No request is lost: when the agent has come to rest, a round has started since the request.
pub request_answered :
    (es : List Event) (s : Serial)
    → (run (request ∷ es) s).0.running ≡ false
    → 1 ≤ count is_start (run (request ∷ es) s).1
unfolding run step
request_answered es s h = ground (arith, queued_starts es (record s { queued = true }))

unfoldable pub requests : ℕ → List Event
requests zero = []
requests (suc n) = request ∷ requests n

-- However many requests come while a round runs, one more round follows it.
pub burst_runs_once :
    (n : ℕ)
    → let burst : Serial = record { running = true; queued = false } in
      count is_start (run (requests (suc n) ++ finished ∷ []) burst).1 ≡ 1
unfolding run step requests
burst_runs_once n = waiting n
  where
    waiting :
        (k : ℕ)
        → count is_start
            (run (requests k ++ finished ∷ []) (record { running = true; queued = true })).1
          ≡ 1
    waiting zero = refl
    waiting (suc k) = waiting k
