-- ===== src/Sync/Watch/Debounce.antt =====
-- How the changes of files lead to rounds (services/cli-agent/src/index.ts).
use pocket_dev.Base.{
  ℕ, ◌+◌, ◌≤◌, ◌<◌, ◌≡◌, true, false, none, some, List, [], ◌∷◌, ◌++◌, arith, count, count-append,
}
use pocket_dev.Sync.Serial.{is_start}
use pocket_dev.Sync.Watch.{Watcher, Event, changed, tick, ended, schedule, step, run}

module _ (debounce_ms : ℕ) where
  -- A round that is queued starts before the agent comes to rest.
  queued_starts :
      (es : List Event) (w : Watcher)
      → w.serial.running ≡ true
      → w.serial.queued ≡ true
      → (run debounce_ms es w).0.serial.running ≡ false
      → 1 ≤ count is_start (run debounce_ms es w).1
  unfolding run step
  queued_starts [] w r q h = absurd (cc (r, h))
  queued_starts (e ∷ es) w r q h = ground (
    arith,
    queued_starts es (step debounce_ms e w).0,
    count-append is_start (step debounce_ms e w).1 (run debounce_ms es (step debounce_ms e w).0).1,
  )

  -- So does one that the timer is set for.
  armed_starts :
      (es : List Event) (w : Watcher) (due : ℕ)
      → w.watching ≡ true
      → w.timer ≡ some due
      → (run debounce_ms es w).0.timer ≡ none
      → (run debounce_ms es w).0.serial.running ≡ false
      → 1 ≤ count is_start (run debounce_ms es w).1
  unfolding run step
  armed_starts [] w due o t n r = absurd (cc (t, n))
  armed_starts (changed now ∷ es) w due o t n r =
      ground
        (arith, armed_starts es (record w { timer = some (now + debounce_ms) }) (now + debounce_ms))
  armed_starts (ended ∷ es) w due o t n r =
      let v = (step debounce_ms ended w).0 in
      ground (
        arith,
        armed_starts es v due,
        count-append is_start (step debounce_ms ended w).1 (run debounce_ms es v).1,
      )
  armed_starts (tick now ∷ es) w due o t n r =
      let v = (step debounce_ms (tick now) w).0 in
      ground (
        arith,
        armed_starts es v due,
        queued_starts es v,
        count-append is_start (step debounce_ms (tick now) w).1 (run debounce_ms es v).1,
      )

  -- No change is lost: once the files are watched, a round starts after every change before the agent comes
  -- to rest, with no timer set and no round running.
  pub change_answered :
      (es : List Event) (w : Watcher) (now : ℕ)
      → w.watching ≡ true
      → (run debounce_ms (changed now ∷ es) w).0.timer ≡ none
      → (run debounce_ms (changed now ∷ es) w).0.serial.running ≡ false
      → 1 ≤ count is_start (run debounce_ms (changed now ∷ es) w).1
  unfolding run step
  change_answered es w now o n r =
      ground
        (arith, armed_starts es (record w { timer = some (now + debounce_ms) }) (now + debounce_ms))

  -- Each change comes before the files have been quiet for the time of the timer; no round ends meanwhile.
  abbrev pub IsBurst : ℕ → List Event → Type 0
  IsBurst last [] = Unit
  IsBurst last (changed now ∷ es) = IsBurst now es
  IsBurst last (tick now ∷ es) = (now < last + debounce_ms) × IsBurst last es
  IsBurst last (ended ∷ es) = ⊥

  abbrev pub last_change : ℕ → List Event → ℕ
  last_change last [] = last
  last_change last (changed now ∷ es) = last_change now es
  last_change last (_ ∷ es) = last_change last es

  abbrev pub waiting : ℕ → Watcher
  waiting due = record {
    watching = true;
    timer = some due;
    serial = record { running = false; queued = false };
  }

  burst_waits :
      (es : List Event) (last now : ℕ)
      → IsBurst last es
      → last_change last es + debounce_ms ≤ now
      → count is_start (run debounce_ms (es ++ tick now ∷ []) (waiting (last + debounce_ms))).1 ≡ 1
  unfolding run step
  burst_waits [] last now b h = ground arith
  burst_waits (changed t ∷ es) last now b h = burst_waits es t now b h
  burst_waits (tick t ∷ es) last now b h = ground (arith, burst_waits es last now b.1 h)
  burst_waits (ended ∷ es) last now b h = elim b [ ]

  schedule_waiting :
      (first : ℕ) (w : Watcher)
      → w.watching ≡ true
      → w.serial ≡ record { running = false; queued = false }
      → schedule debounce_ms first w ≡ waiting (first + debounce_ms)
  unfolding schedule
  schedule_waiting first w o s = rw o (cc s)

  -- A burst of changes is one round: at an agent that waits for changes, changes that follow one another
  -- more quickly than the timer start no round, and the first look at the timer after it has gone off
  -- starts one.
  pub burst_one_round :
      (es : List Event) (first now : ℕ) (w : Watcher)
      → w.watching ≡ true
      → w.serial ≡ record { running = false; queued = false }
      → IsBurst first es
      → last_change first es + debounce_ms ≤ now
      → count is_start (run debounce_ms (changed first ∷ es ++ tick now ∷ []) w).1 ≡ 1
  unfolding run step
  burst_one_round es first now w o s b h =
      rw (schedule_waiting first w o s) (burst_waits es first now b h)
