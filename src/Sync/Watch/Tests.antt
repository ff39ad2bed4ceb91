-- ===== src/Sync/Watch/Tests.antt =====
-- Tests and witnesses for the agent's commands (services/cli-agent/src/index.ts).
use pocket_dev.Base.{
  ◌≡◌, refl, ◌≤◌, arith, [], ◌∷◌, ◌++◌, true, false, none, some, count, codes, text_eq, ok,
}
use pocket_dev.Base.Patterns.{starts_with}
use pocket_dev.Sync.Serial.{is_start}
use pocket_dev.Sync.Watch.{
  Watcher, changed, tick, ended, run, step, to_ws, parsed_opts, resolve_auth, is_unwatched,
}
use pocket_dev.Sync.Watch.Debounce.{change_answered, burst_one_round}

secure_address : to_ws (codes "https://pocket.dev") ≡ codes "wss://pocket.dev"
unfolding to_ws starts_with
secure_address = refl

dependency_unwatched : is_unwatched (codes "/home/a/app/node_modules/x.js") ≡ true
unfolding is_unwatched text_eq
dependency_unwatched = refl

-- The variable with the server's address has no effect, since the option has a default.
api_url_unused :
    resolve_auth
      (parsed_opts (record { project = some (codes "p"); server = none; token = some (codes "t") }))
      (record { project = none; token = none; api_url = some (codes "https://pocket.dev") })
    ≡ ok
        (record { project_id = codes "p"; token = codes "t"; server = codes "ws://localhost:3000" })
unfolding resolve_auth starts_with
api_url_unused = refl

abbrev at_rest : Watcher
at_rest = record {
  watching = true;
  timer = none;
  serial = record { running = false; queued = false };
}

abbrev busy : Watcher
busy = record at_rest { serial = record { running = true; queued = false } }

-- A change during a round: the timer goes off before the round ends.
change_answered_example :
    1 ≤ count is_start (run 600 (changed 1000 ∷ tick 1600 ∷ ended ∷ ended ∷ []) busy).1
unfolding step
change_answered_example =
    change_answered 600 (tick 1600 ∷ ended ∷ ended ∷ []) busy 1000 refl (unfold run in refl)
      (unfold run in refl)

burst_one_round_example :
    count is_start
      (run 600
        (changed 1000 ∷ (tick 1300 ∷ changed 1500 ∷ tick 1900 ∷ []) ++ tick 2100 ∷ [])
        at_rest).1
    ≡ 1
burst_one_round_example =
    burst_one_round 600 (tick 1300 ∷ changed 1500 ∷ tick 1900 ∷ []) 1000 2100 at_rest refl refl
      (omega arith, (omega arith, tt)) (omega arith)
