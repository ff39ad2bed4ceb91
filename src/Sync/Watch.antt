-- ===== src/Sync/Watch.antt =====
-- The agent's commands (services/cli-agent/src/index.ts): the options, and the watcher, whose changes ask
-- for a round once the files have been quiet for a while.
pub mod Debounce
pub mod Tests
use pocket_dev.Base.{
  ℕ, ◌+◌, String, Text, codes, text_eq, Bool, true, false, ◌&&◌, ◌||◌, Option, none, some, List, [],
  ◌∷◌, ◌++◌, leb, any, nat_eq, if◌then◌else◌, get_or_else, Result, ok, err, Exception, failure,
}
use pocket_dev.Base.Patterns.{starts_with}
use pocket_dev.Files.Tree.{is_ignored}
use pocket_dev.Sync.Serial.{Serial, Effect, request_run, finish_run, start}

abbrev drop_four : Text → Text
drop_four (a ∷ b ∷ c ∷ d ∷ s) = s
drop_four s = s

-- `url.replace(/^http/i, 'ws')`
unfoldable pub to_ws : Text → Text
to_ws url = if starts_with (codes "http") url then codes "ws" ++ drop_four url else url

pub record CommonOpts : Type 0 where
  pub project : Option Text
  pub server : Option Text
  pub token : Option Text

-- The variables of the environment that the agent reads.
pub record AgentEnv : Type 0 where
  pub project : Option Text
  pub token : Option Text
  pub api_url : Option Text

pub record AgentAuth : Type 0 where
  pub project_id : Text
  pub token : Text
  pub server : Text

abbrev default_server : Text
default_server = codes "ws://localhost:3000"

-- `a ?? b`
abbrev or_else : Option Text → Option Text → Option Text
or_else (some a) b = some a
or_else none b = b

-- What commander makes of the options given: `--server` has a default.
abbrev pub parsed_opts : CommonOpts → CommonOpts
parsed_opts given = record given { server = some (get_or_else given.server default_server) }

abbrev checked_auth : Text → Text → Text → Result AgentAuth
checked_auth [] token server = err (failure "Missing --project (or POCKETDEV_PROJECT).")
checked_auth (c ∷ project_id) [] server =
    err (failure "Missing --token (or POCKETDEV_TOKEN). Log in to get a JWT.")
checked_auth (c ∷ project_id) (d ∷ token) server =
    ok (record { project_id = c ∷ project_id; token = d ∷ token; server = server })

-- `resolveAuth`; an error is an exit of the program.
unfoldable pub resolve_auth : CommonOpts → AgentEnv → Result AgentAuth
unfolding to_ws
resolve_auth opts env =
    checked_auth (get_or_else (or_else opts.project env.project) [])
      (get_or_else (or_else opts.token env.token) [])
      (to_ws (get_or_else (or_else opts.server env.api_url) default_server))

-- `p.split(/[\\/]/)`
unfoldable pub split_path : Text → List Text
split_path [] = [] ∷ []
split_path (c ∷ s) = elim (split_path s) [
  | [] ↦ (c ∷ []) ∷ []
  | f ∷ fs ↦ if nat_eq c b'/' || nat_eq c 0x5c then [] ∷ f ∷ fs else (c ∷ f) ∷ fs
]

-- The paths that the watcher does not look at.
unfoldable pub is_unwatched : Text → Bool
unfolding split_path is_ignored
is_unwatched path = any is_ignored (split_path path)

pub record Watcher : Type 0 where
  -- the first round has ended, and the files are watched
  pub watching : Bool
  -- when the timer goes off
  pub timer : Option ℕ
  pub serial : Serial

pub data Event : Type 0 where
  -- a file is added, changed or removed, at this time
  changed : ℕ → Event
  -- the timers are looked at
  tick : ℕ → Event
  -- a round has ended
  ended : Event

-- The first round runs before the files are watched.
abbrev pub launched : Watcher
launched = record {
  watching = false;
  timer = none;
  serial = record { running = true; queued = false };
}

abbrev with_serial : Watcher → Serial × List Effect → Watcher × List Effect
with_serial w (s, out) = (record w { serial = s }, out)

module _ (debounce_ms : ℕ) where
  -- `schedule`
  unfoldable pub schedule : ℕ → Watcher → Watcher
  schedule now w = if w.watching then record w { timer = some (now + debounce_ms) } else w

  -- The callback of the timer.
  abbrev fired : Bool → Watcher → Watcher × List Effect
  fired true w = with_serial (record w { timer = none }) (request_run w.serial)
  fired false w = (w, [])

  abbrev pub is_due : ℕ → Option ℕ → Bool
  is_due now none = false
  is_due now (some due) = leb due now

  unfoldable pub step : Event → Watcher → Watcher × List Effect
  unfolding schedule request_run finish_run
  step (changed now) w = (schedule now w, [])
  step (tick now) w = fired (is_due now w.timer) w
  step ended w = with_serial (record w { watching = true }) (finish_run w.serial)

  unfoldable pub run : List Event → Watcher → Watcher × List Effect
  run [] w = (w, [])
  run (e ∷ es) w = let (v, out) = step e w in let (u, rest) = run es v in (u, out ++ rest)
