-- ===== src/Agent/Presence.antt =====
-- What the desktop agent tells the server (services/desktop-agent/src/index.ts: `heartbeat`,
-- `closeSession`, `goOffline` and `shutdown`), together with the server that hears it
-- (server/src/desktop, server/src/sessions). A request that is sent is on the way until it arrives, and
-- requests arrive in any order. One agent speaks for a user, and its token does not expire.
pub mod Requests
pub mod Lease
pub mod Leaving
mod Tests
use pocket_dev.Base.{
  ℕ, zero, suc, String, Bool, true, false, Option, none, some, List, [], ◌∷◌, ◌++◌, ◌==◌,
  if◌then◌else◌, Result, ok,
}
use pocket_dev.Pty.Token.{Payload, Claim, text}
use pocket_dev.Server.Db.{Db, Api}
use pocket_dev.Server.Desktop.{heartbeat, offline}
use pocket_dev.Server.Sessions.{close}
use pocket_dev.Server.Guard.{AuthUser, can_activate}

-- The members of `config` that count here.
pub record AgentConfig : Type 0 where
  pub token : String
  pub tunnel_url : Option String

pub data Request : Type 0 where
  heartbeat_request : Option String → Request
  close_request : String → Request
  offline_request : Request

pub record Presence : Type 0 where
  -- the interval is set
  pub timer : Bool
  pub on_the_way : List Request
  pub api : Api

pub data Event : Type 0 where
  interval terminated : Event
  session_exit : String → Event
  -- the request of this number on the way arrives, at this time
  arrived : ℕ → ℕ → Event

-- The user of a request, whose id is a string.
abbrev caller_of : Claim → Option String
caller_of (text user_id) = some user_id
caller_of _ = none

abbrev caller : Result (Option AuthUser) → Option String
caller (ok (some u)) = caller_of u.user_id
caller _ = none

unfoldable pub take_out : ℕ → List Request → Option (Request × List Request)
take_out n [] = none
take_out zero (r ∷ rs) = some (r, rs)
take_out (suc n) (r ∷ rs) = elim (take_out n rs) [ none ↦ none | some q ↦ some (q.0, r ∷ q.1) ]

module _ (decode : String → Option Payload) (is_url : String → Bool) where
  -- `HeartbeatDto`
  abbrev pub valid_heartbeat : Option String → Bool
  valid_heartbeat none = true
  valid_heartbeat (some url) = is_url url

  abbrev pub served : Option String → ℕ → Request → Api → Api
  served none now r a = a
  served (some user_id) now (heartbeat_request tunnel_url) a =
      if valid_heartbeat tunnel_url
      then record a { db = heartbeat user_id tunnel_url now a.db }
      else a
  served (some user_id) now (close_request session_id) a = (close user_id session_id now a).1
  served (some user_id) now offline_request a = record a { db = offline user_id now a.db }

  -- The routes of the agent's requests (`DesktopController`, `SessionsController`), behind the guard.
  unfoldable pub serve : String → ℕ → Request → Api → Api
  unfolding can_activate heartbeat offline close
  serve token now r a = served (caller (can_activate decode false (some token))) now r a

  module _ (config : AgentConfig) where
    -- Nothing is sent without a token.
    abbrev pub send : Request → Presence → Presence
    send r m = if config.token == "" then m else record m { on_the_way = m.on_the_way ++ r ∷ [] }

    abbrev pub arrival : ℕ → Option (Request × List Request) → Presence → Presence
    arrival now none m = m
    arrival now (some (r, rest)) m = record m {
      on_the_way = rest;
      api = serve config.token now r m.api;
    }

    unfoldable pub step : Event → Presence → Presence
    unfolding serve take_out
    step interval m = if m.timer then send (heartbeat_request config.tunnel_url) m else m
    step (session_exit session_id) m = send (close_request session_id) m
    step terminated m = send offline_request (record m { timer = false })
    step (arrived n now) m = arrival now (take_out n m.on_the_way) m

    unfoldable pub run : List Event → Presence → Presence
    run [] m = m
    run (e ∷ es) m = run es (step e m)

    -- The agent beats as soon as it starts.
    abbrev pub launched : Api → Presence
    launched api =
        send (heartbeat_request config.tunnel_url)
          (record { timer = true; on_the_way = []; api = api })
