-- ===== src/Agent/Presence/Tests.antt =====
-- The desktop agent and the server on a concrete order of events
-- (services/desktop-agent/src/index.ts).
use pocket_dev.Base.{String, ◌≡◌, refl, Bool, true, false, Option, none, some, [], ◌∷◌, arith}
use pocket_dev.Pty.Token.{Payload, text, absent}
use pocket_dev.Worker.Events.{cloud, desktop}
use pocket_dev.Server.Db.{Api}
use pocket_dev.Server.Desktop.{resolve_target}
use pocket_dev.Server.Guard.{can_activate}
use pocket_dev.Agent.Presence.{
  close_request, AgentConfig, Presence, heartbeat_request, interval, terminated, session_exit,
  arrived, take_out, step, run, launched,
}
use pocket_dev.Agent.Presence.Lease.{IsLinked, lease_kept}
use pocket_dev.Agent.Presence.Leaving.{gone_stays_offline, late_beat_revives}

abbrev decode : String → Option Payload
decode token = some (record {
  sub = text "alice";
  session_id = absent;
  project_id = absent;
  scope = absent;
  email = text "a@example.com";
  tier = text "FREE";
})

abbrev any_url : String → Bool
any_url url = true

abbrev config : AgentConfig
config = record { token = "jwt"; tunnel_url = some "wss://desk" }

abbrev unlinked : AgentConfig
unlinked = record { token = ""; tunnel_url = some "wss://desk" }

abbrev api : Api
api = record {
  db = record {
    users = [];
    projects = [];
    jobs = [];
    sessions = [];
    subscriptions = [];
    presences = [];
  };
  signals = [];
  queue = [];
}

alice_linked : IsLinked decode any_url config "alice" "wss://desk"
unfolding can_activate
alice_linked = record { owner = refl; tunnel = refl; valid = refl; filled = refl }

-- Nothing is sent without a token.
unlinked_silent :
    (run decode any_url unlinked
      (interval ∷ session_exit "s1" ∷ terminated ∷ [])
      (launched decode any_url unlinked api)).on_the_way
    ≡ []
unfolding run step
unlinked_silent = refl

lease_kept_example :
    resolve_target
      (some 30000)
      "alice"
      30004
      (run decode any_url config
        (arrived 0 5 ∷ interval ∷ session_exit "s1" ∷ arrived 1 8 ∷ arrived 0 9 ∷ [])
        (run decode any_url config [] (launched decode any_url config api))).api.db
    ≡ record { target = desktop; tunnel_url = some "wss://desk" }
unfolding run take_out
lease_kept_example =
    lease_kept decode any_url config "alice" "wss://desk" []
      (interval ∷ session_exit "s1" ∷ arrived 1 8 ∷ arrived 0 9 ∷ []) api 0 5 30004 30000 []
      alice_linked tt refl (tt, (tt, (omega arith, (omega arith, tt)))) (omega arith)

abbrev online : Presence
online = run decode any_url config (arrived 0 5 ∷ []) (launched decode any_url config api)

gone_stays_offline_example :
    resolve_target none "alice" 100
      (run decode any_url config
        (arrived 0 20 ∷ interval ∷ [])
        (run decode any_url config (terminated ∷ session_exit "s9" ∷ []) online)).api.db
    ≡ record { target = cloud; tunnel_url = none }
unfolding run take_out step
gone_stays_offline_example =
    gone_stays_offline decode any_url config "alice" (session_exit "s9" ∷ []) (interval ∷ []) online
      0 20 100 none (close_request "s9" ∷ []) (alice_linked.owner) tt refl

late_beat_revives_example :
    let end =
      run decode any_url config
        (terminated ∷ arrived 1 20 ∷ arrived 0 21 ∷ [])
        (launched decode any_url config api) in
    (end.timer ≡ false)
    × (resolve_target (some 30000) "alice" 30000 end.api.db
        ≡ record { target = desktop; tunnel_url = some "wss://desk" })
unfolding take_out step
late_beat_revives_example =
    late_beat_revives decode any_url config "alice" (launched decode any_url config api)
      "wss://desk" 1 0 20 21 30000 30000 (heartbeat_request (some "wss://desk") ∷ []) []
      alice_linked refl refl (omega arith)
