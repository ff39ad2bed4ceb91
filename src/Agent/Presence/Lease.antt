-- ===== src/Agent/Presence/Lease.antt =====
-- A heartbeat of the desktop agent (services/desktop-agent/src/index.ts) as a lease on the routing of
-- jobs (`resolveTarget` of server/src/jobs/jobs.service.ts).
use pocket_dev.Base.{
  ℕ, ◌+◌, ◌≤◌, ◌<◌, String, ◌≡◌, refl, Bool, true, false, Option, none, some, List, [], ◌∷◌,
  if◌then◌else◌, arith, All, Option-cases, inl, inr,
}
use pocket_dev.Pty.Token.{Payload}
use pocket_dev.Worker.Events.{desktop}
use pocket_dev.Server.Db.{Db, Api, DesktopPresence}
use pocket_dev.Server.Desktop.{find_presence, resolve_target, has_url}
use pocket_dev.Server.Desktop.Routing.{beaten, find-heartbeat}
use pocket_dev.Server.Guard.{can_activate}
use pocket_dev.Agent.Presence.{
  AgentConfig, Request, heartbeat_request, close_request, offline_request, Presence, Event, send,
  arrival, interval, terminated, session_exit, arrived, caller, serve, take_out, step, run,
  launched,
}
use pocket_dev.Agent.Presence.Requests.{
  take_out-All, close-presences, send-All, send-api, arrival-All, serve-caller,
}

module _ (decode : String → Option Payload) (is_url : String → Bool) (config : AgentConfig)
    (user_id url : String) where
  -- The agent is linked to the user, and has a tunnel.
  pub record IsLinked : Type 0 where
    pub owner : caller (can_activate decode false (some config.token)) ≡ some user_id
    pub tunnel : config.tunnel_url ≡ some url
    pub valid : is_url url ≡ true
    pub filled : has_url (some url) ≡ true

  -- What an agent sends that has not been told to stop.
  abbrev pub IsUp : Request → Type 0
  IsUp (heartbeat_request tunnel_url) = tunnel_url ≡ config.tunnel_url
  IsUp (close_request session_id) = Unit
  IsUp offline_request = ⊥

  -- The agent goes on, and what arrives does so from this time on.
  abbrev pub IsAfter : ℕ → Event → Type 0
  IsAfter since terminated = ⊥
  IsAfter since (arrived n now) = since ≤ now
  IsAfter since _ = Unit

  -- The row that a heartbeat at this time, or a later one, leaves.
  abbrev pub IsLeased : ℕ → Option DesktopPresence → Type 0
  IsLeased since none = ⊥
  IsLeased since (some p) =
      (p.online ≡ true) × (since ≤ p.last_heartbeat) × (p.tunnel_url ≡ some url)

  step-IsUp :
      (e : Event) (m : Presence) (since : ℕ)
      → IsAfter since e
      → All IsUp m.on_the_way
      → All IsUp (step decode is_url config e m).on_the_way
  unfolding step
  step-IsUp interval m since a up =
      let beat = send decode is_url config (heartbeat_request config.tunnel_url) m in
      elim m.timer as (λ b. All IsUp (if b then beat else m).on_the_way) [
        | true ↦ send-All decode is_url config IsUp (heartbeat_request config.tunnel_url) m refl up
        | false ↦ up
      ]
  step-IsUp terminated m since a up = elim a [ ]
  step-IsUp (session_exit session_id) m since a up =
      send-All decode is_url config IsUp (close_request session_id) m tt up
  step-IsUp (arrived n now) m since a up = arrival-All decode is_url config IsUp n now m up

  -- The row after the arrival of a heartbeat.
  pub beat-IsLeased :
      (now : ℕ) (a : Api)
      → IsLinked
      → IsLeased now (
          find_presence user_id
            (serve decode is_url config.token now (heartbeat_request config.tunnel_url) a).db)
  beat-IsLeased now a l =
      rw
        (
          serve-caller decode is_url config user_id (heartbeat_request config.tunnel_url) now a
              l.owner,
          l.tunnel,
          l.valid,
        )
        (rw (find-heartbeat user_id (some url) now a.db)
          (elim (find_presence user_id a.db)
            as (λ p. IsLeased now (some (beaten user_id (some url) now p))) [
              | none ↦ (refl, omega arith, refl)
              | some p ↦ (refl, omega arith, refl)
            ]))

  IsLeased-later :
      (now since : ℕ) (p : Option DesktopPresence) → since ≤ now → IsLeased now p → IsLeased since p
  IsLeased-later now since none h leased = leased
  IsLeased-later now since (some p) h leased = (leased.0, omega (arith, leased.1), leased.2)

  -- The row after the arrival of a request.
  serve-IsLeased :
      (r : Request) (now since : ℕ) (a : Api)
      → IsLinked
      → since ≤ now
      → IsUp r
      → IsLeased since (find_presence user_id a.db)
      → IsLeased since (find_presence user_id (serve decode is_url config.token now r a).db)
  serve-IsLeased (heartbeat_request tunnel_url) now since a l h up leased =
      rw up (IsLeased-later now since _ h (beat-IsLeased now a l))
  serve-IsLeased (close_request session_id) now since a l h up leased =
      rw
        (
          serve-caller decode is_url config user_id (close_request session_id) now a l.owner,
          close-presences user_id session_id now a,
        )
        leased
  serve-IsLeased offline_request now since a l h up leased = elim up [ ]

  step-IsLeased :
      (e : Event) (m : Presence) (since : ℕ)
      → IsLinked
      → IsAfter since e
      → All IsUp m.on_the_way
      → IsLeased since (find_presence user_id m.api.db)
      → IsLeased since (find_presence user_id (step decode is_url config e m).api.db)
  unfolding step
  step-IsLeased interval m since l a up leased =
      let beat = send decode is_url config (heartbeat_request config.tunnel_url) m in
      elim m.timer as (λ b. IsLeased since (find_presence user_id (if b then beat else m).api.db)) [
        | true ↦ rw (send-api decode is_url config (heartbeat_request config.tunnel_url) m) leased
        | false ↦ leased
      ]
  step-IsLeased terminated m since l a up leased = elim a [ ]
  step-IsLeased (session_exit session_id) m since l a up leased =
      rw (send-api decode is_url config (close_request session_id) m) leased
  step-IsLeased (arrived n now) m since l a up leased =
      elim (Option-cases (take_out n m.on_the_way)) [
        | inl e ↦ rw e leased
        | inr ((r, rest), e) ↦ rw e (
            serve-IsLeased r now since m.api l a (take_out-All IsUp n m.on_the_way r rest up e).0
              leased)
      ]

  run-IsLeased :
      (es : List Event) (m : Presence) (since : ℕ)
      → IsLinked
      → All (IsAfter since) es
      → All IsUp m.on_the_way
      → IsLeased since (find_presence user_id m.api.db)
      → IsLeased since (find_presence user_id (run decode is_url config es m).api.db)
  unfolding run
  run-IsLeased [] m since l a up leased = leased
  run-IsLeased (e ∷ es) m since l a up leased =
      run-IsLeased es (step decode is_url config e m) since l a.1 (step-IsUp e m since a.0 up)
        (step-IsLeased e m since l a.0 up leased)

  run-IsUp :
      (es : List Event) (m : Presence) (since : ℕ)
      → All (IsAfter since) es
      → All IsUp m.on_the_way
      → All IsUp (run decode is_url config es m).on_the_way
  unfolding run
  run-IsUp [] m since a up = up
  run-IsUp (e ∷ es) m since a up =
      run-IsUp es (step decode is_url config e m) since a.1 (step-IsUp e m since a.0 up)

  pub leased_route :
      (window since later : ℕ) (db : Db)
      → has_url (some url) ≡ true
      → later < since + window
      → IsLeased since (find_presence user_id db)
      → resolve_target (some window) user_id later db
        ≡ record { target = desktop; tunnel_url = some url }
  unfolding resolve_target
  leased_route window since later db filled h leased =
      elim (Option-cases (find_presence user_id db)) [
        | inl e ↦ absurd (rw e at leased)
        | inr (p, e) ↦
            let (on, fresh, tunnel) : IsLeased since (some p) = rw e at leased in
            ground (arith, e, on, fresh, tunnel, filled)
      ]

  -- A heartbeat is a lease. From the moment when one arrives, the user's jobs go to the desktop at its
  -- tunnel for the length of the window, whatever was sent before, whichever requests still arrive and
  -- whichever sessions end, as long as the linked agent is not told to stop.
  pub lease_kept :
      (before es : List Event) (api : Api) (n now later window : ℕ) (rest : List Request)
      → IsLinked
      → All (IsAfter 0) before
      → take_out n (run decode is_url config before (launched decode is_url config api)).on_the_way
        ≡ some (heartbeat_request config.tunnel_url, rest)
      → All (IsAfter now) es
      → later < now + window
      → resolve_target
          (some window)
          user_id
          later
          (run decode is_url config
            (arrived n now ∷ es)
            (run decode is_url config before (launched decode is_url config api))).api.db
        ≡ record { target = desktop; tunnel_url = some url }
  unfolding run step
  lease_kept before es api n now later window rest l up there after h =
      let start = launched decode is_url config api in
      let m = run decode is_url config before start in
      let ours = run-IsUp before start 0 up (
        send-All decode is_url config IsUp (heartbeat_request config.tunnel_url)
          (record { timer = true; on_the_way = []; api = api }) refl tt) in
      let beaten = beat-IsLeased now m.api l in
      leased_route window now later _ l.filled h (
        run-IsLeased es (arrival decode is_url config now (take_out n m.on_the_way) m) now l after
          (arrival-All decode is_url config IsUp n now m ours) (rw there beaten))
