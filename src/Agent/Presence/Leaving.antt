-- ===== src/Agent/Presence/Leaving.antt =====
-- What is left of a desktop agent that has been told to stop (`shutdown` and `goOffline` of
-- services/desktop-agent/src/index.ts).
use mathlib.Core.Path.{subst}
use pocket_dev.Base.{
  ℕ, ◌+◌, ◌<◌, String, ◌≡◌, refl, sym, ◌∙◌, Bool, false, Option, none, some, List, [], ◌∷◌, All,
  Option-cases, inl, inr, arith, if◌then◌else◌,
}
use pocket_dev.Pty.Token.{Payload}
use pocket_dev.Worker.Events.{cloud, desktop}
use pocket_dev.Server.Db.{Db, Api, DesktopPresence, find-update_key, find-append_new}
use pocket_dev.Server.Desktop.{find_presence, offline, resolve_target}
use pocket_dev.Server.Guard.{can_activate}
use pocket_dev.Agent.Presence.{
  AgentConfig, Request, heartbeat_request, close_request, offline_request, Presence, Event,
  interval, terminated, session_exit, arrived, arrival, send, caller, serve, take_out, step, run,
}
use pocket_dev.Agent.Presence.Requests.{
  take_out-All, close-presences, send-All, send-api, send-timer, arrival-All, arrival-timer,
  serve-caller,
}
use pocket_dev.Agent.Presence.Lease.{IsLinked, beat-IsLeased, leased_route}

abbrev IsOff : Option DesktopPresence → Type 0
IsOff none = ⊥
IsOff (some p) = p.online ≡ false

offline-IsOff :
    (user_id : String) (now : ℕ) (db : Db) → IsOff (find_presence user_id (offline user_id now db))
unfolding offline
offline-IsOff user_id now db = elim (Option-cases (find_presence user_id db)) [
  | inl e ↦
      let new : DesktopPresence = record {
        user_id = user_id;
        online = false;
        tunnel_url = none;
        last_heartbeat = now;
      } in
      rw (e, find-append_new (λ (p : DesktopPresence). p.user_id) new db.presences e) refl
  | inr (p, e) ↦
      rw
        (
          e,
          find-update_key (λ (r : DesktopPresence). r.user_id) user_id
              (λ r. record r { online = false }) db.presences (λ r. refl) e,
        )
        refl
]

off_route :
    (window : Option ℕ) (user_id : String) (later : ℕ) (db : Db)
    → IsOff (find_presence user_id db)
    → resolve_target window user_id later db ≡ record { target = cloud; tunnel_url = none }
unfolding resolve_target
off_route window user_id later db off = elim (Option-cases (find_presence user_id db)) [
  | inl e ↦ rw e refl
  | inr (p, e) ↦ let gone : p.online ≡ false = rw e at off in ground (arith, e, gone)
]

-- A request that says nothing of the desktop being there.
abbrev pub IsQuiet : Request → Type 0
IsQuiet (heartbeat_request tunnel_url) = ⊥
IsQuiet (close_request session_id) = Unit
IsQuiet offline_request = Unit

module _ (decode : String → Option Payload) (is_url : String → Bool) (config : AgentConfig)
    (user_id : String) where
  record IsGone (m : Presence) : Type 0 where
    stopped : m.timer ≡ false
    quiet : All IsQuiet m.on_the_way
    off : IsOff (find_presence user_id m.api.db)

  serve-IsOff :
      (r : Request) (now : ℕ) (a : Api)
      → caller (can_activate decode false (some config.token)) ≡ some user_id
      → IsQuiet r
      → IsOff (find_presence user_id a.db)
      → IsOff (find_presence user_id (serve decode is_url config.token now r a).db)
  serve-IsOff (heartbeat_request tunnel_url) now a l quiet off = elim quiet [ ]
  serve-IsOff (close_request session_id) now a l quiet off =
      rw
        (
          serve-caller decode is_url config user_id (close_request session_id) now a l,
          close-presences user_id session_id now a,
        )
        off
  serve-IsOff offline_request now a l quiet off =
      rw (serve-caller decode is_url config user_id offline_request now a l)
        (offline-IsOff user_id now a.db)

  send-IsGone :
      (r : Request) (m : Presence) → IsQuiet r → IsGone m → IsGone (send decode is_url config r m)
  send-IsGone r m quiet gone = record {
    stopped = ground (arith, gone.stopped);
    quiet = send-All decode is_url config IsQuiet r m quiet gone.quiet;
    off = rw (send-api decode is_url config r m) gone.off;
  }

  step-IsGone :
      (e : Event) (m : Presence)
      → caller (can_activate decode false (some config.token)) ≡ some user_id
      → IsGone m
      → IsGone (step decode is_url config e m)
  unfolding step
  step-IsGone interval m l gone =
      let beat = send decode is_url config (heartbeat_request config.tunnel_url) m in
      subst (λ b. IsGone (if b then beat else m)) (sym gone.stopped) gone
  step-IsGone terminated m l gone =
      send-IsGone offline_request (record m { timer = false }) tt
        (record { stopped = refl; quiet = gone.quiet; off = gone.off })
  step-IsGone (session_exit session_id) m l gone = send-IsGone (close_request session_id) m tt gone
  step-IsGone (arrived n now) m l gone = record {
    stopped = arrival-timer decode is_url config n now m ∙ gone.stopped;
    quiet = arrival-All decode is_url config IsQuiet n now m gone.quiet;
    off = elim (Option-cases (take_out n m.on_the_way)) [
      | inl e ↦ rw e gone.off
      | inr ((r, rest), e) ↦ rw e (
          serve-IsOff r now m.api l (take_out-All IsQuiet n m.on_the_way r rest gone.quiet e).0
            gone.off)
    ];
  }

  run-IsGone :
      (es : List Event) (m : Presence)
      → caller (can_activate decode false (some config.token)) ≡ some user_id
      → IsGone m
      → IsGone (run decode is_url config es m)
  unfolding run
  run-IsGone [] m l gone = gone
  run-IsGone (e ∷ es) m l gone =
      run-IsGone es (step decode is_url config e m) l (step-IsGone e m l gone)

  -- The interval is off, and nothing on the way says that the desktop is there.
  record IsStopped (m : Presence) : Type 0 where
    stopped : m.timer ≡ false
    quiet : All IsQuiet m.on_the_way

  step-IsStopped :
      (e : Event) (m : Presence) → IsStopped m → IsStopped (step decode is_url config e m)
  unfolding step
  step-IsStopped interval m h =
      let beat = send decode is_url config (heartbeat_request config.tunnel_url) m in
      subst (λ b. IsStopped (if b then beat else m)) (sym h.stopped) h
  step-IsStopped terminated m h = record {
    stopped = send-timer decode is_url config offline_request (record m { timer = false });
    quiet =
        send-All decode is_url config IsQuiet offline_request (record m { timer = false }) tt
          h.quiet;
  }
  step-IsStopped (session_exit session_id) m h = record {
    stopped = send-timer decode is_url config (close_request session_id) m ∙ h.stopped;
    quiet = send-All decode is_url config IsQuiet (close_request session_id) m tt h.quiet;
  }
  step-IsStopped (arrived n now) m h = record {
    stopped = arrival-timer decode is_url config n now m ∙ h.stopped;
    quiet = arrival-All decode is_url config IsQuiet n now m h.quiet;
  }

  run-IsStopped :
      (es : List Event) (m : Presence) → IsStopped m → IsStopped (run decode is_url config es m)
  unfolding run
  run-IsStopped [] m h = h
  run-IsStopped (e ∷ es) m h =
      run-IsStopped es (step decode is_url config e m) (step-IsStopped e m h)

  -- An agent that is told to stop while no heartbeat is on the way leaves for good: whatever comes in
  -- between, once a request that it is offline has arrived, every job goes to the cloud, whatever happens
  -- later.
  pub gone_stays_offline :
      (between later_events : List Event) (m : Presence) (n now later : ℕ) (window : Option ℕ)
      (rest : List Request)
      → caller (can_activate decode false (some config.token)) ≡ some user_id
      → All IsQuiet m.on_the_way
      → take_out n (run decode is_url config (terminated ∷ between) m).on_the_way
        ≡ some (offline_request, rest)
      → resolve_target window user_id later
          (run decode is_url config
            (arrived n now ∷ later_events)
            (run decode is_url config (terminated ∷ between) m)).api.db
        ≡ record { target = cloud; tunnel_url = none }
  unfolding run step
  gone_stays_offline between later_events m n now later window rest l quiet there =
      let stopped : Presence = record m { timer = false } in
      let asked = send decode is_url config offline_request stopped in
      let first : IsStopped asked = record {
        stopped = send-timer decode is_url config offline_request stopped;
        quiet = send-All decode is_url config IsQuiet offline_request stopped tt quiet;
      } in
      let sent = run decode is_url config between asked in
      let still = run-IsStopped between asked first in
      let leaves : take_out n sent.on_the_way ≡ some (offline_request, rest) = there in
      let told = arrival decode is_url config now (take_out n sent.on_the_way) sent in
      let gone : IsGone told = record {
        stopped = arrival-timer decode is_url config n now sent ∙ still.stopped;
        quiet = arrival-All decode is_url config IsQuiet n now sent still.quiet;
        off =
            rw (leaves, serve-caller decode is_url config user_id offline_request now sent.api l)
              (offline-IsOff user_id now sent.api.db);
      } in
      off_route window user_id later _ (run-IsGone later_events told l gone).off

  -- A heartbeat that is still on the way when the agent is told to stop, and arrives after its last
  -- request, makes the desktop come back: the interval is off, yet for the length of the window the
  -- user's jobs go to the tunnel of an agent that has stopped.
  pub late_beat_revives :
      (m : Presence) (url : String) (n k now later_arrival later window : ℕ)
      (rest after : List Request)
      → IsLinked decode is_url config user_id url
      → take_out n (step decode is_url config terminated m).on_the_way
        ≡ some (offline_request, rest)
      → take_out k rest ≡ some (heartbeat_request config.tunnel_url, after)
      → later < later_arrival + window
      → let end =
          run decode is_url config (terminated ∷ arrived n now ∷ arrived k later_arrival ∷ []) m in
        (end.timer ≡ false)
        × (resolve_target (some window) user_id later end.api.db
            ≡ record { target = desktop; tunnel_url = some url })
  unfolding run step
  late_beat_revives m url n k now later_arrival later window rest after l last beat h =
      let stopped : Presence = record m { timer = false } in
      let sent = send decode is_url config offline_request stopped in
      let leaves : take_out n sent.on_the_way ≡ some (offline_request, rest) = last in
      let told : Presence = record sent {
        on_the_way = rest;
        api = serve decode is_url config.token now offline_request sent.api;
      } in
      (
        rw (leaves, beat) (send-timer decode is_url config offline_request stopped),
        rw (leaves, beat)
            (leased_route decode is_url config user_id url window later_arrival later _ l.filled h
              (beat-IsLeased decode is_url config user_id url later_arrival told.api l)),
      )
