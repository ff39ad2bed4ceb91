-- ===== src/Server/Desktop.antt =====
-- Desktop presence (server/src/desktop/desktop.service.ts) and the routing of a job
-- (`resolveTarget` of server/src/jobs/jobs.service.ts).
pub mod Routing
use pocket_dev.Base.{
  ℕ, ◌+◌, ◌≤◌, ◌<◌, String, ◌≡◌, ◌≢◌, refl, Bool, true, false, ◌&&◌, not, Option, none, some, List,
  [], ◌∷◌, ◌++◌, arith, ltb, ◌==◌, eq_iff, eq_refl, if◌then◌else◌, get_or_else, Option-cases, inl,
  inr,
}
use pocket_dev.Worker.Events.{ExecutionTarget, cloud, desktop}
use pocket_dev.Server.Db.{Db, DesktopPresence, find_unique, update_many}

abbrev pub heartbeat_window_ms : ℕ
heartbeat_window_ms = 30000

abbrev pub find_presence : String → Db → Option DesktopPresence
find_presence user_id db = find_unique (λ (p : DesktopPresence). p.user_id) user_id db.presences

-- `upsert`
abbrev pub upsert :
    String
    → DesktopPresence
    → (DesktopPresence → DesktopPresence)
    → Option DesktopPresence
    → Db
    → Db
upsert user_id new f none db = record db { presences = db.presences ++ new ∷ [] }
upsert user_id new f (some _) db = record db {
  presences = update_many (λ p. p.user_id == user_id) f db.presences;
}

-- A field that is left out of an update keeps its value.
abbrev pub or_kept : Option String → Option String → Option String
or_kept (some u) _ = some u
or_kept none old = old

unfoldable pub heartbeat : String → Option String → ℕ → Db → Db
heartbeat user_id tunnel_url now db =
    upsert user_id
      (record { user_id = user_id; online = true; tunnel_url = tunnel_url; last_heartbeat = now })
      (λ p. record p {
        online = true;
        tunnel_url = or_kept tunnel_url p.tunnel_url;
        last_heartbeat = now;
      })
      (find_presence user_id db) db

-- The database gives a new row the time `now`.
unfoldable pub offline : String → ℕ → Db → Db
offline user_id now db =
    upsert user_id
      (record { user_id = user_id; online = false; tunnel_url = none; last_heartbeat = now })
      (λ p. record p { online = false }) (find_presence user_id db) db

pub record DesktopStatus : Type 0 where
  pub online : Bool
  pub tunnel_url : Option String
  pub last_heartbeat : Option ℕ
  pub target : ExecutionTarget

abbrev pub is_fresh : ℕ → ℕ → DesktopPresence → Bool
is_fresh window now p = p.online && ltb now (p.last_heartbeat + window)

abbrev pub status_of : ℕ → Option DesktopPresence → DesktopStatus
status_of now none = record {
  online = false;
  tunnel_url = none;
  last_heartbeat = none;
  target = cloud;
}
status_of now (some p) =
    let online = is_fresh heartbeat_window_ms now p in
    record {
      online = online;
      tunnel_url = if online then p.tunnel_url else none;
      last_heartbeat = some p.last_heartbeat;
      target = if online then desktop else cloud;
    }

unfoldable pub status : String → ℕ → Db → DesktopStatus
status user_id now db = status_of now (find_presence user_id db)

pub record Route : Type 0 where
  pub target : ExecutionTarget
  pub tunnel_url : Option String

-- A URL that is there and not empty.
abbrev pub has_url : Option String → Bool
has_url none = false
has_url (some u) = not (u == "")

abbrev route_of : ℕ → ℕ → Option DesktopPresence → Route
route_of window now none = record { target = cloud; tunnel_url = none }
route_of window now (some p) =
    if p.online && (has_url p.tunnel_url && ltb now (p.last_heartbeat + window))
    then record { target = desktop; tunnel_url = p.tunnel_url }
    else record { target = cloud; tunnel_url = none }

-- `window_ms` is the configured `execution.desktopHeartbeatWindowMs`.
unfoldable pub resolve_target : Option ℕ → String → ℕ → Db → Route
resolve_target window_ms user_id now db =
    route_of (get_or_else window_ms 30000) now (find_presence user_id db)
