-- ===== src/Server/Desktop/Routing.antt =====
-- Where a job runs (server/src/desktop/desktop.service.ts and `resolveTarget` of
-- server/src/jobs/jobs.service.ts).
use pocket_dev.Base.{
  ℕ, ◌+◌, ◌<◌, String, ◌≡◌, refl, true, false, Option, none, some, arith, ltb, if◌then◌else◌,
  Option-cases, inl, inr,
}
use pocket_dev.Worker.Events.{cloud, desktop}
use pocket_dev.Server.Db.{Db, DesktopPresence, find-update_key, find-append_new}
use pocket_dev.Server.Desktop.{
  find_presence, heartbeat, status, resolve_target, has_url, or_kept, heartbeat_window_ms,
}

-- The row of the user after a heartbeat.
abbrev pub beaten : String → Option String → ℕ → Option DesktopPresence → DesktopPresence
beaten user_id url now none = record {
  user_id = user_id;
  online = true;
  tunnel_url = url;
  last_heartbeat = now;
}
beaten user_id url now (some p) = record p {
  online = true;
  tunnel_url = or_kept url p.tunnel_url;
  last_heartbeat = now;
}

pub find-heartbeat :
    (user_id : String) (url : Option String) (now : ℕ) (db : Db)
    → find_presence user_id (heartbeat user_id url now db)
      ≡ some (beaten user_id url now (find_presence user_id db))
unfolding heartbeat
find-heartbeat user_id url now db = elim (Option-cases (find_presence user_id db)) [
  | inl e ↦ rw e (
      find-append_new (λ (p : DesktopPresence). p.user_id) (beaten user_id url now none)
        db.presences e)
  | inr (p, e) ↦ rw e (
      find-update_key (λ (r : DesktopPresence). r.user_id) user_id
        (λ r. record r {
          online = true;
          tunnel_url = or_kept url r.tunnel_url;
          last_heartbeat = now;
        })
        db.presences (λ r. refl) e)
]

-- After a heartbeat the desktop counts as online for the length of the window, and no longer, with
-- the URL of the heartbeat.
pub status-heartbeat :
    (user_id url : String) (now later : ℕ) (db : Db)
    → status user_id later (heartbeat user_id (some url) now db) ≡ (
        if ltb later (now + heartbeat_window_ms)
        then record {
          online = true;
          tunnel_url = some url;
          last_heartbeat = some now;
          target = desktop;
        }
        else record {
          online = false;
          tunnel_url = none;
          last_heartbeat = some now;
          target = cloud;
        })
unfolding status
status-heartbeat user_id url now later db = elim (Option-cases (find_presence user_id db)) [
  | inl e ↦ ground (arith, e, find-heartbeat user_id (some url) now db)
  | inr (p, e) ↦ ground (arith, e, find-heartbeat user_id (some url) now db)
]

-- With the window of the status, a job runs on the desktop exactly when the status says so and has a
-- URL that is not empty; it runs in the cloud otherwise.
pub route_by_status :
    (user_id : String) (now : ℕ) (db : Db)
    → (resolve_target (some heartbeat_window_ms) user_id now db).target ≡ (
        if has_url (status user_id now db).tunnel_url
        then (status user_id now db).target
        else cloud)
unfolding resolve_target status
route_by_status user_id now db = ground arith

-- A desktop that never gave a URL is reported as the place where a job would run, and no job runs
-- there.
pub no_url_disagrees :
    (user_id : String) (now later : ℕ) (db : Db)
    → find_presence user_id db ≡ none
    → later < now + heartbeat_window_ms
    → let after = heartbeat user_id none now db in
      ((status user_id later after).target ≡ desktop)
      × ((resolve_target (some heartbeat_window_ms) user_id later after).target ≡ cloud)
unfolding resolve_target status
no_url_disagrees user_id now later db e h =
    let found = find-heartbeat user_id none now db in ground arith
