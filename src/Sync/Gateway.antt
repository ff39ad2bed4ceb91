-- ===== src/Sync/Gateway.antt =====
-- The server's end of a sync socket (server/src/sync/sync.gateway.ts). A handler runs up to its await,
-- where it becomes a task; the tasks of one socket may end in any order, since `onMessage` is not
-- awaited. The file store is a parameter.
pub mod Owned
pub mod Order
pub mod Closed
use pocket_dev.Base.{
  ℕ, zero, suc, String, Bool, true, false, Option, none, some, List, [], ◌∷◌, ◌++◌, ◌==◌,
  if◌then◌else◌, Result, ok, err, Exception, failure, get_or_else,
}
use pocket_dev.Server.Execute.{Execute}
use pocket_dev.Server.Db.{Db, Project}
use pocket_dev.Server.Projects.{find_project_of, update_manifest}
use pocket_dev.Sync.Manifest.{FileManifest, ManifestDiff, compute_diff}

-- The operations of the file store: the user, the project and the path come first.
pub record FileStore (F : Type 0) : Type 0 where
  pub write_base64 : String → String → String → String → Execute F ℕ
  pub remove : String → String → String → Execute F Unit

pub data SyncClientMessage : Type 0 where
  manifest : String → FileManifest → SyncClientMessage
  file : String → String → String → SyncClientMessage
  removed : String → String → SyncClientMessage
  done : String → SyncClientMessage

pub data SyncServerMessage : Type 0 where
  diff : String → ManifestDiff → SyncServerMessage
  ack : String → String → SyncServerMessage
  synced : String → SyncServerMessage

pub record SyncConn : Type 0 where
  pub user_id : String
  pub project_id : Option String
  pub pending_manifest : Option FileManifest

-- A handler at its await.
pub data Task : Type 0 where
  check : String → FileManifest → Task
  write : String → String → String → Task
  delete : String → String → Task
  persist : String → FileManifest → Task

pub record SyncState (F : Type 0) : Type 0 where
  pub conn : SyncConn
  pub is_open : Bool
  pub tasks : List Task
  pub db : Db
  pub files : F

pub data Effect : Type 0 where
  send : SyncServerMessage → Effect
  close : ℕ → Exception → Effect
  -- the manifest has been stored in the project's row
  persisted : String → String → FileManifest → Effect

pub data Event : Type 0 where
  -- a frame; `none` is one that does not parse, or has no known type
  frame : Option SyncClientMessage → Event
  -- the task of this place in the list goes on, at this time
  resumed : ℕ → ℕ → Event

abbrev pub is_project : String → Option String → Bool
is_project project_id none = false
is_project project_id (some p) = p == project_id

abbrev pub not_advertised : Exception
not_advertised = failure "Send a `manifest` for this project before file operations"

-- `assertProject`
abbrev pub assert_project : SyncConn → String → Task → Result Task
assert_project conn project_id t =
    if is_project project_id conn.project_id then ok t else err not_advertised

-- A handler up to its await.
unfoldable pub begin : SyncConn → SyncClientMessage → Result Task
begin conn (SyncClientMessage.manifest project_id m) = ok (check project_id m)
begin conn (SyncClientMessage.file project_id path content) =
    assert_project conn project_id (write project_id path content)
begin conn (SyncClientMessage.removed project_id path) =
    assert_project conn project_id (delete project_id path)
begin conn (SyncClientMessage.done project_id) =
    assert_project conn project_id (persist project_id (get_or_else conn.pending_manifest []))

-- The task of a place, and the others.
unfoldable pub pick : ℕ → List Task → Option (Task × List Task)
pick n [] = none
pick zero (t ∷ ts) = some (t, ts)
pick (suc n) (t ∷ ts) = elim (pick n ts) [ none ↦ none | some r ↦ some (r.0, t ∷ r.1) ]

module _ {F : Type 0} where
  abbrev pub send_if_open : SyncState F → SyncServerMessage → List Effect
  send_if_open s m = if s.is_open then send m ∷ [] else []

  -- The `catch` of `onMessage`.
  abbrev pub fail : Exception → SyncState F → SyncState F × List Effect
  fail e s = (record s { is_open = false }, close 1011 e ∷ [])

  abbrev pub begun : Result Task → SyncState F → SyncState F × List Effect
  begun (ok t) s = (record s { tasks = s.tasks ++ t ∷ [] }, [])
  begun (err e) s = fail e s

  -- `onManifest` after its await.
  abbrev pub checked :
      String → FileManifest → Result Project → SyncState F → SyncState F × List Effect
  checked project_id m (err e) s = fail e s
  checked project_id m (ok p) s = (
    record s { conn = record s.conn { project_id = some project_id; pending_manifest = some m } },
    send_if_open s (diff project_id (compute_diff (get_or_else p.manifest []) m)),
  )

  -- `onDone` after its await.
  abbrev pub stored :
      String → FileManifest → Result (Unit {0}) × Db → SyncState F → SyncState F × List Effect
  stored project_id m (err e, db) s = fail e (record s { db = db })
  stored project_id m (ok _, db) s = (
    record s { db = db },
    persisted s.conn.user_id project_id m ∷ send_if_open s (synced project_id),
  )

  -- `onFile` and `onRemoved` after their await.
  abbrev pub written : String → String → Result ℕ × F → SyncState F → SyncState F × List Effect
  written project_id path (err e, files) s = fail e (record s { files = files })
  written project_id path (ok _, files) s =
      (record s { files = files }, send_if_open s (ack project_id path))

  abbrev pub dropped :
      String → String → Result (Unit {0}) × F → SyncState F → SyncState F × List Effect
  dropped project_id path (err e, files) s = fail e (record s { files = files })
  dropped project_id path (ok _, files) s = (record s { files = files }, [])

  module _ (store : FileStore F) where
    unfoldable pub complete : ℕ → Task → SyncState F → SyncState F × List Effect
    complete now (check project_id m) s =
        checked project_id m (find_project_of s.conn.user_id project_id s.db).0 s
    complete now (write project_id path content) s =
        written project_id path (store.write_base64 s.conn.user_id project_id path content s.files)
          s
    complete now (delete project_id path) s =
        dropped project_id path (store.remove s.conn.user_id project_id path s.files) s
    complete now (persist project_id m) s =
        stored project_id m (update_manifest s.conn.user_id project_id m now s.db) s

    abbrev pub resume_picked :
        ℕ → Option (Task × List Task) → SyncState F → SyncState F × List Effect
    resume_picked now none s = (s, [])
    resume_picked now (some (t, ts)) s = complete now t (record s { tasks = ts })

    unfoldable pub step : Event → SyncState F → SyncState F × List Effect
    unfolding begin
    step (frame none) s = (s, [])
    step (frame (some m)) s = begun (begin s.conn m) s
    step (resumed n now) s = resume_picked now (pick n s.tasks) s

    unfoldable pub run : List Event → SyncState F → SyncState F × List Effect
    run [] s = (s, [])
    run (e ∷ es) s = let (t, out) = step e s in let (u, rest) = run es t in (u, out ++ rest)

-- The socket of a user who has just connected.
abbrev pub connected : {F : Type 0} → String → Db → F → SyncState F
connected user_id db files = record {
  conn = record { user_id = user_id; project_id = none; pending_manifest = none };
  is_open = true;
  tasks = [];
  db = db;
  files = files;
}
