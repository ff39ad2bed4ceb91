-- ===== src/Server/Db.antt =====
-- The database (server/prisma/schema.prisma) as tables of rows, with the columns that the services
-- read or write. Times are milliseconds, and ids are
-- drawn by the database: a row that is created takes its id as an argument.
use pocket_dev.Base.{
  ℕ, String, Text, ◌≡◌, refl, Bool, Option, none, some, List, [], ◌∷◌, ◌++◌, arith, eq_iff, ◌==◌,
  leb, if◌then◌else◌,
}
use pocket_dev.Worker.Events.{Tier, JobStatus, ExecutionTarget, SessionStatus, RunCommandJobData}
use pocket_dev.Sync.Manifest.{FileManifest}

pub record User : Type 0 where
  pub id : String
  pub email : String
  pub password_hash : String
  pub name : Option String
  pub tier : Tier

pub record Job : Type 0 where
  pub id : String
  pub project_id : String
  pub user_id : String
  pub command : Text
  pub status : JobStatus
  pub target : ExecutionTarget
  pub queue_job_id : Option String
  pub exit_code : Option ℕ
  pub created_at : ℕ
  pub started_at : Option ℕ
  pub finished_at : Option ℕ

pub record Session : Type 0 where
  pub id : String
  pub job_id : Option String
  pub project_id : String
  pub user_id : String
  pub target : ExecutionTarget
  pub status : SessionStatus
  pub container_id : Option String
  pub started_at : ℕ
  pub ended_at : Option ℕ

pub record Subscription : Type 0 where
  pub user_id : String
  pub tier : Tier
  pub status : String
  pub quota_jobs_per_day : ℕ
  pub jobs_used_today : ℕ
  pub quota_reset_at : ℕ

pub record DesktopPresence : Type 0 where
  pub user_id : String
  pub online : Bool
  pub tunnel_url : Option String
  pub last_heartbeat : ℕ

pub record Project : Type 0 where
  pub id : String
  pub user_id : String
  pub name : Text
  pub slug : Text
  pub description : Option Text
  pub manifest : Option FileManifest
  pub last_synced_at : Option ℕ

pub record Db : Type 0 where
  pub users : List User
  pub projects : List Project
  pub jobs : List Job
  pub sessions : List Session
  pub subscriptions : List Subscription
  pub presences : List DesktopPresence

module _ {ℓ} {R : Type ℓ} where
  -- `findUnique({ where: { key: k } })`
  unfoldable pub find_unique : (R → String) → String → List R → Option R
  find_unique key k [] = none
  find_unique key k (r ∷ rows) = if key r == k then some r else find_unique key k rows

  -- `updateMany({ where, data })`
  unfoldable pub update_many : (R → Bool) → (R → R) → List R → List R
  update_many p f [] = []
  update_many p f (r ∷ rows) = (if p r then f r else r) ∷ update_many p f rows

  abbrev pub update_if : (R → Bool) → (R → R) → Option R → Option R
  update_if p f none = none
  update_if p f (some r) = some (if p r then f r else r)

  -- An update that keeps the key is seen by a later read of the same key.
  pub find-update :
      (key : R → String) (k : String) (p : R → Bool) (f : R → R) (rows : List R)
      → ((r : R) → key (f r) ≡ key r)
      → find_unique key k (update_many p f rows) ≡ update_if p f (find_unique key k rows)
  unfolding find_unique update_many
  find-update key k p f [] keep = refl
  find-update key k p f (r ∷ rows) keep = ground (arith, keep r, find-update key k p f rows keep)

  -- What is found by a key has that key.
  pub find_unique-key :
      (key : R → String) (k : String) (rows : List R) {r : R}
      → find_unique key k rows ≡ some r
      → key r ≡ k
  unfolding find_unique
  find_unique-key key k [] h = absurd (cc h)
  find_unique-key key k (q ∷ rows) {r} h =
      ground (arith, eq_iff (key q) k, find_unique-key key k rows {r = r})

  -- An update by the key reaches the row of that key.
  pub find-update_key :
      (key : R → String) (k : String) (f : R → R) (rows : List R) {r : R}
      → ((q : R) → key (f q) ≡ key q)
      → find_unique key k rows ≡ some r
      → find_unique key k (update_many (λ q. key q == k) f rows) ≡ some (f r)
  find-update_key key k f rows {r} keep h = ground (
    arith,
    find-update key k (λ q. key q == k) f rows keep,
    eq_iff (key r) k,
    find_unique-key key k rows h,
  )

  -- A new row is found by a key that no row had.
  pub find-append_new :
      (key : R → String) (new : R) (rows : List R)
      → find_unique key (key new) rows ≡ none
      → find_unique key (key new) (rows ++ new ∷ []) ≡ some new
  unfolding find_unique
  find-append_new key new [] e = ground (arith, eq_iff (key new) (key new))
  find-append_new key new (r ∷ rows) e = ground (arith, find-append_new key new rows)

module _ {ℓ} {R : Type ℓ} where
  abbrev insert_desc : (R → ℕ) → R → List R → List R
  insert_desc key r [] = r ∷ []
  insert_desc key r (q ∷ rows) =
      let rest = insert_desc key r rows in if leb (key q) (key r) then r ∷ q ∷ rows else q ∷ rest

  -- `orderBy: { key: 'desc' }`; rows of one key stay in the table's order.
  unfoldable pub order_desc : (R → ℕ) → List R → List R
  order_desc key [] = []
  order_desc key (r ∷ rows) = insert_desc key r (order_desc key rows)

abbrev pub find_job : String → Db → Option Job
find_job id db = find_unique (λ (j : Job). j.id) id db.jobs

abbrev pub find_session : String → Db → Option Session
find_session id db = find_unique (λ (s : Session). s.id) id db.sessions

abbrev pub update_jobs : (Job → Bool) → (Job → Job) → Db → Db
update_jobs p f db = record db { jobs = update_many p f db.jobs }

abbrev pub update_sessions : (Session → Bool) → (Session → Session) → Db → Db
update_sessions p f db = record db { sessions = update_many p f db.sessions }

-- The server's state: the database, the kill signals it published and the jobs it put in the queue.
pub record QueuedJob : Type 0 where
  pub payload : RunCommandJobData
  pub priority : ℕ
  pub queue_id : String

pub record Api : Type 0 where
  pub db : Db
  pub signals : List String
  pub queue : List QueuedJob
