-- ===== src/Server/Quota.antt =====
-- The daily quota (`enforceQuota` of server/src/jobs/jobs.service.ts) and the tiers
-- (server/src/billing/billing.service.ts).
pub mod Bounds
use pocket_dev.Base.{
  ℕ, ◌+◌, ◌*◌, String, Bool, true, false, Option, none, some, List, [], ◌∷◌, ltb, leb, ◌==◌,
  if◌then◌else◌, Result, ok, err, forbidden, not_found, failure,
}
use pocket_dev.Worker.Events.{Tier, free, paid}
use pocket_dev.Server.Execute.{Execute, return, throw, modify}
use pocket_dev.Server.Db.{Db, User, Subscription, find_unique, update_many}

abbrev pub find_subscription : String → Db → Option Subscription
find_subscription user_id db =
    find_unique (λ (s : Subscription). s.user_id) user_id db.subscriptions

abbrev pub update_subscription : String → (Subscription → Subscription) → Db → Db
update_subscription user_id f db = record db {
  subscriptions = update_many (λ s. s.user_id == user_id) f db.subscriptions;
}

abbrev pub day_ms : ℕ
day_ms = 24 * 60 * 60 * 1000

-- What the check finds in the row that it read.
pub data Verdict : Type 0 where
  unlimited reset refuse count_one : Verdict

unfoldable pub judge : ℕ → Option Subscription → Verdict
judge now none = unlimited
judge now (some s) =
    if ltb (s.quota_reset_at + day_ms) now
    then reset
    else if leb s.quota_jobs_per_day s.jobs_used_today
    then refuse
    else count_one

-- What it writes then. The increment is the database's own.
unfoldable pub carry_out : String → ℕ → Verdict → Execute Db Unit
carry_out user_id now unlimited = return tt
carry_out user_id now reset =
    modify
      (update_subscription user_id (λ s. record s { jobs_used_today = 1; quota_reset_at = now })) tt
carry_out user_id now refuse = throw (forbidden "Daily job quota reached — upgrade to run more.")
carry_out user_id now count_one =
    modify (update_subscription user_id (λ s. record s { jobs_used_today = s.jobs_used_today + 1 }))
      tt

unfoldable pub enforce_quota : String → ℕ → Execute Db Unit
unfolding judge carry_out
enforce_quota user_id now db = carry_out user_id now (judge now (find_subscription user_id db)) db

abbrev pub paid_quota : ℕ
paid_quota = 1000

abbrev pub free_quota : ℕ
free_quota = 50

abbrev or_no_subscription : Option Subscription → Execute Db Subscription
or_no_subscription none = throw (not_found "No subscription")
or_no_subscription (some s) = return s

unfoldable pub get_subscription : String → Execute Db Subscription
get_subscription user_id db = or_no_subscription (find_subscription user_id db) db

-- The two updates of `upgrade` and `downgrade`: the first throws without the user's row, the second
-- without the subscription's.
abbrev set_tier : String → Tier → Option User → (Subscription → Subscription) → Execute Db Unit
set_tier user_id tier none f db = (err (failure "Record to update not found."), db)
set_tier user_id tier (some _) f db =
    let moved : Db = record db {
      users = update_many (λ u. u.id == user_id) (λ u. record u { tier = tier }) db.users;
    } in
    elim (find_subscription user_id db) [
      | none ↦ (err (failure "Record to update not found."), moved)
      | some _ ↦ (ok tt, update_subscription user_id f moved)
    ]

abbrev pub find_user : String → Db → Option User
find_user user_id db = find_unique (λ (u : User). u.id) user_id db.users

unfoldable pub upgrade : String → Execute Db Unit
upgrade user_id db =
    set_tier user_id paid (find_user user_id db)
      (λ s. record s { tier = paid; quota_jobs_per_day = paid_quota; status = "active" }) db

unfoldable pub downgrade : String → Execute Db Unit
downgrade user_id db =
    set_tier user_id free (find_user user_id db)
      (λ s. record s { tier = free; quota_jobs_per_day = free_quota }) db
