-- ===== src/Server/Quota/Bounds.antt =====
-- How many jobs the quota lets through (`enforceQuota` of server/src/jobs/jobs.service.ts).
use pocket_dev.Base.{
  ℕ, ◌+◌, ◌≤◌, ◌<◌, String, ◌≡◌, refl, some, List, [], ◌∷◌, arith, min, length, ◌-◌, leb, Result,
  ok, err, Bool-cases, inl, inr, All, ◌⊎◌,
}
use pocket_dev.Server.Db.{Db, Subscription, find-update_key}
use pocket_dev.Server.Quota.{
  find_subscription, update_subscription, day_ms, judge, carry_out, enforce_quota,
}

abbrev is_ok : Result (Unit {0}) → ℕ
is_ok (ok _) = 1
is_ok (err _) = 0

-- How many of the calls at these times are let through.
unfoldable pub grants : String → List ℕ → Db → ℕ
grants user_id [] db = 0
grants user_id (now ∷ times) db =
    let (r, db') = enforce_quota user_id now db in is_ok r + grants user_id times db'

subscription-update :
    (user_id : String) (f : Subscription → Subscription) (db : Db) {s : Subscription}
    → ((q : Subscription) → (f q).user_id ≡ q.user_id)
    → find_subscription user_id db ≡ some s
    → find_subscription user_id (update_subscription user_id f db) ≡ some (f s)
subscription-update user_id f db keep h =
    find-update_key (λ (q : Subscription). q.user_id) user_id f db.subscriptions keep h

-- One call within the window: it is refused from the quota on, and else counted.
within_window :
    (user_id : String) (now : ℕ) (db : Db) (s : Subscription)
    → find_subscription user_id db ≡ some s
    → now ≤ s.quota_reset_at + day_ms
    → (s.jobs_used_today < s.quota_jobs_per_day)
        × (is_ok (enforce_quota user_id now db).0 ≡ 1)
        × (find_subscription user_id (enforce_quota user_id now db).1
            ≡ some (record s { jobs_used_today = s.jobs_used_today + 1 }))
      ⊎ (s.quota_jobs_per_day ≤ s.jobs_used_today)
        × (is_ok (enforce_quota user_id now db).0 ≡ 0)
        × ((enforce_quota user_id now db).1 ≡ db)
unfolding enforce_quota
within_window user_id now db s h t =
    elim (Bool-cases (leb s.quota_jobs_per_day s.jobs_used_today)) [
      | inl full ↦ inr (ground arith, ground arith, ground arith)
      | inr room ↦
          let counted =
            subscription-update user_id
              (λ (q : Subscription). record q { jobs_used_today = q.jobs_used_today + 1 }) db
              (λ q. refl) h in
          inl (ground arith, ground arith, ground arith)
    ]

-- Of any calls that come one after the other within one window, exactly as many are let through as the
-- quota has left: the first ones, and all of them if the quota has room.
pub grants_in_window :
    (user_id : String) (times : List ℕ) (db : Db) (s : Subscription)
    → find_subscription user_id db ≡ some s
    → All (λ now. now ≤ s.quota_reset_at + day_ms) times
    → grants user_id times db ≡ min (length times) (s.quota_jobs_per_day - s.jobs_used_today)
unfolding grants
grants_in_window user_id [] db s h t = omega arith
grants_in_window user_id (now ∷ times) db s h t = elim (within_window user_id now db s h t.0) [
  | inl (room, granted, counted) ↦
      let s' : Subscription = record s { jobs_used_today = s.jobs_used_today + 1 } in
      omega (
        arith,
        granted,
        room,
        grants_in_window user_id times (enforce_quota user_id now db).1 s' counted t.1,
      )
  | inr (full, refused, same) ↦
      rw (refused, same) (omega (arith, full, grants_in_window user_id times db s h t.1))
]

-- Two calls that both read the row before either has written are both let through with one job left,
-- and the count passes the quota.
pub race_passes_quota :
    (user_id : String) (now : ℕ) (db : Db) (s : Subscription)
    → find_subscription user_id db ≡ some s
    → now ≤ s.quota_reset_at + day_ms
    → s.jobs_used_today + 1 ≡ s.quota_jobs_per_day
    → let seen = judge now (find_subscription user_id db) in
      let (first, db') = carry_out user_id now seen db in
      let (second, db'') = carry_out user_id now seen db' in
      (first ≡ ok tt)
      × (second ≡ ok tt)
      × (find_subscription user_id db''
          ≡ some (record s { jobs_used_today = s.quota_jobs_per_day + 1 }))
unfolding judge carry_out
race_passes_quota user_id now db s h t e =
    let f = λ (q : Subscription). record q { jobs_used_today = q.jobs_used_today + 1 } in
    let once = subscription-update user_id f db (λ q. refl) h in
    let twice = subscription-update user_id f (update_subscription user_id f db) (λ q. refl) once in
    ground (arith, once, twice)
