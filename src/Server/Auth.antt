-- ===== src/Server/Auth.antt =====
-- Registration and login (server/src/auth/auth.service.ts). Hashing a password, comparing it with a
-- hash and signing a token are parameters; the database draws the id of a new user.
use pocket_dev.Base.{
  ℕ, String, ◌≡◌, Bool, not, Option, none, some, [], ◌∷◌, ◌++◌, arith, if◌then◌else◌, Result, ok,
  err, conflict, unauthorized, Option-cases, inl, inr,
}
use pocket_dev.Pty.Token.{Payload, text, absent}
use pocket_dev.Worker.Events.{Tier, free, paid}
use pocket_dev.Server.Execute.{Execute}
use pocket_dev.Server.Db.{Db, User, Subscription, find_unique, find-append_new}

pub record Register : Type 0 where
  pub email : String
  pub password : String
  pub name : Option String

pub record Login : Type 0 where
  pub email : String
  pub password : String

pub record Issued : Type 0 where
  pub access_token : String
  pub user_id : String
  pub email : String
  pub tier : Tier

abbrev pub tier_name : Tier → String
tier_name free = "FREE"
tier_name paid = "PAID"

abbrev pub find_email : String → Db → Option User
find_email email db = find_unique (λ (u : User). u.email) email db.users

module _ (hash : String → String) (compare : String → String → Bool)
    (sign : Payload → ℕ → String) where
  -- The token carries the time at which it was signed.
  unfoldable pub issue_token : String → String → Tier → ℕ → Issued
  issue_token user_id email tier now = record {
    access_token =
        sign
          (record {
            sub = text user_id;
            session_id = absent;
            project_id = absent;
            scope = absent;
            email = text email;
            tier = text (tier_name tier);
          })
          now;
    user_id = user_id;
    email = email;
    tier = tier;
  }

  abbrev pub new_user : String → Register → User
  new_user id dto = record {
    id = id;
    email = dto.email;
    password_hash = hash dto.password;
    name = dto.name;
    tier = free;
  }

  -- The columns' defaults.
  abbrev pub new_subscription : String → ℕ → Subscription
  new_subscription user_id now = record {
    user_id = user_id;
    tier = free;
    status = "active";
    quota_jobs_per_day = 50;
    jobs_used_today = 0;
    quota_reset_at = now;
  }

  abbrev register_if_new : String → ℕ → Register → Option User → Execute Db Issued
  register_if_new id now dto (some _) db = (err (conflict "Email already registered"), db)
  register_if_new id now dto none db = (
    ok (issue_token id dto.email free now),
    record db {
      users = db.users ++ new_user id dto ∷ [];
      subscriptions = db.subscriptions ++ new_subscription id now ∷ [];
    },
  )

  unfoldable pub register : String → ℕ → Register → Execute Db Issued
  unfolding issue_token
  register id now dto db = register_if_new id now dto (find_email dto.email db) db

  abbrev login_as : Login → ℕ → Option User → Result Issued
  login_as dto now none = err (unauthorized "Invalid credentials")
  login_as dto now (some u) =
      if not (compare dto.password u.password_hash)
      then err (unauthorized "Invalid credentials")
      else ok (issue_token u.id u.email u.tier now)

  unfoldable pub login : Login → ℕ → Db → Result Issued
  unfolding issue_token
  login dto now db = login_as dto now (find_email dto.email db)

  -- The answer to a user with this id, who is new, at this time.
  abbrev pub account : String → Register → ℕ → Issued
  account id dto now = record {
    access_token =
        sign
          (record {
            sub = text id;
            session_id = absent;
            project_id = absent;
            scope = absent;
            email = text dto.email;
            tier = text "FREE";
          })
          now;
    user_id = id;
    email = dto.email;
    tier = free;
  }

  -- Who has registered can log in with that password, and gets a token with the same claims as at the
  -- registration, signed at the time of the login, where a password compares with its own hash; with a
  -- password that does not, the login is refused.
  pub login-register :
      (id : String) (now later : ℕ) (dto : Register) (password : String) (db : Db) (issued : Issued)
      → (register id now dto db).0 ≡ ok issued
      → (issued ≡ account id dto now)
        × (login
              (record { email = dto.email; password = password })
              later
              (register id now dto db).1
            ≡ (if compare password (hash dto.password)
                then ok (account id dto later)
                else err (unauthorized "Invalid credentials")))
  unfolding register login issue_token
  login-register id now later dto password db issued h =
      elim (Option-cases (find_email dto.email db)) [
        | inl e ↦
            let found = find-append_new (λ (u : User). u.email) (new_user id dto) db.users e in
            (cc (rw e at h), ground (arith, e, found))
        | inr (u, e) ↦ absurd (ground (arith, e))
      ]
