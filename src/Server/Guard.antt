-- ===== src/Server/Guard.antt =====
-- Who a request comes from: the guard of every route (server/src/auth/guards/jwt-auth.guard.ts with
-- server/src/auth/jwt.strategy.ts) and the profile of a user (server/src/users/users.service.ts). The
-- verification of a token is a parameter, and what passport does with the header is the token it finds.
pub mod Tokens
mod Tests
use pocket_dev.Base.{
  String, Bool, true, false, Option, none, some, Result, ok, err, unauthorized, not_found, ◌==◌,
  if◌then◌else◌,
}
use pocket_dev.Pty.Token.{Payload, Claim}
use pocket_dev.Worker.Events.{Tier}
use pocket_dev.Server.Execute.{Execute, return, throw}
use pocket_dev.Server.Db.{Db, User, Subscription, find_unique}

-- `AuthUser`; the claims are taken as they come.
pub record AuthUser : Type 0 where
  pub user_id : Claim
  pub email : Claim
  pub tier : Claim

-- `JwtStrategy.validate`
abbrev pub validate : Payload → AuthUser
validate payload = record { user_id = payload.sub; email = payload.email; tier = payload.tier }

module _ (decode : String → Option Payload) where
  abbrev pub validated : Option Payload → Result (Option AuthUser)
  validated none = err (unauthorized "Unauthorized")
  validated (some payload) = ok (some (validate payload))

  abbrev authenticate : Option String → Result (Option AuthUser)
  authenticate none = err (unauthorized "Unauthorized")
  authenticate (some token) =
      if token == "" then err (unauthorized "Unauthorized") else validated (decode token)

  -- `canActivate`: whether the route is public, and the token of the request's header.
  unfoldable pub can_activate : Bool → Option String → Result (Option AuthUser)
  can_activate true token = ok none
  can_activate false token = authenticate token

-- What `getProfile` selects of the columns that the model has.
pub record Profile : Type 0 where
  pub id : String
  pub email : String
  pub name : Option String
  pub tier : Tier
  pub subscription : Option Subscription

abbrev profile_of : Option Subscription → Option User → Execute Db Profile
profile_of subscription none = throw (not_found "User not found")
profile_of subscription (some u) = return (record {
  id = u.id;
  email = u.email;
  name = u.name;
  tier = u.tier;
  subscription = subscription;
})

-- `getProfile`
unfoldable pub get_profile : String → Execute Db Profile
get_profile user_id db =
    profile_of (find_unique (λ (s : Subscription). s.user_id) user_id db.subscriptions)
      (find_unique (λ (u : User). u.id) user_id db.users) db
