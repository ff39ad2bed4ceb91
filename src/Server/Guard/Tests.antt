-- ===== src/Server/Guard/Tests.antt =====
-- Tokens of the program at the guard (server/src/auth, server/src/users/users.service.ts).
use pocket_dev.Base.{
  String, codes, ◌≡◌, refl, Bool, false, none, some, [], ◌∷◌, ok, err, unauthorized, not_found,
  ◌==◌, ℕ, nat_eq, if◌then◌else◌,
}
use pocket_dev.Pty.Token.{Payload, text, absent, jwt_verifier}
use pocket_dev.Worker.Events.{free, cloud}
use pocket_dev.Server.Db.{Db, Api, find_unique}
use pocket_dev.Server.Quota.{enforce_quota, judge, carry_out}
use pocket_dev.Server.Desktop.{resolve_target}
use pocket_dev.Server.Auth.{Register, Issued, register, new_subscription}
use pocket_dev.Server.Jobs.{
  ExecutionConfig, CreateJob, FreshIds, StartSessionResponse, create, launch, mint_pty_token,
  pty_payload,
}
use pocket_dev.Server.Jobs.Creation.{created}
use pocket_dev.Server.Guard.{can_activate, get_profile}
use pocket_dev.Server.Guard.Tokens.{signed_in, terminal_token_opens_api, registered_profile}

abbrev no_rows : Db
no_rows = record {
  users = [];
  projects = [];
  jobs = [];
  sessions = [];
  subscriptions = [];
  presences = [];
}

abbrev plain_hash : String → String
plain_hash password = password

abbrev same_hash : String → String → Bool
same_hash password hashed = password == hashed

abbrev sign_in : Payload → ℕ → String
sign_in p now = if nat_eq now 5 then "jwt" else "later jwt"

abbrev bob : Register
bob = record { email = "bob@example.com"; password = "correct horse"; name = none }

abbrev issued_bob : Issued
issued_bob = record { access_token = "jwt"; user_id = "u2"; email = "bob@example.com"; tier = free }

-- A route that is not public wants a token.
no_token_refused : can_activate (λ t. none) false none ≡ err (unauthorized "Unauthorized")
unfolding can_activate
no_token_refused = refl

nobody_found : get_profile "u2" no_rows ≡ (err (not_found "User not found"), no_rows)
unfolding get_profile find_unique
nobody_found = refl

registered_profile_example :
    (can_activate (λ t. some (signed_in "u2" bob)) false (some "jwt")
      ≡ ok (
          some
            (record { user_id = text "u2"; email = text "bob@example.com"; tier = text "FREE" })))
    × ((get_profile "u2" (register plain_hash same_hash sign_in "u2" 5 bob no_rows).1).0
        ≡ ok (record {
          id = "u2";
          email = "bob@example.com";
          name = none;
          tier = free;
          subscription = some (new_subscription plain_hash same_hash sign_in "u2" 5);
        }))
unfolding register find_unique
registered_profile_example =
    registered_profile plain_hash same_hash sign_in (λ t. some (signed_in "u2" bob)) "u2" 5 bob
      no_rows issued_bob refl (λ e. cc e) refl refl refl

abbrev api : Api
api = record {
  db = record no_rows {
    projects =
        record {
          id = "p1";
          user_id = "alice";
          name = codes "app";
          slug = codes "app";
          description = none;
          manifest = none;
          last_synced_at = none;
        }
        ∷ [];
  };
  signals = [];
  queue = [];
}

abbrev sign : Payload → String → String
sign p ttl = "jwt"

abbrev config : ExecutionConfig
config = record {
  worker_ws_url = some "wss://worker";
  ws_token_ttl = none;
  desktop_heartbeat_window_ms = none;
}

abbrev ids : FreshIds
ids = record { job_id = "j9"; session_id = "s9"; queue_id = "q9" }

abbrev dto : CreateJob
dto = record { project_id = "p1"; command = codes "npm test" }

abbrev response : StartSessionResponse
response = record {
  job_id = "j9";
  session_id = "s9";
  target = cloud;
  ws_url = "wss://worker";
  ws_token = "jwt";
}

create_succeeds : (created sign config ids "alice" "FREE" dto 5 api).0 ≡ ok response
unfolding create launch mint_pty_token enforce_quota judge carry_out resolve_target find_unique
create_succeeds = refl

terminal_token_opens_api_example :
    (jwt_verifier (λ t. some (pty_payload "alice" "s9" "p1")) "jwt"
      ≡ some (record { sub = "alice"; session_id = "s9"; project_id = "p1" }))
    × (can_activate (λ t. some (pty_payload "alice" "s9" "p1")) false (some "jwt")
        ≡ ok (some (record { user_id = text "alice"; email = absent; tier = absent })))
terminal_token_opens_api_example =
    terminal_token_opens_api sign config ids "alice" "FREE" dto 5
      (λ t. some (pty_payload "alice" "s9" "p1")) api response (λ ttl. refl) (λ ttl e. cc e)
      create_succeeds
