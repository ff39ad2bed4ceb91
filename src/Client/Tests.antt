-- ===== src/Client/Tests.antt =====
-- The terminal client (scripts/pty-client.mjs) on concrete arguments, and a whole session.
use pocket_dev.Base.{
  String, Text, codes, ◌≡◌, refl, true, Option, none, some, [], ◌∷◌, ◌++◌, ok, err, bad_request,
}
use pocket_dev.Base.Patterns.{starts_with}
use pocket_dev.Base.Names.{string_of, char_of}
use pocket_dev.Base.Dict.{Dict, get}
use pocket_dev.Pty.Messages.{PtyTokenClaims, PtyClientMessage, PtyHandle, ready, error}
use pocket_dev.Pty.Token.{Payload}
use pocket_dev.Pty.Token.{jwt_verifier}
use pocket_dev.Pty.Gateway
use pocket_dev.Pty.Gateway.{connect, message, spawned, send, session_start, context}
use pocket_dev.Worker.Events.{cloud}
use pocket_dev.Worker.Jobs
use pocket_dev.Worker.Jobs.{Worker, provisioned, attach, new_entry}
use pocket_dev.Worker.Gateway.{resolve_spawn}
use pocket_dev.Server.Db.{Api, find_unique}
use pocket_dev.Server.Quota.{enforce_quota, judge, carry_out}
use pocket_dev.Server.Desktop.{resolve_target}
use pocket_dev.Server.Jobs.{
  ExecutionConfig, CreateJob, FreshIds, StartSessionResponse, create, launch, mint_pty_token,
  pty_payload,
}
use pocket_dev.Server.Jobs.Creation.{left_queued, created}
use pocket_dev.Client.{parse_args, job_body, checked_job, start_message, on_message, note, cleanup}
use pocket_dev.Client.Journey.{docker_exec, session_opens}

abbrev args : Dict (Option Text)
args = ("command", some (codes "npm test")) ∷ []

parses :
    parse_args (codes "--command" ∷ codes "npm test" ∷ codes "-x" ∷ codes "1" ∷ codes "--v" ∷ []) []
    ≡ ("command", some (codes "npm test")) ∷ ("v", none) ∷ []
unfolding parse_args string_of char_of starts_with
parses = refl

-- Without a command, which the client takes for an interactive session, the server refuses the body.
no_command_refused : checked_job (job_body "p1" []) ≡ err (bad_request "command must be a string")
unfolding checked_job job_body
no_command_refused = refl

command_accepted :
    checked_job (job_body "p1" args) ≡ ok (record { project_id = "p1"; command = codes "npm test" })
unfolding checked_job job_body
command_accepted = refl

error_ends : on_message (some (error "s1" "Unauthorized")) ≡ note "Unauthorized" ∷ cleanup 1 ∷ []
unfolding on_message
error_ends = refl

abbrev api : Api
api = record {
  db = record {
    users = [];
    projects =
        record {
          id = "p1";
          user_id = "alice";
          name = codes "app";
          slug = codes "app";
          description = none;
          manifest = none;
          last_synced_at = none;
        }
        ∷ [];
    jobs = [];
    sessions = [];
    subscriptions = [];
    presences = [];
  };
  signals = [];
  queue = [];
}

abbrev sign : Payload → String → String
sign p ttl = "jwt"

abbrev decode : String → Option Payload
decode token = some (pty_payload "alice" "s9" "p1")

abbrev config : ExecutionConfig
config = record {
  worker_ws_url = some "wss://worker";
  ws_token_ttl = none;
  desktop_heartbeat_window_ms = none;
}

abbrev ids : FreshIds
ids = record { job_id = "j9"; session_id = "s9"; queue_id = "q9" }

abbrev dto : CreateJob
dto = record { project_id = "p1"; command = codes "npm test" }

abbrev response : StartSessionResponse
response = record {
  job_id = "j9";
  session_id = "s9";
  target = cloud;
  ws_url = "wss://worker";
  ws_token = "jwt";
}

create_succeeds : (created sign config ids "alice" "FREE" dto 5 api).0 ≡ ok response
unfolding create launch mint_pty_token enforce_quota judge carry_out resolve_target find_unique
create_succeeds = refl

abbrev idle : Worker
idle = record { registry = []; jobs = [] }

abbrev handle : PtyHandle
handle = record { pauses = true; resumes = true }

session_opens_example :
    let queued = left_queued sign config ids "alice" "FREE" dto 5 in
    let m = start_message response "p1" args none none in
    let claims : PtyTokenClaims = record { sub = "alice"; session_id = "s9"; project_id = "p1" } in
    ((created sign config ids "alice" "FREE" dto 5 api).1.queue ≡ [] ++ queued ∷ [])
    × ((Gateway.run
          (jwt_verifier decode)
          (message (some (PtyClientMessage.start m)) ∷ spawned handle ∷ [])
          (connect none)).1
        ≡ Gateway.resolve_spawn claims (context m)
          ∷ send (ready "s9")
          ∷ session_start claims (context m)
          ∷ [])
    × (resolve_spawn
          (codes "bash")
          claims
          (context m)
          (get "s9" (Jobs.step (provisioned queued.payload "c1" 6 7) idle).0.registry)
        ≡ (attach "s9" ∷ [], ok (docker_exec (codes "c1") (codes "bash") (get "command" args))))
unfolding find_unique
session_opens_example =
    session_opens sign config ids "alice" "FREE" dto 5 decode api response args none none idle "c1"
      (codes "bash") 6 7 handle (λ ttl. refl) (λ ttl e. cc e) create_succeeds refl refl refl
