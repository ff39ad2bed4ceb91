-- ===== src/Client.antt =====
-- The terminal client (scripts/pty-client.mjs) and the validation of what it posts
-- (server/src/jobs/dto/create-job.dto.ts). The login and the choice of a project are two requests that
-- it only hands on.
pub mod Journey
mod Tests
use pocket_dev.Base.{
  ℕ, ◌-◌, ◌≤◌, String, Text, codes, Bool, true, false, ◌&&◌, not, Option, none, some, List, [], ◌∷◌,
  ◌++◌, leb, ltb, ◌==◌, if◌then◌else◌, get_or_else, characters, length, Result, ok, err,
  bad_request, Exception,
}
use pocket_dev.Base.Patterns.{starts_with}
use pocket_dev.Base.Names.{string_of}
use pocket_dev.Base.Dict.{Dict, get, assign}
use pocket_dev.Pty.Messages.{StartMessage, PtyServerMessage, ready, chunk, exit, error}
use pocket_dev.Server.Jobs.{CreateJob, StartSessionResponse}

abbrev drop_two : Text → Text
drop_two (a ∷ b ∷ s) = s
drop_two s = s

abbrev set_arg : Text → Option Text → Dict (Option Text) → Dict (Option Text)
set_arg name v out =
    if starts_with (codes "--") name then assign (string_of (drop_two name)) v out else out

-- `parseArgs`, which takes the arguments two by two; the last may have no value.
unfoldable pub parse_args : List Text → Dict (Option Text) → Dict (Option Text)
unfolding assign
parse_args [] out = out
parse_args (name ∷ []) out = set_arg name none out
parse_args (name ∷ v ∷ argv) out = parse_args argv (set_arg name (some v) out)

-- The body of the request for a session.
pub record JobBody : Type 0 where
  pub project_id : String
  pub command : Option Text

-- `if (args.command)`
abbrev given : Option (Option Text) → Option Text
given (some (some (c ∷ command))) = some (c ∷ command)
given _ = none

unfoldable pub job_body : String → Dict (Option Text) → JobBody
unfolding get
job_body project_id args = record { project_id = project_id; command = given (get "command" args) }

abbrev checked_command : String → Option Text → Result CreateJob
checked_command project_id none = err (bad_request "command must be a string")
checked_command project_id (some command) =
    if not (project_id == "") && (leb 1 (characters command) && leb (characters command) 2000)
    then ok (record { project_id = project_id; command = command })
    else err (bad_request "Bad Request")

-- `CreateJobDto`
unfoldable pub checked_job : JobBody → Result CreateJob
unfolding characters
checked_job body = checked_command body.project_id body.command

abbrev pub argument : Option (Option Text) → Option Text
argument (some v) = v
argument none = none

-- `process.stdout.columns || 80`
abbrev or_size : Option ℕ → ℕ → ℕ
or_size none size = size
or_size (some n) size = if ltb 0 n then n else size

-- What is sent when the socket has opened; the size of the client's terminal may be unknown.
unfoldable pub start_message :
    StartSessionResponse → String → Dict (Option Text) → Option ℕ → Option ℕ → StartMessage
unfolding get
start_message session project_id args columns rows = record {
  session_id = session.session_id;
  project_id = project_id;
  command = argument (get "command" args);
  cols = some (or_size columns 80);
  rows = some (or_size rows 24);
  token = some session.ws_token;
}

pub data Effect : Type 0 where
  print note : String → Effect
  -- the terminal is reset, the socket closed, and the client exits with this code
  cleanup : ℕ → Effect

-- The handler of a frame; one that does not parse, or has another type, is skipped.
unfoldable pub on_message : Option PtyServerMessage → List Effect
on_message none = []
on_message (some (chunk session_id text)) = print text ∷ []
on_message (some (ready session_id)) = note "session ready, streaming" ∷ []
on_message (some (exit session_id code)) = note "session exited" ∷ cleanup code ∷ []
on_message (some (error session_id message)) = note message ∷ cleanup 1 ∷ []
