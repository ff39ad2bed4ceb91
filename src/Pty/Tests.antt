-- ===== src/Pty/Tests.antt =====
-- Runs of a connection on concrete callbacks.
use pocket_dev.Base.{
  String, ◌≡◌, refl, true, ◌&&◌, Option, none, some, List, [], ◌∷◌, ◌==◌, arith, if◌then◌else◌, All,
  Text, codes, length, nat_eq, Bool,
}
use pocket_dev.Pty.Messages.{PtyTokenClaims, PtyHandle, PtyClientMessage}
use pocket_dev.Pty.Gateway.{
  Conn, Event, connect, message, spawned, output, process_exit, socket_closed, run, step, finish,
  on_message, on_start, on_spawned, on_output, on_process_exit, apply_backpressure,
}
use pocket_dev.Pty.Exits.{report_once, late_spawn_leaks, reports, kills}
use pocket_dev.Pty.Access.{IsAuthorized, run-IsAuthorized}
use pocket_dev.Pty.Token.{Payload, jwt_verifier, text, absent}
use pocket_dev.Pty.Root.{find_repo_root}
use pocket_dev.Files.Paths.{drop_last}

abbrev alice : PtyTokenClaims
alice = record { sub = "alice"; session_id = "s1"; project_id = "p1" }

abbrev verify_good : String → Option PtyTokenClaims
verify_good token = if token == "good" then some alice else none

abbrev verify_none : String → Option PtyTokenClaims
verify_none token = none

abbrev start_s1 : Event
start_s1 = message (
    some (
      PtyClientMessage.start (record {
        session_id = "s1";
        project_id = "p1";
        command = none;
        cols = none;
        rows = none;
        token = some "good";
      })))

abbrev terminal : PtyHandle
terminal = record { pauses = true; resumes = true }

abbrev flood : List Event
flood = start_s1 ∷ spawned terminal ∷ output "y" 2000000 ∷ []

abbrev session : List Event
session = start_s1 ∷ spawned terminal ∷ process_exit 3 ∷ socket_closed ∷ []

abbrev live : Conn
live = (run verify_good (start_s1 ∷ spawned terminal ∷ []) (connect none)).0

abbrev waiting : Conn
waiting = (run verify_good (start_s1 ∷ []) (connect none)).0

report_once_example :
    let (c, out) = run verify_good session (connect none) in
    reports out ≡ (if c.exited && c.started then 1 else 0)
unfolding run step connect on_message on_start on_spawned on_output on_process_exit finish
    apply_backpressure
report_once_example = report_once verify_good none session

run-IsAuthorized_example : All (IsAuthorized verify_good) (run verify_good session (connect none)).1
run-IsAuthorized_example = run-IsAuthorized verify_good none session

late_spawn_leaks_example :
    let d = (step verify_good socket_closed waiting).0 in
    ((step verify_good (spawned terminal) d).0.handle ≡ some terminal)
    × (kills (run verify_good (spawned terminal ∷ process_exit 0 ∷ []) d).1 ≡ 0)
    × (reports (run verify_good (spawned terminal ∷ process_exit 0 ∷ []) d).1 ≡ 0)
unfolding run step connect on_message on_start on_spawned on_output on_process_exit finish
    apply_backpressure
late_spawn_leaks_example =
    late_spawn_leaks verify_good terminal (process_exit 0 ∷ []) waiting (ground arith) refl

abbrev pty_claims : Payload
pty_claims = record {
  sub = text "alice";
  session_id = text "s1";
  project_id = text "p1";
  scope = text "pty";
  email = absent;
  tier = absent;
}

wrong_scope : jwt_verifier (λ t. some (record pty_claims { scope = text "access" })) "jwt" ≡ none
unfolding jwt_verifier
wrong_scope = refl

abbrev in_packages : List Text
in_packages = codes "home" ∷ codes "repo" ∷ codes "packages" ∷ []

abbrev two_deep : List Text → Bool
two_deep dir = nat_eq (length dir) 2

finds_root : find_repo_root two_deep in_packages ≡ codes "home" ∷ codes "repo" ∷ []
unfolding find_repo_root drop_last
finds_root = refl
