-- ===== src/Agent.antt =====
-- The desktop agent (services/desktop-agent/src): who may open a shell on the host, and with which
-- arguments.
pub mod Presence
mod Tests
use pocket_dev.Base.{
  ℕ, ◌+◌, String, Text, codes, text_eq, trim, Bool, true, false, ◌&&◌, ◌||◌, not, Option, none,
  some, List, [], ◌∷◌, ◌++◌, ◌==◌, nat_eq, leb, if◌then◌else◌, Result, ok, err, Exception, failure,
  Option-cases,
}
use pocket_dev.Base.Patterns.{has_part, ends_with, starts_with, lower_all}
use pocket_dev.Pty.Messages.{PtyTokenClaims, StartContext}
use pocket_dev.Pty.Spawn.{SpawnSpec}
use pocket_dev.Pty.Token.{Payload, Claim, text}

abbrev sub_of : Claim → Option String
sub_of (text sub) = some sub
sub_of _ = none

abbrev owner_of : Option Payload → Option String
owner_of none = none
owner_of (some p) = sub_of p.sub

-- `resolveOwnerId`; `decode` is `jwt.verify`, and gives nothing where it throws.
unfoldable pub resolve_owner_id : (String → Option Payload) → String → Option String
resolve_owner_id decode token = if token == "" then none else owner_of (decode token)

-- `/powershell|pwsh/i` and `/cmd(\.exe)?$/i`
abbrev pub is_powershell : Text → Bool
is_powershell shell = has_part (codes "powershell") shell || has_part (codes "pwsh") shell

abbrev pub is_cmd : Text → Bool
is_cmd shell = ends_with (codes "cmd") shell || ends_with (codes "cmd.exe") shell

abbrev args_for : Text → Text → List Text
args_for shell [] =
    if is_powershell shell
    then codes "-NoLogo" ∷ codes "-NoProfile" ∷ []
    else if is_cmd shell
    then []
    else codes "-l" ∷ []
args_for shell (c ∷ cmd) =
    if is_powershell shell
    then codes "-NoLogo" ∷ codes "-NoProfile" ∷ codes "-Command" ∷ (c ∷ cmd) ∷ []
    else if is_cmd shell
    then codes "/c" ∷ (c ∷ cmd) ∷ []
    else codes "-lc" ∷ (c ∷ cmd) ∷ []

-- `shellArgs`
unfoldable pub shell_args : Text → Option Text → List Text
unfolding has_part starts_with ends_with lower_all
shell_args shell none = args_for shell []
shell_args shell (some command) = args_for shell (trim command)

abbrev pub host_spec : Text → String → StartContext → SpawnSpec
host_spec shell project_root ctx = record {
  command = shell;
  args = shell_args shell ctx.command;
  cwd = some project_root;
  env = [];
  cols = none;
  rows = none;
}

abbrev pub refused : Result SpawnSpec
refused = err (failure "unauthorized: PTY token owner is not this desktop’s linked user")

abbrev spawn_for : Option String → Text → String → PtyTokenClaims → StartContext → Result SpawnSpec
spawn_for none shell project_root claims ctx = refused
spawn_for (some owner) shell project_root claims ctx =
    if owner == "" || not (claims.sub == owner)
    then refused
    else ok (host_spec shell project_root ctx)

-- `resolveSpawn`
unfoldable pub resolve_spawn :
    Option String → Text → String → PtyTokenClaims → StartContext → Result SpawnSpec
resolve_spawn owner_id shell project_root claims ctx =
    spawn_for owner_id shell project_root claims ctx
