-- ===== src/Agent/Tests.antt =====
-- The desktop agent on concrete tokens and shells.
use pocket_dev.Base.{String, codes, text_eq, trim, ◌≡◌, refl, Option, none, some, [], ◌∷◌}
use pocket_dev.Pty.Messages.{PtyTokenClaims, StartContext}
use pocket_dev.Pty.Token.{Payload, text, absent}
use pocket_dev.Agent.{shell_args}

abbrev alice : PtyTokenClaims
alice = record { sub = "alice"; session_id = "s1"; project_id = "p1" }

abbrev context1 : StartContext
context1 = record {
  session_id = "s1";
  project_id = "p1";
  command = some (codes " npm test ");
  cols = none;
  rows = none;
}

abbrev decode : String → Option Payload
decode token = some (record {
  sub = text "alice";
  session_id = absent;
  project_id = absent;
  scope = absent;
  email = text "a@example.com";
  tier = text "FREE";
})

unix_args : shell_args (codes "/bin/zsh") (some (codes " ls ")) ≡ codes "-lc" ∷ codes "ls" ∷ []
unfolding shell_args trim text_eq
unix_args = refl

power_args : shell_args (codes "PowerShell.exe") none ≡ codes "-NoLogo" ∷ codes "-NoProfile" ∷ []
unfolding shell_args text_eq
power_args = refl

cmd_args : shell_args (codes "C:\\CMD.EXE") (some (codes "dir")) ≡ codes "/c" ∷ codes "dir" ∷ []
unfolding shell_args trim text_eq
cmd_args = refl
