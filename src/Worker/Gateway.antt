-- ===== src/Worker/Gateway.antt =====
-- The worker's side of the gateway (services/execution-worker/src/gateway.ts): what to run for a
-- client, and the release of the job when its terminal has ended.
use pocket_dev.Base.{
  Text, codes, trim, ◌≡◌, refl, Option, none, some, List, [], ◌∷◌, eq_iff, ◌⊎◌, ◌==◌, Exception,
  inl, inr, Bool-cases, if◌then◌else◌, Result, ok, err, failure,
}
use pocket_dev.Pty.Messages.{PtyTokenClaims, StartContext}
use pocket_dev.Pty.Spawn.{SpawnSpec}
use pocket_dev.Pty.Gateway.{session_exit}
use pocket_dev.Pty.Gateway
use pocket_dev.Worker.Registry.{SessionEntry}
use pocket_dev.Worker.Jobs.{Event, attach, release}

-- `ctx.command && ctx.command.trim()`: the command, if it is not blank.
abbrev pub run_args : Text → Text → Text → List Text
run_args shell [] command = shell ∷ codes "-l" ∷ []
run_args shell (c ∷ s) command = shell ∷ codes "-lc" ∷ command ∷ []

abbrev pub shell_args : Text → Option Text → List Text
shell_args shell none = shell ∷ codes "-l" ∷ []
shell_args shell (some command) = run_args shell (trim command) command

unfoldable pub docker_spec : Text → SessionEntry → StartContext → SpawnSpec
docker_spec shell entry ctx = record {
  command = codes "docker";
  args =
      codes "exec"
      ∷ codes "-i"
      ∷ codes "-t"
      ∷ codes "-w"
      ∷ codes "/workspace"
      ∷ codes "-e"
      ∷ codes "TERM=xterm-256color"
      ∷ codes entry.container_id
      ∷ shell_args shell ctx.command;
  cwd = none;
  env = [];
  cols = none;
  rows = none;
}

-- `resolveSpawn` once the wait has ended, with the calls that it makes on the registry's entry.
unfoldable pub resolve_spawn :
    Text → PtyTokenClaims → StartContext → Option SessionEntry → List Event × Result SpawnSpec
resolve_spawn shell claims ctx none =
    ([], err (failure "session container not provisioned (timed out in queue)"))
resolve_spawn shell claims ctx (some entry) =
    if entry.user_id == claims.sub
    then (attach ctx.session_id ∷ [], ok (docker_spec shell entry ctx))
    else ([], err (failure "token does not match session owner"))

-- A terminal is started, and the connect timer stopped, for the owner of the session's job alone.
pub only_owner_attaches :
    (shell : Text) (claims : PtyTokenClaims) (ctx : StartContext) (waited : Option SessionEntry)
    → let (events, spec) = resolve_spawn shell claims ctx waited in
      ((events ≡ []) × ((x : Exception) × (spec ≡ err x)))
      ⊎ ((entry : SessionEntry) × (waited ≡ some entry)
          × (entry.user_id ≡ claims.sub)
          × (events ≡ attach ctx.session_id ∷ [])
          × (spec ≡ ok (docker_spec shell entry ctx)))
unfolding resolve_spawn
only_owner_attaches shell claims ctx none =
    inl (refl, (failure "session container not provisioned (timed out in queue)", refl))
only_owner_attaches shell claims ctx (some entry) =
    elim (Bool-cases (entry.user_id == claims.sub)) [
      | inl same ↦ inr (entry, refl, (eq_iff entry.user_id claims.sub).0 same, rw same, rw same)
      | inr other ↦ inl (rw other, (failure "token does not match session owner", rw other))
    ]

-- `onSessionExit`: the calls that the gateway's effects make on the registry.
unfoldable pub releases : List Gateway.Effect → List Event
releases [] = []
releases (session_exit _ ctx code ∷ out) = release ctx.session_id code ∷ releases out
releases (_ ∷ out) = releases out
