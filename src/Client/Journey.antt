-- ===== src/Client/Journey.antt =====
-- From the request for a session to a terminal: scripts/pty-client.mjs, `create` of
-- server/src/jobs/jobs.service.ts, the gateway of packages/pty-core and
-- services/execution-worker/src.
use pocket_dev.Base.{
  ℕ, String, Text, codes, trim, List, ◌≡◌, ◌≢◌, refl, ap, ◌∙◌, Option, none, some, [], ◌∷◌, ◌++◌,
  eq_refl, eq_iff, ok, arith,
}
use pocket_dev.Base.Dict.{Dict, get, get-put}
use pocket_dev.Pty.Messages.{
  PtyTokenClaims, StartMessage, StartContext, PtyClientMessage, PtyHandle, ready,
}
use pocket_dev.Pty.Token.{Payload, jwt_verifier}
use pocket_dev.Pty.Gateway
use pocket_dev.Pty.Gateway.{
  connect, message, spawned, send, session_start, context, send_message, on_start, on_spawned,
}
use pocket_dev.Worker.Events.{cloud, RunCommandJobData}
use pocket_dev.Worker.Jobs.{Worker, provisioned, attach, new_entry}
use pocket_dev.Worker.Jobs
use pocket_dev.Worker.Gateway.{docker_spec, resolve_spawn, run_args, shell_args}
use pocket_dev.Worker.Registry.{SessionEntry}
use pocket_dev.Pty.Spawn.{SpawnSpec}
use pocket_dev.Server.Db.{Api, find_job, find_session}
use pocket_dev.Server.Jobs.{ExecutionConfig, CreateJob, FreshIds, StartSessionResponse, pty_payload}
use pocket_dev.Server.Jobs.Creation.{
  created, Leaves, left_queued, create-Leaves, created_session, created_token_verifies,
}
use pocket_dev.Client.{start_message, argument}

-- A connection whose first frame has a token of its own session.
gateway_opens :
    (verify : String → Option PtyTokenClaims) (m : StartMessage) (claims : PtyTokenClaims)
    (token : String) (h : PtyHandle)
    → m.token ≡ some token
    → verify token ≡ some claims
    → claims.session_id ≡ m.session_id
    → (Gateway.run verify
        (message (some (PtyClientMessage.start m)) ∷ spawned h ∷ [])
        (connect none)).1
      ≡ Gateway.resolve_spawn claims (context m)
        ∷ send (ready m.session_id)
        ∷ session_start claims (context m)
        ∷ []
unfolding Gateway.run Gateway.step connect Gateway.on_message on_start on_spawned send_message
gateway_opens verify m claims token h t v same =
    ground (arith, t, v, same, eq_iff claims.session_id m.session_id)

-- What runs in the container for the client's arguments: the command, in a login shell, or the shell
-- alone where none is given or it is blank.
abbrev pub in_shell : Text → Option (Option Text) → List Text
in_shell shell (some (some command)) = elim (trim command) [
  | [] ↦ shell ∷ codes "-l" ∷ []
  | _ ∷ _ ↦ shell ∷ codes "-lc" ∷ command ∷ []
]
in_shell shell _ = shell ∷ codes "-l" ∷ []

-- The call of docker that runs it.
abbrev pub docker_exec : Text → Text → Option (Option Text) → SpawnSpec
docker_exec container_id shell given = record {
  command = codes "docker";
  args =
      codes "exec"
      ∷ codes "-i"
      ∷ codes "-t"
      ∷ codes "-w"
      ∷ codes "/workspace"
      ∷ codes "-e"
      ∷ codes "TERM=xterm-256color"
      ∷ container_id
      ∷ in_shell shell given;
  cwd = none;
  env = [];
  cols = none;
  rows = none;
}

trimmed_line :
    (shell command s : Text)
    → run_args shell s command
      ≡ elim s [ [] ↦ shell ∷ codes "-l" ∷ [] | _ ∷ _ ↦ shell ∷ codes "-lc" ∷ command ∷ [] ]
trimmed_line shell command [] = refl
trimmed_line shell command (c ∷ s) = refl

same_line :
    (shell : Text) (o : Option (Option Text)) → shell_args shell (argument o) ≡ in_shell shell o
same_line shell none = refl
same_line shell (some none) = refl
same_line shell (some (some command)) = trimmed_line shell command (trim command)

same_spec :
    (shell : Text) (entry : SessionEntry) (r : StartSessionResponse) (project_id : String)
    (args : Dict (Option Text)) (columns rows : Option ℕ)
    → docker_spec shell entry (context (start_message r project_id args columns rows))
      ≡ docker_exec (codes entry.container_id) shell (get "command" args)
unfolding docker_spec start_message
same_spec shell entry r project_id args columns rows =
    ap
      (λ line. record (docker_exec (codes entry.container_id) shell none) {
        args =
            codes "exec"
            ∷ codes "-i"
            ∷ codes "-t"
            ∷ codes "-w"
            ∷ codes "/workspace"
            ∷ codes "-e"
            ∷ codes "TERM=xterm-256color"
            ∷ codes entry.container_id
            ∷ line;
      })
      (same_line shell (get "command" args))

-- A session whose job has been provisioned.
worker_spawns :
    (d : RunCommandJobData) (w : Worker) (container_id : String) (shell : Text) (started now : ℕ)
    (claims : PtyTokenClaims) (ctx : StartContext)
    → d.user_id ≡ claims.sub
    → resolve_spawn shell claims ctx
        (get d.session_id (Jobs.step (provisioned d container_id started now) w).0.registry)
      ≡ (attach ctx.session_id ∷ [], ok (docker_spec shell (new_entry d container_id) ctx))
unfolding Jobs.step resolve_spawn
worker_spawns d w container_id shell started now claims ctx mine =
    rw
      (
        get-put d.session_id d.session_id (new_entry d container_id) w.registry,
        eq_refl d.session_id,
      )
      (ground (arith, mine, eq_iff d.user_id claims.sub))

module _ (sign : Payload → String → String) (config : ExecutionConfig) (ids : FreshIds)
    (user_id tier : String) (dto : CreateJob) (now : ℕ) (decode : String → Option Payload) where
  -- From a request to a terminal. A creation that succeeds in the cloud puts one job in the queue. When
  -- the worker has provisioned its container, the client's first frame opens the terminal: the gateway
  -- accepts the token of the answer, asks what to run with the user's claims, and is told to run docker with
  -- the client's command in a login shell in this container; with the terminal started, the client is told that it is ready.
  -- The ids are new, decoding gives back what was signed, and that is not empty.
  pub session_opens :
      (a : Api) (r : StartSessionResponse) (args : Dict (Option Text)) (columns rows : Option ℕ)
      (w : Worker) (container_id : String) (shell : Text) (started later : ℕ) (h : PtyHandle)
      → ((ttl : String)
          → decode (sign (pty_payload user_id ids.session_id dto.project_id) ttl)
            ≡ some (pty_payload user_id ids.session_id dto.project_id))
      → ((ttl : String) → sign (pty_payload user_id ids.session_id dto.project_id) ttl ≢ "")
      → (created sign config ids user_id tier dto now a).0 ≡ ok r
      → r.target ≡ cloud
      → find_job ids.job_id a.db ≡ none
      → find_session ids.session_id a.db ≡ none
      → let queued = left_queued sign config ids user_id tier dto now in
        let m = start_message r dto.project_id args columns rows in
        let claims : PtyTokenClaims = record {
          sub = user_id;
          session_id = r.session_id;
          project_id = dto.project_id;
        } in
        ((created sign config ids user_id tier dto now a).1.queue ≡ a.queue ++ queued ∷ [])
        × ((Gateway.run
              (jwt_verifier decode)
              (message (some (PtyClientMessage.start m)) ∷ spawned h ∷ [])
              (connect none)).1
            ≡ Gateway.resolve_spawn claims (context m)
              ∷ send (ready r.session_id)
              ∷ session_start claims (context m)
              ∷ [])
        × (resolve_spawn shell claims (context m) (
              get r.session_id
                (Jobs.step (provisioned queued.payload container_id started later) w).0.registry)
            ≡ (
              attach r.session_id ∷ [],
              ok (docker_exec (codes container_id) shell (get "command" args)),
            ))
  unfolding start_message
  session_opens a r args columns rows w container_id shell started later h decodes filled ok_r there
        f g =
      let created_r = created_session sign config ids user_id tier dto now a r ok_r in
      let left = create-Leaves sign config ids user_id tier dto now a r ok_r f g in
      let m = start_message r dto.project_id args columns rows in
      let claims : PtyTokenClaims = record {
        sub = user_id;
        session_id = r.session_id;
        project_id = dto.project_id;
      } in
      let queued = left_queued sign config ids user_id tier dto now in
      let registry =
        (Jobs.step (provisioned queued.payload container_id started later) w).0.registry in
      let (_, _, queue) : Leaves sign config ids user_id tier dto now cloud a.queue
          (created sign config ids user_id tier dto now a).1 =
        rw there at left.1 in
      let verifies =
        created_token_verifies sign config ids user_id tier dto now decode a r decodes filled
          ok_r in
      (
        queue,
        gateway_opens (jwt_verifier decode) m claims r.ws_token h refl verifies refl,
        ap (λ id. resolve_spawn shell claims (context m) (get id registry)) created_r
            ∙ worker_spawns queued.payload w container_id shell started later claims (context m)
                refl
            ∙ ap (λ spec. (attach r.session_id ∷ [], ok spec))
                (same_spec shell (new_entry queued.payload container_id) r dto.project_id args
                  columns rows),
      )
