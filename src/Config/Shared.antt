-- ===== src/Config/Shared.antt =====
-- That the programs of one repository read the same settings (server/src/config/configuration.ts,
-- services/execution-worker/src/config.ts, packages/pty-core/src/env.ts, server/src/main.ts).
use pocket_dev.Base.{
  ◌≤◌, Text, codes, text_eq, text_eq_iff, ◌≡◌, ◌≢◌, refl, Bool, true, some, List, [], ◌∷◌, ◌++◌,
  length, arith, get_or_else, ok,
}
use mathlib.Core.List.{append_assoc}
use pocket_dev.Pty.Root.{IsNearest, find_repo_root-nearest}
use pocket_dev.Config.{
  Environment, default_secret, configuration, worker_config, load_shared_env, api_env, bootstrap,
}

module _ (marked : List Text → Bool) (env_file : List Text → Environment) where
  -- The server, started in its directory, and the worker, started anywhere in the repository at most
  -- nine levels deep, keep the projects' files in the same directory and have the same secret, so that
  -- the worker's containers see what was synced and the server's tokens open the worker's terminals.
  -- The root alone has the marker, and neither program was given another value of the two variables.
  pub one_installation :
      (root below : List Text) (server_env worker_env : Environment)
      → marked root ≡ true
      → IsNearest marked root (codes "server" ∷ [])
      → IsNearest marked root below
      → length below ≤ 9
      → server_env "FILE_STORE_ROOT" ≡ worker_env "FILE_STORE_ROOT"
      → server_env "JWT_SECRET" ≡ worker_env "JWT_SECRET"
      → let home = root ++ codes "server" ∷ [] in
        let server = configuration marked home (api_env marked env_file home server_env) in
        let worker = worker_config marked env_file (root ++ below) worker_env in
        (server.file_store_root ≡ worker.file_store_root) × (server.jwt_secret ≡ worker.jwt_secret)
  unfolding configuration worker_config load_shared_env
  one_installation root below server_env worker_env hit alone near depth store secret =
      let from_server =
        find_repo_root-nearest marked root (codes "server" ∷ []) hit alone (omega arith) in
      let from_worker = find_repo_root-nearest marked root below hit near depth in
      rw
        (
          from_server,
          from_worker,
          append_assoc root (codes "server" ∷ []) (codes ".env" ∷ []),
          store,
          secret,
        )
        (refl, refl)

  -- In production the server starts only with a secret of its own, and then signs with it.
  pub production_secret :
      (cwd : List Text) (env : Environment)
      → env "NODE_ENV" ≡ some (codes "production")
      → bootstrap env ≡ ok tt
      → (configuration marked cwd env).jwt_secret ≢ default_secret
  unfolding bootstrap configuration
  production_secret cwd env production started same =
      let node_env = get_or_else (env "NODE_ENV") [] in
      let secret = get_or_else (env "JWT_SECRET") default_secret in
      let a : text_eq node_env (codes "production") ≡ true =
        (text_eq_iff node_env (codes "production")).1 (rw production refl) in
      let b : text_eq secret default_secret ≡ true = (text_eq_iff secret default_secret).1 same in
      absurd (cc (rw (a, b) at started))
