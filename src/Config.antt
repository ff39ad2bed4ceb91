-- ===== src/Config.antt =====
-- How the programs read their environment: server/src/config/configuration.ts and server/src/main.ts,
-- services/execution-worker/src/config.ts, services/desktop-agent/src/config.ts and `loadSharedEnv` of
-- packages/pty-core/src/env.ts. What a file of variables holds is a parameter, and so are the
-- directories that hold the marker of the repository. A variable that is a number is below 2 ^ 53.
pub mod Shell
pub mod Shared
mod Tests
use pocket_dev.Base.{
  ℕ, ◌+◌, ◌-◌, ◌*◌, String, Text, codes, text_eq, trim_start, Bool, true, false, ◌&&◌, not, Option,
  none, some, List, [], ◌∷◌, ◌++◌, leb, nat_eq, if◌then◌else◌, get_or_else, Result, ok, err,
  failure,
}
use pocket_dev.Base.Patterns.{starts_with}
use pocket_dev.Files.Paths.{split, resolve}
use pocket_dev.Pty.Root.{find_repo_root}

abbrev pub Environment : Type 0
Environment = String → Option Text

-- A variable that is set already is not touched by a file.
abbrev pub set_or : Option Text → Option Text → Option Text
set_or (some v) from_file = some v
set_or none from_file = from_file

abbrev pub loaded : Environment → Environment → Environment
loaded env file name = set_or (env name) (file name)

pub data Parsed : Type 0 where
  nan : Parsed
  natural negative : ℕ → Parsed

abbrev is_digit : ℕ → Bool
is_digit c = leb b'0' c && leb c b'9'

unfoldable pub digits : ℕ → Text → ℕ
digits n [] = n
digits n (c ∷ s) = let more = digits (n * 10 + (c - b'0')) s in if is_digit c then more else n

abbrev unsigned : (ℕ → Parsed) → Text → Parsed
unsigned sign [] = nan
unsigned sign (c ∷ s) = if is_digit c then sign (digits (c - b'0') s) else nan

abbrev signed : Text → Parsed
signed [] = nan
signed (c ∷ s) =
    if nat_eq c b'-'
    then unsigned negative s
    else if nat_eq c b'+'
    then unsigned natural s
    else unsigned natural (c ∷ s)

-- `parseInt(s, 10)`
unfoldable pub parse_int : Text → Parsed
unfolding digits
parse_int s = signed (trim_start s)

abbrev finite_or : Parsed → ℕ → Parsed
finite_or nan fallback = natural fallback
finite_or n fallback = n

-- `num` of the worker and of the desktop agent.
unfoldable pub num : Option Text → ℕ → Parsed
unfolding parse_int
num v fallback = finite_or (parse_int (get_or_else v [])) fallback

-- `v || undefined`
abbrev pub filled : Option Text → Option Text
filled (some (c ∷ s)) = some (c ∷ s)
filled _ = none

-- `resolve(dir, path)`
abbrev pub resolve_from : List Text → Text → List Text
resolve_from dir path =
    if starts_with (codes "/") path then resolve [] (split path) else resolve dir (split path)

abbrev pub default_secret : Text
default_secret = codes "change-me-in-production"

pub record Redis : Type 0 where
  pub host : Text
  pub port : Parsed
  pub password : Option Text

-- `AppConfig`
pub record AppConfig : Type 0 where
  pub node_env : Text
  pub port : Parsed
  pub jwt_secret : Text
  pub jwt_expires_in : Text
  pub redis : Redis
  pub file_store_root : List Text
  pub worker_ws_url : Text
  pub ws_token_ttl : Text
  pub desktop_heartbeat_window_ms : Parsed

-- The server's configuration; its own `findRepoRoot` is the code of packages/pty-core.
unfoldable pub configuration : (List Text → Bool) → List Text → Environment → AppConfig
unfolding find_repo_root parse_int
configuration marked cwd env = record {
  node_env = get_or_else (env "NODE_ENV") (codes "development");
  port = parse_int (get_or_else (env "PORT") (codes "3000"));
  jwt_secret = get_or_else (env "JWT_SECRET") default_secret;
  jwt_expires_in = get_or_else (env "JWT_EXPIRES_IN") (codes "7d");
  redis = record {
    host = get_or_else (env "REDIS_HOST") (codes "localhost");
    port = parse_int (get_or_else (env "REDIS_PORT") (codes "6379"));
    password = filled (env "REDIS_PASSWORD");
  };
  file_store_root =
      resolve_from (find_repo_root marked cwd)
        (get_or_else (env "FILE_STORE_ROOT") (codes "./.pocketdev-store"));
  worker_ws_url = get_or_else (env "WORKER_WS_URL") (codes "ws://localhost:4100");
  ws_token_ttl = get_or_else (env "PTY_TOKEN_TTL") (codes "5m");
  desktop_heartbeat_window_ms =
      parse_int (get_or_else (env "DESKTOP_HEARTBEAT_WINDOW_MS") (codes "30000"));
}

-- The first lines of `bootstrap`.
unfoldable pub bootstrap : Environment → Result (Unit {0})
bootstrap env =
    if text_eq (get_or_else (env "NODE_ENV") []) (codes "production")
      && text_eq (get_or_else (env "JWT_SECRET") default_secret) default_secret
    then err (failure "JWT_SECRET must be set to a strong value in production")
    else ok tt

-- `config` of the worker, without the CPUs, which are a decimal number.
pub record WorkerConfig : Type 0 where
  pub redis : Redis
  pub jwt_secret : Text
  pub pty_port : Parsed
  pub file_store_root : List Text
  pub image : Text
  pub runtime : Text
  pub shell : Text
  pub memory_mb : Parsed
  pub pids_limit : Parsed
  pub network : Bool
  pub readonly_rootfs : Bool
  pub user : Option Text
  pub concurrency : Parsed
  pub connect_timeout_s : Parsed
  pub queue_wait_s : Parsed
  pub max_duration_s : Parsed

abbrev is_value : Option Text → Text → Bool
is_value none v = false
is_value (some u) v = text_eq u v

module _ (marked : List Text → Bool) (env_file : List Text → Environment) where
  -- `loadSharedEnv`: the environment afterwards, and the root.
  unfoldable pub load_shared_env : List Text → Environment → Environment × List Text
  unfolding find_repo_root
  load_shared_env cwd env =
      let root = find_repo_root marked cwd in
      (loaded env (env_file (root ++ codes "server" ∷ codes ".env" ∷ [])), root)

  -- The environment of the server, which reads the file `.env` of the directory it starts in.
  abbrev pub api_env : List Text → Environment → Environment
  api_env cwd env = loaded env (env_file (cwd ++ codes ".env" ∷ []))

  abbrev worker_config_in : Environment × List Text → WorkerConfig
  worker_config_in (env, root) = record {
    redis = record {
      host = get_or_else (env "REDIS_HOST") (codes "localhost");
      port = num (env "REDIS_PORT") 6379;
      password = filled (env "REDIS_PASSWORD");
    };
    jwt_secret = get_or_else (env "JWT_SECRET") default_secret;
    pty_port = num (env "WORKER_PTY_PORT") 4100;
    file_store_root =
        resolve_from root (get_or_else (env "FILE_STORE_ROOT") (codes "./.pocketdev-store"));
    image = get_or_else (env "EXECUTION_IMAGE") (codes "node:22-bookworm-slim");
    runtime = get_or_else (env "EXECUTION_RUNTIME") (codes "runc");
    shell = get_or_else (env "EXECUTION_SHELL") (codes "bash");
    memory_mb = num (env "EXECUTION_MEMORY_MB") 512;
    pids_limit = num (env "EXECUTION_PIDS_LIMIT") 256;
    network = not (is_value (env "EXECUTION_NETWORK") (codes "0"));
    readonly_rootfs = is_value (env "EXECUTION_READONLY") (codes "1");
    user = filled (env "EXECUTION_USER");
    concurrency = num (env "WORKER_CONCURRENCY") 2;
    connect_timeout_s = num (env "SESSION_CONNECT_TIMEOUT_S") 60;
    queue_wait_s = num (env "SESSION_QUEUE_WAIT_S") 300;
    max_duration_s = num (env "SESSION_MAX_DURATION_S") 1800;
  }

  unfoldable pub worker_config : List Text → Environment → WorkerConfig
  unfolding load_shared_env num
  worker_config cwd env = worker_config_in (load_shared_env cwd env)
