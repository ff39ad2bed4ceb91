-- ===== src/Config/Shell.antt =====
-- The configuration of the desktop agent (services/desktop-agent/src/config.ts), and the choice of its
-- shell. The platform, the files that exist and the joining of paths are parameters.
use pocket_dev.Base.{
  ℕ, Text, codes, Bool, true, false, Option, none, some, List, [], ◌∷◌, ◌++◌, nat_eq, if◌then◌else◌,
  get_or_else,
}
use pocket_dev.Config.{Environment, Parsed, num, filled, default_secret, resolve_from}

-- `split(delimiter)`
unfoldable pub split_at : ℕ → Text → List Text
split_at d [] = [] ∷ []
split_at d (c ∷ s) = elim (split_at d s) [
  | [] ↦ (c ∷ []) ∷ []
  | f ∷ fs ↦ if nat_eq c d then [] ∷ f ∷ fs else (c ∷ f) ∷ fs
]

-- `config`
pub record DesktopConfig : Type 0 where
  pub port : Parsed
  pub bind_host : Text
  pub api_url : Text
  pub token : Text
  pub tunnel_url : Option Text
  pub jwt_secret : Text
  pub shell : Text
  pub project_root : List Text
  pub heartbeat_ms : Parsed

module _ (is_windows : Bool) (exists : Text → Bool) (join : Text → Text → Text) where
  abbrev pub delimiter : ℕ
  delimiter = if is_windows then b';' else b':'

  abbrev pub exts : List Text
  exts = if is_windows then codes ".exe" ∷ [] ∷ [] else [] ∷ []

  unfoldable pub first_ext : Text → Text → List Text → Option Text
  first_ext dir exe [] = none
  first_ext dir exe (ext ∷ rest) =
      let later = first_ext dir exe rest in
      let full = join dir (exe ++ ext) in if exists full then some full else later

  abbrev or_later : Option Text → Option Text → Option Text
  or_later (some full) later = some full
  or_later none later = later

  unfoldable pub first_dir : Text → List Text → Option Text
  unfolding first_ext
  first_dir exe [] = none
  first_dir exe ([] ∷ dirs) = first_dir exe dirs
  first_dir exe ((c ∷ dir) ∷ dirs) = or_later (first_ext (c ∷ dir) exe exts) (first_dir exe dirs)

  -- `findOnPath`
  unfoldable pub find_on_path : Environment → Text → Option Text
  unfolding first_dir split_at
  find_on_path env exe = first_dir exe (split_at delimiter (get_or_else (env "PATH") []))

  abbrev platform_shell : Bool → Environment → Text
  platform_shell true env = get_or_else (find_on_path env (codes "pwsh")) (codes "powershell.exe")
  platform_shell false env = get_or_else (env "SHELL") (codes "bash")

  -- `defaultShell`
  unfoldable pub default_shell : Environment → Text
  unfolding find_on_path
  default_shell env = get_or_else (filled (env "DESKTOP_SHELL")) (platform_shell is_windows env)

  -- `env` is the environment after `loadSharedEnv`.
  unfoldable pub desktop_config : List Text → Environment → DesktopConfig
  unfolding default_shell num
  desktop_config cwd env = record {
    port = num (env "DESKTOP_AGENT_PORT") 4000;
    bind_host = get_or_else (env "DESKTOP_BIND") (codes "127.0.0.1");
    api_url = get_or_else (env "POCKETDEV_API_URL") (codes "http://localhost:3000");
    token = get_or_else (env "POCKETDEV_TOKEN") [];
    tunnel_url = filled (env "POCKETDEV_TUNNEL_URL");
    jwt_secret = get_or_else (env "JWT_SECRET") default_secret;
    shell = default_shell env;
    project_root = resolve_from cwd (get_or_else (env "DESKTOP_PROJECT_ROOT") []);
    heartbeat_ms = num (env "DESKTOP_HEARTBEAT_MS") 15000;
  }
