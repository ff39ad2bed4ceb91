-- ===== src/Config/Tests.antt =====
-- Settings on concrete environments (server/src/config/configuration.ts and the two config.ts of
-- services).
use pocket_dev.Base.{
  Text, codes, text_eq, ◌≡◌, refl, Bool, true, false, none, some, List, [], ◌∷◌, ◌++◌, ◌==◌,
  if◌then◌else◌, err, failure, arith, trim_start,
}
use pocket_dev.Pty.Root.{IsNearest}
use pocket_dev.Config.{
  Environment, nan, natural, parse_int, num, configuration, worker_config, api_env, bootstrap,
}
use pocket_dev.Config.Shell.{find_on_path, default_shell}
use pocket_dev.Config.Shared.{one_installation}

abbrev no_variables : Environment
no_variables name = none

reads_number : parse_int (codes " 42px") ≡ natural 42
unfolding parse_int trim_start
reads_number = refl

-- The server's numbers have no fallback for a value that is none.
no_number : parse_int (codes "soon") ≡ nan
unfolding parse_int trim_start
no_number = refl

falls_back : num (some (codes "soon")) 4000 ≡ natural 4000
unfolding num trim_start
falls_back = refl

finds_pwsh :
    find_on_path true
      (λ p. text_eq p (codes "C:\\tools\\pwsh.exe"))
      (λ d f. d ++ codes "\\" ++ f)
      (λ name. if name == "PATH" then some (codes "D:\\bin;C:\\tools") else none)
      (codes "pwsh")
    ≡ some (codes "C:\\tools\\pwsh.exe")
unfolding find_on_path text_eq
finds_pwsh = refl

unix_shell : default_shell false (λ p. false) (λ d f. f) no_variables ≡ codes "bash"
unfolding default_shell
unix_shell = refl

refuses_default :
    bootstrap (λ name. if name == "NODE_ENV" then some (codes "production") else none)
    ≡ err (failure "JWT_SECRET must be set to a strong value in production")
unfolding bootstrap text_eq
refuses_default = refl

abbrev has_marker : List Text → Bool
has_marker [] = false
has_marker (s ∷ []) = true
has_marker (s ∷ t ∷ path) = false

abbrev repository : List Text
repository = codes "repo" ∷ []

abbrev file_of : List Text → Environment
file_of path name = if name == "JWT_SECRET" then some (codes "s3cret") else none

nearest : (rest : List Text) → IsNearest has_marker repository rest
nearest rest s q above = refl

one_installation_example :
    let home = repository ++ codes "server" ∷ [] in
    let server = configuration has_marker home (api_env has_marker file_of home no_variables) in
    let worker =
      worker_config has_marker file_of
        (repository ++ codes "services" ∷ codes "worker" ∷ [])
        no_variables in
    (server.file_store_root ≡ worker.file_store_root) × (server.jwt_secret ≡ worker.jwt_secret)
one_installation_example =
    one_installation has_marker file_of repository (codes "services" ∷ codes "worker" ∷ [])
      no_variables no_variables refl (nearest (codes "server" ∷ []))
      (nearest (codes "services" ∷ codes "worker" ∷ [])) (omega arith) refl refl
