-- ===== src/Server/Git.antt =====
-- Git on a project's files (server/src/git/git.service.ts).
-- The library simple-git is a parameter: its calls at a directory, over a state of which nothing is known.
pub mod Keeps
pub mod Remote
use Prim.Native.Char.{code}
use pocket_dev.Base.{
  ℕ, String, Text, codes, trim, is_space, Bool, true, false, ◌&&◌, not, Option, none, some, List,
  [], ◌∷◌, ◌++◌, ◌==◌, text_eq, any, take, map, if◌then◌else◌, get_or_else, Result, ok, err,
  Exception, bad_request, not_found, forbidden, conflict, unauthorized, failure,
}
use pocket_dev.Server.Execute.{Execute, return, throw, ◌>>=◌, ◌>>◌}
use pocket_dev.Server.SimpleGit.{
  Repository, StatusFile, Status, Commit, LogLine, Branches, SimpleGit,
}
use pocket_dev.Server.GitProtocol.{
  GitFileStatus, GitStatusResult, GitCommitResult, GitLogEntry, GitBranchInfo, GitDiffResult,
}
use pocket_dev.Files.Paths.{drop_last}
use pocket_dev.Files.SafePath.{project_dir}

-- `a || b` on texts.
abbrev pub or_text : Text → Text → Text
or_text [] b = b
or_text (c ∷ s) b = c ∷ s

-- One file of the answer to `status`.
unfoldable pub file_status : StatusFile → GitFileStatus
unfolding trim
file_status f = record {
  path = f.path;
  status = or_text (trim (f.index ++ f.working_dir)) (codes "?");
  staged = not (text_eq f.index (codes " ")) && not (text_eq f.index (codes "?"));
}

abbrev pub status_result : Status → GitStatusResult
status_result s = record {
  branch = get_or_else s.current (codes "HEAD");
  ahead = s.ahead;
  behind = s.behind;
  clean = s.is_clean;
  files = map file_status s.files;
}

abbrev pub commit_result : Commit → Status → GitCommitResult
commit_result c s = record {
  commit = or_text c.commit (codes "(no changes)");
  branch = get_or_else s.current (codes "main");
  changed = c.changes;
  inserted = c.insertions;
  deleted = c.deletions;
}

abbrev pub log_entry : LogLine → GitLogEntry
log_entry c = record {
  hash = take 8 c.hash;
  message = c.message;
  author = c.author_name;
  date = c.date;
}

-- The arguments of `git diff`: none for a path that is missing or empty.
abbrev pub diff_args : Option Text → List Text
diff_args none = []
diff_args (some []) = []
diff_args (some (c ∷ path)) = codes "--" ∷ (c ∷ path) ∷ []

abbrev message_of : Exception → String
message_of (bad_request m) = m
message_of (not_found m) = m
message_of (forbidden m) = m
message_of (conflict m) = m
message_of (unauthorized m) = m
message_of (failure m) = m

abbrev pub no_repository : Exception
no_repository = bad_request "Not a git repository — run git init first"

-- `err.message.trim()`
trim_message_start : String → String
unfolding is_space
trim_message_start String.[] = String.[]
trim_message_start (String.◌∷◌ c s) =
    let rest = trim_message_start s in if is_space (code c) then rest else String.◌∷◌ c s

trim_message_end : String → String
unfolding is_space
trim_message_end String.[] = String.[]
trim_message_end (String.◌∷◌ c s) = elim (trim_message_end s) [
  | String.[] ↦ if is_space (code c) then String.[] else String.◌∷◌ c String.[]
  | String.◌∷◌ d t ↦ String.◌∷◌ c (String.◌∷◌ d t)
]

-- The error of a rejected call, as `wrap` throws it again.
unfoldable pub rejected : Exception → Exception
unfolding trim_message_start trim_message_end
rejected e = bad_request (trim_message_end (trim_message_start (message_of e)))

module _ {R A : Type 0} where
  abbrev pub rethrown : Result A × R → Result A × R
  rethrown (ok a, r) = (ok a, r)
  rethrown (err e, r) = (err (rejected e), r)

  -- `wrap`
  abbrev pub wrap : Execute R A → Execute R A
  wrap m r = rethrown (m r)

module _ {R : Type 0} where
  abbrev pub forgiven : Result (Unit {0}) × R → Result (Unit {0}) × R
  forgiven (_, r) = (ok tt, r)

  -- `catch(() => undefined)`
  abbrev pub forgive : Execute R Unit → Execute R Unit
  forgive m r = forgiven (m r)

abbrev pub repository : List Text → Text → Text → Repository
repository root user_id project_id =
    let dir = project_dir root user_id project_id in record { dir = dir; ceiling = drop_last dir }

module _ {R : Type 0} (git : SimpleGit R) (root : List Text) where
  -- The private method `git`: the directory is made on demand.
  unfoldable pub open_repository : Text → Text → Execute R Repository
  open_repository user_id project_id = do
    git.make_dirs (project_dir root user_id project_id)
    return (repository root user_id project_id)

  unfoldable pub require_repo : Repository → Execute R Unit
  require_repo g = do
    is_repo ← git.check_is_repo g
    if is_repo then return tt else throw no_repository

  -- What every method but `init` begins with.
  abbrev pub opened : Text → Text → Execute R Repository
  opened user_id project_id = do g ← open_repository user_id project_id; require_repo g; return g

  abbrev pub configured : Repository → Execute R Unit
  configured g = do
    wrap (git.init g (codes "--initial-branch=main" ∷ []))
    forgive (git.add_config g (codes "user.name") (codes "PocketDev"))
    forgive (git.add_config g (codes "user.email") (codes "pocketdev@local"))

  -- `init` answers with the branch.
  unfoldable pub init : Text → Text → Execute R Text
  unfolding open_repository
  init user_id project_id = do
    g ← open_repository user_id project_id
    is_repo ← git.check_is_repo g
    if is_repo then return tt else configured g
    s ← git.status g
    return (get_or_else s.current (codes "main"))

  unfoldable pub set_remote : Text → Text → Text → Execute R Text
  unfolding open_repository require_repo
  set_remote user_id project_id url = do
    g ← opened user_id project_id
    remotes ← git.get_remotes g
    if any (λ name. text_eq name (codes "origin")) remotes
        then wrap (git.set_url g (codes "origin") url)
        else wrap (git.add_remote g (codes "origin") url)
    return url

  unfoldable pub status : Text → Text → Execute R GitStatusResult
  unfolding open_repository require_repo
  status user_id project_id = do
    g ← opened user_id project_id
    s ← git.status g
    return (status_result s)

  unfoldable pub commit : Text → Text → Text → Execute R GitCommitResult
  unfolding open_repository require_repo
  commit user_id project_id message = do
    g ← opened user_id project_id
    wrap (git.add g (codes "."))
    c ← wrap (git.commit g message)
    s ← git.status g
    return (commit_result c s)

  -- `push` answers with the branch.
  unfoldable pub push : Text → Text → Execute R Text
  unfolding open_repository require_repo
  push user_id project_id = do
    g ← opened user_id project_id
    s ← git.status g
    let branch = get_or_else s.current (codes "main")
    wrap (git.push g (codes "-u" ∷ codes "origin" ∷ branch ∷ []))
    return branch

  unfoldable pub pull : Text → Text → Execute R Unit
  unfolding open_repository require_repo
  pull user_id project_id = do g ← opened user_id project_id; wrap (git.pull g)

  unfoldable pub log : Text → Text → Execute R (List GitLogEntry)
  unfolding open_repository require_repo
  log user_id project_id = do
    g ← opened user_id project_id
    lines ← wrap (git.log g 50)
    return (map log_entry lines)

  unfoldable pub branches : Text → Text → Execute R GitBranchInfo
  unfolding open_repository require_repo
  branches user_id project_id = do
    g ← opened user_id project_id
    b ← git.branch_local g
    return (record { current = b.current; all = b.all })

  unfoldable pub diff : Text → Text → Option Text → Execute R GitDiffResult
  unfolding open_repository require_repo
  diff user_id project_id path = do
    g ← opened user_id project_id
    text ← wrap (git.diff g (diff_args path))
    return (record { path = path; diff = text })
