-- ===== src/Server/Http.antt =====
-- The routes on the files and the repository of a project (server/src/files/files.controller.ts and
-- server/src/git/git.controller.ts): the body is validated, the project is looked up, and then the
-- service runs.
pub mod Ownership
pub mod Scope
mod Tests
use pocket_dev.Base.{
  ℕ, ◌*◌, String, Text, codes, Bool, true, false, ◌&&◌, Option, none, some, List, [], ◌∷◌, leb,
  characters, if◌then◌else◌, Result, ok, err, bad_request,
}
use pocket_dev.Server.Execute.{Execute, return, throw, ◌>>=◌, ◌>>◌}
use pocket_dev.Server.Db.{Db, Project}
use pocket_dev.Server.Projects.{find_project_of}
use pocket_dev.Server.SimpleGit.{SimpleGit}
use pocket_dev.Server.Git
use pocket_dev.Server.GitProtocol.{
  GitStatusResult, GitCommitResult, GitLogEntry, GitBranchInfo, GitDiffResult,
}
use pocket_dev.Files.Disk.{Bytes, Node}
use pocket_dev.Files.Store
use pocket_dev.Files.Store.{Opened}
use pocket_dev.Files.Tree
use pocket_dev.Files.Tree.{FileNode}

-- `WriteFileDto`, `CommitDto` and `SetRemoteDto`: what the validation lets through.
abbrev is_within : ℕ → ℕ → Text → Bool
is_within least most s = leb least (characters s) && leb (characters s) most

pub record WriteFile : Type 0 where
  pub path : Text
  pub content : Text

abbrev pub valid_write : WriteFile → Bool
valid_write dto = is_within 1 1024 dto.path && is_within 0 (2 * 1024 * 1024) dto.content

abbrev pub valid_message : Text → Bool
valid_message message = is_within 1 500 message

abbrev pub valid_url : Text → Bool
valid_url url = is_within 1 500 url

pub data FileRequest : Type 0 where
  tree : FileRequest
  read : Text → FileRequest
  write : WriteFile → FileRequest
  remove : Text → FileRequest

pub data FileResponse : Type 0 where
  nodes : FileNode → FileResponse
  content : Text → Opened → FileResponse
  written : Text → ℕ → FileResponse
  deleted : FileResponse

pub data GitRequest : Type 0 where
  status log branches init push pull : GitRequest
  diff : Option Text → GitRequest
  remote commit : Text → GitRequest

pub data GitResponse : Type 0 where
  status_of : GitStatusResult → GitResponse
  entries : List GitLogEntry → GitResponse
  branches_of : GitBranchInfo → GitResponse
  diff_of : GitDiffResult → GitResponse
  initialized pushed remote_set : Text → GitResponse
  committed : GitCommitResult → GitResponse
  pulled : GitResponse

module _ {S A : Type 0} where
  -- A body that the validation refuses never reaches the handler.
  abbrev validated : Bool → Execute S A → Execute S A
  validated true m = m
  validated false m = throw (bad_request "Bad Request")

  -- `own`, and the `findOne` of the files' handlers.
  abbrev owned : Result Project → Execute S A → Execute S A
  owned (ok _) m = m
  owned (err e) m = throw e

  abbrev pub own : String → String → Db → Execute S A → Execute S A
  own user_id project_id db m = owned (find_project_of user_id project_id db).0 m

abbrev pub valid_file_request : FileRequest → Bool
valid_file_request (write dto) = valid_write dto
valid_file_request _ = true

abbrev pub valid_git_request : GitRequest → Bool
valid_git_request (remote url) = valid_url url
valid_git_request (commit message) = valid_message message
valid_git_request _ = true

-- A read changes nothing.
abbrev reading : {A : Type 0} → (Node → Result A) → Execute Node A
reading f disk = (f disk, disk)

module _ (root : List Text) (encode : Text → Bytes) (decode : Bytes → Text)
    (not_after : Text → Text → Bool) (user_id project_id : String) where
  -- The handlers of the files after the check.
  unfoldable pub serve_files : FileRequest → Execute Node FileResponse
  serve_files tree = do
    t ← Tree.tree not_after root (codes user_id) (codes project_id)
    return (nodes t)
  serve_files (read path) = do
    opened ← reading (Store.read_text root decode (codes user_id) (codes project_id) path)
    return (content path opened)
  serve_files (write dto) = do
    size ← Store.write_text root encode (codes user_id) (codes project_id) dto.path dto.content
    return (written dto.path size)
  serve_files (remove path) = do
    Store.remove root (codes user_id) (codes project_id) path
    return deleted

  unfoldable pub handle_files : Db → FileRequest → Execute Node FileResponse
  handle_files db request =
      validated (valid_file_request request) (own user_id project_id db (serve_files request))

module _ {R : Type 0} (git : SimpleGit R) (root : List Text) (user_id project_id : String) where
  -- The handlers of the git panel after the check.
  unfoldable pub serve_git : GitRequest → Execute R GitResponse
  serve_git status = do
    s ← Git.status git root (codes user_id) (codes project_id)
    return (status_of s)
  serve_git log = do
    lines ← Git.log git root (codes user_id) (codes project_id)
    return (entries lines)
  serve_git branches = do
    b ← Git.branches git root (codes user_id) (codes project_id)
    return (branches_of b)
  serve_git (diff path) = do
    d ← Git.diff git root (codes user_id) (codes project_id) path
    return (diff_of d)
  serve_git init = do
    branch ← Git.init git root (codes user_id) (codes project_id)
    return (initialized branch)
  serve_git (remote url) = do
    set ← Git.set_remote git root (codes user_id) (codes project_id) url
    return (remote_set set)
  serve_git (commit message) = do
    c ← Git.commit git root (codes user_id) (codes project_id) message
    return (committed c)
  serve_git push = do
    branch ← Git.push git root (codes user_id) (codes project_id)
    return (pushed branch)
  serve_git pull = do Git.pull git root (codes user_id) (codes project_id); return pulled

  unfoldable pub handle_git : Db → GitRequest → Execute R GitResponse
  handle_git db request =
      validated (valid_git_request request) (own user_id project_id db (serve_git request))
