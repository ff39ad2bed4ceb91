-- ===== src/Server/SimpleGit.antt =====
-- What the git service (server/src/git/git.service.ts) calls of the library simple-git, at a directory and
-- over a state of which nothing is known; and the calls seen from the directory that they run in.
use pocket_dev.Base.{ℕ, Text, Bool, Option, List}
use pocket_dev.Server.Execute.{Execute}

-- What `simpleGit(dir).env(…)` runs with: the directory, and where the search for a `.git` stops.
pub record Repository : Type 0 where
  pub dir : List Text
  pub ceiling : List Text

-- One file of `git status`: its letters in the index and in the working directory.
pub record StatusFile : Type 0 where
  pub path : Text
  pub index : Text
  pub working_dir : Text

pub record Status : Type 0 where
  pub current : Option Text
  pub ahead : ℕ
  pub behind : ℕ
  pub is_clean : Bool
  pub files : List StatusFile

pub record Commit : Type 0 where
  pub commit : Text
  pub changes : ℕ
  pub insertions : ℕ
  pub deletions : ℕ

pub record LogLine : Type 0 where
  pub hash : Text
  pub message : Text
  pub author_name : Text
  pub date : Text

pub record Branches : Type 0 where
  pub current : Text
  pub all : List Text

-- The calls that the service makes; each may reject.
pub record SimpleGit (R : Type 0) : Type 0 where
  pub make_dirs : List Text → Execute R Unit
  pub check_is_repo : Repository → Execute R Bool
  pub init : Repository → List Text → Execute R Unit
  pub add_config : Repository → Text → Text → Execute R Unit
  pub status : Repository → Execute R Status
  pub get_remotes : Repository → Execute R (List Text)
  pub set_url : Repository → Text → Text → Execute R Unit
  pub add_remote : Repository → Text → Text → Execute R Unit
  pub add : Repository → Text → Execute R Unit
  pub commit : Repository → Text → Execute R Commit
  pub push : Repository → List Text → Execute R Unit
  pub pull : Repository → Execute R Unit
  pub log : Repository → ℕ → Execute R (List LogLine)
  pub branch_local : Repository → Execute R Branches
  pub diff : Repository → List Text → Execute R Text
