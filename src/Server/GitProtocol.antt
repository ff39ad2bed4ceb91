-- ===== src/Server/GitProtocol.antt =====
-- The answers of the git panel (packages/shared/src/git-protocol.ts).
use pocket_dev.Base.{ℕ, Text, Bool, Option, List}

pub record GitFileStatus : Type 0 where
  pub path : Text
  pub status : Text
  pub staged : Bool

pub record GitStatusResult : Type 0 where
  pub branch : Text
  pub ahead : ℕ
  pub behind : ℕ
  pub clean : Bool
  pub files : List GitFileStatus

-- The summary as its three numbers.
pub record GitCommitResult : Type 0 where
  pub commit : Text
  pub branch : Text
  pub changed : ℕ
  pub inserted : ℕ
  pub deleted : ℕ

pub record GitLogEntry : Type 0 where
  pub hash : Text
  pub message : Text
  pub author : Text
  pub date : Text

pub record GitBranchInfo : Type 0 where
  pub current : Text
  pub all : List Text

pub record GitDiffResult : Type 0 where
  pub path : Option Text
  pub diff : Text
