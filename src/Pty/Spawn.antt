-- ===== src/Pty/Spawn.antt =====
-- What `spawnPty` asks of node-pty (packages/pty-core/src/spawn.ts, called in gateway.ts).
use pocket_dev.Base.{ℕ, String, Text, Option, none, some, List, ◌++◌, get_or_else, max}
use pocket_dev.Pty.Messages.{StartContext}

-- `SpawnSpec` of packages/pty-core/src/types.ts.
pub record SpawnSpec : Type 0 where
  pub command : Text
  pub args : List Text
  pub cwd : Option String
  pub env : List (String × String)
  pub cols : Option ℕ
  pub rows : Option ℕ

pub record PtyOptions : Type 0 where
  pub file : Text
  pub args : List Text
  pub name : String
  pub cols : ℕ
  pub rows : ℕ
  pub cwd : String
  pub env : List (String × String)

-- `{ cols: ctx.cols, rows: ctx.rows, ...spec }`: a size that the service gives wins.
abbrev first_size : Option ℕ → Option ℕ → Option ℕ
first_size (some n) _ = some n
first_size none o = o

unfoldable pub with_size : StartContext → SpawnSpec → SpawnSpec
with_size ctx spec = record spec {
  cols = first_size spec.cols ctx.cols;
  rows = first_size spec.rows ctx.rows;
}

-- The options for node-pty, with the process's own directory and environment. Of two entries for one
-- variable the later one counts, as in the spread `{ ...process.env, ...spec.env }`.
unfoldable pub spawn_pty : String → List (String × String) → SpawnSpec → PtyOptions
spawn_pty cwd env spec = record {
  file = spec.command;
  args = spec.args;
  name = "xterm-256color";
  cols = get_or_else spec.cols 80;
  rows = get_or_else spec.rows 24;
  cwd = get_or_else spec.cwd cwd;
  env = env ++ spec.env;
}

-- `resize` of the handle: no side is below 1.
unfoldable pub resize_to : ℕ → ℕ → ℕ × ℕ
resize_to cols rows = (max 1 cols, max 1 rows)
