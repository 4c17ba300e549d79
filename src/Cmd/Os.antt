-- ===== src/Cmd/Os.antt =====
-- What the commands of cmd/claude-bridge ask of the operating system.
use claude_bridge.Base.{ℕ, Bool, ◌≤◌, ◌+◌}
use claude_bridge.Base.Int.{ℤ}
use claude_bridge.Text.{Str}
use claude_bridge.Config.Paths.{User}

-- A call that can fail. `dial` opens a connection to the socket at a path, and `start_detached` starts
-- `serve --detach` in a new session. `dup2_stdout` and `dup2_stderr` put the open log file in the
-- place of that stream.
pub data Action : Type 0 where
  mkdir_all : Str → Action
  open_lock : Str → Action
  flock : Action
  close_lock : Action
  stat : Str → Action
  dial : Str → Action
  close_client : Action
  remove : Str → Action
  listen : Str → Action
  chmod : Str → Action
  close_listener : Action
  write_file : Str → Str → Action
  executable : Action
  start_detached : Action
  open_log : Str → Action
  dup2_stdout : Action
  dup2_stderr : Action
  close_log : Action
  sleep : ℕ → Action
  kill : ℤ → Action

-- A system with its state in S: a call and whether it succeeded, and the clock.
pub record Os (S : Type 0) : Type 0 where
  pub user : User
  pub act : Action → S → S × Bool
  pub now : S → ℕ

-- Calls take time, and sleeping takes at least the time asked for.
pub record IsClocked {S : Type 0} (os : Os S) : Type 0 where
  pub act_later : (a : Action) (s : S) → os.now s ≤ os.now (os.act a s).0
  pub sleep_later : (d : ℕ) (s : S) → os.now s + d ≤ os.now (os.act (sleep d) s).0
