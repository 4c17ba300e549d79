-- ===== src/Cmd/Status.antt =====
-- `stop` of cmd/claude-bridge/status.go: the daemon is found by its PID file.
pub mod Stopping
use claude_bridge.Base.{ℕ, ◌⊎◌, inl, inr, Bool, Option, none, some, List, [], ◌∷◌, if◌then◌else◌}
use claude_bridge.Base.Int.{ℤ}
use claude_bridge.Text.{Str}
use claude_bridge.Text.Trim.{trim_space}
use claude_bridge.Text.Decimal.{atoi}
use claude_bridge.Config.{Config, FileRead, absent, failed, content}
use claude_bridge.Config.Paths.{User, pid_path}
use claude_bridge.Cmd.Os.{kill, Os}

pub data PidError : Type 0 where
  not_exist not_read not_a_number : PidError

unfoldable pub read_pid : (Str → FileRead) → User → Config → PidError ⊎ ℤ
unfolding pid_path
read_pid read_file u cfg = elim (read_file (pid_path u cfg)) [
  | absent ↦ inl not_exist
  | failed ↦ inl not_read
  | content data_ ↦ elim (atoi (trim_space data_)) [ none ↦ inl not_a_number | some pid ↦ inr pid ]
]

-- SIGTERM to the daemon; the exit code.
unfoldable pub run_stop : {S : Type 0} → Os S → (Str → FileRead) → Config → S → S × ℕ
unfolding read_pid
run_stop os read_file cfg s = elim (read_pid read_file os.user cfg) [
  | inl not_exist ↦ (s, 0)
  | inl e ↦ (s, 1)
  | inr pid ↦ (let (s1, sent) = os.act (kill pid) s in (s1, if sent then 0 else 1))
]
