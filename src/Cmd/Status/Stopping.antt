-- ===== src/Cmd/Status/Stopping.antt =====
-- `stop` reads the PID that `serve` has written.
use claude_bridge.Base.{ℕ, ◌^◌, ◌<◌, ◌≡◌, refl, true, if◌then◌else◌}
use claude_bridge.Base.Int.{pos}
use claude_bridge.Text.{Str, ◌==◌, eq_refl}
use claude_bridge.Text.Decimal.Reading.{atoi-itoa}
use claude_bridge.Config.{Config, FileRead, absent, content}
use claude_bridge.Config.Paths.{User, pid_path}
use claude_bridge.Cmd.Os.{Action, write_file, kill, Os}
use claude_bridge.Cmd.Serve.{write_pid}
use claude_bridge.Cmd.Status.{read_pid, run_stop}

-- The file at a path after a call.
abbrev pub file_after : Action → Str → FileRead
file_after (write_file path data_) wanted = if path == wanted then content data_ else absent
file_after a wanted = absent

-- The calls of a system, of which the last is kept.
abbrev pub last_call : User → Os Action
last_call u = record { user = u; act = λ a s. (a, true); now = λ s. 0 }

-- Once a daemon has written its PID file, `stop` reads it back and sends the signal to that process.
-- The condition is that the PID has 63 bits.
pub run_stop-write_pid :
    (u : User) (cfg : Config) (pid : ℕ) (start : Action)
    → pid < 2 ^ 63
    → run_stop (last_call u) (file_after (write_pid (last_call u) pid cfg start).0) cfg start
      ≡ (kill (pos pid), 0)
unfolding run_stop write_pid read_pid
run_stop-write_pid u cfg pid start lt =
    rw (eq_refl (pid_path u cfg), run_stop, read_pid) (rw (atoi-itoa pid lt) refl)
