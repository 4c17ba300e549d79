-- ===== src/Cmd/Idle.antt =====
-- The idle timer and the shutdown of the daemon in cmd/claude-bridge/serve.go. The process as a
-- whole, which uses them, is in Daemon.
use claude_bridge.Base.{ℕ, ◌+◌, Bool, true, false, ltb, if◌then◌else◌}
use claude_bridge.Base.Int.{ℤ, le_ℤ}

-- The daemon's own fields. `has_hook` says whether its server has the hook, `armed` whether the idle
-- timer runs, and `expired` counts the timers that have gone off and whose function has not run yet:
-- Stop does not reach those. `removed` counts the removals of runtime files so far.
pub record Idle : Type 0 where
  pub has_hook : Bool
  pub armed : Bool
  pub expired : ℕ
  pub removed : ℕ
  pub closed : Bool

-- A timeout of 0 or less registers no hook.
unfoldable pub wire_idle_shutdown : ℤ → Idle
wire_idle_shutdown timeout = record {
  has_hook = le_ℤ 1 timeout;
  armed = false;
  expired = 0;
  removed = 0;
  closed = false;
}

-- The next step of `shutdown.Do`, between which other goroutines can come: it removes the socket, then
-- the PID file, then it closes the listener, and after that it does nothing more.
unfoldable pub shutdown_now : Idle → Idle
shutdown_now d =
    if d.closed
    then d
    else if ltb d.removed 2
    then record d { removed = d.removed + 1 }
    else record d { closed = true }

-- The function that `OnIdle` registers.
unfoldable pub on_idle : Idle → Idle
on_idle d = record d { armed = true }
