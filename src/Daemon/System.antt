-- ===== src/Daemon/System.antt =====
-- cmd/claude-bridge/serve.go once the daemon has started: the accept loop, the goroutines of the
-- connections, the idle timer, signals and the end of the process.
use claude_bridge.Base.{
  ℕ, ◌+◌, ◌-◌, ◌≡◌, Bool, true, false, not, Option, none, some, List, [], ◌∷◌, ◌++◌, ltb, get_elem?,
  if◌then◌else◌,
}
use claude_bridge.Broker.Clock.{World}
use claude_bridge.Broker.State.{new}
use claude_bridge.Broker.Liveness.{set}
use claude_bridge.Broker.RunLoop.{Command, ticks, turns, exec}
use claude_bridge.Config.{Config, broker_config}
use claude_bridge.Rpc.Frame.{Writer}
use claude_bridge.Rpc.Request.{Codec}
use claude_bridge.Rpc.Server.{Server}
use claude_bridge.Cmd.Idle.{Idle, wire_idle_shutdown, shutdown_now, on_idle}
use claude_bridge.Daemon.Goroutine.{Goroutine, accepted, Read, turn}

-- `timer` holds the daemon's own fields. `stopping` counts the goroutines that are in `shutdownNow`: the
-- first of them runs the body of `shutdown.Do`, and the others wait for its end. `handling` says whether the goroutine that `installSignalHandlers` starts still
-- waits for its signal. `served` says whether `Serve` has returned, after which the process ends.
pub record Process : Type 0 where
  pub server : Server
  pub conns : List Goroutine
  pub timer : Idle
  pub stopping : ℕ
  pub handling : Bool
  pub served : Bool

-- The daemon that `startDaemon` returns, with the hook that `wireIdleShutdown` registers.
unfoldable pub started : Config → Process
unfolding wire_idle_shutdown
started cfg =
    let timer = wire_idle_shutdown cfg.daemon.idle_timeout in
    record {
      server = record {
        broker = new (broker_config cfg);
        active = 0;
        has_hook = timer.has_hook;
        fired = 0;
      };
      conns = [];
      timer = timer;
      stopping = 0;
      handling = true;
      served = false;
    }

-- The goroutine has taken a turn; if that called the hook of the server, the timer is set.
unfoldable pub after_turn : Process → ℕ → Server × Goroutine → Process
unfolding on_idle
after_turn d i (sv, g) = record d {
  server = sv;
  conns = set d.conns i g;
  timer = if ltb d.server.fired sv.fired then on_idle d.timer else d.timer;
}

unfoldable pub move_goroutine : Codec → World → ℕ → Read → Option Goroutine → Process → Process
unfolding after_turn
move_goroutine c w i rd none d = d
move_goroutine c w i rd (some g) d = after_turn d i (turn c w rd d.server g)

-- The guard of `idleShutdown`, in the goroutine of a timer that went off.
unfoldable pub check_idle : Process → Process
check_idle d =
    let ran = record d { timer = record (d.timer) { expired = d.timer.expired - 1 } } in
    if ltb 0 d.server.active then ran else record ran { stopping = d.stopping + 1 }

-- What the broker does without a goroutine of a connection.
abbrev pub is_own : Command → Bool
is_own ticks = true
is_own (turns a t) = true
is_own _ = false

-- What can come next: a connection is accepted, a goroutine takes a turn, the broker's loop ticks or a
-- pusher takes a turn, the timer goes off, the function of a timer looks at the count, a signal
-- arrives, a goroutine in `shutdownNow` goes on, the accept loop sees that the listener is closed.
pub data Move : Type 0 where
  accepts : Writer → Move
  moves : ℕ → Read → Move
  others : Command → Move
  goes_off : Move
  checks : Move
  signal : Move
  shuts : Move
  returns : Move

-- A goroutine in `shutdownNow` takes the next step of the body, and returns at its end, or after it.
unfoldable pub shut_step : Process → Process
unfolding shutdown_now
shut_step d =
    let next = shutdown_now d.timer in
    record d { timer = next; stopping = if next.closed then d.stopping - 1 else d.stopping }

unfoldable pub move : Codec → World → Move → Process → Process
unfolding move_goroutine check_idle shut_step
move c w (accepts out) d = record d {
  conns = d.conns ++ record { stage = accepted; bound = []; out = out } ∷ [];
}
move c w (moves i rd) d = move_goroutine c w i rd (get_elem? d.conns i) d
move c w (others cmd) d = record d {
  server = record (d.server) { broker = exec w cmd d.server.broker };
}
move c w goes_off d = record d {
  timer = record (d.timer) { armed = false; expired = d.timer.expired + 1 };
}
move c w checks d = check_idle d
move c w signal d = record d { stopping = d.stopping + 1; handling = false }
move c w shuts d = shut_step d
move c w returns d = record d { served = true }

-- When it can.
unfoldable pub can_move : Move → Process → Bool
can_move (accepts out) d = not d.timer.closed
can_move (moves i rd) d = true
can_move (others cmd) d = is_own cmd
can_move goes_off d = d.timer.armed
can_move checks d = ltb 0 d.timer.expired
can_move signal d = d.handling
can_move shuts d = ltb 0 d.stopping
can_move returns d = d.timer.closed

-- Moves one after another.
unfoldable pub run_moves : Codec → World → List Move → Process → Process
run_moves c w [] d = d
run_moves c w (s ∷ ss) d = run_moves c w ss (move c w s d)

-- Each move can be made when it comes.
unfoldable pub CanRun : Codec → World → List Move → Process → Type 0
CanRun c w [] d = Unit
CanRun c w (s ∷ ss) d = (can_move s d ≡ true) × CanRun c w ss (move c w s d)

-- The states that a daemon can reach before the process ends.
pub data Reached (c : Codec) (w : World) (cfg : Config) : Process → Type 0 where
  starts : Reached c w cfg (started cfg)
  later :
      {d : Process}
      → Reached c w cfg d
      → (s : Move) → d.served ≡ false
      → can_move s d ≡ true
      → Reached c w cfg (move c w s d)
