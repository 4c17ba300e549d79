-- ===== src/Daemon/Dropping.antt =====
-- A connection that was accepted does not count before its goroutine has begun.
use claude_bridge.Base.{
  ◌<◌, ◌≡◌, refl, true, false, some, [], ◌∷◌, ◌++◌, List, arith, length, get_elem?,
}
use claude_bridge.Broker.Clock.{World}
use claude_bridge.Rpc.Frame.{Writer}
use claude_bridge.Rpc.Request.{Codec}
use claude_bridge.Daemon.Goroutine.{Goroutine, accepted, Read, turn}
use claude_bridge.Cmd.Idle.{shutdown_now}
use claude_bridge.Daemon.System.{
  Process, Move, accepts, moves, checks, shuts, returns, shut_step, move, can_move, run_moves,
  CanRun,
}

abbrev pub newcomer : Writer → Goroutine
newcomer out = record { stage = accepted; bound = []; out = out }

get_elem?-append_last :
    (gs : List Goroutine) (g : Goroutine) → get_elem? (gs ++ g ∷ []) (length gs) ≡ some g
get_elem?-append_last [] g = refl
get_elem?-append_last (x ∷ gs) g = get_elem?-append_last gs g

-- The timer's function lets the shutdown begin, and the process ends.
abbrev pub ending : Writer → List Move
ending out = accepts out ∷ checks ∷ shuts ∷ shuts ∷ shuts ∷ returns ∷ []

-- When no connection counts, the timer has gone off and no shutdown has begun, a connection can still
-- be accepted, and then this can follow: the function of the timer looks at the count before the
-- connection's goroutine has begun and lets the shutdown begin, both runtime files are removed, the
-- listener closes, and the accept loop returns, with which the process ends. The connection's
-- goroutine has not begun then. If it has begun when the function looks, the daemon goes on as before.
pub accepted_is_dropped :
    (c : Codec) (w : World) (rd : Read) (out : Writer) (d : Process)
    → d.timer.closed ≡ false
    → d.timer.removed ≡ 0
    → d.server.active ≡ 0
    → 0 < d.timer.expired
    → let end = run_moves c w (ending out) d in
      let begun =
        move c w checks (move c w (moves (length d.conns) rd) (move c w (accepts out) d)) in
      CanRun c w (ending out) d
      × (end.served ≡ true)
      × (get_elem? end.conns (length d.conns) ≡ some (newcomer out))
      × (begun.stopping ≡ d.stopping)
      × (begun.timer.closed ≡ false)
unfolding run_moves CanRun move can_move turn shut_step shutdown_now
accepted_is_dropped c w rd out d up whole idle gone =
    let e = get_elem?-append_last d.conns (newcomer out) in
    (
      (
        ground arith,
        (ground arith, (ground arith, (ground arith, (ground arith, (ground arith, tt))))),
      ),
      refl,
      ground (arith, e),
      ground (arith, e),
      ground (arith, e),
    )
