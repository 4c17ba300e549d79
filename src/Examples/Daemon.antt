-- ===== src/Examples/Daemon.antt =====
-- The theorems on the daemon as a whole.
use claude_bridge.Base.{ℕ, ◌≡◌, refl, [], ◌∷◌, List, arith, true, false, some, get_elem?}
use claude_bridge.Text.{text, ◌==◌}
use claude_bridge.Dict.{keys_at, lookup, delete}
use claude_bridge.Broker.State.{new, drop_pusher, notify_peers}
use claude_bridge.Broker.Clock.{new_id}
use claude_bridge.Broker.Sessions.{register_session, unregister_session}
use claude_bridge.Broker.RunLoop.{registers, run}
use claude_bridge.Rpc.Frame.{write_frame, put_uint32}
use claude_bridge.Rpc.Request.{do_register, method_poll, unmarshal_params}
use claude_bridge.Rpc.Server.Answering.{request_of}
use claude_bridge.Rpc.Server.{Server}
use claude_bridge.Daemon.Goroutine.{Goroutine, requested, leaving, returned, gets, fails, turn}
use claude_bridge.Daemon.System.{
  Process, started, Move, accepts, moves, checks, move, can_move, run_moves, CanRun, Reached,
  starts, later,
}
use claude_bridge.Daemon.History.{
  request_commands, asked, move_commands, moves_commands, run_moves-run,
}
use claude_bridge.Daemon.Exiting.{IsWatched, Reached-IsWatched}
use claude_bridge.Daemon.Dropping.{newcomer, ending, accepted_is_dropped}
use claude_bridge.Daemon.Keeping.{Ends, move-Ends}
use claude_bridge.Daemon.Owning.{IsDistinct}
use claude_bridge.Daemon.Owning.Exclusive.{Reached-bound}
use claude_bridge.Daemon.Leaving.{Closes, Reached-Closes}
use claude_bridge.Daemon.Counting.{total}
use claude_bridge.Daemon.Ending.{drive, drive-returned}
use claude_bridge.Examples.{world, api}
use claude_bridge.Examples.Protocol.{codec, loaded, wire, server}

-- Two connections are accepted; the first one registers a session while the second one begins.
abbrev script : List Move
script =
    accepts (wire 100)
    ∷ accepts (wire 100)
    ∷ moves 0 fails
    ∷ moves 0 (gets (text "/srv/db"))
    ∷ moves 0 fails
    ∷ moves 1 fails
    ∷ moves 0 fails
    ∷ moves 0 fails
    ∷ []

abbrev busy : Process
busy = run_moves codec world script (started loaded)

busy-Reached : Reached codec world loaded busy
unfolding run_moves move can_move started
busy-Reached =
    later
      (later
        (later
          (later
            (later
              (later
                (later (later starts (accepts (wire 100)) refl refl) (accepts (wire 100)) refl refl)
                (moves 0 fails) refl refl)
              (moves 0 (gets (text "/srv/db"))) refl refl)
            (moves 0 fails) refl refl)
          (moves 1 fails) refl refl)
        (moves 0 fails) refl refl)
      (moves 0 fails) refl refl

run_moves-run_example :
    busy.server.broker
    ≡ run world (moves_commands codec world script (started loaded)) (started loaded).server.broker
run_moves-run_example = run_moves-run codec world script (started loaded)

-- The one command is the registration.
script-commands :
    moves_commands codec world script (started loaded) ≡ registers (text "/srv/db") ∷ []
unfolding moves_commands move_commands request_commands asked move started turn ◌==◌ write_frame
    register_session new_id put_uint32 do_register new unmarshal_params
script-commands = refl

Reached-IsWatched_example : IsWatched loaded busy
Reached-IsWatched_example = Reached-IsWatched busy-Reached

-- The session has been registered over the first connection, whose goroutine waits again; both count.
busy-count : busy.server.active ≡ 2
unfolding run_moves move started turn ◌==◌ write_frame register_session new_id put_uint32
    do_register new
busy-count = refl

-- The timer has gone off.
abbrev idle : Process
idle = record (started loaded) { timer = record ((started loaded).timer) { expired = 1 } }

accepted_is_dropped_example :
    let end = run_moves codec world (ending (wire 9)) idle in
    let begun =
      move codec world checks
        (move codec world (moves 0 fails) (move codec world (accepts (wire 9)) idle)) in
    CanRun codec world (ending (wire 9)) idle
    × (end.served ≡ true)
    × (get_elem? end.conns 0 ≡ some (newcomer (wire 9)))
    × (begun.stopping ≡ 0)
    × (begun.timer.closed ≡ false)
unfolding started
accepted_is_dropped_example =
    accepted_is_dropped codec world fails (wire 9) idle refl refl refl (omega arith)

-- A request of `api` is at hand.
abbrev asking : Goroutine
asking = record { stage = requested (request_of method_poll api []); bound = []; out = wire 100 }

abbrev servers : List Server
servers = server ∷ busy.server ∷ server ∷ busy.server ∷ server ∷ busy.server ∷ server ∷ []

drive-returned_example : (drive codec world servers asking).stage ≡ returned
unfolding ◌==◌
drive-returned_example = drive-returned codec world servers asking refl (omega arith)

-- A connection that has bound a session is at its end.
abbrev parting : Process
parting = record (started loaded) {
  server = server;
  conns = record { stage = leaving; bound = api; out = wire 9 } ∷ [];
}

move-Ends_example : Ends api parting (moves 0 fails)
unfolding move can_move started turn unregister_session keys_at ◌==◌ lookup delete drop_pusher
    notify_peers
move-Ends_example = move-Ends api codec world (moves 0 fails) parting refl refl refl

distinct : IsDistinct world codec
unfolding new_id
distinct = record {
  apart = λ m n e. ground (arith, e);
  named = λ n. refl;
  read_back = λ s raw e. ground (arith, e);
}

Reached-bound_example : ◌≡◌ {A = ℕ} 0 0
unfolding run_moves move started turn ◌==◌ write_frame register_session new_id put_uint32
    do_register new
Reached-bound_example = Reached-bound codec world 0 0 0 distinct busy-Reached refl refl refl refl

-- The only connection has come and gone.
abbrev left_alone : Process
left_alone =
    run_moves codec world
      (accepts (wire 9)
        ∷ moves 0 fails
        ∷ moves 0 fails
        ∷ moves 0 fails
        ∷ moves 0 fails
        ∷ moves 0 fails
        ∷ [])
      (started loaded)

left_alone-Reached : Reached codec world loaded left_alone
unfolding run_moves move can_move started
left_alone-Reached =
    later
      (later
        (later
          (later (later (later starts (accepts (wire 9)) refl refl) (moves 0 fails) refl refl)
            (moves 0 fails) refl refl)
          (moves 0 fails) refl refl)
        (moves 0 fails) refl refl)
      (moves 0 fails) refl refl

Reached-Closes_example : Closes codec world left_alone
unfolding run_moves move started turn total
Reached-Closes_example = Reached-Closes left_alone-Reached refl refl refl (omega arith)
