-- ===== src/Daemon/History.antt =====
-- The goroutines of the connections do to the broker what its commands do, each turn one command.
use claude_bridge.Base.{
  ℕ, ◌≡◌, refl, sym, ap, ◌∙◌, inl, inr, Option, none, some, List, [], ◌∷◌, ◌++◌, arith, get_elem?,
  Option-cases, if◌then◌else◌,
}
use claude_bridge.Text.{Str, nonempty, ◌==◌}
use claude_bridge.Broker.Clock.{World}
use claude_bridge.Broker.State.{State}
use claude_bridge.Broker.RunLoop.{
  Command, registers, touches, unregisters, lists_peers, sends, broadcasts, polls, subscribes,
  cancels, receives, exec, run, run-append,
}
use claude_bridge.Rpc.Frame.{Writer}
use claude_bridge.Rpc.Request.{
  Request, Codec, method_register, method_unregister, method_list_peers, method_send,
  method_broadcast, method_poll, method_subscribe, RegisterParams, SendParams, BroadcastParams,
  unmarshal_params, zero_send_params, message_of, do_register, do_send, do_broadcast,
  do_get_peer_info, invoke,
}
use claude_bridge.Rpc.Server.{Server}
use claude_bridge.Daemon.Goroutine.{
  Goroutine, Stage, requested, touched, streaming, cancelling, leaving, Read, request_turn,
  stream_turn, turn_at, turn,
}
use claude_bridge.Daemon.System.{Process, Move, moves, others, checks, move, run_moves}

abbrev command_with : {P : Type 0} → (P → Command) → Option P → List Command
command_with f none = []
command_with f (some p) = f p ∷ []

-- The command that a request posts, if its parameters can be read.
unfoldable pub request_commands : Codec → Request → List Command
request_commands c req =
    if req.method == method_subscribe
    then subscribes req.session_id ∷ []
    else if req.method == method_register
    then command_with (λ (p : RegisterParams). registers p.project_path)
        (unmarshal_params c.register_params (record { project_path = [] }) req.params)
    else if req.method == method_unregister
    then unregisters req.session_id ∷ []
    else if req.method == method_list_peers
    then lists_peers req.session_id ∷ []
    else if req.method == method_send
    then command_with (λ (p : SendParams). sends (message_of req.session_id p))
        (unmarshal_params c.send_params zero_send_params req.params)
    else if req.method == method_broadcast
    then command_with (λ (p : BroadcastParams). broadcasts req.session_id p.content)
        (unmarshal_params c.broadcast_params (record { content = [] }) req.params)
    else if req.method == method_poll
    then polls req.session_id ∷ []
    else []

-- What a goroutine asks of the broker in its next turn.
unfoldable pub asked : Codec → State → Goroutine → List Command
asked c st g = elim g.stage [
  | requested req ↦ if nonempty req.session_id then touches req.session_id ∷ [] else []
  | touched req ↦ request_commands c req
  | streaming id a ↦ (elim (get_elem? st.heap a) [
    | none ↦ []
    | some p ↦ (elim (p.out) [ [] ↦ [] | ev ∷ rest ↦ receives a ∷ [] ])
  ])
  | cancelling id a ↦ cancels id a ∷ []
  | leaving ↦ if nonempty g.bound then unregisters g.bound ∷ [] else []
  | _ ↦ []
]

do_register-run :
    (c : Codec) (w : World) (params : Str) (st : State)
    → (do_register c w params st).0
      ≡ run w
          (command_with
            (λ (p : RegisterParams). registers p.project_path)
            (unmarshal_params c.register_params (record { project_path = [] }) params))
          st
unfolding do_register run exec
do_register-run c w params st = ground arith

do_send-run :
    (c : Codec) (w : World) (from params : Str) (st : State)
    → (do_send c w from params st).0
      ≡ run w
          (command_with
            (λ (p : SendParams). sends (message_of from p))
            (unmarshal_params c.send_params zero_send_params params))
          st
unfolding do_send run exec
do_send-run c w from params st = ground arith

do_broadcast-run :
    (c : Codec) (w : World) (from params : Str) (st : State)
    → (do_broadcast c w from params st).0
      ≡ run w
          (command_with
            (λ (p : BroadcastParams). broadcasts from p.content)
            (unmarshal_params c.broadcast_params (record { content = [] }) params))
          st
unfolding do_broadcast run exec
do_broadcast-run c w from params st = ground arith

do_get_peer_info-state :
    (c : Codec) (params : Str) (st : State) → (do_get_peer_info c params st).0 ≡ st
unfolding do_get_peer_info
do_get_peer_info-state c params st = ground arith

-- The call of a request is the command that the request posts.
pub request_turn-run :
    (c : Codec) (w : World) (req : Request) (sv : Server) (g : Goroutine)
    → (request_turn c w req sv g).0.broker ≡ run w (request_commands c req) sv.broker
unfolding request_turn request_commands invoke run exec
request_turn-run c w req sv g = ground (
  arith,
  do_register-run c w req.params sv.broker,
  do_send-run c w req.session_id req.params sv.broker,
  do_broadcast-run c w req.session_id req.params sv.broker,
  do_get_peer_info-state c req.params sv.broker,
)

stream_turn-run :
    (c : Codec) (w : World) (id : Str) (a : ℕ) (b : Str) (out : Writer) (sv : Server)
    → let g : Goroutine = record { stage = streaming id a; bound = b; out = out } in
      (stream_turn c w id a sv g).0.broker ≡ run w (asked c sv.broker g) sv.broker
unfolding stream_turn asked run
stream_turn-run c w id a b out sv = ground arith

turn_at-run :
    (c : Codec) (w : World) (rd : Read) (s : Stage) (b : Str) (out : Writer) (sv : Server)
    → let g : Goroutine = record { stage = s; bound = b; out = out } in
      (turn_at c w rd s sv g).0.broker ≡ run w (asked c sv.broker g) sv.broker
unfolding turn_at asked run exec
turn_at-run c w rd (requested req) b out sv = ground arith
turn_at-run c w rd (touched req) b out sv =
    request_turn-run c w req sv (record { stage = touched req; bound = b; out = out })
turn_at-run c w rd (streaming id a) b out sv = stream_turn-run c w id a b out sv
turn_at-run c w rd leaving b out sv = ground arith
turn_at-run c w rd _ b out sv = refl

-- A turn of a goroutine executes the command that it asks for, if any, and nothing else of the broker.
pub turn-run :
    (c : Codec) (w : World) (rd : Read) (sv : Server) (g : Goroutine)
    → (turn c w rd sv g).0.broker ≡ run w (asked c sv.broker g) sv.broker
unfolding turn
turn-run c w rd sv g = turn_at-run c w rd g.stage g.bound g.out sv

-- The commands that a move of the daemon executes.
unfoldable pub move_commands : Codec → Move → Process → List Command
move_commands c (moves i rd) d = elim (get_elem? d.conns i) [
  | none ↦ []
  | some g ↦ asked c d.server.broker g
]
move_commands c (others cmd) d = cmd ∷ []
move_commands c _ d = []

moves-run :
    (c : Codec) (w : World) (i : ℕ) (rd : Read) (d : Process)
    → (move c w (moves i rd) d).server.broker
      ≡ run w (move_commands c (moves i rd) d) d.server.broker
unfolding move move_commands run
moves-run c w i rd d = elim (Option-cases (get_elem? d.conns i)) [
  | inl e ↦ rw (e, move, move_commands) refl
  | inr (g, e) ↦ rw (e, move, move_commands) (turn-run c w rd d.server g)
]

pub move-run :
    (c : Codec) (w : World) (s : Move) (d : Process)
    → (move c w s d).server.broker ≡ run w (move_commands c s d) d.server.broker
unfolding move move_commands run
move-run c w (moves i rd) d = moves-run c w i rd d
move-run c w (others cmd) d = refl
move-run c w checks d = ground arith
move-run c w _ d = refl

-- The commands that moves of the daemon execute, one after another.
unfoldable pub moves_commands : Codec → World → List Move → Process → List Command
moves_commands c w [] d = []
moves_commands c w (s ∷ ss) d = move_commands c s d ++ moves_commands c w ss (move c w s d)

-- However the connections, the cleanup ticks, the pushers, the timer and signals interleave, the
-- daemon's broker is what these commands, one after another, make of the broker that it had: a
-- goroutine that has read a request with a session posts the touch of that session, then for the
-- request the command of its method, with its session and parameters, and none for another method or
-- for parameters that cannot be read; the goroutine of a subscription posts the receipt of the oldest
-- event, and the cancel at its end; one at its end posts the unregistration of the session that its
-- connection has bound; a tick and a pusher's turn are commands of their own; nothing else is one.
pub run_moves-run :
    (c : Codec) (w : World) (ss : List Move) (d : Process)
    → (run_moves c w ss d).server.broker ≡ run w (moves_commands c w ss d) d.server.broker
unfolding run_moves moves_commands run
run_moves-run c w [] d = refl
run_moves-run c w (s ∷ ss) d =
    run_moves-run c w ss (move c w s d)
    ∙ ap (run w (moves_commands c w ss (move c w s d))) (move-run c w s d)
    ∙ sym
        (run-append w (move_commands c s d) (moves_commands c w ss (move c w s d)) d.server.broker)
