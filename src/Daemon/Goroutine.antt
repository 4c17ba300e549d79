-- ===== src/Daemon/Goroutine.antt =====
-- `handleConn` of internal/daemonrpc/server.go as a goroutine among others: between two of its turns
-- the other goroutines of the daemon may take theirs.
use claude_bridge.Base.{
  ℕ, ◌+◌, ◌-◌, ◌⊎◌, inl, inr, Option, none, some, List, [], ◌∷◌, nat_eq, get_elem?, if◌then◌else◌,
}
use claude_bridge.Text.{Str, nonempty, ◌==◌}
use claude_bridge.Broker.Clock.{World}
use claude_bridge.Broker.Message.{Event}
use claude_bridge.Broker.Pusher.{Phase, selecting, forwarding, closed}
use claude_bridge.Broker.Sessions.{touch, unregister_session}
use claude_bridge.Broker.Subscriptions.{subscribe, cancel}
use claude_bridge.Broker.RunLoop.{receives, exec}
use claude_bridge.Rpc.Frame.{FrameError, Writer, write_frame}
use claude_bridge.Rpc.Request.{
  Request, Codec, RpcError, bad_json, method_subscribe, method_register, do_register, invoke,
}
use claude_bridge.Rpc.Server.{Server}

-- Where the goroutine stands: not begun; in ReadFrame; with a decoded request, before and after it
-- touches the session; with the answer to a registration or to another request; in the loop of
-- `streamSubscription`, and at its cancel; at the deferred function, in `connClosed` before and after
-- the count goes down; returned.
pub data Stage : Type 0 where
  accepted : Stage
  reading : Stage
  requested : Request → Stage
  touched : Request → Stage
  registering : RpcError ⊎ Str → Stage
  answering : RpcError ⊎ Str → Stage
  streaming : Str → ℕ → Stage
  cancelling : Str → ℕ → Stage
  leaving : Stage
  closing : Stage
  hooking : Stage
  returned : Stage

pub record Goroutine : Type 0 where
  pub stage : Stage
  pub bound : Str
  pub out : Writer

-- What `ReadFrame` returns, where the goroutine waits for it.
pub data Read : Type 0 where
  gets : Str → Read
  fails : Read

-- After a response: at a failed write the connection is over.
abbrev pub next_stage : Option FrameError → Stage
next_stage none = reading
next_stage (some e) = leaving

unfoldable pub respond_to : Codec → Goroutine → RpcError ⊎ Str → Writer × Option FrameError
respond_to c g r = write_frame g.out (c.response r)

-- A request that is no JSON is answered, and whether the answer could be written is not looked at.
unfoldable pub read_turn : Codec → Read → Goroutine → Goroutine
unfolding respond_to
read_turn c fails g = record g { stage = leaving }
read_turn c (gets raw) g = elim (c.request raw) [
  | none ↦ record g { out = (respond_to c g (inl bad_json)).0 }
  | some req ↦ record g { stage = requested req }
]

-- The one call of the broker that a request makes.
unfoldable pub request_turn : Codec → World → Request → Server → Goroutine → Server × Goroutine
request_turn c w req sv g =
    let (subscribed, a) = subscribe req.session_id sv.broker in
    let (registered, id) = do_register c w req.params sv.broker in
    let (invoked, r) = invoke c w req sv.broker in
    if req.method == method_subscribe
    then (record sv { broker = subscribed }, record g { stage = streaming req.session_id a })
    else if req.method == method_register
    then (record sv { broker = registered }, record g { stage = registering id })
    else (record sv { broker = invoked }, record g { stage = answering r })

-- The session that a registration binds, once its response is written.
unfoldable pub bound_by : Codec → RpcError ⊎ Str → Str → Str
bound_by c (inl e) old = old
bound_by c (inr result) old = let id = c.session_id result in if nonempty id then id else old

unfoldable pub after_register :
    Codec → RpcError ⊎ Str → Goroutine → Writer × Option FrameError → Goroutine
unfolding bound_by
after_register c r g (out, none) = record g {
  stage = reading;
  bound = bound_by c r g.bound;
  out = out;
}
after_register c r g (out, some e) = record g { stage = leaving; out = out }

unfoldable pub register_turn : Codec → RpcError ⊎ Str → Goroutine → Goroutine
unfolding respond_to after_register
register_turn c r g = after_register c r g (respond_to c g r)

unfoldable pub answer_turn : Codec → RpcError ⊎ Str → Goroutine → Goroutine
unfolding respond_to
answer_turn c r g =
    let (out, failed) = respond_to c g r in record g { stage = next_stage failed; out = out }

unfoldable pub after_forward : Str → ℕ → Goroutine → Writer × Option FrameError → Goroutine
after_forward id a g (out, none) = record g { out = out }
after_forward id a g (out, some e) = record g { stage = cancelling id a; out = out }

-- The oldest event of the channel is written as a frame.
unfoldable pub forward_turn :
    Codec → World → Str → ℕ → Event → Server → Goroutine → Server × Goroutine
unfolding after_forward
forward_turn c w id a ev sv g = (
  record sv { broker = exec w (receives a) sv.broker },
  after_forward id a g (write_frame g.out (c.event ev)),
)

-- An empty channel that is open blocks.
unfoldable pub channel_turn :
    Codec → World → Str → ℕ → List Event → Phase → Server → Goroutine → Server × Goroutine
unfolding forward_turn
channel_turn c w id a (ev ∷ rest) p sv g = forward_turn c w id a ev sv g
channel_turn c w id a [] closed sv g = (sv, record g { stage = cancelling id a })
channel_turn c w id a [] selecting sv g = (sv, g)
channel_turn c w id a [] (forwarding ev) sv g = (sv, g)

unfoldable pub stream_turn : Codec → World → Str → ℕ → Server → Goroutine → Server × Goroutine
unfolding channel_turn
stream_turn c w id a sv g = elim (get_elem? sv.broker.heap a) [
  | none ↦ (sv, g)
  | some p ↦ channel_turn c w id a p.out p.phase sv g
]

-- The hook is called by the goroutine whose connection was the last.
abbrev pub after_count : ℕ → Stage
after_count left = if nat_eq left 0 then hooking else returned

-- One turn: what the goroutine does up to where another one can come between.
unfoldable pub turn_at : Codec → World → Read → Stage → Server → Goroutine → Server × Goroutine
unfolding read_turn request_turn register_turn answer_turn stream_turn
turn_at c w rd accepted sv g = (record sv { active = sv.active + 1 }, record g { stage = reading })
turn_at c w rd reading sv g = (sv, read_turn c rd g)
turn_at c w rd (requested req) sv g =
    let st = if nonempty req.session_id then touch w req.session_id sv.broker else sv.broker in
    (record sv { broker = st }, record g { stage = touched req })
turn_at c w rd (touched req) sv g = request_turn c w req sv g
turn_at c w rd (registering r) sv g = (sv, register_turn c r g)
turn_at c w rd (answering r) sv g = (sv, answer_turn c r g)
turn_at c w rd (streaming id a) sv g = stream_turn c w id a sv g
turn_at c w rd (cancelling id a) sv g =
    (record sv { broker = cancel id a sv.broker }, record g { stage = leaving })
turn_at c w rd leaving sv g =
    let st = if nonempty g.bound then unregister_session g.bound sv.broker else sv.broker in
    (record sv { broker = st }, record g { stage = closing })
turn_at c w rd closing sv g =
    let left = sv.active - 1 in (record sv { active = left }, record g { stage = after_count left })
turn_at c w rd hooking sv g = (
  record sv { fired = if sv.has_hook then sv.fired + 1 else sv.fired },
  record g { stage = returned },
)
turn_at c w rd returned sv g = (sv, g)

unfoldable pub turn : Codec → World → Read → Server → Goroutine → Server × Goroutine
unfolding turn_at
turn c w rd sv g = turn_at c w rd g.stage sv g
