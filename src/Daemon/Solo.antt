-- ===== src/Daemon/Solo.antt =====
-- A goroutine that is left alone, beside its connection in Rpc.Server.
pub mod Requests
pub mod Handling
use claude_bridge.Base.{
  ℕ, zero, suc, ◌+◌, ◌-◌, ◌&&◌, ◌≡◌, refl, sym, ap, ◌∙◌, ◌⊎◌, inl, inr, Bool, true, false, Option,
  none, some, List, [], ◌∷◌, arith, nat_eq, Bool-cases, Option-cases, get_elem?, if◌then◌else◌,
}
use claude_bridge.Text.{Str, nonempty, ◌==◌}
use claude_bridge.Broker.Clock.{World}
use claude_bridge.Broker.Message.{Event}
use claude_bridge.Broker.Pusher.{Pusher, closed}
use claude_bridge.Broker.State.{State}
use claude_bridge.Broker.RunLoop.{receives, exec}
use claude_bridge.Broker.Sessions.{touch}
use claude_bridge.Broker.Subscriptions.{subscribe, cancel}
use claude_bridge.Rpc.Frame.{FrameError, Writer, write_frame}
use claude_bridge.Rpc.Request.{
  Request, Codec, RpcError, bad_json, method_subscribe, method_register, do_register, invoke,
}
use claude_bridge.Rpc.Server
use claude_bridge.Rpc.Server.{Server, Conn, Input}
use claude_bridge.Daemon.Goroutine.{
  Goroutine, Stage, accepted, reading, requested, touched, registering, answering, streaming,
  cancelling, leaving, closing, hooking, returned, Read, gets, fails, next_stage, bound_by,
  after_register, after_forward, read_turn, request_turn, forward_turn, channel_turn, stream_turn,
  turn, turn_at,
}

-- The goroutine waits for a frame or an event, or has returned.
abbrev pub waits : Stage → Bool
waits reading = true
waits (streaming id a) = true
waits returned = true
waits _ = false

-- Turns up to the next wait.
unfoldable pub settle : Codec → World → Read → ℕ → Server × Goroutine → Server × Goroutine
settle c w rd zero (sv, g) = (sv, g)
settle c w rd (suc n) (sv, g) = elim (waits g.stage) [
  | true ↦ (sv, g)
  | false ↦ settle c w rd n (turn c w rd sv g)
]

abbrev pub stage_of : Server.Phase → Stage
stage_of Server.reading = reading
stage_of (Server.streaming id a) = streaming id a
stage_of Server.returned = returned

abbrev pub goroutine_of : Conn → Goroutine
goroutine_of conn = record {
  stage = stage_of conn.phase;
  bound = conn.bound_session;
  out = conn.out;
}

abbrev pub input_of : Read → Input
input_of (gets raw) = Server.frame raw
input_of fails = Server.hang_up

abbrev pub both : Server × Conn → Server × Goroutine
both (sv, conn) = (sv, goroutine_of conn)

-- What a goroutine that waits comes upon, as an input of its connection, with the server after it
-- was taken.
pub data Arrival (w : World) (sv : Server) : Conn → Read → Input → Server → Type 0 where
  at_frame :
      {b : Str} {out : Writer} (raw : Str)
      → Arrival w sv
          (record { phase = Server.reading; bound_session = b; out = out })
          (gets raw)
          (Server.frame raw)
          sv
  at_end :
      {b : Str} {out : Writer}
      → Arrival w sv
          (record { phase = Server.reading; bound_session = b; out = out })
          fails
          Server.hang_up
          sv
  at_event :
      {b : Str} {out : Writer} {id : Str} {a : ℕ} {rd : Read} {p : Pusher} (ev : Event)
      (rest : List Event)
      → get_elem? sv.broker.heap a ≡ some p
      → p.out ≡ ev ∷ rest
      → Arrival w sv
          (record { phase = Server.streaming id a; bound_session = b; out = out })
          rd
          (Server.push ev)
          (record sv { broker = exec w (receives a) sv.broker })
  at_close :
      {b : Str} {out : Writer} {id : Str} {a : ℕ} {rd : Read} {p : Pusher}
      → get_elem? sv.broker.heap a ≡ some p
      → p.out ≡ []
      → p.phase ≡ closed
      → Arrival w sv
          (record { phase = Server.streaming id a; bound_session = b; out = out })
          rd
          Server.channel_closed
          sv
