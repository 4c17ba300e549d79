-- ===== src/Rpc/Server.antt =====
-- The connections of internal/daemonrpc/server.go.
pub mod Serving
pub mod Binding
pub mod Registering
pub mod Answering
use claude_bridge.Base.{
  ℕ, ◌+◌, ◌-◌, ◌&&◌, Bool, ◌⊎◌, inl, inr, Option, none, some, List, [], ◌∷◌, nat_eq, if◌then◌else◌,
}
use claude_bridge.Text.{Str, nonempty, ◌==◌}
use claude_bridge.Broker.Clock.{World}
use claude_bridge.Broker.Message.{Event}
use claude_bridge.Broker.State.{State}
use claude_bridge.Broker.Sessions.{touch, unregister_session}
use claude_bridge.Broker.Subscriptions.{subscribe, cancel}
use claude_bridge.Rpc.Frame.{FrameError, Writer, write_frame}
use claude_bridge.Rpc.Request.{
  Request, Codec, RpcError, bad_json, method_subscribe, method_register, do_register, invoke,
}

-- `active` counts the open connections, `fired` the calls of the hook that `OnIdle` registers.
pub record Server : Type 0 where
  pub broker : State
  pub active : ℕ
  pub has_hook : Bool
  pub fired : ℕ

-- Where the goroutine of a connection stands: in the loop of `handleConn`, in `streamSubscription`
-- with the pusher at the given address, or returned.
pub data Phase : Type 0 where
  reading : Phase
  streaming : Str → ℕ → Phase
  returned : Phase

pub record Conn : Type 0 where
  pub phase : Phase
  pub bound_session : Str
  pub out : Writer

-- A connection is accepted.
unfoldable pub accept : Writer → Server → Server × Conn
accept out sv = (
  record sv { active = sv.active + 1 },
  record { phase = reading; bound_session = []; out = out },
)

unfoldable pub conn_closed : Server → Server
conn_closed sv =
    let left = sv.active - 1 in
    let fired = if nat_eq left 0 && sv.has_hook then sv.fired + 1 else sv.fired in
    record sv { active = left; fired = fired }

-- What `handleConn` defers.
unfoldable pub finish : Server → Conn → Server × Conn
unfolding conn_closed
finish sv conn =
    let st = sv.broker in
    let st1 =
      if nonempty conn.bound_session then unregister_session conn.bound_session st else st in
    (conn_closed (record sv { broker = st1 }), record conn { phase = returned })

-- Goes on after a write that may have failed.
unfoldable pub after_write : Server → Conn → Writer × Option FrameError → Server × Conn
unfolding finish
after_write sv conn (out, none) = (sv, record conn { out = out })
after_write sv conn (out, some e) = finish sv (record conn { out = out })

unfoldable pub respond : Codec → Conn → RpcError ⊎ Str → Writer × Option FrameError
respond c conn r = write_frame conn.out (c.response r)

-- `handleConn` binds the session that a registration has returned.
unfoldable pub bind_session : Codec → RpcError ⊎ Str → Conn → Conn
bind_session c (inl e) conn = conn
bind_session c (inr result) conn =
    let id = c.session_id result in if nonempty id then record conn { bound_session = id } else conn

-- The response to a registration is written, and then its session is bound.
unfoldable pub answer_register : Codec → Server → Conn → State × (RpcError ⊎ Str) → Server × Conn
unfolding respond finish bind_session
answer_register c sv conn (st, r) =
    let sv1 = record sv { broker = st } in
    let (out, failed) = respond c conn r in
    let conn1 = record conn { out = out } in
    elim failed [ none ↦ (sv1, bind_session c r conn1) | some e ↦ finish sv1 conn1 ]

-- `handleRegister`, and what `handleConn` makes of its result.
unfoldable pub handle_register : Codec → World → Str → Server → Conn → Server × Conn
unfolding answer_register
handle_register c w params sv conn = answer_register c sv conn (do_register c w params sv.broker)

unfoldable pub dispatch : Codec → World → Request → Server → Conn → Server × Conn
unfolding respond after_write
dispatch c w req sv conn =
    let (st, r) = invoke c w req sv.broker in
    after_write (record sv { broker = st }) conn (respond c conn r)

-- A decoded request.
unfoldable pub handle_request : Codec → World → Request → Server → Conn → Server × Conn
unfolding handle_register dispatch
handle_request c w req sv conn =
    let st = sv.broker in
    let sv1 = record sv {
      broker = if nonempty req.session_id then touch w req.session_id st else st;
    } in
    let (st2, a) = subscribe req.session_id sv1.broker in
    if req.method == method_subscribe
    then (record sv1 { broker = st2 }, record conn { phase = streaming req.session_id a })
    else (if req.method == method_register
        then handle_register c w req.params sv1 conn
        else dispatch c w req sv1 conn)

-- One round of the loop of `handleConn` at a frame. A request that is no JSON is answered, and whether
-- the answer could be written is not looked at.
unfoldable pub handle_frame : Codec → World → Str → Server → Conn → Server × Conn
unfolding handle_request respond
handle_frame c w raw sv conn = elim (c.request raw) [
  | none ↦ (sv, record conn { out = (respond c conn (inl bad_json)).0 })
  | some req ↦ handle_request c w req sv conn
]

-- The end of `streamSubscription`, whose deferred cancel runs first.
unfoldable pub stop_streaming : Str → ℕ → Server → Conn → Server × Conn
unfolding finish
stop_streaming id a sv conn = finish (record sv { broker = cancel id a sv.broker }) conn

-- What happens to a connection: a frame arrives, reading fails, an event arrives from the
-- subscription, or the subscription's channel is closed.
pub data Input : Type 0 where
  frame : Str → Input
  hang_up : Input
  push : Event → Input
  channel_closed : Input

unfoldable pub handle : Codec → World → Input → Server → Conn → Server × Conn
unfolding handle_frame stop_streaming
handle c w (frame raw) sv conn = elim conn.phase [
  | reading ↦ handle_frame c w raw sv conn
  | _ ↦ (sv, conn)
]
handle c w hang_up sv conn = elim conn.phase [ reading ↦ finish sv conn | _ ↦ (sv, conn) ]
handle c w (push ev) sv conn = elim conn.phase [
  | streaming id a ↦
      (let (out, failed) = write_frame conn.out (c.event ev) in
        let conn1 = record conn { out = out } in
        elim failed [ none ↦ (sv, conn1) | some e ↦ stop_streaming id a sv conn1 ])
  | _ ↦ (sv, conn)
]
handle c w channel_closed sv conn = elim conn.phase [
  | streaming id a ↦ stop_streaming id a sv conn
  | _ ↦ (sv, conn)
]

-- Inputs one after another.
unfoldable pub handle_all : Codec → World → List Input → Server → Conn → Server × Conn
handle_all c w [] sv conn = (sv, conn)
handle_all c w (i ∷ is) sv conn =
    let (sv1, conn1) = handle c w i sv conn in handle_all c w is sv1 conn1

-- `handleConn` on a connection that takes what `out` takes and on which these inputs arrive.
unfoldable pub serve : Codec → World → List Input → Writer → Server → Server × Conn
unfolding accept handle_all
serve c w is out sv = let (sv1, conn) = accept out sv in handle_all c w is sv1 conn
