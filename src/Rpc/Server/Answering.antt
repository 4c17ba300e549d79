-- ===== src/Rpc/Server/Answering.antt =====
-- The answer to a request that the connection takes whole.
use claude_bridge.Base.{
  ◌-◌, ◌≡◌, refl, ap, ◌∙◌, ◌⊎◌, inl, inr, true, false, none, some, ◌++◌, arith, length,
  if◌then◌else◌, Bool-cases,
}
use claude_bridge.Text.{Str, nonempty, ◌==◌}
use claude_bridge.Broker.Clock.{World}
use claude_bridge.Broker.State.{State}
use claude_bridge.Broker.Sessions.{touch}
use claude_bridge.Rpc.Frame.{write_frame}
use claude_bridge.Rpc.Frame.RoundTrip.{frame}
use claude_bridge.Rpc.Request.{
  Request, Codec, RpcError, method_subscribe, method_register, do_register, invoke,
}
use claude_bridge.Rpc.Server.{
  Server, Conn, after_write, respond, bind_session, answer_register, handle_register, dispatch,
  handle_request,
}
use claude_bridge.Rpc.Frame.Whole.{Fits, write_frame-fits}

abbrev pub request_of : Str → Str → Str → Request
request_of method session_id raw = record { method = method; session_id = session_id; params = raw }

-- The broker when the request is handled.
abbrev pub touched : World → Request → State → State
touched w req st = if nonempty req.session_id then touch w req.session_id st else st

bind_session-out :
    (c : Codec) (r : RpcError ⊎ Str) (conn : Conn) → (bind_session c r conn).out ≡ conn.out
unfolding bind_session
bind_session-out c (inl e) conn = refl
bind_session-out c (inr result) conn = ground arith

bind_session-phase :
    (c : Codec) (r : RpcError ⊎ Str) (conn : Conn) → (bind_session c r conn).phase ≡ conn.phase
unfolding bind_session
bind_session-phase c (inl e) conn = refl
bind_session-phase c (inr result) conn = ground arith

invoke-register :
    (c : Codec) (w : World) (req : Request) (st : State)
    → (req.method == method_register) ≡ true
    → invoke c w req st ≡ do_register c w req.params st
unfolding invoke
invoke-register c w req st e = rw e refl

-- A request is answered by `r`, and the broker is left in `st`.
pub record IsAnswered (sv : Server) (conn : Conn) (st : State) (answer : Str)
    (after : Server × Conn) : Type 0 where
  pub server : after.0 ≡ record sv { broker = st }
  pub out : after.1.out ≡ record {
    written = conn.out.written ++ frame answer;
    room = conn.out.room - length (frame answer);
  }
  pub phase : after.1.phase ≡ conn.phase

answer_register-IsAnswered :
    (c : Codec) (sv : Server) (conn : Conn) (st : State) (r : RpcError ⊎ Str) (answer : Str)
    → c.response r ≡ some answer
    → Fits conn.out.room answer
    → IsAnswered sv conn st answer (answer_register c sv conn (st, r))
unfolding respond answer_register
answer_register-IsAnswered c sv conn st r answer e f =
    let sent = write_frame-fits conn.out answer f.small f.fits in
    let written : respond c conn r ≡ (
      record {
        written = conn.out.written ++ frame answer;
        room = conn.out.room - length (frame answer);
      },
      none,
    ) =
      ap (write_frame conn.out) e ∙ sent in
    rw (written, answer_register)
      (record {
        server = refl;
        out = bind_session-out c r _ ∙ ap (λ p. p.0) (written);
        phase = bind_session-phase c r _;
      })

module _ (c : Codec) (w : World) (req : Request) (sv : Server) (conn : Conn) where
  pub handle_request-IsAnswered :
      (answer : Str)
      → (req.method == method_subscribe) ≡ false
      → c.response (invoke c w req (touched w req sv.broker)).1 ≡ some answer
      → Fits conn.out.room answer
      → IsAnswered sv conn
          (invoke c w req (touched w req sv.broker)).0
          answer
          (handle_request c w req sv conn)
  unfolding handle_request handle_register dispatch answer_register respond after_write
  handle_request-IsAnswered answer plain e f =
      let sent = write_frame-fits conn.out answer f.small f.fits in
      elim (Bool-cases (req.method == method_register)) [
        | inl reg ↦
            (let same = invoke-register c w req (touched w req sv.broker) reg in
              rw (plain, reg, same)
                (answer_register-IsAnswered c _ conn _ _ answer (rw same at e) f))
        | inr other ↦
            rw (plain, other, e, sent) (record { server = refl; out = refl; phase = refl })
      ]
