-- ===== src/Daemon/Solo/Requests.antt =====
-- The turns of a goroutine from a decoded request to the next wait.
use claude_bridge.Base.{
  ℕ, zero, suc, ◌≡◌, refl, sym, ap, ◌∙◌, ◌⊎◌, inl, inr, true, false, Option, none, some, arith,
  Bool-cases, if◌then◌else◌,
}
use claude_bridge.Text.{Str, nonempty, ◌==◌}
use claude_bridge.Broker.Clock.{World}
use claude_bridge.Broker.State.{State}
use claude_bridge.Broker.Sessions.{touch}
use claude_bridge.Broker.Subscriptions.{subscribe}
use claude_bridge.Rpc.Frame.{FrameError, Writer, write_frame}
use claude_bridge.Rpc.Request.{
  Request, Codec, RpcError, method_subscribe, method_register, do_register, invoke,
}
use claude_bridge.Rpc.Server
use claude_bridge.Rpc.Server.{Server, Conn, Input}
use claude_bridge.Daemon.Goroutine.{
  Goroutine, reading, requested, touched, registering, answering, streaming, leaving, Read,
  next_stage, bound_by, after_register, request_turn, turn,
}
use claude_bridge.Daemon.Solo.{waits, settle, goroutine_of, both}

module _ (c : Codec) (w : World) (rd : Read) where
  settle-waits :
      (n : ℕ) (sv : Server) (g : Goroutine)
      → waits g.stage ≡ true
      → settle c w rd n (sv, g) ≡ (sv, g)
  unfolding settle
  settle-waits zero sv g h = refl
  settle-waits (suc n) sv g h = rw (h, settle) refl

  request_turn-subscribe :
      (sv : Server) (g : Goroutine) (req : Request)
      → req.method == method_subscribe ≡ true
      → request_turn c w req sv g ≡ (
        record sv { broker = (subscribe req.session_id sv.broker).0 },
        record g { stage = streaming req.session_id (subscribe req.session_id sv.broker).1 },
      )
  unfolding request_turn
  request_turn-subscribe sv g req s = rw s refl

  request_turn-register :
      (sv : Server) (g : Goroutine) (req : Request)
      → req.method == method_subscribe ≡ false
      → req.method == method_register ≡ true
      → request_turn c w req sv g ≡ (
        record sv { broker = (do_register c w req.params sv.broker).0 },
        record g { stage = registering (do_register c w req.params sv.broker).1 },
      )
  unfolding request_turn
  request_turn-register sv g req s r = rw (s, r) refl

  request_turn-invoke :
      (sv : Server) (g : Goroutine) (req : Request)
      → req.method == method_subscribe ≡ false
      → req.method == method_register ≡ false
      → request_turn c w req sv g ≡ (
        record sv { broker = (invoke c w req sv.broker).0 },
        record g { stage = answering (invoke c w req sv.broker).1 },
      )
  unfolding request_turn
  request_turn-invoke sv g req s r = rw (s, r) refl

  pub settle-leaving :
      (n : ℕ) (sv : Server) (b : Str) (out : Writer) (ph : Server.Phase)
      → settle c w rd (suc (suc (suc n))) (sv, record { stage = leaving; bound = b; out = out })
        ≡ both (Server.finish sv (record { phase = ph; bound_session = b; out = out }))
  unfolding settle turn Server.finish
  settle-leaving n sv b out ph = ground (
    arith,
    settle-waits n (both (Server.finish sv (record { phase = ph; bound_session = b; out = out }))).0
        (both (Server.finish sv (record { phase = ph; bound_session = b; out = out }))).1,
  )

  settle-answered :
      (sv : Server) (b : Str) (old : Writer) (o : Writer × Option FrameError)
      → let conn : Conn = record { phase = Server.reading; bound_session = b; out = old } in
        settle c w rd 3 (sv, record { stage = next_stage o.1; bound = b; out = o.0 })
        ≡ both (Server.after_write sv conn o)
  unfolding settle Server.after_write
  settle-answered sv b old (out, none) = refl
  settle-answered sv b old (out, some e) = settle-leaving 0 sv b out Server.reading

  settle-answering :
      (sv : Server) (b : Str) (out : Writer) (r : RpcError ⊎ Str)
      → let conn : Conn = record { phase = Server.reading; bound_session = b; out = out } in
        settle c w rd 4 (sv, record { stage = answering r; bound = b; out = out })
        ≡ both (Server.after_write sv conn (Server.respond c conn r))
  unfolding settle turn Server.respond
  settle-answering sv b out r = settle-answered sv b out (write_frame out (c.response r))

  bind_session-bound :
      (r : RpcError ⊎ Str) (b : Str) (out : Writer)
      → goroutine_of (
          Server.bind_session c r (record { phase = Server.reading; bound_session = b; out = out }))
        ≡ record { stage = reading; bound = bound_by c r b; out = out }
  unfolding Server.bind_session bound_by
  bind_session-bound (inl e) b out = refl
  bind_session-bound (inr result) b out = ground arith

  settle-registered :
      (sv : Server) (b : Str) (old : Writer) (r : RpcError ⊎ Str) (o : Writer × Option FrameError)
      → settle c w rd 3
          (sv, after_register c r (record { stage = registering r; bound = b; out = old }) o)
        ≡ both (elim (o.1) [
          | none ↦ (
            sv,
            Server.bind_session c r
                (record { phase = Server.reading; bound_session = b; out = o.0 }),
          )
          | some e ↦
              Server.finish sv (record { phase = Server.reading; bound_session = b; out = o.0 })
        ])
  unfolding settle after_register
  settle-registered sv b old r (out, none) = ap (λ g. (sv, g)) (sym (bind_session-bound r b out))
  settle-registered sv b old r (out, some e) = settle-leaving 0 sv b out Server.reading

  settle-registering :
      (sv : Server) (b : Str) (out : Writer) (st : State) (r : RpcError ⊎ Str)
      → let conn : Conn = record { phase = Server.reading; bound_session = b; out = out } in
        settle c w rd 4
          (record sv { broker = st }, record { stage = registering r; bound = b; out = out })
        ≡ both (Server.answer_register c sv conn (st, r))
  unfolding settle turn Server.answer_register Server.respond
  settle-registering sv b out st r =
      settle-registered (record sv { broker = st }) b out r (write_frame out (c.response r))

  pub settle-requested :
      (req : Request) (sv : Server) (b : Str) (out : Writer)
      → let conn : Conn = record { phase = Server.reading; bound_session = b; out = out } in
        settle c w rd 6 (sv, record { stage = requested req; bound = b; out = out })
        ≡ both (Server.handle_request c w req sv conn)
  unfolding settle turn Server.handle_request Server.handle_register Server.dispatch
  settle-requested req sv b out =
      let st = if nonempty req.session_id then touch w req.session_id sv.broker else sv.broker in
      let sv1 = record sv { broker = st } in
      let g : Goroutine = record { stage = touched req; bound = b; out = out } in
      elim (Bool-cases (req.method == method_subscribe)) [
        | inl s ↦ ap (settle c w rd 4) (request_turn-subscribe sv1 g req s) ∙ rw s refl
        | inr s ↦ elim (Bool-cases (req.method == method_register)) [
          | inl r ↦
              (let (st2, a) = do_register c w req.params st in
                ap (settle c w rd 4) (request_turn-register sv1 g req s r)
                ∙ settle-registering sv1 b out st2 a
                ∙ rw (s, r) refl)
          | inr r ↦
              (let (st2, a) = invoke c w req st in
                ap (settle c w rd 4) (request_turn-invoke sv1 g req s r)
                ∙ settle-answering (record sv1 { broker = st2 }) b out a
                ∙ rw (s, r) refl)
        ]
      ]
