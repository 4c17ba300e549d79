-- ===== src/Daemon/Solo/Handling.antt =====
-- A goroutine that is left alone does what Rpc.Server says of its connection.
use claude_bridge.Base.{
  ℕ, ◌≡◌, refl, ap, ◌∙◌, inl, inr, Option, none, some, List, [], ◌∷◌, arith, Option-cases,
  get_elem?,
}
use claude_bridge.Text.{Str}
use claude_bridge.Broker.Clock.{World}
use claude_bridge.Broker.Message.{Event}
use claude_bridge.Broker.Pusher.{Pusher, closed}
use claude_bridge.Broker.RunLoop.{receives, exec}
use claude_bridge.Broker.Subscriptions.{cancel}
use claude_bridge.Rpc.Frame.{FrameError, Writer, write_frame}
use claude_bridge.Rpc.Request.{Request, Codec, bad_json}
use claude_bridge.Rpc.Server
use claude_bridge.Rpc.Server.{Server, Conn, Input}
use claude_bridge.Daemon.Goroutine.{
  Goroutine, reading, requested, streaming, cancelling, Read, gets, fails, after_forward, read_turn,
  forward_turn, channel_turn, stream_turn, turn,
}
use claude_bridge.Daemon.Solo.{
  settle, goroutine_of, both, Arrival, at_frame, at_end, at_event, at_close,
}
use claude_bridge.Daemon.Solo.Requests.{settle-leaving, settle-requested}

module _ (c : Codec) (w : World) (rd : Read) where
  settle-cancelling :
      (sv : Server) (id : Str) (a : ℕ) (b : Str) (out : Writer) (ph : Server.Phase)
      → settle c w rd 6 (sv, record { stage = cancelling id a; bound = b; out = out })
        ≡ both (Server.stop_streaming id a sv (record { phase = ph; bound_session = b; out = out }))
  unfolding settle turn Server.stop_streaming
  settle-cancelling sv id a b out ph =
      settle-leaving c w rd 2 (record sv { broker = cancel id a sv.broker }) b out ph

  settle-forwarded :
      (sv : Server) (id : Str) (a : ℕ) (b : Str) (old : Writer) (o : Writer × Option FrameError)
      → settle c w rd 6
          (sv, after_forward id a (record { stage = streaming id a; bound = b; out = old }) o)
        ≡ both (elim (o.1) [
          | none ↦ (sv, record { phase = Server.streaming id a; bound_session = b; out = o.0 })
          | some e ↦
              Server.stop_streaming id a sv
                (record { phase = Server.streaming id a; bound_session = b; out = o.0 })
        ])
  unfolding settle after_forward
  settle-forwarded sv id a b old (out, none) = refl
  settle-forwarded sv id a b old (out, some e) =
      settle-cancelling sv id a b out (Server.streaming id a)

read_turn-none :
    (c : Codec) (raw : Str) (g : Goroutine)
    → c.request raw ≡ none
    → read_turn c (gets raw) g
      ≡ record g { out = (write_frame g.out (c.response (inl bad_json))).0 }
unfolding read_turn
read_turn-none c raw g e = rw (e, read_turn) refl

read_turn-some :
    (c : Codec) (raw : Str) (req : Request) (g : Goroutine)
    → c.request raw ≡ some req
    → read_turn c (gets raw) g ≡ record g { stage = requested req }
unfolding read_turn
read_turn-some c raw req g e = rw (e, read_turn) refl

settle-bad_json :
    (c : Codec) (w : World) (raw : Str) (sv : Server) (b : Str) (out : Writer)
    → let conn : Conn = record { phase = Server.reading; bound_session = b; out = out } in
      settle c w (gets raw) 6 (
        sv,
        record {
          stage = reading;
          bound = b;
          out = (write_frame out (c.response (inl bad_json))).0;
        },
      )
      ≡ both (sv, record conn { out = (Server.respond c conn (inl bad_json)).0 })
unfolding settle Server.respond
settle-bad_json c w raw sv b out = refl

settle-handle_frame :
    (c : Codec) (w : World) (raw : Str) (sv : Server) (b : Str) (out : Writer)
    → let conn : Conn = record { phase = Server.reading; bound_session = b; out = out } in
      settle c w (gets raw) 6 (turn c w (gets raw) sv (goroutine_of conn))
      ≡ both (Server.handle_frame c w raw sv conn)
unfolding turn Server.handle_frame
settle-handle_frame c w raw sv b out =
    let g : Goroutine = record { stage = reading; bound = b; out = out } in
    let after = λ (g : Goroutine). settle c w (gets raw) 6 (sv, g) in
    elim (Option-cases (c.request raw)) [
      | inl e ↦
          ap after (read_turn-none c raw g e)
          ∙ rw (e, Server.handle_frame) (settle-bad_json c w raw sv b out)
      | inr (req, e) ↦
          ap after (read_turn-some c raw req g e)
          ∙ rw (e, Server.handle_frame) (settle-requested c w (gets raw) req sv b out)
    ]

stream_turn-some :
    (c : Codec) (w : World) (id : Str) (a : ℕ) (sv : Server) (g : Goroutine) {p : Pusher}
    → get_elem? sv.broker.heap a ≡ some p
    → stream_turn c w id a sv g ≡ channel_turn c w id a p.out p.phase sv g
unfolding stream_turn
stream_turn-some c w id a sv g e = rw (e, stream_turn) refl

channel_turn-event :
    (c : Codec) (w : World) (id : Str) (a : ℕ) (sv : Server) (g : Goroutine) (p : Pusher)
    {ev : Event} {rest : List Event}
    → p.out ≡ ev ∷ rest
    → channel_turn c w id a p.out p.phase sv g ≡ forward_turn c w id a ev sv g
unfolding channel_turn
channel_turn-event c w id a sv g p f = ground (arith, f)

channel_turn-closed :
    (c : Codec) (w : World) (id : Str) (a : ℕ) (sv : Server) (g : Goroutine) (p : Pusher)
    → p.out ≡ []
    → p.phase ≡ closed
    → channel_turn c w id a p.out p.phase sv g ≡ (sv, record g { stage = cancelling id a })
unfolding channel_turn
channel_turn-closed c w id a sv g p f k = ground (arith, f, k)

-- A goroutine whose turns no other one comes between does with its next frame, the end of its input,
-- the next event or the end of its channel what the connection does with that input: the broker, the
-- count, the hook, the session that is bound and what is written are the same.
settle-handle :
    (c : Codec) (w : World) {rd : Read} {i : Input} {sv sv' : Server} {conn : Conn}
    → Arrival w sv conn rd i sv'
    → settle c w rd 6 (turn c w rd sv (goroutine_of conn)) ≡ both (Server.handle c w i sv' conn)
unfolding settle turn Server.handle
settle-handle c w {sv} (at_frame {b} {out} raw) = settle-handle_frame c w raw sv b out
settle-handle c w {sv} (at_end {b} {out}) = settle-leaving c w fails 3 sv b out Server.reading
settle-handle c w {sv} (at_event {b} {out} {id} {a} {rd} {p} ev rest e f) =
    let g : Goroutine = record { stage = streaming id a; bound = b; out = out } in
    ap (settle c w rd 6) (stream_turn-some c w id a sv g e ∙ channel_turn-event c w id a sv g p f)
    ∙ settle-forwarded c w rd (record sv { broker = exec w (receives a) sv.broker }) id a b out
        (write_frame out (c.event ev))
settle-handle c w {sv} (at_close {b} {out} {id} {a} {rd} {p} e f k) =
    let g : Goroutine = record { stage = streaming id a; bound = b; out = out } in
    ap (settle c w rd 6)
      (stream_turn-some c w id a sv g e ∙ channel_turn-closed c w id a sv g p f k)
    ∙ settle-cancelling c w rd sv id a b out (Server.streaming id a)
