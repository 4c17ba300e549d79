-- ===== src/Rpc/Server/Serving.antt =====
-- The invariant of a connection: the count of connections, and the session that it binds.
use claude_bridge.Base.{
  ℕ, ◌+◌, ◌-◌, ◌≡◌, refl, ap, ◌∙◌, ◌⊎◌, inl, inr, Bool, true, false, ◌&&◌, Option, none, some, List,
  [], ◌∷◌, arith, nat_eq, Bool-cases, Option-cases, if◌then◌else◌,
}
use claude_bridge.Text.{Str, nonempty, ◌==◌}
use claude_bridge.Dict.{lookup, lookup-delete_self}
use claude_bridge.Broker.Clock.{World}
use claude_bridge.Broker.Message.{Event}
use claude_bridge.Broker.State.{State, remove_session, notify_peers}
use claude_bridge.Broker.Sessions.{touch, unregister_session}
use claude_bridge.Broker.RunLoop.Ending.{drop_pusher-sessions}
use claude_bridge.Rpc.Frame.{FrameError, Writer, write_frame}
use claude_bridge.Rpc.Request.{
  Request, Codec, RpcError, method_subscribe, method_register, do_register, invoke,
}
use claude_bridge.Rpc.Server.{
  Server, Phase, reading, streaming, returned, Conn, accept, conn_closed, finish, after_write,
  respond, bind_session, answer_register, handle_register, dispatch, handle_request, handle_frame,
  stop_streaming, Input, frame, hang_up, push, channel_closed, handle, handle_all,
}

abbrev pub is_returned : Phase → Bool
is_returned returned = true
is_returned _ = false

-- The connection that began at `sv0` is open.
record IsOpen (sv0 sv : Server) : Type 0 where
  pub active : sv.active ≡ sv0.active + 1
  pub hook : sv.has_hook ≡ sv0.has_hook
  pub fired : sv.fired ≡ sv0.fired

-- What holds of it open or ended.
pub record IsServed (sv0 sv : Server) (conn : Conn) : Type 0 where
  pub active : sv.active ≡ (if is_returned conn.phase then sv0.active else sv0.active + 1)
  pub hook : sv.has_hook ≡ sv0.has_hook
  pub fired : sv.fired ≡ (
      if is_returned conn.phase && nat_eq sv0.active 0 && sv0.has_hook
      then sv0.fired + 1
      else sv0.fired)
  pub reaped :
      is_returned conn.phase ≡ true
      → nonempty conn.bound_session ≡ true
      → lookup conn.bound_session sv.broker.sessions ≡ none

pub unregister_session-lookup :
    (id : Str) (st : State) → lookup id (unregister_session id st).sessions ≡ none
unfolding unregister_session remove_session notify_peers
unregister_session-lookup id st = elim (Option-cases (lookup id st.sessions)) [
  | inl e ↦ rw (e, unregister_session) e
  | inr (s, e) ↦
      rw (e, unregister_session)
        (ap (lookup id) (drop_pusher-sessions _ id) ∙ lookup-delete_self id st.sessions)
]

open-IsServed :
    (sv0 sv : Server) (conn : Conn)
    → is_returned conn.phase ≡ false
    → IsOpen sv0 sv
    → IsServed sv0 sv conn
open-IsServed sv0 sv conn p o = record {
  active = rw p o.active;
  hook = o.hook;
  fired = rw p o.fired;
  reaped = λ q n. cc;
}

finish-IsServed :
    (sv0 sv : Server) (conn : Conn)
    → IsOpen sv0 sv
    → IsServed sv0 (finish sv conn).0 (finish sv conn).1
unfolding finish conn_closed
finish-IsServed sv0 sv conn o = record {
  active = omega (arith, o.active);
  hook = o.hook;
  fired =
      (let e : sv.active - 1 ≡ sv0.active = omega (arith, o.active) in
        rw (e, o.hook, o.fired) refl);
  reaped = λ q n. rw n (unregister_session-lookup conn.bound_session sv.broker);
}

-- A change of the broker's state.
broker-IsOpen :
    (sv0 sv : Server) (st : State) → IsOpen sv0 sv → IsOpen sv0 (record sv { broker = st })
broker-IsOpen sv0 sv st o = record { active = o.active; hook = o.hook; fired = o.fired }

stop_streaming-IsServed :
    (sv0 sv : Server) (conn : Conn) (id : Str) (a : ℕ)
    → IsOpen sv0 sv
    → IsServed sv0 (stop_streaming id a sv conn).0 (stop_streaming id a sv conn).1
unfolding stop_streaming
stop_streaming-IsServed sv0 sv conn id a o = finish-IsServed sv0 _ conn (broker-IsOpen sv0 sv _ o)

after_write-IsServed :
    (sv0 sv : Server) (conn : Conn) (o : Writer × Option FrameError)
    → is_returned conn.phase ≡ false
    → IsOpen sv0 sv
    → IsServed sv0 (after_write sv conn o).0 (after_write sv conn o).1
unfolding after_write
after_write-IsServed sv0 sv conn (out, none) p o =
    open-IsServed sv0 sv (record conn { out = out }) p o
after_write-IsServed sv0 sv conn (out, some e) p o =
    finish-IsServed sv0 sv (record conn { out = out }) o

bind_session-reading :
    (c : Codec) (r : RpcError ⊎ Str) (conn : Conn)
    → is_returned conn.phase ≡ false
    → is_returned (bind_session c r conn).phase ≡ false
unfolding bind_session
bind_session-reading c (inl e) conn p = p
bind_session-reading c (inr result) conn p = ground (arith, p)

answer_register-IsServed :
    (c : Codec) (sv0 sv : Server) (conn : Conn) (x : State × (RpcError ⊎ Str))
    → is_returned conn.phase ≡ false
    → IsOpen sv0 sv
    → IsServed sv0 (answer_register c sv conn x).0 (answer_register c sv conn x).1
unfolding answer_register
answer_register-IsServed c sv0 sv conn (st, r) p o =
    let conn1 = record conn { out = (respond c conn r).0 } in
    let o1 = broker-IsOpen sv0 sv st o in
    elim (Option-cases (respond c conn r).1) [
      | inl e ↦
          rw (e, answer_register) (open-IsServed sv0 _ _ (bind_session-reading c r conn1 p) o1)
      | inr (err, e) ↦ rw (e, answer_register) (finish-IsServed sv0 _ conn1 o1)
    ]

dispatch-IsServed :
    (c : Codec) (w : World) (req : Request) (sv0 sv : Server) (conn : Conn)
    → is_returned conn.phase ≡ false
    → IsOpen sv0 sv
    → IsServed sv0 (dispatch c w req sv conn).0 (dispatch c w req sv conn).1
unfolding dispatch
dispatch-IsServed c w req sv0 sv conn p o =
    let (st, r) = invoke c w req sv.broker in
    after_write-IsServed sv0 (record sv { broker = st }) conn (respond c conn r) p
      (broker-IsOpen sv0 sv st o)

handle_request-IsServed :
    (c : Codec) (w : World) (req : Request) (sv0 sv : Server) (conn : Conn)
    → is_returned conn.phase ≡ false
    → IsOpen sv0 sv
    → IsServed sv0 (handle_request c w req sv conn).0 (handle_request c w req sv conn).1
unfolding handle_request handle_register
handle_request-IsServed c w req sv0 sv conn p o =
    let st = if nonempty req.session_id then touch w req.session_id sv.broker else sv.broker in
    let o1 = broker-IsOpen sv0 sv st o in
    elim (Bool-cases (req.method == method_subscribe)) [
      | inl s ↦ rw s (open-IsServed sv0 _ _ refl (broker-IsOpen sv0 sv _ o))
      | inr s ↦ rw s (elim (Bool-cases (req.method == method_register)) [
        | inl r ↦ rw r (answer_register-IsServed c sv0 _ conn (do_register c w req.params st) p o1)
        | inr r ↦ rw r (dispatch-IsServed c w req sv0 _ conn p o1)
      ])
    ]

handle_frame-IsServed :
    (c : Codec) (w : World) (raw : Str) (sv0 sv : Server) (conn : Conn)
    → is_returned conn.phase ≡ false
    → IsOpen sv0 sv
    → IsServed sv0 (handle_frame c w raw sv conn).0 (handle_frame c w raw sv conn).1
unfolding handle_frame
handle_frame-IsServed c w raw sv0 sv conn p o = elim (Option-cases (c.request raw)) [
  | inl e ↦ rw (e, handle_frame) (open-IsServed sv0 sv (record conn { out = _ }) p o)
  | inr (req, e) ↦ rw (e, handle_frame) (handle_request-IsServed c w req sv0 sv conn p o)
]

opened :
    (sv0 sv : Server) (conn : Conn)
    → is_returned conn.phase ≡ false
    → IsServed sv0 sv conn
    → IsOpen sv0 sv
opened sv0 sv conn p h = record {
  active = rw p at h.active;
  hook = h.hook;
  fired = rw p at h.fired;
}

push-IsServed :
    (c : Codec) (w : World) (ev : Event) (sv0 sv : Server) (conn : Conn) (id : Str) (a : ℕ)
    → conn.phase ≡ streaming id a
    → IsOpen sv0 sv
    → IsServed sv0 (handle c w (push ev) sv conn).0 (handle c w (push ev) sv conn).1
unfolding handle
push-IsServed c w ev sv0 sv conn id a p o =
    elim (Option-cases (write_frame conn.out (c.event ev)).1) [
      | inl e ↦
          rw (p, handle)
            (rw e (
              open-IsServed sv0 sv (record conn { out = (write_frame conn.out (c.event ev)).0 })
                (rw p refl) o))
      | inr (err, e) ↦
          rw (p, handle)
            (rw e (
              stop_streaming-IsServed sv0 sv
                (record conn { out = (write_frame conn.out (c.event ev)).0 }) id a o))
    ]

handle-IsServed :
    (c : Codec) (w : World) (i : Input) (sv0 sv : Server) (ph : Phase) (b : Str) (out : Writer)
    → let conn : Conn = record { phase = ph; bound_session = b; out = out } in
      IsServed sv0 sv conn → IsServed sv0 (handle c w i sv conn).0 (handle c w i sv conn).1
unfolding handle
handle-IsServed c w (frame raw) sv0 sv reading b out h =
    handle_frame-IsServed c w raw sv0 sv (record { phase = reading; bound_session = b; out = out })
      refl (opened sv0 sv _ refl h)
handle-IsServed c w hang_up sv0 sv reading b out h =
    finish-IsServed sv0 sv (record { phase = reading; bound_session = b; out = out })
      (opened sv0 sv _ refl h)
handle-IsServed c w (push ev) sv0 sv (streaming id a) b out h =
    push-IsServed c w ev sv0 sv (record { phase = streaming id a; bound_session = b; out = out }) id
      a refl (opened sv0 sv _ refl h)
handle-IsServed c w channel_closed sv0 sv (streaming id a) b out h =
    stop_streaming-IsServed sv0 sv (record { phase = streaming id a; bound_session = b; out = out })
      id a (opened sv0 sv _ refl h)
handle-IsServed c w _ sv0 sv _ b out h = h

pub handle_all-IsServed :
    (c : Codec) (w : World) (is : List Input) (sv0 sv : Server) (conn : Conn)
    → IsServed sv0 sv conn
    → IsServed sv0 (handle_all c w is sv conn).0 (handle_all c w is sv conn).1
unfolding handle_all
handle_all-IsServed c w [] sv0 sv conn h = h
handle_all-IsServed c w (i ∷ is) sv0 sv conn h =
    handle_all-IsServed c w is sv0 (handle c w i sv conn).0 (handle c w i sv conn).1
      (handle-IsServed c w i sv0 sv conn.phase conn.bound_session conn.out h)

pub accept-IsServed : (out : Writer) (sv : Server) → IsServed sv (accept out sv).0 (accept out sv).1
unfolding accept
accept-IsServed out sv =
    open-IsServed sv _ _ refl (record { active = refl; hook = refl; fired = refl })
