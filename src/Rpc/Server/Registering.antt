-- ===== src/Rpc/Server/Registering.antt =====
-- A registration over a connection.
use claude_bridge.Base.{
  ◌≡◌, ◌≤◌, ◌<◌, refl, ap, ◌∙◌, inr, true, none, some, [], leb, le→leb, lt→leb_false, length,
  if◌then◌else◌,
}
use claude_bridge.Text.{Str, nonempty}
use claude_bridge.Dict.{lookup, lookup-insert_self}
use claude_bridge.Broker.Clock.{World}
use claude_bridge.Broker.Session.{Session}
use claude_bridge.Broker.State.{SessEntry, State, notify_peers}
use claude_bridge.Broker.Sessions.{register_session}
use claude_bridge.Rpc.Frame.{short_write, write_frame, max_frame_size}
use claude_bridge.Rpc.Frame.RoundTrip.{frame, write_frame-take}
use claude_bridge.Rpc.Request.{Codec, registered, unmarshal_params, marshal_result, do_register}
use claude_bridge.Rpc.Server.{
  Server, Conn, returned, finish, respond, bind_session, answer_register, handle_register,
}
use claude_bridge.Rpc.Server.Serving.{unregister_session-lookup}

-- The session that a registration makes.
abbrev pub made : World → Str → Server → Session
made w path sv = (register_session w path sv.broker).1

-- How the codec answers a registration: its parameters are read, the result is written and read back,
-- and the response is a frame of at most the largest size.
pub record Answers (c : Codec) (params path : Str) (sess : Session) : Type 0 where
  pub decoded :
      unmarshal_params c.register_params (record { project_path = [] }) params
      ≡ some (record { project_path = path })
  pub result : Str
  pub encoded : c.marshal (registered sess) ≡ some result
  pub read_back : c.session_id result ≡ sess.id
  pub payload : Str
  pub answered : c.response (inr result) ≡ some payload
  pub fits : length payload ≤ max_frame_size

register_session-lookup :
    (w : World) (path : Str) (st : State)
    → (e : SessEntry) × (lookup
          (register_session w path st).1.id
          (register_session w path st).0.sessions
        ≡ some e)
      × (e.session ≡ (register_session w path st).1)
unfolding register_session notify_peers
register_session-lookup w path st = (_, lookup-insert_self _ _ st.sessions, refl)

do_register_lem :
    (c : Codec) (w : World) (params path : Str) (sv : Server)
    (h : Answers c params path (made w path sv))
    → do_register c w params sv.broker ≡ ((register_session w path sv.broker).0, inr h.result)
unfolding do_register marshal_result
do_register_lem c w params path sv h =
    rw (h.decoded, do_register) (rw (h.encoded, marshal_result) refl)

handled :
    (c : Codec) (w : World) (params path : Str) (sv : Server) (conn : Conn)
    (h : Answers c params path (made w path sv))
    → handle_register c w params sv conn
      ≡ answer_register c sv conn ((register_session w path sv.broker).0, inr h.result)
unfolding handle_register
handled c w params path sv conn h =
    ap (answer_register c sv conn) (do_register_lem c w params path sv h)

-- Whether the response is written.
respond_lem :
    (c : Codec) (conn : Conn) (params path : Str) (sess : Session) (h : Answers c params path sess)
    → (respond c conn (inr h.result)).1
      ≡ (if leb (length (frame h.payload)) conn.out.room then none else some short_write)
unfolding respond
respond_lem c conn params path sess h =
    ap (λ r. (write_frame conn.out r).1) h.answered ∙ (write_frame-take conn.out h.payload h.fits).2

answer_register_ok :
    (c : Codec) (sv : Server) (conn : Conn) (st : State) (result : Str)
    → (respond c conn (inr result)).1 ≡ none
    → nonempty (c.session_id result) ≡ true
    → answer_register c sv conn (st, inr result) ≡ (
      record sv { broker = st },
      record conn { out = (respond c conn (inr result)).0; bound_session = c.session_id result },
    )
unfolding answer_register bind_session
answer_register_ok c sv conn st result e n = rw (e, answer_register) (rw (n, bind_session) refl)

answer_register_broken :
    (c : Codec) (sv : Server) (conn : Conn) (st : State) (result : Str)
    → (respond c conn (inr result)).1 ≡ some short_write
    → answer_register c sv conn (st, inr result)
      ≡ finish (record sv { broker = st }) (record conn { out = (respond c conn (inr result)).0 })
unfolding answer_register
answer_register_broken c sv conn st result e = rw (e, answer_register) refl

-- A registration whose response can be written binds its session to the connection, which goes on;
-- the session is in the broker, and no longer once the connection ends.
pub handle_register_binds :
    (c : Codec) (w : World) (params path : Str) (sv : Server) (conn : Conn)
    (h : Answers c params path (made w path sv))
    → nonempty (made w path sv).id ≡ true
    → length (frame h.payload) ≤ conn.out.room
    → let (sv1, conn1) = handle_register c w params sv conn in
      (conn1.phase ≡ conn.phase)
      × (conn1.bound_session ≡ (made w path sv).id)
      × ((e : SessEntry) × (lookup (made w path sv).id sv1.broker.sessions ≡ some e)
          × (e.session ≡ made w path sv))
      × (lookup (made w path sv).id (finish sv1 conn1).0.broker.sessions ≡ none)
unfolding finish
handle_register_binds c w params path sv conn h n room =
    let (e, found, same) = register_session-lookup w path sv.broker in
    let st = (register_session w path sv.broker).0 in
    let written = respond_lem c conn params path _ h ∙ rw (le→leb _ _ room) refl in
    let bound = ap nonempty h.read_back ∙ n in
    rw (handled c w params path sv conn h ∙ answer_register_ok c sv conn st h.result written bound)
      (rw (h.read_back)
        (refl, refl, (e, found, same), rw n (unregister_session-lookup (made w path sv).id st)))

-- A registration whose response cannot be written ends the connection, and if that had no session
-- bound, the new session stays in the broker.
pub handle_register_leaks :
    (c : Codec) (w : World) (params path : Str) (sv : Server) (conn : Conn)
    (h : Answers c params path (made w path sv))
    → conn.bound_session ≡ []
    → conn.out.room < length (frame h.payload)
    → let (sv1, conn1) = handle_register c w params sv conn in
      (conn1.phase ≡ returned)
      × ((e : SessEntry) × (lookup (made w path sv).id sv1.broker.sessions ≡ some e)
          × (e.session ≡ made w path sv))
unfolding finish
handle_register_leaks c w params path sv conn h unbound short =
    let (e, found, same) = register_session-lookup w path sv.broker in
    let st = (register_session w path sv.broker).0 in
    let broken = respond_lem c conn params path _ h ∙ rw (lt→leb_false _ _ short) refl in
    rw (handled c w params path sv conn h ∙ answer_register_broken c sv conn st h.result broken)
      (rw unbound (refl, (e, found, same)))
