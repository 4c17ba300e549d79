-- ===== src/Rpc/Client/Calling.antt =====
-- A call over a connection to the daemon, and the broker's answer to it.
use claude_bridge.Base.{
  ℕ, ◌-◌, ◌≡◌, ◌≤◌, refl, ap, ◌∙◌, ◌⊎◌, inl, inr, true, false, none, some, [], ◌++◌, length,
}
use claude_bridge.Text.{Str, nonempty, ◌==◌}
use claude_bridge.Broker.Clock.{World}
use claude_bridge.Rpc.Frame.{max_frame_size, Writer, write_frame, read_frame}
use claude_bridge.Rpc.Frame.RoundTrip.{frame}
use claude_bridge.Rpc.Request.{Request, Codec, RpcError, method_subscribe, invoke}
use claude_bridge.Rpc.Server
use claude_bridge.Rpc.Server.{
  Server, reading, streaming, Conn, after_write, respond, bind_session, answer_register,
  handle_register, dispatch, handle_request, handle_frame, hang_up, handle,
}
use claude_bridge.Rpc.Client.{
  CallParams, Response, CallError, remote_error, ClientCodec, Client, encode_params,
  response_result, write_request, read_response, call_with_session,
}
use claude_bridge.Rpc.Frame.Whole.{Fits, write_frame-fits, read_frame-whole}
use claude_bridge.Rpc.Server.Answering.{request_of, touched, handle_request-IsAnswered}

-- The daemon at the other end of a connection: what it does with the bytes of a call, of which it
-- reads a frame, and what it answers.
unfoldable pub daemon : Codec → World → Str → Server × Conn → (Server × Conn) × Str
unfolding handle
daemon c w bytes (sv, conn) = elim (read_frame bytes) [
  | inl e ↦ (handle c w hang_up sv conn, [])
  | inr p ↦
      (let (sv1, conn1) =
          handle c w (Server.frame p.0) sv
            (record conn { out = record { written = []; room = conn.out.room } }) in
        ((sv1, conn1), conn1.out.written))
]

abbrev pub outcome : (RpcError → Str) → RpcError ⊎ Str → CallError ⊎ Str
outcome error_text (inl e) = inl (remote_error (error_text e))
outcome error_text (inr result) = inr result

-- The response in which a client should find an answer of the daemon.
abbrev pub shown : (RpcError → Str) → RpcError ⊎ Str → Response
shown error_text (inl e) = record { result = []; error = error_text e }
shown error_text (inr result) = record { result = result; error = [] }

-- What the two sides' JSON has to agree on, at one request with its payload and one result with its
-- answer: the daemon decodes the request that was sent, and the client the result; the text of an
-- error is not empty.
pub record Agrees {E : Type 0} (k : ClientCodec E) (c : Codec) (error_text : RpcError → Str)
    (req : Request) (payload : Str) (r : RpcError ⊎ Str) (answer : Str) : Type 0 where
  pub request : c.request payload ≡ some req
  pub response : k.response answer ≡ some (shown error_text r)
  pub says : (e : RpcError) → r ≡ inl e → nonempty (error_text e) ≡ true

module _ (c : Codec) (w : World) (req : Request) (sv : Server) (conn : Conn) where
  daemon-IsAnswered :
      (payload answer : Str)
      → length payload ≤ max_frame_size
      → c.request payload ≡ some req
      → conn.phase ≡ reading
      → (req.method == method_subscribe) ≡ false
      → c.response (invoke c w req (touched w req sv.broker)).1 ≡ some answer
      → Fits conn.out.room answer
      → ((daemon c w (frame payload) (sv, conn)).0.0
          ≡ record sv { broker = (invoke c w req (touched w req sv.broker)).0 })
        × ((daemon c w (frame payload) (sv, conn)).0.1.phase ≡ reading)
        × ((daemon c w (frame payload) (sv, conn)).1 ≡ frame answer)
  unfolding daemon handle handle_frame
  daemon-IsAnswered payload answer small decoded at_loop plain e f =
      let conn0 : Conn = record conn { out = record { written = []; room = conn.out.room } } in
      let a =
        handle_request-IsAnswered c w req sv conn0 answer plain e
          (record { small = f.small; fits = f.fits }) in
      let got = read_frame-whole payload small in
      rw (got, at_loop, decoded, daemon, handle, handle_frame)
        (a.server, a.phase ∙ at_loop, ap (λ (o : Writer). o.written) a.out)

response_result-outcome :
    (error_text : RpcError → Str) (r : RpcError ⊎ Str)
    → ((e : RpcError) → r ≡ inl e → nonempty (error_text e) ≡ true)
    → response_result (shown error_text r) ≡ outcome error_text r
unfolding response_result
response_result-outcome error_text (inl e) says = rw (says e refl) refl
response_result-outcome error_text (inr result) says = refl

module _ {W E : Type 0} (k : ClientCodec E) (remote : Str → W → W × Str) where
  write_request-frame :
      (req : Request) (payload : Str) (c : Client W)
      → k.request req ≡ some payload
      → Fits c.room payload
      → write_request k remote req c ≡ (
        record {
          room = c.room - length (frame payload);
          unread = c.unread ++ (remote (frame payload) c.peer).1;
          peer = (remote (frame payload) c.peer).0;
        },
        none,
      )
  unfolding write_request
  write_request-frame req payload c sent f =
      let out = write_frame-fits (record { written = []; room = c.room }) payload f.small f.fits in
      rw (ap (write_frame (record { written = []; room = c.room })) sent ∙ out, write_request) refl

  read_response-frame :
      (answer : Str) (resp : Response) (c : Client W)
      → c.unread ≡ frame answer
      → length answer ≤ max_frame_size
      → k.response answer ≡ some resp
      → read_response k remote c ≡ (record c { unread = [] }, response_result resp)
  unfolding read_response
  read_response-frame answer resp c here small decoded =
      let got = read_frame-whole answer small in rw (here, got, decoded, read_response) refl

-- A call over a connection to the daemon, other than a subscription, touches the caller's session,
-- then does what the request does to the broker, and returns what the broker answers: the result, or
-- the text of the error. The connection stays open for the next call. The conditions are that the
-- daemon waits for a request on it, that the request and the answer are small enough to be sent, and
-- that the two sides agree on JSON.
pub call_with_session-invoke :
    {E : Type 0} (k : ClientCodec E) (c : Codec) (error_text : RpcError → Str) (w : World)
    (sv : Server) (conn : Conn) (room : ℕ) (method session_id : Str) (given : CallParams)
    (raw payload answer : Str)
    → encode_params k given ≡ inr raw
    → (method == method_subscribe) ≡ false
    → k.request (record { method = method; session_id = session_id; params = raw }) ≡ some payload
    → Fits room payload
    → conn.phase ≡ reading
    → c.response
        (invoke c w
          (request_of method session_id raw)
          (touched w (request_of method session_id raw) sv.broker)).1
      ≡ some answer
    → Fits conn.out.room answer
    → Agrees k c error_text
        (request_of method session_id raw)
        payload
        (invoke c w
          (request_of method session_id raw)
          (touched w (request_of method session_id raw) sv.broker)).1
        answer
    → (let (after, result) =
          call_with_session k
            (daemon c w)
            method
            session_id
            given
            (record { room = room; unread = []; peer = (sv, conn) }) in
        let (st, r) =
          invoke c w
            (request_of method session_id raw)
            (touched w (request_of method session_id raw) sv.broker) in
        (result ≡ outcome error_text r)
        × (after.peer.0 ≡ record sv { broker = st })
        × (after.peer.1.phase ≡ reading)
        × (after.unread ≡ []))
unfolding call_with_session
call_with_session-invoke k c error_text w sv conn room method session_id given raw payload answer
      encoded plain sent fits at_loop e fits' agrees =
    let req = request_of method session_id raw in
    let (server, phase, bytes) =
      daemon-IsAnswered c w req sv conn payload answer fits.small agrees.request at_loop plain e
        fits' in
    let r = (invoke c w req (touched w req sv.broker)).1 in
    let wrote =
      write_request-frame k (daemon c w) req payload
        (record { room = room; unread = []; peer = (sv, conn) }) sent fits in
    let read =
      read_response-frame k (daemon c w) answer (shown error_text r)
        (write_request k (daemon c w) req
          (record { room = room; unread = []; peer = (sv, conn) })).0
        (ap (λ p. p.0.unread) wrote ∙ bytes) fits'.small agrees.response in
    rw (encoded, ap (λ p. p.1) wrote, call_with_session)
      (rw read (
        response_result-outcome error_text r agrees.says,
        ap (λ p. p.0.peer.0) wrote ∙ server,
        ap (λ p. p.0.peer.1.phase) wrote ∙ phase,
        refl,
      ))
