-- ===== src/Rpc/Client.antt =====
-- internal/daemonrpc/client.go. A client's connection and the calls over it. JSON is a parameter, and
-- so is what the other end of the connection does with the bytes that it gets.
pub mod Calling
use claude_bridge.Base.{
  drop, ◌⊎◌, inl, inr, Option, none, some, List, [], ◌∷◌, ◌++◌, ℕ, zero, suc, if◌then◌else◌,
}
use claude_bridge.Text.{Str, nonempty}
use claude_bridge.Rpc.Frame.{FrameError, oversized, frame_header_size, write_frame, read_frame}
use claude_bridge.Rpc.Request.{
  Request, RegisterParams, SendParams, BroadcastParams, GetPeerInfoParams, method_subscribe,
}

-- What callers pass as `params any`; `struct{}{}` is `empty`, and nil is `no_params`.
pub data CallParams : Type 0 where
  no_params empty : CallParams
  register : RegisterParams → CallParams
  send : SendParams → CallParams
  broadcast : BroadcastParams → CallParams
  get_peer_info : GetPeerInfoParams → CallParams

pub record Response : Type 0 where
  pub result : Str
  pub error : Str

pub data CallError : Type 0 where
  bad_params bad_response : CallError
  frame_error : FrameError → CallError
  remote_error : Str → CallError

-- `encoding/json` on the client's side.
pub record ClientCodec (E : Type 0) : Type 0 where
  pub params : CallParams → Option Str
  pub request : Request → Option Str
  pub response : Str → Option Response
  pub event : Str → Option E

-- A net.Conn that takes `room` more bytes: what has arrived and is not read, and the other end.
pub record Client (W : Type 0) : Type 0 where
  pub room : ℕ
  pub unread : Str
  pub peer : W

-- An empty body for nil.
unfoldable pub encode_params : {E : Type 0} → ClientCodec E → CallParams → CallError ⊎ Str
encode_params k no_params = inr []
encode_params k p = elim (k.params p) [ none ↦ inl bad_params | some raw ↦ inr raw ]

-- The end of `callWithSession`.
unfoldable pub response_result : Response → CallError ⊎ Str
response_result r = if nonempty r.error then inl (remote_error r.error) else inr r.result

-- What a failed ReadFrame leaves: of an oversized frame it has read the header, else all there was.
abbrev left_unread : FrameError → Str → Str
left_unread (oversized n) s = drop frame_header_size s
left_unread _ s = []

module _ {W E : Type 0} (k : ClientCodec E) (remote : Str → W → W × Str) where
  -- WriteFrame on the connection, and what the other end answers.
  unfoldable pub write_request : Request → Client W → Client W × Option FrameError
  write_request req c =
      let (out, failed) = write_frame (record { written = []; room = c.room }) (k.request req) in
      let (peer, answer) = remote out.written c.peer in
      (record { room = out.room; unread = c.unread ++ answer; peer = peer }, failed)

  unfoldable pub read_response : Client W → Client W × (CallError ⊎ Str)
  unfolding response_result
  read_response c = elim (read_frame c.unread) [
    | inl e ↦ (record c { unread = left_unread e c.unread }, inl (frame_error e))
    | inr p ↦ (
      record c { unread = p.1 },
      elim (k.response p.0) [ none ↦ inl bad_response | some r ↦ response_result r ],
    )
  ]

  unfoldable pub call_with_session :
      Str → Str → CallParams → Client W → Client W × (CallError ⊎ Str)
  unfolding encode_params write_request read_response
  call_with_session method session_id params c = elim (encode_params k params) [
    | inl e ↦ (c, inl e)
    | inr raw ↦
        (let req : Request = record { method = method; session_id = session_id; params = raw } in
          let (c1, failed) = write_request req c in
          elim failed [ none ↦ read_response c1 | some e ↦ (c1, inl (frame_error e)) ])
  ]

  abbrev pub call : Str → CallParams → Client W → Client W × (CallError ⊎ Str)
  call method params c = call_with_session method [] params c

  abbrev pub call_as : Str → Str → CallParams → Client W → Client W × (CallError ⊎ Str)
  call_as session_id method params c = call_with_session method session_id params c

  -- The request of `Subscribe`; the events are then read by `read_events`.
  unfoldable pub subscribe : Str → Client W → Client W × Option CallError
  unfolding encode_params write_request
  subscribe session_id c = elim (encode_params k empty) [
    | inl e ↦ (c, some e)
    | inr raw ↦
        (let req : Request = record {
          method = method_subscribe;
          session_id = session_id;
          params = raw;
        } in
          let (c1, failed) = write_request req c in
          elim failed [ none ↦ (c1, none) | some e ↦ (c1, some (frame_error e)) ])
  ]

-- The loop of `readEvents` over what arrives until the connection closes: the events that it puts in
-- its channel before it closes it. A frame has at least a header, so the fuel is enough when it is
-- more than the number of bytes.
unfoldable pub read_events : {E : Type 0} → ClientCodec E → ℕ → Str → List E
read_events k zero s = []
read_events k (suc fuel) s = elim (read_frame s) [
  | inl e ↦ []
  | inr p ↦ elim (k.event p.0) [ none ↦ [] | some ev ↦ (ev ∷ read_events k fuel p.1) ]
]
