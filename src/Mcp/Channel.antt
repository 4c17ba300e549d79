-- ===== src/Mcp/Channel.antt =====
-- The events that internal/mcp/server.go pushes to Claude Code.
pub mod Forwarding
use claude_bridge.Base.{
  ◌⊎◌, inl, inr, Bool, true, false, Option, none, some, List, [], ◌∷◌, map, if◌then◌else◌,
}
use claude_bridge.Text.{Str, text, nonempty, ◌==◌}
use claude_bridge.Dict.{Dict, insert}
use claude_bridge.Broker.Message.{
  Message, event_message, kind_permission_request, kind_permission_verdict,
}
use claude_bridge.Rpc.Frame.{Writer}
use claude_bridge.Mcp.Json.{Json, Fields, string, object, object_of}
use claude_bridge.Mcp.Codec.{Codec}
use claude_bridge.Mcp.Server.{write_raw}

-- A broker.Event's payload as the shim may hold it: a message, a decoded JSON object, anything else.
pub data Payload : Type 0 where
  typed : Message → Payload
  generic : Fields → Payload
  other : Payload

pub record Event : Type 0 where
  pub type : Str
  pub payload : Payload

abbrev pub meta_from : Str
meta_from = text "from"

abbrev pub meta_id : Str
meta_id = text "id"

abbrev pub meta_in_reply_to : Str
meta_in_reply_to = text "in_reply_to"

abbrev pub meta_expects_reply : Str
meta_expects_reply = text "expects_reply"

abbrev pub meta_request_id : Str
meta_request_id = text "request_id"

abbrev pub meta_kind : Str
meta_kind = text "kind"

abbrev pub meta_true : Str
meta_true = text "true"

unfoldable pub channel_meta : Message → Dict Str
channel_meta m =
    let meta = (meta_from, m.from) ∷ (meta_id, m.id) ∷ [] in
    let threaded =
      if nonempty m.in_reply_to then insert meta_in_reply_to m.in_reply_to meta else meta in
    let asking =
      if m.expects_reply then insert meta_expects_reply meta_true threaded else threaded in
    if m.kind == kind_permission_request
    then insert meta_request_id m.request_id (insert meta_kind kind_permission_request asking)
    else asking

abbrev meta_json : Str × Str → Str × Json
meta_json (k, v) = (k, string v)

abbrev pub notification : Str → List (Str × Json) → Json
notification method params = object_of (
    (text "jsonrpc", string (text "2.0"))
    ∷ (text "method", string method)
    ∷ (text "params", object_of params)
    ∷ [])

abbrev pub channel_method : Str
channel_method = text "notifications/claude/channel"

abbrev pub permission_verdict_method : Str
permission_verdict_method = text "notifications/claude/channel/permission"

unfoldable pub channel_frame : Message → Json
unfolding channel_meta
channel_frame m = notification channel_method (
    (text "content", string m.content)
    ∷ (text "meta", object_of (map meta_json (channel_meta m)))
    ∷ [])

unfoldable pub permission_verdict_frame : Message → Json
permission_verdict_frame m =
    notification permission_verdict_method
      ((text "request_id", string m.request_id) ∷ (text "behavior", string m.content) ∷ [])

abbrev to_option : {A : Type 0} → Str ⊎ A → Option A
to_option (inl e) = none
to_option (inr a) = some a

unfoldable payload_message : Codec → Payload → Option Message
payload_message k (typed m) = some m
payload_message k (generic p) = elim (k.marshal (object p)) [
  | inl e ↦ none
  | inr raw ↦ to_option (k.message raw)
]
payload_message k other = none

unfoldable pub message_payload : Codec → Event → Option Message
unfolding payload_message
message_payload k ev = if ev.type == event_message then payload_message k ev.payload else none

-- The frame of a message.
unfoldable pub message_frame : Message → Json
unfolding channel_frame permission_verdict_frame
message_frame m =
    if m.kind == kind_permission_verdict then permission_verdict_frame m else channel_frame m

unfoldable pub event_notification : Codec → Event → Option Json
unfolding message_payload message_frame
event_notification k ev = elim (message_payload k ev) [
  | none ↦ none
  | some m ↦ some (message_frame m)
]

-- What the select of `ForwardEvents` takes in a round.
pub data Pick : Type 0 where
  done closed : Pick
  event : Event → Pick

-- The output, and whether the function has returned.
unfoldable pub forward_events : Codec → List Pick → Writer → Writer × Bool
unfolding event_notification write_raw
forward_events k [] out = (out, false)
forward_events k (done ∷ picks) out = (out, true)
forward_events k (closed ∷ picks) out = (out, true)
forward_events k (event ev ∷ picks) out =
    let skipped = forward_events k picks out in
    elim (event_notification k ev) [
      | none ↦ skipped
      | some frame ↦
          (let (out1, failed) = write_raw k frame out in
            let rest = forward_events k picks out1 in
            elim failed [ none ↦ rest | some e ↦ (out1, true) ])
    ]
