-- ===== src/Mcp/Tools.antt =====
-- internal/mcp/tools.go.
pub mod Shape
pub mod Typing
use claude_bridge.Base.{
  ◌⊎◌, inl, inr, ◌&&◌, ◌||◌, not, Bool, false, List, [], ◌∷◌, map, if◌then◌else◌,
}
use claude_bridge.Text.{Str, text, nonempty, ◌==◌}
use claude_bridge.Dict.{Dict}
use claude_bridge.Broker.Session.{Session}
use claude_bridge.Broker.Message.{Message, kind_message, kind_permission_verdict}
use claude_bridge.Rpc.Request.{
  SendParams, method_list_peers, method_send, method_broadcast, method_poll, method_get_peer_info,
}
use claude_bridge.Rpc.Client.{empty, send, broadcast, get_peer_info}
use claude_bridge.Mcp.Json.{Json, string, boolean, number, object_of, array_of}
use claude_bridge.Mcp.Schema.{
  tool_list_peers, tool_send_message, tool_broadcast, tool_poll_messages, tool_get_peer_info,
  tool_respond_permission,
}
use claude_bridge.Mcp.Codec.{
  SendArgs, RespondPermissionArgs, PeerView, Codec, DaemonClient, decode_args,
}

abbrev pub behavior_allow : Str
behavior_allow = text "allow"

abbrev pub behavior_deny : Str
behavior_deny = text "deny"

-- The error of a handler: marked by errInvalidParams, or any other.
pub data ToolError : Type 0 where
  param_error : Str → ToolError
  call_error : Str → ToolError

abbrev peer_view_json : PeerView → Json
peer_view_json v = object_of (
    (text "session_id", string v.session_id)
    ∷ (text "project_name", string v.project_name)
    ∷ (text "project_path", string v.project_path)
    ∷ (text "last_seen", string v.last_seen)
    ∷ [])

abbrev peer_view : Codec → Session → PeerView
peer_view k p = record {
  session_id = p.id;
  project_name = p.project_name;
  project_path = p.project_path;
  last_seen = k.format_time p.last_seen;
}

-- The tag `omitempty`.
abbrev unless_empty : Bool → Str × Json → List (Str × Json) → List (Str × Json)
unless_empty present kv kvs = if present then kv ∷ kvs else kvs

abbrev message_view : Codec → Message → Json
message_view k m = object_of (
    (text "id", string m.id)
    ∷ (text "from", string m.from)
    ∷ (text "content", string m.content)
    ∷ (text "created_at", string (k.format_time m.created_at))
    ∷ unless_empty (nonempty m.in_reply_to) (text "in_reply_to", string m.in_reply_to)
        (unless_empty m.expects_reply (text "expects_reply", boolean m.expects_reply) []))

abbrev pub zero_send_args : SendArgs
zero_send_args = record { to = []; content = []; in_reply_to = []; expects_reply = false }

abbrev pub zero_respond_permission_args : RespondPermissionArgs
zero_respond_permission_args = record { to = []; request_id = []; behavior = [] }

-- What a handler makes of the outcome of its call: the result is decoded and shown.
abbrev pub shown : {A : Type 0} → (Str → Str ⊎ A) → (A → Json) → Str ⊎ Str → ToolError ⊎ Json
shown decode view (inl e) = inl (call_error e)
shown decode view (inr raw) = elim (decode raw) [
  | inl e ↦ inl (call_error e)
  | inr r ↦ inr (view r)
]

abbrev pub required_error : Str
required_error = text "to and request_id are required"

abbrev pub behavior_error : Str
behavior_error = text "behavior must be \"allow\" or \"deny\""

abbrev pub verdict : RespondPermissionArgs → SendParams
verdict a = record {
  to = a.to;
  content = a.behavior;
  in_reply_to = [];
  expects_reply = false;
  kind = kind_permission_verdict;
  request_id = a.request_id;
}

-- The checks of `handleRespondPermission`, in their order.
unfoldable pub check_verdict : RespondPermissionArgs → Str ⊎ SendParams
check_verdict a =
    if not (a.behavior == behavior_allow) && not (a.behavior == behavior_deny)
    then inl behavior_error
    else (if not (nonempty a.to) || not (nonempty a.request_id)
        then inl required_error
        else inr (verdict a))

-- `map[string]any{"status": "sent"}`
abbrev pub status_sent : Json
status_sent = object_of ((text "status", string (text "sent")) ∷ [])

abbrev pub message_params : SendArgs → SendParams
message_params a = record {
  to = a.to;
  content = a.content;
  in_reply_to = a.in_reply_to;
  expects_reply = a.expects_reply;
  kind = kind_message;
  request_id = [];
}

abbrev pub ToolHandler : Type 0 → Type 0
ToolHandler W = Str → Str → W → W × (ToolError ⊎ Json)

module _ {W : Type 0} (k : Codec) (c : DaemonClient W) where
  unfoldable pub handle_list_peers : ToolHandler W
  handle_list_peers session_id args w =
      let (w1, raw) = c.call_as session_id method_list_peers empty w in
      (
        w1,
        shown k.list_peers_result (λ ps. array_of (map (λ p. peer_view_json (peer_view k p)) ps))
            raw,
      )

  unfoldable pub handle_send_message : ToolHandler W
  unfolding decode_args
  handle_send_message session_id args w = elim (decode_args k.send_args zero_send_args args) [
    | inl e ↦ (w, inl (param_error e))
    | inr a ↦
        (let (w1, raw) = c.call_as session_id method_send (send (message_params a)) w in
          (w1, shown k.send_result (λ id. object_of ((text "message_id", string id) ∷ [])) raw))
  ]

  unfoldable pub handle_broadcast : ToolHandler W
  unfolding decode_args
  handle_broadcast session_id args w =
      elim (decode_args k.broadcast_args (record { content = [] }) args) [
        | inl e ↦ (w, inl (param_error e))
        | inr a ↦
            (let (w1, raw) =
                c.call_as session_id method_broadcast (broadcast (record { content = a.content }))
                  w in
              (w1, shown k.broadcast_result (λ n. object_of ((text "sent_to", number n) ∷ [])) raw))
      ]

  unfoldable pub handle_poll_messages : ToolHandler W
  handle_poll_messages session_id args w =
      let (w1, raw) = c.call_as session_id method_poll empty w in
      (w1, shown k.poll_result (λ ms. array_of (map (message_view k) ms)) raw)

  unfoldable pub handle_get_peer_info : ToolHandler W
  unfolding decode_args
  handle_get_peer_info session_id args w =
      elim (decode_args k.get_peer_info_args (record { session_id = [] }) args) [
        | inl e ↦ (w, inl (param_error e))
        | inr a ↦
            (let (w1, raw) =
                c.call_as session_id method_get_peer_info
                  (get_peer_info (record { session_id = a.session_id })) w in
              (w1, shown k.get_peer_info_result peer_view_json raw))
      ]

  -- The result of the daemon is not decoded here.
  unfoldable pub handle_respond_permission : ToolHandler W
  unfolding decode_args check_verdict
  handle_respond_permission session_id args w =
      elim (decode_args k.respond_permission_args zero_respond_permission_args args) [
        | inl e ↦ (w, inl (param_error e))
        | inr a ↦ elim (check_verdict a) [
          | inl e ↦ (w, inl (param_error e))
          | inr p ↦
              (let (w1, raw) = c.call_as session_id method_send (send p) w in
                (w1, shown (λ s. inr s) (λ s. status_sent) raw))
        ]
      ]

  unfoldable pub tool_registry : Dict (ToolHandler W)
  tool_registry =
      (tool_list_peers, handle_list_peers)
      ∷ (tool_send_message, handle_send_message)
      ∷ (tool_broadcast, handle_broadcast)
      ∷ (tool_poll_messages, handle_poll_messages)
      ∷ (tool_get_peer_info, handle_get_peer_info)
      ∷ (tool_respond_permission, handle_respond_permission)
      ∷ []
