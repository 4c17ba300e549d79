-- ===== src/Mcp/Schema.antt =====
-- internal/mcp/schema.go.
use claude_bridge.Base.{List, [], ◌∷◌, ◌++◌, map}
use claude_bridge.Text.{Str, text}
use claude_bridge.Mcp.Json.{Json, string, object_of, array_of}

abbrev pub tool_list_peers : Str
tool_list_peers = text "list_peers"

abbrev pub tool_send_message : Str
tool_send_message = text "send_message"

abbrev pub tool_broadcast : Str
tool_broadcast = text "broadcast"

abbrev pub tool_poll_messages : Str
tool_poll_messages = text "poll_messages"

abbrev pub tool_get_peer_info : Str
tool_get_peer_info = text "get_peer_info"

abbrev pub tool_respond_permission : Str
tool_respond_permission = text "respond_permission"

pub record Tool : Type 0 where
  pub name : Str
  pub description : Str
  pub input_schema : Json

abbrev object_schema : List (Str × Json) → List Str → Json
object_schema properties required = object_of (
    (text "type", string (text "object"))
    ∷ (text "properties", object_of properties)
    ∷ (text "required", array_of (map string required))
    ∷ [])

abbrev empty_object_schema : Json
empty_object_schema = object_schema [] []

abbrev string_prop : Str → Json
string_prop desc =
    object_of ((text "type", string (text "string")) ∷ (text "description", string desc) ∷ [])

abbrev bool_prop : Str → Json
bool_prop desc =
    object_of ((text "type", string (text "boolean")) ∷ (text "description", string desc) ∷ [])

abbrev list_peers_tool : Tool
list_peers_tool = record {
  name = tool_list_peers;
  description =
      text "List the other Claude sessions currently connected to the bridge. "
      ++ text "Returns each peer's session_id, project_name, project_path, and "
      ++ text "last_seen (ISO8601).";
  input_schema = empty_object_schema;
}

abbrev send_message_tool : Tool
send_message_tool = record {
  name = tool_send_message;
  description =
      text "Send a directed message to one peer by session_id. Set in_reply_to "
      ++ text "when answering a peer's message to thread the conversation; set "
      ++ text "expects_reply when you want an answer back, which surfaces the peer's "
      ++ text "notification as a high-signal warning.";
  input_schema =
      object_schema
        ((text "to", string_prop (text "Recipient peer's session_id."))
          ∷ (text "content", string_prop (text "Message body to deliver to the peer."))
          ∷ (
            text "in_reply_to",
            string_prop (
                text "Optional id of the message you are answering; threads the "
                ++ text "conversation."),
          )
          ∷ (
            text "expects_reply",
            bool_prop (
                text "Optional. Set true to signal 'please answer'; the peer is notified as "
                ++ text "a warning."),
          )
          ∷ [])
        (text "to" ∷ text "content" ∷ []);
}

abbrev broadcast_tool : Tool
broadcast_tool = record {
  name = tool_broadcast;
  description =
      text "Broadcast content to every connected peer. Use sparingly: every "
      ++ text "connected Claude instance processes it. Rate-limited per-sender "
      ++ text "(token bucket); exhausting the bucket returns an error, so back off "
      ++ text "and prefer a targeted send_message instead.";
  input_schema =
      object_schema
        ((text "content", string_prop (text "Message body to fan out to all peers.")) ∷ [])
        (text "content" ∷ []);
}

abbrev poll_messages_tool : Tool
poll_messages_tool = record {
  name = tool_poll_messages;
  description =
      text "Drain and return this session's pending inbox. Clears the inbox on "
      ++ text "read. Manual catch-up for cases where push delivery was interrupted "
      ++ text "(e.g. just after a daemon restart); normal traffic arrives via push "
      ++ text "notifications.";
  input_schema = empty_object_schema;
}

abbrev get_peer_info_tool : Tool
get_peer_info_tool = record {
  name = tool_get_peer_info;
  description =
      text "Look up a single peer by session_id. Returns the peer's session_id, "
      ++ text "project_name, project_path, and last_seen (ISO8601).";
  input_schema =
      object_schema ((text "session_id", string_prop (text "The peer session_id to look up.")) ∷ [])
        (text "session_id" ∷ []);
}

abbrev respond_permission_tool : Tool
respond_permission_tool = record {
  name = tool_respond_permission;
  description =
      text "Answer a peer's relayed tool-approval prompt. Only call this for an "
      ++ text "inbound <channel> message whose kind is \"permission_request\": pass "
      ++ text "to=the message's from, request_id=the message's request_id, and "
      ++ text "behavior=\"allow\" or \"deny\".";
  input_schema =
      object_schema
        ((
          text "to",
          string_prop (
              text "session_id of the peer that requested approval (the from of the "
              ++ text "permission_request)."),
        )
          ∷ (
            text "request_id",
            string_prop (text "The request_id carried on the permission_request message."),
          )
          ∷ (
            text "behavior",
            string_prop (text "\\\"allow\\\" to approve the tool call, \\\"deny\\\" to reject it."),
          )
          ∷ [])
        (text "to" ∷ text "request_id" ∷ text "behavior" ∷ []);
}

unfoldable pub tools : List Tool
tools =
    list_peers_tool ∷ send_message_tool ∷ broadcast_tool ∷ poll_messages_tool ∷ get_peer_info_tool
    ∷ respond_permission_tool ∷ []

-- A tool as the JSON that its struct tags give.
abbrev pub tool_json : Tool → Json
tool_json t = object_of (
    (text "name", string t.name)
    ∷ (text "description", string t.description)
    ∷ (text "inputSchema", t.input_schema)
    ∷ [])
