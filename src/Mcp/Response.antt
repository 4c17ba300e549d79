-- ===== src/Mcp/Response.antt =====
-- The values that the server of internal/mcp/server.go answers with.
use claude_bridge.Base.{◌⊎◌, inl, inr, Bool, true, false, List, [], ◌∷◌, ◌++◌, map, if◌then◌else◌}
use claude_bridge.Base.Int.{ℤ, negsuc}
use claude_bridge.Text.{Str, text}
use claude_bridge.Mcp.Json.{Json, string, number, object_of, array_of}
use claude_bridge.Mcp.Schema.{tools, tool_json}
use claude_bridge.Mcp.Codec.{Codec}
use claude_bridge.Mcp.Tools.{ToolError, param_error, call_error}

-- -32602, -32601 and -32603.
abbrev pub code_invalid_params : ℤ
code_invalid_params = negsuc 32601

abbrev pub code_method_not_found : ℤ
code_method_not_found = negsuc 32600

abbrev pub code_internal_error : ℤ
code_internal_error = negsuc 32602

pub record McpError : Type 0 where
  pub code : ℤ
  pub message : Str

-- A response has an error or a result.
pub record McpResponse : Type 0 where
  pub id : Json
  pub outcome : McpError ⊎ Json

abbrev pub success_response : Json → Json → McpResponse
success_response id result = record { id = id; outcome = inr result }

abbrev pub error_response : Json → ℤ → Str → McpResponse
error_response id code message = record {
  id = id;
  outcome = inl (record { code = code; message = message });
}

abbrev outcome_fields : McpError ⊎ Json → List (Str × Json)
outcome_fields (inl e) =
    (
      text "error",
      object_of ((text "code", number e.code) ∷ (text "message", string e.message) ∷ []),
    )
    ∷ []
outcome_fields (inr result) = (text "result", result) ∷ []

abbrev pub response_json : McpResponse → Json
response_json r =
    object_of ((text "jsonrpc", string (text "2.0")) ∷ (text "id", r.id) ∷ outcome_fields r.outcome)

-- The dash of the instructions, in UTF-8.
abbrev em_dash : Str
em_dash = 226 ∷ 128 ∷ 148 ∷ []

abbrev channel_instructions : Str
channel_instructions =
    text "You are connected to claude-bridge, a local bus linking Claude Code "
    ++ text "sessions across projects on this machine. Peer messages arrive as <channel "
    ++ text "source=\"claude-bridge\" from=\"...\" ...> blocks; source is always "
    ++ text "\"claude-bridge\", so identify the sender by the from attribute (the peer's "
    ++ text "session_id). REACTIVELY: when a message has expects_reply=\"true\" or an "
    ++ text "in_reply_to attribute, answer by calling send_message with to=the from "
    ++ text "value and in_reply_to=the message id; otherwise act on the content "
    ++ text "directly. A message with kind=\"permission_request\" is a peer asking you to "
    ++ text "approve a tool call "
    ++ em_dash
    ++ text " decide, then call respond_permission with to=the from "
    ++ text "value, request_id=the request_id attribute, and behavior=\"allow\" or \"deny\". "
    ++ text "PROACTIVELY coordinate when your work affects others: before a breaking "
    ++ text "API/type/interface change, when upgrading a shared dependency, when you "
    ++ text "import from a sibling repo, or when asked to notify/coordinate. Use "
    ++ text "list_peers to see who is connected, broadcast (rate-limited "
    ++ em_dash
    ++ text " don't loop) "
    ++ text "to announce a breaking change, and send_message with expects_reply=true to "
    ++ text "ask a specific peer; poll_messages is manual catch-up. Be specific: name "
    ++ text "the symbol, file, and new signature."

abbrev pub empty_map : Json
empty_map = object_of []

abbrev server_info : Json
server_info =
    object_of
      ((text "name", string (text "claude-bridge")) ∷ (text "version", string (text "0.1.0")) ∷ [])

-- The argument says whether the server is inert.
unfoldable pub initialize_result : Bool → Json
initialize_result true = object_of (
    (text "protocolVersion", string (text "2024-11-05"))
    ∷ (text "capabilities", empty_map)
    ∷ (text "serverInfo", server_info)
    ∷ [])
initialize_result false = object_of (
    (text "protocolVersion", string (text "2024-11-05"))
    ∷ (
      text "capabilities",
      object_of (
          (text "tools", empty_map)
          ∷ (
            text "experimental",
            object_of (
                (text "claude/channel", empty_map)
                ∷ (text "claude/channel/permission", empty_map)
                ∷ []),
          )
          ∷ []),
    )
    ∷ (text "serverInfo", server_info)
    ∷ (text "instructions", string channel_instructions)
    ∷ [])

unfoldable pub tools_list_result : Bool → Json
unfolding tools
tools_list_result inert =
    object_of ((text "tools", array_of (if inert then [] else map tool_json tools)) ∷ [])

-- A value that has no JSON is shown as null.
unfoldable pub tool_result : Codec → Json → Json
tool_result k value =
    let shown : Str = elim (k.marshal value) [ inl e ↦ text "null" | inr s ↦ s ] in
    object_of (
      (
        text "content",
        array_of (
            object_of ((text "type", string (text "text")) ∷ (text "text", string shown) ∷ [])
            ∷ []),
      )
      ∷ [])

unfoldable pub error_code : ToolError → ℤ
error_code (param_error e) = code_invalid_params
error_code (call_error e) = code_internal_error

abbrev pub error_text : ToolError → Str
error_text (param_error e) = e
error_text (call_error e) = e

-- `unknown tool: ` and `method not found: `
abbrev pub unknown_tool : Str → Str
unknown_tool name = text "unknown tool: " ++ name

abbrev pub method_not_found : Str → Str
method_not_found method = text "method not found: " ++ method
