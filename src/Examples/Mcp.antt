-- ===== src/Examples/Mcp.antt =====
-- The theorems on the MCP server, with JSON in which a text stands for itself.
use claude_bridge.Base.{
  ℕ, ◌≡◌, ◌↔◌, ◌⊎◌, refl, inl, inr, false, some, List, [], ◌∷◌, ◌++◌, map, arith, All,
}
use claude_bridge.Base.Int.{pos}
use claude_bridge.Text.{Str, text, ◌==◌}
use claude_bridge.Text.Lines.{scan, drop_cr}
use claude_bridge.Dict.{lookup}
use claude_bridge.Broker.Message.{event_message, event_peer_left}
use claude_bridge.Rpc.Frame.{Writer}
use claude_bridge.Rpc.Request.{method_list_peers}
use claude_bridge.Mcp.Tools.{tool_registry}
use claude_bridge.Mcp.Channel.{message_payload, message_frame}
use claude_bridge.Mcp.Json.{Json, string, object_of, array_of}
use claude_bridge.Mcp.Schema.{tool_list_peers}
use claude_bridge.Mcp.Tools.Shape.{HasShape, shape_of}
use claude_bridge.Mcp.Tools.Typing.{handler-HasShape}
use claude_bridge.Mcp.Codec.{
  McpRequest, Codec, RespondPermissionArgs, PermissionRequestParams, DaemonClient,
}
use claude_bridge.Mcp.Tools.{handle_list_peers}
use claude_bridge.Mcp.Response.{McpResponse, error_response, code_method_not_found, unknown_tool}
use claude_bridge.Mcp.Server.{new_server, new_inert_server, dispatch, serve, method_tools_call}
use claude_bridge.Mcp.Server.Relay.{handle_permission_request}
use claude_bridge.Mcp.Server.Answering.{error_code_of, IsUnknown, dispatch_answers}
use claude_bridge.Mcp.Server.Calls.{Call, recording, IsOwn, serve-IsOwn, serve_inert}
use claude_bridge.Mcp.Server.Relaying.{listing, prompt, handle_permission_request-calls}
use claude_bridge.Mcp.Channel.{typed, other, Pick, event, closed, forward_events}
use claude_bridge.Mcp.Channel.Forwarding.{messages, lines, frames, scan-forward_events}
use claude_bridge.Examples.{api, web, plain, session_at}

abbrev asked : Str → PermissionRequestParams
asked s = record { request_id = s; tool_name = text "Bash"; description = []; input_preview = [] }

abbrev allowing : Str → RespondPermissionArgs
allowing s = record { to = api; request_id = s; behavior = text "allow" }

abbrev encode : Json → Str
encode (string s) = s
encode _ = text "{}"

abbrev codec : Codec
codec = record {
  request = λ s. inr (record { id = string (text "1"); method = s; params = [] });
  tool_call_params = λ s. inr (record { name = s; arguments = [] });
  permission_request_params = λ s. inr (asked s);
  send_args = λ s. inl [];
  broadcast_args = λ s. inl [];
  get_peer_info_args = λ s. inl [];
  respond_permission_args = λ s. inr (allowing s);
  list_peers_result = λ s. inr (session_at s ∷ session_at web ∷ []);
  send_result = λ s. inr s;
  broadcast_result = λ s. inr (pos 1);
  poll_result = λ s. inr [];
  get_peer_info_result = λ s. inl [];
  message = λ s. inl [];
  marshal = λ v. inr (encode v);
  format_time = λ n. [];
}

-- It answers each call with the method's name.
abbrev echo : List Call → Call → Str ⊎ Str
echo log c = inr c.method

abbrev daemon : DaemonClient (List Call)
daemon = recording echo

abbrev host : ℕ → Writer
host room = record { written = []; room = room }

abbrev unknown : McpRequest
unknown = record { id = string (text "1"); method = method_tools_call; params = text "dance" }

serve-IsOwn_example :
    All
      (IsOwn api)
      (serve codec daemon (new_server codec daemon api) (λ n. false) (text "ping") (host 9) []).0.0
serve-IsOwn_example = serve-IsOwn codec echo api (λ n. false) (text "ping") (host 9)

serve_inert_example :
    (serve codec daemon new_inert_server (λ n. false) (text "tools/list") (host 9) []).0.0 ≡ []
serve_inert_example = serve_inert codec daemon (λ n. false) (text "tools/list") (host 9) []

handle_permission_request-calls_example :
    handle_permission_request codec daemon web (text "7") []
    ≡ listing web ∷ map (prompt web (asked (text "7"))) (method_list_peers ∷ web ∷ [])
handle_permission_request-calls_example =
    handle_permission_request-calls codec echo web (text "7") [] (asked (text "7"))
      method_list_peers (session_at method_list_peers ∷ session_at web ∷ []) refl refl refl refl

abbrev missing : McpResponse
missing = error_response (string (text "1")) code_method_not_found (unknown_tool (text "dance"))

dispatch_answers_example :
    (missing.id ≡ unknown.id)
    × ((error_code_of missing ≡ some code_method_not_found)
        ↔ IsUnknown codec daemon (new_server codec daemon api) unknown)
unfolding dispatch new_server tool_registry lookup ◌==◌
dispatch_answers_example =
    dispatch_answers codec daemon (new_server codec daemon api) unknown [] missing refl

abbrev picks : List Pick
picks =
    event (record { type = event_message; payload = typed (plain web api (text "hello")) })
    ∷ event (record { type = event_peer_left; payload = other })
    ∷ closed
    ∷ []

scan-forward_events_example :
    scan 64 (forward_events codec picks (host 9)).0.written
    ≡ record { lines = frames encode (messages codec picks); too_long = false }
unfolding messages lines frames drop_cr message_payload ◌==◌ message_frame
scan-forward_events_example =
    scan-forward_events codec encode picks 9 64 (λ v. refl) (omega arith) (omega arith)
      (record { short = omega arith; single = (refl, (refl, tt)); bare = refl }, tt)

abbrev shown_peer : Str → Json
shown_peer id = object_of (
    (text "session_id", string id)
    ∷ (text "project_name", string id)
    ∷ (text "project_path", string (text "/srv/" ++ id))
    ∷ (text "last_seen", string [])
    ∷ [])

handler-HasShape_example :
    HasShape
      (shape_of tool_list_peers)
      (array_of (shown_peer method_list_peers ∷ shown_peer web ∷ []))
unfolding tool_registry lookup ◌==◌ handle_list_peers
handler-HasShape_example =
    handler-HasShape codec daemon tool_list_peers (handle_list_peers codec daemon) api [] [] refl
      refl
