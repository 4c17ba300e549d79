-- ===== src/Mcp/Server.antt =====
-- The requests of internal/mcp/server.go and the loop that reads and answers them.
pub mod Relay
pub mod Relaying
pub mod Calls
pub mod Serving
pub mod Keeping
pub mod Answering
use claude_bridge.Base.{
  ℕ, ◌+◌, ◌⊎◌, inl, inr, ◌&&◌, not, Bool, true, false, Option, none, some, List, [], ◌∷◌, ◌++◌, map,
  if◌then◌else◌,
}
use claude_bridge.Base.Int.{ℤ, negsuc}
use claude_bridge.Text.{Str, text, nonempty, ◌==◌}
use claude_bridge.Text.Trim.{trim_space}
use claude_bridge.Text.Lines.{scan, newline}
use claude_bridge.Dict.{Dict, lookup}
use claude_bridge.Rpc.Frame.{Writer, write}
use claude_bridge.Mcp.Json.{Json, null, string, number, is_null, object_of, array_of}
use claude_bridge.Mcp.Schema.{Tool, tools, tool_json}
use claude_bridge.Mcp.Codec.{McpRequest, Codec, DaemonClient}
use claude_bridge.Mcp.Tools.{ToolError, param_error, call_error, ToolHandler, tool_registry}
use claude_bridge.Mcp.Response.{
  code_invalid_params, code_method_not_found, McpResponse, success_response, error_response,
  response_json, empty_map, initialize_result, tools_list_result, tool_result, error_code,
  error_text, unknown_tool, method_not_found,
}
use claude_bridge.Mcp.Server.Relay.{handle_permission_request}

abbrev pub method_initialize : Str
method_initialize = text "initialize"

abbrev pub method_tools_list : Str
method_tools_list = text "tools/list"

abbrev pub method_tools_call : Str
method_tools_call = text "tools/call"

abbrev pub method_ping : Str
method_ping = text "ping"

abbrev pub method_permission_request : Str
method_permission_request = text "notifications/claude/channel/permission_request"

-- The writer and the mutex that guards it are passed to the functions that write.
pub record Server (W : Type 0) : Type 0 where
  pub session_id : Str
  pub tools : Dict (ToolHandler W)
  pub inert : Bool

unfoldable pub new_server : {W : Type 0} → Codec → DaemonClient W → Str → Server W
unfolding tool_registry
new_server k c session_id = record {
  session_id = session_id;
  tools = tool_registry k c;
  inert = false;
}

unfoldable pub new_inert_server : {W : Type 0} → Server W
new_inert_server = record { session_id = []; tools = []; inert = true }

-- Why a value is not written.
pub data WriteError : Type 0 where
  unmarshalable : Str → WriteError
  broken_pipe : WriteError

unfoldable pub write_raw : Codec → Json → Writer → Writer × Option WriteError
unfolding write
write_raw k v out = elim (k.marshal v) [
  | inl e ↦ (out, some (unmarshalable e))
  | inr data_ ↦
      (let (out1, ok) = write out (data_ ++ newline ∷ []) in
        (out1, if ok then none else some broken_pipe))
]

abbrev pub write_response : Codec → McpResponse → Writer → Writer × Option WriteError
write_response k resp out = write_raw k (response_json resp) out

-- Why `Serve` returns: its input ended, its context was cancelled, a write failed, a line was too long.
pub data ServeEnd : Type 0 where
  ended cancelled too_long : ServeEnd
  write_failed : WriteError → ServeEnd

-- The largest line that Scan returns is one byte shorter.
abbrev pub max_line : ℕ
max_line = 1048576

module _ {W : Type 0} (k : Codec) (c : DaemonClient W) (s : Server W) where
  abbrev pub tool_response : Json → W × (ToolError ⊎ Json) → W × McpResponse
  tool_response id (w, inl e) = (w, error_response id (error_code e) (error_text e))
  tool_response id (w, inr value) = (w, success_response id (tool_result k value))

  unfoldable pub dispatch_tool_call : McpRequest → W → W × McpResponse
  unfolding error_code tool_result
  dispatch_tool_call req w = elim (k.tool_call_params req.params) [
    | inl e ↦ (w, error_response req.id code_invalid_params e)
    | inr p ↦ elim (lookup p.name s.tools) [
      | none ↦ (w, error_response req.id code_method_not_found (unknown_tool p.name))
      | some handler ↦ tool_response req.id (handler s.session_id p.arguments w)
    ]
  ]

  -- The switch of `dispatch`.
  unfoldable pub dispatch_request : McpRequest → W → W × McpResponse
  unfolding dispatch_tool_call initialize_result tools_list_result
  dispatch_request req w =
      if req.method == method_initialize
      then (w, success_response req.id (initialize_result s.inert))
      else if req.method == method_tools_list
      then (w, success_response req.id (tools_list_result s.inert))
      else if req.method == method_tools_call
      then dispatch_tool_call req w
      else if req.method == method_ping
      then (w, success_response req.id empty_map)
      else (w, error_response req.id code_method_not_found (method_not_found req.method))

  -- A notification has no response.
  unfoldable pub dispatch : McpRequest → W → W × Option McpResponse
  unfolding dispatch_request handle_permission_request
  dispatch req w =
      if not s.inert && req.method == method_permission_request
      then (handle_permission_request k c s.session_id req.params w, none)
      else if is_null req.id
      then (w, none)
      else (let (w1, resp) = dispatch_request req w in (w1, some resp))

  unfoldable pub handle_line : Str → Writer → W → (W × Writer) × Option WriteError
  unfolding dispatch write_raw
  handle_line line out w = elim (k.request line) [
    | inl e ↦
        (let (out1, failed) = write_response k (error_response null code_invalid_params e) out in
          ((w, out1), failed))
    | inr req ↦
        (let (w1, answer) = dispatch req w in
          elim answer [
            | none ↦ ((w1, out), none)
            | some resp ↦ (let (out1, failed) = write_response k resp out in ((w1, out1), failed))
          ])
  ]

  -- The loop of `Serve` over the lines that Scan returns. `done n` says whether the context is
  -- cancelled when n of them have been returned.
  unfoldable pub serve_lines :
      (ℕ → Bool) → Bool → ℕ → List Str → Writer → W → (W × Writer) × ServeEnd
  unfolding handle_line
  serve_lines done stopped n [] out w =
      ((w, out), if stopped then too_long else if done n then cancelled else ended)
  serve_lines done stopped n (line ∷ lines) out w =
      let skipped = serve_lines done stopped (n + 1) lines out w in
      let ((w1, out1), failed) = handle_line line out w in
      let rest = serve_lines done stopped (n + 1) lines out1 w1 in
      if done (n + 1)
      then ((w, out), cancelled)
      else if not (nonempty (trim_space line))
      then skipped
      else elim failed [ none ↦ rest | some e ↦ ((w1, out1), write_failed e) ]

  -- `Serve`, on a reader that ends after `input`.
  abbrev pub serve : (ℕ → Bool) → Str → Writer → W → (W × Writer) × ServeEnd
  serve done input out w =
      let sc = scan max_line input in serve_lines done sc.too_long 0 sc.lines out w
