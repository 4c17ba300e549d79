-- ===== src/Mcp/Server/Answering.antt =====
-- Which messages the server answers, and with which errors.
use claude_bridge.Base.{◌≡◌, ◌↔◌, ◌⊎◌, inl, inr, ◌||◌, Bool, true, false, Option, none, some, arith}
use claude_bridge.Base.Int.{ℤ}
use claude_bridge.Text.{Str, ◌==◌, eq_iff}
use claude_bridge.Dict.{lookup}
use claude_bridge.Mcp.Json.{is_null}
use claude_bridge.Mcp.Codec.{McpRequest, ToolCallParams, Codec, DaemonClient}
use claude_bridge.Mcp.Response.{code_method_not_found, McpResponse, error_code}
use claude_bridge.Mcp.Server.{
  method_initialize, method_tools_list, method_tools_call, method_ping, method_permission_request,
  Server, dispatch_tool_call, dispatch_request, dispatch,
}

-- The code of an error response.
abbrev pub error_code_of : McpResponse → Option ℤ
error_code_of r = elim r.outcome [ inl e ↦ some (e.code) | inr v ↦ none ]

abbrev pub is_method : Str → Bool
is_method m =
    m == method_initialize || m == method_tools_list || m == method_tools_call || m == method_ping

module _ {W : Type 0} (k : Codec) (c : DaemonClient W) (s : Server W) where
  -- A prompt that the server relays.
  abbrev pub IsRelayed : McpRequest → Type 0
  IsRelayed req = (s.inert ≡ false) × (req.method ≡ method_permission_request)

  -- A request for what the server does not have: a method, or a tool.
  abbrev pub IsUnknown : McpRequest → Type 0
  IsUnknown req =
      (is_method req.method ≡ false)
      ⊎ ((req.method ≡ method_tools_call)
          × ((p : ToolCallParams) × (k.tool_call_params req.params ≡ inr p)
              × (lookup p.name s.tools ≡ none)))

  -- A message is left unanswered exactly when its id is null or it is a relayed permission prompt.
  pub dispatch_silent :
      (req : McpRequest) (w : W)
      → ((dispatch k c s req w).1 ≡ none) ↔ (IsRelayed req ⊎ (is_null req.id ≡ true))
  unfolding dispatch
  dispatch_silent req w = ground (arith, eq_iff req.method method_permission_request)

  dispatch_tool_call-code :
      (req : McpRequest) (w : W)
      → (error_code_of (dispatch_tool_call k c s req w).1 ≡ some code_method_not_found) ↔ (
          (p : ToolCallParams) × (k.tool_call_params req.params ≡ inr p)
          × (lookup p.name s.tools ≡ none))
  unfolding dispatch_tool_call error_code
  dispatch_tool_call-code req w = ground arith

  dispatch_request-code :
      (req : McpRequest) (w : W)
      → (error_code_of (dispatch_request k c s req w).1 ≡ some code_method_not_found)
        ↔ IsUnknown req
  unfolding dispatch_request
  dispatch_request-code req w = ground (
    arith,
    dispatch_tool_call-code req w,
    eq_iff req.method method_tools_call,
    eq_iff req.method method_initialize,
    eq_iff req.method method_tools_list,
    eq_iff req.method method_ping,
  )

  dispatch_tool_call-id :
      (req : McpRequest) (w : W) → (dispatch_tool_call k c s req w).1.id ≡ req.id
  unfolding dispatch_tool_call
  dispatch_tool_call-id req w = ground arith

  dispatch_request-id : (req : McpRequest) (w : W) → (dispatch_request k c s req w).1.id ≡ req.id
  unfolding dispatch_request
  dispatch_request-id req w = ground (arith, dispatch_tool_call-id req w)

  dispatch-some :
      (req : McpRequest) (w : W) (resp : McpResponse)
      → (dispatch k c s req w).1 ≡ some resp
      → resp ≡ (dispatch_request k c s req w).1
  unfolding dispatch
  dispatch-some req w resp h = ground arith

  -- An answer carries the request's id. Its error is "method not found" exactly when the request asks
  -- for a method or a tool that the server does not have.
  pub dispatch_answers :
      (req : McpRequest) (w : W) (resp : McpResponse)
      → (dispatch k c s req w).1 ≡ some resp
      → (resp.id ≡ req.id) × ((error_code_of resp ≡ some code_method_not_found) ↔ IsUnknown req)
  dispatch_answers req w resp h =
      rw (dispatch-some req w resp h) (dispatch_request-id req w, dispatch_request-code req w)
