-- ===== src/Mcp/Server/Serving.antt =====
-- A whole run of the server: who it calls the daemon as, and what an inert server does to it.
use claude_bridge.Base.{
  ℕ, subst, ◌+◌, ◌≡◌, refl, sym, ◌⊎◌, inl, inr, not, Bool, false, List, [], ◌∷◌, arith, Bool-cases,
  Option-cases, Sum-cases,
}
use claude_bridge.Text.{Str, nonempty}
use claude_bridge.Text.Trim.{trim_space}
use claude_bridge.Dict.{lookup}
use claude_bridge.Dict.Each.{Each}
use claude_bridge.Rpc.Frame.{Writer}
use claude_bridge.Mcp.Json.{Json}
use claude_bridge.Mcp.Codec.{McpRequest, Codec, DaemonClient}
use claude_bridge.Mcp.Tools.{ToolError, ToolHandler}
use claude_bridge.Mcp.Server.{
  Server, tool_response, dispatch_tool_call, dispatch_request, dispatch, handle_line, serve_lines,
}
use claude_bridge.Mcp.Server.Relay.{handle_permission_request}

module _ {W : Type 0} (k : Codec) (c : DaemonClient W) (s : Server W) (P : W → Type 0)
    (tools_keep : Each
      (λ (h : ToolHandler W). (args : Str) (w : W) → P w → P (h s.session_id args w).0)
      s.tools)
    (relay_keeps : s.inert ≡ false
      → (params : Str) (w : W) → P w
      → P (handle_permission_request k c s.session_id params w)) where
  tool_response-world :
      (id : Json) (o : W × (ToolError ⊎ Json)) → (tool_response k c s id o).0 ≡ o.0
  tool_response-world id (w, inl e) = refl
  tool_response-world id (w, inr v) = refl

  dispatch_tool_call-keeps : (req : McpRequest) (w : W) → P w → P (dispatch_tool_call k c s req w).0
  unfolding dispatch_tool_call
  dispatch_tool_call-keeps req w h = elim (Sum-cases (k.tool_call_params req.params)) [
    | inl (e, bad) ↦ rw (bad, dispatch_tool_call) h
    | inr (p, good) ↦ elim (Option-cases (lookup p.name s.tools)) [
      | inl unknown ↦ rw (good, dispatch_tool_call) (rw unknown h)
      | inr (handler, known) ↦
          rw (good, dispatch_tool_call)
            (rw known (
              subst P (sym (tool_response-world req.id (handler s.session_id p.arguments w)))
                (tools_keep p.name handler known p.arguments w h)))
    ]
  ]

  dispatch_request-keeps : (req : McpRequest) (w : W) → P w → P (dispatch_request k c s req w).0
  unfolding dispatch_request
  dispatch_request-keeps req w h = ground (arith, dispatch_tool_call-keeps req w h)

  dispatch-keeps : (req : McpRequest) (w : W) → P w → P (dispatch k c s req w).0
  unfolding dispatch
  dispatch-keeps req w h = elim (Bool-cases s.inert) [
    | inl inert ↦ rw (inert, dispatch) (ground (arith, h, dispatch_request-keeps req w h))
    | inr active ↦
        rw (active, dispatch)
          (ground (arith, h, relay_keeps active req.params w h, dispatch_request-keeps req w h))
  ]

  handle_line-keeps :
      (line : Str) (out : Writer) (w : W) → P w → P (handle_line k c s line out w).0.0
  unfolding handle_line
  handle_line-keeps line out w h = elim (Sum-cases (k.request line)) [
    | inl (e, bad) ↦ rw (bad, handle_line) h
    | inr (req, good) ↦ elim (Option-cases (dispatch k c s req w).1) [
      | inl silent ↦ rw (good, handle_line) (rw silent (dispatch-keeps req w h))
      | inr (resp, answered) ↦ rw (good, handle_line) (rw answered (dispatch-keeps req w h))
    ]
  ]

  pub serve_lines-keeps :
      (done : ℕ → Bool) (stopped : Bool) (n : ℕ) (lines : List Str) (out : Writer) (w : W)
      → P w
      → P (serve_lines k c s done stopped n lines out w).0.0
  unfolding serve_lines
  serve_lines-keeps done stopped n [] out w h = h
  serve_lines-keeps done stopped n (line ∷ lines) out w h = elim (Bool-cases (done (n + 1))) [
    | inl over ↦ rw over h
    | inr going ↦ elim (Bool-cases (not (nonempty (trim_space line)))) [
      | inl blank ↦ rw (going, blank) (serve_lines-keeps done stopped (n + 1) lines out w h)
      | inr full ↦ elim (Option-cases (handle_line k c s line out w).1) [
        | inl wrote ↦
            rw (going, full, wrote)
              (serve_lines-keeps done stopped (n + 1) lines _ _ (handle_line-keeps line out w h))
        | inr (e, failed) ↦ rw (going, full, failed) (handle_line-keeps line out w h)
      ]
    ]
  ]
