-- ===== src/Mcp/Server/Keeping.antt =====
-- What the server's calls leave in the daemon.
use claude_bridge.Base.{inl, inr, List, [], ◌∷◌, Bool-cases, Sum-cases}
use claude_bridge.Text.{Str, nonempty}
use claude_bridge.Rpc.Request.{
  method_list_peers, method_send, method_broadcast, method_poll, method_get_peer_info,
}
use claude_bridge.Rpc.Client.{CallParams, empty}
use claude_bridge.Dict.Each.{Each, Each-nil, Each-cons}
use claude_bridge.Mcp.Schema.{
  tool_list_peers, tool_send_message, tool_broadcast, tool_poll_messages, tool_get_peer_info,
  tool_respond_permission,
}
use claude_bridge.Mcp.Codec.{PermissionRequestParams, Codec, DaemonClient, decode_args}
use claude_bridge.Mcp.Tools.{
  zero_send_args, zero_respond_permission_args, ToolHandler, handle_list_peers, handle_send_message,
  handle_broadcast, handle_poll_messages, handle_get_peer_info, check_verdict,
  handle_respond_permission, tool_registry,
}
use claude_bridge.Mcp.Server.Relay.{list_peer_ids, relay_to, handle_permission_request}

-- The methods of the daemon that a tool or a relayed prompt may call.
pub data IsToolMethod : Str → Type 0 where
  lists_peers : IsToolMethod method_list_peers
  sends : IsToolMethod method_send
  broadcasts : IsToolMethod method_broadcast
  polls : IsToolMethod method_poll
  looks_up : IsToolMethod method_get_peer_info

module _ {W : Type 0} (k : Codec) (c : DaemonClient W) (session_id : Str) (P : W → Type 0)
    (keep : (m : Str) (p : CallParams) (w : W)
      → IsToolMethod m
      → P w
      → P (c.call_as session_id m p w).0) where
  abbrev pub Keeps : ToolHandler W → Type 0
  Keeps handler = (args : Str) (w : W) → P w → P (handler session_id args w).0

  handle_list_peers-Keeps : Keeps (handle_list_peers k c)
  unfolding handle_list_peers
  handle_list_peers-Keeps args w h = keep _ _ w lists_peers h

  handle_send_message-Keeps : Keeps (handle_send_message k c)
  unfolding handle_send_message
  handle_send_message-Keeps args w h =
      elim (Sum-cases (decode_args k.send_args zero_send_args args)) [
        | inl (e, bad) ↦ rw (bad, handle_send_message) h
        | inr (a, good) ↦ rw (good, handle_send_message) (keep method_send _ w sends h)
      ]

  handle_broadcast-Keeps : Keeps (handle_broadcast k c)
  unfolding handle_broadcast
  handle_broadcast-Keeps args w h =
      elim (Sum-cases (decode_args k.broadcast_args (record { content = [] }) args)) [
        | inl (e, bad) ↦ rw (bad, handle_broadcast) h
        | inr (a, good) ↦ rw (good, handle_broadcast) (keep method_broadcast _ w broadcasts h)
      ]

  handle_poll_messages-Keeps : Keeps (handle_poll_messages k c)
  unfolding handle_poll_messages
  handle_poll_messages-Keeps args w h = keep _ _ w polls h

  handle_get_peer_info-Keeps : Keeps (handle_get_peer_info k c)
  unfolding handle_get_peer_info
  handle_get_peer_info-Keeps args w h =
      elim (Sum-cases (decode_args k.get_peer_info_args (record { session_id = [] }) args)) [
        | inl (e, bad) ↦ rw (bad, handle_get_peer_info) h
        | inr (a, good) ↦ rw (good, handle_get_peer_info) (keep method_get_peer_info _ w looks_up h)
      ]

  handle_respond_permission-Keeps : Keeps (handle_respond_permission k c)
  unfolding handle_respond_permission
  handle_respond_permission-Keeps args w h =
      elim (Sum-cases (decode_args k.respond_permission_args zero_respond_permission_args args)) [
        | inl (e, bad) ↦ rw (bad, handle_respond_permission) h
        | inr (a, good) ↦ elim (Sum-cases (check_verdict a)) [
          | inl (e, bad) ↦ rw (good, handle_respond_permission) (rw bad h)
          | inr (p, verdict) ↦
              rw (good, handle_respond_permission) (rw verdict (keep method_send _ w sends h))
        ]
      ]

  pub tool_registry-Keeps : Each Keeps (tool_registry k c)
  unfolding tool_registry
  tool_registry-Keeps = Each-cons Keeps tool_list_peers _ _ handle_list_peers-Keeps (
      Each-cons Keeps tool_send_message _ _ handle_send_message-Keeps (
        Each-cons Keeps tool_broadcast _ _ handle_broadcast-Keeps (
          Each-cons Keeps tool_poll_messages _ _ handle_poll_messages-Keeps (
            Each-cons Keeps tool_get_peer_info _ _ handle_get_peer_info-Keeps (
              Each-cons Keeps tool_respond_permission _ _ handle_respond_permission-Keeps
                (Each-nil Keeps))))))

  list_peer_ids-keeps : (w : W) → P w → P (list_peer_ids k c session_id w).0
  unfolding list_peer_ids
  list_peer_ids-keeps w h = elim (Sum-cases (c.call_as session_id method_list_peers empty w).1) [
    | inl (e, bad) ↦ rw (bad, list_peer_ids) (keep _ _ w lists_peers h)
    | inr (raw, good) ↦ elim (Sum-cases (k.list_peers_result raw)) [
      | inl (e, bad) ↦ rw (good, list_peer_ids) (rw bad (keep _ _ w lists_peers h))
      | inr (ps, decoded) ↦ rw (good, list_peer_ids) (rw decoded (keep _ _ w lists_peers h))
    ]
  ]

  relay_to-keeps :
      (p : PermissionRequestParams) (ids : List Str) (w : W)
      → P w
      → P (relay_to k c session_id p ids w)
  unfolding relay_to
  relay_to-keeps p [] w h = h
  relay_to-keeps p (id ∷ ids) w h = relay_to-keeps p ids _ (keep _ _ w sends h)

  pub handle_permission_request-keeps :
      (params : Str) (w : W) → P w → P (handle_permission_request k c session_id params w)
  unfolding handle_permission_request
  handle_permission_request-keeps params w h =
      elim (Sum-cases (k.permission_request_params params)) [
        | inl (e, bad) ↦ rw (bad, handle_permission_request) h
        | inr (p, good) ↦ elim (Bool-cases (nonempty p.request_id)) [
          | inr blank ↦ rw (good, handle_permission_request) (rw blank h)
          | inl named ↦ elim (Sum-cases (list_peer_ids k c session_id w).1) [
            | inl (e, bad) ↦
                rw (good, handle_permission_request) (rw (named, bad) (list_peer_ids-keeps w h))
            | inr (ids, listed) ↦
                rw (good, handle_permission_request)
                  (rw (named, listed) (relay_to-keeps p ids _ (list_peer_ids-keeps w h)))
          ]
        ]
      ]
