-- ===== src/Mcp/Server/Relay.antt =====
-- How internal/mcp/server.go relays a permission prompt to the peers.
use claude_bridge.Base.{◌⊎◌, inl, inr, false, List, [], ◌∷◌, ◌++◌, map, if◌then◌else◌}
use claude_bridge.Text.{Str, text, nonempty}
use claude_bridge.Broker.Message.{kind_permission_request}
use claude_bridge.Broker.Session.{Session}
use claude_bridge.Rpc.Request.{SendParams, method_list_peers, method_send}
use claude_bridge.Rpc.Client.{empty, send}
use claude_bridge.Mcp.Codec.{PermissionRequestParams, Codec, DaemonClient}

-- " — " in UTF-8, and "\ninput: ".
abbrev pub spaced_dash : Str
spaced_dash = 32 ∷ 226 ∷ 128 ∷ 148 ∷ 32 ∷ []

abbrev pub input_label : Str
input_label = 10 ∷ text "input: "

unfoldable pub permission_prompt : PermissionRequestParams → Str
permission_prompt p =
    let prompt =
      text "A peer Claude session is asking you to approve a tool call: " ++ p.tool_name in
    let described =
      if nonempty p.description then prompt ++ spaced_dash ++ p.description else prompt in
    if nonempty p.input_preview then described ++ input_label ++ p.input_preview else described

abbrev pub session_ids : List Session → List Str
session_ids ps = map (λ p. p.id) ps

abbrev pub relayed : PermissionRequestParams → Str → SendParams
relayed p to = record {
  to = to;
  content = permission_prompt p;
  in_reply_to = [];
  expects_reply = false;
  kind = kind_permission_request;
  request_id = p.request_id;
}

module _ {W : Type 0} (k : Codec) (c : DaemonClient W) (session_id : Str) where
  unfoldable pub list_peer_ids : W → W × (Str ⊎ List Str)
  list_peer_ids w =
      let (w1, answer) = c.call_as session_id method_list_peers empty w in
      elim answer [
        | inl e ↦ (w1, inl e)
        | inr raw ↦ elim (k.list_peers_result raw) [
          | inl e ↦ (w1, inl e)
          | inr ps ↦ (w1, inr (session_ids ps))
        ]
      ]

  -- The loop over the peers; the results are ignored.
  unfoldable pub relay_to : PermissionRequestParams → List Str → W → W
  unfolding permission_prompt
  relay_to p [] w = w
  relay_to p (id ∷ ids) w =
      relay_to p ids (c.call_as session_id method_send (send (relayed p id)) w).0

  unfoldable pub handle_permission_request : Str → W → W
  unfolding list_peer_ids relay_to
  handle_permission_request params w = elim (k.permission_request_params params) [
    | inl e ↦ w
    | inr p ↦
        if nonempty p.request_id
        then (let (w1, peers) = list_peer_ids w in
            elim peers [ inl e ↦ w1 | inr ids ↦ relay_to p ids w1 ])
        else w
  ]
