-- ===== src/Mcp/Server/Relaying.antt =====
-- The calls by which a permission prompt is relayed.
use mathlib.Core.List.{append-nil, append_assoc}
use claude_bridge.Base.{◌≡◌, ◌⊎◌, refl, sym, ap, ◌∙◌, inr, true, false, List, [], ◌∷◌, ◌++◌, map}
use claude_bridge.Text.{Str, text, nonempty}
use claude_bridge.Broker.Session.{Session}
use claude_bridge.Rpc.Request.{method_list_peers, method_send}
use claude_bridge.Rpc.Client.{empty, send}
use claude_bridge.Mcp.Codec.{PermissionRequestParams, Codec}
use claude_bridge.Mcp.Server.Relay.{
  spaced_dash, input_label, permission_prompt, relayed, session_ids, list_peer_ids, relay_to,
  handle_permission_request,
}
use claude_bridge.Mcp.Server.Calls.{Call, recording}

abbrev pub listing : Str → Call
listing session_id = record { session_id = session_id; method = method_list_peers; given = empty }

-- A part of the text, which is left out where there is nothing to say.
abbrev pub labelled : Str → Str → Str
labelled label [] = []
labelled label (x ∷ xs) = label ++ x ∷ xs

-- The text that asks a peer for a verdict.
abbrev pub asking : PermissionRequestParams → Str
asking p =
    text "A peer Claude session is asking you to approve a tool call: "
    ++ p.tool_name
    ++ labelled spaced_dash p.description
    ++ labelled input_label p.input_preview

abbrev pub prompt : Str → PermissionRequestParams → Str → Call
prompt session_id p to = record {
  session_id = session_id;
  method = text "send_message";
  given = send (record {
    to = to;
    content = asking p;
    in_reply_to = [];
    expects_reply = false;
    kind = text "permission_request";
    request_id = p.request_id;
  });
}

permission_prompt-asking : (p : PermissionRequestParams) → permission_prompt p ≡ asking p
unfolding permission_prompt
permission_prompt-asking p = parts p.description p.input_preview
  where
    head : Str
    head = text "A peer Claude session is asking you to approve a tool call: " ++ p.tool_name

    parts :
        (d i : Str)
        → permission_prompt (record p { description = d; input_preview = i })
          ≡ asking (record p { description = d; input_preview = i })
    parts [] [] = sym (append-nil head) ∙ sym (append-nil (head ++ []))
    parts [] (y ∷ i) =
        append_assoc head input_label (y ∷ i)
        ∙ ap (λ z. z ++ (input_label ++ y ∷ i)) (sym (append-nil head))
    parts (x ∷ d) [] =
        append_assoc head spaced_dash (x ∷ d) ∙ sym (append-nil (head ++ (spaced_dash ++ x ∷ d)))
    parts (x ∷ d) (y ∷ i) =
        append_assoc (head ++ spaced_dash ++ x ∷ d) input_label (y ∷ i)
        ∙ ap (λ z. z ++ (input_label ++ y ∷ i)) (append_assoc head spaced_dash (x ∷ d))

module _ (k : Codec) (answer : List Call → Call → Str ⊎ Str) (session_id : Str) where
  sent-prompt :
      (p : PermissionRequestParams) (to : Str)
      → record { session_id = session_id; method = method_send; given = send (relayed p to) }
        ≡ prompt session_id p to
  sent-prompt p to =
      ap
        (λ (text_ : Str). record (prompt session_id p to) {
          given = send (record (relayed p to) { content = text_ });
        })
        (permission_prompt-asking p)

  relay_to-calls :
      (p : PermissionRequestParams) (ids : List Str) (log : List Call)
      → relay_to k (recording answer) session_id p ids log ≡ log ++ map (prompt session_id p) ids
  unfolding relay_to
  relay_to-calls p [] log = sym (append-nil log)
  relay_to-calls p (id ∷ ids) log =
      ap (λ (x : Call). relay_to k (recording answer) session_id p ids (log ++ x ∷ []))
        (sent-prompt p id)
      ∙ relay_to-calls p ids (log ++ prompt session_id p id ∷ [])
      ∙ append_assoc log (prompt session_id p id ∷ []) (map (prompt session_id p) ids)

  list_peer_ids-calls :
      (log : List Call) (raw : Str) (ps : List Session)
      → answer log (listing session_id) ≡ inr raw
      → k.list_peers_result raw ≡ inr ps
      → list_peer_ids k (recording answer) session_id log
        ≡ (log ++ listing session_id ∷ [], inr (session_ids ps))
  unfolding list_peer_ids
  list_peer_ids-calls log raw ps got decoded = rw (got, list_peer_ids) (rw decoded refl)

  -- A prompt that has a request identifier is relayed by one call for the list of peers and then one
  -- message to each peer of the list, in its order, whether the messages are accepted or not. Each
  -- message carries the request's identifier and names the tool, with its description and the preview
  -- of its input where they are given. The condition is that the list of
  -- peers can be fetched.
  pub handle_permission_request-calls :
      (params : Str) (log : List Call) (p : PermissionRequestParams) (raw : Str) (ps : List Session)
      → k.permission_request_params params ≡ inr p
      → nonempty p.request_id ≡ true
      → answer log (listing session_id) ≡ inr raw
      → k.list_peers_result raw ≡ inr ps
      → handle_permission_request k (recording answer) session_id params log
        ≡ log ++ listing session_id ∷ map (prompt session_id p) (session_ids ps)
  unfolding handle_permission_request
  handle_permission_request-calls params log p raw ps parsed named got decoded =
      let listed = list_peer_ids-calls log raw ps got decoded in
      rw (parsed, named, ap (λ q. q.1) listed, handle_permission_request)
        (ap (λ q. relay_to k (recording answer) session_id p (session_ids ps) q.0) listed
          ∙ relay_to-calls p (session_ids ps) (log ++ listing session_id ∷ [])
          ∙ append_assoc log (listing session_id ∷ []) (map (prompt session_id p) (session_ids ps)))
