-- ===== src/Mcp/Tools/Typing.antt =====
-- The shapes of the results that the tools show to Claude.
use mathlib.Core.Option.{some-injective}
use claude_bridge.Base.{
  ◌≡◌, subst, ◌⊎◌, inl, inr, Bool, true, false, some, List, [], ◌∷◌, map, All, Bool-cases,
  Sum-cases,
}
use claude_bridge.Text.{Str, text, nonempty, ◌==◌, eq→≡}
use claude_bridge.Dict.{Dict, lookup}
use claude_bridge.Broker.Message.{Message}
use claude_bridge.Mcp.Json.{Json, array_of, items, fields}
use claude_bridge.Mcp.Codec.{PeerView, Codec, DaemonClient, decode_args}
use claude_bridge.Mcp.Tools.{
  ToolError, ToolHandler, peer_view_json, peer_view, message_view, unless_empty, shown,
  zero_send_args, zero_respond_permission_args, check_verdict, handle_list_peers,
  handle_send_message, handle_broadcast, handle_poll_messages, handle_get_peer_info,
  handle_respond_permission, tool_registry,
}
use claude_bridge.Mcp.Tools.Shape.{
  Shape, list_of, Members, optional, HasShape, is_string, is_number, is_boolean, is_list, is_object,
  ItemsHave, nil, cons, FieldsHave, none_left, has, may, without, peer_shape, message_shape,
  sent_shape, count_shape, status_shape, shape_of,
}

peer_view_json-HasShape : (v : PeerView) → HasShape peer_shape (peer_view_json v)
peer_view_json-HasShape v = is_object (
    has (is_string v.session_id) (
      has (is_string v.project_name)
        (has (is_string v.project_path) (has (is_string v.last_seen) none_left))))

unless_empty-FieldsHave :
    (present : Bool) {k : Str} {s : Shape} {v : Json} {ms : Members} (kvs : List (Str × Json))
    → HasShape s v
    → FieldsHave ms (fields kvs)
    → FieldsHave (optional k s ms) (fields (unless_empty present (k, v) kvs))
unless_empty-FieldsHave true kvs t h = may t h
unless_empty-FieldsHave false kvs t h = without h

message_view-HasShape : (k : Codec) (m : Message) → HasShape message_shape (message_view k m)
message_view-HasShape k m = is_object (
    has (is_string m.id) (
      has (is_string m.from) (
        has (is_string m.content) (
          has (is_string (k.format_time m.created_at)) (
            unless_empty-FieldsHave (nonempty m.in_reply_to) _ (is_string m.in_reply_to) (
              unless_empty-FieldsHave m.expects_reply [] (is_boolean m.expects_reply)
                none_left))))))

-- A result, if there is one, has the shape.
abbrev Typed : Shape → ToolError ⊎ Json → Type 0
Typed s (inl e) = Unit
Typed s (inr v) = HasShape s v

module _ {A : Type 0} (f : A → Json) (s : Shape) (typed : (a : A) → HasShape s (f a)) where
  items-HasShape : (xs : List A) → ItemsHave s (items (map f xs))
  items-HasShape [] = nil
  items-HasShape (x ∷ xs) = cons (typed x) (items-HasShape xs)

  -- A result that is shown.
  shown-Typed : (decode : Str → Str ⊎ A) (raw : Str ⊎ Str) → Typed s (shown decode f raw)
  shown-Typed decode (inl e) = tt
  shown-Typed decode (inr r) = elim (Sum-cases (decode r)) [
    | inl (e, p) ↦ rw (p, shown) tt
    | inr (a, p) ↦ rw (p, shown) (typed a)
  ]

module _ {W : Type 0} (k : Codec) (c : DaemonClient W) (id args : Str) (w : W) where
  list_peers-Typed : Typed (list_of peer_shape) (handle_list_peers k c id args w).1
  unfolding handle_list_peers
  list_peers-Typed =
      shown-Typed (λ ps. array_of (map (λ p. peer_view_json (peer_view k p)) ps))
        (list_of peer_shape)
        (λ ps.
          is_list (items-HasShape _ peer_shape (λ p. peer_view_json-HasShape (peer_view k p)) ps))
        k.list_peers_result _

  poll_messages-Typed : Typed (list_of message_shape) (handle_poll_messages k c id args w).1
  unfolding handle_poll_messages
  poll_messages-Typed =
      shown-Typed (λ ms. array_of (map (message_view k) ms)) (list_of message_shape)
        (λ ms. is_list (items-HasShape _ message_shape (message_view-HasShape k) ms)) k.poll_result
        _

  send_message-Typed : Typed sent_shape (handle_send_message k c id args w).1
  unfolding handle_send_message
  send_message-Typed = elim (Sum-cases (decode_args k.send_args zero_send_args args)) [
    | inl (e, p) ↦ rw (p, handle_send_message) tt
    | inr (a, p) ↦
        rw (p, handle_send_message)
          (shown-Typed _ sent_shape (λ m. is_object (has (is_string m) none_left)) k.send_result _)
  ]

  broadcast-Typed : Typed count_shape (handle_broadcast k c id args w).1
  unfolding handle_broadcast
  broadcast-Typed = elim (Sum-cases (decode_args k.broadcast_args (record { content = [] }) args)) [
    | inl (e, p) ↦ rw (p, handle_broadcast) tt
    | inr (a, p) ↦
        rw (p, handle_broadcast)
          (shown-Typed _ count_shape (λ n. is_object (has (is_number n) none_left))
            k.broadcast_result _)
  ]

  get_peer_info-Typed : Typed peer_shape (handle_get_peer_info k c id args w).1
  unfolding handle_get_peer_info
  get_peer_info-Typed =
      elim (Sum-cases (decode_args k.get_peer_info_args (record { session_id = [] }) args)) [
        | inl (e, p) ↦ rw (p, handle_get_peer_info) tt
        | inr (a, p) ↦
            rw (p, handle_get_peer_info)
              (shown-Typed _ peer_shape peer_view_json-HasShape k.get_peer_info_result _)
      ]

  respond_permission-Typed : Typed status_shape (handle_respond_permission k c id args w).1
  unfolding handle_respond_permission
  respond_permission-Typed =
      elim (Sum-cases (decode_args k.respond_permission_args zero_respond_permission_args args)) [
        | inl (e, p) ↦ rw (p, handle_respond_permission) tt
        | inr (a, p) ↦ elim (Sum-cases (check_verdict a)) [
          | inl (e, q) ↦ rw (p, handle_respond_permission) (rw q tt)
          | inr (v, q) ↦
              rw (p, handle_respond_permission)
                (rw q (
                  shown-Typed _ status_shape
                    (λ s. is_object (has (is_string (text "sent")) none_left)) (λ s. inr s) _))
        ]
      ]

-- What holds of every entry of a map holds of what a look-up finds.
lookup-All :
    {V : Type 0} (P : Str → V → Type 0) (m : Dict V) (key : Str) (v : V)
    → All (λ e. P e.0 e.1) m
    → lookup key m ≡ some v
    → P key v
unfolding lookup
lookup-All P [] key v h e = cc
lookup-All P ((j, x) ∷ m) key v h e = elim (Bool-cases (j == key)) [
  | inl same ↦
      subst (λ i. P i v) (eq→≡ j key same) (subst (P j) (some-injective x v (rw same at e)) h.0)
  | inr other ↦ lookup-All P m key v h.1 (rw other at e)
]

-- Every tool that can be called answers, if it does not fail, with a value of the tool's shape:
-- whatever its arguments are and the daemon says, a list is a list even where it is empty, no member
-- that is promised is missing or null, and each has its type.
pub handler-HasShape :
    {W : Type 0} (k : Codec) (c : DaemonClient W) (name : Str) (h : ToolHandler W) (id args : Str)
    (w : W) {v : Json}
    → lookup name (tool_registry k c) ≡ some h
    → (h id args w).1 ≡ inr v
    → HasShape (shape_of name) v
unfolding tool_registry shape_of ◌==◌
handler-HasShape {W} k c name h id args w {v} found e = subst (Typed (shape_of name)) e (
    lookup-All (λ n (g : ToolHandler W). Typed (shape_of n) (g id args w).1) (tool_registry k c)
      name h
      (
        list_peers-Typed k c id args w,
        (
          send_message-Typed k c id args w,
          (
            broadcast-Typed k c id args w,
            (
              poll_messages-Typed k c id args w,
              (get_peer_info-Typed k c id args w, (respond_permission-Typed k c id args w, tt)),
            ),
          ),
        ),
      )
      found)
