-- ===== src/Mcp/Tools/Shape.antt =====
-- The shapes of JSON values, and which one the result of each tool has.
use claude_bridge.Base.{Bool, if◌then◌else◌}
use claude_bridge.Base.Int.{ℤ}
use claude_bridge.Text.{Str, text, ◌==◌}
use claude_bridge.Mcp.Json.{
  Json, Items, Fields, boolean, number, string, array, object, no_items, item, no_fields, field,
}
use claude_bridge.Mcp.Schema.{
  tool_list_peers, tool_send_message, tool_broadcast, tool_poll_messages, tool_get_peer_info,
}

-- What a client of the tools may rely on: an object has these members in this order, of which some may
-- be left out.
mutual
  pub data Shape : Type 0 where
    a_string a_number a_boolean : Shape
    list_of : Shape → Shape
    object_with : Members → Shape

  pub data Members : Type 0 where
    no_more : Members
    required : Str → Shape → Members → Members
    optional : Str → Shape → Members → Members

mutual
  pub data HasShape : Shape → Json → Type 0 where
    is_string : (s : Str) → HasShape a_string (string s)
    is_number : (n : ℤ) → HasShape a_number (number n)
    is_boolean : (b : Bool) → HasShape a_boolean (boolean b)
    is_list : {s : Shape} {xs : Items} → ItemsHave s xs → HasShape (list_of s) (array xs)
    is_object :
        {ms : Members} {fs : Fields} → FieldsHave ms fs → HasShape (object_with ms) (object fs)

  pub data ItemsHave : Shape → Items → Type 0 where
    nil : {s : Shape} → ItemsHave s no_items
    cons :
        {s : Shape} {v : Json} {xs : Items}
        → HasShape s v
        → ItemsHave s xs
        → ItemsHave s (item v xs)

  pub data FieldsHave : Members → Fields → Type 0 where
    none_left : FieldsHave no_more no_fields
    has :
        {k : Str} {s : Shape} {v : Json} {ms : Members} {fs : Fields}
        → HasShape s v
        → FieldsHave ms fs
        → FieldsHave (required k s ms) (field k v fs)
    may :
        {k : Str} {s : Shape} {v : Json} {ms : Members} {fs : Fields}
        → HasShape s v
        → FieldsHave ms fs
        → FieldsHave (optional k s ms) (field k v fs)
    without :
        {k : Str} {s : Shape} {ms : Members} {fs : Fields}
        → FieldsHave ms fs
        → FieldsHave (optional k s ms) fs

abbrev pub peer_shape : Shape
peer_shape = object_with (
    required (text "session_id") a_string (
      required (text "project_name") a_string
        (required (text "project_path") a_string (required (text "last_seen") a_string no_more))))

abbrev pub message_shape : Shape
message_shape = object_with (
    required (text "id") a_string (
      required (text "from") a_string (
        required (text "content") a_string (
          required (text "created_at") a_string (
            optional (text "in_reply_to") a_string
              (optional (text "expects_reply") a_boolean no_more))))))

abbrev pub sent_shape : Shape
sent_shape = object_with (required (text "message_id") a_string no_more)

abbrev pub count_shape : Shape
count_shape = object_with (required (text "sent_to") a_number no_more)

abbrev pub status_shape : Shape
status_shape = object_with (required (text "status") a_string no_more)

-- The shape of the result of a tool.
unfoldable pub shape_of : Str → Shape
shape_of name =
    if name == tool_list_peers
    then list_of peer_shape
    else if name == tool_send_message
    then sent_shape
    else if name == tool_broadcast
    then count_shape
    else if name == tool_poll_messages
    then list_of message_shape
    else if name == tool_get_peer_info
    then peer_shape
    else status_shape
