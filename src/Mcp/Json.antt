-- ===== src/Mcp/Json.antt =====
-- JSON values, as far as the server builds them out of Go's maps, slices and strings.
use claude_bridge.Base.{Bool, true, false, List, [], ◌∷◌}
use claude_bridge.Base.Int.{ℤ}
use claude_bridge.Text.{Str}

mutual
  pub data Json : Type 0 where
    null : Json
    boolean : Bool → Json
    number : ℤ → Json
    string : Str → Json
    array : Items → Json
    object : Fields → Json

  pub data Items : Type 0 where
    no_items : Items
    item : Json → Items → Items

  pub data Fields : Type 0 where
    no_fields : Fields
    field : Str → Json → Fields → Fields

-- `v == nil` on a value of type `any` that was decoded.
abbrev pub is_null : Json → Bool
is_null null = true
is_null _ = false

abbrev pub items : List Json → Items
items [] = no_items
items (v ∷ vs) = item v (items vs)

abbrev pub fields : List (Str × Json) → Fields
fields [] = no_fields
fields ((k, v) ∷ kvs) = field k v (fields kvs)

-- The keys of a map literal are listed in the order in which the source writes them.
abbrev pub object_of : List (Str × Json) → Json
object_of kvs = object (fields kvs)

abbrev pub array_of : List Json → Json
array_of vs = array (items vs)
