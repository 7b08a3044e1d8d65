-- ===== src/Supervisor/Json.antt =====
-- The values that `json.loads` makes.
use vanpilot.Prelude.{
  String, Bool, true, false, not, Option, none, some, ◌==◌, string_eq, if◌then◌else◌,
}
use vanpilot.Prelude.Text.{is_blank}

mutual
  pub data Json : Type 0 where
    null : Json
    boolean : Bool → Json
    number : (is_zero : Bool) → Json
    text : String → Json
    array : Items → Json
    object : Fields → Json

  pub data Items : Type 0 where
    no_items : Items
    item : Json → Items → Items

  pub data Fields : Type 0 where
    no_fields : Fields
    field : String → Json → Fields → Fields

-- `d.get(key)` on a dict, of which no two fields have one key
unfoldable pub get_field : String → Fields → Option Json
get_field key no_fields = none
get_field key (field k v rest) = if key == k then some v else get_field key rest

abbrev no_more_items : Items → Bool
no_more_items no_items = true
no_more_items (item j rest) = false

abbrev no_more_fields : Fields → Bool
no_more_fields no_fields = true
no_more_fields (field k v rest) = false

-- `if value:`
unfoldable pub is_truthy : Json → Bool
is_truthy null = false
is_truthy (boolean b) = b
is_truthy (number is_zero) = not is_zero
is_truthy (text s) = not (is_blank s)
is_truthy (array items) = not (no_more_items items)
is_truthy (object fields) = not (no_more_fields fields)

-- `value == s`, for a `str`
abbrev pub is_text : String → Option Json → Bool
is_text s (some (text t)) = t == s
is_text s _ = false
