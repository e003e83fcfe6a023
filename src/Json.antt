-- ===== src/Json.antt =====
-- The values that JSON.parse gives, and how the scripts of frontend/kindle read them.
use zen_pm.Prelude.{Bool, true, false, Text, ◌===◌, if◌then◌else◌, truthy}

mutual
  -- A value that JSON.parse gives; of a number only whether it is 0 is kept.
  pub data Json : Type 0 where
    null : Json
    bool : Bool → Json
    number : (is_zero : Bool) → Json
    string : Text → Json
    array : Items → Json
    object : Fields → Json

  pub data Items : Type 0 where
    no_items : Items
    item : Json → Items → Items

  pub data Fields : Type 0 where
    no_fields : Fields
    field : Text → Json → Fields → Fields

-- The truth value of a parsed value
unfoldable pub is_truthy : Json → Bool
is_truthy null = false
is_truthy (bool b) = b
is_truthy (number true) = false
is_truthy (number false) = true
is_truthy (string s) = truthy s
is_truthy (array _) = true
is_truthy (object _) = true

-- The last field of a name, as JSON.parse keeps it; null stands for undefined.
unfoldable pub lookup : Text → Fields → Json → Json
lookup name no_fields found = found
lookup name (field k v fields) found = lookup name fields (if k === name then v else found)

-- `json[name]` of a value that is truthy
unfoldable pub get_field : Text → Json → Json
unfolding lookup
get_field name (object fields) = lookup name fields null
get_field name _ = null
