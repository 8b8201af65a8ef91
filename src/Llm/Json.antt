-- ===== src/Llm/Json.antt =====
-- JSON values as `response.json()` gives them, and Python's `value[key]`, `value[0]` and truth.
use nexus_ai_platform.Prelude.{
  String, Bool, true, false, not, Option, none, some, str_eq, if◌then◌else◌,
}
use nexus_ai_platform.Errors.{
  Result, ok, raise, type_error, key_error, index_error, attribute_error,
}

-- Of a number the program can only test whether it is zero.
mutual
  pub data Json : Type 0 where
    null : Json
    bool : Bool → Json
    number : Bool → Json
    string : String → Json
    array : Items → Json
    object : Fields → Json

  pub data Items : Type 0 where
    nil : Items
    cons : Json → Items → Items

  pub data Fields : Type 0 where
    end : Fields
    field : String → Json → Fields → Fields

abbrev pub find_field : String → Fields → Result Json
find_field key end = raise (key_error key)
find_field key (field name value rest) =
    let later = find_field key rest in if str_eq name key then ok value else later

-- `value["key"]`
unfoldable pub at_key : String → Json → Result Json
at_key key (object fields) = find_field key fields
at_key key (array _) = raise (type_error "list indices must be integers or slices")
at_key key (string _) = raise (type_error "string indices must be integers")
at_key key null = raise (type_error "object is not subscriptable")
at_key key (bool _) = raise (type_error "object is not subscriptable")
at_key key (number _) = raise (type_error "object is not subscriptable")

abbrev pub first_item : Items → Result Json
first_item nil = raise (index_error "list index out of range")
first_item (cons value _) = ok value

abbrev pub first_char : String → Result Json
first_char String.[] = raise (index_error "string index out of range")
first_char (String.◌∷◌ c _) = ok (string (String.◌∷◌ c String.[]))

-- `value[0]`; the keys of an object are texts.
unfoldable pub at_zero : Json → Result Json
at_zero (array items) = first_item items
at_zero (string text) = first_char text
at_zero (object _) = raise (key_error "0")
at_zero null = raise (type_error "object is not subscriptable")
at_zero (bool _) = raise (type_error "object is not subscriptable")
at_zero (number _) = raise (type_error "object is not subscriptable")

abbrev pub no_items : Items → Bool
no_items nil = true
no_items (cons _ _) = false

abbrev pub no_fields : Fields → Bool
no_fields end = true
no_fields (field _ _ _) = false

-- `not value`
unfoldable pub is_falsy : Json → Bool
is_falsy null = true
is_falsy (bool b) = not b
is_falsy (number zero) = zero
is_falsy (string text) = str_eq text ""
is_falsy (array items) = no_items items
is_falsy (object fields) = no_fields fields

-- `not isinstance(value, list) or not value`
unfoldable pub is_no_list : Json → Bool
is_no_list (array items) = no_items items
is_no_list _ = true

abbrev pub lookup_field : String → Fields → Option Json
lookup_field key end = none
lookup_field key (field name value rest) =
    let later = lookup_field key rest in if str_eq name key then some value else later

-- `value.get("key")`, which only an object has.
unfoldable pub get_field : String → Json → Result (Option Json)
get_field key (object fields) = ok (lookup_field key fields)
get_field key (array _) = raise (attribute_error "'list' object has no attribute 'get'")
get_field key (string _) = raise (attribute_error "'str' object has no attribute 'get'")
get_field key null = raise (attribute_error "'NoneType' object has no attribute 'get'")
get_field key (bool _) = raise (attribute_error "'bool' object has no attribute 'get'")
get_field key (number _) = raise (attribute_error "the number has no attribute 'get'")
