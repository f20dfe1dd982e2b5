-- ===== src/Json.antt =====
-- `serde_json::Value` and its maps, as the sources use them. The package is not part of the
-- repository, so its type and operations are the parameter `Json`; the laws are its documentation.
use attyd.Common.{String, ◌≡◌, ◌↔◌, Bool, true, Option, none, some, List, str_eq, if◌then◌else◌}

pub record Json : Type 1 where
  pub Value : Type 0
  pub Map : Type 0
  pub null : Value
  pub string : String → Value
  pub object : Map → Value
  pub boolean : Bool → Value
  pub empty_map : Map
  -- `value.get(key)`; `none` also where `value` is no object.
  pub get : Value → String → Option Value
  pub as_str : Value → Option String
  pub as_bool : Value → Option Bool
  pub as_object : Value → Option Map
  pub as_array : Value → Option (List Value)
  pub is_null : Value → Bool
  pub is_string : Value → Bool
  pub is_array : Value → Bool
  pub value_eq : Value → Value → Bool
  pub map_get : Map → String → Option Value
  pub map_insert : Map → String → Value → Map
  pub map_remove : Map → String → Map
  pub entries : Map → List (String × Value)
  pub as_object_of_object : (m : Map) → as_object (object m) ≡ some m
  pub as_str_of_string : (s : String) → as_str (string s) ≡ some s
  pub object_of_as_object : (v : Value) (m : Map) → as_object v ≡ some m → v ≡ object m
  pub string_of_as_str : (v : Value) (s : String) → as_str v ≡ some s → v ≡ string s
  pub as_str_of_null : as_str null ≡ none
  pub get_of_null : (k : String) → get null k ≡ none
  pub get_of_object : (m : Map) (k : String) → get (object m) k ≡ map_get m k
  pub value_eq_iff : (a b : Value) → (value_eq a b ≡ true) ↔ (a ≡ b)
  pub map_get-insert :
      (m : Map) (k j : String) (v : Value)
      → map_get (map_insert m k v) j ≡ (if str_eq k j then some v else map_get m j)
  pub map_get-remove :
      (m : Map) (k j : String)
      → map_get (map_remove m k) j ≡ (if str_eq k j then none else map_get m j)

module _ (J : Json) where
  open J use {Value, Map, get, as_str, as_object, object, map_get, map_insert}

  -- `value.get(key).and_then(Value::as_str)`.
  abbrev pub get_str : Value → String → Option String
  get_str v k = elim (get v k) [ none ↦ none | some x ↦ as_str x ]

  -- `value.get(key).and_then(Value::as_object)`.
  abbrev pub get_object : Value → String → Option Map
  get_object v k = elim (get v k) [ none ↦ none | some x ↦ as_object x ]

  -- `map.get(key).and_then(Value::as_str)`.
  abbrev pub map_str : Map → String → Option String
  map_str m k = elim (map_get m k) [ none ↦ none | some x ↦ as_str x ]

  -- `value[key] = x` on an object. The sources index only what they have found to be an object;
  -- on any other value but null the package panics, and null becomes an object.
  abbrev pub index_set : Value → String → Value → Value
  index_set v k x = elim (as_object v) [ none ↦ v | some m ↦ object (map_insert m k x) ]

  -- `value[key]`, which is null where there is no such field.
  abbrev pub index : Value → String → Value
  index v k = elim (get v k) [ none ↦ J.null | some x ↦ x ]
