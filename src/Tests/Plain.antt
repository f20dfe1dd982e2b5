-- ===== src/Tests/Plain.antt =====
-- A small `Json` and a small `Codec`, at which the theorems are applied.
use attyd.Common.{
  String, Bool, true, false, not, ◌&&◌, Option, none, some, List, [], ◌∷◌, map, ◌≡◌, ◌↔◌, refl,
  str_eq, str_eq_iff, if◌then◌else◌, arith,
}
use attyd.Json.{Json}
use attyd.Session.Types.{Codec}

mutual
  pub data Plain : Type 0 where
    null : Plain
    boolean : Bool → Plain
    text : String → Plain
    object : Fields → Plain

  pub data Fields : Type 0 where
    end : Fields
    field : String → Plain → Fields → Fields

abbrev pub find : Fields → String → Option Plain
find end k = none
find (field j v fs) k = if str_eq j k then some v else find fs k

abbrev drop : Fields → String → Fields
drop end k = end
drop (field j v fs) k = let rest = drop fs k in if str_eq j k then rest else field j v rest

pub find-drop :
    (m : Fields) (k j : String) → find (drop m k) j ≡ (if str_eq k j then none else find m j)
find-drop end k j = ground arith
find-drop (field i v m) k j =
    ground (arith, str_eq_iff k j, str_eq_iff i k, str_eq_iff i j, find-drop m k j)

abbrev bool_eq : Bool → Bool → Bool
bool_eq true b = b
bool_eq false b = not b

abbrev mutual
  plain_eq : Plain → Plain → Bool
  plain_eq null null = true
  plain_eq (boolean a) (boolean b) = bool_eq a b
  plain_eq (text a) (text b) = str_eq a b
  plain_eq (object a) (object b) = fields_eq a b
  plain_eq _ _ = false

  fields_eq : Fields → Fields → Bool
  fields_eq end end = true
  fields_eq (field j v a) (field k w b) = str_eq j k && plain_eq v w && fields_eq a b
  fields_eq _ _ = false

field_iff :
    (b c d : Bool) {j k : String} {v w : Plain} {m n : Fields}
    → (b ≡ true) ↔ (j ≡ k)
    → (c ≡ true) ↔ (v ≡ w)
    → (d ≡ true) ↔ (m ≡ n)
    → ((b && c && d) ≡ true) ↔ (field j v m ≡ field k w n)
field_iff b c d e f g = ground arith

mutual
  pub plain_eq_iff : (a b : Plain) → (plain_eq a b ≡ true) ↔ (a ≡ b)
  plain_eq_iff null null = ground arith
  plain_eq_iff null (boolean b) = ground arith
  plain_eq_iff null (text b) = ground arith
  plain_eq_iff null (object b) = ground arith
  plain_eq_iff (boolean a) null = ground arith
  plain_eq_iff (boolean a) (boolean b) = ground arith
  plain_eq_iff (boolean a) (text b) = ground arith
  plain_eq_iff (boolean a) (object b) = ground arith
  plain_eq_iff (text a) null = ground arith
  plain_eq_iff (text a) (boolean b) = ground arith
  plain_eq_iff (text a) (text b) = ground (arith, str_eq_iff a b)
  plain_eq_iff (text a) (object b) = ground arith
  plain_eq_iff (object a) null = ground arith
  plain_eq_iff (object a) (boolean b) = ground arith
  plain_eq_iff (object a) (text b) = ground arith
  plain_eq_iff (object a) (object b) = ground (arith, fields_eq_iff a b)

  fields_eq_iff : (a b : Fields) → (fields_eq a b ≡ true) ↔ (a ≡ b)
  fields_eq_iff end end = ground arith
  fields_eq_iff end (field k w b) = ground arith
  fields_eq_iff (field j v a) end = ground arith
  fields_eq_iff (field j v a) (field k w b) =
      field_iff (str_eq j k) (plain_eq v w) (fields_eq a b) (str_eq_iff j k) (plain_eq_iff v w)
        (fields_eq_iff a b)

abbrev get : Plain → String → Option Plain
get (object m) k = find m k
get _ k = none

abbrev as_str : Plain → Option String
as_str (text s) = some s
as_str _ = none

abbrev as_bool : Plain → Option Bool
as_bool (boolean b) = some b
as_bool _ = none

abbrev as_object : Plain → Option Fields
as_object (object m) = some m
as_object _ = none

abbrev is_null : Plain → Bool
is_null null = true
is_null _ = false

abbrev is_string : Plain → Bool
is_string (text s) = true
is_string _ = false

abbrev entries : Fields → List (String × Plain)
entries end = []
entries (field k v m) = (k, v) ∷ entries m

pub object_of_as_object : (v : Plain) (m : Fields) → as_object v ≡ some m → v ≡ object m
object_of_as_object null m h = cc
object_of_as_object (boolean b) m h = cc
object_of_as_object (text s) m h = cc
object_of_as_object (object n) m h = cc

pub string_of_as_str : (v : Plain) (s : String) → as_str v ≡ some s → v ≡ text s
string_of_as_str null s h = cc
string_of_as_str (boolean b) s h = cc
string_of_as_str (text t) s h = cc
string_of_as_str (object n) s h = cc

abbrev pub plain : Json
plain = record {
  Value = Plain;
  Map = Fields;
  null = null;
  string = text;
  object = object;
  boolean = boolean;
  empty_map = end;
  get = get;
  as_str = as_str;
  as_bool = as_bool;
  as_object = as_object;
  as_array = λ _. none;
  is_null = is_null;
  is_string = is_string;
  is_array = λ _. false;
  value_eq = plain_eq;
  map_get = find;
  map_insert = λ m k v. field k v m;
  map_remove = drop;
  entries = entries;
  as_object_of_object = λ m. refl;
  as_str_of_string = λ s. refl;
  object_of_as_object = object_of_as_object;
  string_of_as_str = string_of_as_str;
  as_str_of_null = refl;
  get_of_null = λ k. refl;
  get_of_object = λ m k. refl;
  value_eq_iff = plain_eq_iff;
  map_get-insert = λ m k j v. refl;
  map_get-remove = find-drop;
}

-- The digest of this codec is the number of the blocks.
abbrev pub codec : Codec plain
codec = record {
  sha256 = λ bytes. bytes;
  to_vec = λ blocks. map (λ _. 1) blocks;
  to_writer = λ _. some ((1 ∷ 2 ∷ []) ∷ (3 ∷ []) ∷ []);
}
