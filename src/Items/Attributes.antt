-- ===== src/Items/Attributes.antt =====
-- `ItemAttribute` and `ItemAttributes` of src/itemattributes.h and itemattributes.cpp. A string is the
-- list of its bytes; an `int32_t` and a `float` are their 32 bits.
pub mod Order
pub mod Typed
pub mod Stream
use model_lib.Prelude.{
  ℕ, Bool, true, false, ◌&&◌, ltb, ◌==◌, if◌then◌else◌, Option, none, some, ◌>>=◌, List, [], ◌∷◌,
}

-- An attribute: the type and the value.
pub data ItemAttribute : Type 0 where
  untyped : ItemAttribute
  string : List ℕ → ItemAttribute
  integer float : ℕ → ItemAttribute
  boolean : Bool → ItemAttribute

-- `boost::any`, as far as attributes tell its types apart.
pub data Any : Type 0 where
  empty other : Any
  any_string : List ℕ → Any
  any_integer any_float : ℕ → Any
  any_boolean : Bool → Any

-- `ItemAttribute::set` of an any, and `get`.
unfoldable pub of_any : Any → ItemAttribute
of_any empty = untyped
of_any other = untyped
of_any (any_string s) = string s
of_any (any_integer i) = integer i
of_any (any_float f) = float f
of_any (any_boolean b) = boolean b

unfoldable pub to_any : ItemAttribute → Any
to_any untyped = empty
to_any (string s) = any_string s
to_any (integer i) = any_integer i
to_any (float f) = any_float f
to_any (boolean b) = any_boolean b

unfoldable pub get_string : ItemAttribute → Option (List ℕ)
get_string untyped = none
get_string (string s) = some s
get_string (integer i) = none
get_string (float f) = none
get_string (boolean b) = none

unfoldable pub get_integer : ItemAttribute → Option ℕ
get_integer untyped = none
get_integer (string s) = none
get_integer (integer i) = some i
get_integer (float f) = none
get_integer (boolean b) = none

unfoldable pub get_float : ItemAttribute → Option ℕ
get_float untyped = none
get_float (string s) = none
get_float (integer i) = none
get_float (float f) = some f
get_float (boolean b) = none

unfoldable pub get_boolean : ItemAttribute → Option Bool
get_boolean untyped = none
get_boolean (string s) = none
get_boolean (integer i) = none
get_boolean (float f) = none
get_boolean (boolean b) = some b

-- The order of the keys of a `std::map`: that of `std::string`.
unfoldable pub string_lt : List ℕ → List ℕ → Bool
string_lt [] [] = false
string_lt [] (y ∷ ys) = true
string_lt (x ∷ xs) [] = false
string_lt (x ∷ xs) (y ∷ ys) = if x == y then string_lt xs ys else ltb x y

unfoldable pub string_eq : List ℕ → List ℕ → Bool
string_eq [] [] = true
string_eq [] (y ∷ ys) = false
string_eq (x ∷ xs) [] = false
string_eq (x ∷ xs) (y ∷ ys) = x == y && string_eq xs ys

-- A `std::map` as the list of its entries, in the order of the keys.
abbrev pub AttributeMap : Type 0
AttributeMap = List (List ℕ × ItemAttribute)

unfoldable pub find : List ℕ → AttributeMap → Option ItemAttribute
find k [] = none
find k ((j, v) ∷ m) = if string_eq j k then some v else find k m

-- `map[k] = v`
unfoldable pub put : List ℕ → ItemAttribute → AttributeMap → AttributeMap
put k v [] = (k, v) ∷ []
put k v ((j, w) ∷ m) =
    let rest = put k v m in
    if string_lt j k
    then (j, w) ∷ rest
    else if string_lt k j
    then (k, v) ∷ (j, w) ∷ m
    else (k, v) ∷ m

unfoldable pub remove : List ℕ → AttributeMap → AttributeMap
remove k [] = []
remove k ((j, v) ∷ m) = if string_eq j k then m else (j, v) ∷ remove k m

-- The pointer `attributes`, which is NULL until an attribute is set.
abbrev pub Attributes : Type 0
Attributes = Option AttributeMap

unfoldable pub create_attributes : Attributes → AttributeMap
create_attributes none = []
create_attributes (some m) = m

unfoldable pub erase_attribute : List ℕ → Attributes → Attributes
erase_attribute k none = none
erase_attribute k (some m) = some (remove k m)

-- `setAttribute` of a string, a number, a float or a bool, as the attribute that it stores.
unfoldable pub set_attribute : List ℕ → ItemAttribute → Attributes → Attributes
set_attribute k v a = some (put k v (create_attributes a))

unfoldable pub find_attribute : List ℕ → Attributes → Option ItemAttribute
find_attribute k a = a >>= find k

-- `setAttribute` and `getAttribute` of an any.
unfoldable pub set_any : List ℕ → Any → Attributes → Attributes
unfolding set_attribute
set_any k v a = set_attribute k (of_any v) a

unfoldable pub get_any : List ℕ → Attributes → Any
unfolding find_attribute
get_any k a = elim (find_attribute k a) [ none ↦ empty | some v ↦ to_any v ]

unfoldable pub get_string_attribute : List ℕ → Attributes → Option (List ℕ)
unfolding find_attribute
get_string_attribute k a = find_attribute k a >>= get_string

unfoldable pub get_integer_attribute : List ℕ → Attributes → Option ℕ
unfolding find_attribute
get_integer_attribute k a = find_attribute k a >>= get_integer

unfoldable pub get_float_attribute : List ℕ → Attributes → Option ℕ
unfolding find_attribute
get_float_attribute k a = find_attribute k a >>= get_float

unfoldable pub get_boolean_attribute : List ℕ → Attributes → Option Bool
unfolding find_attribute
get_boolean_attribute k a = find_attribute k a >>= get_boolean
