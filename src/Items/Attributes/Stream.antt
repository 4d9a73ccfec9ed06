-- ===== src/Items/Attributes/Stream.antt =====
-- How item attributes are written and read: `serializeMap` and `unserializeMap` of
-- src/itemattributes.cpp.
pub mod Written
pub mod RoundTrip
pub mod Loading
use model_lib.Prelude.{
  ℕ, zero, suc, ◌+◌, Bool, true, false, not, ltb, leb, ◌==◌, if◌then◌else◌, Option, none, some,
  ◌>>=◌, List, [], ◌∷◌, length, take,
}
use model_lib.Files.Stream.{
  Read, overrun, refused, value, read_then, get_type, get_string, get_long_string, PropWriteStream,
  add_type, add_string, add_long_string,
}
use model_lib.Items.Attributes.{
  ItemAttribute, untyped, string, integer, float, boolean, AttributeMap, Attributes, put,
  create_attributes,
}

-- `ItemAttribute::Type`
abbrev pub type_of : ItemAttribute → ℕ
type_of untyped = 0
type_of (string s) = 1
type_of (integer i) = 2
type_of (float f) = 3
type_of (boolean b) = 4

unfoldable pub serialize : ItemAttribute → PropWriteStream → Option PropWriteStream
serialize untyped s = add_type 1 0 s
serialize (string text) s = add_type 1 1 s >>= add_long_string text
serialize (integer i) s = add_type 1 2 s >>= add_type 4 i
serialize (float f) s = add_type 1 3 s >>= add_type 4 f
serialize (boolean b) s = add_type 1 4 s >>= add_type 1 (if b then 1 else 0)

abbrev pub cut_key : List ℕ → List ℕ
cut_key k = if ltb 0xFFFF (length k) then take 0xFFFF k else k

-- The loop of `serializeMap`, at its counter `i`.
unfoldable pub serialize_from : ℕ → AttributeMap → PropWriteStream → Option PropWriteStream
unfolding serialize
serialize_from i [] s = some s
serialize_from i ((k, v) ∷ m) s =
    if leb i 0xFFFF
    then (add_string (cut_key k) s >>= λ t. serialize v t >>= serialize_from (i + 1) m)
    else some s

unfoldable pub serialize_map : AttributeMap → PropWriteStream → Option PropWriteStream
unfolding serialize_from
serialize_map m s =
    add_type 2 (if ltb (length m) 0xFFFF then length m else 0xFFFF) s >>= serialize_from 0 m

-- What `unserialize` makes of a type and of what follows it.
unfoldable pub unserialize_as : ℕ → List ℕ → Read ItemAttribute
unserialize_as type s =
    if type == 1
    then read_then (get_long_string s) (λ v rest. value (string v) rest)
    else if type == 2
    then read_then (get_type 4 s) (λ v rest. value (integer v) rest)
    else if type == 3
    then read_then (get_type 4 s) (λ v rest. value (float v) rest)
    else if type == 4
    then read_then (get_type 1 s) (λ v rest. value (boolean (not (v == 0))) rest)
    else value untyped s

-- A type that cannot be read is 0.
unfoldable pub unserialize : List ℕ → Read ItemAttribute
unfolding unserialize_as
unserialize s = elim (get_type 1 s) [
  | overrun ↦ overrun
  | refused rest ↦ unserialize_as 0 rest
  | value type rest ↦ unserialize_as type rest
]

-- What `unserializeMap` does: it returns whether it succeeded, with the attributes and the stream as
-- they are then; or it reads behind the end of the stream.
pub data Loaded : Type 0 where
  crashed : Loaded
  loaded : Bool → Attributes → List ℕ → Loaded

abbrev pub loaded_then {ℓ} : {A : Type ℓ} → AttributeMap → Read A → (A → List ℕ → Loaded) → Loaded
loaded_then m overrun next = crashed
loaded_then m (refused rest) next = loaded false (some m) rest
loaded_then m (value a rest) next = next a rest

unfoldable pub unserialize_entries : ℕ → AttributeMap → List ℕ → Loaded
unfolding unserialize
unserialize_entries zero m s = loaded true (some m) s
unserialize_entries (suc n) m s = loaded_then m (get_string s) (λ k rest.
    loaded_then m (unserialize rest) (λ v rest'. unserialize_entries n (put k v m) rest'))

unfoldable pub unserialize_map : Attributes → List ℕ → Loaded
unfolding unserialize_entries
unserialize_map a s = elim (get_type 2 s) [
  | overrun ↦ crashed
  | refused rest ↦ loaded true a rest
  | value n rest ↦ unserialize_entries n (create_attributes a) rest
]
