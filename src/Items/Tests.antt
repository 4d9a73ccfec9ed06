-- ===== src/Items/Tests.antt =====
-- Tests of the attributes of items, and the theorems at concrete inputs.
use model_lib.Prelude.{
  ℕ, ◌≡◌, refl, true, false, ◌&&◌, not, ◌==◌, if◌then◌else◌, none, some, List, [], ◌∷◌, arith,
}
use model_lib.Network.Buffer.{to_bytes, of_bytes}
use model_lib.Files.Stream.{PropWriteStream, new_stream, get_type, get_string}
use model_lib.Files.Stream.Room.{HasRoom, encode, encode_all}
use model_lib.Items.Keys.{key_aid, key_text, key_decaying, key_uid, key_name}
use model_lib.Items.Attributes.{
  untyped, string, integer, float, AttributeMap, any_string, string_eq, find, find_attribute,
  set_any, get_any, get_string_attribute, get_integer_attribute, get_float_attribute,
  get_boolean_attribute, put, string_lt, create_attributes, set_attribute, get_integer,
}
use model_lib.Items.Attributes.Order.{IsSorted, IsOrdered}
use model_lib.Items.Attributes.Typed.{Gives, Holds, set_any-Holds}
use model_lib.Items.Attributes.Stream.{
  loaded, serialize_map, unserialize_map, unserialize_entries, unserialize,
}
use model_lib.Items.Attributes.Stream.Written.{entries}
use model_lib.Items.Attributes.Stream.RoundTrip.{or_else, unserialize_map-serialize_map}
use model_lib.Items.Reading.{
  ItemType, Item, get_long, Unserialized, returned, unserialize_attr, serialize_attr, read_attr,
  read_field, field_of, set_unique_id,
}
use model_lib.Items.Reading.Ends.{IsUnserialized, unserialize_attr-ends}
use model_lib.Items.Reading.RoundTrip.{unserialize_attr-serialize_attr}

abbrev types : ℕ → ItemType
types id = record { stackable = id == 1; fluid_container = id == 2; splash = false; charges = 0 }

-- A letter that says "hi" and has an action.
abbrev letter : AttributeMap
letter = (key_aid, integer 100) ∷ (key_text, string (b'h' ∷ b'i' ∷ [])) ∷ []

letter-IsSorted : IsSorted letter
unfolding string_lt
letter-IsSorted = ((refl, tt), (tt, tt))

new_stream-HasRoom : HasRoom new_stream
new_stream-HasRoom = record { inside = omega arith; ahead = omega arith }

abbrev coins : Item
coins = record { id = 1; count = 5; attributes = some letter }

abbrev blank : Item
blank = record { id = 1; count = 1; attributes = none }

-- A type byte that is missing is read as an attribute without a type.
cut_off :
    unserialize_map none (1 ∷ 0 ∷ 1 ∷ 0 ∷ b'a' ∷ [])
    ≡ loaded true (some ((b'a' ∷ [], untyped) ∷ [])) []
unfolding unserialize_map unserialize_entries unserialize create_attributes put get_type get_string
    of_bytes
cut_off = refl

-- A unique id is only read once.
once :
    unserialize_attr 9 types blank (5 ∷ 7 ∷ 0 ∷ 5 ∷ 8 ∷ 0 ∷ [])
    ≡ some (returned true (record blank { attributes = some ((key_uid, integer 7) ∷ []) }) [])
unfolding unserialize_attr read_attr read_field field_of set_unique_id get_type of_bytes
    get_integer_attribute set_attribute find put create_attributes string_eq get_integer
once = refl

set_any-Holds_example :
    IsOrdered (set_any key_name (any_string (b'x' ∷ [])) (some letter))
    × Holds key_name
        (set_any key_name (any_string (b'x' ∷ [])) (some letter))
        (any_string (b'x' ∷ []))
    × ((j : List ℕ)
        → string_eq key_name j ≡ false
        → Gives j
            (set_any key_name (any_string (b'x' ∷ [])) (some letter))
            (get_any j (some letter))
            (get_string_attribute j (some letter))
            (get_integer_attribute j (some letter))
            (get_float_attribute j (some letter))
            (get_boolean_attribute j (some letter)))
set_any-Holds_example =
    set_any-Holds key_name (any_string (b'x' ∷ [])) (some letter) letter-IsSorted

unserialize_map-serialize_map_example :
    (t : PropWriteStream) × (b : AttributeMap) × (serialize_map letter new_stream ≡ some t)
    × (unserialize_map none t.bytes ≡ loaded true (some letter) [])
    × (unserialize_map (some ((key_name, float 1) ∷ [])) t.bytes ≡ loaded true (some b) [])
    × IsSorted b
    × ((k : List ℕ)
        → find k b ≡ or_else (find k letter) (find_attribute k (some ((key_name, float 1) ∷ []))))
unfolding entries encode_all encode to_bytes
unserialize_map-serialize_map_example =
    unserialize_map-serialize_map letter (some ((key_name, float 1) ∷ [])) new_stream refl
      new_stream-HasRoom letter-IsSorted (tt, tt) (omega arith) (omega arith) (ground arith)

unserialize_attr-ends_example :
    (u : Unserialized) × (unserialize_attr 4 types coins (15 ∷ 7 ∷ 99 ∷ []) ≡ some u)
    × IsUnserialized 1 u
unserialize_attr-ends_example =
    unserialize_attr-ends 4 types coins (15 ∷ 7 ∷ 99 ∷ []) letter-IsSorted (omega arith)

unserialize_attr-serialize_attr_example :
    (t : PropWriteStream) × (j : Item) × (serialize_attr types coins new_stream ≡ some t)
    × (unserialize_attr 3 types blank t.bytes ≡ some (returned true j []))
    × (j.id ≡ 1)
    × (j.count ≡ 5)
    × ((k : List ℕ)
        → find_attribute k j.attributes ≡ (
            if string_eq key_decaying k && not (get_long key_decaying coins == 0)
            then some (integer 2)
            else find_attribute k (some letter)))
unfolding entries encode_all encode to_bytes
unserialize_attr-serialize_attr_example =
    unserialize_attr-serialize_attr types 0 coins blank new_stream refl refl refl (omega arith)
      (letter-IsSorted, omega arith, omega arith) refl refl refl new_stream-HasRoom (ground arith)
