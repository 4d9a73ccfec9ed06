-- ===== src/Items/Reading.antt =====
-- How items are read and written: `readAttr`, `unserializeAttr` and `serializeAttr` of src/item.cpp,
-- with what they call of item.h. The script environment, which is told of new unique items, is no part
-- of an item.
pub mod Ends
pub mod RoundTrip
use model_lib.Prelude.{
  ℕ, zero, suc, ◌+◌, ◌%◌, ◌^◌, Bool, true, false, ◌&&◌, ◌||◌, not, ltb, ◌==◌, if◌then◌else◌, Option,
  none, some, ◌>>=◌, List, [], ◌∷◌,
}
use model_lib.Prelude.Words.{u16_mod}
use model_lib.Files.Stream.{
  Read, overrun, refused, value, get_type, get_string, PropWriteStream, add_type,
}
use model_lib.Items.Keys.{
  key_aid, key_uid, key_name, key_pluralname, key_article, key_attack, key_extraattack, key_defense,
  key_extradefense, key_armor, key_attackspeed, key_hitchance, key_scriptprotected, key_dualwield,
  key_text, key_date, key_writer, key_description, key_duration, key_decaying, key_charges,
  key_fluidtype,
}
use model_lib.Items.Attributes.{
  Attributes, string, integer, boolean, set_attribute, get_integer_attribute,
}
use model_lib.Items.Attributes.Stream.{Loaded, crashed, loaded, serialize_map, unserialize_map}

-- What reading and writing use of an `ItemType`.
pub record ItemType : Type 0 where
  pub stackable : Bool
  pub fluid_container : Bool
  pub splash : Bool
  pub charges : ℕ

pub record Item : Type 0 where
  pub id : ℕ
  pub count : ℕ
  pub attributes : Attributes

abbrev pub set : List ℕ → ℕ → Item → Item
set k n i = record i { attributes = set_attribute k (integer n) i.attributes }

-- An `int32_t` attribute that is not negative, as a `uint16_t`: `getCharges` and `getFluidType`.
unfoldable pub get_short : List ℕ → Item → ℕ
get_short k i = elim (get_integer_attribute k i.attributes) [
  | none ↦ 0
  | some v ↦ if ltb v (2 ^ 31) then v % u16_mod else 0
]

-- `getUniqueId` and `getDecaying`
unfoldable pub get_long : List ℕ → Item → ℕ
get_long k i = elim (get_integer_attribute k i.attributes) [ none ↦ 0 | some v ↦ v ]

unfoldable pub get_sub_type : (ℕ → ItemType) → Item → ℕ
unfolding get_short
get_sub_type types i =
    if (types i.id).fluid_container || (types i.id).splash
    then get_short key_fluidtype i
    else if not ((types i.id).charges == 0)
    then get_short key_charges i
    else i.count

unfoldable pub set_sub_type : (ℕ → ItemType) → ℕ → Item → Item
set_sub_type types n i =
    if (types i.id).fluid_container || (types i.id).splash
    then set key_fluidtype n i
    else if not ((types i.id).charges == 0)
    then set key_charges n i
    else record i { count = n }

unfoldable pub set_unique_id : ℕ → Item → Item
unfolding get_long
set_unique_id n i = if get_long key_uid i == 0 then set key_uid n i else i

-- `DECAYING_PENDING` is 2.
unfoldable pub set_pending : Bool → Item → Item
set_pending b i = if b then set key_decaying 2 i else i

-- What `readAttr` does for a type of attribute: `sub_type` and `skipped` read as many bytes.
pub data Field : Type 0 where
  text_field long_field flag_field : List ℕ → Field
  sub_type skipped : ℕ → Field
  action_id unique_id decaying_state container_items attribute_map unknown : Field

-- The cases of `readAttr`, `AttrTypes_t` in numbers
unfoldable pub field_of : ℕ → Field
field_of attr =
    if attr == 15
    then sub_type 1
    else if attr == 4
    then action_id
    else if attr == 5
    then unique_id
    else if attr == 30
    then text_field key_name
    else if attr == 31
    then text_field key_pluralname
    else if attr == 41
    then text_field key_article
    else if attr == 33
    then long_field key_attack
    else if attr == 34
    then long_field key_extraattack
    else if attr == 35
    then long_field key_defense
    else if attr == 36
    then long_field key_extradefense
    else if attr == 37
    then long_field key_armor
    else if attr == 38
    then long_field key_attackspeed
    else if attr == 39
    then long_field key_hitchance
    else if attr == 42
    then flag_field key_scriptprotected
    else if attr == 43
    then flag_field key_dualwield
    else if attr == 6
    then text_field key_text
    else if attr == 18
    then long_field key_date
    else if attr == 19
    then text_field key_writer
    else if attr == 7
    then text_field key_description
    else if attr == 12
    then sub_type 1
    else if attr == 22
    then sub_type 2
    else if attr == 16
    then long_field key_duration
    else if attr == 17
    then decaying_state
    else if attr == 10
    then skipped 2
    else if attr == 14
    then skipped 1
    else if attr == 8
    then skipped 5
    else if attr == 20
    then skipped 4
    else if attr == 21
    then skipped 4
    else if attr == 23
    then container_items
    else if attr == 128
    then attribute_map
    else unknown

-- `ATTR_READ_ERROR` or `ATTR_READ_CONTINUE`, with the item and the stream as they are then; or a read
-- behind the end of the stream.
pub data AttrRead : Type 0 where
  broken : AttrRead
  read_error read_continue : Item → List ℕ → AttrRead

abbrev pub attr_then {ℓ} : {A : Type ℓ} → Item → Read A → (A → Item) → AttrRead
attr_then i overrun f = broken
attr_then i (refused rest) f = read_error i rest
attr_then i (value a rest) f = read_continue (f a) rest

-- The map, and the state of decay that comes with it
unfoldable pub read_map : Item → Loaded → AttrRead
unfolding set_pending get_long
read_map i crashed = broken
read_map i (loaded b a rest) =
    let i' = record i { attributes = a } in
    let i'' = set_pending (not (get_long key_decaying i' == 0)) i' in
    if b then read_continue i'' rest else read_error i'' rest

unfoldable pub read_field : (ℕ → ItemType) → Field → Item → List ℕ → AttrRead
unfolding set_sub_type set_unique_id set_pending read_map
read_field types (text_field k) i s =
    attr_then i (get_string s)
      (λ v. record i { attributes = set_attribute k (string v) i.attributes })
read_field types (long_field k) i s = attr_then i (get_type 4 s) (λ v. set k v i)
read_field types (flag_field k) i s =
    attr_then i (get_type 1 s)
      (λ v. record i { attributes = set_attribute k (boolean (not (v == 0))) i.attributes })
read_field types (sub_type n) i s = attr_then i (get_type n s) (λ v. set_sub_type types v i)
read_field types (skipped n) i s = attr_then i (get_type n s) (λ v. i)
read_field types action_id i s = attr_then i (get_type 2 s) (λ v. set key_aid v i)
read_field types unique_id i s = attr_then i (get_type 2 s) (λ v. set_unique_id v i)
read_field types decaying_state i s = attr_then i (get_type 1 s) (λ v. set_pending (not (v == 0)) i)
read_field types container_items i s = elim (get_type 4 s) [
  | overrun ↦ broken
  | refused rest ↦ read_error i rest
  | value v rest ↦ read_error i rest
]
read_field types attribute_map i s = read_map i (unserialize_map i.attributes s)
read_field types unknown i s = read_error i s

unfoldable pub read_attr : (ℕ → ItemType) → ℕ → Item → List ℕ → AttrRead
unfolding read_field field_of
read_attr types attr i s = read_field types (field_of attr) i s

-- What `unserializeAttr` returns, with the item and the stream; `none` when the fuel runs out.
pub data Unserialized : Type 0 where
  behind_end : Unserialized
  returned : Bool → Item → List ℕ → Unserialized

unfoldable pub unserialize_attr : ℕ → (ℕ → ItemType) → Item → List ℕ → Option Unserialized
unfolding read_attr
unserialize_attr zero types i s = none
unserialize_attr (suc fuel) types i s = elim (get_type 1 s) [
  | overrun ↦ some behind_end
  | refused rest ↦ some (returned true i rest)
  | value attr rest ↦ elim (attr == 0) [
    | true ↦ some (returned true i rest)
    | false ↦ elim (read_attr types attr i rest) [
      | broken ↦ some behind_end
      | read_error j rest' ↦ some (returned false j rest')
      | read_continue j rest' ↦ unserialize_attr fuel types j rest'
    ]
  ]
]

unfoldable pub serialize_attributes : Attributes → PropWriteStream → Option PropWriteStream
serialize_attributes none s = some s
serialize_attributes (some []) s = some s
serialize_attributes (some (e ∷ m)) s = add_type 1 128 s >>= serialize_map (e ∷ m)

unfoldable pub serialize_attr : (ℕ → ItemType) → Item → PropWriteStream → Option PropWriteStream
unfolding get_sub_type serialize_attributes
serialize_attr types i s =
    (if (types i.id).stackable || (types i.id).fluid_container || (types i.id).splash
      then (add_type 1 15 s >>= add_type 1 (get_sub_type types i % 256))
      else some s)
    >>= serialize_attributes i.attributes
