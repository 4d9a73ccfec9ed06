-- ===== src/Items/Reading/RoundTrip.antt =====
-- What `serializeAttr` of src/item.cpp writes of an item, `unserializeAttr` reads.
use mathlib.Core.Path.{fun_ext}
use mathlib.Core.List.{append_assoc, append-nil}
use model_lib.Prelude.{
  ℕ, suc, ◌+◌, ◌%◌, ◌≤◌, ◌<◌, ◌≡◌, refl, ap, sym, ◌∙◌, Bool, true, false, ◌&&◌, not, ◌==◌,
  if◌then◌else◌, Option, none, some, ◌>>=◌, List, [], ◌∷◌, ◌++◌, length, arith, Bool-cases, inl,
  inr, ◌^◌, length-append, subst,
}
use model_lib.Prelude.All.{All}
use model_lib.Network.Buffer.{to_bytes, length-to_bytes}
use model_lib.Files.Stream.{
  PropWriteStream, Property, num, add_type, add_prop, add_props, is_short, get_type,
}
use model_lib.Files.Stream.Room.{HasRoom, IsNarrow, encode, encode_all, add_props-encode_all}
use model_lib.Files.Stream.RoundTrip.{get_type-to_bytes}
use model_lib.Items.Keys.{key_decaying}
use model_lib.Items.Attributes.{
  integer, AttributeMap, Attributes, create_attributes, find_attribute, string_eq, find,
  get_integer_attribute,
}
use model_lib.Items.Attributes.Order.{IsSorted, find_attribute-set_attribute}
use model_lib.Items.Attributes.Stream.{loaded, unserialize_map}
use model_lib.Items.Attributes.Stream.Written.{
  behind_number, entries, serialize_map-add_props, bind_assoc, IsWritable, IsNarrow-entries,
}
use model_lib.Items.Attributes.Stream.RoundTrip.{unserialize_map-entries, put_all-nil}
use model_lib.Items.Reading.{
  ItemType, Item, get_long, get_sub_type, set_sub_type, set_pending, field_of, read_map, read_field,
  read_attr, returned, unserialize_attr, serialize_attributes, serialize_attr,
}

-- The properties that an item's attributes and a stackable item are written as.
abbrev pub attribute_props : Attributes → List Property
attribute_props none = []
attribute_props (some []) = []
attribute_props (some (e ∷ m)) = num 1 128 ∷ num 2 (length (e ∷ m)) ∷ entries (e ∷ m)

abbrev IsFew : Attributes → Type 0
IsFew none = Unit
IsFew (some m) = length m ≤ 0xFFFF

serialize_attributes-add_props :
    (a : Attributes) (s : PropWriteStream)
    → IsFew a
    → serialize_attributes a s ≡ add_props (attribute_props a) s
unfolding serialize_attributes add_props add_prop
serialize_attributes-add_props none s few = refl
serialize_attributes-add_props (some []) s few = refl
serialize_attributes-add_props (some (e ∷ m)) s few =
    ap (λ (g : PropWriteStream → Option PropWriteStream). add_type 1 128 s >>= g)
      (fun_ext (λ t. serialize_map-add_props (e ∷ m) t few))

-- The end of the stream.
unserialize_end :
    (f : ℕ) (types : ℕ → ItemType) (i : Item)
    → unserialize_attr (suc f) types i [] ≡ some (returned true i [])
unfolding unserialize_attr get_type is_short
unserialize_end f types i = refl

-- The count of a stackable item.
unserialize_count :
    (f c : ℕ) (types : ℕ → ItemType) (i : Item) (rest : List ℕ)
    → (types i.id).fluid_container ≡ false
    → (types i.id).splash ≡ false
    → (types i.id).charges ≡ 0
    → c < 256
    → 2 + length rest < 2 ^ 31
    → unserialize_attr (suc f) types i (encode (num 1 15) ++ (encode (num 1 c) ++ rest))
      ≡ unserialize_attr f types (record i { count = c }) rest
unfolding unserialize_attr encode read_attr field_of read_field set_sub_type
unserialize_count f c types i rest fluid splash charges small less =
    let first =
      get_type-to_bytes 1 15 (to_bytes 1 c ++ rest) (omega arith)
        (omega (arith, less, length-append (to_bytes 1 c) rest, length-to_bytes 1 c)) in
    let second = get_type-to_bytes 1 c rest (omega (arith, small)) (omega (arith, less)) in
    rw (first, second, unserialize_attr) (rw (fluid, splash, charges) refl)

-- An item's attributes after reading: what decays is to be decided anew.
abbrev pub settled : Item → Item
settled i = set_pending (not (get_long key_decaying i == 0)) i

unserialize_attributes :
    (f : ℕ) (types : ℕ → ItemType) (i : Item) (m : AttributeMap)
    → i.attributes ≡ none
    → IsSorted m
    → All IsWritable m
    → length m ≤ 0xFFFF
    → 1 + length (encode_all (num 2 (length m) ∷ entries m) ++ []) < 2 ^ 31
    → unserialize_attr
        (suc f)
        types
        i
        (encode (num 1 128) ++ (encode_all (num 2 (length m) ∷ entries m) ++ []))
      ≡ unserialize_attr f types (settled (record i { attributes = some m })) []
unfolding unserialize_attr encode read_attr field_of read_field read_map create_attributes
unserialize_attributes f types i m fresh sorted fine few less =
    let rest = encode_all (num 2 (length m) ∷ entries m) ++ [] in
    let first = get_type-to_bytes 1 128 rest (omega arith) less in
    let map : unserialize_map i.attributes rest ≡ loaded true (some m) [] =
      ap (λ a. unserialize_map a rest) fresh
      ∙ unserialize_map-entries m none fine few (omega (arith, less))
      ∙ ap (λ n. loaded true (some n) []) (put_all-nil m sorted) in
    rw (first, unserialize_attr) (rw map refl)

-- The item that is read back: the attributes of a map without entries are not there.
abbrev saved : Item → Attributes → Item
saved i none = i
saved i (some []) = i
saved i (some (e ∷ m)) = settled (record i { attributes = some (e ∷ m) })

abbrev pub IsSavable : Attributes → Type 0
IsSavable none = Unit
IsSavable (some m) = IsSorted m × All IsWritable m × (length m ≤ 0xFFFF)

IsSavable-IsFew : (a : Attributes) → IsSavable a → IsFew a
IsSavable-IsFew none h = tt
IsSavable-IsFew (some m) h = h.2

read_saved :
    (f : ℕ) (types : ℕ → ItemType) (i : Item) (a : Attributes)
    → i.attributes ≡ none
    → IsSavable a
    → length (encode_all (attribute_props a) ++ []) < 2 ^ 31
    → unserialize_attr (suc (suc f)) types i (encode_all (attribute_props a) ++ [])
      ≡ some (returned true (saved i a) [])
unfolding encode_all
read_saved f types i none fresh h less = unserialize_end (suc f) types i
read_saved f types i (some []) fresh h less = unserialize_end (suc f) types i
read_saved f types i (some (e ∷ m)) fresh (sorted, fine, few) less =
    let body = encode_all (num 2 (length (e ∷ m)) ∷ entries (e ∷ m)) in
    let apart = append_assoc (encode (num 1 128)) body [] in
    let whole : length (encode (num 1 128) ++ (body ++ [])) < 2 ^ 31 =
      omega (arith, less, ap length apart) in
    ap (unserialize_attr (suc (suc f)) types i) apart
    ∙ unserialize_attributes (suc f) types i (e ∷ m) fresh sorted fine few
        (unfold encode in behind_number 1 128 (body ++ []) whole)
    ∙ unserialize_end f types (settled (record i { attributes = some (e ∷ m) }))

IsNarrow-attribute_props : (a : Attributes) → All IsNarrow (attribute_props a)
IsNarrow-attribute_props none = tt
IsNarrow-attribute_props (some []) = tt
IsNarrow-attribute_props (some (e ∷ m)) = (omega arith, (omega arith, IsNarrow-entries (e ∷ m)))

abbrev pub count_props : Bool → ℕ → List Property
count_props true c = num 1 15 ∷ num 1 c ∷ []
count_props false c = []

two_props :
    (c : ℕ) (ps : List Property) (s : PropWriteStream)
    → (add_type 1 15 s >>= add_type 1 c >>= add_props ps) ≡ add_props (num 1 15 ∷ num 1 c ∷ ps) s
unfolding add_props add_prop
two_props c ps s = bind_assoc (add_type 1 15 s) (add_type 1 c) (add_props ps)

IsNarrow-count_props :
    (b : Bool) (c : ℕ) (a : Attributes) → All IsNarrow (count_props b c ++ attribute_props a)
IsNarrow-count_props true c a = (omega arith, (omega arith, IsNarrow-attribute_props a))
IsNarrow-count_props false c a = IsNarrow-attribute_props a

module _ (types : ℕ → ItemType) (i : Item) (fluid : (types i.id).fluid_container ≡ false)
    (splash : (types i.id).splash ≡ false) (charges : (types i.id).charges ≡ 0)
    (small : i.count < 256) where
  serialize_attr-add_props :
      (s : PropWriteStream)
      → IsFew i.attributes
      → serialize_attr types i s
        ≡ add_props (count_props (types i.id).stackable i.count ++ attribute_props i.attributes) s
  unfolding serialize_attr get_sub_type
  serialize_attr-add_props s few =
      let whole : i.count % 256 ≡ i.count = omega (arith, small) in
      let attributes = fun_ext (λ t. serialize_attributes-add_props i.attributes t few) in
      elim (Bool-cases (types i.id).stackable) [
        | inl e ↦
            rw (e, fluid, splash, charges, whole)
              (ap
                  (λ (g : PropWriteStream → Option PropWriteStream).
                    add_type 1 15 s >>= add_type 1 i.count >>= g)
                  attributes
                ∙ two_props i.count (attribute_props i.attributes) s)
        | inr e ↦ rw (e, fluid, splash) (serialize_attributes-add_props i.attributes s few)
      ]

  read_item :
      (f : ℕ) (fresh : Item)
      → fresh.id ≡ i.id
      → fresh.attributes ≡ none
      → IsSavable i.attributes
      → length (
          encode_all (count_props (types i.id).stackable i.count ++ attribute_props i.attributes)
          ++ [])
        < 2 ^ 31
      → unserialize_attr (suc (suc (suc f))) types fresh (
          encode_all (count_props (types i.id).stackable i.count ++ attribute_props i.attributes)
          ++ [])
        ≡ some (
            returned true
              (saved
                (record fresh { count = if (types i.id).stackable then i.count else fresh.count })
                i.attributes)
              [])
  unfolding encode_all
  read_item f fresh same none_yet h less = elim (Bool-cases (types i.id).stackable) [
    | inl e ↦
        let fluid' : (types fresh.id).fluid_container ≡ false = rw same fluid in
        let splash' : (types fresh.id).splash ≡ false = rw same splash in
        let charges' : (types fresh.id).charges ≡ 0 = rw same charges in
        let rest = encode_all (attribute_props i.attributes) ++ [] in
        let less' : length
              (encode_all (num 1 15 ∷ num 1 i.count ∷ attribute_props i.attributes) ++ [])
            < 2 ^ 31 =
          subst
            (λ b.
              length (encode_all (count_props b i.count ++ attribute_props i.attributes) ++ [])
              < 2 ^ 31)
            e less in
        let bytes =
          append_assoc (encode (num 1 15))
            (encode (num 1 i.count) ++ encode_all (attribute_props i.attributes)) []
          ∙ ap (λ bs. encode (num 1 15) ++ bs)
              (append_assoc (encode (num 1 i.count)) (encode_all (attribute_props i.attributes))
                []) in
        let first : length (to_bytes 1 15 ++ (to_bytes 1 i.count ++ rest)) < 2 ^ 31 =
          unfold encode in omega (arith, less', ap length bytes) in
        let second : 2 + length rest < 2 ^ 31 = omega (
          arith,
          behind_number 1 15 (to_bytes 1 i.count ++ rest) first,
          length-append (to_bytes 1 i.count) rest,
          length-to_bytes 1 i.count,
        ) in
        rw e (
          ap (unserialize_attr (suc (suc (suc f))) types fresh) bytes
          ∙ unserialize_count (suc (suc f)) i.count types fresh rest fluid' splash' charges' small
              second
          ∙ read_saved f types (record fresh { count = i.count }) i.attributes none_yet h
              (omega (arith, second)))
    | inr e ↦
        let less' : length (encode_all (attribute_props i.attributes) ++ []) < 2 ^ 31 =
          subst
            (λ b.
              length (encode_all (count_props b i.count ++ attribute_props i.attributes) ++ [])
              < 2 ^ 31)
            e less in
        rw e (read_saved (suc f) types fresh i.attributes none_yet h less')
  ]

-- The attributes that are found in an item that was read.
find-settled :
    (i : Item) (k : List ℕ)
    → find_attribute k (settled i).attributes ≡ (
        if string_eq key_decaying k && not (get_long key_decaying i == 0)
        then some (integer 2)
        else find_attribute k i.attributes)
unfolding set_pending
find-settled i k =
    let found = find_attribute-set_attribute k key_decaying (integer 2) i.attributes in
    elim (Bool-cases (get_long key_decaying i == 0)) [
      | inl e ↦ rw e (ground arith)
      | inr e ↦ rw e (found ∙ ground arith)
    ]

find-saved :
    (j : Item) (a : Attributes) (k : List ℕ)
    → j.attributes ≡ none
    → find_attribute k (saved j a).attributes ≡ (
        if string_eq key_decaying k
          && not (get_long key_decaying (record j { attributes = a }) == 0)
        then some (integer 2)
        else find_attribute k a)
find-saved j none k fresh =
    unfold get_long get_integer_attribute find_attribute in
    ap (find_attribute k) fresh ∙ ground arith
find-saved j (some []) k fresh =
    unfold get_long get_integer_attribute find_attribute find in
    ap (find_attribute k) fresh ∙ ground arith
find-saved j (some (e ∷ m)) k fresh = find-settled (record j { attributes = some (e ∷ m) }) k

saved_rest : (j : Item) (a : Attributes) → ((saved j a).id ≡ j.id) × ((saved j a).count ≡ j.count)
unfolding set_pending
saved_rest j none = (refl, refl)
saved_rest j (some []) = (refl, refl)
saved_rest j (some (e ∷ m)) =
    elim (Bool-cases (not (get_long key_decaying (record j { attributes = some (e ∷ m) }) == 0))) [
      | inl f ↦ rw f (refl, refl)
      | inr f ↦ rw f (refl, refl)
    ]

-- An item that is written into an empty stream is read back into a new item of the same type, up to the
-- end of the stream: a stackable item has its count again, and every attribute is found as it was, but
-- for an item that decays, whose state is `DECAYING_PENDING` then. The item is no fluid container or
-- splash and of a type without charges, its count is below 256, its attributes are in order and fit the
-- stream's fields, and together they stay below 2 GB. Three steps of fuel are enough.
pub unserialize_attr-serialize_attr :
    (types : ℕ → ItemType) (f : ℕ) (i fresh : Item) (s : PropWriteStream)
    → (types i.id).fluid_container ≡ false
    → (types i.id).splash ≡ false
    → (types i.id).charges ≡ 0
    → i.count < 256
    → IsSavable i.attributes
    → fresh.id ≡ i.id
    → fresh.attributes ≡ none
    → s.bytes ≡ []
    → HasRoom s
    → length
        (encode_all (count_props (types i.id).stackable i.count ++ attribute_props i.attributes))
      < 2 ^ 31
    → (t : PropWriteStream) × (j : Item) × (serialize_attr types i s ≡ some t)
      × (unserialize_attr (suc (suc (suc f))) types fresh t.bytes ≡ some (returned true j []))
      × (j.id ≡ i.id)
      × (j.count ≡ (if (types i.id).stackable then i.count else fresh.count))
      × ((k : List ℕ)
          → find_attribute k j.attributes ≡ (
              if string_eq key_decaying k && not (get_long key_decaying i == 0)
              then some (integer 2)
              else find_attribute k i.attributes))
unserialize_attr-serialize_attr types f i fresh s fluid splash charges small savable same none_yet
      empty_stream room total =
    let ps = count_props (types i.id).stackable i.count ++ attribute_props i.attributes in
    let (t, e, bytes, room') =
      add_props-encode_all ps s (IsNarrow-count_props (types i.id).stackable i.count i.attributes)
        room (omega (arith, ap length empty_stream, total)) in
    let whole : t.bytes ≡ encode_all ps ++ [] =
      bytes ∙ ap (λ xs. xs ++ encode_all ps) empty_stream ∙ sym (append-nil (encode_all ps)) in
    let less : length (encode_all ps ++ []) < 2 ^ 31 =
      omega (arith, total, length-append (encode_all ps) []) in
    let base = record fresh { count = if (types i.id).stackable then i.count else fresh.count } in
    let decays : get_long key_decaying (record base { attributes = i.attributes })
        ≡ get_long key_decaying i =
      unfold get_long in refl in
    let rest = saved_rest base i.attributes in
    (
      t,
      saved base i.attributes,
      serialize_attr-add_props types i fluid splash charges small s
            (IsSavable-IsFew i.attributes savable)
          ∙ e,
      ap (unserialize_attr (suc (suc (suc f))) types fresh) whole
          ∙ read_item types i fluid splash charges small f fresh same none_yet savable less,
      rest.0 ∙ same,
      rest.1,
      λ k.
          find-saved base i.attributes k none_yet
          ∙ ap
              (λ d.
                if string_eq key_decaying k && not (d == 0)
                then some (integer 2)
                else find_attribute k i.attributes)
              decays,
    )
