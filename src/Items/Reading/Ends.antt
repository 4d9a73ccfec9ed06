-- ===== src/Items/Reading/Ends.antt =====
-- `unserializeAttr` of src/item.cpp ends on every stream.
use model_lib.Prelude.{
  ◌||◌, ◌⊎◌, subst, length-drop, ℕ, zero, suc, ◌≤◌, ◌<◌, ◌≡◌, refl, Bool, true, false, not, ◌==◌,
  if◌then◌else◌, some, List, [], ◌∷◌, length, arith, Bool-cases, inl, inr,
}
use model_lib.Files.Stream.{Read, overrun, refused, value, is_short, get_type, get_string}
use model_lib.Items.Attributes.Order.{IsOrdered, set_attribute-IsOrdered}
use model_lib.Items.Attributes.{ItemAttribute, set_attribute, string, integer, boolean}
use model_lib.Items.Attributes.Stream.{Loaded, crashed, loaded, unserialize_map}
use model_lib.Items.Attributes.Stream.Loading.{
  Shrinks, get_type-Shrinks, get_string-Shrinks, IsLoaded, unserialize_map-IsLoaded,
}
use model_lib.Items.Keys.{key_aid, key_uid, key_decaying, key_charges, key_fluidtype}
use model_lib.Items.Reading.{
  ItemType, Item, Field, text_field, long_field, flag_field, sub_type, skipped, action_id,
  unique_id, decaying_state, container_items, attribute_map, unknown, AttrRead, broken, read_error,
  read_continue, attr_then, read_map, read_field, field_of, read_attr, Unserialized, behind_end,
  returned, unserialize_attr, set_sub_type, set_unique_id, set_pending, get_long,
}

-- An item of a type, with the keys of its attributes in order.
abbrev pub IsKept : ℕ → Item → Type 0
IsKept id i = IsOrdered i.attributes × (i.id ≡ id)

-- What reading an attribute leaves: no more bytes than there were, and such an item.
abbrev IsRead : ℕ → ℕ → AttrRead → Type 0
IsRead n id broken = Unit
IsRead n id (read_error i rest) = (length rest ≤ n) × IsKept id i
IsRead n id (read_continue i rest) = (length rest ≤ n) × IsKept id i

attr_then-IsRead {ℓ} :
    {A : Type ℓ} (n id : ℕ) (i : Item) (r : Read A) (f : A → Item)
    → IsKept id i
    → Shrinks n r
    → ((a : A) → IsKept id (f a))
    → IsRead n id (attr_then i r f)
attr_then-IsRead n id i overrun f o s h = tt
attr_then-IsRead n id i (refused rest) f o s h = (s, o)
attr_then-IsRead n id i (value a rest) f o s h = (s, h a)

if-IsKept :
    (id : ℕ) (b : Bool) (i j : Item) → IsKept id i → IsKept id j → IsKept id (if b then i else j)
if-IsKept id true i j h k = h
if-IsKept id false i j h k = k

module _ (id : ℕ) (i : Item) (kept : IsKept id i) where
  set-IsKept :
      (k : List ℕ) (v : ItemAttribute)
      → IsKept id (record i { attributes = set_attribute k v i.attributes })
  set-IsKept k v = (set_attribute-IsOrdered k v i.attributes kept.0, kept.1)

  set_sub_type-IsKept : (types : ℕ → ItemType) (n : ℕ) → IsKept id (set_sub_type types n i)
  unfolding set_sub_type
  set_sub_type-IsKept types n =
      if-IsKept id ((types i.id).fluid_container || (types i.id).splash) _ _
        (set-IsKept key_fluidtype (integer n))
        (if-IsKept id (not ((types i.id).charges == 0)) _ _ (set-IsKept key_charges (integer n))
          kept)

  set_unique_id-IsKept : (n : ℕ) → IsKept id (set_unique_id n i)
  unfolding set_unique_id
  set_unique_id-IsKept n =
      if-IsKept id (get_long key_uid i == 0) _ _ (set-IsKept key_uid (integer n)) kept

  set_pending-IsKept : (b : Bool) → IsKept id (set_pending b i)
  unfolding set_pending
  set_pending-IsKept b = if-IsKept id b _ _ (set-IsKept key_decaying (integer 2)) kept

if-IsRead :
    (n id : ℕ) (b : Bool) (r q : AttrRead)
    → IsRead n id r
    → IsRead n id q
    → IsRead n id (if b then r else q)
if-IsRead n id true r q h k = h
if-IsRead n id false r q h k = k

read_map-IsRead :
    (n id : ℕ) (i : Item) (l : Loaded) → i.id ≡ id → IsLoaded n l → IsRead n id (read_map i l)
unfolding read_map
read_map-IsRead n id i crashed e h = tt
read_map-IsRead n id i (loaded b a rest) e (o, le) =
    let kept = set_pending-IsKept id (record i { attributes = a }) (o, e) _ in
    if-IsRead n id b _ _ (le, kept) (le, kept)

read_field-IsRead :
    (types : ℕ → ItemType) (f : Field) (id : ℕ) (i : Item) (s : List ℕ)
    → IsKept id i
    → IsRead (length s) id (read_field types f i s)
unfolding read_field
read_field-IsRead types (text_field k) id i s h =
    attr_then-IsRead (length s) id i (get_string s) _ h (get_string-Shrinks s)
      (λ v. set-IsKept id i h k (string v))
read_field-IsRead types (long_field k) id i s h =
    attr_then-IsRead (length s) id i (get_type 4 s) _ h (get_type-Shrinks 4 s)
      (λ v. set-IsKept id i h k (integer v))
read_field-IsRead types (flag_field k) id i s h =
    attr_then-IsRead (length s) id i (get_type 1 s) _ h (get_type-Shrinks 1 s)
      (λ v. set-IsKept id i h k (boolean (not (v == 0))))
read_field-IsRead types (sub_type n) id i s h =
    attr_then-IsRead (length s) id i (get_type n s) _ h (get_type-Shrinks n s)
      (λ v. set_sub_type-IsKept id i h types v)
read_field-IsRead types (skipped n) id i s h =
    attr_then-IsRead (length s) id i (get_type n s) _ h (get_type-Shrinks n s) (λ v. h)
read_field-IsRead types action_id id i s h =
    attr_then-IsRead (length s) id i (get_type 2 s) _ h (get_type-Shrinks 2 s)
      (λ v. set-IsKept id i h key_aid (integer v))
read_field-IsRead types unique_id id i s h =
    attr_then-IsRead (length s) id i (get_type 2 s) _ h (get_type-Shrinks 2 s)
      (λ v. set_unique_id-IsKept id i h v)
read_field-IsRead types decaying_state id i s h =
    attr_then-IsRead (length s) id i (get_type 1 s) _ h (get_type-Shrinks 1 s)
      (λ v. set_pending-IsKept id i h (not (v == 0)))
read_field-IsRead types container_items id i s h = by_count (get_type 4 s) (get_type-Shrinks 4 s)
  where
    by_count :
        (r : Read ℕ)
        → Shrinks (length s) r
        → IsRead (length s) id (elim r as (λ r. AttrRead) [
          | overrun ↦ broken
          | refused rest ↦ read_error i rest
          | value v rest ↦ read_error i rest
        ])
    by_count overrun k = tt
    by_count (refused rest) k = (k, h)
    by_count (value v rest) k = (k, h)
read_field-IsRead types attribute_map id i s h =
    read_map-IsRead (length s) id i (unserialize_map i.attributes s) h.1
      (unserialize_map-IsLoaded i.attributes s h.0)
read_field-IsRead types unknown id i s h = (omega arith, h)

-- What `unserializeAttr` leaves.
abbrev pub IsUnserialized : ℕ → Unserialized → Type 0
IsUnserialized id behind_end = Unit
IsUnserialized id (returned b i rest) = IsKept id i

byte_read :
    (s : List ℕ) (v : ℕ) (rest : List ℕ) → get_type 1 s ≡ value v rest → length rest < length s
unfolding get_type
byte_read [] v rest e = absurd (unfold is_short in ground (arith, e))
byte_read (x ∷ s) v rest e = elim (Bool-cases (is_short 1 (x ∷ s))) [
  | inl f ↦ absurd (ground (arith, f))
  | inr f ↦ ground (arith, f, e, length-drop 1 (x ∷ s))
]

-- The three outcomes of a read, and of reading an attribute.
byte_cases :
    (s : List ℕ)
    → (get_type 1 s ≡ overrun)
      ⊎ (((rest : List ℕ) × (get_type 1 s ≡ refused rest))
          ⊎ ((v : ℕ) × (rest : List ℕ) × (get_type 1 s ≡ value v rest)))
byte_cases s = by_read (get_type 1 s)
  where
    by_read :
        (r : Read ℕ)
        → (r ≡ overrun)
          ⊎ (((rest : List ℕ) × (r ≡ refused rest))
              ⊎ ((v : ℕ) × (rest : List ℕ) × (r ≡ value v rest)))
    by_read overrun = inl refl
    by_read (refused rest) = inr (inl (rest, refl))
    by_read (value v rest) = inr (inr (v, rest, refl))

attr_cases :
    (r : AttrRead)
    → (r ≡ broken)
      ⊎ (((i : Item) × (rest : List ℕ) × (r ≡ read_error i rest))
          ⊎ ((i : Item) × (rest : List ℕ) × (r ≡ read_continue i rest)))
attr_cases broken = inl refl
attr_cases (read_error i rest) = inr (inl (i, rest, refl))
attr_cases (read_continue i rest) = inr (inr (i, rest, refl))

loop_ends :
    (fuel : ℕ) (types : ℕ → ItemType) (id : ℕ) (i : Item) (s : List ℕ)
    → IsKept id i
    → length s < fuel
    → (u : Unserialized) × (unserialize_attr fuel types i s ≡ some u) × IsUnserialized id u
unfolding read_attr unserialize_attr
loop_ends zero types id i s h le = absurd (omega (arith, le))
loop_ends (suc fuel) types id i s h le = elim (byte_cases s) [
  | inl e ↦ (behind_end, rw (e, unserialize_attr) refl, tt)
  | inr (inl (rest, e)) ↦ (returned true i rest, rw (e, unserialize_attr) refl, h)
  | inr (inr (attr, rest, e)) ↦ elim (Bool-cases (attr == 0)) [
    | inl f ↦ (returned true i rest, rw (e, f, unserialize_attr) refl, h)
    | inr f ↦
        let shorter = byte_read s attr rest e in
        let one = read_field-IsRead types (field_of attr) id i rest h in
        elim (attr_cases (read_attr types attr i rest)) [
          | inl g ↦ (behind_end, rw (e, f, g, unserialize_attr) refl, tt)
          | inr (inl (j, rest', g)) ↦
              let left = subst (IsRead (length rest) id) g one in
              (returned false j rest', rw (e, f, g, unserialize_attr) refl, left.1)
          | inr (inr (j, rest', g)) ↦
              let left = subst (IsRead (length rest) id) g one in
              let (u, k, l) =
                loop_ends fuel types id j rest' left.1 (omega (arith, left.0, shorter, le)) in
              (u, rw (e, f, g, unserialize_attr) k, l)
        ]
  ]
]

-- With one more step of fuel than there are bytes, `unserializeAttr` ends on every stream, whatever it
-- holds. It leaves the item's type and, whether it succeeds or not, the keys of its attributes in
-- order, unless it reads a string behind the end of the stream.
pub unserialize_attr-ends :
    (fuel : ℕ) (types : ℕ → ItemType) (i : Item) (s : List ℕ)
    → IsOrdered i.attributes
    → length s < fuel
    → (u : Unserialized) × (unserialize_attr fuel types i s ≡ some u) × IsUnserialized i.id u
unserialize_attr-ends fuel types i s o le = loop_ends fuel types i.id i s (o, refl) le
