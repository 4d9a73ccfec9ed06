-- ===== src/Items/Attributes/Stream/Loading.antt =====
-- `unserializeMap` of src/itemattributes.cpp on any stream.
use model_lib.Prelude.{
  ℕ, zero, suc, ◌≤◌, Bool, true, false, if◌then◌else◌, List, length, length-drop, arith, Bool-cases,
  inl, inr, ltb, ◌==◌,
}
use model_lib.Files.Stream.{
  Read, overrun, refused, value, read_then, is_short, is_short_signed, get_type, get_string,
  get_long_string, get_bytes,
}
use model_lib.Items.Attributes.{ItemAttribute, AttributeMap, Attributes, put, create_attributes}
use model_lib.Items.Attributes.Order.{IsOrdered, IsSorted, put-IsSorted, create-IsSorted}
use model_lib.Items.Attributes.Stream.{
  Loaded, crashed, loaded, loaded_then, unserialize, unserialize_as, unserialize_entries,
  unserialize_map,
}

-- A read leaves no more bytes than there were.
abbrev pub Shrinks {ℓ} : {A : Type ℓ} → ℕ → Read A → Type 0
Shrinks n overrun = Unit
Shrinks n (refused rest) = length rest ≤ n
Shrinks n (value a rest) = length rest ≤ n

pub Shrinks-le {ℓ} : {A : Type ℓ} (m n : ℕ) (r : Read A) → m ≤ n → Shrinks m r → Shrinks n r
Shrinks-le m n overrun le s = tt
Shrinks-le m n (refused rest) le s = omega (arith, le, s)
Shrinks-le m n (value a rest) le s = omega (arith, le, s)

pub read_then-Shrinks {ℓ κ} :
    {A : Type ℓ} {B : Type κ} (n : ℕ) (r : Read A) (k : A → List ℕ → Read B)
    → Shrinks n r
    → ((a : A) (rest : List ℕ) → Shrinks (length rest) (k a rest))
    → Shrinks n (read_then r k)
read_then-Shrinks n overrun k s f = tt
read_then-Shrinks n (refused rest) k s f = s
read_then-Shrinks n (value a rest) k s f = Shrinks-le (length rest) n (k a rest) s (f a rest)

pub get_type-Shrinks : (w : ℕ) (s : List ℕ) → Shrinks (length s) (get_type w s)
unfolding get_type
get_type-Shrinks w s = elim (Bool-cases (is_short w s)) [
  | inl e ↦ rw e (omega arith)
  | inr e ↦ rw e (omega (arith, length-drop w s))
]

get_bytes-Shrinks : (w : ℕ) (s : List ℕ) → Shrinks (length s) (get_bytes w s)
unfolding get_bytes
get_bytes-Shrinks w s = elim (Bool-cases (ltb (length s) w)) [
  | inl e ↦ rw e tt
  | inr e ↦ rw e (omega (arith, length-drop w s))
]

pub if-Shrinks {ℓ} :
    {A : Type ℓ} (n : ℕ) (b : Bool) (r q : Read A)
    → Shrinks n r
    → Shrinks n q
    → Shrinks n (if b then r else q)
if-Shrinks n true r q s t = s
if-Shrinks n false r q s t = t

pub get_string-Shrinks : (s : List ℕ) → Shrinks (length s) (get_string s)
unfolding get_string
get_string-Shrinks s =
    read_then-Shrinks (length s) (get_type 2 s) _ (get_type-Shrinks 2 s) (λ len rest.
      if-Shrinks (length rest) (is_short len rest) _ _ (omega arith) (get_bytes-Shrinks len rest))

get_long_string-Shrinks : (s : List ℕ) → Shrinks (length s) (get_long_string s)
unfolding get_long_string
get_long_string-Shrinks s =
    read_then-Shrinks (length s) (get_type 4 s) _ (get_type-Shrinks 4 s) (λ len rest.
      if-Shrinks (length rest) (is_short_signed len rest) _ _ (omega arith)
        (get_bytes-Shrinks len rest))

unserialize_as-Shrinks : (t : ℕ) (s : List ℕ) → Shrinks (length s) (unserialize_as t s)
unfolding unserialize_as
unserialize_as-Shrinks t s =
    if-Shrinks (length s) (t == 1) _ _
      (read_then-Shrinks (length s) (get_long_string s) _ (get_long_string-Shrinks s)
        (λ v rest. omega arith))
      (if-Shrinks (length s) (t == 2) _ _
        (read_then-Shrinks (length s) (get_type 4 s) _ (get_type-Shrinks 4 s)
          (λ v rest. omega arith))
        (if-Shrinks (length s) (t == 3) _ _
          (read_then-Shrinks (length s) (get_type 4 s) _ (get_type-Shrinks 4 s)
            (λ v rest. omega arith))
          (if-Shrinks (length s) (t == 4) _ _
            (read_then-Shrinks (length s) (get_type 1 s) _ (get_type-Shrinks 1 s)
              (λ v rest. omega arith))
            (omega arith))))

unserialize-Shrinks : (s : List ℕ) → Shrinks (length s) (unserialize s)
unfolding unserialize
unserialize-Shrinks s = by_type (get_type 1 s) (get_type-Shrinks 1 s)
  where
    by_type :
        (r : Read ℕ)
        → Shrinks (length s) r
        → Shrinks (length s) (elim r as (λ r. Read ItemAttribute) [
          | overrun ↦ overrun
          | refused rest ↦ unserialize_as 0 rest
          | value type rest ↦ unserialize_as type rest
        ])
    by_type overrun h = tt
    by_type (refused rest) h =
        Shrinks-le (length rest) (length s) (unserialize_as 0 rest) h
          (unserialize_as-Shrinks 0 rest)
    by_type (value t rest) h =
        Shrinks-le (length rest) (length s) (unserialize_as t rest) h
          (unserialize_as-Shrinks t rest)

-- Attributes that are loaded, in part or as a whole, have their keys in order, and leave no more bytes
-- than there were.
abbrev pub IsLoaded : ℕ → Loaded → Type 0
IsLoaded n crashed = Unit
IsLoaded n (loaded b a rest) = IsOrdered a × (length rest ≤ n)

IsLoaded-le : (m n : ℕ) (l : Loaded) → m ≤ n → IsLoaded m l → IsLoaded n l
IsLoaded-le m n crashed le s = tt
IsLoaded-le m n (loaded b a rest) le (o, s) = (o, omega (arith, le, s))

loaded_then-IsLoaded {ℓ} :
    {A : Type ℓ} (n : ℕ) (m : AttributeMap) (r : Read A) (k : A → List ℕ → Loaded)
    → IsSorted m
    → Shrinks n r
    → ((a : A) (rest : List ℕ) → IsLoaded (length rest) (k a rest))
    → IsLoaded n (loaded_then m r k)
loaded_then-IsLoaded n m overrun k o s f = tt
loaded_then-IsLoaded n m (refused rest) k o s f = (o, s)
loaded_then-IsLoaded n m (value a rest) k o s f =
    IsLoaded-le (length rest) n (k a rest) s (f a rest)

unserialize_entries-IsLoaded :
    (n : ℕ) (m : AttributeMap) (s : List ℕ)
    → IsSorted m
    → IsLoaded (length s) (unserialize_entries n m s)
unfolding unserialize_entries
unserialize_entries-IsLoaded zero m s o = (o, omega arith)
unserialize_entries-IsLoaded (suc n) m s o =
    loaded_then-IsLoaded (length s) m (get_string s) _ o (get_string-Shrinks s) (λ k rest.
      loaded_then-IsLoaded (length rest) m (unserialize rest) _ o (unserialize-Shrinks rest)
        (λ v rest'. unserialize_entries-IsLoaded n (put k v m) rest' (put-IsSorted k v m o)))

-- Whatever bytes the stream has, and whether the map is read to its end or not, the keys of the
-- attributes stay in order, and the stream only moves on, unless a string is read behind its end.
pub unserialize_map-IsLoaded :
    (a : Attributes) (s : List ℕ) → IsOrdered a → IsLoaded (length s) (unserialize_map a s)
unfolding unserialize_map
unserialize_map-IsLoaded a s o = by_count (get_type 2 s) (get_type-Shrinks 2 s)
  where
    by_count :
        (r : Read ℕ)
        → Shrinks (length s) r
        → IsLoaded (length s) (elim r as (λ r. Loaded) [
          | overrun ↦ crashed
          | refused rest ↦ loaded true a rest
          | value n rest ↦ unserialize_entries n (create_attributes a) rest
        ])
    by_count overrun h = tt
    by_count (refused rest) h = (o, h)
    by_count (value n rest) h =
        IsLoaded-le (length rest) (length s) (unserialize_entries n (create_attributes a) rest) h
          (unserialize_entries-IsLoaded n (create_attributes a) rest (create-IsSorted a o))
