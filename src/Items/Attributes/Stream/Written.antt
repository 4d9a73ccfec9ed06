-- ===== src/Items/Attributes/Stream/Written.antt =====
-- What `serializeMap` of src/itemattributes.cpp writes, as properties, and how each entry is read.
use mathlib.Core.Path.{fun_ext}
use mathlib.Core.List.{append_assoc, append-nil}
use model_lib.Prelude.{
  ℕ, ◌+◌, ◌%◌, ◌^◌, ◌≤◌, ◌<◌, ◌≡◌, refl, ap, sym, ◌∙◌, true, false, ltb, leb, if◌then◌else◌, Option,
  none, some, ◌>>=◌, List, [], ◌∷◌, ◌++◌, length, length-append, take, take_all, arith, Bool-cases,
  inl, inr, subst,
}
use model_lib.Prelude.All.{All, All-append}
use model_lib.Prelude.Words.{u16_mod, u32_mod}
use model_lib.Network.Buffer.{to_bytes, length-to_bytes}
use model_lib.Files.Stream.{
  value, get_type, get_long_string, PropWriteStream, Property, num, text, long_text, add_type,
  add_string, add_long_string, add_prop, add_props,
}
use model_lib.Files.Stream.Room.{IsNarrow, cut, encode, encode_all}
use model_lib.Files.Stream.RoundTrip.{get_type-to_bytes, get_long_string-encode}
use model_lib.Items.Attributes.{
  ItemAttribute, untyped, string, integer, float, boolean, AttributeMap,
}
use model_lib.Items.Attributes.Stream.{
  type_of, serialize, cut_key, serialize_from, serialize_map, unserialize, unserialize_as,
}

-- The properties that an attribute and a map are written as.
abbrev pub payload : ItemAttribute → List Property
payload untyped = []
payload (string s) = long_text s ∷ []
payload (integer i) = num 4 i ∷ []
payload (float f) = num 4 f ∷ []
payload (boolean b) = num 1 (if b then 1 else 0) ∷ []

unfoldable pub entries : AttributeMap → List Property
unfolding payload
entries [] = []
entries ((k, v) ∷ m) = text (cut_key k) ∷ num 1 (type_of v) ∷ payload v ++ entries m

pub bind_assoc :
    {A B C : Type 0} (m : Option A) (f : A → Option B) (g : B → Option C)
    → (m >>= f >>= g) ≡ (m >>= (λ a. f a >>= g))
bind_assoc none f g = refl
bind_assoc (some a) f g = refl

serialize-add_props :
    (v : ItemAttribute) (ps : List Property) (s : PropWriteStream)
    → (serialize v s >>= add_props ps) ≡ add_props (num 1 (type_of v) ∷ payload v ++ ps) s
unfolding serialize add_props add_prop
serialize-add_props untyped ps s = refl
serialize-add_props (string t) ps s = bind_assoc (add_type 1 1 s) (add_long_string t) (add_props ps)
serialize-add_props (integer i) ps s = bind_assoc (add_type 1 2 s) (add_type 4 i) (add_props ps)
serialize-add_props (float f) ps s = bind_assoc (add_type 1 3 s) (add_type 4 f) (add_props ps)
serialize-add_props (boolean b) ps s =
    bind_assoc (add_type 1 4 s) (add_type 1 (if b then 1 else 0)) (add_props ps)

add_props_text :
    (k : List ℕ) (ps : List Property) (s : PropWriteStream)
    → add_props (text k ∷ ps) s ≡ (add_string k s >>= add_props ps)
unfolding add_props add_prop
add_props_text k ps s = refl

serialize_from-add_props :
    (i : ℕ) (m : AttributeMap) (s : PropWriteStream)
    → i + length m ≤ 0xFFFF + 1
    → serialize_from i m s ≡ add_props (entries m) s
unfolding serialize_from entries
serialize_from-add_props i [] s le = unfold add_props in refl
serialize_from-add_props i ((k, v) ∷ m) s le =
    let here : leb i 0xFFFF ≡ true = ground (arith, le) in
    let rest = λ (t : PropWriteStream).
      ap (λ (g : PropWriteStream → Option PropWriteStream). serialize v t >>= g)
        (fun_ext (λ u. serialize_from-add_props (i + 1) m u (omega (arith, le))))
      ∙ serialize-add_props v (entries m) t in
    rw here (
      ap (λ (g : PropWriteStream → Option PropWriteStream). add_string (cut_key k) s >>= g)
        (fun_ext rest)
      ∙ sym (add_props_text (cut_key k) (num 1 (type_of v) ∷ payload v ++ entries m) s))

pub serialize_map-add_props :
    (m : AttributeMap) (s : PropWriteStream)
    → length m ≤ 0xFFFF
    → serialize_map m s ≡ add_props (num 2 (length m) ∷ entries m) s
unfolding serialize_map add_props add_prop
serialize_map-add_props m s le =
    let size : (if ltb (length m) 0xFFFF then length m else 0xFFFF) ≡ length m =
      ground (arith, le) in
    ap (λ n. add_type 2 n s >>= serialize_from 0 m) size
    ∙ ap (λ (g : PropWriteStream → Option PropWriteStream). add_type 2 (length m) s >>= g)
        (fun_ext (λ t. serialize_from-add_props 0 m t (omega (arith, le))))

-- A value that fits: numbers are of 32 bits, and strings are shorter than 2 ^ 16 bytes.
abbrev pub IsFine : ItemAttribute → Type 0
IsFine untyped = Unit
IsFine (string s) = length s < u16_mod
IsFine (integer i) = i < u32_mod
IsFine (float f) = f < u32_mod
IsFine (boolean b) = Unit

pub cut_whole : (cs : List ℕ) → length cs < u16_mod → cut cs ≡ cs
cut_whole cs h = take_all cs (length cs % u16_mod) (omega (arith, h))

pub unserialize_type :
    (v : ItemAttribute) (rest : List ℕ)
    → 1 + length rest < 2 ^ 31
    → unserialize (encode (num 1 (type_of v)) ++ rest) ≡ unserialize_as (type_of v) rest
unfolding unserialize encode
unserialize_type v rest less =
    rw (get_type-to_bytes 1 (type_of v) rest (small v) less, unserialize) refl
  where
    small : (v : ItemAttribute) → type_of v < 256 ^ 1
    small untyped = omega arith
    small (string s) = omega arith
    small (integer i) = omega arith
    small (float f) = omega arith
    small (boolean b) = omega arith

pub behind_number :
    (w n : ℕ) (rest : List ℕ) → length (to_bytes w n ++ rest) < 2 ^ 31 → w + length rest < 2 ^ 31
behind_number w n rest less =
    omega (arith, less, length-append (to_bytes w n) rest, length-to_bytes w n)

-- A number, alone.
get_type_alone :
    (w n : ℕ) (rest : List ℕ)
    → n < 256 ^ w
    → length ((to_bytes w n ++ []) ++ rest) < 2 ^ 31
    → get_type w ((to_bytes w n ++ []) ++ rest) ≡ value n rest
get_type_alone w n rest h less =
    let alone = append-nil (to_bytes w n) in
    let less' : length (to_bytes w n ++ rest) < 2 ^ 31 =
      subst (λ bs. length (bs ++ rest) < 2 ^ 31) alone less in
    ap (λ bs. get_type w (bs ++ rest)) alone
    ∙ get_type-to_bytes w n rest h (behind_number w n rest less')

pub unserialize_payload :
    (v : ItemAttribute) (rest : List ℕ)
    → IsFine v
    → length (encode_all (payload v) ++ rest) < 2 ^ 31
    → unserialize_as (type_of v) (encode_all (payload v) ++ rest) ≡ value v rest
unfolding unserialize_as encode_all encode
unserialize_payload untyped rest h less = refl
unserialize_payload (string s) rest h less =
    let alone = append-nil (encode (long_text s)) in
    let less' : length (encode (long_text s) ++ rest) < 2 ^ 31 =
      subst (λ bs. length (bs ++ rest) < 2 ^ 31) alone less in
    let whole : get_long_string ((encode (long_text s) ++ []) ++ rest) ≡ value s rest =
      ap (λ bs. get_long_string (bs ++ rest)) alone
      ∙ get_long_string-encode s rest less'
      ∙ ap (λ t. value t rest) (cut_whole s h) in
    rw whole refl
unserialize_payload (integer i) rest h less = rw (get_type_alone 4 i rest h less) refl
unserialize_payload (float f) rest h less = rw (get_type_alone 4 f rest h less) refl
unserialize_payload (boolean true) rest h less =
    rw (get_type_alone 1 1 rest (omega arith) less) refl
unserialize_payload (boolean false) rest h less =
    rw (get_type_alone 1 0 rest (omega arith) less) refl

encode_all-append : (ps qs : List Property) → encode_all (ps ++ qs) ≡ encode_all ps ++ encode_all qs
unfolding encode_all
encode_all-append [] qs = refl
encode_all-append (p ∷ ps) qs =
    ap (λ bs. encode p ++ bs) (encode_all-append ps qs)
    ∙ sym (append_assoc (encode p) (encode_all ps) (encode_all qs))

-- The bytes of the first entry of a map.
pub entry_bytes :
    (k : List ℕ) (v : ItemAttribute) (m : AttributeMap) (rest : List ℕ)
    → encode_all (entries ((k, v) ∷ m)) ++ rest
      ≡ encode (text (cut_key k))
        ++ (encode (num 1 (type_of v))
            ++ (encode_all (payload v) ++ (encode_all (entries m) ++ rest)))
unfolding entries encode_all
entry_bytes k v m rest =
    let key = encode (text (cut_key k)) in
    let type = encode (num 1 (type_of v)) in
    let body = encode_all (payload v) in
    let others = encode_all (entries m) in
    ap (λ bs. (key ++ (type ++ bs)) ++ rest) (encode_all-append (payload v) (entries m))
    ∙ append_assoc key (type ++ (body ++ others)) rest
    ∙ ap (λ bs. key ++ bs) (append_assoc type (body ++ others) rest)
    ∙ ap (λ bs. key ++ (type ++ bs)) (append_assoc body others rest)

-- An entry whose key and value are read back as they are.
abbrev pub IsWritable : List ℕ × ItemAttribute → Type 0
IsWritable (k, v) = (length k < u16_mod) × IsFine v

cut_at : (n : ℕ) (k : List ℕ) → length k ≤ n → (if ltb n (length k) then take n k else k) ≡ k
cut_at n k h = elim (Bool-cases (ltb n (length k))) [
  | inl e ↦ absurd (ground (arith, e, h))
  | inr e ↦ rw e refl
]

pub cut_key_whole : (k : List ℕ) → length k < u16_mod → cut_key k ≡ k
cut_key_whole k h = cut_at 0xFFFF k (omega (arith, h))

IsNarrow-payload : (v : ItemAttribute) → All IsNarrow (payload v)
IsNarrow-payload untyped = tt
IsNarrow-payload (string s) = (tt, tt)
IsNarrow-payload (integer i) = (omega arith, tt)
IsNarrow-payload (float f) = (omega arith, tt)
IsNarrow-payload (boolean b) = (omega arith, tt)

pub IsNarrow-entries : (m : AttributeMap) → All IsNarrow (entries m)
unfolding entries
IsNarrow-entries [] = tt
IsNarrow-entries ((k, v) ∷ m) = (
  tt,
  (
    omega arith,
    All-append IsNarrow (payload v) (entries m) (IsNarrow-payload v) (IsNarrow-entries m),
  ),
)

pub length-count :
    (n : ℕ) (ps : List Property) → length (encode_all (num 2 n ∷ ps)) ≡ 2 + length (encode_all ps)
unfolding encode_all encode
length-count n ps = omega (arith, length-append (to_bytes 2 n) (encode_all ps), length-to_bytes 2 n)
