-- ===== src/Items/Attributes/Stream/RoundTrip.antt =====
-- What `serializeMap` of src/itemattributes.cpp writes, `unserializeMap` reads.
use mathlib.Core.List.{append_assoc, append-nil}
use model_lib.Prelude.{
  ℕ, ◌+◌, ◌≤◌, ◌<◌, ◌≡◌, refl, ap, sym, ◌∙◌, subst, true, Option, none, some, List, [], ◌∷◌, ◌++◌,
  length, arith, Bool-cases, inl, inr, ◌^◌, length-append,
}
use model_lib.Prelude.All.{All}
use model_lib.Network.Buffer.{to_bytes}
use model_lib.Files.Stream.{value, PropWriteStream, num, text}
use model_lib.Files.Stream.Room.{HasRoom, cut, encode, encode_all, add_props-encode_all}
use model_lib.Files.Stream.RoundTrip.{get_type-to_bytes, get_string-encode, behind_part}
use model_lib.Items.Attributes.{
  ItemAttribute, AttributeMap, Attributes, put, find, create_attributes, find_attribute, string_lt,
  string_eq,
}
use model_lib.Items.Attributes.Order.{
  IsSorted, IsAbove, IsOrdered, find-put, find-IsAbove, eq_of_string_eq, string_lt_trans,
  create-IsSorted, put-IsSorted, find-create,
}
use model_lib.Items.Attributes.Stream.{
  type_of, cut_key, serialize_map, loaded, unserialize_entries, unserialize_map,
}
use model_lib.Items.Attributes.Stream.Written.{
  entries, payload, serialize_map-add_props, cut_whole, unserialize_type, unserialize_payload,
  behind_number, entry_bytes, IsWritable, cut_key_whole, IsNarrow-entries, length-count,
}

-- The entries of a map put into another one in order.
unfoldable pub put_all : AttributeMap → AttributeMap → AttributeMap
put_all [] a = a
put_all ((k, v) ∷ m) a = put_all m (put k v a)

unserialize_entries-entries :
    (m a : AttributeMap) (rest : List ℕ)
    → All IsWritable m
    → length (encode_all (entries m) ++ rest) < 2 ^ 31
    → unserialize_entries (length m) a (encode_all (entries m) ++ rest)
      ≡ loaded true (some (put_all m a)) rest
unfolding unserialize_entries put_all
unserialize_entries-entries [] a rest h less = unfold entries encode_all in refl
unserialize_entries-entries ((k, v) ∷ m) a rest ((short, fine), h) less =
    let behind = encode_all (entries m) ++ rest in
    let whole : length (
          encode (text (cut_key k))
          ++ (encode (num 1 (type_of v)) ++ (encode_all (payload v) ++ behind)))
        < 2 ^ 31 =
      omega (arith, less, ap length (entry_bytes k v m rest)) in
    let typed = behind_part (encode (text (cut_key k))) _ whole in
    let paid : length (encode_all (payload v) ++ behind) < 2 ^ 31 =
      behind_part (encode (num 1 (type_of v))) _ typed in
    let others = behind_part (encode_all (payload v)) behind paid in
    let key =
      get_string-encode (cut_key k)
        (encode (num 1 (type_of v)) ++ (encode_all (payload v) ++ behind)) whole
      ∙ ap (λ ds. value ds (encode (num 1 (type_of v)) ++ (encode_all (payload v) ++ behind)))
          (ap cut (cut_key_whole k short) ∙ cut_whole k short) in
    let attribute =
      unserialize_type v (encode_all (payload v) ++ behind)
        (unfold encode in behind_number 1 (type_of v) (encode_all (payload v) ++ behind) typed)
      ∙ unserialize_payload v behind fine paid in
    rw (entry_bytes k v m rest, key, attribute)
      (unserialize_entries-entries m (put k v a) rest h others)

put_all-IsSorted : (m a : AttributeMap) → IsSorted a → IsSorted (put_all m a)
unfolding put_all
put_all-IsSorted [] a s = s
put_all-IsSorted ((k, v) ∷ m) a s = put_all-IsSorted m (put k v a) (put-IsSorted k v a s)

-- The later entry of a key wins.
abbrev pub or_else : Option ItemAttribute → Option ItemAttribute → Option ItemAttribute
or_else none o = o
or_else (some v) o = some v

find-put_all :
    (j : List ℕ) (m a : AttributeMap)
    → IsSorted m
    → find j (put_all m a) ≡ or_else (find j m) (find j a)
unfolding put_all find
find-put_all j [] a s = refl
find-put_all j ((k, v) ∷ m) a (above, s) =
    let step = find-put_all j m (put k v a) s ∙ ap (or_else (find j m)) (find-put j k v a) in
    elim (Bool-cases (string_eq k j)) [
      | inl e ↦
          let same = eq_of_string_eq k j e in
          let absent : find j m ≡ none = find-IsAbove j m (subst (λ x. IsAbove x m) same above) in
          step ∙ rw (absent, e) refl
      | inr e ↦ step ∙ rw e refl
    ]

-- Entries above all that are there go to the end.
IsBelow : AttributeMap → List ℕ → Type 0
IsBelow a k = All (λ e. string_lt e.0 k ≡ true) a

put_last :
    (a : AttributeMap) (k : List ℕ) (v : ItemAttribute) → IsBelow a k → put k v a ≡ a ++ (k, v) ∷ []
unfolding put IsBelow
put_last [] k v b = refl
put_last ((j, w) ∷ a) k v (b, bs) = rw (b, put_last a k v bs) refl

IsBelow-more :
    (a : AttributeMap) (k j : List ℕ) (v : ItemAttribute)
    → IsBelow a k
    → string_lt k j ≡ true
    → IsBelow (a ++ (k, v) ∷ []) j
unfolding IsBelow
IsBelow-more [] k j v b h = (h, tt)
IsBelow-more ((i, w) ∷ a) k j v (b, bs) h = (string_lt_trans i k j b h, IsBelow-more a k j v bs h)

put_all_behind :
    (m a : AttributeMap) → IsSorted m → All (λ e. IsBelow a e.0) m → put_all m a ≡ a ++ m
unfolding put_all
put_all_behind [] a s b = sym (append-nil a)
put_all_behind ((k, v) ∷ m) a (above, s) (b, bs) =
    ap (put_all m) (put_last a k v b)
    ∙ put_all_behind m (a ++ (k, v) ∷ []) s (all_below m above)
    ∙ append_assoc a ((k, v) ∷ []) m
  where
    all_below : (n : AttributeMap) → IsAbove k n → All (λ e. IsBelow (a ++ (k, v) ∷ []) e.0) n
    all_below [] x = tt
    all_below ((j, w) ∷ n) (x, xs) = (IsBelow-more a k j v b x, all_below n xs)

IsBelow-nil : (m : AttributeMap) → All (λ e. IsBelow [] e.0) m
unfolding IsBelow
IsBelow-nil [] = tt
IsBelow-nil (e ∷ m) = (tt, IsBelow-nil m)

pub put_all-nil : (m : AttributeMap) → IsSorted m → put_all m [] ≡ m
put_all-nil m s = put_all_behind m [] s (IsBelow-nil m)

pub unserialize_map-entries :
    (m : AttributeMap) (a : Attributes)
    → All IsWritable m
    → length m ≤ 0xFFFF
    → length (encode_all (num 2 (length m) ∷ entries m) ++ []) < 2 ^ 31
    → unserialize_map a (encode_all (num 2 (length m) ∷ entries m) ++ [])
      ≡ loaded true (some (put_all m (create_attributes a))) []
unfolding unserialize_map encode_all encode
unserialize_map-entries m a fine few less =
    let behind = encode_all (entries m) ++ [] in
    let apart = append_assoc (to_bytes 2 (length m)) (encode_all (entries m)) [] in
    let whole : length (to_bytes 2 (length m) ++ behind) < 2 ^ 31 =
      omega (arith, less, ap length apart) in
    let others = behind_part (to_bytes 2 (length m)) behind whole in
    let count =
      get_type-to_bytes 2 (length m) behind (omega (arith, few))
        (behind_number 2 (length m) behind whole) in
    ap (unserialize_map a) apart
    ∙ rw (count, unserialize_map)
        (unserialize_entries-entries m (create_attributes a) [] fine others)

-- A map written into an empty stream is read back as it was, up to the end of the stream; and when it
-- is read into attributes that are there already, then a key is found as in the map, or, if it is not
-- in the map, as before, and the keys stay in order. The map's keys are in order, it has at most 65535
-- of them, the keys and strings are shorter than 2 ^ 16 bytes, the numbers are of 32 bits, and all
-- together stays below 2 GB.
pub unserialize_map-serialize_map :
    (m : AttributeMap) (a : Attributes) (s : PropWriteStream)
    → s.bytes ≡ []
    → HasRoom s
    → IsSorted m
    → IsOrdered a
    → All IsWritable m
    → length m ≤ 0xFFFF
    → length (encode_all (entries m)) + 2 < 2 ^ 31
    → (t : PropWriteStream) × (b : AttributeMap) × (serialize_map m s ≡ some t)
      × (unserialize_map none t.bytes ≡ loaded true (some m) [])
      × (unserialize_map a t.bytes ≡ loaded true (some b) [])
      × IsSorted b
      × ((k : List ℕ) → find k b ≡ or_else (find k m) (find_attribute k a))
unfolding create_attributes
unserialize_map-serialize_map m a s fresh room sorted ordered fine few total =
    let ps = num 2 (length m) ∷ entries m in
    let size : length (encode_all ps) ≡ 2 + length (encode_all (entries m)) =
      length-count (length m) (entries m) in
    let (t, e, bytes, room') =
      add_props-encode_all ps s (omega arith, IsNarrow-entries m) room
        (omega (arith, ap length fresh, size, total)) in
    let whole : t.bytes ≡ encode_all ps ++ [] =
      bytes ∙ ap (λ xs. xs ++ encode_all ps) fresh ∙ sym (append-nil (encode_all ps)) in
    let less : length (encode_all ps ++ []) < 2 ^ 31 =
      omega (arith, size, total, length-append (encode_all ps) []) in
    (
      t,
      put_all m (create_attributes a),
      serialize_map-add_props m s few ∙ e,
      ap (unserialize_map none) whole
          ∙ unserialize_map-entries m none fine few less
          ∙ ap (λ n. loaded true (some n) []) (put_all-nil m sorted),
      ap (unserialize_map a) whole ∙ unserialize_map-entries m a fine few less,
      put_all-IsSorted m (create_attributes a) (create-IsSorted a ordered),
      λ k.
          find-put_all k m (create_attributes a) sorted ∙ ap (or_else (find k m)) (find-create k a),
    )
