-- ===== src/Network/Message/Write.antt =====
-- What the writing operations of a message add to it.
use model_lib.Prelude.{
  ℕ, ◌+◌, ◌-◌, ◌%◌, ◌≤◌, ◌<◌, ◌≡◌, ◌≢◌, refl, ap, sym, ◌∙◌, true, List, [], ◌∷◌, ◌++◌, length,
  length-append, take, arith,
}
use mathlib.Core.List.{append_assoc, append-nil}
use model_lib.Prelude.All.{All}
use model_lib.Prelude.Words.{u16_mod}
use model_lib.Position.{Position}
use model_lib.Network.Buffer.{length-write_at, length-to_bytes, take-write_at, to_bytes}
use model_lib.Network.Message.{
  Message, has_space, append, put, put_string, c_str, put_position, network_max_size,
}
use model_lib.Network.Message.Fields.{
  Field, num, text, place, put_field, put_fields, encode, encode_all, IsField,
}

-- The buffer has its full length and the position stands in it.
pub record IsMessage (m : Message) : Type 0 where
  pub full : length m.buffer ≡ network_max_size
  pub inside : m.position ≤ network_max_size

-- `m'` is `m` with `bytes` behind what has been written so far, and no other change that a reader
-- can see.
pub record Wrote (m : Message) (bytes : List ℕ) (m' : Message) : Type 0 where
  pub valid : IsMessage m'
  pub position : m'.position ≡ m.position + length bytes
  pub size : m'.size ≡ (m.size + length bytes) % u16_mod
  pub written : take m'.position m'.buffer ≡ take m.position m.buffer ++ bytes

pub Wrote-trans :
    {m m' m'' : Message} (xs bs : List ℕ) → Wrote m xs m' → Wrote m' bs m'' → Wrote m (xs ++ bs) m''
Wrote-trans {m} {m'} {m''} xs bs v w = record {
  valid = w.valid;
  position = omega (arith, v.position, w.position, length-append xs bs);
  size = omega (arith, v.size, w.size, length-append xs bs);
  written = w.written ∙ ap (λ t. t ++ bs) v.written ∙ append_assoc _ xs bs;
}

append-Wrote :
    (m : Message) (bytes more stored : List ℕ) (n : ℕ)
    → IsMessage m
    → stored ≡ bytes ++ more
    → n ≡ length bytes
    → m.position + n ≤ network_max_size
    → Wrote m bytes (append stored n m)
unfolding append
append-Wrote m bytes more stored n v e e' h = record {
  valid = record {
    full = length-write_at m.position stored m.buffer ∙ v.full;
    inside = omega arith;
  };
  position = omega arith;
  size = omega arith;
  written =
      rw e (take-write_at _ m.position bytes more m.buffer (omega (arith, v.full)) (omega arith));
}

pub has_space_of_lt :
    (m : Message) (n : ℕ) → m.position + n < network_max_size - 16 → has_space m n ≡ true
unfolding has_space
has_space_of_lt m n h = ground arith

-- A number that has room is appended, as its bytes.
pub put-Wrote :
    (n v : ℕ) (m : Message)
    → IsMessage m
    → m.position + n < network_max_size - 16
    → Wrote m (to_bytes n v) (put n v m)
unfolding put
put-Wrote n v m i h = rw (has_space_of_lt m n h) (
    append-Wrote m (to_bytes n v) [] (to_bytes n v) n i (sym (append-nil (to_bytes n v)))
      (sym (length-to_bytes n v)) (omega arith))

c_str_lem : (cs : List ℕ) → All (λ c. c ≢ 0) cs → c_str cs ≡ cs
unfolding c_str
c_str_lem [] h = refl
c_str_lem (c ∷ cs) h = ground (arith, c_str_lem cs h.1)

put_string-shape :
    (cs : List ℕ) (m : Message)
    → All (λ c. c ≢ 0) cs
    → length cs ≤ 8192
    → m.position + (length cs + 2) < network_max_size - 16
    → put_string cs true m ≡ append (cs ++ 0 ∷ []) (length cs) (put 2 (length cs) m)
unfolding put_string has_space
put_string-shape cs m nz l h = rw (c_str_lem cs nz) (ground arith)

-- A string that has room is appended, as its length and its bytes.
pub put_string-Wrote :
    (cs : List ℕ) (m : Message)
    → IsMessage m
    → All (λ c. c ≢ 0) cs
    → length cs ≤ 8192
    → m.position + (length cs + 2) < network_max_size - 16
    → Wrote m (to_bytes 2 (length cs) ++ cs) (put_string cs true m)
put_string-Wrote cs m i nz l h = rw (put_string-shape cs m nz l h) (
    Wrote-trans (to_bytes 2 (length cs)) cs size (
      append-Wrote _ cs (0 ∷ []) (cs ++ 0 ∷ []) (length cs) size.valid refl refl
        (omega (arith, size.position, length-to_bytes 2 (length cs)))))
  where
    size : Wrote m (to_bytes 2 (length cs)) (put 2 (length cs) m)
    size = put-Wrote 2 (length cs) m i (omega arith)

put_position-Wrote :
    (p : Position) (m : Message)
    → IsMessage m
    → m.position + 5 < network_max_size - 16
    → Wrote m (encode (place p)) (put_position p m)
unfolding put_position
put_position-Wrote p m i h = Wrote-trans (to_bytes 2 p.x) (to_bytes 2 p.y ++ to_bytes 1 p.z) x (
    Wrote-trans (to_bytes 2 p.y) (to_bytes 1 p.z) y (
      put-Wrote 1 p.z _ y.valid
        (omega (arith, x.position, y.position, length-to_bytes 2 p.x, length-to_bytes 2 p.y))))
  where
    x : Wrote m (to_bytes 2 p.x) (put 2 p.x m)
    x = put-Wrote 2 p.x m i (omega arith)

    y : Wrote (put 2 p.x m) (to_bytes 2 p.y) (put 2 p.y (put 2 p.x m))
    y = put-Wrote 2 p.y _ x.valid (omega (arith, x.position, length-to_bytes 2 p.x))

length-place : (p : Position) → length (encode (place p)) ≡ 5
unfolding to_bytes
length-place p = refl

put_field-Wrote :
    (f : Field) (m : Message)
    → IsMessage m
    → IsField f
    → m.position + length (encode f) < network_max_size - 16
    → Wrote m (encode f) (put_field f m)
unfolding put_field
put_field-Wrote (num n v) m i w h = put-Wrote n v m i (omega (arith, length-to_bytes n v))
put_field-Wrote (text cs) m i w h =
    put_string-Wrote cs m i w.0 w.1
      (omega (arith, length-append (to_bytes 2 (length cs)) cs, length-to_bytes 2 (length cs)))
put_field-Wrote (place p) m i w h = put_position-Wrote p m i (omega (arith, length-place p))

-- A sequence of fields for which there is room is appended, one behind the other.
pub put_fields-Wrote :
    (fs : List Field) (m : Message)
    → IsMessage m
    → All IsField fs
    → m.position + length (encode_all fs) < network_max_size - 16
    → m.size < u16_mod
    → Wrote m (encode_all fs) (put_fields fs m)
unfolding put_fields
put_fields-Wrote [] m i w h s = record {
  valid = i;
  position = omega arith;
  size = omega arith;
  written = sym (append-nil _);
}
put_fields-Wrote (f ∷ fs) m i w h s = Wrote-trans (encode f) (encode_all fs) first (
    put_fields-Wrote fs _ first.valid w.1
      (omega (arith, first.position, length-append (encode f) (encode_all fs)))
      (omega (arith, first.size)))
  where
    first : Wrote m (encode f) (put_field f m)
    first = put_field-Wrote f m i w.0 (omega (arith, length-append (encode f) (encode_all fs)))
