-- ===== src/Network/Message/RoundTrip.antt =====
-- What is read out of a message is what has been put in.
use model_lib.Prelude.{
  ℕ, ◌+◌, ◌-◌, ◌^◌, ◌≤◌, ◌<◌, ◌≡◌, refl, ap, sym, subst, ◌∙◌, false, some, List, [], ◌∷◌, ◌++◌,
  length, length-append, length-take, take, drop, drop-drop, drop-take, drop-append, take_of_append,
  arith,
}
use mathlib.Core.List.{append_assoc}
use model_lib.Prelude.All.{All}
use model_lib.Prelude.Words.{u16_mod}
use model_lib.Position.{Position}
use model_lib.Network.Buffer.{to_bytes, of_bytes, length-to_bytes, of_bytes-to_bytes}
use model_lib.Network.Message.{Message, get, get_string, copy_out, get_position, network_max_size}
use model_lib.Network.Message.Fields.{
  Field, num, text, place, kind, kinds, get_field, get_fields, put_fields, encode, encode_all,
  IsField,
}
use model_lib.Network.Message.Write.{IsMessage, Wrote, put_fields-Wrote}

-- `bytes` stands at the position of `m`.
record Holds (m : Message) (bytes : List ℕ) : Type 0 where
  here : take (length bytes) (drop m.position m.buffer) ≡ bytes
  inside : m.position + length bytes ≤ network_max_size

advance : ℕ → Message → Message
advance n m = record m { position = m.position + n }

module _ (m : Message) (xs ys : List ℕ) (h : Holds m (xs ++ ys)) where
  Holds-head : take (length xs) (drop m.position m.buffer) ≡ xs
  Holds-head = (take_of_append xs ys _ h.here).0

  Holds-room : m.position + length xs + length ys ≤ network_max_size
  Holds-room = omega (arith, h.inside, length-append xs ys)

  Holds-tail : Holds (advance (length xs) m) ys
  unfolding advance
  Holds-tail = record {
    here =
        ap (take (length ys)) (drop-drop m.position (length xs) _ m.buffer refl)
        ∙ (take_of_append xs ys _ h.here).1;
    inside = Holds-room;
  }

-- The value that `get` computes at a number's bytes.
num-value :
    (n v : ℕ) (m : Message) (rest : List ℕ)
    → v < 256 ^ n
    → Holds m (to_bytes n v ++ rest)
    → of_bytes (take n (drop m.position m.buffer)) ≡ v
num-value n v m rest fits h =
    ap of_bytes (
      subst (λ k. take k (drop m.position m.buffer) ≡ to_bytes n v) (length-to_bytes n v)
        (Holds-head m (to_bytes n v) rest h))
    ∙ of_bytes-to_bytes n v fits

get-num :
    (n v : ℕ) (m : Message) (rest : List ℕ)
    → v < 256 ^ n
    → Holds m (to_bytes n v ++ rest)
    → get n false m ≡ some (v, advance n m)
unfolding get advance
get-num n v m rest fits h =
    ground
      (arith, num-value n v m rest fits h, Holds-room m (to_bytes n v) rest h, length-to_bytes n v)

num-tail :
    (n v : ℕ) (m : Message) (rest : List ℕ)
    → Holds m (to_bytes n v ++ rest)
    → Holds (advance n m) rest
num-tail n v m rest h =
    subst (λ k. Holds (advance k m) rest) (length-to_bytes n v) (Holds-tail m (to_bytes n v) rest h)

copy_out-text :
    (cs rest : List ℕ) (m : Message)
    → Holds m (cs ++ rest)
    → copy_out false (length cs) m ≡ some (cs, advance (length cs) m)
unfolding copy_out advance
copy_out-text cs rest m h = ground (arith, Holds-head m cs rest h, Holds-room m cs rest h)

-- The message behind a field that has been read.
after : Field → Message → Message
after (num n v) m = advance n m
after (text cs) m = advance (length cs) (advance 2 m)
after (place p) m = advance 1 (advance 2 (advance 2 m))

get_string-text :
    (cs rest : List ℕ) (m : Message)
    → length cs ≤ 8192
    → Holds m (to_bytes 2 (length cs) ++ (cs ++ rest))
    → get_string false 0 m ≡ some (cs, advance (length cs) (advance 2 m))
unfolding get_string
get_string-text cs rest m l h =
    rw (get-num 2 (length cs) m (cs ++ rest) (omega arith) h)
      (copy_out-text cs rest (advance 2 m) (num-tail 2 (length cs) m (cs ++ rest) h))

get_position-place :
    (p : Position) (m : Message) (rest : List ℕ)
    → IsField (place p)
    → Holds m (to_bytes 2 p.x ++ (to_bytes 2 p.y ++ (to_bytes 1 p.z ++ rest)))
    → (get_position m ≡ some (p, after (place p) m)) × Holds (after (place p) m) rest
unfolding get_position after
get_position-place p m rest w h = (
  rw
      (
        get-num 2 p.x m _ (omega arith) h,
        get-num 2 p.y _ _ (omega arith) y,
        get-num 1 p.z _ _ (omega arith) z,
      )
      (ground arith),
  num-tail 1 p.z _ rest z,
)
  where
    y : Holds (advance 2 m) (to_bytes 2 p.y ++ (to_bytes 1 p.z ++ rest))
    y = num-tail 2 p.x m _ h

    z : Holds (advance 2 (advance 2 m)) (to_bytes 1 p.z ++ rest)
    z = num-tail 2 p.y _ _ y

get_field-field :
    (f : Field) (m : Message) (rest : List ℕ)
    → IsField f
    → Holds m (encode f ++ rest)
    → (get_field (kind f) m ≡ some (f, after f m)) × Holds (after f m) rest
unfolding get_field after
get_field-field (num n v) m rest w h = (rw (get-num n v m rest w h), num-tail n v m rest h)
get_field-field (text cs) m rest w h = (
  rw (get_string-text cs rest m w.1 h'),
  Holds-tail (advance 2 m) cs rest (num-tail 2 (length cs) m (cs ++ rest) h'),
)
  where
    h' : Holds m (to_bytes 2 (length cs) ++ (cs ++ rest))
    h' = subst (Holds m) (append_assoc (to_bytes 2 (length cs)) cs rest) h
get_field-field (place p) m rest w h =
    let r = get_position-place p m rest w (subst (Holds m) regroup h) in (rw r.0, r.1)
  where
    regroup :
        encode (place p) ++ rest ≡ to_bytes 2 p.x ++ (to_bytes 2 p.y ++ (to_bytes 1 p.z ++ rest))
    regroup = simp append_assoc

after_all : List Field → Message → Message
after_all [] m = m
after_all (f ∷ fs) m = after_all fs (after f m)

get_fields-encode_all :
    (fs : List Field) (m : Message)
    → All IsField fs
    → Holds m (encode_all fs)
    → get_fields (kinds fs) m ≡ some (fs, after_all fs m)
unfolding get_fields after_all
get_fields-encode_all [] m w h = refl
get_fields-encode_all (f ∷ fs) m w h =
    let r = get_field-field f m (encode_all fs) w.0 h in
    rw (r.0, get_fields-encode_all fs (after f m) w.1 r.1)

Wrote-Holds :
    (m m' : Message) (bytes : List ℕ)
    → IsMessage m
    → Wrote m bytes m'
    → Holds (record m' { position = m.position }) bytes
Wrote-Holds m m' bytes i w = record {
  here =
      sym (drop-take m.position (length bytes) m'.position m'.buffer w.position)
      ∙ ap (drop m.position) w.written
      ∙ behind;
  inside = omega (arith, w.position, w.valid.inside);
}
  where
    behind : drop m.position (take m.position m.buffer ++ bytes) ≡ bytes
    behind =
        subst (λ k. drop k (take m.position m.buffer ++ bytes) ≡ bytes)
          (length-take m.position m.buffer (omega (arith, i.full, i.inside)))
          (drop-append (take m.position m.buffer) bytes)

position-after : (f : Field) (m : Message) → (after f m).position ≡ m.position + length (encode f)
unfolding after advance to_bytes
position-after (num n v) m = omega (arith, length-to_bytes n v)
position-after (text cs) m = omega arith
position-after (place p) m = omega arith

position-after_all :
    (fs : List Field) (m : Message)
    → (after_all fs m).position ≡ m.position + length (encode_all fs)
unfolding after_all
position-after_all [] m = omega arith
position-after_all (f ∷ fs) m = omega (
  arith,
  position-after f m,
  position-after_all fs (after f m),
  length-append (encode f) (encode_all fs),
)

-- Fields that fit their types and for which there is room (the counters within the array and within
-- `uint16_t`) are read back in order, each with its value, from the position where the first one was
-- put; the reader ends at the position where the writer ended.
pub get_fields-put_fields :
    (fs : List Field) (m : Message)
    → IsMessage m
    → m.size < u16_mod
    → All IsField fs
    → m.position + length (encode_all fs) < network_max_size - 16
    → let sent = put_fields fs m in
      (r : Message) × (get_fields (kinds fs) (record sent { position = m.position }) ≡ some (fs, r))
      × (r.position ≡ sent.position)
get_fields-put_fields fs m i s w room =
    let sent = put_fields-Wrote fs m i w room s in
    let start = record (put_fields fs m) { position = m.position } in
    (
      after_all fs start,
      get_fields-encode_all fs start w (Wrote-Holds m (put_fields fs m) (encode_all fs) i sent),
      position-after_all fs start ∙ sym sent.position,
    )
