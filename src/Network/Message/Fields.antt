-- ===== src/Network/Message/Fields.antt =====
-- What the senders put into a message and the receivers take out, as a sequence of fields. The
-- functions here only compose the operations of `NetworkMessage`, one after the other.
use model_lib.Prelude.{
  ℕ, ◌^◌, ◌≤◌, ◌<◌, ◌≢◌, true, false, Option, some, ◌>>=◌, List, [], ◌∷◌, ◌++◌, length,
}
use model_lib.Prelude.All.{All}
use model_lib.Position.{Position}
use model_lib.Network.Buffer.{to_bytes}
use model_lib.Network.Message.{
  Message, put, put_string, put_position, get, get_string, get_position,
}

-- `num n v` is a `put<T>` at a type of `n` bytes, `text` a `putString`, `place` a `putPosition`.
pub data Field : Type 0 where
  num : ℕ → ℕ → Field
  text : List ℕ → Field
  place : Position → Field

pub data Kind : Type 0 where
  num_kind : ℕ → Kind
  text_kind place_kind : Kind

abbrev pub kind : Field → Kind
kind (num n v) = num_kind n
kind (text cs) = text_kind
kind (place p) = place_kind

abbrev pub kinds : List Field → List Kind
kinds [] = []
kinds (f ∷ fs) = kind f ∷ kinds fs

unfoldable pub put_field : Field → Message → Message
put_field (num n v) m = put n v m
put_field (text cs) m = put_string cs true m
put_field (place p) m = put_position p m

unfoldable pub put_fields : List Field → Message → Message
unfolding put_field
put_fields [] m = m
put_fields (f ∷ fs) m = put_fields fs (put_field f m)

unfoldable pub get_field : Kind → Message → Option (Field × Message)
get_field (num_kind n) m = get n false m >>= (λ r. some (num n r.0, r.1))
get_field text_kind m = get_string false 0 m >>= (λ r. some (text r.0, r.1))
get_field place_kind m = get_position m >>= (λ r. some (place r.0, r.1))

unfoldable pub get_fields : List Kind → Message → Option (List Field × Message)
unfolding get_field
get_fields [] m = some ([], m)
get_fields (k ∷ ks) m = get_field k m >>= (λ r. get_fields ks r.1 >>= (λ q. some (r.0 ∷ q.0, q.1)))

-- The bytes of a field on the wire.
abbrev pub encode : Field → List ℕ
encode (num n v) = to_bytes n v
encode (text cs) = to_bytes 2 (length cs) ++ cs
encode (place p) = to_bytes 2 p.x ++ (to_bytes 2 p.y ++ to_bytes 1 p.z)

abbrev pub encode_all : List Field → List ℕ
encode_all [] = []
encode_all (f ∷ fs) = encode f ++ encode_all fs

-- The values that fit: numbers of their type, strings with no zero inside and of at most 8192 bytes,
-- and positions with a floor below 128.
abbrev pub IsField : Field → Type 0
IsField (num n v) = v < 256 ^ n
IsField (text cs) = All (λ c. c ≢ 0) cs × (length cs ≤ 8192)
IsField (place p) = (p.x < 65536) × (p.y < 65536) × (p.z < 128)
