-- ===== src/Files/Stream.antt =====
-- `PropStream` and `PropWriteStream` of src/fileloader.h: reading and writing properties. A stream that
-- is read is the list of the bytes from `p` to `end`.
pub mod RoundTrip
pub mod Room
mod Tests
use model_lib.Prelude.{
  ℕ, ◌+◌, ◌-◌, ◌*◌, ◌/◌, ◌%◌, ◌^◌, Bool, true, false, ltb, leb, ◌==◌, if◌then◌else◌, Option, none,
  some, ◌>>=◌, List, [], ◌∷◌, ◌++◌, length, take, drop, ◌&&◌, ◌||◌,
}
use model_lib.Prelude.Words.{u16_mod, u32_mod}
use model_lib.Network.Buffer.{to_bytes, of_bytes}

-- What a read does: it returns false or the value, and leaves the stream at some place; or it reads
-- behind the end of the stream.
pub data Read {ℓ} (A : Type ℓ) : Type ℓ where
  overrun : Read A
  refused : List ℕ → Read A
  value : A → List ℕ → Read A

abbrev pub read_then {ℓ κ} : {A : Type ℓ} {B : Type κ} → Read A → (A → List ℕ → Read B) → Read B
read_then overrun k = overrun
read_then (refused rest) k = refused rest
read_then (value a rest) k = k a rest

-- `size()`, an `int32_t`, is compared with a number that is not negative: from 2 ^ 31 bytes on it is
-- negative itself.
unfoldable pub is_short : ℕ → List ℕ → Bool
is_short n stream = ltb (length stream % u32_mod) n || leb (2 ^ 31) (length stream % u32_mod)

-- The same with a `uint32_t` that is cast to an `int32_t`.
unfoldable pub is_short_signed : ℕ → List ℕ → Bool
unfolding is_short
is_short_signed n stream =
    if ltb n (2 ^ 31)
    then is_short n stream
    else leb (2 ^ 31) (length stream % u32_mod) && ltb (length stream % u32_mod) n

-- `getType` at an unsigned type of `n` bytes
unfoldable pub get_type : ℕ → List ℕ → Read ℕ
unfolding is_short
get_type n stream =
    if is_short n stream then refused stream else value (of_bytes (take n stream)) (drop n stream)

-- `memcpy` of a string's bytes and the step over them
unfoldable pub get_bytes : ℕ → List ℕ → Read (List ℕ)
get_bytes n stream =
    if ltb (length stream) n then overrun else value (take n stream) (drop n stream)

unfoldable pub get_string : List ℕ → Read (List ℕ)
unfolding get_type get_bytes is_short
get_string stream =
    read_then (get_type 2 stream)
      (λ len rest. if is_short len rest then refused rest else get_bytes len rest)

unfoldable pub get_long_string : List ℕ → Read (List ℕ)
unfolding get_type get_bytes is_short_signed
get_long_string stream =
    read_then (get_type 4 stream)
      (λ len rest. if is_short_signed len rest then refused rest else get_bytes len rest)

unfoldable pub skip : ℕ → List ℕ → Read (Unit {0})
unfolding is_short
skip n stream = if is_short n stream then refused stream else value tt (drop n stream)

-- The bytes that have been written, `size` of them, and the size of the buffer.
pub record PropWriteStream : Type 0 where
  pub bytes : List ℕ
  pub buffer_size : ℕ

abbrev pub new_stream : PropWriteStream
new_stream = record { bytes = []; buffer_size = 32 }

-- The buffer of `addType`, `addStruct` and `addString` when `n` bytes are to follow
unfoldable pub grow : ℕ → PropWriteStream → ℕ
grow n s =
    if ltb (s.buffer_size - length s.bytes) n
    then (s.buffer_size + (n + 0x1F) / 32 * 32) % u32_mod
    else s.buffer_size

-- `memcpy` behind what has been written; `none` when it goes behind the end of the buffer
unfoldable pub add_bytes : List ℕ → PropWriteStream → Option PropWriteStream
unfolding grow
add_bytes bs s =
    if ltb (grow (length bs) s) (length s.bytes + length bs)
    then none
    else some (record { bytes = s.bytes ++ bs; buffer_size = grow (length bs) s })

-- `addType` at an unsigned type of `n` bytes
unfoldable pub add_type : ℕ → ℕ → PropWriteStream → Option PropWriteStream
unfolding add_bytes
add_type n v = add_bytes (to_bytes n v)

unfoldable pub add_string : List ℕ → PropWriteStream → Option PropWriteStream
unfolding add_type add_bytes
add_string text s =
    add_type 2 (length text % u16_mod) s >>= add_bytes (take (length text % u16_mod) text)

-- The length is kept in a `uint16_t` here too.
unfoldable pub add_long_string : List ℕ → PropWriteStream → Option PropWriteStream
unfolding add_type add_bytes
add_long_string text s =
    add_type 4 (length text % u16_mod) s >>= add_bytes (take (length text % u16_mod) text)

-- The properties of a program in order, and the kinds by which they are read again. `num n` is an
-- unsigned number of `n` bytes.
pub data Property : Type 0 where
  num : ℕ → ℕ → Property
  text long_text : List ℕ → Property

unfoldable pub add_prop : Property → PropWriteStream → Option PropWriteStream
add_prop (num n v) s = add_type n v s
add_prop (text cs) s = add_string cs s
add_prop (long_text cs) s = add_long_string cs s

unfoldable pub add_props : List Property → PropWriteStream → Option PropWriteStream
unfolding add_prop
add_props [] s = some s
add_props (p ∷ ps) s = add_prop p s >>= add_props ps

-- Reading a property of the kind of a given one
unfoldable pub get_prop : Property → List ℕ → Read Property
get_prop (num n v) stream = read_then (get_type n stream) (λ w rest. value (num n w) rest)
get_prop (text cs) stream = read_then (get_string stream) (λ ds rest. value (text ds) rest)
get_prop (long_text cs) stream =
    read_then (get_long_string stream) (λ ds rest. value (long_text ds) rest)

unfoldable pub get_props : List Property → List ℕ → Read (List Property)
unfolding get_prop
get_props [] stream = value [] stream
get_props (p ∷ ps) stream =
    read_then (get_prop p stream)
      (λ q rest. read_then (get_props ps rest) (λ qs rest'. value (q ∷ qs) rest'))
