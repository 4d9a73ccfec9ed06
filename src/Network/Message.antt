-- ===== src/Network/Message.antt =====
-- src/networkmessage.h and networkmessage.cpp: `NetworkMessage`, its buffer, size and position.
pub mod Fields
pub mod Bounds
pub mod Write
pub mod RoundTrip
use model_lib.Prelude.{
  ℕ, zero, suc, ◌+◌, ◌-◌, ◌*◌, ◌%◌, ◌≡◌, Bool, false, ◌||◌, not, ltb, leb, ◌==◌, if◌then◌else◌,
  ◌>>=◌, Option, none, some, List, [], ◌∷◌, ◌++◌, length, replicate, arith,
}
use model_lib.Prelude.Words.{u16_mod, u32_mod}
use model_lib.Position.{Position}
use model_lib.Network.Buffer.{write_at, read_at, to_bytes, of_bytes}

-- `NETWORK_MAX_SIZE`, `NETWORK_HEADER_SIZE` and `NETWORK_CRYPTOHEADER_SIZE` of const.h
abbrev pub network_max_size : ℕ
network_max_size = 15360

abbrev pub network_header_size : ℕ
network_header_size = 2

abbrev pub network_cryptoheader_size : ℕ
network_cryptoheader_size = 8

-- `m_buffer` is an array of `network_max_size` bytes; `m_size` and `m_position` are `uint16_t`.
pub record Message : Type 0 where
  pub buffer : List ℕ
  pub size : ℕ
  pub position : ℕ

unfoldable pub reset : ℕ → Message → Message
reset size m = record m { size = 0; position = size }

-- The parameter is an `int32_t`: a pattern from 2 ^ 31 on stands for a negative number.
unfoldable pub has_space : Message → ℕ → Bool
has_space m size =
    let s = size % u32_mod in
    if leb 2147483648 s
    then ltb (s + m.position) (u32_mod + (network_max_size - 16))
    else ltb (s + m.position) (network_max_size - 16)

-- The bytes go to `m_position`, and both counters move on by `n`.
unfoldable pub append : List ℕ → ℕ → Message → Message
append bytes n m = record m {
  buffer = write_at m.position bytes m.buffer;
  size = (m.size + n) % u16_mod;
  position = (m.position + n) % u16_mod;
}

-- `put<T>`, at a type of `n` bytes
unfoldable pub put : ℕ → ℕ → Message → Message
put n value m = if has_space m n then append (to_bytes n value) n m else m

-- What `strlen` and `strcpy` see of a string: the bytes before the first zero.
unfoldable pub c_str : List ℕ → List ℕ
c_str [] = []
c_str (c ∷ cs) = if c == 0 then [] else c ∷ c_str cs

-- `strcpy` also stores the final zero, which the counters do not cover.
unfoldable pub put_string : List ℕ → Bool → Message → Message
put_string value add_size m =
    let text = c_str value in
    let size = length text % u32_mod in
    if not (has_space m ((size + (if add_size then 2 else 0)) % u32_mod)) || ltb 8192 size
    then m
    else append (text ++ 0 ∷ []) size (if add_size then put 2 size m else m)

unfoldable pub put_bytes : List ℕ → Message → Message
put_bytes bytes m = if has_space m (length bytes) then append bytes (length bytes) m else m

-- `putPadding` leaves the position where it is.
unfoldable pub put_padding : ℕ → Message → Message
put_padding amount m =
    if has_space m amount
    then record m {
      buffer = write_at m.position (replicate amount 0x33) m.buffer;
      size = (m.size + amount) % u16_mod;
    }
    else m

-- `get<T>` at an unsigned type of `n` bytes; `none` is a read behind the end of the buffer.
unfoldable pub get : ℕ → Bool → Message → Option (ℕ × Message)
get n peek m =
    if leb (m.position + n) network_max_size
    then some (
      of_bytes (read_at m.position n m.buffer),
      (if peek then m else record m { position = (m.position + n) % u16_mod }),
    )
    else none

-- The copy out of the buffer at the end of `getString`.
unfoldable pub copy_out : Bool → ℕ → Message → Option (List ℕ × Message)
copy_out peek size m =
    let position = (m.position + (if peek then 2 else 0)) % u16_mod in
    if leb 16384 (size + position)
    then some ([], m)
    else if leb (position + size) network_max_size
    then some (
      read_at position size m.buffer,
      (if peek then m else record m { position = (m.position + size) % u16_mod }),
    )
    else none

unfoldable pub get_string : Bool → ℕ → Message → Option (List ℕ × Message)
get_string peek size m =
    if size == 0 then get 2 peek m >>= (λ r. copy_out peek r.0 r.1) else copy_out peek size m

unfoldable pub get_raw : Bool → Message → Option (List ℕ × Message)
get_raw peek m = get_string peek ((m.size + u16_mod - m.position) % u16_mod) m

unfoldable pub skip : ℕ → Message → Message
skip count m = record m { position = (m.position + count) % u16_mod }

-- `m_buffer[0] | m_buffer[1] << 8`
unfoldable pub decode_header : Message → ℕ × Message
decode_header m =
    let size = of_bytes (read_at 0 2 m.buffer) in (size, record m { size = size % u16_mod })

unfoldable pub body_buffer : Message → Message
body_buffer m = record m { position = network_header_size }

-- `z` goes through a signed `char`: a byte from 128 on is read back as a negative number.
unfoldable pub put_position : Position → Message → Message
put_position pos m = put 1 pos.z (put 2 pos.y (put 2 pos.x m))

unfoldable pub get_position : Message → Option (Position × Message)
get_position m = do
  x ← get 2 false m
  y ← get 2 false x.1
  z ← get 1 false y.1
  some (record { x = x.0; y = y.0; z = if ltb z.0 128 then z.0 else u16_mod - 256 + z.0 }, z.1)

-- What the messages read of an `ItemType`; the table `Item::items` is a parameter.
pub record ItemType : Type 0 where
  pub client_id : ℕ
  pub stackable : Bool
  pub is_splash : Bool
  pub is_fluid_container : Bool

-- `fluidMap` of const.h, which has eight entries.
unfoldable pub put_item : (ℕ → ItemType) → (ℕ → ℕ) → ℕ → ℕ → Message → Message
put_item items fluid_map id count m =
    let it = items id in
    let m' = put 2 it.client_id m in
    if it.stackable
    then put 1 count m'
    else if it.is_splash || it.is_fluid_container
    then put 1 (fluid_map (count % 8)) m'
    else m'

unfoldable pub put_item_id : (ℕ → ItemType) → ℕ → Message → Message
put_item_id items id m = put 2 (items id).client_id m
