-- ===== src/Network/Message/Bounds.antt =====
-- Which bytes of the buffer the operations of `NetworkMessage` touch.
use model_lib.Prelude.{ℕ, ◌+◌, ◌-◌, ◌<◌, ◌≡◌, ◌↔◌, Bool, false, none, List, length, arith}
use model_lib.Prelude.Words.{u16_mod}
use model_lib.Position.{Position}
use model_lib.Network.Message.{
  Message, has_space, append, put, put_string, put_bytes, put_position, get_string, copy_out,
  network_max_size,
}

-- `getString` with a given length reads behind the end of `m_buffer` exactly when the string ends
-- after byte 15360 of the array and before byte 16384, the limit that it checks.
pub get_string_overrun :
    (size : ℕ) (m : Message)
    → 0 < size
    → m.position < u16_mod
    → (get_string false size m ≡ none)
      ↔ ((network_max_size < m.position + size) × (m.position + size < 16384))
unfolding get_string copy_out
get_string_overrun size m s p = ((λ h. ground arith), (λ h. ground arith))

-- No write of a sender moves the position to byte 15344 or beyond, when it was below before.
put_bounds :
    (n v : ℕ) (bytes value : List ℕ) (pos : Position) (sized : Bool) (m : Message)
    → m.position < network_max_size - 16
    → n < 256
    → length bytes < 2147483648
    → ((put n v m).position < network_max_size - 16)
      × ((put_bytes bytes m).position < network_max_size - 16)
      × ((put_position pos m).position < network_max_size - 16)
      × ((put_string value sized m).position < network_max_size - 16)
unfolding put put_bytes put_position put_string has_space append
put_bounds n v bytes value pos sized m h hn hb =
    (ground arith, ground arith, ground arith, ground arith)
