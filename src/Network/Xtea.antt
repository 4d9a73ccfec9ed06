-- ===== src/Network/Xtea.antt =====
-- src/protocol.cpp: the cipher loops of `XTEA_encrypt` and `XTEA_decrypt`.
pub mod Blocks
pub mod RoundTrip
use Prim.Native.Nat.{bit_xor}
use model_lib.Prelude.{ℕ, zero, suc, ◌+◌, ◌%◌, ◌==◌, if◌then◌else◌, List, [], ◌∷◌}
use model_lib.Prelude.Words.{add32, sub32, shl32, shr32, word_of, byte}

-- `m_key`
pub record Key : Type 0 where
  pub k0 : ℕ
  pub k1 : ℕ
  pub k2 : ℕ
  pub k3 : ℕ

-- `k[i & 3]`
unfoldable pub key_at : Key → ℕ → ℕ
key_at k i =
    let j = i % 4 in if j == 0 then k.k0 else if j == 1 then k.k1 else if j == 2 then k.k2 else k.k3

abbrev pub delta : ℕ
delta = 0x61C88647

-- `((v << 4 ^ v >> 5) + v) ^ (sum + key)`
unfoldable pub mix : ℕ → ℕ → ℕ → ℕ
mix v sum key = bit_xor (add32 (bit_xor (shl32 v 4) (shr32 v 5)) v) (add32 sum key)

-- The local variables `v0`, `v1` and `sum` of a block's loop.
pub record Block : Type 0 where
  pub v0 : ℕ
  pub v1 : ℕ
  pub sum : ℕ

unfoldable pub encrypt_round : Key → Block → Block
encrypt_round k b =
    let v0 = add32 b.v0 (mix b.v1 b.sum (key_at k b.sum)) in
    let sum = sub32 b.sum delta in
    record { v0 = v0; v1 = add32 b.v1 (mix v0 sum (key_at k (shr32 sum 11))); sum = sum }

unfoldable pub decrypt_round : Key → Block → Block
decrypt_round k b =
    let v1 = sub32 b.v1 (mix b.v0 b.sum (key_at k (shr32 b.sum 11))) in
    let sum = add32 b.sum delta in
    record { v0 = sub32 b.v0 (mix v1 sum (key_at k sum)); v1 = v1; sum = sum }

-- The loop over `i`, with the number of rounds that are left.
unfoldable pub encrypt_rounds : ℕ → Key → Block → Block
encrypt_rounds zero k b = b
encrypt_rounds (suc n) k b = encrypt_rounds n k (encrypt_round k b)

unfoldable pub decrypt_rounds : ℕ → Key → Block → Block
decrypt_rounds zero k b = b
decrypt_rounds (suc n) k b = decrypt_rounds n k (decrypt_round k b)

-- The bytes of the two words that a block's loop leaves, as they are stored back.
unfoldable pub store_block : Block → List ℕ → List ℕ
store_block b rest =
    byte 0 b.v0
    ∷ byte 1 b.v0
    ∷ byte 2 b.v0
    ∷ byte 3 b.v0
    ∷ byte 0 b.v1
    ∷ byte 1 b.v1
    ∷ byte 2 b.v1
    ∷ byte 3 b.v1
    ∷ rest

-- The loop over `readPos`: `n` blocks of eight bytes, from the pointer `buffer` on. Both words of a
-- block are read, run through 32 rounds and stored back; what follows is left alone.
unfoldable pub encrypt_blocks : ℕ → Key → List ℕ → List ℕ
encrypt_blocks (suc n) k (a0 ∷ a1 ∷ a2 ∷ a3 ∷ b0 ∷ b1 ∷ b2 ∷ b3 ∷ rest) =
    store_block
      (encrypt_rounds 32 k (record { v0 = word_of a0 a1 a2 a3; v1 = word_of b0 b1 b2 b3; sum = 0 }))
      (encrypt_blocks n k rest)
encrypt_blocks _ k buffer = buffer

unfoldable pub decrypt_blocks : ℕ → Key → List ℕ → List ℕ
decrypt_blocks (suc n) k (a0 ∷ a1 ∷ a2 ∷ a3 ∷ b0 ∷ b1 ∷ b2 ∷ b3 ∷ rest) =
    store_block
      (decrypt_rounds 32 k
        (record { v0 = word_of a0 a1 a2 a3; v1 = word_of b0 b1 b2 b3; sum = 0xC6EF3720 }))
      (decrypt_blocks n k rest)
decrypt_blocks _ k buffer = buffer
