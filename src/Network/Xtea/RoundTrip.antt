-- ===== src/Network/Xtea/RoundTrip.antt =====
-- Decryption undoes encryption, for a round, for the 32 rounds of a block, and for a buffer.
use model_lib.Prelude.{ℕ, zero, suc, ◌<◌, ◌≡◌, refl, ap, ap₂, ◌∙◌, List, [], ◌∷◌, arith}
use model_lib.Prelude.All.{All}
use model_lib.Prelude.Words.{
  u32_mod, sub32, word_of, sub32-add32, add32-sub32, add32-lt, sub32-lt, word_of-byte, byte-word_of,
  word_of-lt,
}
use model_lib.Network.Buffer.{IsByte}
use model_lib.Network.Xtea.{
  Key, delta, Block, encrypt_round, decrypt_round, encrypt_rounds, decrypt_rounds, store_block,
  encrypt_blocks, decrypt_blocks,
}

-- The three variables hold `uint32_t` values.
pub record IsWords (b : Block) : Type 0 where
  pub v0_lt : b.v0 < u32_mod
  pub v1_lt : b.v1 < u32_mod
  pub sum_lt : b.sum < u32_mod

encrypt_round-IsWords : (k : Key) (b : Block) → IsWords (encrypt_round k b)
unfolding encrypt_round
encrypt_round-IsWords k b = record {
  v0_lt = add32-lt _ _;
  v1_lt = add32-lt _ _;
  sum_lt = sub32-lt _ _;
}

-- One round of `XTEA_decrypt` takes back one round of `XTEA_encrypt`.
decrypt_round-encrypt_round :
    (k : Key) (b : Block) → IsWords b → decrypt_round k (encrypt_round k b) ≡ b
unfolding encrypt_round decrypt_round
decrypt_round-encrypt_round k b w =
    rw (sub32-add32 b.v1 _ w.v1_lt, add32-sub32 b.sum _ w.sum_lt, sub32-add32 b.v0 _ w.v0_lt)

decrypt_rounds-suc :
    (n : ℕ) (k : Key) (b : Block)
    → decrypt_rounds (suc n) k b ≡ decrypt_round k (decrypt_rounds n k b)
unfolding decrypt_rounds
decrypt_rounds-suc zero k b = refl
decrypt_rounds-suc (suc n) k b = decrypt_rounds-suc n k (decrypt_round k b)

encrypt_rounds-IsWords : (n : ℕ) (k : Key) (b : Block) → IsWords b → IsWords (encrypt_rounds n k b)
unfolding encrypt_rounds
encrypt_rounds-IsWords zero k b w = w
encrypt_rounds-IsWords (suc n) k b w =
    encrypt_rounds-IsWords n k (encrypt_round k b) (encrypt_round-IsWords k b)

-- The same number of rounds of both takes a block back to itself.
pub decrypt_rounds-encrypt_rounds :
    (n : ℕ) (k : Key) (b : Block) → IsWords b → decrypt_rounds n k (encrypt_rounds n k b) ≡ b
unfolding encrypt_rounds
decrypt_rounds-encrypt_rounds zero k b w = unfold decrypt_rounds in refl
decrypt_rounds-encrypt_rounds (suc n) k b w =
    decrypt_rounds-suc n k (encrypt_rounds n k (encrypt_round k b))
    ∙ ap (decrypt_round k)
        (decrypt_rounds-encrypt_rounds n k (encrypt_round k b) (encrypt_round-IsWords k b))
    ∙ decrypt_round-encrypt_round k b w

-- `sum` runs the same way for every block and key.
sum_after : ℕ → ℕ → ℕ
sum_after zero s = s
sum_after (suc n) s = sum_after n (sub32 s delta)

sum-encrypt_rounds : (n : ℕ) (k : Key) (b : Block) → (encrypt_rounds n k b).sum ≡ sum_after n b.sum
unfolding encrypt_rounds encrypt_round sum_after
sum-encrypt_rounds zero k b = refl
sum-encrypt_rounds (suc n) k b = sum-encrypt_rounds n k (encrypt_round k b)

-- So `XTEA_decrypt` starts with the `sum` that `XTEA_encrypt` ends with.
sum_after_32 : sum_after 32 0 ≡ 0xC6EF3720
unfolding sum_after sub32
sum_after_32 = refl

abbrev start : ℕ → ℕ → Block
start v0 v1 = record { v0 = v0; v1 = v1; sum = 0 }

resume :
    (k : Key) (v0 v1 : ℕ)
    → v0 < u32_mod
    → v1 < u32_mod
    → let e = encrypt_rounds 32 k (start v0 v1) in
      decrypt_rounds 32 k (record { v0 = e.v0; v1 = e.v1; sum = 0xC6EF3720 }) ≡ start v0 v1
resume k v0 v1 h0 h1 = rw (← (sum-encrypt_rounds 32 k (start v0 v1) ∙ sum_after_32)) (
    decrypt_rounds-encrypt_rounds 32 k (start v0 v1)
      (record { v0_lt = h0; v1_lt = h1; sum_lt = omega arith }))

-- Storing the words that were read gives the bytes back.
store_block-word_of :
    (a0 a1 a2 a3 b0 b1 b2 b3 s : ℕ) (rest : List ℕ)
    → All IsByte (a0 ∷ a1 ∷ a2 ∷ a3 ∷ b0 ∷ b1 ∷ b2 ∷ b3 ∷ [])
    → store_block (record { v0 = word_of a0 a1 a2 a3; v1 = word_of b0 b1 b2 b3; sum = s }) rest
      ≡ a0 ∷ a1 ∷ a2 ∷ a3 ∷ b0 ∷ b1 ∷ b2 ∷ b3 ∷ rest
unfolding store_block
store_block-word_of a0 a1 a2 a3 b0 b1 b2 b3 s rest h =
    let p = byte-word_of a0 a1 a2 a3 (omega arith) (omega arith) (omega arith) (omega arith) in
    let q = byte-word_of b0 b1 b2 b3 (omega arith) (omega arith) (omega arith) (omega arith) in
    rw (p.0, p.1, p.2, p.3, q.0, q.1, q.2, q.3)

-- One turn of the loop on a stored block: both words are read back.
decrypt_blocks-store_block :
    (n : ℕ) (k : Key) (e : Block) (rest : List ℕ)
    → IsWords e
    → decrypt_blocks (suc n) k (store_block e rest)
      ≡ store_block
          (decrypt_rounds 32 k (record { v0 = e.v0; v1 = e.v1; sum = 0xC6EF3720 }))
          (decrypt_blocks n k rest)
unfolding decrypt_blocks store_block
decrypt_blocks-store_block n k e rest w = rw (word_of-byte e.v0 w.v0_lt, word_of-byte e.v1 w.v1_lt)

start-IsWords : (v0 v1 : ℕ) → v0 < u32_mod → v1 < u32_mod → IsWords (start v0 v1)
start-IsWords v0 v1 h0 h1 = record { v0_lt = h0; v1_lt = h1; sum_lt = omega arith }

-- The loop of `XTEA_decrypt` over `n` blocks restores every buffer of bytes that the loop of
-- `XTEA_encrypt` over `n` blocks has run on, for every key.
pub decrypt_blocks-encrypt_blocks :
    (n : ℕ) (k : Key) (bytes : List ℕ)
    → All IsByte bytes
    → decrypt_blocks n k (encrypt_blocks n k bytes) ≡ bytes
unfolding encrypt_blocks decrypt_blocks
decrypt_blocks-encrypt_blocks (suc n) k (a0 ∷ a1 ∷ a2 ∷ a3 ∷ b0 ∷ b1 ∷ b2 ∷ b3 ∷ rest) h =
    let h0 = word_of-lt a0 a1 a2 a3 (omega arith) (omega arith) (omega arith) (omega arith) in
    let h1 = word_of-lt b0 b1 b2 b3 (omega arith) (omega arith) (omega arith) (omega arith) in
    decrypt_blocks-store_block n k (encrypt_rounds 32 k (start _ _)) (encrypt_blocks n k rest)
      (encrypt_rounds-IsWords 32 k (start _ _) (start-IsWords _ _ h0 h1))
    ∙ ap₂ store_block (resume k _ _ h0 h1)
        (decrypt_blocks-encrypt_blocks n k rest (h.1).1.1.1.1.1.1.1)
    ∙ store_block-word_of a0 a1 a2 a3 b0 b1 b2 b3 0 rest (omega arith)
decrypt_blocks-encrypt_blocks _ k bytes h = refl
