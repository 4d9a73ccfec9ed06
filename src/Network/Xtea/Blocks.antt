-- ===== src/Network/Xtea/Blocks.antt =====
-- The loops over a buffer touch the given number of blocks and nothing behind them.
use model_lib.Prelude.{ℕ, zero, suc, ◌*◌, ◌≡◌, refl, List, [], ◌∷◌, ◌++◌, length, arith}
use model_lib.Network.Xtea.{Key, encrypt_blocks, decrypt_blocks, store_block}

-- The next eight bytes of a buffer that holds another block.
record Eight (n : ℕ) (xs : List ℕ) : Type 0 where
  a0 : ℕ
  a1 : ℕ
  a2 : ℕ
  a3 : ℕ
  b0 : ℕ
  b1 : ℕ
  b2 : ℕ
  b3 : ℕ
  rest : List ℕ
  shape : xs ≡ a0 ∷ a1 ∷ a2 ∷ a3 ∷ b0 ∷ b1 ∷ b2 ∷ b3 ∷ rest
  left : length rest ≡ 8 * n

next-Eight : (n : ℕ) (xs : List ℕ) → length xs ≡ 8 * suc n → Eight n xs
next-Eight n [] h = absurd (omega arith)
next-Eight n (_ ∷ []) h = absurd (omega arith)
next-Eight n (_ ∷ _ ∷ []) h = absurd (omega arith)
next-Eight n (_ ∷ _ ∷ _ ∷ []) h = absurd (omega arith)
next-Eight n (_ ∷ _ ∷ _ ∷ _ ∷ []) h = absurd (omega arith)
next-Eight n (_ ∷ _ ∷ _ ∷ _ ∷ _ ∷ []) h = absurd (omega arith)
next-Eight n (_ ∷ _ ∷ _ ∷ _ ∷ _ ∷ _ ∷ []) h = absurd (omega arith)
next-Eight n (_ ∷ _ ∷ _ ∷ _ ∷ _ ∷ _ ∷ _ ∷ []) h = absurd (omega arith)
next-Eight n (a0 ∷ a1 ∷ a2 ∷ a3 ∷ b0 ∷ b1 ∷ b2 ∷ b3 ∷ rest) h = record {
  a0 = a0;
  a1 = a1;
  a2 = a2;
  a3 = a3;
  b0 = b0;
  b1 = b1;
  b2 = b2;
  b3 = b3;
  rest = rest;
  shape = refl;
  left = omega arith;
}

pub encrypt_blocks-append :
    (n : ℕ) (k : Key) (xs ys : List ℕ)
    → length xs ≡ 8 * n
    → encrypt_blocks n k (xs ++ ys) ≡ encrypt_blocks n k xs ++ ys
unfolding encrypt_blocks store_block
encrypt_blocks-append zero k xs ys h = refl
encrypt_blocks-append (suc n) k xs ys h =
    let e = next-Eight n xs h in rw (e.shape, encrypt_blocks-append n k e.rest ys e.left)

pub decrypt_blocks-append :
    (n : ℕ) (k : Key) (xs ys : List ℕ)
    → length xs ≡ 8 * n
    → decrypt_blocks n k (xs ++ ys) ≡ decrypt_blocks n k xs ++ ys
unfolding decrypt_blocks store_block
decrypt_blocks-append zero k xs ys h = refl
decrypt_blocks-append (suc n) k xs ys h =
    let e = next-Eight n xs h in rw (e.shape, decrypt_blocks-append n k e.rest ys e.left)

pub length-encrypt_blocks :
    (n : ℕ) (k : Key) (xs : List ℕ) → length xs ≡ 8 * n → length (encrypt_blocks n k xs) ≡ 8 * n
unfolding encrypt_blocks store_block
length-encrypt_blocks zero k xs h = h
length-encrypt_blocks (suc n) k xs h =
    let e = next-Eight n xs h in rw e.shape (omega (arith, length-encrypt_blocks n k e.rest e.left))
