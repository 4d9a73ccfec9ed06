-- ===== src/Network/Buffer.antt =====
-- `m_buffer` as a list of bytes: copying bytes to and from an offset, and little-endian numbers.
use native.Mathlib.Nat.{pow-suc}
use model_lib.Prelude.All.{All}
use model_lib.Prelude.{
  ℕ, zero, suc, ◌+◌, ◌*◌, ◌/◌, ◌%◌, ◌^◌, ◌≤◌, ◌<◌, ◌≡◌, refl, ap, List, [], ◌∷◌, ◌++◌, length, take,
  drop, part_of_take, arith,
}

-- `memcpy(buffer + offset, bytes, length)`; what would fall behind the end of the buffer is lost.
unfoldable pub write_at : ℕ → List ℕ → List ℕ → List ℕ
write_at i bs [] = []
write_at (suc i) bs (x ∷ xs) = x ∷ write_at i bs xs
write_at zero [] (x ∷ xs) = x ∷ xs
write_at zero (b ∷ bs) (x ∷ xs) = b ∷ write_at zero bs xs

-- The `n` bytes from `offset` on.
abbrev pub read_at : ℕ → ℕ → List ℕ → List ℕ
read_at offset n xs = take n (drop offset xs)

-- The `n` bytes of a number, lowest first, and the number of some bytes.
unfoldable pub to_bytes : ℕ → ℕ → List ℕ
to_bytes zero v = []
to_bytes (suc n) v = v % 256 ∷ to_bytes n (v / 256)

unfoldable pub of_bytes : List ℕ → ℕ
of_bytes [] = 0
of_bytes (b ∷ bs) = b + 256 * of_bytes bs

pub length-write_at : (i : ℕ) (bs xs : List ℕ) → length (write_at i bs xs) ≡ length xs
unfolding write_at
length-write_at i bs [] = refl
length-write_at (suc i) bs (x ∷ xs) = ap suc (length-write_at i bs xs)
length-write_at zero [] (x ∷ xs) = refl
length-write_at zero (b ∷ bs) (x ∷ xs) = ap suc (length-write_at zero bs xs)

pub length-to_bytes : (n v : ℕ) → length (to_bytes n v) ≡ n
unfolding to_bytes
length-to_bytes zero v = refl
length-to_bytes (suc n) v = ap suc (length-to_bytes n (v / 256))

-- A write leaves what stands before it, and puts its bytes behind that.
pub take-write_at :
    (n i : ℕ) (cs bs xs : List ℕ)
    → i + length cs ≤ length xs
    → n ≡ i + length cs
    → take n (write_at i (cs ++ bs) xs) ≡ take i xs ++ cs
unfolding write_at
take-write_at zero zero [] bs xs h e = refl
take-write_at zero zero (c ∷ cs) bs xs h e = absurd (omega arith)
take-write_at zero (suc i) cs bs xs h e = absurd (omega arith)
take-write_at (suc n) zero [] bs xs h e = absurd (omega arith)
take-write_at (suc n) zero (c ∷ cs) bs [] h e = absurd (omega arith)
take-write_at (suc n) zero (c ∷ cs) bs (x ∷ xs) h e =
    ap (◌∷◌ c) (take-write_at n zero cs bs xs (omega arith) (omega arith))
take-write_at (suc n) (suc i) cs bs [] h e = absurd (omega arith)
take-write_at (suc n) (suc i) cs bs (x ∷ xs) h e =
    ap (◌∷◌ x) (take-write_at n i cs bs xs (omega arith) (omega arith))

-- The `n` bytes of a number that fits make up the number.
pub of_bytes-to_bytes : (n v : ℕ) → v < 256 ^ n → of_bytes (to_bytes n v) ≡ v
unfolding of_bytes to_bytes
of_bytes-to_bytes zero v h = omega arith
of_bytes-to_bytes (suc n) v h =
    omega (arith, of_bytes-to_bytes n (v / 256) (omega (arith, pow-suc 256 n)))

-- A write changes nothing behind its last byte, and nothing before its first.
pub drop-write_at :
    (j i : ℕ) (bs xs : List ℕ) → i + length bs ≤ j → drop j (write_at i bs xs) ≡ drop j xs
unfolding write_at
drop-write_at j i bs [] h = refl
drop-write_at zero zero [] (x ∷ xs) h = refl
drop-write_at zero zero (b ∷ bs) (x ∷ xs) h = absurd (omega arith)
drop-write_at zero (suc i) bs (x ∷ xs) h = absurd (omega arith)
drop-write_at (suc j) zero [] (x ∷ xs) h = refl
drop-write_at (suc j) zero (b ∷ bs) (x ∷ xs) h = drop-write_at j zero bs xs (omega arith)
drop-write_at (suc j) (suc i) bs (x ∷ xs) h = drop-write_at j i bs xs (omega arith)

pub take-write_at_before :
    (n i : ℕ) (bs xs : List ℕ) → n ≤ i → take n (write_at i bs xs) ≡ take n xs
unfolding write_at
take-write_at_before zero i bs xs h = refl
take-write_at_before (suc n) i bs [] h = refl
take-write_at_before (suc n) zero bs (x ∷ xs) h = absurd (omega arith)
take-write_at_before (suc n) (suc i) bs (x ∷ xs) h =
    ap (◌∷◌ x) (take-write_at_before n i bs xs (omega arith))

-- The written bytes are read back.
pub read_at-write_at :
    (n i : ℕ) (bs xs : List ℕ)
    → n ≡ length bs
    → i + n ≤ length xs
    → read_at i n (write_at i bs xs) ≡ bs
unfolding write_at
read_at-write_at zero i [] xs e h = refl
read_at-write_at zero i (b ∷ bs) xs e h = absurd (omega arith)
read_at-write_at (suc n) i [] xs e h = absurd (omega arith)
read_at-write_at (suc n) i (b ∷ bs) [] e h = absurd (omega arith)
read_at-write_at (suc n) zero (b ∷ bs) (x ∷ xs) e h =
    ap (◌∷◌ b) (read_at-write_at n zero bs xs (omega arith) (omega arith))
read_at-write_at (suc n) (suc i) (b ∷ bs) (x ∷ xs) e h =
    read_at-write_at (suc n) i (b ∷ bs) xs e (omega arith)

pub read_at-write_at_before :
    (i n j : ℕ) (bs xs : List ℕ) → i + n ≤ j → read_at i n (write_at j bs xs) ≡ read_at i n xs
read_at-write_at_before i n j bs xs h =
    part_of_take i n j (write_at j bs xs) xs h (take-write_at_before j j bs xs (omega arith))

abbrev pub IsByte : ℕ → Type 0
IsByte b = b < 256

pub to_bytes-IsByte : (n v : ℕ) → All IsByte (to_bytes n v)
unfolding to_bytes
to_bytes-IsByte zero v = tt
to_bytes-IsByte (suc n) v = (omega arith, to_bytes-IsByte n (v / 256))

pub write_at-IsByte :
    (i : ℕ) (bs xs : List ℕ) → All IsByte bs → All IsByte xs → All IsByte (write_at i bs xs)
unfolding write_at
write_at-IsByte i bs [] h k = tt
write_at-IsByte (suc i) bs (x ∷ xs) h k = (k.0, write_at-IsByte i bs xs h k.1)
write_at-IsByte zero [] (x ∷ xs) h k = k
write_at-IsByte zero (b ∷ bs) (x ∷ xs) h k = (h.0, write_at-IsByte zero bs xs h.1 k.1)
