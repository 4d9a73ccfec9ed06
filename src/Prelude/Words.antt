-- ===== src/Prelude/Words.antt =====
-- Machine words as numbers: `uint32_t` arithmetic, and the bytes of a little-endian word.

use Prim.Native.Nat.{ℕ, ◌+◌, ◌-◌, ◌*◌, ◌/◌, ◌%◌, ◌^◌, ◌<◌}
use mathlib.Core.Path.{◌≡◌}
use native.Mathlib.Omega.{arith}

-- 2 ^ 32
abbrev pub u32_mod : ℕ
u32_mod = 4294967296

-- 2 ^ 16
abbrev pub u16_mod : ℕ
u16_mod = 65536

-- `uint32_t` a + b
unfoldable pub add32 : ℕ → ℕ → ℕ
add32 a b = (a + b) % u32_mod

-- `uint32_t` a - b
unfoldable pub sub32 : ℕ → ℕ → ℕ
sub32 a b = (a + u32_mod - b % u32_mod) % u32_mod

-- `uint32_t` a << 4 and a >> 5
unfoldable pub shl32 : ℕ → ℕ → ℕ
shl32 a k = a * 2 ^ k % u32_mod

unfoldable pub shr32 : ℕ → ℕ → ℕ
shr32 a k = a / 2 ^ k

pub add32-lt : (a b : ℕ) → add32 a b < u32_mod
unfolding add32
add32-lt a b = omega arith

pub sub32-lt : (a b : ℕ) → sub32 a b < u32_mod
unfolding sub32
sub32-lt a b = omega arith

pub sub32-add32 : (a b : ℕ) → a < u32_mod → sub32 (add32 a b) b ≡ a
unfolding add32 sub32
sub32-add32 a b h = omega arith

pub add32-sub32 : (a b : ℕ) → a < u32_mod → add32 (sub32 a b) b ≡ a
unfolding add32 sub32
add32-sub32 a b h = omega arith

-- The word that four bytes stand for, lowest byte first.
unfoldable pub word_of : ℕ → ℕ → ℕ → ℕ → ℕ
word_of b0 b1 b2 b3 = b0 + 256 * b1 + 65536 * b2 + 16777216 * b3

-- Byte `i` of a word.
unfoldable pub byte : ℕ → ℕ → ℕ
byte i w = w / 256 ^ i % 256

pub word_of-byte : (w : ℕ) → w < u32_mod → word_of (byte 0 w) (byte 1 w) (byte 2 w) (byte 3 w) ≡ w
unfolding word_of byte
word_of-byte w h = omega arith

pub byte-word_of :
    (b0 b1 b2 b3 : ℕ)
    → b0 < 256
    → b1 < 256
    → b2 < 256
    → b3 < 256
    → (byte 0 (word_of b0 b1 b2 b3) ≡ b0)
      × (byte 1 (word_of b0 b1 b2 b3) ≡ b1)
      × (byte 2 (word_of b0 b1 b2 b3) ≡ b2)
      × (byte 3 (word_of b0 b1 b2 b3) ≡ b3)
unfolding word_of byte
byte-word_of b0 b1 b2 b3 h0 h1 h2 h3 = omega arith

pub word_of-lt :
    (b0 b1 b2 b3 : ℕ) → b0 < 256 → b1 < 256 → b2 < 256 → b3 < 256 → word_of b0 b1 b2 b3 < u32_mod
unfolding word_of
word_of-lt b0 b1 b2 b3 h0 h1 h2 h3 = omega arith

pub byte-lt : (i w : ℕ) → byte i w < 256
unfolding byte
byte-lt i w = omega arith
