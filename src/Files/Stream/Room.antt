-- ===== src/Files/Stream/Room.antt =====
-- `PropWriteStream` of src/fileloader.h never writes behind the end of its buffer.
use mathlib.Core.List.{append_assoc, append-nil}
use model_lib.Prelude.{
  ℕ, ◌+◌, ◌%◌, ◌≤◌, ◌<◌, ◌≡◌, refl, ap, sym, ◌∙◌, Option, some, ◌>>=◌, List, [], ◌∷◌, ◌++◌, length,
  length-append, length-take, take, arith,
}
use model_lib.Prelude.All.{All}
use model_lib.Prelude.Words.{u16_mod, u32_mod}
use model_lib.Network.Buffer.{to_bytes, length-to_bytes}
use model_lib.Files.Stream.{
  PropWriteStream, Property, num, text, long_text, grow, add_bytes, add_type, add_string,
  add_long_string, add_prop, add_props,
}

-- What has been written fits, and the buffer is at most the largest growth ahead.
pub record HasRoom (s : PropWriteStream) : Type 0 where
  pub inside : length s.bytes ≤ s.buffer_size
  pub ahead : s.buffer_size ≤ length s.bytes + u16_mod

-- A string is cut to the length that its 16-bit length field holds.
abbrev pub cut : List ℕ → List ℕ
cut cs = take (length cs % u16_mod) cs

-- The bytes of a property, which are at most 65539.
unfoldable pub encode : Property → List ℕ
encode (num n v) = to_bytes n v
encode (text cs) = to_bytes 2 (length cs % u16_mod) ++ cut cs
encode (long_text cs) = to_bytes 4 (length cs % u16_mod) ++ cut cs

unfoldable pub encode_all : List Property → List ℕ
encode_all [] = []
encode_all (p ∷ ps) = encode p ++ encode_all ps

-- Numbers of the widths that there are.
abbrev pub IsNarrow : Property → Type 0
IsNarrow (num n v) = n ≤ 8
IsNarrow (text cs) = Unit
IsNarrow (long_text cs) = Unit

-- A write that succeeds, appends some bytes and leaves room.
abbrev Writes : (PropWriteStream → Option PropWriteStream) → PropWriteStream → List ℕ → Type 0
Writes f s bs = (t : PropWriteStream) × (f s ≡ some t) × (t.bytes ≡ s.bytes ++ bs) × HasRoom t

add_bytes-HasRoom :
    (bs : List ℕ) (s : PropWriteStream)
    → HasRoom s
    → length bs < u16_mod
    → length s.bytes + length bs + u16_mod + u16_mod < u32_mod
    → Writes (add_bytes bs) s bs
unfolding add_bytes grow
add_bytes-HasRoom bs s h small total = (
  record { bytes = s.bytes ++ bs; buffer_size = grow (length bs) s },
  ground (arith, h.inside, h.ahead),
  refl,
  record {
    inside = ground (arith, h.inside, h.ahead, length-append s.bytes bs);
    ahead = ground (arith, h.inside, h.ahead, length-append s.bytes bs);
  },
)

Writes-then :
    (f g : PropWriteStream → Option PropWriteStream) (s : PropWriteStream) (bs cs : List ℕ)
    → Writes f s bs
    → ((t : PropWriteStream) → HasRoom t → t.bytes ≡ s.bytes ++ bs → Writes g t cs)
    → Writes (λ u. f u >>= g) s (bs ++ cs)
Writes-then f g s bs cs (t, e, b, r) next =
    let (u, e', b', r') = next t r b in
    (u, rw e e', b' ∙ ap (λ xs. xs ++ cs) b ∙ append_assoc s.bytes bs cs, r')

pub length-cut : (cs : List ℕ) → length (cut cs) ≡ length cs % u16_mod
length-cut cs = length-take (length cs % u16_mod) cs (omega arith)

-- A length field and the bytes of a string.
add_text :
    (n : ℕ) (cs : List ℕ) (s : PropWriteStream)
    → n ≤ 8
    → HasRoom s
    → length s.bytes + length (to_bytes n (length cs % u16_mod) ++ cut cs) + u16_mod + u16_mod
      < u32_mod
    → Writes
        (λ u. add_bytes (to_bytes n (length cs % u16_mod)) u >>= add_bytes (cut cs))
        s
        (to_bytes n (length cs % u16_mod) ++ cut cs)
add_text n cs s narrow h total =
    let field = to_bytes n (length cs % u16_mod) in
    let all = length-append field (cut cs) in
    let width = length-to_bytes n (length cs % u16_mod) in
    let short = length-cut cs in
    Writes-then (add_bytes field) (add_bytes (cut cs)) s field (cut cs)
      (add_bytes-HasRoom field s h (omega arith) (omega arith))
      (λ t r b.
        add_bytes-HasRoom (cut cs) t r (omega arith)
          (omega (arith, ap length b, length-append s.bytes field)))

add_prop-encode :
    (p : Property) (s : PropWriteStream)
    → IsNarrow p
    → HasRoom s
    → length s.bytes + length (encode p) + u16_mod + u16_mod < u32_mod
    → Writes (add_prop p) s (encode p)
unfolding add_prop encode add_type add_string add_long_string
add_prop-encode (num n v) s narrow h total =
    add_bytes-HasRoom (to_bytes n v) s h (omega (arith, length-to_bytes n v)) total
add_prop-encode (text cs) s narrow h total = add_text 2 cs s (omega arith) h total
add_prop-encode (long_text cs) s narrow h total = add_text 4 cs s (omega arith) h total

-- Writing properties always succeeds while less than 4 GB minus 128 KB have been written: no write
-- goes behind the end of the buffer, and what is written is one property behind the other.
pub add_props-encode_all :
    (ps : List Property) (s : PropWriteStream)
    → All IsNarrow ps
    → HasRoom s
    → length s.bytes + length (encode_all ps) + u16_mod + u16_mod < u32_mod
    → (t : PropWriteStream) × (add_props ps s ≡ some t)
      × (t.bytes ≡ s.bytes ++ encode_all ps)
      × HasRoom t
unfolding add_props encode_all
add_props-encode_all [] s narrow h total = (s, refl, sym (append-nil s.bytes), h)
add_props-encode_all (p ∷ ps) s narrow h total =
    let all = length-append (encode p) (encode_all ps) in
    Writes-then (add_prop p) (add_props ps) s (encode p) (encode_all ps)
      (add_prop-encode p s narrow.0 h (omega arith))
      (λ t r b.
        add_props-encode_all ps t narrow.1 r
          (omega (arith, ap length b, length-append s.bytes (encode p))))
