-- ===== src/Files/Stream/RoundTrip.antt =====
-- What `PropWriteStream` of src/fileloader.h writes, `PropStream` reads.
use mathlib.Core.List.{append_assoc, append-nil}
use model_lib.Prelude.{
  ℕ, ◌+◌, ◌%◌, ◌^◌, ◌≤◌, ◌<◌, ◌≡◌, ◌≢◌, refl, ap, ap₂, subst, sym, ◌∙◌, false, ltb, some, List, [],
  ◌∷◌, ◌++◌, length, length-append, length-drop, take, take_all, drop, take-append, drop-append,
  map, arith,
}
use model_lib.Prelude.All.{All}
use model_lib.Prelude.Words.{u16_mod}
use model_lib.Network.Buffer.{to_bytes, of_bytes, length-to_bytes, of_bytes-to_bytes}
use model_lib.Files.Stream.{
  Read, value, overrun, PropWriteStream, Property, num, text, long_text, is_short, is_short_signed,
  get_type, get_bytes, get_string, get_long_string, get_prop, get_props, add_props,
}
use model_lib.Files.Stream.Room.{
  HasRoom, IsNarrow, cut, length-cut, encode, encode_all, add_props-encode_all,
}

-- A number fits its bytes.
abbrev pub IsInRange : Property → Type 0
IsInRange (num n v) = v < 256 ^ n
IsInRange (text cs) = Unit
IsInRange (long_text cs) = Unit

abbrev pub IsShort : Property → Type 0
IsShort (num n v) = Unit
IsShort (text cs) = length cs < u16_mod
IsShort (long_text cs) = length cs < u16_mod

-- What is left of a property: a string is cut to its length modulo 2 ^ 16.
abbrev pub kept : Property → Property
kept (num n v) = num n v
kept (text cs) = text (cut cs)
kept (long_text cs) = long_text (cut cs)

-- A stream of less than 2 ^ 31 bytes has the size that it has.
module _ (n : ℕ) (s : List ℕ) (less : length s < 2 ^ 31) where
  is_short-length : is_short n s ≡ ltb (length s) n
  unfolding is_short
  is_short-length = ground (arith, less)

  is_short_signed-length : n < 2 ^ 31 → is_short_signed n s ≡ ltb (length s) n
  unfolding is_short_signed
  is_short_signed-length small = ground (arith, small, is_short-length)

pub get_type-to_bytes :
    (n v : ℕ) (rest : List ℕ)
    → v < 256 ^ n
    → n + length rest < 2 ^ 31
    → get_type n (to_bytes n v ++ rest) ≡ value v rest
unfolding get_type
get_type-to_bytes n v rest h less =
    let width = length-to_bytes n v in
    let whole = length-append (to_bytes n v) rest in
    let long : is_short n (to_bytes n v ++ rest) ≡ false =
      is_short-length n (to_bytes n v ++ rest) (omega (arith, whole, width, less))
      ∙ ground (arith, whole, width) in
    let first =
      subst (λ k. take k (to_bytes n v ++ rest) ≡ to_bytes n v) width
        (take-append (to_bytes n v) rest) in
    let others =
      subst (λ k. drop k (to_bytes n v ++ rest) ≡ rest) width (drop-append (to_bytes n v) rest) in
    rw (long, first, others, of_bytes-to_bytes n v h) refl

pub behind_part : (xs rest : List ℕ) → length (xs ++ rest) < 2 ^ 31 → length rest < 2 ^ 31
behind_part xs rest less = omega (arith, less, length-append xs rest)

cut_first : (cs rest : List ℕ) → take (length cs % u16_mod) (cut cs ++ rest) ≡ cut cs
cut_first cs rest =
    subst (λ k. take k (cut cs ++ rest) ≡ cut cs) (length-cut cs) (take-append (cut cs) rest)

cut_behind : (cs rest : List ℕ) → drop (length cs % u16_mod) (cut cs ++ rest) ≡ rest
cut_behind cs rest =
    subst (λ k. drop k (cut cs ++ rest) ≡ rest) (length-cut cs) (drop-append (cut cs) rest)

-- The string behind its length field.
behind_length : (cs rest : List ℕ) → ltb (length (cut cs ++ rest)) (length cs % u16_mod) ≡ false
behind_length cs rest = ground (arith, length-append (cut cs) rest, length-cut cs)

-- The parts of a stream with a string that is not too long.
module _ (w : ℕ) (cs rest : List ℕ)
    (less : length ((to_bytes w (length cs % u16_mod) ++ cut cs) ++ rest) < 2 ^ 31) where
  behind_less : w + length (cut cs ++ rest) < 2 ^ 31
  behind_less =
      let bytes = to_bytes w (length cs % u16_mod) in
      omega (
        arith,
        less,
        ap length (append_assoc bytes (cut cs) rest),
        length-append bytes (cut cs ++ rest),
        length-to_bytes w (length cs % u16_mod),
      )

  behind_short : is_short (length cs % u16_mod) (cut cs ++ rest) ≡ false
  behind_short =
      is_short-length (length cs % u16_mod) (cut cs ++ rest) (omega (arith, behind_less))
      ∙ behind_length cs rest

  behind_short_signed : is_short_signed (length cs % u16_mod) (cut cs ++ rest) ≡ false
  behind_short_signed =
      is_short_signed-length (length cs % u16_mod) (cut cs ++ rest) (omega (arith, behind_less))
        (omega arith)
      ∙ behind_length cs rest

-- A string is read back up to its cut.
pub get_string-encode :
    (cs rest : List ℕ)
    → length (encode (text cs) ++ rest) < 2 ^ 31
    → get_string (encode (text cs) ++ rest) ≡ value (cut cs) rest
unfolding get_string encode get_bytes
get_string-encode cs rest less =
    rw
      (
        append_assoc (to_bytes 2 (length cs % u16_mod)) (cut cs) rest,
        get_type-to_bytes 2 (length cs % u16_mod) (cut cs ++ rest) (omega arith)
            (behind_less 2 cs rest less),
        behind_short 2 cs rest less,
        behind_length cs rest,
        cut_first cs rest,
        cut_behind cs rest,
      )
      refl

pub get_long_string-encode :
    (cs rest : List ℕ)
    → length (encode (long_text cs) ++ rest) < 2 ^ 31
    → get_long_string (encode (long_text cs) ++ rest) ≡ value (cut cs) rest
unfolding get_long_string encode get_bytes
get_long_string-encode cs rest less =
    rw
      (
        append_assoc (to_bytes 4 (length cs % u16_mod)) (cut cs) rest,
        get_type-to_bytes 4 (length cs % u16_mod) (cut cs ++ rest) (omega arith)
            (behind_less 4 cs rest less),
        behind_short_signed 4 cs rest less,
        behind_length cs rest,
        cut_first cs rest,
        cut_behind cs rest,
      )
      refl

get_prop-encode :
    (p : Property) (rest : List ℕ)
    → IsInRange p
    → length (encode p ++ rest) < 2 ^ 31
    → get_prop p (encode p ++ rest) ≡ value (kept p) rest
unfolding get_prop
get_prop-encode (num n v) rest h less =
    let behind : n + length rest < 2 ^ 31 =
      unfold encode in
      omega (arith, less, length-append (to_bytes n v) rest, length-to_bytes n v) in
    unfold encode in rw (get_type-to_bytes n v rest h behind) refl
get_prop-encode (text cs) rest h less = rw (get_string-encode cs rest less) refl
get_prop-encode (long_text cs) rest h less = rw (get_long_string-encode cs rest less) refl

get_props-encode_all :
    (ps : List Property) (rest : List ℕ)
    → All IsInRange ps
    → length (encode_all ps ++ rest) < 2 ^ 31
    → get_props ps (encode_all ps ++ rest) ≡ value (map kept ps) rest
unfolding get_props encode_all
get_props-encode_all [] rest h less = refl
get_props-encode_all (p ∷ ps) rest h less =
    let apart = append_assoc (encode p) (encode_all ps) rest in
    let first : length (encode p ++ (encode_all ps ++ rest)) < 2 ^ 31 =
      omega (arith, less, ap length apart) in
    let others : length (encode_all ps ++ rest) < 2 ^ 31 =
      omega (arith, first, length-append (encode p) (encode_all ps ++ rest)) in
    rw
      (
        append_assoc (encode p) (encode_all ps) rest,
        get_prop-encode p (encode_all ps ++ rest) h.0 first,
        get_props-encode_all ps rest h.1 others,
      )
      refl

-- With strings of any length.
get_props-add_props :
    (ps : List Property) (s : PropWriteStream)
    → s.bytes ≡ []
    → HasRoom s
    → All IsNarrow ps
    → All IsInRange ps
    → length (encode_all ps) < 2 ^ 31
    → (t : PropWriteStream) × (add_props ps s ≡ some t)
      × (get_props ps t.bytes ≡ value (map kept ps) [])
get_props-add_props ps s fresh room narrow h total =
    let (t, e, b, r) =
      add_props-encode_all ps s narrow room (omega (arith, ap length fresh, total)) in
    let whole : t.bytes ≡ encode_all ps ++ [] =
      b ∙ ap (λ xs. xs ++ encode_all ps) fresh ∙ sym (append-nil (encode_all ps)) in
    (
      t,
      e,
      ap (get_props ps) whole
          ∙ get_props-encode_all ps [] h (omega (arith, total, length-append (encode_all ps) [])),
    )

kept_whole : (ps : List Property) → All IsShort ps → map kept ps ≡ ps
kept_whole [] h = refl
kept_whole (p ∷ ps) h = ap₂ (◌∷◌) (one p h.0) (kept_whole ps h.1)
  where
    one : (p : Property) → IsShort p → kept p ≡ p
    one (num n v) h = refl
    one (text cs) h = ap text (take_all cs (length cs % u16_mod) (omega arith))
    one (long_text cs) h = ap long_text (take_all cs (length cs % u16_mod) (omega arith))

-- Properties that are written into an empty stream are read back in order, up to the end of the
-- stream. The numbers fit their widths of at most eight bytes, the strings are shorter than 2 ^ 16
-- bytes, and all together stays below 2 GB; then no write goes behind the end of the buffer either.
pub get_props_whole :
    (ps : List Property) (s : PropWriteStream)
    → s.bytes ≡ []
    → HasRoom s
    → All IsNarrow ps
    → All IsInRange ps
    → All IsShort ps
    → length (encode_all ps) < 2 ^ 31
    → (t : PropWriteStream) × (add_props ps s ≡ some t) × (get_props ps t.bytes ≡ value ps [])
get_props_whole ps s fresh room narrow h short total =
    let (t, e, f) = get_props-add_props ps s fresh room narrow h total in
    (t, e, f ∙ ap (λ qs. value qs []) (kept_whole ps short))

-- A long string of 2 ^ 16 bytes or more, up to 4 GB, is not read back as it was written, although its
-- length field has room for its length.
pub long_text_cut :
    (cs : List ℕ) (s : PropWriteStream)
    → s.bytes ≡ []
    → HasRoom s
    → u16_mod ≤ length cs
    → (t : PropWriteStream) × (add_props (long_text cs ∷ []) s ≡ some t)
      × (get_props (long_text cs ∷ []) t.bytes ≢ value (long_text cs ∷ []) [])
long_text_cut cs s fresh room long =
    let bytes : List ℕ = to_bytes 4 (length cs % u16_mod) in
    let total : length (encode_all (long_text cs ∷ [])) < 2 ^ 31 =
      unfold encode_all encode in
      omega (
        arith,
        length-append (bytes ++ cut cs) [],
        length-append bytes (cut cs),
        length-to_bytes 4 (length cs % u16_mod),
        length-cut cs,
      ) in
    let (t, e, f) = get_props-add_props (long_text cs ∷ []) s fresh room (tt, tt) (tt, tt) total in
    (t, e, λ same. shorter (sym f ∙ same))
  where
    size : Read (List Property) → ℕ
    size (value (long_text ds ∷ _) _) = length ds
    size _ = 0

    shorter : value (map kept (long_text cs ∷ [])) [] ≢ value (long_text cs ∷ []) []
    shorter same = absurd (omega (arith, ap size same, length-cut cs))

-- When the length field of a long string says 2 ^ 31 or more and the stream has less than 2 ^ 31 bytes,
-- `getLongString` reads behind the end of the stream.
pub get_long_string_overrun :
    (stream : List ℕ)
    → 4 ≤ length stream
    → length stream < 2 ^ 31
    → 2 ^ 31 ≤ of_bytes (take 4 stream)
    → get_long_string stream ≡ overrun
unfolding get_long_string get_type get_bytes is_short is_short_signed
get_long_string_overrun stream h g k = ground (arith, length-drop 4 stream)
