-- ===== src/Files/Stream/Tests.antt =====
-- Tests of the property streams, and the theorems at concrete inputs.
use model_lib.Prelude.{ℕ, ◌≡◌, ◌≢◌, refl, some, List, [], ◌∷◌, replicate, length-replicate, arith}
use model_lib.Network.Buffer.{to_bytes, of_bytes}
use model_lib.Files.Stream.{
  PropWriteStream, new_stream, Property, num, text, long_text, value, refused, overrun, add_props,
  add_prop, add_type, add_string, add_long_string, add_bytes, grow, get_props, get_string,
  get_long_string, get_type, get_bytes, skip,
}
use model_lib.Files.Stream.Room.{HasRoom, encode_all, encode}
use model_lib.Files.Stream.RoundTrip.{get_props_whole, long_text_cut, get_long_string_overrun}

abbrev item : List Property
item = num 1 7 ∷ num 2 300 ∷ text (104 ∷ 105 ∷ []) ∷ num 4 70000 ∷ long_text (33 ∷ []) ∷ []

new_stream-HasRoom : HasRoom new_stream
new_stream-HasRoom = record { inside = omega arith; ahead = omega arith }

written :
    add_props item new_stream
    ≡ some (record {
      bytes = 7 ∷ 44 ∷ 1 ∷ 2 ∷ 0 ∷ 104 ∷ 105 ∷ 112 ∷ 17 ∷ 1 ∷ 0 ∷ 1 ∷ 0 ∷ 0 ∷ 0 ∷ 33 ∷ [];
      buffer_size = 32;
    })
unfolding add_props add_prop add_type add_string add_long_string add_bytes grow to_bytes
written = refl

-- A string that is longer than the stream is refused behind its length.
too_short : get_string (9 ∷ 0 ∷ 104 ∷ []) ≡ refused (104 ∷ [])
unfolding get_string get_type get_bytes of_bytes
too_short = refl

skipped : skip 2 (9 ∷ 0 ∷ 104 ∷ []) ≡ value tt (104 ∷ [])
unfolding skip
skipped = refl

get_props_whole_example :
    (t : PropWriteStream) × (add_props item new_stream ≡ some t)
    × (get_props item t.bytes ≡ value item [])
get_props_whole_example =
    get_props_whole item new_stream refl new_stream-HasRoom (omega arith) (omega arith)
      (omega arith) (unfold encode_all encode to_bytes in omega arith)

long_text_cut_example :
    (t : PropWriteStream) × (add_props (long_text (replicate 65536 33) ∷ []) new_stream ≡ some t)
    × (get_props (long_text (replicate 65536 33) ∷ []) t.bytes
        ≢ value (long_text (replicate 65536 33) ∷ []) [])
long_text_cut_example =
    long_text_cut (replicate 65536 33) new_stream refl new_stream-HasRoom
      (omega (arith, length-replicate {A = ℕ} 65536 33))

get_long_string_overrun_example : get_long_string (0 ∷ 0 ∷ 0 ∷ 128 ∷ 1 ∷ []) ≡ overrun
get_long_string_overrun_example =
    get_long_string_overrun (0 ∷ 0 ∷ 0 ∷ 128 ∷ 1 ∷ []) (omega arith) (omega arith)
      (unfold of_bytes in omega arith)
