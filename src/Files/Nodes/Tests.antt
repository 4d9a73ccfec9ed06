-- ===== src/Files/Nodes/Tests.antt =====
-- Tests of the node files, and the theorems at concrete inputs.
use model_lib.Prelude.{
  ℕ, ◌≡◌, refl, true, false, ◌<◌, ◌^◌, some, List, [], ◌∷◌, ◌++◌, length, length-replicate,
  replicate, take, arith,
}
use model_lib.Files.Escape.{set_props, is_special, write_data, unescape_loop, start_node, end_node}
use model_lib.Files.Escape.Unescape.{unescape_loop-write_data}
use model_lib.Files.Nodes.{
  NodeStruct, null, node, open_bytes, failed, parsed, invalid_format, overrun, get_props, open_file,
  scan,
}
use model_lib.Files.Nodes.Written.{
  Content, empty, item, write, layout, open_file-write, HasPlainTypes,
}
use model_lib.Files.Nodes.Buffer.{Shows, Fits, write_shown, get_props_overrun}

abbrev map_data : Content
map_data = item 2 (7 ∷ 0xFE ∷ []) empty (item 4 (0xFD ∷ []) (item 6 [] empty empty) empty)

abbrev root : Content
root = item 0 (1 ∷ 0xFF ∷ 2 ∷ []) map_data empty

abbrev file : List ℕ
unfolding write start_node set_props end_node write_data
file = 0 ∷ 0 ∷ 0 ∷ 0 ∷ write root

written :
    file
    ≡ 0 ∷ 0 ∷ 0 ∷ 0 ∷ 0xFE ∷ 0 ∷ 1 ∷ 0xFD ∷ 0xFF ∷ 2 ∷ 0xFE ∷ 2 ∷ 7 ∷ 0xFD ∷ 0xFE ∷ 0xFF ∷ 0xFE ∷ 4
      ∷ 0xFD ∷ 0xFD ∷ 0xFE ∷ 6 ∷ 0xFF ∷ 0xFF ∷ 0xFF ∷ []
unfolding write start_node set_props end_node write_data
written = refl

opened :
    open_file 30 file
    ≡ parsed (node 4 4 0 null (node 10 3 2 (node 16 2 4 null (node 20 0 6 null null)) null)) 25 []
unfolding open_file open_bytes scan write start_node set_props end_node write_data
opened = refl

-- A row that does not end with `NODE_END` or a new node
garbled : open_file 30 (0 ∷ 0 ∷ 0 ∷ 0 ∷ 0xFE ∷ 0 ∷ 0xFF ∷ 7 ∷ []) ≡ failed invalid_format
unfolding open_file open_bytes scan
garbled = refl

unescape_loop-write_data_example :
    (r : List ℕ) × (unescape_loop 6 5 0 0 false (write_data (0xFE ∷ 1 ∷ 0xFD ∷ []) true ++ 9 ∷ [])
      ≡ some (r, 3))
    × (take 3 r ≡ 0xFE ∷ 1 ∷ 0xFD ∷ [])
unescape_loop-write_data_example =
    unfold write_data in unescape_loop-write_data (0xFE ∷ 1 ∷ 0xFD ∷ []) (9 ∷ [])

root-HasPlainTypes : HasPlainTypes root
unfolding is_special
root-HasPlainTypes = (refl, (refl, tt, (refl, (refl, tt, tt), tt)), tt)

root-short : length (0 ∷ 0 ∷ 0 ∷ 0 ∷ write root) < 2 ^ 31
unfolding write start_node set_props end_node write_data
root-short = omega arith

root-Fits : Fits 3 root
unfolding set_props write_data
root-Fits = omega arith

open_file-write_example :
    open_file (length (0 ∷ 0 ∷ 0 ∷ 0 ∷ write root)) (0 ∷ 0 ∷ 0 ∷ 0 ∷ write root)
    ≡ parsed (layout 4 root) (length (0 ∷ 0 ∷ 0 ∷ 0 ∷ write root)) []
open_file-write_example =
    open_file-write 0 (1 ∷ 0xFF ∷ 2 ∷ []) map_data _ root-HasPlainTypes (omega arith) root-short

write_shown_example :
    (n : NodeStruct) × (open_file (length (0 ∷ 0 ∷ 0 ∷ 0 ∷ write root)) (0 ∷ 0 ∷ 0 ∷ 0 ∷ write root)
      ≡ parsed n (length (0 ∷ 0 ∷ 0 ∷ 0 ∷ write root)) [])
    × Shows (0 ∷ 0 ∷ 0 ∷ 0 ∷ write root) (replicate 1027 0) (5 ∷ 6 ∷ 7 ∷ []) n root
write_shown_example =
    write_shown 0 (1 ∷ 0xFF ∷ 2 ∷ []) map_data _ (replicate 1027 0) (5 ∷ 6 ∷ 7 ∷ [])
      root-HasPlainTypes root-Fits (length-replicate {A = ℕ} 1027 0) (omega arith) root-short

get_props_overrun_example :
    get_props (replicate 2000 7) (replicate 1025 0) (0 ∷ []) 0 1100 ≡ overrun
get_props_overrun_example =
    get_props_overrun (replicate 2000 7) (replicate 1025 0) (0 ∷ []) 0 1100
      (length-replicate {A = ℕ} 1025 0) (omega arith)
      (omega (arith, length-replicate {A = ℕ} 2000 7)) (omega arith)
