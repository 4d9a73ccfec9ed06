-- ===== src/Files/Nodes.antt =====
-- How `FileLoader` of src/fileloader.cpp parses a file into nodes, and how it hands their properties
-- out. The file is the list of the bytes from the position on; the cache of blocks is left aside.
pub mod Parse
pub mod Written
pub mod Buffer
mod Tests
use model_lib.Prelude.{
  ℕ, zero, suc, ◌+◌, ◌-◌, ◌%◌, ◌^◌, Bool, true, false, leb, ltb, ◌==◌, if◌then◌else◌, Option, none,
  some, ◌>>=◌, List, [], ◌∷◌, ◌++◌, length, take, drop,
}
use model_lib.Prelude.Words.{u32_mod}
use model_lib.Files.Escape.{node_start, node_end, escape_char, unescape_loop}

-- `NodeStruct`, where `null` is the null pointer: `start`, `propsSize`, `type`, `next` and `child`
pub data NodeStruct : Type 0 where
  null : NodeStruct
  node : ℕ → ℕ → ℕ → NodeStruct → NodeStruct → NodeStruct

-- `FILELOADER_ERRORS`, those that parsing sets
pub data Error : Type 0 where
  no_error invalid_file_version eof invalid_format : Error

-- `exhausted` means that the fuel ran out, and `too_long` that the file is too long for positions of
-- the type `int32_t`; what happens then is not modelled. A parsed node comes with the position and the
-- bytes from there on.
pub data Outcome : Type 0 where
  exhausted too_long : Outcome
  failed : Error → Outcome
  parsed : NodeStruct → ℕ → List ℕ → Outcome

abbrev pub parsed_then : Outcome → (NodeStruct → ℕ → List ℕ → Outcome) → Outcome
parsed_then exhausted k = exhausted
parsed_then too_long k = too_long
parsed_then (failed e) k = failed e
parsed_then (parsed n pos rest) k = k n pos rest

-- A node begins with its type.
abbrev pub read_type : (ℕ → NodeStruct → Option ℕ → ℕ → List ℕ → Outcome) → ℕ → List ℕ → Outcome
read_type scan pos [] = failed eof
read_type scan pos (type ∷ rest) = scan type null none (suc pos) rest

abbrev pub skip_byte : (ℕ → List ℕ → Outcome) → ℕ → List ℕ → Outcome
skip_byte scan pos [] = failed eof
skip_byte scan pos (b ∷ rest) = scan (suc pos) rest

abbrev pub size_or : Option ℕ → ℕ → ℕ
size_or none size = size
size_or (some size) _ = size

-- Behind `NODE_END`: the next node of the row, or the end of the parent, to which the position goes
-- back.
abbrev pub end_of_node :
    (ℕ → ℕ → NodeStruct → Option ℕ → ℕ → List ℕ → Outcome)
    → ℕ
    → ℕ
    → NodeStruct
    → ℕ
    → ℕ
    → List ℕ
    → Outcome
end_of_node scan start type child size pos [] = parsed (node start size type null child) pos []
end_of_node scan start type child size pos (b ∷ rest) = elim (b == node_start) [
  | true ↦
      parsed_then (read_type (scan pos) (suc pos) rest)
        (λ next p r. parsed (node start size type next child) p r)
  | false ↦ elim (b == node_end) [
    | true ↦ parsed (node start size type null child) pos (b ∷ rest)
    | false ↦ failed invalid_format
  ]
]

-- The inner loop of `parseNode` for the node at `start`: its type, child and size are known so far.
unfoldable pub scan : ℕ → ℕ → ℕ → NodeStruct → Option ℕ → ℕ → List ℕ → Outcome
scan zero start type child size pos rest = exhausted
scan (suc fuel) start type child size pos [] = failed eof
scan (suc fuel) start type child size pos (b ∷ rest) = elim (b == node_start) [
  | true ↦
      parsed_then (read_type (scan fuel pos) (suc pos) rest)
        (λ c p r. scan fuel start type c (some (pos - start - 2)) p r)
  | false ↦ elim (b == node_end) [
    | true ↦
        end_of_node (scan fuel) start type child (size_or size (pos - start - 2)) (suc pos) rest
    | false ↦ elim (b == escape_char) [
      | true ↦ skip_byte (scan fuel start type child size) (suc pos) rest
      | false ↦ scan fuel start type child size (suc pos) rest
    ]
  ]
]

-- `parseNode` of the node at `start`, whose `NODE_START` has been read
unfoldable pub parse_node : ℕ → ℕ → ℕ → List ℕ → Outcome
parse_node fuel start = read_type (scan fuel start)

-- `openFile` for reading, a file whose positions an `int32_t` holds: four bytes of version, all zero,
-- and the root behind them.
unfoldable pub open_bytes : ℕ → List ℕ → Outcome
unfolding parse_node
open_bytes fuel (v0 ∷ v1 ∷ v2 ∷ v3 ∷ rest) =
    if ltb 0 (v0 + v1 + v2 + v3) then failed invalid_file_version else elim rest [
      | [] ↦ failed eof
      | b ∷ rest' ↦ elim (b == node_start) [
        | true ↦ parse_node fuel 4 5 rest'
        | false ↦ failed no_error
      ]
    ]
open_bytes fuel _ = failed eof

unfoldable pub open_file : ℕ → List ℕ → Outcome
unfolding open_bytes
open_file fuel file = if ltb (length file) (2 ^ 31) then open_bytes fuel file else too_long

-- The buffer that `getProps` reads into: it grows by 1024 bytes when it is too small.
unfoldable pub grow : ℕ → List ℕ → List ℕ → List ℕ
grow props_size fresh buffer = if leb (length buffer) props_size then fresh else buffer

-- What `getProps` hands out: nothing, when the file is too short; the buffer with the size of the
-- properties in it; or it has written or read outside of the buffer.
pub data Props : Type 0 where
  no_props overrun : Props
  props : List ℕ → ℕ → Props

abbrev pub props_or : Option (List ℕ × ℕ) → Props
props_or none = overrun
props_or (some (buffer, size)) = props buffer size

-- `readBytes` without the cache, from a position on, which it takes as an `int32_t`, as it does the
-- number of bytes: there is no negative position to seek, and a negative number of bytes is all.
unfoldable pub read_bytes : ℕ → ℕ → List ℕ → Option (List ℕ)
read_bytes size pos file =
    let at = pos % u32_mod in
    if leb (2 ^ 31) at
    then none
    else some (if ltb size (2 ^ 31) then take size (drop at file) else drop at file)

-- `getProps` behind `readBytes`: the buffer, the number of bytes to read, and those read.
abbrev pub props_read : List ℕ → ℕ → Option (List ℕ) → Props
props_read room size none = no_props
props_read room size (some bytes) =
    if ltb (length room) (length bytes)
    then overrun
    else if ltb (length bytes) size
    then no_props
    else props_or (unescape_loop (suc size) size 0 0 false (bytes ++ drop size room))

-- `getProps` of the node at `start`. `fresh` is what a new buffer holds at first.
unfoldable pub get_props : List ℕ → List ℕ → List ℕ → ℕ → ℕ → Props
get_props file fresh buffer start props_size =
    props_read (grow props_size fresh buffer) props_size (read_bytes props_size (start + 2) file)
