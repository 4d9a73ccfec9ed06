-- ===== src/Files/Escape.antt =====
-- How `FileLoader` of src/fileloader.h and fileloader.cpp escapes the bytes of a node: `writeData`,
-- `startNode`, `setProps` and `endNode` as the bytes that they append to the file, and the loop by
-- which `getProps` takes the escapes out of its buffer.
pub mod Unescape
use model_lib.Prelude.Words.{u16_mod}
use model_lib.Prelude.{
  take, length, ◌%◌, ℕ, zero, suc, ◌+◌, Bool, true, false, ◌&&◌, ◌||◌, ltb, ◌==◌, if◌then◌else◌,
  Option, none, some, ◌>>=◌, List, [], ◌∷◌, ◌++◌,
}

-- `SPECIAL_BYTES`
abbrev pub node_start : ℕ
node_start = 0xFE

abbrev pub node_end : ℕ
node_end = 0xFF

abbrev pub escape_char : ℕ
escape_char = 0xFD

unfoldable pub is_special : ℕ → Bool
is_special c = c == node_start || c == node_end || c == escape_char

-- The bytes that `writeData` appends; a write that fails is not modelled.
unfoldable pub write_data : List ℕ → Bool → List ℕ
unfolding is_special
write_data [] unescape = []
write_data (c ∷ cs) unescape =
    let rest = write_data cs unescape in
    if unescape && is_special c then escape_char ∷ c ∷ rest else c ∷ rest

unfoldable pub start_node : ℕ → List ℕ
start_node type = write_data (node_start ∷ []) false ++ write_data (type ∷ []) true

-- As many of the bytes as their number says, which is a `uint16_t`.
abbrev pub sized : List ℕ → List ℕ
sized props = take (length props % u16_mod) props

unfoldable pub set_props : List ℕ → List ℕ
set_props props = write_data (sized props) true

unfoldable pub end_node : List ℕ
end_node = write_data (node_end ∷ []) false

-- A byte of a buffer; outside, and that is a fault, `none`.
unfoldable pub byte_at : ℕ → List ℕ → Option ℕ
byte_at i [] = none
byte_at zero (b ∷ bs) = some b
byte_at (suc i) (b ∷ bs) = byte_at i bs

unfoldable pub store : ℕ → ℕ → List ℕ → Option (List ℕ)
store i v [] = none
store zero v (b ∷ bs) = some (v ∷ bs)
store (suc i) v (b ∷ bs) = store i v bs >>= (λ bs'. some (b ∷ bs'))

-- The loop of `getProps` over its buffer: the buffer behind it, and the size that is left. It runs
-- once for each byte at most, which is the fuel; without fuel it is `none` too.
unfoldable pub unescape_loop : ℕ → ℕ → ℕ → ℕ → Bool → List ℕ → Option (List ℕ × ℕ)
unescape_loop zero size i j escaped buffer = none
unescape_loop (suc fuel) size i j escaped buffer = elim (ltb i size) [
  | false ↦ some (buffer, j)
  | true ↦ byte_at i buffer >>= (λ b. elim (b == escape_char) [
    | true ↦ byte_at (suc i) buffer >>= (λ c.
        store j c buffer
        >>= (λ buffer'. unescape_loop fuel size (suc (suc i)) (suc j) true buffer'))
    | false ↦ elim escaped [
      | true ↦
          store j b buffer >>= (λ buffer'. unescape_loop fuel size (suc i) (suc j) true buffer')
      | false ↦ unescape_loop fuel size (suc i) (suc j) false buffer
    ]
  ])
]
