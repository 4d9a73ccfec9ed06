-- ===== src/Files/Nodes/Written.antt =====
-- `parseNode` and `getProps` of src/fileloader.cpp read back the nodes that `startNode`, `setProps`
-- and `endNode` have written.
use mathlib.Core.List.{append_assoc, append-nil}
use model_lib.Prelude.{
  ℕ, zero, suc, ◌+◌, ◌-◌, ◌≤◌, ◌<◌, ◌≡◌, refl, ap, sym, ◌∙◌, true, false, Option, none, some, List,
  [], ◌∷◌, ◌++◌, length, length-append, arith, Bool-cases, inl, inr, ◌^◌, ltb,
}
use model_lib.Files.Escape.{
  node_start, node_end, escape_char, is_special, write_data, start_node, sized, set_props, end_node,
}
use model_lib.Files.Nodes.{
  NodeStruct, null, node, parsed, parsed_then, size_or, scan, open_bytes, open_file, parse_node,
}

-- What a program writes: a row of nodes, each with its type, its properties and the row of its
-- children.
pub data Content : Type 0 where
  empty : Content
  item : ℕ → List ℕ → Content → Content → Content

-- The calls by which it is written: `startNode`, `setProps`, the children, `endNode`.
unfoldable pub write : Content → List ℕ
write empty = []
write (item type props children next) =
    start_node type ++ (set_props props ++ (write children ++ (end_node ++ write next)))

-- The nodes of a row that begins at a position.
unfoldable pub layout : ℕ → Content → NodeStruct
layout pos empty = null
layout pos (item type props children next) =
    let inner = pos + 2 + length (set_props props) in
    node pos (length (set_props props)) type (layout (inner + length (write children) + 1) next)
      (layout inner children)

-- No type is one of the special bytes.
abbrev pub HasPlainTypes : Content → Type 0
HasPlainTypes empty = Unit
HasPlainTypes (item type props children next) =
    (is_special type ≡ false) × HasPlainTypes children × HasPlainTypes next

-- What may stand behind a row: nothing, or the end of the parent.
abbrev pub IsEnd : List ℕ → Type 0
IsEnd [] = Unit
IsEnd (b ∷ bs) = b ≡ node_end

module _ (fuel start type : ℕ) (child : NodeStruct) (size : Option ℕ) (pos : ℕ) where
  scan-escape :
      (c : ℕ) (rest : List ℕ)
      → scan (suc fuel) start type child size pos (escape_char ∷ c ∷ rest)
        ≡ scan fuel start type child size (suc (suc pos)) rest
  unfolding scan
  scan-escape c rest = refl

  scan-plain :
      (c : ℕ) (rest : List ℕ)
      → is_special c ≡ false
      → scan (suc fuel) start type child size pos (c ∷ rest)
        ≡ scan fuel start type child size (suc pos) rest
  unfolding scan is_special
  scan-plain c rest h = ground arith

-- The loop passes over properties.
scan-props :
    (ps : List ℕ) (fuel start type : ℕ) (child : NodeStruct) (size : Option ℕ) (pos : ℕ)
    (rest : List ℕ)
    → length (write_data ps true ++ rest) < fuel
    → (fuel' : ℕ) × (length rest < fuel')
      × (scan fuel start type child size pos (write_data ps true ++ rest)
          ≡ scan fuel' start type child size (pos + length (write_data ps true)) rest)
unfolding write_data
scan-props [] fuel start type child size pos rest h =
    (fuel, h, ap (λ p. scan fuel start type child size p rest) (omega arith))
scan-props (c ∷ cs) zero start type child size pos rest h = absurd (omega arith)
scan-props (c ∷ cs) (suc fuel) start type child size pos rest h = elim (Bool-cases (is_special c)) [
  | inl special ↦
      let (f, lt, e) =
        scan-props cs fuel start type child size (suc (suc pos)) rest
          (ground (arith, special, h)) in
      rw special (
        f,
        lt,
        scan-escape fuel start type child size pos c _
            ∙ e
            ∙ ap (λ p. scan f start type child size p rest) (omega arith),
      )
  | inr plain ↦
      let (f, lt, e) =
        scan-props cs fuel start type child size (suc pos) rest (ground (arith, plain, h)) in
      rw plain (
        f,
        lt,
        scan-plain fuel start type child size pos c _ plain
            ∙ e
            ∙ ap (λ p. scan f start type child size p rest) (omega arith),
      )
]

-- What stands behind the type of a node that is followed by `post`.
abbrev inside : List ℕ → Content → Content → List ℕ → List ℕ
inside props children next post =
    set_props props ++ (write children ++ (node_end ∷ (write next ++ post)))

pub write-item :
    (type : ℕ) (props : List ℕ) (children next : Content) (post : List ℕ)
    → is_special type ≡ false
    → write (item type props children next) ++ post
      ≡ node_start ∷ type ∷ inside props children next post
unfolding write start_node end_node write_data
write-item type props children next post h = rw h (
    ap (λ xs. node_start ∷ type ∷ xs)
      (append_assoc (set_props props) (write children ++ (node_end ∷ write next)) post
        ∙ ap (λ xs. set_props props ++ xs)
            (append_assoc (write children) (node_end ∷ write next) post)))

-- A node takes two bytes and more.
pub length-write-item :
    (type : ℕ) (props : List ℕ) (children next : Content)
    → is_special type ≡ false
    → 2 ≤ length (write (item type props children next))
length-write-item type props children next h =
    let all = ap length (write-item type props children next [] h) in
    omega (arith, all, length-append (write (item type props children next)) [])

pub length-write :
    (type : ℕ) (props : List ℕ) (children next : Content)
    → is_special type ≡ false
    → length (write (item type props children next))
      ≡ 2 + length (set_props props) + (length (write children) + (1 + length (write next)))
unfolding write start_node end_node write_data
length-write type props children next h = rw h (
    omega (
      arith,
      length-append (set_props props) (write children ++ (node_end ∷ write next)),
      length-append (write children) (node_end ∷ write next),
    ))

-- How the loop parses a row when its first type has been read.
abbrev Rule : Content → Type 0
Rule empty = Unit
Rule (item type props children next) =
    (fuel pos : ℕ) (post : List ℕ)
    → HasPlainTypes (item type props children next)
    → IsEnd post
    → length (inside props children next post) < fuel
    → scan fuel pos type null none (suc (suc pos)) (inside props children next post)
      ≡ parsed (layout pos (item type props children next))
          (pos + length (write (item type props children next))) post

scan-next :
    (next : Content) (fuel start type : ℕ) (child : NodeStruct) (size : Option ℕ) (pos : ℕ)
    (post : List ℕ)
    → Rule next
    → HasPlainTypes next
    → IsEnd post
    → length (write next ++ post) ≤ fuel
    → scan (suc fuel) start type child size pos (node_end ∷ (write next ++ post))
      ≡ parsed
          (node start (size_or size (pos - start - 2)) type (layout (suc pos) next) child)
          (suc pos + length (write next))
          post
unfolding scan
scan-next empty fuel start type child size pos [] rule plain closed h =
    let fin : suc pos ≡ suc pos + 0 = omega arith in
    unfold write layout in
    ap (λ p. parsed (node start (size_or size (pos - start - 2)) type null child) p []) fin
scan-next empty fuel start type child size pos (b ∷ post) rule plain closed h =
    let fin : suc pos ≡ suc pos + 0 = omega arith in
    unfold write layout in
    rw closed (
      ap
        (λ p.
          parsed (node start (size_or size (pos - start - 2)) type null child) p (node_end ∷ post))
        fin)
scan-next (item t ps cs n) fuel start type child size pos post rule plain closed h =
    let row = write-item t ps cs n post plain.0 in
    ap (λ xs. scan (suc fuel) start type child size pos (node_end ∷ xs)) row
    ∙ ap
        (λ o.
          parsed_then o
            (λ next p r. parsed (node start (size_or size (pos - start - 2)) type next child) p r))
        (rule fuel (suc pos) post plain closed (omega (arith, ap length row)))

scan-children :
    (children : Content) (fuel start type pos : ℕ) (rest : List ℕ)
    → Rule children
    → HasPlainTypes children
    → IsEnd rest
    → length (write children ++ rest) < fuel
    → (fuel' : ℕ) × (size : Option ℕ) × (length rest < fuel')
      × (size_or size (pos + length (write children) - start - 2) ≡ pos - start - 2)
      × (scan fuel start type null none pos (write children ++ rest)
          ≡ scan fuel' start type (layout pos children) size (pos + length (write children)) rest)
scan-children empty fuel start type pos rest rule plain closed h =
    unfold write layout in
    (fuel, none, h, omega arith, ap (λ p. scan fuel start type null none p rest) (omega arith))
scan-children (item t ps cs n) zero start type pos rest rule plain closed h = absurd (omega arith)
scan-children (item t ps cs n) (suc fuel) start type pos rest rule plain closed h =
    let row = write-item t ps cs n rest plain.0 in
    (
      fuel,
      some (pos - start - 2),
      omega
          (arith, length-write-item t ps cs n plain.0, length-append (write (item t ps cs n)) rest),
      refl,
      ap (scan (suc fuel) start type null none pos) row
          ∙ unfold scan in
            ap (λ o. parsed_then o (λ c p r. scan fuel start type c (some (pos - start - 2)) p r))
              (rule fuel pos rest plain closed (omega (arith, ap length row))),
    )

scan-item :
    (type : ℕ) (props : List ℕ) (children next : Content)
    → Rule children
    → Rule next
    → Rule (item type props children next)
scan-item type props children next lower later fuel pos post plain closed h =
    let ending = node_end ∷ (write next ++ post) in
    let inner = suc (suc pos) + length (set_props props) in
    let (f, lt, e) =
      scan-props (sized props) fuel pos type null none (suc (suc pos)) (write children ++ ending)
        (unfold set_props in h) in
    let (f', size, lt', same, e') =
      scan-children children f pos type inner ending lower plain.1 refl lt in
    let behind = inner + length (write children) in
    let some_fuel : f' ≡ suc (f' - 1) = omega arith in
    let e'' =
      scan-next next (f' - 1) pos type (layout inner children) size behind post later plain.2 closed
        (omega arith) in
    let first : inner ≡ pos + 2 + length (set_props props) = omega arith in
    let second : suc behind ≡ pos + 2 + length (set_props props) + length (write children) + 1 =
      omega arith in
    let fin : suc behind + length (write next)
        ≡ pos + length (write (item type props children next)) =
      omega (arith, length-write type props children next plain.0) in
    let size_is : size_or size (behind - pos - 2) ≡ length (set_props props) =
      omega (arith, same) in
    let result : parsed
          (node pos (size_or size (behind - pos - 2)) type (layout (suc behind) next)
            (layout inner children))
          (suc behind + length (write next)) post
        ≡ parsed (layout pos (item type props children next))
            (pos + length (write (item type props children next))) post =
      unfold layout in cc in
    let start : scan fuel pos type null none (suc (suc pos)) (inside props children next post)
        ≡ scan f pos type null none inner (write children ++ ending) =
      unfold set_props in e in
    start
    ∙ e'
    ∙ ap (λ n. scan n pos type (layout inner children) size behind ending) some_fuel
    ∙ e''
    ∙ result

scan-Rule : (c : Content) → Rule c
scan-Rule empty = tt
scan-Rule (item type props children next) =
    scan-item type props children next (scan-Rule children) (scan-Rule next)

-- A file that holds four zero bytes and then a node, written with its children, is opened: the root
-- is that node and every node stands where its start, size and type say. The fuel is the file's
-- length, which is less than 2 GB, and no type is a special byte.
pub open_file-write :
    (type : ℕ) (props : List ℕ) (children : Content) (fuel : ℕ)
    → HasPlainTypes (item type props children empty)
    → let root = item type props children empty in
      let file = 0 ∷ 0 ∷ 0 ∷ 0 ∷ write root in
      length file ≤ fuel
      → length file < 2 ^ 31
      → open_file fuel file ≡ parsed (layout 4 root) (length file) []
unfolding open_file open_bytes parse_node
open_file-write type props children fuel plain h less =
    let root = item type props children empty in
    let row = sym (append-nil (write root)) ∙ write-item type props children empty [] plain.0 in
    let read = scan-Rule root fuel 4 [] plain tt (omega (arith, ap length row)) in
    let fin : 4 + length (write root) ≡ length (0 ∷ 0 ∷ 0 ∷ 0 ∷ write root) = omega arith in
    let short : ltb (length (0 ∷ 0 ∷ 0 ∷ 0 ∷ write root)) (2 ^ 31) ≡ true = ground (arith, less) in
    rw short (
      ap (λ xs. open_bytes fuel (0 ∷ 0 ∷ 0 ∷ 0 ∷ xs)) row
      ∙ read
      ∙ ap (λ n. parsed (layout 4 root) n []) fin)
