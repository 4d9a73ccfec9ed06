-- ===== src/Files/Nodes/Buffer.antt =====
-- `getProps` of src/fileloader.cpp: what it hands out of a written file, and where its buffer ends.
use mathlib.Core.List.{append_assoc, append-nil}
use model_lib.Prelude.Words.{u16_mod, u32_mod}
use model_lib.Prelude.{
  ◌^◌, ◌%◌, take_all, leb, true, some, subst, if◌then◌else◌, ℕ, suc, ◌+◌, ◌≤◌, ◌<◌, ◌≡◌, refl, ap,
  sym, ◌∙◌, false, ltb, List, [], ◌∷◌, ◌++◌, length, take, drop, length-append, length-take,
  length-drop, take-append, drop-append, arith,
}
use model_lib.Files.Escape.{set_props, sized, unescape_loop, node_start, node_end}
use model_lib.Files.Escape.Unescape.{unescape_loop-write_data}
use model_lib.Files.Nodes.{
  NodeStruct, null, node, Props, props, no_props, overrun, props_or, get_props, read_bytes, grow,
  open_file, parsed,
}
use model_lib.Files.Nodes.Written.{
  Content, empty, item, write, layout, HasPlainTypes, write-item, open_file-write,
}

-- The loop gives the properties back, whatever stands behind them in the buffer.
abbrev GivesBack : Props → List ℕ → Type 0
GivesBack no_props ps = ⊥
GivesBack overrun ps = ⊥
GivesBack (props buffer size) ps = (size ≡ length ps) × (take size buffer ≡ ps)

GivesBack-loop :
    (ps rest : List ℕ)
    → length ps < u16_mod
    → let n = length (set_props ps) in
      GivesBack (props_or (unescape_loop (suc n) n 0 0 false (set_props ps ++ rest))) ps
unfolding set_props
GivesBack-loop ps rest h =
    let whole : sized ps ≡ ps = take_all ps (length ps % u16_mod) (omega arith) in
    let (r, e, f) = unescape_loop-write_data ps rest in rw (whole, e) (refl, f)

-- The bytes that `getProps` reads for a node that stands behind `pre`.
bytes_here :
    (pre ps rest : List ℕ) (b type : ℕ)
    → take (length ps) (drop (length pre + 2) (pre ++ (b ∷ type ∷ (ps ++ rest)))) ≡ ps
bytes_here pre ps rest b type =
    let reach : length pre + 2 ≡ length (pre ++ (b ∷ type ∷ [])) =
      omega (arith, length-append pre (b ∷ type ∷ [])) in
    ap (λ n. take (length ps) (drop n (pre ++ (b ∷ type ∷ (ps ++ rest))))) reach
    ∙ ap (λ xs. take (length ps) (drop (length (pre ++ (b ∷ type ∷ []))) xs))
        (sym (append_assoc pre (b ∷ type ∷ []) (ps ++ rest)))
    ∙ ap (take (length ps)) (drop-append (pre ++ (b ∷ type ∷ [])) (ps ++ rest))
    ∙ take-append ps rest

read_bytes-take :
    (size pos : ℕ) (file : List ℕ)
    → size < 2 ^ 31
    → pos < 2 ^ 31
    → read_bytes size pos file ≡ some (take size (drop pos file))
unfolding read_bytes
read_bytes-take size pos file h g =
    let same : pos % u32_mod ≡ pos = omega arith in
    let low : leb (2 ^ 31) pos ≡ false = ground (arith, g) in
    let few : ltb size (2 ^ 31) ≡ true = ground (arith, h) in rw (same, low, few) refl

-- A part of a file of less than 2 GB, and where it begins, are within 2 GB.
part_within :
    (pre ps rest : List ℕ) (b type : ℕ)
    → length (pre ++ (b ∷ type ∷ (ps ++ rest))) < 2 ^ 31
    → (length ps < 2 ^ 31) × (length pre + 2 < 2 ^ 31)
part_within pre ps rest b type less =
    let all = length-append pre (b ∷ type ∷ (ps ++ rest)) in
    let part = length-append ps rest in
    (omega (arith, all, part, less), omega (arith, all, part, less))

get_props-here :
    (pre ps rest fresh buffer : List ℕ) (b type : ℕ)
    → length ps < u16_mod
    → length (set_props ps) ≤ length buffer + 1024
    → length fresh ≡ length buffer + 1024
    → length (pre ++ (b ∷ type ∷ (set_props ps ++ rest))) < 2 ^ 31
    → GivesBack
        (get_props
          (pre ++ (b ∷ type ∷ (set_props ps ++ rest)))
          fresh
          buffer
          (length pre)
          (length (set_props ps)))
        ps
unfolding get_props
get_props-here pre ps rest fresh buffer b type few h g less =
    let (size, place) = part_within pre (set_props ps) rest b type less in
    let read =
      read_bytes-take (length (set_props ps)) (length pre + 2)
        (pre ++ (b ∷ type ∷ (set_props ps ++ rest))) size place in
    let room : ltb (length (grow (length (set_props ps)) fresh buffer)) (length (set_props ps))
        ≡ false =
      unfold grow in ground arith in
    let whole : ltb (length (set_props ps)) (length (set_props ps)) ≡ false = ground arith in
    rw (read, bytes_here pre (set_props ps) rest b type, room, whole) (GivesBack-loop ps _ few)

read_bytes-enough :
    (size pos : ℕ) (file : List ℕ)
    → pos < 2 ^ 31
    → pos + size ≤ length file
    → (bytes : List ℕ) × (read_bytes size pos file ≡ some bytes) × (size ≤ length bytes)
unfolding read_bytes
read_bytes-enough size pos file near k =
    let same : pos % u32_mod ≡ pos = omega arith in
    let low : leb (2 ^ 31) pos ≡ false = ground (arith, near) in
    (
      if ltb size (2 ^ 31) then take size (drop pos file) else drop pos file,
      rw (same, low) refl,
      ground (arith, length-take size (drop pos file), length-drop pos file),
    )

-- When more bytes have to be read than the buffer holds after it has grown by 1024, and the file has
-- them behind a position that an `int32_t` holds, `getProps` writes behind the end of the buffer.
pub get_props_overrun :
    (file fresh buffer : List ℕ) (start size : ℕ)
    → length fresh ≡ length buffer + 1024
    → length buffer + 1024 < size
    → start + 2 + size ≤ length file
    → start + 2 < 2 ^ 31
    → get_props file fresh buffer start size ≡ overrun
unfolding get_props grow
get_props_overrun file fresh buffer start size h g k near =
    let (bytes, read, long) = read_bytes-enough size (start + 2) file near k in
    rw read (ground (arith, long, h, g))

-- A tree of nodes shows some content: every node has its type, and `getProps` hands its properties
-- out, unescaped.
abbrev pub Shows : List ℕ → List ℕ → List ℕ → NodeStruct → Content → Type 0
Shows file fresh buffer null empty = Unit
Shows file fresh buffer null (item type ps children next) = ⊥
Shows file fresh buffer (node start size t n c) empty = ⊥
Shows file fresh buffer (node start size t n c) (item type ps children next) =
    (t ≡ type)
    × GivesBack (get_props file fresh buffer start size) ps
    × Shows file fresh buffer c children
    × Shows file fresh buffer n next

-- The properties of every node have a number of bytes that a `uint16_t` holds, and fit into a buffer
-- that grows once when they are escaped.
abbrev pub Fits : ℕ → Content → Type 0
Fits n empty = Unit
Fits n (item type ps children next) =
    (length ps < u16_mod) × (length (set_props ps) ≤ n + 1024) × Fits n children × Fits n next

-- A row that stands somewhere in a file is shown by the nodes at its positions.
Shows-layout :
    (c : Content) (file fresh buffer pre post : List ℕ) (pos : ℕ)
    → length fresh ≡ length buffer + 1024
    → HasPlainTypes c
    → Fits (length buffer) c
    → file ≡ pre ++ (write c ++ post)
    → length pre ≡ pos
    → length file < 2 ^ 31
    → Shows file fresh buffer (layout pos c) c
unfolding layout
Shows-layout empty file fresh buffer pre post pos g plain fits e l less = tt
Shows-layout (item type ps children next) file fresh buffer pre post pos g plain fits e l less =
    let closing = node_end ∷ (write next ++ post) in
    let head = node_start ∷ type ∷ set_props ps in
    let whole : file ≡ pre ++ (head ++ (write children ++ closing)) =
      e ∙ ap (λ xs. pre ++ xs) (write-item type ps children next post plain.0) in
    let opened : file ≡ (pre ++ head) ++ (write children ++ closing) =
      whole ∙ sym (append_assoc pre head (write children ++ closing)) in
    let closed : file
        ≡ ((pre ++ head) ++ (write children ++ (node_end ∷ []))) ++ (write next ++ post) =
      opened
      ∙ ap (λ xs. (pre ++ head) ++ xs)
          (sym (append_assoc (write children) (node_end ∷ []) (write next ++ post)))
      ∙ sym (append_assoc (pre ++ head) (write children ++ (node_end ∷ [])) (write next ++ post)) in
    (
      refl,
      rw (whole, ← l)
          (get_props-here pre ps (write children ++ closing) fresh buffer node_start type fits.0
            fits.1 g (subst (λ xs. length xs < 2 ^ 31) whole less)),
      Shows-layout children file fresh buffer (pre ++ head) closing _ g plain.1 fits.2 opened
          (omega (arith, length-append pre head)) less,
      Shows-layout next file fresh buffer ((pre ++ head) ++ (write children ++ (node_end ∷ [])))
          post _ g plain.2 fits.3 closed
          (omega (
            arith,
            length-append pre head,
            length-append (pre ++ head) (write children ++ (node_end ∷ [])),
            length-append (write children) (node_end ∷ []),
          ))
          less,
    )

-- What has been written can be read: the nodes of an opened file show the types and the properties
-- that were written, when the types are not special bytes, the file has less than 2 GB, the properties
-- of each node have less than 2 ^ 16 bytes and fit, escaped, into the buffer after it has grown once,
-- and a buffer of 1024 bytes more is what it grows to.
pub write_shown :
    (type : ℕ) (ps : List ℕ) (children : Content) (fuel : ℕ) (fresh buffer : List ℕ)
    → let root = item type ps children empty in
      let file = 0 ∷ 0 ∷ 0 ∷ 0 ∷ write root in
      HasPlainTypes root
      → Fits (length buffer) root
      → length fresh ≡ length buffer + 1024
      → length file ≤ fuel
      → length file < 2 ^ 31
      → (n : NodeStruct) × (open_file fuel file ≡ parsed n (length file) [])
        × Shows file fresh buffer n root
write_shown type ps children fuel fresh buffer plain fits g h less =
    let root = item type ps children empty in
    (
      layout 4 root,
      open_file-write type ps children fuel plain h less,
      Shows-layout root (0 ∷ 0 ∷ 0 ∷ 0 ∷ write root) fresh buffer (0 ∷ 0 ∷ 0 ∷ 0 ∷ []) [] 4 g plain
          fits (ap (λ xs. 0 ∷ 0 ∷ 0 ∷ 0 ∷ xs) (sym (append-nil (write root)))) refl less,
    )
