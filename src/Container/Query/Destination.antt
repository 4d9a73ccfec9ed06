-- ===== src/Container/Query/Destination.antt =====
-- `__queryDestination` of `Container` in src/container.cpp.
use model_lib.Prelude.{
  ℕ, ◌+◌, Bool, false, ◌&&◌, ◌||◌, not, leb, ltb, ◌==◌, if◌then◌else◌, Option, none, some, List, [],
  ◌∷◌,
}
use model_lib.Container.Heap.{Parent, nowhere, inside, elsewhere, Heap, ItemTypes, capacity}
use model_lib.Container.Query.{Flags, get_thing, is_parent}

-- The last stack of a list with room for an item, and its place counted from 1.
unfoldable pub last_stack : Heap → ℕ → ℕ → List ℕ → Option (ℕ × ℕ)
last_stack h id place [] = none
last_stack h id place (d ∷ ds) = elim (last_stack h id (place + 1) ds) [
  | some found ↦ some found
  | none ↦ if (h d).id == id && ltb (h d).count 100 then some (place, d) else none
]

abbrev pub is_index : ℕ → Option ℕ → Bool
is_index n none = false
is_index n (some m) = m == n

abbrev pub beyond : ℕ → Option ℕ → Bool
beyond n none = false
beyond n (some m) = leb n m

-- Where an item is moved up to.
abbrev pub parent_or : ℕ → Parent → ℕ
parent_or c nowhere = c
parent_or c (inside d) = d
parent_or c (elsewhere t) = c

abbrev pub this_or : Option ℕ → Option ℕ → Option ℕ
this_or dest none = dest
this_or dest (some d) = some d

-- What is at an index: a container takes the item itself.
unfoldable pub at_index : Heap → ℕ → Option ℕ → Option ℕ → ℕ × Option ℕ × Option ℕ
at_index h c none dest = (c, none, dest)
at_index h c (some n) dest = elim (this_or dest (get_thing h c n)) [
  | none ↦ (c, some n, none)
  | some d ↦ if (h d).is_container then (d, none, none) else (c, some n, some d)
]

-- `__queryDestination`: the cylinder, the index and the item to put it on. The
-- index 254 is a move up, and 255 anywhere.
unfoldable pub query_destination :
    ItemTypes → Heap → ℕ → Option ℕ → Option ℕ → Option ℕ → Flags → ℕ × Option ℕ × Option ℕ
unfolding last_stack
query_destination types h c index thing dest flags =
    if is_index 254 index
    then (parent_or c (h c).parent, none, none)
    else (let lost = is_index 255 index || beyond (capacity (h c)) index in
        let index' = if lost then none else index in
        let dest' = if lost then none else dest in
        elim thing [
          | none ↦ (c, index', dest')
          | some i ↦
              elim (if not flags.ignore_auto_stack
                  && (types (h i).id).stackable
                  && not (is_parent c (h i).parent)
                then last_stack h (h i).id 1 (h c).item_list
                else none) [ some (n, d) ↦ (c, some n, some d) | none ↦ at_index h c index' dest' ]
        ])
