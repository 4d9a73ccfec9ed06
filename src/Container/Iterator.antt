-- ===== src/Container/Iterator.antt =====
-- `ContainerIterator` of src/container.h and container.cpp, and the functions of `Container` that go
-- through all that is inside of a container by it.
use model_lib.Prelude.{
  ℕ, zero, suc, ◌+◌, Bool, true, false, ◌&&◌, not, ◌==◌, if◌then◌else◌, Option, none, some, List,
  [], ◌∷◌, ◌++◌,
}
use model_lib.Prelude.Pointers.{is_nil}
use model_lib.Container.Heap.{Heap}

-- The queue of the containers still to be visited, the first of which is being visited, and the items
-- of this one from `current` on.
pub record Iterator : Type 0 where
  pub over : List ℕ
  pub current : List ℕ

-- `begin`; `end` has an empty queue.
unfoldable pub begin : Heap → ℕ → Iterator
begin h c =
    if is_nil (h c).item_list
    then record { over = []; current = [] }
    else record { over = c ∷ []; current = (h c).item_list }

abbrev pub pop : List ℕ → List ℕ
pop [] = []
pop (c ∷ cs) = cs

-- The begin of the first container of a queue.
unfoldable pub front_begin : Heap → List ℕ → Iterator
front_begin h [] = record { over = []; current = [] }
front_begin h (c ∷ cs) = record { over = c ∷ cs; current = (h c).item_list }

-- The queue with an item behind it, if that is a container and not empty.
unfoldable pub push : Heap → ℕ → List ℕ → List ℕ
push h i over = if (h i).is_container && not (is_nil (h i).item_list) then over ++ i ∷ [] else over

unfoldable pub settle : Heap → List ℕ → List ℕ → Iterator
settle h over [] = front_begin h (pop over)
settle h over (i ∷ is) = record { over = over; current = i ∷ is }

-- `operator++`, behind the item that `current` points to.
unfoldable pub increment : Heap → List ℕ → ℕ → List ℕ → Iterator
increment h over i is = settle h (push h i over) is

-- The loop of `getItemHoldingCount` until `it` is `end()`; `none` when the fuel runs out, and where
-- `*it` does not exist.
unfoldable pub count_from : ℕ → Heap → List ℕ → List ℕ → ℕ → Option ℕ
count_from fuel h [] current counter = some counter
count_from zero h (c ∷ cs) current counter = none
count_from (suc fuel) h (c ∷ cs) [] counter = none
count_from (suc fuel) h (c ∷ cs) (i ∷ is) counter =
    let next = increment h (c ∷ cs) i is in count_from fuel h next.over next.current (counter + 1)

unfoldable pub get_item_holding_count : ℕ → Heap → ℕ → Option ℕ
unfolding count_from
get_item_holding_count fuel h c = let it = begin h c in count_from fuel h it.over it.current 0

-- The loop of `isHoldingItem`
unfoldable pub holds_from : ℕ → Heap → List ℕ → List ℕ → ℕ → Option Bool
holds_from fuel h [] current item = some false
holds_from zero h (c ∷ cs) current item = none
holds_from (suc fuel) h (c ∷ cs) [] item = none
holds_from (suc fuel) h (c ∷ cs) (i ∷ is) item =
    let next = increment h (c ∷ cs) i is in
    elim (i == item) [ true ↦ some true | false ↦ holds_from fuel h next.over next.current item ]

unfoldable pub is_holding_item : ℕ → Heap → ℕ → ℕ → Option Bool
unfolding holds_from
is_holding_item fuel h c item = let it = begin h c in holds_from fuel h it.over it.current item
