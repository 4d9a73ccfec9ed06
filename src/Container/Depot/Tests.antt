-- ===== src/Container/Depot/Tests.antt =====
-- A depot with a bag of coins, and the theorems on what is inside of containers at it.
use model_lib.Prelude.{
  ℕ, ◌+◌, ◌≤◌, ◌≡◌, refl, ◌==◌, if◌then◌else◌, none, some, [], ◌∷◌, length, arith,
}
use model_lib.Prelude.Pointers.{contains, count, is_nil}
use model_lib.Container.Heap.{
  inside, elsewhere, Heap, full, get_weight, item_weight, container_of, get_parent_container,
}
use model_lib.Container.Iterator.{
  begin, front_begin, push, settle, increment, get_item_holding_count, is_holding_item,
}
use model_lib.Container.Change.{add_thing}
use model_lib.Container.Query.{
  no_error, depot_is_full, query_add, container_query_add, query_top, depot_room, add_count,
  item_top, is_above, get_top_parent, top_from,
}
use model_lib.Container.Held.{held}
use model_lib.Container.Held.Loop.{get_item_holding_count-held, is_holding_item-held}
use model_lib.Container.Weights.{IsPlaced, IsWeighed, weight_sum}
use model_lib.Container.Depot.{add_thing-depot_room}
use model_lib.Container.Tests.{types, thing, bag, street, plain}

-- The depot 0 has room for `limit` things and lies on the tile 8, and holds the bag 1 with five coins, 2. The bag 3 with two
-- coins, 4, lies on the tile 9.
abbrev depots : ℕ → Heap
depots limit x =
    if x == 0
    then record (bag 30 (1 ∷ []) 130 (elsewhere 8)) { depot_limit = some limit }
    else if x == 1
    then bag 8 (2 ∷ []) 50 (inside 0)
    else if x == 2
    then thing 1 5 (inside 1)
    else if x == 3
    then bag 8 (4 ∷ []) 20 (elsewhere 9)
    else if x == 4
    then thing 1 2 (inside 3)
    else thing 1 1 (elsewhere 9)

abbrev heap : Heap
heap = depots 1000

heap-IsPlaced : IsPlaced heap
unfolding count
heap-IsPlaced = record { placed = λ i d. ground arith; containers = λ i d e. ground (arith, e) }

heap-IsWeighed : IsWeighed types heap
unfolding weight_sum get_weight item_weight
heap-IsWeighed d e = ground (arith, e)

let_in : query_add types street 9 heap 1 none (some 3) 1 plain ≡ some no_error
unfolding query_add container_query_add query_top depot_room add_count item_top is_above
    get_top_parent top_from full get_item_holding_count begin is_nil increment settle front_begin
    push
let_in = refl

-- With four things the depot would have more than three.
too_many : query_add types street 9 (depots 3) 1 none (some 3) 1 plain ≡ some depot_is_full
unfolding query_add container_query_add query_top depot_room add_count item_top is_above
    get_top_parent top_from full get_item_holding_count begin is_nil increment settle front_begin
    push
too_many = refl

top : get_top_parent 9 street heap 1 ≡ some (inside 0)
unfolding get_top_parent top_from
top = refl

on_tile : item_top 9 street heap 3 ≡ some (inside 3)
unfolding item_top get_top_parent top_from
on_tile = refl

add_thing-depot_room_example :
    (h' : Heap) × (add_thing types 9 1 none 3 heap ≡ some h')
    × (get_item_holding_count 9 h' 0
        ≡ some (length (held 2 heap (1 ∷ [])) + (length (held 1 heap (4 ∷ [])) + 1)))
    × (length (held 2 heap (1 ∷ [])) + (length (held 1 heap (4 ∷ [])) + 1) ≤ 1000)
unfolding held contains count
add_thing-depot_room_example =
    add_thing-depot_room types street 9 heap 1000 0 1 3 1 2 1 plain (inside 3) heap-IsPlaced
      heap-IsWeighed refl refl refl (λ x. refl) (unfold get_parent_container container_of in tt) top
      on_tile refl ((tt, tt), tt) (tt, tt) refl refl (ground arith) (ground arith) refl refl let_in

get_item_holding_count-held_example :
    get_item_holding_count 2 heap 0 ≡ some (length (held 2 heap (1 ∷ [])))
unfolding held
get_item_holding_count-held_example =
    get_item_holding_count-held 2 2 heap 0 ((tt, tt), tt) (ground arith)

is_holding_item-held_example : is_holding_item 2 heap 0 2 ≡ some (contains 2 (held 2 heap (1 ∷ [])))
unfolding held
is_holding_item-held_example = is_holding_item-held 2 2 heap 0 2 ((tt, tt), tt) (ground arith)
