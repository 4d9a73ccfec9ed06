-- ===== src/Container/Tests.antt =====
-- Tests of the containers, and the theorems at concrete inputs.
use model_lib.Prelude.{
  ℕ, ◌≤◌, ◌≡◌, ◌≢◌, refl, true, false, ◌==◌, if◌then◌else◌, none, some, List, [], ◌∷◌, length,
  arith,
}
use model_lib.Prelude.Pointers.{count}
use model_lib.Container.Heap.{
  Parent, nowhere, inside, elsewhere, Item, Heap, ItemTypes, capacity, full, get_weight,
  item_weight, container_of, get_parent_container,
}
use model_lib.Container.Change.{
  add_thing, remove_thing, item_type_count, get_index_of_thing, index_of, nth,
}
use model_lib.Container.Query.{
  no_error, this_is_impossible, Flags, Outside, query_add, container_query_add, query_top, is_above,
  get_top_parent, top_from, query_max_count, room_at, room_on, room_on_all, get_thing,
}
use model_lib.Container.Query.Destination.{query_destination, last_stack, at_index}
use model_lib.Container.Weights.{IsPlaced, IsWeighed, weight_sum}
use model_lib.Container.Weights.Changing.{remove_thing-IsRight}
use model_lib.Container.Moving.{add_thing-permitted, query_add_unlimited}

-- Type 1 is a coin, all others are bags.
abbrev pub types : ItemTypes
types id = record {
  stackable = id == 1;
  pickupable = true;
  movable = true;
  other_sub_type = false;
  weight = if id == 1 then 10 else 80;
}

abbrev pub thing : ℕ → ℕ → Parent → Item
thing id n parent = record {
  id = id;
  count = n;
  parent = parent;
  is_container = false;
  max_size = 0;
  item_list = [];
  total_weight = 0;
  depot_limit = none;
}

abbrev pub bag : ℕ → List ℕ → ℕ → Parent → Item
bag size items weight parent = record {
  id = 2;
  count = 1;
  parent = parent;
  is_container = true;
  max_size = size;
  item_list = items;
  total_weight = weight;
  depot_limit = none;
}

-- The bag 1 with five coins, 2, lies in the bag 0, and three coins, 3, lie on the tile 9.
abbrev heap : Heap
heap x =
    if x == 0
    then bag 2 (1 ∷ []) 130 (elsewhere 9)
    else if x == 1
    then bag 8 (2 ∷ []) 50 (inside 0)
    else if x == 2
    then thing 1 5 (inside 1)
    else thing 1 3 (elsewhere 9)

abbrev pub street : Outside
street = record { has_parent = λ t. false; query_add_child = λ t i n. no_error }

abbrev pub plain : Flags
plain = record {
  no_limit = false;
  child_is_owner = false;
  ignore_not_movable = false;
  ignore_auto_stack = false;
}

heap-IsPlaced : IsPlaced heap
unfolding count
heap-IsPlaced = record { placed = λ i d. ground arith; containers = λ i d e. ground (arith, e) }

heap-IsWeighed : IsWeighed types heap
unfolding weight_sum get_weight item_weight
heap-IsWeighed d e = ground (arith, e)

-- The coins from the tile may be put into the inner bag, where there is room for 95 on the stack.
asked : query_max_count types street 5 heap 1 none (some 3) 3 plain ≡ (no_error, 795)
unfolding query_max_count room_at room_on_all room_on query_add container_query_add query_top
    is_above get_top_parent top_from capacity full
asked = refl

-- The outer bag cannot be put into the inner one.
not_into_itself : query_add types street 5 heap 1 none (some 0) 1 plain ≡ some this_is_impossible
unfolding query_add container_query_add query_top is_above get_top_parent top_from full
not_into_itself = refl

-- The stack stands at the index 0, and is found at the index 1.
stacked : query_destination types heap 1 (some 255) (some 3) none plain ≡ (1, some 1, some 2)
unfolding query_destination last_stack get_thing nth at_index capacity
stacked = refl

found : get_index_of_thing heap 1 2 ≡ some 0
unfolding get_index_of_thing index_of
found = refl

counted : item_type_count heap (λ i. 0) 1 none (2 ∷ 3 ∷ []) ≡ 8
unfolding item_type_count
counted = refl

let_in : query_add types street 4 heap 1 none (some 3) 3 plain ≡ some no_error
unfolding query_add container_query_add query_top is_above get_top_parent top_from full
let_in = refl

add_thing-permitted_example :
    (h' : Heap) × (add_thing types 4 1 none 3 heap ≡ some h')
    × ((h' 1).item_list ≡ 3 ∷ 2 ∷ [])
    × (length (h' 1).item_list ≤ (h' 1).max_size)
    × IsPlaced h'
    × IsWeighed types h'
add_thing-permitted_example =
    add_thing-permitted types street 4 heap 1 3 3 plain heap-IsPlaced heap-IsWeighed refl
      (λ d. refl) (unfold get_parent_container container_of in tt) refl refl let_in

remove_thing-IsRight_example :
    (h' : Heap) × (remove_thing types 4 1 2 2 heap ≡ some h') × IsPlaced h' × IsWeighed types h'
remove_thing-IsRight_example =
    remove_thing-IsRight types 4 1 2 2 heap heap-IsPlaced heap-IsWeighed refl
      (unfold get_parent_container container_of in tt)

query_add_unlimited_example :
    query_add types street 5 (λ x. bag 0 [] 0 nowhere) 1 none (some 3) 1 plain ≢ some no_error
query_add_unlimited_example =
    query_add_unlimited types street 5 (λ x. bag 0 [] 0 nowhere) 1 3 1 plain refl refl refl

-- The five coins of the inner bag are replaced by three.
