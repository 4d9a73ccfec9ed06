-- ===== src/Container/Change.antt =====
-- How `Container` of src/container.cpp takes items in, gives them away and changes them. What is sent
-- to the clients is no part of the state, and the parents' weights, which do not depend on the
-- container's own list, are always updated last.
use model_lib.Prelude.{
  ℕ, zero, suc, ◌+◌, ◌-◌, true, ◌&&◌, not, leb, ◌==◌, if◌then◌else◌, Option, none, some, ◌>>=◌,
  List, [], ◌∷◌, ◌++◌,
}
use model_lib.Prelude.Pointers.{contains, erase}
use model_lib.Container.Heap.{
  nowhere, inside, Heap, ItemTypes, update, set_parent, capacity, get_weight, update_parent_weight,
}

-- `addItem`: behind the other items, and without a change of the weight.
unfoldable pub add_item : ℕ → ℕ → Heap → Heap
add_item c i h =
    update i (set_parent (inside c))
      (update c (λ r. record r { item_list = r.item_list ++ i ∷ [] }) h)

-- `__internalAddThing`: in front of the other items.
unfoldable pub internal_add_thing : ItemTypes → ℕ → ℕ → ℕ → Heap → Option Heap
internal_add_thing types fuel c i h =
    let w = get_weight types h i in
    update_parent_weight fuel w 0 c (
      update i (set_parent (inside c)) (
        update c (λ r. record r { item_list = i ∷ r.item_list; total_weight = r.total_weight + w })
          h))

-- `__addThing` at an index; `none` is `INDEX_WHEREEVER`, which is -1.
unfoldable pub add_thing : ItemTypes → ℕ → ℕ → Option ℕ → ℕ → Heap → Option Heap
unfolding internal_add_thing
add_thing types fuel c index i h = elim index [
  | none ↦ internal_add_thing types fuel c i h
  | some n ↦ if leb (capacity (h c)) n then some h else internal_add_thing types fuel c i h
]

-- `__getIndexOfThing`, where `none` is -1.
unfoldable pub index_of : ℕ → List ℕ → Option ℕ
index_of i [] = none
index_of i (x ∷ xs) = if x == i then some 0 else (index_of i xs >>= (λ n. some (n + 1)))

unfoldable pub get_index_of_thing : Heap → ℕ → ℕ → Option ℕ
get_index_of_thing h c i = index_of i (h c).item_list

-- `getItem` and the loop of `__getThing`
unfoldable pub nth : ℕ → List ℕ → Option ℕ
nth n [] = none
nth zero (x ∷ xs) = some x
nth (suc n) (x ∷ xs) = nth n xs

unfoldable pub replace_at : ℕ → ℕ → List ℕ → List ℕ
replace_at n i [] = []
replace_at zero i (x ∷ xs) = i ∷ xs
replace_at (suc n) i (x ∷ xs) = x ∷ replace_at n i xs

-- `__removeThing`
unfoldable pub remove_thing : ItemTypes → ℕ → ℕ → ℕ → ℕ → Heap → Option Heap
remove_thing types fuel c i n h =
    let w = get_weight types h i in
    let less = update i (λ r. record r { count = r.count - n }) h in
    let w' = get_weight types less i in
    if not (contains i (h c).item_list)
    then some h
    else if (types (h i).id).stackable && not (n == (h i).count)
    then update_parent_weight fuel w' w c
        (update c (λ r. record r { total_weight = r.total_weight + w' - w }) less)
    else update_parent_weight fuel 0 w c (
        update i (set_parent nowhere) (
          update c
            (λ r. record r { item_list = erase i r.item_list; total_weight = r.total_weight - w })
            h))

-- `__updateThing`: another type, and another subtype
unfoldable pub update_thing : ItemTypes → ℕ → ℕ → ℕ → ℕ → ℕ → Heap → Option Heap
update_thing types fuel c i item_id n h =
    let w = get_weight types h i in
    let changed =
      update i
        (λ r. record r {
          id = item_id;
          count = if (types item_id).other_sub_type then r.count else n;
        })
        h in
    let w' = get_weight types changed i in
    if not (contains i (h c).item_list)
    then some h
    else update_parent_weight fuel w' w c
        (update c (λ r. record r { total_weight = r.total_weight + w' - w }) changed)

-- `__replaceThing`
unfoldable pub replace_thing : ItemTypes → ℕ → ℕ → ℕ → ℕ → Heap → Option Heap
replace_thing types fuel c n i h = elim (nth n (h c).item_list) [
  | none ↦ some h
  | some old ↦
      let w = get_weight types h old in
      let w' = get_weight types h i in
      update_parent_weight fuel w' w c (
        update old (set_parent nowhere) (
          update i (set_parent (inside c)) (
            update c
              (λ r. record r {
                item_list = replace_at n i r.item_list;
                total_weight = r.total_weight - w + w';
              })
              h)))
]

-- `__getItemTypeCount`, where `none` is any subtype, and `sub_type` what `getSubType` is of an item.
unfoldable pub item_type_count : Heap → (ℕ → ℕ) → ℕ → Option ℕ → List ℕ → ℕ
item_type_count h sub_type item_id wanted [] = 0
item_type_count h sub_type item_id wanted (i ∷ is) =
    let this = (h i).id == item_id && elim wanted [ none ↦ true | some s ↦ s == sub_type i ] in
    (if this then (h i).count else 0) + item_type_count h sub_type item_id wanted is
