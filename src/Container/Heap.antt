-- ===== src/Container/Heap.antt =====
-- The items of the game and what `Container` of src/container.h knows of them. An item is named by a
-- number that stands for its address. Weights are in hundredths, without the rounding of `double`.
use model_lib.Prelude.{
  ℕ, zero, suc, ◌+◌, ◌-◌, ◌*◌, Bool, true, leb, ltb, ◌==◌, if◌then◌else◌, Option, none, some, List,
  length,
}

-- What containers use of an `ItemType`. `other_sub_type` is that of fluids and of items with charges,
-- whose subtype is not their count.
pub record ItemType : Type 0 where
  pub stackable : Bool
  pub pickupable : Bool
  pub movable : Bool
  pub other_sub_type : Bool
  pub weight : ℕ

-- The parent of a thing: none, a container, or a tile, a creature or the virtual cylinder.
pub data Parent : Type 0 where
  nowhere : Parent
  inside : ℕ → Parent
  elsewhere : ℕ → Parent

-- An item, and what it is as a `Container` if it is one. A `Depot` has a `depotLimit`.
pub record Item : Type 0 where
  pub id : ℕ
  pub count : ℕ
  pub parent : Parent
  pub is_container : Bool
  pub max_size : ℕ
  pub item_list : List ℕ
  pub total_weight : ℕ
  pub depot_limit : Option ℕ

abbrev pub Heap : Type 0
Heap = ℕ → Item

-- `Item::items`
abbrev pub ItemTypes : Type 0
ItemTypes = ℕ → ItemType

unfoldable pub update : ℕ → (Item → Item) → Heap → Heap
update i f h x = if x == i then f (h x) else h x

abbrev pub set_parent : Parent → Item → Item
set_parent p i = record i { parent = p }

unfoldable pub capacity : Item → ℕ
capacity c =
    if c.max_size == 0
    then (if ltb 255 (length c.item_list + 1) then 255 else length c.item_list + 1)
    else c.max_size

-- Without a maximum it returns 255, which is true.
unfoldable pub full : Item → Bool
full c = if c.max_size == 0 then true else leb c.max_size (length c.item_list)

-- `Item::getWeight` and `Container::getWeight`
unfoldable pub item_weight : ItemTypes → Item → ℕ
item_weight types i =
    if (types i.id).stackable
    then (types i.id).weight * (if i.count == 0 then 1 else i.count)
    else (types i.id).weight

unfoldable pub get_weight : ItemTypes → Heap → ℕ → ℕ
unfolding item_weight
get_weight types h i =
    if (h i).is_container
    then item_weight types (h i) + (h i).total_weight
    else item_weight types (h i)

-- The container that a parent is.
unfoldable pub container_of : Heap → Parent → Option ℕ
container_of h nowhere = none
container_of h (inside c) = if (h c).is_container then some c else none
container_of h (elsewhere t) = none

unfoldable pub get_parent_container : Heap → ℕ → Option ℕ
unfolding container_of
get_parent_container h c = container_of h (h c).parent

-- `updateItemWeight` by a difference of `gain - loss`; `none` when the fuel runs out on the way up.
unfoldable pub update_item_weight : ℕ → ℕ → ℕ → ℕ → Heap → Option Heap
update_item_weight zero gain loss c h = none
update_item_weight (suc fuel) gain loss c h =
    let h' = update c (λ i. record i { total_weight = i.total_weight + gain - loss }) h in
    elim (get_parent_container h c) [
      | none ↦ some h'
      | some p ↦ update_item_weight fuel gain loss p h'
    ]

unfoldable pub update_parent_weight : ℕ → ℕ → ℕ → ℕ → Heap → Option Heap
update_parent_weight fuel gain loss c h = elim (get_parent_container h c) [
  | none ↦ some h
  | some p ↦ update_item_weight fuel gain loss p h
]
