-- ===== src/Container/Query.antt =====
-- The queries of `Container` in src/container.cpp and of `Depot` in src/depot.cpp, by which `Game` finds out whether an item may be
-- moved. A thing that is no item is `none`.
pub mod Destination
use model_lib.Prelude.{
  ℕ, zero, suc, ◌+◌, ◌-◌, ◌*◌, ◌%◌, Bool, true, false, ◌&&◌, ◌||◌, not, leb, ltb, ◌==◌,
  if◌then◌else◌, Option, none, some, ◌>>=◌, List, [], ◌∷◌, length,
}
use model_lib.Prelude.Words.{u32_mod}
use model_lib.Container.Heap.{Parent, nowhere, inside, elsewhere, Heap, ItemTypes, capacity, full}
use model_lib.Container.Iterator.{get_item_holding_count}
use model_lib.Container.Change.{nth, get_index_of_thing}

-- `ReturnValue`, those that containers return
pub data ReturnValue : Type 0 where
  no_error not_possible cannot_pickup this_is_impossible : ReturnValue
  container_not_enough_room not_movable depot_is_full : ReturnValue

abbrev pub is_ok : ReturnValue → Bool
is_ok no_error = true
is_ok not_possible = false
is_ok cannot_pickup = false
is_ok this_is_impossible = false
is_ok container_not_enough_room = false
is_ok not_movable = false
is_ok depot_is_full = false

-- The bits of `flags` that containers read.
pub record Flags : Type 0 where
  pub no_limit : Bool
  pub child_is_owner : Bool
  pub ignore_not_movable : Bool
  pub ignore_auto_stack : Bool

-- What is outside of containers: whether a cylinder has a parent itself, as a creature has, and what
-- its `__queryAdd` says about an item and a count on behalf of a child.
pub record Outside : Type 0 where
  pub has_parent : ℕ → Bool
  pub query_add_child : ℕ → ℕ → ℕ → ReturnValue

-- The loop of `__queryAdd` over the parents; `none` when the fuel runs out.
unfoldable pub is_above : ℕ → Heap → Parent → ℕ → Option Bool
is_above fuel h nowhere i = some false
is_above zero h (inside c) i = none
is_above (suc fuel) h (inside c) i = elim (c == i) [
  | true ↦ some true
  | false ↦ is_above fuel h (h c).parent i
]
is_above fuel h (elsewhere t) i = some false

-- What `getTopParent` returns for `prev` and `aux`; a `prev` that is no cylinder is `nowhere`.
abbrev pub prev_or : Parent → Parent → Parent
prev_or nowhere aux = aux
prev_or (inside c) aux = inside c
prev_or (elsewhere t) aux = elsewhere t

-- The loop of `getTopParent`, with `aux` and its parent. What is outside of containers has a parent
-- without one, as the tile of a creature, or none.
unfoldable pub top_from : ℕ → Outside → Heap → Parent → Parent → Option Parent
unfolding prev_or
top_from fuel out h prev nowhere = some prev
top_from zero out h prev (inside d) = none
top_from (suc fuel) out h prev (inside d) = elim (h d).parent [
  | nowhere ↦ some (prev_or prev (inside d))
  | inside e ↦ top_from fuel out h (inside d) (inside e)
  | elsewhere t ↦ top_from fuel out h (inside d) (elsewhere t)
]
top_from fuel out h prev (elsewhere t) =
    some (if out.has_parent t then elsewhere t else prev_or prev (elsewhere t))

-- `getTopParent` of a container: the last but one on the way up, or itself.
unfoldable pub get_top_parent : ℕ → Outside → Heap → ℕ → Option Parent
unfolding top_from
get_top_parent fuel out h c = top_from fuel out h (inside c) (h c).parent

abbrev pub is_parent : ℕ → Parent → Bool
is_parent c nowhere = false
is_parent c (inside d) = d == c
is_parent c (elsewhere t) = false

-- `getTopParent` of an item, which is a cylinder if it is a container.
unfoldable pub item_top : ℕ → Outside → Heap → ℕ → Option Parent
unfolding get_top_parent top_from
item_top fuel out h i =
    if (h i).is_container
    then get_top_parent fuel out h i
    else top_from fuel out h nowhere (h i).parent

-- `addCount` of `Depot::__queryAdd`
unfoldable pub add_count : ItemTypes → Outside → ℕ → Heap → ℕ → ℕ → ℕ → Option ℕ
add_count types out fuel h d i count = item_top fuel out h i >>= (λ top.
    if is_parent d top
    then some (if (types (h i).id).stackable && not ((h i).count == count) then 1 else 0)
    else if (h i).is_container
    then (get_item_holding_count fuel h i >>= (λ n. some (n + 1)))
    else some 1)

-- What a depot with a limit says before it asks as a container.
unfoldable pub depot_room : ItemTypes → Outside → ℕ → Heap → ℕ → ℕ → ℕ → ℕ → Option ReturnValue
unfolding add_count
depot_room types out fuel h limit d i count = get_item_holding_count fuel h d >>= (λ n.
    add_count types out fuel h d i count
    >>= (λ m. some (if ltb limit ((n + m) % u32_mod) then depot_is_full else no_error)))

-- The query of a container `c` is handed on to its top parent, if that is another. An outer container
-- is told that the child is the owner, and so makes no objection, but a depot counts first.
unfoldable pub query_top :
    ItemTypes → Outside → ℕ → Heap → Flags → ℕ → ℕ → ℕ → Parent → Option ReturnValue
unfolding depot_room
query_top types out fuel h flags c i count nowhere = some no_error
query_top types out fuel h flags c i count (inside d) = elim (h d).depot_limit [
  | none ↦ some no_error
  | some limit ↦
      if d == c || flags.no_limit
      then some no_error
      else depot_room types out fuel h limit d i count
]
query_top types out fuel h flags c i count (elsewhere t) = some (out.query_add_child t i count)

-- `INDEX_WHEREEVER`, which is -1
abbrev pub is_wherever : Option ℕ → Bool
is_wherever none = true
is_wherever (some n) = false

-- `Container::__queryAdd`; it is `none` when the fuel runs out.
unfoldable pub container_query_add :
    ItemTypes → Outside → ℕ → Heap → ℕ → Option ℕ → Option ℕ → ℕ → Flags → Option ReturnValue
container_query_add types out fuel h c index none count flags =
    some (if flags.child_is_owner then no_error else not_possible)
container_query_add types out fuel h c index (some i) count flags =
    if flags.child_is_owner
    then some no_error
    else if not (types (h i).id).pickupable
    then some cannot_pickup
    else if i == c
    then some this_is_impossible
    else ((if (h i).is_container then is_above fuel h (h c).parent i else some false) >>= (λ above.
        if above
        then some this_is_impossible
        else if is_wherever index && not flags.no_limit && full (h c)
        then some container_not_enough_room
        else (get_top_parent fuel out h c
            >>= (λ top. query_top types out fuel h flags c i count top))))

-- `__queryAdd` of a container or, as far as a depot has its own, `Depot::__queryAdd`.
unfoldable pub query_add :
    ItemTypes → Outside → ℕ → Heap → ℕ → Option ℕ → Option ℕ → ℕ → Flags → Option ReturnValue
unfolding container_query_add depot_room
query_add types out fuel h c index thing count flags =
    let asked = container_query_add types out fuel h c index thing count flags in
    elim (h c).depot_limit [
      | none ↦ asked
      | some limit ↦ elim thing [
        | none ↦ some not_possible
        | some i ↦
            if flags.no_limit
            then asked
            else (depot_room types out fuel h limit c i count
                >>= (λ v. if is_ok v then asked else some v))
      ]
    ]

-- `__getThing`
unfoldable pub get_thing : Heap → ℕ → ℕ → Option ℕ
get_thing h c index = if ltb (length (h c).item_list) index then none else nth index (h c).item_list

-- How many more of an item a stack takes, when the query at its place has no objection.
unfoldable pub room_on : ItemTypes → Heap → Option ReturnValue → ℕ → ℕ → ℕ
room_on types h none i d = 0
room_on types h (some v) i d =
    if (h d).id == (h i).id && ltb (h d).count 100 && is_ok v then 100 - (h d).count else 0

-- The room on all the stacks of a list but the item itself.
unfoldable pub room_on_all : ItemTypes → Outside → ℕ → Heap → ℕ → ℕ → Flags → ℕ → List ℕ → ℕ
unfolding room_on
room_on_all types out fuel h c i flags index [] = 0
room_on_all types out fuel h c i flags index (d ∷ ds) =
    (if d == i
      then 0
      else room_on types h
          (query_add types out fuel h c (some index) (some i) (100 - (h d).count) flags) i d)
    + room_on_all types out fuel h c i flags (index + 1) ds

unfoldable pub room_at : ItemTypes → Outside → ℕ → Heap → ℕ → Option ℕ → ℕ → Flags → ℕ
unfolding room_on room_on_all
room_at types out fuel h c none i flags = room_on_all types out fuel h c i flags 0 (h c).item_list
room_at types out fuel h c (some n) i flags = elim (get_thing h c n) [
  | none ↦ 0
  | some d ↦
      room_on types h (query_add types out fuel h c (some n) (some i) (100 - (h d).count) flags) i d
]

-- `__queryMaxCount`: the answer and `maxQueryCount`.
unfoldable pub query_max_count :
    ItemTypes → Outside → ℕ → Heap → ℕ → Option ℕ → Option ℕ → ℕ → Flags → ReturnValue × ℕ
query_max_count types out fuel h c index none count flags = (not_possible, 0)
query_max_count types out fuel h c index (some i) count flags =
    let free_slots = capacity (h c) - length (h c).item_list in
    let stacked = (free_slots * 100 + room_at types out fuel h c index i flags) % u32_mod in
    if flags.no_limit
    then (no_error, if count == 0 then 1 else count)
    else if (types (h i).id).stackable
    then (if ltb stacked count then container_not_enough_room else no_error, stacked)
    else (if free_slots == 0 then container_not_enough_room else no_error, free_slots)

-- `__queryRemove`
unfoldable pub query_remove : ItemTypes → Heap → ℕ → ℕ → ℕ → Flags → ReturnValue
query_remove types h c i count flags = elim (get_index_of_thing h c i) [
  | none ↦ not_possible
  | some n ↦
      if count == 0 || (types (h i).id).stackable && ltb (h i).count count
      then not_possible
      else if not (types (h i).id).movable && not flags.ignore_not_movable
      then not_movable
      else no_error
]
