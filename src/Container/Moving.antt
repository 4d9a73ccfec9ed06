-- ===== src/Container/Moving.antt =====
-- What `Container::__queryAdd` (src/container.cpp) permits, `__addThing` can do.
use model_lib.Prelude.{
  ℕ, zero, suc, ◌≤◌, ◌≡◌, ◌≢◌, refl, ap, sym, ◌∙◌, subst, true, false, ◌&&◌, not, ◌==◌, Option,
  none, some, ◌∷◌, length, arith, Bool-cases, inl, inr,
}
use model_lib.Container.Heap.{
  Parent, nowhere, inside, elsewhere, Heap, ItemTypes, full, container_of, get_parent_container,
}
use model_lib.Container.Change.{add_thing}
use model_lib.Container.Query.{
  no_error, Flags, Outside, query_add, container_query_add, is_above, is_wherever,
}
use model_lib.Container.Weights.{is_in, IsPlaced, IsWeighed, EndsIn}
use model_lib.Container.Weights.Adding.{on_way, internal_add_thing-Settles, put_list, put_max}

-- The loop of the query passes every container on the way up.
is_above-on_way :
    (n : ℕ) (h : Heap) (p : Parent) (i : ℕ)
    → EndsIn n h (container_of h p)
    → is_above n h p i ≡ some false
    → on_way n h (container_of h p) i ≡ false
unfolding is_above container_of get_parent_container
is_above-on_way n h nowhere i ends e = refl
is_above-on_way zero h (inside c) i ends e = cc
is_above-on_way (suc n) h (inside c) i ends e = elim (Bool-cases (h c).is_container) [
  | inr k ↦ rw k refl
  | inl k ↦ elim (Bool-cases (c == i)) [
    | inl f ↦ absurd (ground (arith, e, f))
    | inr f ↦
        let up : is_above n h (h c).parent i ≡ some false = ground (arith, e, f) in
        let here : container_of h (inside c) ≡ some c = rw k refl in
        let rest = is_above-on_way n h (h c).parent i (subst (EndsIn (suc n) h) here ends) up in
        rw k (rw f rest)
  ]
]
is_above-on_way n h (elsewhere t) i ends e = refl

-- A query without the flag of a child's owner that finds no error.
pub record Permits (h : Heap) (fuel c i : ℕ) (index : Option ℕ) (flags : Flags) : Type 0 where
  pub other : i == c ≡ false
  pub above : (h i).is_container ≡ true → is_above fuel h (h c).parent i ≡ some false
  pub room : is_wherever index && not flags.no_limit && full (h c) ≡ false

container_query_add-Permits :
    (types : ItemTypes) (out : Outside) (fuel : ℕ) (h : Heap) (c i count : ℕ) (index : Option ℕ)
    (flags : Flags)
    → flags.child_is_owner ≡ false
    → container_query_add types out fuel h c index (some i) count flags ≡ some no_error
    → Permits h fuel c i index flags
unfolding container_query_add
container_query_add-Permits types out fuel h c i count index flags f e = record {
  other = ground (arith, f, e);
  above = λ k. ground (arith, f, e, k);
  room = ground (arith, f, e);
}

pub query_add_container :
    (types : ItemTypes) (out : Outside) (fuel : ℕ) (h : Heap) (c i count : ℕ) (index : Option ℕ)
    (flags : Flags)
    → query_add types out fuel h c index (some i) count flags ≡ some no_error
    → container_query_add types out fuel h c index (some i) count flags ≡ some no_error
unfolding query_add
query_add_container types out fuel h c i count index flags e = ground (arith, e)

pub query_add-Permits :
    (types : ItemTypes) (out : Outside) (fuel : ℕ) (h : Heap) (c i count : ℕ) (index : Option ℕ)
    (flags : Flags)
    → flags.child_is_owner ≡ false
    → query_add types out fuel h c index (some i) count flags ≡ some no_error
    → Permits h fuel c i index flags
query_add-Permits types out fuel h c i count index flags f e =
    container_query_add-Permits types out fuel h c i count index flags f
      (query_add_container types out fuel h c i count index flags e)

differ :
    (c i : ℕ) (h : Heap) → (h c).is_container ≡ true → (h i).is_container ≡ false → c == i ≡ false
differ c i h k e = elim (Bool-cases (c == i)) [
  | inr f ↦ f
  | inl f ↦
      let same : c ≡ i = ground (arith, f) in cc (sym k ∙ ap (λ x. (h x).is_container) same ∙ e)
]

-- Only containers are met on the way up.
on_way-is_container :
    (n : ℕ) (h : Heap) (p : Parent) (i : ℕ)
    → (h i).is_container ≡ false
    → on_way n h (container_of h p) i ≡ false
unfolding container_of get_parent_container
on_way-is_container n h nowhere i e = refl
on_way-is_container zero h (inside c) i e = elim (Bool-cases (h c).is_container) [
  | inl k ↦ rw k refl
  | inr k ↦ rw k refl
]
on_way-is_container (suc n) h (inside c) i e = elim (Bool-cases (h c).is_container) [
  | inr k ↦ rw k refl
  | inl k ↦
      let rest = on_way-is_container n h (h c).parent i e in
      let other : c == i ≡ false = differ c i h k e in rw k (rw other rest)
]
on_way-is_container n h (elsewhere t) i e = refl

pub Permits-on_way :
    (h : Heap) (fuel c i : ℕ) (index : Option ℕ) (flags : Flags)
    → Permits h fuel c i index flags
    → EndsIn (suc fuel) h (some c)
    → on_way (suc fuel) h (some c) i ≡ false
unfolding get_parent_container
Permits-on_way h fuel c i index flags p ends =
    let other : c == i ≡ false = ground (arith, p.other) in
    elim (Bool-cases (h i).is_container) [
      | inl k ↦ rw other (is_above-on_way fuel h (h c).parent i ends (p.above k))
      | inr k ↦ rw other (on_way-is_container fuel h (h c).parent i k)
    ]

-- An item that is in no container and that `__queryAdd` lets into a container, at any place of it and
-- with its limit, can be added by `__addThing`: this ends, the item is in front of the container's
-- other items, of which there are not more than its maximum then, every item is once in the list of
-- its parent and in no other, and every container's `totalWeight` is the sum of the weights of its
-- items. All this was so before but for the item, and the way up from the container ends.
pub add_thing-permitted :
    (types : ItemTypes) (out : Outside) (fuel : ℕ) (h : Heap) (c i count : ℕ) (flags : Flags)
    → IsPlaced h
    → IsWeighed types h
    → (h c).is_container ≡ true
    → ((d : ℕ) → is_in d (h i).parent ≡ false)
    → EndsIn (suc fuel) h (some c)
    → flags.child_is_owner ≡ false
    → flags.no_limit ≡ false
    → query_add types out fuel h c none (some i) count flags ≡ some no_error
    → (h' : Heap) × (add_thing types fuel c none i h ≡ some h')
      × ((h' c).item_list ≡ i ∷ (h c).item_list)
      × (length (h' c).item_list ≤ (h' c).max_size)
      × IsPlaced h'
      × IsWeighed types h'
unfolding add_thing
add_thing-permitted types out fuel h c i count flags p w k free ends owner limit query =
    let permits = query_add-Permits types out fuel h c i count none flags owner query in
    let (h', e, w', p', same) =
      internal_add_thing-Settles types fuel c i h p w k free ends
        (Permits-on_way h fuel c i none flags permits ends) in
    let list : (h' c).item_list ≡ i ∷ (h c).item_list =
      ap (λ r. r.item_list) (same c) ∙ put_list c i h c ∙ ground arith in
    let max : (h' c).max_size ≡ (h c).max_size = ap (λ r. r.max_size) (same c) ∙ put_max c i h c in
    (h', e, list, unfold full in ground (arith, ap length list, max, limit, permits.room), p', w')

-- `full` says of a container without a maximum that it is full, so that `__queryAdd` lets nothing in
-- at any place of it.
pub query_add_unlimited :
    (types : ItemTypes) (out : Outside) (fuel : ℕ) (h : Heap) (c i count : ℕ) (flags : Flags)
    → flags.child_is_owner ≡ false
    → flags.no_limit ≡ false
    → (h c).max_size ≡ 0
    → query_add types out fuel h c none (some i) count flags ≢ some no_error
query_add_unlimited types out fuel h c i count flags owner limit max = λ query.
    let permits = query_add-Permits types out fuel h c i count none flags owner query in
    absurd (unfold full in ground (arith, limit, max, permits.room))
