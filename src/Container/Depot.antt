-- ===== src/Container/Depot.antt =====
-- The limit of a depot: `Depot::__queryAdd` of src/depot.cpp and `__addThing` of src/container.cpp.
mod Tests
use model_lib.Prelude.{
  ℕ, zero, suc, ◌+◌, ◌*◌, ◌%◌, ◌≤◌, ◌<◌, ◌≡◌, ◌≢◌, refl, ap, ap₂, sym, ◌∙◌, subst, Bool, true,
  false, ◌&&◌, not, leb, ltb, ◌==◌, if◌then◌else◌, Option, none, some, ◌>>=◌, List, [], ◌∷◌, ◌++◌,
  length, arith, Bool-cases, inl, inr,
}
use model_lib.Prelude.Words.{u32_mod}
use model_lib.Prelude.Pointers.{contains, count, contains-count}
use model_lib.Container.Heap.{ItemType, Parent, nowhere, inside, elsewhere, Item, Heap, ItemTypes}
use model_lib.Container.Iterator.{get_item_holding_count}
use model_lib.Container.Change.{internal_add_thing, add_thing}
use model_lib.Container.Query.{
  ReturnValue, no_error, depot_is_full, is_ok, Flags, Outside, get_top_parent, is_above, is_parent,
  item_top, add_count, depot_room, query_top, container_query_add, query_add, is_wherever,
}
use model_lib.Container.Held.{
  items_of, held, IsDeep, total, total-append, total-none, total-length, total-count, hit,
}
use model_lib.Container.Held.Put.{plus, put_held, total-held}
use model_lib.Container.Held.Loop.{get_item_holding_count-held}
use model_lib.Container.Weights.{is_in, IsPlaced, IsWeighed, EndsIn, Settles, bare}
use model_lib.Container.Weights.Adding.{put, put_list, put_container, internal_add_thing-Settles}
use model_lib.Container.Moving.{Permits, query_add-Permits, query_add_container, Permits-on_way}

module _ (types : ItemTypes) (out : Outside) (fuel : ℕ) (h : Heap) (limit d c i number : ℕ)
    (flags : Flags) (owner : flags.child_is_owner ≡ false) (limited : flags.no_limit ≡ false)
    (depot : (h d).depot_limit ≡ some limit) where
  container_query_add-query_top :
      get_top_parent fuel out h c ≡ some (inside d)
      → container_query_add types out fuel h c none (some i) number flags ≡ some no_error
      → query_top types out fuel h flags c i number (inside d) ≡ some no_error
  unfolding container_query_add
  container_query_add-query_top top e = ground (arith, owner, limited, top, e)

  query_top-depot_room :
      d == c ≡ false
      → query_top types out fuel h flags c i number (inside d) ≡ some no_error
      → depot_room types out fuel h limit d i number ≡ some no_error
  unfolding query_top
  query_top-depot_room distinct e = ground (arith, distinct, depot, limited, e)

  query_add_depot :
      query_add types out fuel h d none (some i) number flags ≡ some no_error
      → depot_room types out fuel h limit d i number ≡ some no_error
  unfolding query_add
  query_add_depot e = ground (arith, depot, limited, e)

  query_add-depot_room :
      get_top_parent fuel out h c ≡ some (inside d)
      → query_add types out fuel h c none (some i) number flags ≡ some no_error
      → depot_room types out fuel h limit d i number ≡ some no_error
  query_add-depot_room top e = elim (Bool-cases (d == c)) [
    | inl same ↦
        let eq : c ≡ d = ground (arith, same) in
        query_add_depot (
          subst (λ x. query_add types out fuel h x none (some i) number flags ≡ some no_error) eq e)
    | inr distinct ↦ query_top-depot_room distinct (
        container_query_add-query_top top
          (query_add_container types out fuel h c i number none flags e))
  ]

-- The depot counts rightly, for an item that comes from elsewhere.
depot_room_limit :
    (types : ItemTypes) (out : Outside) (fuel : ℕ) (h : Heap) (limit d i number a b : ℕ)
    (top : Parent)
    → get_item_holding_count fuel h d ≡ some a
    → item_top fuel out h i ≡ some top
    → is_parent d top ≡ false
    → ((h i).is_container ≡ true → get_item_holding_count fuel h i ≡ some b)
    → ((h i).is_container ≡ false → b ≡ 0)
    → a + (b + 1) < u32_mod
    → depot_room types out fuel h limit d i number ≡ some no_error
    → a + (b + 1) ≤ limit
unfolding depot_room add_count
depot_room_limit types out fuel h limit d i number a b top ea et away eb none_in less e =
    elim (Bool-cases (h i).is_container) [
      | inl k ↦ ground (arith, ea, et, away, k, eb k, less, e)
      | inr k ↦ ground (arith, ea, et, away, k, none_in k, less, e)
    ]

items_of_container : (h : Heap) (x : ℕ) → (h x).is_container ≡ true → items_of h x ≡ (h x).item_list
items_of_container h x k = rw k refl

held_nil : (n : ℕ) (h : Heap) → length (held n h []) ≡ 0
unfolding held
held_nil zero h = refl
held_nil (suc n) h = refl

module _ (fuel : ℕ) (h : Heap) (i m : ℕ) (deep : IsDeep m h (items_of h i))
    (enough : length (held m h (items_of h i)) ≤ fuel) where
  item_count :
      (h i).is_container ≡ true
      → get_item_holding_count fuel h i ≡ some (length (held m h (items_of h i)))
  item_count k =
      let same = items_of_container h i k in
      get_item_holding_count-held m fuel h i (subst (IsDeep m h) same deep)
        (subst (λ l. length (held m h l) ≤ fuel) same enough)
      ∙ ap (λ l. some (length (held m h l))) (sym same)

  item_none : (h i).is_container ≡ false → length (held m h (items_of h i)) ≡ 0
  item_none k = rw k (held_nil m h)

-- The lists after `__addThing`.
put_change :
    (h h' : Heap) (c i : ℕ)
    → (h c).is_container ≡ true
    → ((x : ℕ) → bare (h' x) ≡ bare (put c i h x))
    → (x : ℕ) → items_of h' x ≡ (if x == c then i ∷ items_of h x else items_of h x)
put_change h h' c i k same x =
    let list = ap (λ r. r.item_list) (same x) ∙ put_list c i h x in
    let kind = ap (λ r. r.is_container) (same x) ∙ put_container c i h x in
    elim (Bool-cases (x == c)) [
      | inl e ↦
          let eq : x ≡ c = ground (arith, e) in
          let kx : (h x).is_container ≡ true = ap (λ y. (h y).is_container) eq ∙ k in
          ground (arith, e, kx, list, kind)
      | inr e ↦ ground (arith, e, list, kind)
    ]

-- The things in a depot after one of its containers, or itself, was given an item.
module _ (h h' : Heap) (d c i n m : ℕ)
    (change : (x : ℕ) → items_of h' x ≡ (if x == c then i ∷ items_of h x else items_of h x))
    (other : i == c ≡ false) (deep : IsDeep n h (items_of h d)) (deep' : IsDeep m h (items_of h i))
    (free : total (hit c) (held m h (items_of h i)) ≡ 0)
    (once : (if d == c then 1 else 0) + count c (held n h (items_of h d)) ≡ 1) where
  one_more :
      IsDeep (suc (plus n m)) h' (items_of h' d)
      × (length (held (suc (plus n m)) h' (items_of h' d))
          ≡ length (held n h (items_of h d)) + (length (held m h (items_of h i)) + 1))
  unfolding plus
  one_more =
      let (deep_after, sums) =
        put_held h h' c i m change other deep' free (suc n) (d ∷ []) (deep, tt) in
      let after = total-held h' (λ x. 1) (suc (plus n m)) d [] in
      let before = total-held h (λ x. 1) n d [] in
      let hits = total-held h (hit c) n d [] in
      let hits' = total-count c (held n h (items_of h d)) in
      let no_after = total-none (λ x. 1) (suc (suc (plus n m))) h' in
      let no_before = total-none (λ x. 1) (suc n) h in
      let no_hits = total-none (hit c) (suc n) h in
      let one : total (hit c) (held (suc n) h (d ∷ [])) ≡ 1 =
        omega (arith, hits, hits', no_hits, once) in
      let w = 1 + total (λ x. 1) (held m h (items_of h i)) in
      let sum = sums (λ x. 1) ∙ ap (λ t. total (λ x. 1) (held (suc n) h (d ∷ [])) + t * w) one in
      let l = total-length (held (suc (plus n m)) h' (items_of h' d)) in
      let l' = total-length (held n h (items_of h d)) in
      let l'' = total-length (held m h (items_of h i)) in
      (deep_after.0, omega (arith, sum, after, before, no_after, no_before, l, l', l''))

-- A depot stays within its limit. An item that is in no container and not in the depot, and that
-- `__queryAdd` lets into a container, at any place of it and with its limits, is added by
-- `__addThing`, where the container is the depot or once in it, the depot is at the top of it, the
-- container is not inside of the item, and all weights, parents and levels are in order: this ends,
-- `getItemHoldingCount` of the depot then is what it was, and what the item holds, and one for the
-- item, and this is within the limit. The fuel is as much as there are things, which are fewer than
-- 2^32.
pub add_thing-depot_room :
    (types : ItemTypes) (out : Outside) (fuel : ℕ) (h : Heap) (limit d c i number n m : ℕ)
    (flags : Flags) (top : Parent)
    → IsPlaced h
    → IsWeighed types h
    → (h c).is_container ≡ true
    → (h d).is_container ≡ true
    → (h d).depot_limit ≡ some limit
    → ((x : ℕ) → is_in x (h i).parent ≡ false)
    → EndsIn (suc fuel) h (some c)
    → get_top_parent fuel out h c ≡ some (inside d)
    → item_top fuel out h i ≡ some top
    → is_parent d top ≡ false
    → IsDeep n h (items_of h d)
    → IsDeep m h (items_of h i)
    → contains c (held m h (items_of h i)) ≡ false
    → (if d == c then 1 else 0) + count c (held n h (items_of h d)) ≡ 1
    → length (held n h (items_of h d)) + (length (held m h (items_of h i)) + 1) ≤ fuel
    → length (held n h (items_of h d)) + (length (held m h (items_of h i)) + 1) < u32_mod
    → flags.child_is_owner ≡ false
    → flags.no_limit ≡ false
    → query_add types out fuel h c none (some i) number flags ≡ some no_error
    → (h' : Heap) × (add_thing types fuel c none i h ≡ some h')
      × (get_item_holding_count fuel h' d
          ≡ some (length (held n h (items_of h d)) + (length (held m h (items_of h i)) + 1)))
      × (length (held n h (items_of h d)) + (length (held m h (items_of h i)) + 1) ≤ limit)
unfolding add_thing
add_thing-depot_room types out fuel h limit d c i number n m flags top p w k kd depot free ends
      above item_above away deep deep' free_of once enough less owner limited query =
    let a = length (held n h (items_of h d)) in
    let b = length (held m h (items_of h i)) in
    let permits = query_add-Permits types out fuel h c i number none flags owner query in
    let (h', e, w', p', same) =
      internal_add_thing-Settles types fuel c i h p w k free ends
        (Permits-on_way h fuel c i none flags permits ends) in
    let change = put_change h h' c i k same in
    let not_hit : total (hit c) (held m h (items_of h i)) ≡ 0 = ground (
      arith,
      total-count c (held m h (items_of h i)),
      contains-count c (held m h (items_of h i)),
      free_of,
    ) in
    let (deep_after, more) = one_more h h' d c i n m change permits.other deep deep' not_hit once in
    let kd' : (h' d).is_container ≡ true =
      ap (λ r. r.is_container) (same d) ∙ put_container c i h d ∙ kd in
    let list = items_of_container h d kd in
    let list' = items_of_container h' d kd' in
    let counted : get_item_holding_count fuel h d ≡ some a =
      get_item_holding_count-held n fuel h d (subst (IsDeep n h) list deep)
        (subst (λ l. length (held n h l) ≤ fuel) list (omega (arith, enough)))
      ∙ ap (λ l. some (length (held n h l))) (sym list) in
    let counted' =
      get_item_holding_count-held (suc (plus n m)) fuel h' d
        (subst (IsDeep (suc (plus n m)) h') list' deep_after)
        (subst (λ l. length (held (suc (plus n m)) h' l) ≤ fuel) list'
          (omega (arith, more, enough)))
      ∙ ap (λ l. some (length (held (suc (plus n m)) h' l))) (sym list')
      ∙ ap some more in
    let room =
      query_add-depot_room types out fuel h limit d c i number flags owner limited depot above
        query in
    let le : b ≤ fuel = omega (arith, enough) in
    (
      h',
      e,
      counted',
      depot_room_limit types out fuel h limit d i number a b top counted item_above away
          (item_count fuel h i m deep' le) (item_none fuel h i m deep' le) less room,
    )
