-- ===== src/Container/Weights/Changing.antt =====
-- `__removeThing` and `__updateThing` of src/container.cpp keep the weights and the parents right.
use mathlib.Core.Path.{fun_ext}
use model_lib.Prelude.{
  ℕ, suc, ◌-◌, ◌≡◌, refl, ap, sym, ◌∙◌, subst, true, ◌&&◌, not, ◌==◌, if◌then◌else◌, Option, some,
  arith, Bool-cases, inl, inr,
}
use model_lib.Prelude.Pointers.{contains, erase}
use model_lib.Container.Heap.{
  nowhere, Item, Heap, ItemTypes, update, set_parent, get_weight, update_parent_weight,
}
use model_lib.Container.Change.{remove_thing, update_thing}
use model_lib.Container.Weights.{IsPlaced, IsWeighed, EndsIn, Settles, shift_total}
use model_lib.Container.Weights.Removing.{
  shift_up, taken, taken_shift, taken_container, taken-IsPlaced, taken-IsOff, taken-EndsIn,
}
use model_lib.Container.Weights.Reweighing.{
  reweigh, reweigh_container, reweigh-IsPlaced, reweigh-EndsIn, reweigh-IsOff,
}

abbrev IsRight : ItemTypes → Option Heap → Type 0
IsRight types o = (h : Heap) × (o ≡ some h) × IsPlaced h × IsWeighed types h

Settles-IsRight :
    (types : ItemTypes) (h : Heap) (o : Option Heap) → Settles types h o → IsRight types o
Settles-IsRight types h o (h', e, w, p, same) = (h', e, p, w)

module _ (types : ItemTypes) (fuel c i : ℕ) (h : Heap) (p : IsPlaced h) (w : IsWeighed types h)
    (k : (h c).is_container ≡ true) (ends : EndsIn (suc fuel) h (some c))
    (listed : contains i (h c).item_list ≡ true) where
  take_whole : IsRight types (
      update_parent_weight fuel 0 (get_weight types h i) c (
        update i (set_parent nowhere) (
          update c
            (λ r. record r {
              item_list = erase i r.item_list;
              total_weight = r.total_weight - get_weight types h i;
            })
            h)))
  take_whole =
      subst (λ g. IsRight types (update_parent_weight fuel 0 (get_weight types h i) c g))
        (fun_ext (λ x. taken_shift c i h x (get_weight types h i)))
        (Settles-IsRight types (taken c i h) _ (
          shift_up types fuel c 0 (get_weight types h i) (taken c i h)
            (taken-IsPlaced c i h listed p) (taken_container c i h c ∙ k)
            (taken-EndsIn (suc fuel) c i h (some c) ends) (taken-IsOff types c i h listed w)))

  change_one :
      (item_id n : ℕ)
      → let h' = reweigh i item_id n h in
        IsRight types (
          update_parent_weight fuel
            (get_weight types h' i)
            (get_weight types h i)
            c
            (update c (shift_total (get_weight types h' i) (get_weight types h i)) h'))
  change_one item_id n =
      let h' = reweigh i item_id n h in
      Settles-IsRight types h' _ (
        shift_up types fuel c (get_weight types h' i) (get_weight types h i) h'
          (reweigh-IsPlaced i item_id n h p) (reweigh_container i item_id n h c ∙ k)
          (reweigh-EndsIn (suc fuel) i item_id n h (some c) ends)
          (reweigh-IsOff types c i item_id n h listed p w))

-- A change that `reweigh` can make.
abbrev Reweighs : ℕ → ℕ → ℕ → Heap → (Item → Item) → Type 0
Reweighs i item_id n h f = update i f h ≡ reweigh i item_id n h

reweigh_at :
    (i item_id n : ℕ) (h : Heap) (f : Item → Item)
    → f (h i) ≡ record (h i) { id = item_id; count = n }
    → Reweighs i item_id n h f
unfolding update reweigh
reweigh_at i item_id n h f e = fun_ext (λ x. elim (Bool-cases (x == i)) [
  | inl g ↦
      let same : x ≡ i = ground (arith, g) in
      rw g
        (ap (λ y. f (h y)) same ∙ e ∙ ap (λ y. record (h y) { id = item_id; count = n }) (sym same))
  | inr g ↦ rw g refl
])

module _ (types : ItemTypes) (fuel c i item_id n : ℕ) (h : Heap) (f : Item → Item)
    (e : Reweighs i item_id n h f) where
  change_by :
      IsPlaced h
      → IsWeighed types h
      → (h c).is_container ≡ true
      → EndsIn (suc fuel) h (some c)
      → contains i (h c).item_list ≡ true
      → let g = update i f h in
        IsRight types (
          update_parent_weight fuel
            (get_weight types g i)
            (get_weight types h i)
            c
            (update c (shift_total (get_weight types g i) (get_weight types h i)) g))
  change_by p w k ends listed =
      subst
        (λ g. IsRight types (
          update_parent_weight fuel (get_weight types g i) (get_weight types h i) c
            (update c (shift_total (get_weight types g i) (get_weight types h i)) g)))
        (sym e) (change_one types fuel c i h p w k ends listed item_id n)

-- `__removeThing`, of a whole item or of a part of a stack, or of an item that is not there: it ends,
-- every item is once in the list of its parent and in no other, and every container's `totalWeight`
-- is the sum of the weights of its items. All this was so before, and the way up from the container
-- ends.
pub remove_thing-IsRight :
    (types : ItemTypes) (fuel c i n : ℕ) (h : Heap)
    → IsPlaced h
    → IsWeighed types h
    → (h c).is_container ≡ true
    → EndsIn (suc fuel) h (some c)
    → (h' : Heap) × (remove_thing types fuel c i n h ≡ some h') × IsPlaced h' × IsWeighed types h'
unfolding remove_thing shift_total
remove_thing-IsRight types fuel c i n h p w k ends =
    elim (Bool-cases (contains i (h c).item_list)) [
      | inr e ↦ rw e (h, refl, p, w)
      | inl e ↦ elim (Bool-cases ((types (h i).id).stackable && not (n == (h i).count))) [
        | inl f ↦
            rw (e, f)
              (change_by types fuel c i (h i).id ((h i).count - n) h
                (λ r. record r { count = r.count - n })
                (reweigh_at i (h i).id ((h i).count - n) h (λ r. record r { count = r.count - n })
                  refl)
                p w k ends e)
        | inr f ↦ rw (e, f) (take_whole types fuel c i h p w k ends e)
      ]
    ]

-- `__updateThing`, which gives an item another type and subtype, in the same way.
update_thing-IsRight :
    (types : ItemTypes) (fuel c i item_id n : ℕ) (h : Heap)
    → IsPlaced h
    → IsWeighed types h
    → (h c).is_container ≡ true
    → EndsIn (suc fuel) h (some c)
    → (h' : Heap) × (update_thing types fuel c i item_id n h ≡ some h')
      × IsPlaced h'
      × IsWeighed types h'
unfolding update_thing shift_total
update_thing-IsRight types fuel c i item_id n h p w k ends =
    let f : Item → Item = λ r. record r {
      id = item_id;
      count = if (types item_id).other_sub_type then r.count else n;
    } in
    let m = if (types item_id).other_sub_type then (h i).count else n in
    elim (Bool-cases (contains i (h c).item_list)) [
      | inr e ↦ rw e (h, refl, p, w)
      | inl e ↦
          rw e
            (change_by types fuel c i item_id m h f (reweigh_at i item_id m h f refl) p w k ends e)
    ]
