-- ===== src/Container/Weights/Reweighing.antt =====
-- Changing an item of a container in its place (`__removeThing` of a part of a stack, and
-- `__updateThing` of src/container.cpp).
use model_lib.Prelude.{
  ℕ, zero, suc, ◌+◌, ◌*◌, ◌≡◌, refl, ap, sym, ◌∙◌, subst, true, false, ◌==◌, if◌then◌else◌, Option,
  none, some, arith, Bool-cases, inl, inr,
}
use model_lib.Prelude.Pointers.{contains, count}
use model_lib.Container.Heap.{
  Parent, nowhere, inside, elsewhere, Heap, ItemTypes, update, get_weight, container_of,
  get_parent_container,
}
use model_lib.Container.Weights.{
  is_in, one_if, IsPlaced, weight_sum, weight_sum-change, IsOff, IsWeighed, EndsIn,
}
use model_lib.Container.Weights.Removing.{listed_in, is_in_unique}

-- A change of an item's type or count.
unfoldable pub reweigh : ℕ → ℕ → ℕ → Heap → Heap
reweigh i item_id n h = update i (λ r. record r { id = item_id; count = n }) h

module _ (i item_id n : ℕ) (h : Heap) (x : ℕ) where
  pub reweigh_list : (reweigh i item_id n h x).item_list ≡ (h x).item_list
  unfolding reweigh update
  reweigh_list = ground arith

  reweigh_parent : (reweigh i item_id n h x).parent ≡ (h x).parent
  unfolding reweigh update
  reweigh_parent = ground arith

  pub reweigh_container : (reweigh i item_id n h x).is_container ≡ (h x).is_container
  unfolding reweigh update
  reweigh_container = ground arith

  reweigh_total : (reweigh i item_id n h x).total_weight ≡ (h x).total_weight
  unfolding reweigh update
  reweigh_total = ground arith

  reweigh_other :
      (types : ItemTypes)
      → x == i ≡ false
      → get_weight types (reweigh i item_id n h) x ≡ get_weight types h x
  unfolding reweigh update get_weight
  reweigh_other types e = rw e refl

pub reweigh-IsPlaced : (i item_id n : ℕ) (h : Heap) → IsPlaced h → IsPlaced (reweigh i item_id n h)
reweigh-IsPlaced i item_id n h p = record {
  placed = λ x d.
      ap (count x) (reweigh_list i item_id n h d)
      ∙ p.placed x d
      ∙ ap (λ q. one_if (is_in d q)) (sym (reweigh_parent i item_id n h x));
  containers = λ x d e.
      reweigh_container i item_id n h d
      ∙ p.containers x d (ap (is_in d) (sym (reweigh_parent i item_id n h x)) ∙ e);
}

reweigh-container_of :
    (i item_id n : ℕ) (h : Heap) (p : Parent)
    → container_of (reweigh i item_id n h) p ≡ container_of h p
unfolding container_of
reweigh-container_of i item_id n h nowhere = refl
reweigh-container_of i item_id n h (inside d) = rw (reweigh_container i item_id n h d) refl
reweigh-container_of i item_id n h (elsewhere t) = refl

reweigh_change :
    (types : ItemTypes) (i item_id n : ℕ) (h : Heap) (j : ℕ)
    → let h' = reweigh i item_id n h in
      get_weight types h' j + (if j == i then get_weight types h i else 0)
      ≡ get_weight types h j + (if j == i then get_weight types h' i else 0)
reweigh_change types i item_id n h j = elim (Bool-cases (j == i)) [
  | inl f ↦
      let same : j ≡ i = ground (arith, f) in
      let this = ap (get_weight types (reweigh i item_id n h)) same in
      let that = ap (get_weight types h) same in rw f (omega (arith, this, that))
  | inr f ↦ rw f (omega (arith, reweigh_other i item_id n h j types f))
]

pub reweigh-EndsIn :
    (m i item_id n : ℕ) (h : Heap) (o : Option ℕ)
    → EndsIn m h o
    → EndsIn m (reweigh i item_id n h) o
reweigh-EndsIn m i item_id n h none ends = tt
reweigh-EndsIn zero i item_id n h (some x) ends = ends
reweigh-EndsIn (suc m) i item_id n h (some x) ends =
    subst (EndsIn m (reweigh i item_id n h)) (sym up)
      (reweigh-EndsIn m i item_id n h (get_parent_container h x) ends)
  where
    up : get_parent_container (reweigh i item_id n h) x ≡ get_parent_container h x
    up =
        unfold get_parent_container in
        ap (container_of (reweigh i item_id n h)) (reweigh_parent i item_id n h x)
        ∙ reweigh-container_of i item_id n h (h x).parent

pub reweigh-IsOff :
    (types : ItemTypes) (c i item_id n : ℕ) (h : Heap)
    → contains i (h c).item_list ≡ true
    → IsPlaced h
    → IsWeighed types h
    → let h' = reweigh i item_id n h in
      IsOff types (some c) (get_weight types h' i) (get_weight types h i) h'
reweigh-IsOff types c i item_id n h e p w d kd =
    let h' = reweigh i item_id n h in
    let here = listed_in c i h p e in
    let times : count i (h d).item_list ≡ one_if (c == d) =
      p.placed i d ∙ ap one_if (is_in_unique c d (h i).parent here.0) in
    let change =
      weight_sum-change types h h' i (get_weight types h' i) (get_weight types h i)
        (reweigh_change types i item_id n h) (h d).item_list in
    let sum = ap (weight_sum types h') (reweigh_list i item_id n h d) in
    let right = w d (sym (reweigh_container i item_id n h d) ∙ kd) in
    let total = reweigh_total i item_id n h d in
    elim (Bool-cases (c == d)) [
      | inl f ↦
          let once : count i (h d).item_list ≡ 1 = times ∙ rw f refl in
          let change' : weight_sum types h' (h d).item_list + 1 * get_weight types h i
              ≡ weight_sum types h (h d).item_list + 1 * get_weight types h' i =
            rw (← once) change in
          ground (arith, f, change', sum, right, total)
      | inr f ↦
          let never : count i (h d).item_list ≡ 0 = times ∙ rw f refl in
          let change' : weight_sum types h' (h d).item_list + 0 * get_weight types h i
              ≡ weight_sum types h (h d).item_list + 0 * get_weight types h' i =
            rw (← never) change in
          ground (arith, f, change', sum, right, total)
    ]
