-- ===== src/Container/Weights/Adding.antt =====
-- `__internalAddThing` and `__addThing` of src/container.cpp keep the weights and the parents right.
use mathlib.Core.Path.{fun_ext}
use model_lib.Prelude.{
  ℕ, zero, suc, ◌+◌, ◌≡◌, refl, ap, ap₂, sym, ◌∙◌, subst, Bool, true, false, ◌||◌, ◌==◌,
  if◌then◌else◌, Option, none, some, List, [], ◌∷◌, arith, Bool-cases, inl, inr,
}
use model_lib.Prelude.Pointers.{count}
use model_lib.Container.Heap.{
  Parent, nowhere, inside, elsewhere, Heap, ItemTypes, update, set_parent, get_weight, item_weight,
  container_of, get_parent_container, update_parent_weight,
}
use model_lib.Container.Change.{internal_add_thing}
use model_lib.Container.Weights.{
  is_in, IsPlaced, weight_sum, IsOff, IsWeighed, EndsIn, Settles, shift_total, shift_bare,
  bare-get_parent_container, bare-EndsIn, bare-IsPlaced, IsOff-step, update_parent_weight-Settles,
}

-- Whether an item is met on the way up.
abbrev pub on_way : ℕ → Heap → Option ℕ → ℕ → Bool
on_way n h none x = false
on_way zero h (some c) x = false
on_way (suc n) h (some c) x = c == x || on_way n h (get_parent_container h c) x

pub weight_sum-same :
    (types : ItemTypes) (h h' : Heap) (xs : List ℕ)
    → ((i : ℕ) → get_weight types h' i ≡ get_weight types h i)
    → weight_sum types h' xs ≡ weight_sum types h xs
unfolding weight_sum
weight_sum-same types h h' [] e = refl
weight_sum-same types h h' (x ∷ xs) e = ap₂ (◌+◌) (e x) (weight_sum-same types h h' xs e)

-- The item in its new place, before any weight is added.
pub put : ℕ → ℕ → Heap → Heap
put c i h =
    update i (set_parent (inside c)) (update c (λ r. record r { item_list = i ∷ r.item_list }) h)

module _ (c i : ℕ) (h : Heap) (x : ℕ) where
  pub put_list : (put c i h x).item_list ≡ (if x == c then i ∷ (h x).item_list else (h x).item_list)
  unfolding put update
  put_list = ground arith

  pub put_parent : (put c i h x).parent ≡ (if x == i then inside c else (h x).parent)
  unfolding put update
  put_parent = ground arith

  pub put_container : (put c i h x).is_container ≡ (h x).is_container
  unfolding put update
  put_container = ground arith

  pub put_total : (put c i h x).total_weight ≡ (h x).total_weight
  unfolding put update
  put_total = ground arith

  pub put_max : (put c i h x).max_size ≡ (h x).max_size
  unfolding put update
  put_max = ground arith

  pub put_weight : (types : ItemTypes) → get_weight types (put c i h) x ≡ get_weight types h x
  unfolding put update get_weight item_weight
  put_weight types = ground arith

put-IsPlaced :
    (c i : ℕ) (h : Heap)
    → (h c).is_container ≡ true
    → ((d : ℕ) → is_in d (h i).parent ≡ false)
    → IsPlaced h
    → IsPlaced (put c i h)
put-IsPlaced c i h k free p = record {
  placed = λ x d.
      unfold count in ground (arith, p.placed x d, free d, put_list c i h d, put_parent c i h x);
  containers =
      λ x d e. ground (arith, e, k, p.containers x d, put_container c i h d, put_parent c i h x);
}

put-IsOff :
    (types : ItemTypes) (c i : ℕ) (h : Heap)
    → IsWeighed types h
    → IsOff types (some c) (get_weight types h i) 0 (put c i h)
put-IsOff types c i h w d kd =
    let sum =
      weight_sum-same types h (put c i h) (put c i h d).item_list (λ j. put_weight c i h j types) in
    let more : weight_sum types h (i ∷ (h d).item_list)
        ≡ get_weight types h i + weight_sum types h (h d).item_list =
      unfold weight_sum in refl in
    let right = w d (sym (put_container c i h d) ∙ kd) in
    elim (Bool-cases (d == c)) [
      | inl e ↦
          let list : (put c i h d).item_list ≡ i ∷ (h d).item_list = put_list c i h d ∙ rw e refl in
          ground (arith, e, sum, ap (weight_sum types h) list, more, right, put_total c i h d)
      | inr e ↦
          let list : (put c i h d).item_list ≡ (h d).item_list = put_list c i h d ∙ rw e refl in
          ground (arith, e, sum, ap (weight_sum types h) list, right, put_total c i h d)
    ]

put-container_of : (c i : ℕ) (h : Heap) (p : Parent) → container_of (put c i h) p ≡ container_of h p
unfolding container_of
put-container_of c i h nowhere = refl
put-container_of c i h (inside d) = rw (put_container c i h d) refl
put-container_of c i h (elsewhere t) = refl

put-get_parent_container :
    (c i : ℕ) (h : Heap) (x : ℕ)
    → x == i ≡ false
    → get_parent_container (put c i h) x ≡ get_parent_container h x
unfolding get_parent_container
put-get_parent_container c i h x e =
    let parent : (put c i h x).parent ≡ (h x).parent = put_parent c i h x ∙ rw e refl in
    ap (container_of (put c i h)) parent ∙ put-container_of c i h (h x).parent

-- The way up does not pass the item, so it is the same as before.
put-EndsIn :
    (n c i : ℕ) (h : Heap) (o : Option ℕ)
    → on_way n h o i ≡ false
    → EndsIn n h o
    → EndsIn n (put c i h) o
put-EndsIn n c i h none off ends = tt
put-EndsIn zero c i h (some x) off ends = ends
put-EndsIn (suc n) c i h (some x) off ends =
    subst (EndsIn n (put c i h)) (sym (put-get_parent_container c i h x (ground (arith, off))))
      (put-EndsIn n c i h (get_parent_container h x) (ground (arith, off)) ends)

-- The list and the weight of the container at once.
put_shift :
    (c i w : ℕ) (h : Heap) (x : ℕ)
    → update c (shift_total w 0) (put c i h) x
      ≡ update i
          (set_parent (inside c))
          (update c
            (λ r. record r { item_list = i ∷ r.item_list; total_weight = r.total_weight + w })
            h)
          x
unfolding put update shift_total
put_shift c i w h x = elim (Bool-cases (x == c)) [
  | inl e ↦ elim (Bool-cases (x == i)) [
    | inl f ↦ rw (e, f) (ground arith)
    | inr f ↦ rw (e, f) (ground arith)
  ]
  | inr e ↦ elim (Bool-cases (x == i)) [ inl f ↦ rw (e, f) refl | inr f ↦ rw (e, f) refl ]
]

-- `__internalAddThing` of an item that is in no container into a container that is neither the item
-- itself nor inside it: it ends, every container's `totalWeight` is the sum of the weights of its items
-- again, and every item is once in the list of the container that is its parent.
pub internal_add_thing-Settles :
    (types : ItemTypes) (fuel c i : ℕ) (h : Heap)
    → IsPlaced h
    → IsWeighed types h
    → (h c).is_container ≡ true
    → ((d : ℕ) → is_in d (h i).parent ≡ false)
    → EndsIn (suc fuel) h (some c)
    → on_way (suc fuel) h (some c) i ≡ false
    → Settles types (put c i h) (internal_add_thing types fuel c i h)
unfolding internal_add_thing
internal_add_thing-Settles types fuel c i h p w k free ends off =
    let weight = get_weight types h i in
    let h1 = put c i h in
    let h2 = update c (shift_total weight 0) h1 in
    let same = shift_bare c weight 0 h1 in
    let p1 = put-IsPlaced c i h k free p in
    let k1 = put_container c i h c ∙ k in
    let up = bare-get_parent_container h1 h2 same c in
    let ends1 = put-EndsIn (suc fuel) c i h (some c) off ends in
    let owing = IsOff-step types c weight 0 h1 p1 k1 (put-IsOff types c i h w) in
    let (h', f, w', p', same') =
      update_parent_weight-Settles types fuel c weight 0 h2 (bare-IsPlaced h1 h2 same p1)
        (subst (EndsIn fuel h2) (sym up)
          (bare-EndsIn h1 h2 same fuel (get_parent_container h1 c) ends1))
        (subst (λ o. IsOff types o weight 0 h2) (sym up) owing) in
    (
      h',
      ap (update_parent_weight fuel weight 0 c) (sym (fun_ext (put_shift c i weight h))) ∙ f,
      w',
      p',
      λ x. same' x ∙ same x,
    )
