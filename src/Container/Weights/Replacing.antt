-- ===== src/Container/Weights/Replacing.antt =====
-- An item in the place of another (`__replaceThing` of src/container.cpp).
use mathlib.Core.Path.{fun_ext}
use model_lib.Prelude.{
  ℕ, zero, suc, ◌+◌, ◌-◌, ◌≤◌, ◌≡◌, refl, ap, sym, ◌∙◌, subst, true, false, ◌==◌, if◌then◌else◌,
  Option, none, some, List, [], ◌∷◌, arith, Bool-cases, Option-cases, inl, inr,
}
use model_lib.Prelude.Pointers.{contains, count}
use model_lib.Container.Heap.{
  Parent, nowhere, inside, elsewhere, Heap, ItemTypes, update, set_parent, get_weight, item_weight,
  container_of, get_parent_container, update_parent_weight,
}
use model_lib.Container.Change.{nth, replace_at, replace_thing}
use model_lib.Container.Weights.{is_in, IsPlaced, weight_sum, IsOff, IsWeighed, EndsIn, shift_total}
use model_lib.Container.Weights.Adding.{weight_sum-same, on_way}
use model_lib.Container.Weights.Removing.{shift_up, listed_in, is_in_unique}

-- A sum, and how often an item occurs, after a replacement.
weight_sum-replace_at :
    (types : ItemTypes) (h : Heap) (n i old : ℕ) (xs : List ℕ)
    → nth n xs ≡ some old
    → weight_sum types h (replace_at n i xs) + get_weight types h old
      ≡ weight_sum types h xs + get_weight types h i
unfolding weight_sum replace_at nth
weight_sum-replace_at types h n i old [] e = cc
weight_sum-replace_at types h zero i old (x ∷ xs) e =
    let same : x ≡ old = ground (arith, e) in omega (arith, ap (get_weight types h) same)
weight_sum-replace_at types h (suc n) i old (x ∷ xs) e =
    omega (arith, weight_sum-replace_at types h n i old xs e)

count-replace_at :
    (a n i old : ℕ) (xs : List ℕ)
    → nth n xs ≡ some old
    → count a (replace_at n i xs) + (if old == a then 1 else 0)
      ≡ count a xs + (if i == a then 1 else 0)
unfolding count replace_at nth
count-replace_at a n i old [] e = cc
count-replace_at a zero i old (x ∷ xs) e = ground (arith, e)
count-replace_at a (suc n) i old (x ∷ xs) e = ground (arith, count-replace_at a n i old xs e)

nth-contains : (n old : ℕ) (xs : List ℕ) → nth n xs ≡ some old → contains old xs ≡ true
unfolding nth contains
nth-contains n old [] e = cc
nth-contains zero old (x ∷ xs) e = ground (arith, e)
nth-contains (suc n) old (x ∷ xs) e = ground (arith, nth-contains n old xs e)

-- The items in their new places, before any weight is changed.
swapped : ℕ → ℕ → ℕ → ℕ → Heap → Heap
swapped c n i old h = update old (set_parent nowhere) (
    update i (set_parent (inside c))
      (update c (λ r. record r { item_list = replace_at n i r.item_list }) h))

module _ (c n i old : ℕ) (h : Heap) (x : ℕ) where
  swapped_list :
      (swapped c n i old h x).item_list
      ≡ (if x == c then replace_at n i (h x).item_list else (h x).item_list)
  unfolding swapped update
  swapped_list = ground arith

  swapped_parent :
      (swapped c n i old h x).parent
      ≡ (if x == old then nowhere else if x == i then inside c else (h x).parent)
  unfolding swapped update
  swapped_parent = ground arith

  swapped_container : (swapped c n i old h x).is_container ≡ (h x).is_container
  unfolding swapped update
  swapped_container = ground arith

  swapped_total : (swapped c n i old h x).total_weight ≡ (h x).total_weight
  unfolding swapped update
  swapped_total = ground arith

  swapped_weight :
      (types : ItemTypes) → get_weight types (swapped c n i old h) x ≡ get_weight types h x
  unfolding swapped update get_weight item_weight
  swapped_weight types = ground arith

swapped-IsPlaced :
    (c n i old : ℕ) (h : Heap)
    → IsPlaced h
    → (h c).is_container ≡ true
    → ((d : ℕ) → is_in d (h i).parent ≡ false)
    → nth n (h c).item_list ≡ some old
    → IsPlaced (swapped c n i old h)
swapped-IsPlaced c n i old h p k free e =
    let here = listed_in c old h p (nth-contains n old (h c).item_list e) in
    record {
      placed = λ x d. elim (Bool-cases (d == c)) [
        | inl f ↦
            let same : d ≡ c = ground (arith, f) in
            let list : (swapped c n i old h d).item_list ≡ replace_at n i (h d).item_list =
              swapped_list c n i old h d ∙ rw f refl in
            let change = count-replace_at x n i old (h d).item_list (rw same e) in
            let away : is_in d (h i).parent ≡ false = free d in
            let there : is_in d (h old).parent ≡ true = rw same here.0 in
            ground (
              arith,
              f,
              ap (count x) list,
              change,
              away,
              there,
              p.placed x d,
              p.placed old d,
              swapped_parent c n i old h x,
            )
        | inr f ↦
            let list : (swapped c n i old h d).item_list ≡ (h d).item_list =
              swapped_list c n i old h d ∙ rw f refl in
            let only = is_in_unique c d (h old).parent here.0 in
            ground (
              arith,
              f,
              ap (count x) list,
              free d,
              only,
              p.placed x d,
              swapped_parent c n i old h x,
            )
      ];
      containers = λ x d f. ground (
        arith,
        f,
        k,
        p.containers x d,
        swapped_container c n i old h d,
        swapped_parent c n i old h x,
      );
    }

swapped-IsOff :
    (types : ItemTypes) (c n i old : ℕ) (h : Heap)
    → IsWeighed types h
    → nth n (h c).item_list ≡ some old
    → IsOff types (some c) (get_weight types h i) (get_weight types h old) (swapped c n i old h)
swapped-IsOff types c n i old h w e d kd =
    let sum =
      weight_sum-same types h (swapped c n i old h) (swapped c n i old h d).item_list
        (λ j. swapped_weight c n i old h j types) in
    let right = w d (sym (swapped_container c n i old h d) ∙ kd) in
    elim (Bool-cases (d == c)) [
      | inl f ↦
          let same : d ≡ c = ground (arith, f) in
          let list : (swapped c n i old h d).item_list ≡ replace_at n i (h d).item_list =
            swapped_list c n i old h d ∙ rw f refl in
          let change = weight_sum-replace_at types h n i old (h d).item_list (rw same e) in
          ground (
            arith,
            f,
            sum,
            ap (weight_sum types h) list,
            change,
            right,
            swapped_total c n i old h d,
          )
      | inr f ↦
          let list : (swapped c n i old h d).item_list ≡ (h d).item_list =
            swapped_list c n i old h d ∙ rw f refl in
          ground (arith, f, sum, ap (weight_sum types h) list, right, swapped_total c n i old h d)
    ]

swapped-container_of :
    (c n i old : ℕ) (h : Heap) (p : Parent)
    → container_of (swapped c n i old h) p ≡ container_of h p
unfolding container_of
swapped-container_of c n i old h nowhere = refl
swapped-container_of c n i old h (inside d) = rw (swapped_container c n i old h d) refl
swapped-container_of c n i old h (elsewhere t) = refl

-- The way up does not pass the new item, and at most it ends at the old one.
swapped-EndsIn :
    (m c n i old : ℕ) (h : Heap) (o : Option ℕ)
    → on_way m h o i ≡ false
    → EndsIn m h o
    → EndsIn m (swapped c n i old h) o
unfolding get_parent_container container_of
swapped-EndsIn m c n i old h none off ends = tt
swapped-EndsIn zero c n i old h (some x) off ends = ends
swapped-EndsIn (suc m) c n i old h (some x) off ends =
    let h' = swapped c n i old h in
    let distinct : x == i ≡ false = ground (arith, off) in
    elim (Bool-cases (x == old)) [
      | inl e ↦
          let gone : (h' x).parent ≡ nowhere = swapped_parent c n i old h x ∙ rw e refl in
          let up : get_parent_container h' x ≡ none = ap (container_of h') gone in
          subst (EndsIn m h') (sym up) tt
      | inr e ↦
          let kept : (h' x).parent ≡ (h x).parent =
            swapped_parent c n i old h x ∙ rw (e, distinct) refl in
          let up : get_parent_container h' x ≡ get_parent_container h x =
            ap (container_of h') kept ∙ swapped-container_of c n i old h (h x).parent in
          subst (EndsIn m h') (sym up)
            (swapped-EndsIn m c n i old h (get_parent_container h x) (ground (arith, off)) ends)
    ]

weight_sum-nth :
    (types : ItemTypes) (h : Heap) (n old : ℕ) (xs : List ℕ)
    → nth n xs ≡ some old
    → get_weight types h old ≤ weight_sum types h xs
unfolding weight_sum nth
weight_sum-nth types h n old [] e = cc
weight_sum-nth types h zero old (x ∷ xs) e =
    let same : x ≡ old = ground (arith, e) in omega (arith, ap (get_weight types h) same)
weight_sum-nth types h (suc n) old (x ∷ xs) e = omega (arith, weight_sum-nth types h n old xs e)

-- The lists and the weight of the container at once.
swapped_shift :
    (c n i old gain loss : ℕ) (h : Heap) (x : ℕ)
    → loss ≤ (h c).total_weight
    → update c (shift_total gain loss) (swapped c n i old h) x
      ≡ update old
          (set_parent nowhere)
          (update i (set_parent (inside c)) (
            update c
              (λ r. record r {
                item_list = replace_at n i r.item_list;
                total_weight = r.total_weight - loss + gain;
              })
              h))
          x
unfolding swapped update shift_total
swapped_shift c n i old gain loss h x le = elim (Bool-cases (x == c)) [
  | inl e ↦
      let same : x ≡ c = ground (arith, e) in
      let le' : loss ≤ (h x).total_weight = rw same le in
      let sums : (h x).total_weight + gain - loss ≡ (h x).total_weight - loss + gain =
        omega (arith, le') in
      elim (Bool-cases (x == old)) [
        | inl f ↦ elim (Bool-cases (x == i)) [
          | inl g ↦ rw (e, f, g, sums) refl
          | inr g ↦ rw (e, f, g, sums) refl
        ]
        | inr f ↦ elim (Bool-cases (x == i)) [
          | inl g ↦ rw (e, f, g, sums) refl
          | inr g ↦ rw (e, f, g, sums) refl
        ]
      ]
  | inr e ↦ rw e refl
]

-- `__replaceThing`, by an item that is in no container and neither the container itself nor around it,
-- at an index of an item or behind them: it ends, every item is once in the list of its parent and in
-- no other, and every container's `totalWeight` is the sum of the weights of its items. All this was
-- so before, and the way up from the container ends.
replace_thing-IsRight :
    (types : ItemTypes) (fuel c n i : ℕ) (h : Heap)
    → IsPlaced h
    → IsWeighed types h
    → (h c).is_container ≡ true
    → ((d : ℕ) → is_in d (h i).parent ≡ false)
    → EndsIn (suc fuel) h (some c)
    → on_way (suc fuel) h (some c) i ≡ false
    → (h' : Heap) × (replace_thing types fuel c n i h ≡ some h') × IsPlaced h' × IsWeighed types h'
unfolding replace_thing
replace_thing-IsRight types fuel c n i h p w k free ends off =
    elim (Option-cases (nth n (h c).item_list)) [
      | inl e ↦ (h, rw (e, replace_thing) refl, p, w)
      | inr (old, e) ↦
          let gain = get_weight types h i in
          let loss = get_weight types h old in
          let le : loss ≤ (h c).total_weight =
            rw (w c k) (weight_sum-nth types h n old (h c).item_list e) in
          let (h', f, w', p', same) =
            shift_up types fuel c gain loss (swapped c n i old h)
              (swapped-IsPlaced c n i old h p k free e) (swapped_container c n i old h c ∙ k)
              (swapped-EndsIn (suc fuel) c n i old h (some c) off ends)
              (swapped-IsOff types c n i old h w e) in
          let heaps = fun_ext (λ x. swapped_shift c n i old gain loss h x le) in
          (
            h',
            rw (e, replace_thing) (ap (update_parent_weight fuel gain loss c) (sym heaps) ∙ f),
            p',
            w',
          )
    ]
