-- ===== src/Container/Weights/Removing.antt =====
-- Taking an item out of a container (`__removeThing` of src/container.cpp).
use model_lib.Prelude.{
  ℕ, zero, suc, ◌+◌, ◌-◌, ◌≡◌, refl, ap, sym, ◌∙◌, subst, true, ◌==◌, if◌then◌else◌, Option, none,
  some, List, [], ◌∷◌, arith, Bool-cases, inl, inr,
}
use model_lib.Prelude.Pointers.{contains, erase, count, contains-count, count-erase}
use model_lib.Container.Heap.{
  Parent, nowhere, inside, elsewhere, Heap, ItemTypes, update, set_parent, get_weight, item_weight,
  container_of, get_parent_container, update_parent_weight,
}
use model_lib.Container.Weights.{
  is_in, IsPlaced, weight_sum, IsOff, IsWeighed, EndsIn, Settles, shift_total, shift_bare,
  bare-get_parent_container, bare-EndsIn, bare-IsPlaced, IsOff-step, update_parent_weight-Settles,
}
use model_lib.Container.Weights.Adding.{weight_sum-same}

-- What is owed at a container, shifted there and handed on to its parents.
pub shift_up :
    (types : ItemTypes) (fuel c gain loss : ℕ) (h : Heap)
    → IsPlaced h
    → (h c).is_container ≡ true
    → EndsIn (suc fuel) h (some c)
    → IsOff types (some c) gain loss h
    → Settles types h (update_parent_weight fuel gain loss c (update c (shift_total gain loss) h))
shift_up types fuel c gain loss h p k ends off =
    let h' = update c (shift_total gain loss) h in
    let same = shift_bare c gain loss h in
    let up = bare-get_parent_container h h' same c in
    let (h'', e, w, p', same') =
      update_parent_weight-Settles types fuel c gain loss h' (bare-IsPlaced h h' same p)
        (subst (EndsIn fuel h') (sym up)
          (bare-EndsIn h h' same fuel (get_parent_container h c) ends))
        (subst (λ o. IsOff types o gain loss h') (sym up)
          (IsOff-step types c gain loss h p k off)) in
    (h'', e, w, p', λ x. same' x ∙ same x)

-- The container without the item, before its weight is taken off.
pub taken : ℕ → ℕ → Heap → Heap
taken c i h =
    update i (set_parent nowhere) (update c (λ r. record r { item_list = erase i r.item_list }) h)

module _ (c i : ℕ) (h : Heap) (x : ℕ) where
  taken_list :
      (taken c i h x).item_list ≡ (if x == c then erase i (h x).item_list else (h x).item_list)
  unfolding taken update
  taken_list = ground arith

  taken_parent : (taken c i h x).parent ≡ (if x == i then nowhere else (h x).parent)
  unfolding taken update
  taken_parent = ground arith

  pub taken_container : (taken c i h x).is_container ≡ (h x).is_container
  unfolding taken update
  taken_container = ground arith

  taken_total : (taken c i h x).total_weight ≡ (h x).total_weight
  unfolding taken update
  taken_total = ground arith

  taken_weight : (types : ItemTypes) → get_weight types (taken c i h) x ≡ get_weight types h x
  unfolding taken update get_weight item_weight
  taken_weight types = ground arith

  pub taken_shift :
      (w : ℕ)
      → update c (shift_total 0 w) (taken c i h) x
        ≡ update i
            (set_parent nowhere)
            (update c
              (λ r. record r { item_list = erase i r.item_list; total_weight = r.total_weight - w })
              h)
            x
  unfolding taken update shift_total
  taken_shift w = elim (Bool-cases (x == c)) [
    | inl e ↦ elim (Bool-cases (x == i)) [
      | inl f ↦ rw (e, f) (ground arith)
      | inr f ↦ rw (e, f) (ground arith)
    ]
    | inr e ↦ elim (Bool-cases (x == i)) [ inl f ↦ rw (e, f) refl | inr f ↦ rw (e, f) refl ]
  ]

-- An item of a container's list has the container for its parent.
pub listed_in :
    (c i : ℕ) (h : Heap)
    → IsPlaced h
    → contains i (h c).item_list ≡ true
    → (is_in c (h i).parent ≡ true) × (count i (h c).item_list ≡ 1)
listed_in c i h p e =
    let once = p.placed i c in
    let some_time = contains-count i (h c).item_list in
    elim (Bool-cases (is_in c (h i).parent)) [
      | inl f ↦ (f, once ∙ rw f refl)
      | inr f ↦ absurd (ground (arith, e, f, once, some_time))
    ]

pub is_in_unique : (c d : ℕ) (p : Parent) → is_in c p ≡ true → is_in d p ≡ (c == d)
is_in_unique c d nowhere e = cc
is_in_unique c d (inside x) e = ground (arith, e)
is_in_unique c d (elsewhere t) e = cc

pub taken-IsPlaced :
    (c i : ℕ) (h : Heap) → contains i (h c).item_list ≡ true → IsPlaced h → IsPlaced (taken c i h)
taken-IsPlaced c i h e p =
    let here = listed_in c i h p e in
    record {
      placed = λ x d. ground (
        arith,
        p.placed x d,
        here.0,
        here.1,
        is_in_unique c d (h i).parent here.0,
        taken_list c i h d,
        taken_parent c i h x,
        count-erase x i (h d).item_list,
      );
      containers = λ x d f.
          ground (arith, f, p.containers x d, taken_container c i h d, taken_parent c i h x);
    }

weight_sum-erase :
    (types : ItemTypes) (h : Heap) (i : ℕ) (xs : List ℕ)
    → contains i xs ≡ true
    → weight_sum types h xs ≡ get_weight types h i + weight_sum types h (erase i xs)
unfolding weight_sum erase contains
weight_sum-erase types h i [] e = cc
weight_sum-erase types h i (x ∷ xs) e = ground (arith, e, weight_sum-erase types h i xs)

pub taken-IsOff :
    (types : ItemTypes) (c i : ℕ) (h : Heap)
    → contains i (h c).item_list ≡ true
    → IsWeighed types h
    → IsOff types (some c) 0 (get_weight types h i) (taken c i h)
taken-IsOff types c i h e w d kd =
    let sum =
      weight_sum-same types h (taken c i h) (taken c i h d).item_list
        (λ j. taken_weight c i h j types) in
    let right = w d (sym (taken_container c i h d) ∙ kd) in
    elim (Bool-cases (d == c)) [
      | inl f ↦
          let same : d ≡ c = ground (arith, f) in
          let list : (taken c i h d).item_list ≡ erase i (h d).item_list =
            taken_list c i h d ∙ rw f refl in
          let less = weight_sum-erase types h i (h d).item_list (rw same e) in
          ground (arith, f, sum, ap (weight_sum types h) list, less, right, taken_total c i h d)
      | inr f ↦
          let list : (taken c i h d).item_list ≡ (h d).item_list = taken_list c i h d ∙ rw f refl in
          ground (arith, f, sum, ap (weight_sum types h) list, right, taken_total c i h d)
    ]

taken-container_of :
    (c i : ℕ) (h : Heap) (p : Parent) → container_of (taken c i h) p ≡ container_of h p
unfolding container_of
taken-container_of c i h nowhere = refl
taken-container_of c i h (inside d) = rw (taken_container c i h d) refl
taken-container_of c i h (elsewhere t) = refl

pub taken-EndsIn : (n c i : ℕ) (h : Heap) (o : Option ℕ) → EndsIn n h o → EndsIn n (taken c i h) o
unfolding get_parent_container container_of
taken-EndsIn n c i h none ends = tt
taken-EndsIn zero c i h (some x) ends = ends
taken-EndsIn (suc n) c i h (some x) ends = elim (Bool-cases (x == i)) [
  | inl e ↦
      let gone : (taken c i h x).parent ≡ nowhere = taken_parent c i h x ∙ rw e refl in
      let up : get_parent_container (taken c i h) x ≡ none = ap (container_of (taken c i h)) gone in
      subst (EndsIn n (taken c i h)) (sym up) tt
  | inr e ↦
      let kept : (taken c i h x).parent ≡ (h x).parent = taken_parent c i h x ∙ rw e refl in
      let up : get_parent_container (taken c i h) x ≡ get_parent_container h x =
        ap (container_of (taken c i h)) kept ∙ taken-container_of c i h (h x).parent in
      subst (EndsIn n (taken c i h)) (sym up) (taken-EndsIn n c i h (get_parent_container h x) ends)
]
