-- ===== src/Container/Weights.antt =====
-- The weights of `Container` (src/container.cpp): what `totalWeight` has to be, and how
-- `updateItemWeight` puts it right on the way up.
pub mod Adding
pub mod Removing
pub mod Replacing
pub mod Reweighing
pub mod Changing
use model_lib.Prelude.{
  ℕ, zero, suc, ◌+◌, ◌-◌, ◌*◌, ◌≤◌, ◌<◌, ◌≡◌, refl, ap, sym, ◌∙◌, subst, Bool, true, false, ◌==◌,
  if◌then◌else◌, Option, none, some, List, [], ◌∷◌, ◌++◌, arith, Bool-cases, Option-cases, inl, inr,
}
use model_lib.Prelude.Pointers.{count}
use model_lib.Container.Heap.{
  Parent, nowhere, inside, elsewhere, Item, Heap, ItemTypes, update, get_weight, item_weight,
  container_of, get_parent_container, update_item_weight, update_parent_weight,
}

abbrev pub is_in : ℕ → Parent → Bool
is_in d nowhere = false
is_in d (inside c) = c == d
is_in d (elsewhere t) = false

abbrev pub one_if : Bool → ℕ
one_if true = 1
one_if false = 0

-- The items of a list are once in the list of their parent, and in no other.
pub record IsPlaced (h : Heap) : Type 0 where
  pub placed : (i d : ℕ) → count i (h d).item_list ≡ one_if (is_in d (h i).parent)
  pub containers : (i d : ℕ) → is_in d (h i).parent ≡ true → (h d).is_container ≡ true

unfoldable pub weight_sum : ItemTypes → Heap → List ℕ → ℕ
weight_sum types h [] = 0
weight_sum types h (i ∷ is) = get_weight types h i + weight_sum types h is

-- What a container still has to add, or to take off.
abbrev pub owed : Option ℕ → ℕ → ℕ → ℕ
owed none d n = 0
owed (some x) d n = if x == d then n else 0

-- The weights are right up to `gain - loss` at one container.
abbrev pub IsOff : ItemTypes → Option ℕ → ℕ → ℕ → Heap → Type 0
IsOff types o gain loss h =
    (d : ℕ)
    → (h d).is_container ≡ true
    → (h d).total_weight + owed o d gain ≡ weight_sum types h (h d).item_list + owed o d loss

-- Every container's `totalWeight` is the sum of the weights of its items.
abbrev pub IsWeighed : ItemTypes → Heap → Type 0
IsWeighed types h =
    (d : ℕ) → (h d).is_container ≡ true → (h d).total_weight ≡ weight_sum types h (h d).item_list

-- When the weight of one item changes, a sum changes as often as the item is in the list.
pub weight_sum-change :
    (types : ItemTypes) (h h' : Heap) (x gain loss : ℕ)
    → ((i : ℕ)
        → get_weight types h' i + (if i == x then loss else 0)
          ≡ get_weight types h i + (if i == x then gain else 0))
    → (xs : List ℕ)
    → weight_sum types h' xs + count x xs * loss ≡ weight_sum types h xs + count x xs * gain
unfolding weight_sum count
weight_sum-change types h h' x gain loss e [] = omega arith
weight_sum-change types h h' x gain loss e (i ∷ is) =
    let rest = weight_sum-change types h h' x gain loss e is in
    elim (Bool-cases (i == x)) [
      | inl f ↦ rw f (grind (arith, e i, rest, f))
      | inr f ↦ rw f (grind (arith, e i, rest, f))
    ]

unfoldable pub shift_total : ℕ → ℕ → Item → Item
shift_total gain loss i = record i { total_weight = i.total_weight + gain - loss }

get_weight-shift :
    (types : ItemTypes) (c gain loss : ℕ) (h : Heap)
    → (h c).is_container ≡ true
    → loss ≤ (h c).total_weight + gain
    → (i : ℕ)
    → get_weight types (update c (shift_total gain loss) h) i + (if i == c then loss else 0)
      ≡ get_weight types h i + (if i == c then gain else 0)
unfolding get_weight update item_weight shift_total
get_weight-shift types c gain loss h k le i = elim (Bool-cases (i == c)) [
  | inl e ↦ ground (arith, e, k, le)
  | inr e ↦ rw e refl
]

pub owed-container_of :
    (h : Heap) (p : Parent) (d n : ℕ)
    → ((d : ℕ) → is_in d p ≡ true → (h d).is_container ≡ true)
    → owed (container_of h p) d n ≡ one_if (is_in d p) * n
unfolding container_of
owed-container_of h nowhere d n k = omega arith
owed-container_of h (inside c) d n k =
    rw (k c (ground arith))
      (elim (Bool-cases (c == d)) [ inl e ↦ rw e (omega arith) | inr e ↦ rw e (omega arith) ])
owed-container_of h (elsewhere t) d n k = omega arith

module _ (c gain loss : ℕ) (h : Heap) (d : ℕ) where
  shift_list : (update c (shift_total gain loss) h d).item_list ≡ (h d).item_list
  unfolding update shift_total
  shift_list = ground arith

  shift_container : (update c (shift_total gain loss) h d).is_container ≡ (h d).is_container
  unfolding update shift_total
  shift_container = ground arith

  shift_parent : (update c (shift_total gain loss) h d).parent ≡ (h d).parent
  unfolding update shift_total
  shift_parent = ground arith

  shift_weight :
      (update c (shift_total gain loss) h d).total_weight
      ≡ (if d == c then (h d).total_weight + gain - loss else (h d).total_weight)
  unfolding update shift_total
  shift_weight = ground arith

pub IsOff-step :
    (types : ItemTypes) (c gain loss : ℕ) (h : Heap)
    → IsPlaced h
    → (h c).is_container ≡ true
    → IsOff types (some c) gain loss h
    → IsOff types (get_parent_container h c) gain loss (update c (shift_total gain loss) h)
unfolding get_parent_container
IsOff-step types c gain loss h p k off d kd =
    let h' = update c (shift_total gain loss) h in
    let here = off c k in
    let le : loss ≤ (h c).total_weight + gain = ground (arith, here) in
    let change =
      weight_sum-change types h h' c gain loss (get_weight-shift types c gain loss h k le)
        (h d).item_list in
    let change' : weight_sum types h' (h d).item_list + one_if (is_in d (h c).parent) * loss
        ≡ weight_sum types h (h d).item_list + one_if (is_in d (h c).parent) * gain =
      rw (← p.placed c d) change in
    let sum : weight_sum types h' (h' d).item_list ≡ weight_sum types h' (h d).item_list =
      ap (weight_sum types h') (shift_list c gain loss h d) in
    let total = shift_weight c gain loss h d in
    let more = owed-container_of h (h c).parent d gain (p.containers c) in
    let less = owed-container_of h (h c).parent d loss (p.containers c) in
    let there = off d (sym (shift_container c gain loss h d) ∙ kd) in
    ground (arith, change', sum, total, more, less, there, le)

-- The way up from a container ends within `n` steps.
abbrev pub EndsIn : ℕ → Heap → Option ℕ → Type 0
EndsIn n h none = Unit
EndsIn zero h (some c) = ⊥
EndsIn (suc n) h (some c) = EndsIn n h (get_parent_container h c)

-- An item without its `totalWeight`.
abbrev pub bare : Item → Item
bare i = record i { total_weight = 0 }

pub shift_bare :
    (c gain loss : ℕ) (h : Heap) (d : ℕ) → bare (update c (shift_total gain loss) h d) ≡ bare (h d)
unfolding update shift_total
shift_bare c gain loss h d = elim (Bool-cases (d == c)) [ inl e ↦ rw e refl | inr e ↦ rw e refl ]

-- What does not depend on the weights.
module _ (h h' : Heap) (same : (i : ℕ) → bare (h' i) ≡ bare (h i)) where
  bare-container_of : (p : Parent) → container_of h' p ≡ container_of h p
  unfolding container_of
  bare-container_of nowhere = refl
  bare-container_of (inside c) =
      ap (λ (b : Bool). if b then some c else none) (ap (λ i. i.is_container) (same c))
  bare-container_of (elsewhere t) = refl

  pub bare-get_parent_container : (c : ℕ) → get_parent_container h' c ≡ get_parent_container h c
  unfolding get_parent_container
  bare-get_parent_container c =
      ap (λ i. container_of h' i.parent) (same c) ∙ bare-container_of (h c).parent

  pub bare-EndsIn : (n : ℕ) (o : Option ℕ) → EndsIn n h o → EndsIn n h' o
  bare-EndsIn n none e = tt
  bare-EndsIn zero (some c) e = e
  bare-EndsIn (suc n) (some c) e =
      subst (EndsIn n h') (sym (bare-get_parent_container c))
        (bare-EndsIn n (get_parent_container h c) e)

  pub bare-IsPlaced : IsPlaced h → IsPlaced h'
  bare-IsPlaced p = record {
    placed = λ i d.
        ap (λ r. count i r.item_list) (same d)
        ∙ p.placed i d
        ∙ ap (λ r. one_if (is_in d r.parent)) (sym (same i));
    containers = λ i d e.
        ap (λ r. r.is_container) (same d)
        ∙ p.containers i d (ap (λ r. is_in d r.parent) (sym (same i)) ∙ e);
  }

pub container_of-is_container :
    (h : Heap) (p : Parent) (c : ℕ) → container_of h p ≡ some c → (h c).is_container ≡ true
unfolding container_of
container_of-is_container h nowhere c e = cc
container_of-is_container h (inside d) c e = ground (arith, e)
container_of-is_container h (elsewhere t) c e = cc

-- A change of weights that ends puts them right, and changes nothing else.
abbrev pub Settles : ItemTypes → Heap → Option Heap → Type 0
Settles types h o =
    (h' : Heap) × (o ≡ some h')
    × IsWeighed types h'
    × IsPlaced h'
    × ((i : ℕ) → bare (h' i) ≡ bare (h i))

module _ (fuel gain loss c : ℕ) (h : Heap) where
  weight_last :
      get_parent_container h c ≡ none
      → update_item_weight (suc fuel) gain loss c h ≡ some (update c (shift_total gain loss) h)
  unfolding update_item_weight shift_total
  weight_last e = rw (e, update_item_weight) refl

  weight_up :
      (q : ℕ)
      → get_parent_container h c ≡ some q
      → update_item_weight (suc fuel) gain loss c h
        ≡ update_item_weight fuel gain loss q (update c (shift_total gain loss) h)
  unfolding update_item_weight shift_total
  weight_up q e = rw (e, update_item_weight) refl

update_item_weight-Settles :
    (types : ItemTypes) (fuel c gain loss : ℕ) (h : Heap)
    → IsPlaced h
    → (h c).is_container ≡ true
    → EndsIn fuel h (some c)
    → IsOff types (some c) gain loss h
    → Settles types h (update_item_weight fuel gain loss c h)
update_item_weight-Settles types zero c gain loss h p k ends off = absurd ends
update_item_weight-Settles types (suc fuel) c gain loss h p k ends off =
    let h' = update c (shift_total gain loss) h in
    let same = shift_bare c gain loss h in
    let p' = bare-IsPlaced h h' same p in
    let off' = IsOff-step types c gain loss h p k off in
    elim (Option-cases (get_parent_container h c)) [
      | inl e ↦ (
        h',
        weight_last fuel gain loss c h e,
        λ d kd. omega (arith, subst (λ o. IsOff types o gain loss h') e off' d kd),
        p',
        same,
      )
      | inr (q, e) ↦
          let up = bare-get_parent_container h h' same c ∙ e in
          let kq =
            container_of-is_container h' (h' c).parent q (unfold get_parent_container in up) in
          let (h'', f, w, p'', same') =
            update_item_weight-Settles types fuel q gain loss h' p' kq
              (bare-EndsIn h h' same fuel (some q) (subst (EndsIn fuel h) e ends))
              (subst (λ o. IsOff types o gain loss h') e off') in
          (h'', weight_up fuel gain loss c h q e ∙ f, w, p'', λ i. same' i ∙ same i)
    ]

-- The same from a container's parent on, when what is still owed is owed there.
pub update_parent_weight-Settles :
    (types : ItemTypes) (fuel c gain loss : ℕ) (h : Heap)
    → IsPlaced h
    → EndsIn fuel h (get_parent_container h c)
    → IsOff types (get_parent_container h c) gain loss h
    → Settles types h (update_parent_weight fuel gain loss c h)
unfolding update_parent_weight
update_parent_weight-Settles types fuel c gain loss h p ends off =
    elim (Option-cases (get_parent_container h c)) [
      | inl e ↦ (
        h,
        rw (e, update_parent_weight) refl,
        λ d kd. omega (arith, subst (λ o. IsOff types o gain loss h) e off d kd),
        p,
        λ i. refl,
      )
      | inr (q, e) ↦
          let kq = container_of-is_container h (h c).parent q (unfold get_parent_container in e) in
          let (h', f, w, p', same) =
            update_item_weight-Settles types fuel q gain loss h p kq (subst (EndsIn fuel h) e ends)
              (subst (λ o. IsOff types o gain loss h) e off) in
          (h', rw (e, update_parent_weight) f, w, p', same)
    ]
