-- ===== src/Container/Held.antt =====
-- What is inside of a container of src/container.cpp, found by recursion.
pub mod Put
pub mod Loop
use model_lib.Prelude.{
  ℕ, zero, suc, ◌+◌, ◌≤◌, ◌<◌, ◌≡◌, ◌≢◌, refl, ap, sym, ◌∙◌, subst, Bool, true, false, ◌&&◌, not,
  ltb, ◌==◌, if◌then◌else◌, ◌⊎◌, Option, none, some, List, [], ◌∷◌, ◌++◌, length, length-append,
  arith, Bool-cases, inl, inr,
}
use model_lib.Prelude.Pointers.{contains, count, contains-count, is_nil}
use model_lib.Container.Heap.{Item, Heap}
use model_lib.Container.Iterator.{
  Iterator, begin, pop, front_begin, push, settle, increment, count_from, get_item_holding_count,
  holds_from, is_holding_item,
}

-- What an item holds itself.
abbrev pub items_of : Heap → ℕ → List ℕ
items_of h i = if (h i).is_container then (h i).item_list else []

-- The items of a list, and after each what is inside of it, `n` levels down.
unfoldable pub held : ℕ → Heap → List ℕ → List ℕ
held zero h is = []
held (suc n) h [] = []
held (suc n) h (i ∷ is) = i ∷ held n h (items_of h i) ++ held (suc n) h is

-- Nothing is inside of a list's items more than `n` levels down.
abbrev pub IsDeep : ℕ → Heap → List ℕ → Type 0
IsDeep n h [] = Unit
IsDeep zero h (i ∷ is) = ⊥
IsDeep (suc n) h (i ∷ is) = IsDeep n h (items_of h i) × IsDeep (suc n) h is

pub deeper :
    (n : ℕ) (h : Heap) (is : List ℕ)
    → IsDeep n h is
    → IsDeep (suc n) h is × (held (suc n) h is ≡ held n h is)
unfolding held
deeper zero h [] d = (tt, refl)
deeper (suc n) h [] d = (tt, refl)
deeper zero h (i ∷ is) d = absurd d
deeper (suc n) h (i ∷ is) (below, rest) =
    let (below', same) = deeper n h (items_of h i) below in
    let (rest', same') = deeper (suc n) h is rest in ((below', rest'), rw (same, same') refl)

-- The sum of a measure over a list: its length, or how often an element occurs.
unfoldable pub total : (ℕ → ℕ) → List ℕ → ℕ
total g [] = 0
total g (x ∷ xs) = g x + total g xs

pub total-append : (g : ℕ → ℕ) (xs ys : List ℕ) → total g (xs ++ ys) ≡ total g xs + total g ys
unfolding total
total-append g [] ys = omega arith
total-append g (x ∷ xs) ys = omega (arith, total-append g xs ys)

abbrev pub hit : ℕ → ℕ → ℕ
hit a x = if x == a then 1 else 0

pub total-length : (xs : List ℕ) → total (λ x. 1) xs ≡ length xs
unfolding total
total-length [] = refl
total-length (x ∷ xs) = omega (arith, total-length xs)

pub total-count : (a : ℕ) (xs : List ℕ) → total (hit a) xs ≡ count a xs
unfolding total count
total-count a [] = refl
total-count a (x ∷ xs) = ground (arith, total-count a xs)

pub List-cases : (xs : List ℕ) → (xs ≡ []) ⊎ ((x : ℕ) × (ys : List ℕ) × (xs ≡ x ∷ ys))
List-cases [] = inl refl
List-cases (x ∷ xs) = inr (x, xs, refl)

pub total-none : (g : ℕ → ℕ) (n : ℕ) (h : Heap) → total g (held n h []) ≡ 0
unfolding total held
total-none g zero h = refl
total-none g (suc n) h = refl
