-- ===== src/Container/Held/Loop.antt =====
-- The loops over `ContainerIterator` of src/container.cpp go once through what a recursion finds.
use model_lib.Prelude.{
  ℕ, zero, suc, ◌+◌, ◌≤◌, ◌≡◌, ◌≢◌, refl, ap, sym, ◌∙◌, subst, false, ltb, ◌==◌, ◌⊎◌, some, List,
  [], ◌∷◌, ◌++◌, length, arith, Bool-cases, inl, inr,
}
use model_lib.Prelude.Pointers.{contains, contains-count, is_nil}
use model_lib.Container.Heap.{Heap}
use model_lib.Container.Iterator.{
  begin, front_begin, push, settle, increment, count_from, get_item_holding_count, holds_from,
  is_holding_item,
}
use model_lib.Container.Held.{
  items_of, held, IsDeep, deeper, total, total-append, hit, total-length, total-count, total-none,
  List-cases,
}

-- The containers of a queue are not empty, and nothing is too deep in them.
abbrev IsQueued : ℕ → Heap → List ℕ → Type 0
IsQueued n h [] = Unit
IsQueued n h (c ∷ cs) =
    (is_nil (h c).item_list ≡ false) × IsDeep n h (h c).item_list × IsQueued n h cs

IsQueued-append :
    (n : ℕ) (h : Heap) (cs : List ℕ) (c : ℕ)
    → IsQueued n h cs
    → is_nil (h c).item_list ≡ false
    → IsDeep n h (h c).item_list
    → IsQueued n h (cs ++ c ∷ [])
IsQueued-append n h [] c q e d = (e, d, tt)
IsQueued-append n h (b ∷ bs) c (e', d', q) e d = (e', d', IsQueued-append n h bs c q e d)

unfoldable queue_total : (ℕ → ℕ) → ℕ → Heap → List ℕ → ℕ
queue_total g n h [] = 0
queue_total g n h (c ∷ cs) = total g (held n h (h c).item_list) + queue_total g n h cs

queue_total-append :
    (g : ℕ → ℕ) (n : ℕ) (h : Heap) (cs : List ℕ) (c : ℕ)
    → queue_total g n h (cs ++ c ∷ []) ≡ queue_total g n h cs + total g (held n h (h c).item_list)
unfolding queue_total
queue_total-append g n h [] c = omega arith
queue_total-append g n h (b ∷ bs) c = omega (arith, queue_total-append g n h bs c)

-- An iterator stands at an item unless it is at the end, and what is still to come is deep enough.
abbrev IsAt : ℕ → Heap → List ℕ → List ℕ → Type 0
IsAt n h [] current = Unit
IsAt n h (c ∷ cs) current = (is_nil current ≡ false) × IsDeep n h current × IsQueued n h cs

-- The measure of what is still to come.
unfoldable pending : (ℕ → ℕ) → ℕ → Heap → List ℕ → List ℕ → ℕ
unfolding queue_total
pending g n h [] current = 0
pending g n h (c ∷ cs) current = total g (held n h current) + queue_total g n h cs

settle-IsAt :
    (n : ℕ) (h : Heap) (c : ℕ) (cs is : List ℕ)
    → IsDeep n h is
    → IsQueued n h cs
    → let it = settle h (c ∷ cs) is in IsAt n h it.over it.current
unfolding settle front_begin is_nil
settle-IsAt n h c [] [] d q = tt
settle-IsAt n h c (b ∷ bs) [] d q = q
settle-IsAt n h c cs (i ∷ is) d q = (refl, d, q)

settle-pending :
    (g : ℕ → ℕ) (n : ℕ) (h : Heap) (c : ℕ) (cs is : List ℕ)
    → let it = settle h (c ∷ cs) is in
      pending g (suc n) h it.over it.current
      ≡ total g (held (suc n) h is) + queue_total g (suc n) h cs
unfolding settle front_begin pending queue_total held total
settle-pending g n h c [] [] = refl
settle-pending g n h c (b ∷ bs) [] = omega arith
settle-pending g n h c cs (i ∷ is) = refl

-- One step of the iterator.
module _ (n : ℕ) (h : Heap) (c i : ℕ) (cs is : List ℕ) (at : IsAt (suc n) h (c ∷ cs) (i ∷ is)) where
  -- What is inside of the item is put behind the queue, or there is nothing.
  pushed :
      ((push h i (c ∷ cs) ≡ c ∷ (cs ++ i ∷ []))
        × (is_nil (h i).item_list ≡ false)
        × (items_of h i ≡ (h i).item_list))
      ⊎ ((push h i (c ∷ cs) ≡ c ∷ cs) × (items_of h i ≡ []))
  unfolding push is_nil
  pushed = elim (Bool-cases (h i).is_container) [
    | inr k ↦ inr (ground (arith, k), ground (arith, k))
    | inl k ↦ elim (List-cases (h i).item_list) [
      | inl e ↦ inr (ground (arith, k, e), rw k e)
      | inr (x, xs, e) ↦ inl (ground (arith, k, e), ground (arith, k, e), rw k refl)
    ]
  ]

  step-IsAt : let it = increment h (c ∷ cs) i is in IsAt (suc n) h it.over it.current
  unfolding increment
  step-IsAt =
      let (e, (below, rest), q) = at in
      elim pushed [
        | inl (f, some_in, same) ↦
            let below' = subst (IsDeep (suc n) h) same (deeper n h (items_of h i) below).0 in
            rw f (
              settle-IsAt (suc n) h c (cs ++ i ∷ []) is rest
                (IsQueued-append (suc n) h cs i q some_in below'))
        | inr (f, none_in) ↦ rw f (settle-IsAt (suc n) h c cs is rest q)
      ]

  step_pending :
      (g : ℕ → ℕ)
      → let it = increment h (c ∷ cs) i is in
        pending g (suc n) h (c ∷ cs) (i ∷ is) ≡ g i + pending g (suc n) h it.over it.current
  unfolding increment pending held total
  step_pending g =
      let (e, (below, rest), q) = at in
      let here : total g (held (suc n) h (i ∷ is))
          ≡ g i + (total g (held n h (items_of h i)) + total g (held (suc n) h is)) =
        ap (λ m. g i + m) (total-append g (held n h (items_of h i)) (held (suc n) h is)) in
      elim pushed [
        | inl (f, some_in, same) ↦
            let inner : held (suc n) h (h i).item_list ≡ held n h (items_of h i) =
              ap (held (suc n) h) (sym same) ∙ (deeper n h (items_of h i) below).1 in
            let after = settle-pending g n h c (cs ++ i ∷ []) is in
            let queue = queue_total-append g (suc n) h cs i in
            rw f (omega (arith, here, after, queue, ap (total g) inner))
        | inr (f, none_in) ↦
            let after = settle-pending g n h c cs is in
            let nothing : total g (held n h (items_of h i)) ≡ 0 =
              ap (λ l. total g (held n h l)) none_in ∙ total-none g n h in
            rw f (omega (arith, here, after, nothing))
      ]

empty_item : (xs : List ℕ) → is_nil xs ≡ false → xs ≢ []
unfolding is_nil
empty_item xs e f = ground (arith, e, f)

count_from-pending :
    (n fuel : ℕ) (h : Heap) (over current : List ℕ) (k : ℕ)
    → IsAt (suc n) h over current
    → pending (λ x. 1) (suc n) h over current ≤ fuel
    → count_from fuel h over current k ≡ some (k + pending (λ x. 1) (suc n) h over current)
unfolding count_from
count_from-pending n fuel h [] current k at le = unfold pending in ground arith
count_from-pending n fuel h (c ∷ cs) [] k at le = absurd (empty_item [] at.0 refl)
count_from-pending n zero h (c ∷ cs) (i ∷ is) k at le =
    absurd (omega (arith, step_pending n h c i cs is at (λ x. 1), le))
count_from-pending n (suc fuel) h (c ∷ cs) (i ∷ is) k at le =
    let it = increment h (c ∷ cs) i is in
    let step = step_pending n h c i cs is at (λ x. 1) in
    count_from-pending n fuel h it.over it.current (k + 1) (step-IsAt n h c i cs is at)
      (omega (arith, step, le))
    ∙ ap some (omega (arith, step))

holds_from-pending :
    (n fuel : ℕ) (h : Heap) (over current : List ℕ) (item : ℕ)
    → IsAt (suc n) h over current
    → pending (λ x. 1) (suc n) h over current ≤ fuel
    → holds_from fuel h over current item ≡ some (ltb 0 (pending (hit item) (suc n) h over current))
unfolding holds_from
holds_from-pending n fuel h [] current item at le = unfold pending in ground arith
holds_from-pending n fuel h (c ∷ cs) [] item at le = absurd (empty_item [] at.0 refl)
holds_from-pending n zero h (c ∷ cs) (i ∷ is) item at le =
    absurd (omega (arith, step_pending n h c i cs is at (λ x. 1), le))
holds_from-pending n (suc fuel) h (c ∷ cs) (i ∷ is) item at le =
    let it = increment h (c ∷ cs) i is in
    let step = step_pending n h c i cs is at (λ x. 1) in
    let found = step_pending n h c i cs is at (hit item) in
    let rest =
      holds_from-pending n fuel h it.over it.current item (step-IsAt n h c i cs is at)
        (omega (arith, step, le)) in
    elim (Bool-cases (i == item)) [
      | inl e ↦ ground (arith, e, found)
      | inr e ↦ ground (arith, e, found, rest)
    ]

-- The iterator at the begin of a container.
module _ (n : ℕ) (h : Heap) (c : ℕ) (d : IsDeep n h (h c).item_list) where
  begin-IsAt : let it = begin h c in IsAt (suc n) h it.over it.current
  unfolding begin
  begin-IsAt = elim (Bool-cases (is_nil (h c).item_list)) [
    | inl e ↦ rw e tt
    | inr e ↦ rw e (e, (deeper n h (h c).item_list d).0, tt)
  ]

  begin-pending :
      (g : ℕ → ℕ)
      → let it = begin h c in
        pending g (suc n) h it.over it.current ≡ total g (held n h (h c).item_list)
  unfolding begin pending queue_total is_nil
  begin-pending g =
      let same = ap (total g) (deeper n h (h c).item_list d).1 in
      elim (List-cases (h c).item_list) [
        | inl e ↦ rw e (sym (total-none g n h))
        | inr (x, xs, e) ↦
            let not_empty : is_nil (h c).item_list ≡ false = rw e refl in
            rw not_empty (omega (arith, same))
      ]

-- Where nothing is inside of a container more than `n` levels down, and the fuel is as much as there
-- are things in it, the loop of `getItemHoldingCount` ends and returns how many things the recursion
-- finds.
pub get_item_holding_count-held :
    (n fuel : ℕ) (h : Heap) (c : ℕ)
    → IsDeep n h (h c).item_list
    → length (held n h (h c).item_list) ≤ fuel
    → get_item_holding_count fuel h c ≡ some (length (held n h (h c).item_list))
unfolding get_item_holding_count
get_item_holding_count-held n fuel h c d le =
    let it = begin h c in
    let size = begin-pending n h c d (λ x. 1) ∙ total-length (held n h (h c).item_list) in
    count_from-pending n fuel h it.over it.current 0 (begin-IsAt n h c d) (omega (arith, size, le))
    ∙ ap some (omega (arith, size))

-- Where nothing is inside of a container more than `n` levels down, and the fuel is as much as there
-- are things in it, the loop of `isHoldingItem` ends and finds exactly the things that the recursion
-- finds.
pub is_holding_item-held :
    (n fuel : ℕ) (h : Heap) (c item : ℕ)
    → IsDeep n h (h c).item_list
    → length (held n h (h c).item_list) ≤ fuel
    → is_holding_item fuel h c item ≡ some (contains item (held n h (h c).item_list))
unfolding is_holding_item
is_holding_item-held n fuel h c item d le =
    let it = begin h c in
    let inside = held n h (h c).item_list in
    let size = begin-pending n h c d (λ x. 1) ∙ total-length inside in
    let hits = begin-pending n h c d (hit item) ∙ total-count item inside in
    holds_from-pending n fuel h it.over it.current item (begin-IsAt n h c d)
      (omega (arith, size, le))
    ∙ ap (λ m. some (ltb 0 m)) hits
    ∙ ap some (sym (contains-count item inside))
