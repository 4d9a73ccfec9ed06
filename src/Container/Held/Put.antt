-- ===== src/Container/Held/Put.antt =====
-- What is inside of a container after `__addThing` of src/container.cpp.
use model_lib.Prelude.{
  ℕ, zero, suc, ◌+◌, ◌*◌, ◌≡◌, refl, ap, ap₂, sym, ◌∙◌, subst, false, ◌==◌, if◌then◌else◌, List, [],
  ◌∷◌, arith, Bool-cases, inl, inr,
}
use model_lib.Container.Heap.{Heap}
use model_lib.Container.Held.{items_of, held, IsDeep, deeper, total, total-append, total-none, hit}

-- `j` levels more.
unfoldable pub plus : ℕ → ℕ → ℕ
plus zero n = n
plus (suc j) n = suc (plus j n)

module _ (h : Heap) where
  lifted :
      (j n : ℕ) (is : List ℕ)
      → IsDeep n h is
      → IsDeep (plus j n) h is × (held (plus j n) h is ≡ held n h is)
  unfolding plus
  lifted zero n is d = (d, refl)
  lifted (suc j) n is d =
      let (d', e) = lifted j n is d in let (d'', e') = deeper (plus j n) h is d' in (d'', e' ∙ e)

  pub total-held :
      (g : ℕ → ℕ) (n i : ℕ) (is : List ℕ)
      → total g (held (suc n) h (i ∷ is))
        ≡ g i + total g (held n h (items_of h i)) + total g (held (suc n) h is)
  unfolding held total
  total-held g n i is = omega (arith, total-append g (held n h (items_of h i)) (held (suc n) h is))

sum_none : (w : ℕ) → 0 ≡ 0 + 0 * w
sum_none w = omega arith

sum_one : (a b r w s t : ℕ) → a + (w + (b + s * w)) + (r + t * w) ≡ (a + b + r) + (1 + s + t) * w
sum_one a b r w s t = grind arith

sum_zero : (a b r w s t : ℕ) → a + (b + s * w) + (r + t * w) ≡ (a + b + r) + (0 + s + t) * w
sum_zero a b r w s t = grind arith

-- The item `i` is added to the container `c`, which is not inside of it.
module _ (h h' : Heap) (c i m : ℕ)
    (change : (x : ℕ) → items_of h' x ≡ (if x == c then i ∷ items_of h x else items_of h x))
    (other : i == c ≡ false) (deep : IsDeep m h (items_of h i))
    (free : total (hit c) (held m h (items_of h i)) ≡ 0) where
  kept : (x : ℕ) → x == c ≡ false → items_of h' x ≡ items_of h x
  kept x e = ground (arith, e, change x)

  below_same :
      (n : ℕ) (is : List ℕ)
      → IsDeep n h is
      → total (hit c) (held n h is) ≡ 0
      → IsDeep n h' is × (held n h' is ≡ held n h is)
  unfolding held
  below_same zero [] d e = (tt, refl)
  below_same (suc n) [] d e = (tt, refl)
  below_same zero (x ∷ is) d e = absurd d
  below_same (suc n) (x ∷ is) (b, r) e =
      let sum = total-held h (hit c) n x is in
      let no : x == c ≡ false = ground (arith, e, sum) in
      let same = kept x no in
      let (b', f) = below_same n (items_of h x) b (omega (arith, e, sum)) in
      let (r', f') = below_same (suc n) is r (omega (arith, e, sum)) in
      ((subst (IsDeep n h') (sym same) b', r'), rw (same, f, f') refl)

  new_item :
      (j : ℕ)
      → IsDeep (plus j m) h' (items_of h' i)
        × (held (plus j m) h' (items_of h' i) ≡ held m h (items_of h i))
  new_item j =
      let (d, e) = below_same m (items_of h i) deep free in
      let (d', e') = lifted h' j m (items_of h i) d in
      let same = kept i other in (subst (IsDeep (plus j m) h') (sym same) d', rw same (e' ∙ e))

  -- What is inside of a list's items afterwards.
  pub put_held :
      (n : ℕ) (is : List ℕ)
      → IsDeep n h is
      → IsDeep (suc (plus n m)) h' is
        × ((g : ℕ → ℕ)
            → total g (held (suc (plus n m)) h' is)
              ≡ total g (held n h is)
                + total (hit c) (held n h is) * (g i + total g (held m h (items_of h i))))
  unfolding plus
  put_held n [] d = (
    tt,
    λ g.
        rw (total-none g (suc (plus n m)) h', total-none g n h, total-none (hit c) n h)
          (sum_none (g i + total g (held m h (items_of h i)))),
  )
  put_held zero (x ∷ is) d = absurd d
  put_held (suc n) (x ∷ is) (b, r) =
      let (b', f) = put_held n (items_of h x) b in
      let (r', f') = put_held (suc n) is r in
      let (d, e) = new_item n in
      elim (Bool-cases (x == c)) [
        | inl y ↦
            let same : items_of h' x ≡ i ∷ items_of h x = ground (arith, y, change x) in
            (
              (subst (IsDeep (suc (plus n m)) h') (sym same) (d, b'), r'),
              λ g.
                  let w = g i + total g (held m h (items_of h i)) in
                  let inner =
                    ap (λ l. total g (held (suc (plus n m)) h' l)) same
                    ∙ total-held h' g (plus n m) i (items_of h x)
                    ∙ ap₂ (λ u v. g i + u + v) (ap (total g) e) (f g) in
                  let hits : total (hit c) (held (suc n) h (x ∷ is)) ≡ _ =
                    total-held h (hit c) n x is
                    ∙ ap
                        (λ v.
                          v
                          + total (hit c) (held n h (items_of h x))
                          + total (hit c) (held (suc n) h is))
                        (rw y refl) in
                  total-held h' g (suc (plus n m)) x is
                  ∙ ap₂ (λ u v. g x + u + v) inner (f' g)
                  ∙ sum_one (g x) _ _ w _ _
                  ∙ sym (ap₂ (λ u v. u + v * w) (total-held h g n x is) hits),
            )
        | inr y ↦
            let same = kept x y in
            (
              (subst (IsDeep (suc (plus n m)) h') (sym same) b', r'),
              λ g.
                  let w = g i + total g (held m h (items_of h i)) in
                  let inner = ap (λ l. total g (held (suc (plus n m)) h' l)) same ∙ f g in
                  let hits : total (hit c) (held (suc n) h (x ∷ is)) ≡ _ =
                    total-held h (hit c) n x is
                    ∙ ap
                        (λ v.
                          v
                          + total (hit c) (held n h (items_of h x))
                          + total (hit c) (held (suc n) h is))
                        (rw y refl) in
                  total-held h' g (suc (plus n m)) x is
                  ∙ ap₂ (λ u v. g x + u + v) inner (f' g)
                  ∙ sum_zero (g x) _ _ w _ _
                  ∙ sym (ap₂ (λ u v. u + v * w) (total-held h g n x is) hits),
            )
      ]
