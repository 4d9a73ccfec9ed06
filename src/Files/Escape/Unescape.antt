-- ===== src/Files/Escape/Unescape.antt =====
-- The loop of `getProps` (src/fileloader.cpp) takes out what `writeData` has put in.
use mathlib.Core.List.{append_assoc, append-nil}
use model_lib.Prelude.{
  ℕ, zero, suc, ◌+◌, ◌≤◌, ◌<◌, ◌≡◌, refl, ap, sym, ◌∙◌, Bool, true, false, some, List, [], ◌∷◌,
  ◌++◌, length, take, drop, arith, Bool-cases, inl, inr,
}
use model_lib.Files.Escape.{byte_at, store, unescape_loop, write_data, is_special, escape_char}

byte_at-drop : (i b : ℕ) (bs buffer : List ℕ) → drop i buffer ≡ b ∷ bs → byte_at i buffer ≡ some b
unfolding byte_at
byte_at-drop i b bs [] h = ground (arith, h, drop_nil i)
  where
    drop_nil : (n : ℕ) → drop {A = ℕ} n [] ≡ []
    drop_nil zero = refl
    drop_nil (suc n) = refl
byte_at-drop zero b bs (x ∷ xs) h = ground (arith, h)
byte_at-drop (suc i) b bs (x ∷ xs) h = byte_at-drop i b bs xs h

drop_next : (i b : ℕ) (bs buffer : List ℕ) → drop i buffer ≡ b ∷ bs → drop (suc i) buffer ≡ bs
drop_next zero b bs [] h = ground (arith, h)
drop_next (suc i) b bs [] h = ground (arith, h)
drop_next zero b bs (x ∷ xs) h = ground (arith, h)
drop_next (suc i) b bs (x ∷ xs) h = drop_next i b bs xs h

take_next :
    (j b : ℕ) (bs buffer : List ℕ)
    → drop j buffer ≡ b ∷ bs
    → take (suc j) buffer ≡ take j buffer ++ b ∷ []
take_next zero b bs [] h = ground (arith, h)
take_next (suc i) b bs [] h = ground (arith, h)
take_next zero b bs (x ∷ xs) h = ground (arith, h)
take_next (suc i) b bs (x ∷ xs) h = ap (◌∷◌ x) (take_next i b bs xs h)

-- A store before the place that is read next.
record Stored (j c : ℕ) (buffer : List ℕ) : Type 0 where
  pub result : List ℕ
  pub stored : store j c buffer ≡ some result
  pub before : take (suc j) result ≡ take j buffer ++ c ∷ []
  pub behind : (k : ℕ) → j < k → drop k result ≡ drop k buffer

store_inside :
    (j i c b : ℕ) (bs buffer : List ℕ) → j ≤ i → drop i buffer ≡ b ∷ bs → Stored j c buffer
unfolding store
store_inside j zero c b bs [] le h = absurd (ground (arith, h))
store_inside j (suc i) c b bs [] le h = absurd (ground (arith, h))
store_inside zero i c b bs (x ∷ xs) le h = record {
  result = c ∷ xs;
  stored = refl;
  before = refl;
  behind = later;
}
  where
    later : (k : ℕ) → zero < k → drop k (c ∷ xs) ≡ drop k (x ∷ xs)
    later zero lt = absurd (omega arith)
    later (suc k) lt = refl
store_inside (suc j) zero c b bs (x ∷ xs) le h = absurd (omega arith)
store_inside (suc j) (suc i) c b bs (x ∷ xs) le h =
    let inner = store_inside j i c b bs xs (omega arith) h in
    record {
      result = x ∷ inner.result;
      stored = rw inner.stored refl;
      before = ap (◌∷◌ x) inner.before;
      behind = later inner.result inner.behind;
    }
  where
    later :
        (r : List ℕ)
        → ((k : ℕ) → j < k → drop k r ≡ drop k xs)
        → (k : ℕ) → suc j < k
        → drop k (x ∷ r) ≡ drop k (x ∷ xs)
    later r same zero lt = absurd (omega arith)
    later r same (suc k) lt = same k (omega arith)

-- The state of the loop: what is left is the escaped form of `cs`, and `out` stands in front.
record Reads (cs rest out : List ℕ) (i j : ℕ) (escaped : Bool) (buffer : List ℕ) : Type 0 where
  pub ahead : drop i buffer ≡ write_data cs true ++ rest
  pub done : take j buffer ≡ out
  pub order : j ≤ i
  pub same : escaped ≡ false → i ≡ j

module _ (fuel size i j : ℕ) (escaped : Bool) (buffer : List ℕ) where
  loop_stop : size ≤ i → unescape_loop (suc fuel) size i j escaped buffer ≡ some (buffer, j)
  unfolding unescape_loop
  loop_stop h = ground arith

  loop_escape :
      (c : ℕ) (b : List ℕ)
      → i < size
      → byte_at i buffer ≡ some escape_char
      → byte_at (suc i) buffer ≡ some c
      → store j c buffer ≡ some b
      → unescape_loop (suc fuel) size i j escaped buffer
        ≡ unescape_loop fuel size (suc (suc i)) (suc j) true b
  unfolding unescape_loop
  loop_escape c b h e f g = ground arith

  loop_shift :
      (c : ℕ) (b : List ℕ)
      → i < size
      → byte_at i buffer ≡ some c
      → is_special c ≡ false
      → escaped ≡ true
      → store j c buffer ≡ some b
      → unescape_loop (suc fuel) size i j escaped buffer
        ≡ unescape_loop fuel size (suc i) (suc j) true b
  unfolding unescape_loop is_special
  loop_shift c b h e f g k = ground arith

  loop_skip :
      (c : ℕ)
      → i < size
      → byte_at i buffer ≡ some c
      → is_special c ≡ false
      → escaped ≡ false
      → unescape_loop (suc fuel) size i j escaped buffer
        ≡ unescape_loop fuel size (suc i) (suc j) false buffer
  unfolding unescape_loop is_special
  loop_skip c h e f g = ground arith

-- The loop ends with `cs` behind `out`.
abbrev Ends : ℕ → ℕ → ℕ → ℕ → Bool → List ℕ → List ℕ → List ℕ → Type 0
Ends fuel size i j escaped buffer out cs =
    (r : List ℕ) × (unescape_loop fuel size i j escaped buffer ≡ some (r, j + length cs))
    × (take (j + length cs) r ≡ out ++ cs)

Ends-step :
    (fuel fuel' size i i' j c : ℕ) (escaped escaped' : Bool) (buffer buffer' out cs : List ℕ)
    → unescape_loop fuel size i j escaped buffer
      ≡ unescape_loop fuel' size i' (suc j) escaped' buffer'
    → Ends fuel' size i' (suc j) escaped' buffer' (out ++ c ∷ []) cs
    → Ends fuel size i j escaped buffer out (c ∷ cs)
Ends-step fuel fuel' size i i' j c escaped escaped' buffer buffer' out cs step (r, e, f) =
    let moved : suc j + length cs ≡ j + suc (length cs) = omega arith in
    (
      r,
      step ∙ e ∙ ap (λ n. some (r, n)) moved,
      ap (λ n. take n r) (sym moved) ∙ f ∙ append_assoc out (c ∷ []) cs,
    )

unescape_loop-Reads :
    (cs rest out : List ℕ) (fuel size i j : ℕ) (escaped : Bool) (buffer : List ℕ)
    → Reads cs rest out i j escaped buffer
    → size ≡ i + length (write_data cs true)
    → length (write_data cs true) < fuel
    → Ends fuel size i j escaped buffer out cs
unescape_loop-Reads cs rest out zero size i j escaped buffer h e f = absurd (omega arith)
unescape_loop-Reads [] rest out (suc fuel) size i j escaped buffer h e f =
    let at : j + 0 ≡ j = omega arith in
    (
      buffer,
      rw at (loop_stop fuel size i j escaped buffer (unfold write_data in omega arith)),
      rw at (h.done ∙ sym (append-nil out)),
    )
unescape_loop-Reads (c ∷ cs) rest out (suc fuel) size i j escaped buffer h e f =
    elim (Bool-cases (is_special c)) [
      | inl special ↦
          let enc : write_data (c ∷ cs) true ≡ escape_char ∷ c ∷ write_data cs true =
            unfold write_data in rw special refl in
          let ahead : drop i buffer ≡ escape_char ∷ c ∷ (write_data cs true ++ rest) =
            h.ahead ∙ ap (λ xs. xs ++ rest) enc in
          let next = drop_next i escape_char _ buffer ahead in
          let put = store_inside j i c escape_char _ buffer h.order ahead in
          Ends-step (suc fuel) fuel size i (suc (suc i)) j c escaped true buffer put.result out cs
            (loop_escape fuel size i j escaped buffer c put.result (omega (arith, ap length enc))
              (byte_at-drop i escape_char _ buffer ahead) (byte_at-drop (suc i) c _ buffer next)
              put.stored)
            (unescape_loop-Reads cs rest (out ++ c ∷ []) fuel size (suc (suc i)) (suc j) true
              put.result
              (record {
                ahead =
                    put.behind (suc (suc i)) (omega (arith, h.order))
                    ∙ drop_next (suc i) c _ buffer next;
                done = put.before ∙ ap (λ xs. xs ++ c ∷ []) h.done;
                order = omega (arith, h.order);
                same = λ b. absurd (ground (arith, b));
              })
              (omega (arith, ap length enc)) (omega (arith, ap length enc)))
      | inr plain ↦
          let enc : write_data (c ∷ cs) true ≡ c ∷ write_data cs true =
            unfold write_data in rw plain refl in
          let ahead : drop i buffer ≡ c ∷ (write_data cs true ++ rest) =
            h.ahead ∙ ap (λ xs. xs ++ rest) enc in
          let here = byte_at-drop i c _ buffer ahead in
          elim (Bool-cases escaped) [
            | inl e' ↦
                let put = store_inside j i c c _ buffer h.order ahead in
                Ends-step (suc fuel) fuel size i (suc i) j c escaped true buffer put.result out cs
                  (loop_shift fuel size i j escaped buffer c put.result
                    (omega (arith, ap length enc)) here plain e' put.stored)
                  (unescape_loop-Reads cs rest (out ++ c ∷ []) fuel size (suc i) (suc j) true
                    put.result
                    (record {
                      ahead =
                          put.behind (suc i) (omega (arith, h.order))
                          ∙ drop_next i c _ buffer ahead;
                      done = put.before ∙ ap (λ xs. xs ++ c ∷ []) h.done;
                      order = omega (arith, h.order);
                      same = λ b. absurd (ground (arith, b));
                    })
                    (omega (arith, ap length enc)) (omega (arith, ap length enc)))
            | inr e' ↦
                let here_too = h.same e' in
                Ends-step (suc fuel) fuel size i (suc i) j c escaped false buffer buffer out cs
                  (loop_skip fuel size i j escaped buffer c (omega (arith, ap length enc)) here
                    plain e')
                  (unescape_loop-Reads cs rest (out ++ c ∷ []) fuel size (suc i) (suc j) false
                    buffer
                    (record {
                      ahead = drop_next i c _ buffer ahead;
                      done =
                          take_next j c (write_data cs true ++ rest) buffer
                            (ap (λ k. drop k buffer) (sym here_too) ∙ ahead)
                          ∙ ap (λ xs. xs ++ c ∷ []) h.done;
                      order = omega (arith, h.order);
                      same = λ b. ap suc here_too;
                    })
                    (omega (arith, ap length enc)) (omega (arith, ap length enc)))
          ]
    ]

-- When a buffer begins with what `writeData` writes for some bytes that are to be escaped, the loop of `getProps` ends with
-- these bytes at the beginning of the buffer, and with their number, and it reads and writes inside
-- the buffer only.
pub unescape_loop-write_data :
    (cs rest : List ℕ)
    → let size = length (write_data cs true) in
      (r : List ℕ) × (unescape_loop (suc size) size 0 0 false (write_data cs true ++ rest)
        ≡ some (r, length cs))
      × (take (length cs) r ≡ cs)
unescape_loop-write_data cs rest =
    let start : 0 + length cs ≡ length cs = omega arith in
    let (r, e, f) =
      unescape_loop-Reads cs rest [] (suc (length (write_data cs true)))
        (length (write_data cs true)) 0 0 false (write_data cs true ++ rest)
        (record { ahead = refl; done = refl; order = omega arith; same = λ b. refl }) (omega arith)
        (omega arith) in
    (r, e ∙ ap (λ n. some (r, n)) start, ap (λ n. take n r) (sym start) ∙ f)
