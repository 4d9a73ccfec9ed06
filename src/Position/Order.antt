-- ===== src/Position/Order.antt =====
-- The comparisons of positions (src/position.h).
use model_lib.Prelude.{◌+◌, ◌≤◌, ◌<◌, ◌≡◌, ◌≢◌, ◌↔◌, ◌⊎◌, true, false, arith}
use model_lib.Prelude.Words.{u16_mod}
use model_lib.Position.{Position, PositionEx, lt, gt, eq, ne, add, sub, are_in_range, ex_eq, ex_ne}

-- The coordinates are in the range of `uint16_t`.
pub record IsPosition (p : Position) : Type 0 where
  pub x_lt : p.x < u16_mod
  pub y_lt : p.y < u16_mod
  pub z_lt : p.z < u16_mod

-- `operator<` is a strict total order: no position is below itself, it is transitive, two positions
-- neither of which is below the other are equal, and of two of which one is below the other only
-- that one is.
pub lt_strict_order :
    (a b c : Position)
    → (lt a a ≡ false)
      × (lt a b ≡ true → lt b c ≡ true → lt a c ≡ true)
      × (lt a b ≡ false → lt b a ≡ false → a ≡ b)
      × (lt a b ≡ true → lt b a ≡ false)
unfolding lt
lt_strict_order a b c =
    (ground arith, (λ h k. ground arith), (λ h k. ground arith), (λ h. ground arith))

-- `operator>` is not the converse of `operator<`: it holds exactly where the second position is
-- below the first or equal to it, so every position is above itself.
gt-iff-lt_or_eq :
    (a b : Position) → ((gt a b ≡ true) ↔ ((lt b a ≡ true) ⊎ (a ≡ b))) × (gt a a ≡ true)
unfolding gt lt
gt-iff-lt_or_eq a b = (((λ h. ground arith), (λ h. ground arith)), ground arith)

-- `operator==` decides equality of positions, and `operator!=` the opposite.
eq_iff : (a b : Position) → ((eq a b ≡ true) ↔ (a ≡ b)) × ((ne a b ≡ true) ↔ (a ≢ b))
unfolding ne eq
eq_iff a b =
    (((λ h. ground arith), (λ h. ground arith)), ((λ h e. ground arith), (λ h. ground arith)))

-- Subtracting a position and adding it again gives the same coordinates, also where they wrap, and so
-- does adding and then subtracting.
add-sub :
    (a b : Position) → IsPosition a → IsPosition b → (add (sub a b) b ≡ a) × (sub (add a b) b ≡ a)
unfolding add sub
add-sub a b h k = (ground arith, ground arith)

-- `areInRange` holds exactly when no coordinate differs by more than the range's, and does not
-- depend on the order of the two positions.
are_in_range_iff :
    (r a b : Position)
    → ((are_in_range r a b ≡ true) ↔ (
        (a.x ≤ b.x + r.x)
        × (b.x ≤ a.x + r.x)
        × (a.y ≤ b.y + r.y)
        × (b.y ≤ a.y + r.y)
        × (a.z ≤ b.z + r.z)
        × (b.z ≤ a.z + r.z)))
      × (are_in_range r a b ≡ are_in_range r b a)
unfolding are_in_range
are_in_range_iff r a b = (((λ h. ground arith), (λ h. ground arith)), ground arith)

-- `operator!=` of `PositionEx` is not the negation of its `operator==`: it fails exactly where the
-- places are equal and the stack positions differ, and so holds of every value and itself.
ex_ne_iff :
    (a b : PositionEx)
    → ((ex_ne a b ≡ false) ↔ ((a.place ≡ b.place) × (a.stackpos ≢ b.stackpos)))
      × (ex_eq a a ≡ true)
      × (ex_ne a a ≡ true)
unfolding ex_ne ex_eq
ex_ne_iff a b =
    (((λ h. (ground arith, λ e. ground arith)), (λ h. ground arith)), ground arith, ground arith)
