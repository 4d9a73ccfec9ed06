-- ===== src/Position.antt =====
-- src/position.h: `Position` and `PositionEx`, their comparisons, sums and ranges.
pub mod Order
mod Tests
use model_lib.Prelude.{
  ℕ, ◌+◌, ◌-◌, ◌%◌, Bool, true, false, ◌&&◌, ◌||◌, not, ltb, ◌==◌, if◌then◌else◌,
}
use model_lib.Prelude.Words.{u16_mod}

-- The coordinates are `uint16_t`.
pub record Position : Type 0 where
  pub x : ℕ
  pub y : ℕ
  pub z : ℕ

-- `operator<`
unfoldable pub lt : Position → Position → Bool
lt a b =
    if ltb a.z b.z
    then true
    else if ltb b.z a.z
    then false
    else if ltb a.y b.y
    then true
    else if ltb b.y a.y
    then false
    else if ltb a.x b.x
    then true
    else if ltb b.x a.x
    then false
    else false

-- `operator>`
unfoldable pub gt : Position → Position → Bool
unfolding lt
gt a b = not (lt a b)

-- `operator==` and `operator!=`
unfoldable pub eq : Position → Position → Bool
eq a b = b.x == a.x && b.y == a.y && b.z == a.z

unfoldable pub ne : Position → Position → Bool
unfolding eq
ne a b = not (eq a b)

-- `operator+` and `operator-`: `int` results, converted to `uint16_t`.
unfoldable pub add : Position → Position → Position
add a b = record { x = (a.x + b.x) % u16_mod; y = (a.y + b.y) % u16_mod; z = (a.z + b.z) % u16_mod }

unfoldable pub sub : Position → Position → Position
sub a b = record {
  x = (a.x + u16_mod - b.x) % u16_mod;
  y = (a.y + u16_mod - b.y) % u16_mod;
  z = (a.z + u16_mod - b.z) % u16_mod;
}

-- `std::abs(p1.x - p2.x)`: a `float` holds every difference of two `uint16_t` values exactly.
abbrev pub distance : ℕ → ℕ → ℕ
distance a b = (a - b) + (b - a)

unfoldable pub are_in_range : Position → Position → Position → Bool
are_in_range r p1 p2 =
    not
      (ltb r.x (distance p1.x p2.x) || ltb r.y (distance p1.y p2.y) || ltb r.z (distance p1.z p2.z))

-- `PositionEx` adds the `int16_t` stack position, here the pattern of its 16 bits.
pub record PositionEx : Type 0 where
  pub place : Position
  pub open place use *
  pub stackpos : ℕ

-- Its `operator==` and `operator!=`
unfoldable pub ex_eq : PositionEx → PositionEx → Bool
ex_eq a b = b.x == a.x && b.y == a.y && b.z == a.z && b.stackpos == a.stackpos

unfoldable pub ex_ne : PositionEx → PositionEx → Bool
ex_ne a b = not (b.x == a.x && b.y == a.y && b.z == a.z && not (b.stackpos == a.stackpos))
