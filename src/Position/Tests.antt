-- ===== src/Position/Tests.antt =====
-- Tests of the positions, and the theorems at concrete inputs.
use model_lib.Prelude.{◌≡◌, true, false, refl}
use model_lib.Position.{Position, PositionEx, lt}
use model_lib.Position.Order.{lt_strict_order}

abbrev temple : Position
temple = record { x = 100; y = 200; z = 7 }

abbrev depot : Position
depot = record { x = 104; y = 198; z = 7 }

abbrev cellar : Position
cellar = record { x = 104; y = 198; z = 8 }

abbrev on_floor : PositionEx
on_floor = record { place = temple; stackpos = 0 }

abbrev on_top : PositionEx
on_top = record { place = temple; stackpos = 3 }

lt_runs : lt depot temple ≡ true
unfolding lt
lt_runs = refl

lt_strict_order_example :
    (lt depot depot ≡ false)
    × (lt depot temple ≡ true → lt temple cellar ≡ true → lt depot cellar ≡ true)
    × (lt depot temple ≡ false → lt temple depot ≡ false → depot ≡ temple)
    × (lt depot temple ≡ true → lt temple depot ≡ false)
lt_strict_order_example = lt_strict_order depot temple cellar
