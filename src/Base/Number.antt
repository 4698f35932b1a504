-- ===== src/Base/Number.antt =====
-- Numbers of the source that need not be natural: what `Number` and `JSON.parse` may give.
use Prim.Native.Nat.{ℕ, suc, ◌+◌, ◌-◌, ◌*◌, ◌/◌}
use mathlib.Core.Bool.{Bool, true, false, not, ◌&&◌, ◌||◌}
use the_cinder_project.Base.Tests.{◌==◌, ltb}

-- `finite negative n d` is n / (d + 1), negated where `negative` holds.
pub data Number : Type 0 where
  nan : Number
  infinite : Number
  finite : Bool → ℕ → ℕ → Number

abbrev pub from_nat : ℕ → Number
from_nat n = finite false n 0

abbrev pub is_finite : Number → Bool
is_finite nan = false
is_finite infinite = false
is_finite (finite _ _ _) = true

-- `x === k`
abbrev pub equals : Number → ℕ → Bool
equals nan k = false
equals infinite k = false
equals (finite negative n d) k = (not negative || n == 0) && n == k * suc d

-- `Math.ceil(Math.max(0, x))` of a finite number.
unfoldable pub ceiling : Number → ℕ
ceiling nan = 0
ceiling infinite = 0
ceiling (finite true n d) = 0
ceiling (finite false n d) = (n + d) / suc d

-- `Math.max(0, Math.round(x))` of a finite number: the halves go up.
unfoldable pub round : Number → ℕ
round nan = 0
round infinite = 0
round (finite true n d) = 0
round (finite false n d) = (2 * n + suc d) / (2 * suc d)

-- `x < y`. There is no negative infinity where it is used.
abbrev pub less : Number → Number → Bool
less nan y = false
less (finite _ _ _) nan = false
less infinite y = false
less (finite _ _ _) infinite = true
less (finite false n d) (finite false m e) = ltb (n * suc e) (m * suc d)
less (finite false _ _) (finite true _ _) = false
less (finite true n d) (finite false m e) = not (n == 0 && m == 0)
less (finite true n d) (finite true m e) = ltb (m * suc d) (n * suc e)

-- `x < 0`
abbrev pub is_below_zero : Number → Bool
is_below_zero nan = false
is_below_zero infinite = false
is_below_zero (finite negative n d) = negative && not (n == 0)

-- `x * y` of numbers that are not negative
abbrev pub multiply : Number → Number → Number
multiply nan y = nan
multiply infinite y = infinite
multiply (finite _ _ _) nan = nan
multiply (finite _ _ _) infinite = infinite
multiply (finite a n d) (finite b m e) = finite (a && b) (n * m) (suc d * suc e - 1)
