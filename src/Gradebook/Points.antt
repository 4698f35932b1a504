-- ===== src/Gradebook/Points.antt =====
-- The points that a request may give lie between 0 and those of the assignment.
use the_cinder_project.Base.{
  ℕ, suc, ◌+◌, ◌-◌, ◌*◌, ◌/◌, ◌≤◌, ◌<◌, Bool, true, false, ◌≡◌, refl, sym, ◌∙◌, ap, arith,
}
use native.Mathlib.Nat.{
  mul_assoc, mul-le-mul_left, mul-le-mul_right, div-lt_iff_lt-mul, mul_left_comm, suc-mul, mul-pos,
}
use the_cinder_project.Base.Number.{
  Number, nan, infinite, finite, from_nat, is_finite, round, less, is_below_zero,
}
use the_cinder_project.Gradebook.Edit.{percentage}

-- A number of points that is not negative and has at most two decimal places
abbrev pub IsPoints : Number → Type 0
IsPoints nan = ⊥
IsPoints infinite = ⊥
IsPoints (finite true n d) = ⊥
IsPoints (finite false n d) = (m : ℕ) × (n * 100 ≡ m * suc d)

-- Points that an assignment allows
abbrev pub IsWithin : Number → Number → Type 0
IsWithin max_points points = (is_below_zero points ≡ false) × (less max_points points ≡ false)

-- A quotient rounded to the next whole number, at a whole bound
round-le : (x q m : ℕ) → 0 < q → x ≤ m * q → (2 * x + q) / (2 * q) ≤ m
round-le x q m pos h =
    let below : (2 * x + q) / (2 * q) < suc m =
      (div-lt_iff_lt-mul {k = 2 * q} {x = 2 * x + q} {y = suc m} (omega arith)).1
        (omega (arith, suc-mul m (2 * q), mul_left_comm m 2 q, h)) in
    omega (arith, below)

at_most_100 :
    (b : Bool) (a e : ℕ)
    → is_below_zero (finite b a e) ≡ false
    → less (from_nat 100) (finite b a e) ≡ false
    → a ≤ 100 * suc e
at_most_100 true a e h k = ground arith
at_most_100 false a e h k = ground arith

percentage-le :
    (n d a e m : ℕ)
    → n * 100 ≡ m * suc d
    → a ≤ 100 * suc e
    → (2 * (n * a) + suc (suc d * suc e - 1)) / (2 * suc (suc d * suc e - 1)) * suc d ≤ n * 100
percentage-le n d a e m whole h =
    let q = suc (suc d * suc e - 1) in
    let pos : 0 < suc d * suc e = mul-pos {m = suc d} {n = suc e} (omega arith) (omega arith) in
    let same : suc d * suc e ≡ q = omega (arith, pos) in
    let cover : n * (100 * suc e) ≡ m * q =
      sym (mul_assoc n 100 (suc e))
      ∙ ap (λ k. k * suc e) whole
      ∙ mul_assoc m (suc d) (suc e)
      ∙ ap (λ k. m * k) same in
    let product : n * a ≤ m * q =
      omega (arith, mul-le-mul_left {m = a} {n = 100 * suc e} n h, cover) in
    let rounded = round-le (n * a) q m (omega arith) product in
    omega (arith, mul-le-mul_right {m = (2 * (n * a) + q) / (2 * q)} {n = m} (suc d) rounded, whole)

pub percentage-IsWithin :
    (max_points amount : Number)
    → IsPoints max_points
    → is_below_zero amount ≡ false
    → is_finite amount ≡ true
    → less (from_nat 100) amount ≡ false
    → IsWithin max_points (percentage max_points amount)
unfolding percentage round
percentage-IsWithin (finite false n d) (finite b a e) (m, whole) below fin most =
    let h = percentage-le n d a e m whole (at_most_100 b a e below most) in
    (refl, ground (arith, h))
percentage-IsWithin nan amount h _ _ _ = elim h [ ]
percentage-IsWithin infinite amount h _ _ _ = elim h [ ]
percentage-IsWithin (finite true n d) amount h _ _ _ = elim h [ ]
percentage-IsWithin (finite false n d) nan h k f _ = absurd cc
percentage-IsWithin (finite false n d) infinite h k f _ = absurd cc

pub full-IsWithin : (max_points : Number) → IsPoints max_points → IsWithin max_points max_points
full-IsWithin (finite false n d) h = (refl, ground arith)
full-IsWithin nan h = elim h [ ]
full-IsWithin infinite h = elim h [ ]
full-IsWithin (finite true n d) h = elim h [ ]
