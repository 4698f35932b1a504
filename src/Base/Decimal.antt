-- ===== src/Base/Decimal.antt =====
-- Numbers in a template string, and `Number` of digits.
use Prim.Native.Nat.{ℕ, zero, suc, ◌+◌, ◌-◌, ◌*◌, ◌/◌, ◌%◌, ◌≤◌, ◌<◌}
use mathlib.Core.Path.{◌≡◌, refl, ap, ◌∙◌}
use mathlib.Core.Bool.{Bool, true, false, ◌&&◌}
use mathlib.Core.List.{[], ◌∷◌}
use mathlib.Core.Logic.{inl, inr}
use native.Mathlib.Omega.{arith}
use the_cinder_project.Base.Tests.{ltb, leb, if◌then◌else◌, Bool-cases}
use the_cinder_project.Base.Lists.{All, length}
use the_cinder_project.Base.Strings.{Text, truthy}

abbrev pub is_digit : ℕ → Bool
is_digit c = leb b'0' c && leb c b'9'

-- The digits of a number in front of a text. Fuel of its size is enough.
unfoldable digits_onto : ℕ → ℕ → Text → Text
digits_onto zero n s = s
digits_onto (suc fuel) n s =
    let more = digits_onto fuel (n / 10) ((b'0' + n % 10) ∷ s) in
    if ltb n 10 then (b'0' + n) ∷ s else more

unfoldable pub decimal : ℕ → Text
unfolding digits_onto
decimal n = digits_onto (n + 1) n []

-- The number of digits, after those that give `n`.
unfoldable pub number_from : ℕ → Text → ℕ
number_from n [] = n
number_from n (c ∷ s) = number_from (n * 10 + (c - b'0')) s

number_from-onto :
    (fuel n : ℕ) (s : Text) → n + 1 ≤ fuel → number_from 0 (digits_onto fuel n s) ≡ number_from n s
unfolding digits_onto number_from
number_from-onto zero n s h = absurd (omega arith)
number_from-onto (suc fuel) n s h = elim (Bool-cases (ltb n 10)) [
  | inl e ↦
      let same : 0 * 10 + ((b'0' + n) - b'0') ≡ n = omega arith in
      simp e (ap (λ k. number_from k s) same)
  | inr e ↦
      let big : 10 ≤ n = ground arith in
      let same : n / 10 * 10 + ((b'0' + n % 10) - b'0') ≡ n = omega arith in
      simp e (
        number_from-onto fuel (n / 10) ((b'0' + n % 10) ∷ s) (omega arith)
        ∙ ap (λ k. number_from k s) same)
]

pub number_from-decimal : (n : ℕ) → number_from 0 (decimal n) ≡ n
unfolding decimal number_from
number_from-decimal n = number_from-onto (n + 1) n [] (omega arith)

digits_onto-All :
    (fuel n : ℕ) (s : Text)
    → All (λ c. is_digit c ≡ true) s
    → All (λ c. is_digit c ≡ true) (digits_onto fuel n s)
unfolding digits_onto
digits_onto-All zero n s h = h
digits_onto-All (suc fuel) n s h =
    let ih = digits_onto-All fuel (n / 10) ((b'0' + n % 10) ∷ s) in
    elim (Bool-cases (ltb n 10)) [
      | inl e ↦ simp e (ground arith, h)
      | inr e ↦ simp e (ih (ground arith, h))
    ]

pub decimal-All : (n : ℕ) → All (λ c. is_digit c ≡ true) (decimal n)
unfolding decimal
decimal-All n = digits_onto-All (n + 1) n [] tt

digits_onto-truthy :
    (fuel n : ℕ) (s : Text) → truthy s ≡ true → truthy (digits_onto fuel n s) ≡ true
unfolding digits_onto
digits_onto-truthy zero n s h = h
digits_onto-truthy (suc fuel) n s h =
    let ih = digits_onto-truthy fuel (n / 10) ((b'0' + n % 10) ∷ s) refl in
    elim (Bool-cases (ltb n 10)) [ inl e ↦ simp e refl | inr e ↦ simp (e, ih) refl ]

digits_onto-suc : (fuel n : ℕ) → truthy (digits_onto (suc fuel) n []) ≡ true
unfolding digits_onto
digits_onto-suc fuel n =
    let ih = digits_onto-truthy fuel (n / 10) ((b'0' + n % 10) ∷ []) refl in
    elim (Bool-cases (ltb n 10)) [ inl e ↦ simp e refl | inr e ↦ simp (e, ih) refl ]

pub decimal-truthy : (n : ℕ) → truthy (decimal n) ≡ true
unfolding decimal
decimal-truthy n =
    let more : n + 1 ≡ suc n = omega arith in
    ap (λ k. truthy (digits_onto k n [])) more ∙ digits_onto-suc n n

-- The bound on a number of at most k digits.
abbrev power_of_ten : ℕ → ℕ
power_of_ten zero = 1
power_of_ten (suc k) = power_of_ten k * 10

digits_onto-length :
    (fuel k n : ℕ) (s : Text)
    → n < power_of_ten (suc k)
    → length (digits_onto fuel n s) ≤ length s + suc k
unfolding digits_onto
digits_onto-length zero k n s h = omega arith
digits_onto-length (suc fuel) zero n s h =
    let small : ltb n 10 ≡ true = ground arith in simp small (omega arith)
digits_onto-length (suc fuel) (suc k) n s h =
    let ih = digits_onto-length fuel k (n / 10) ((b'0' + n % 10) ∷ s) (omega (arith, h)) in
    elim (Bool-cases (ltb n 10)) [
      | inl e ↦ simp e (omega arith)
      | inr e ↦ simp e (omega (arith, ih))
    ]

pub decimal-length : (n : ℕ) → n < 10000 → length (decimal n) ≤ 4
unfolding decimal
decimal-length n h = digits_onto-length (n + 1) 3 n [] h

-- The first digit of a number that is not 0 is not 0.
abbrev pub starts_number : Text → Bool
starts_number [] = false
starts_number (c ∷ _) = leb b'1' c && leb c b'9'

digits_onto-starts :
    (fuel n : ℕ) (s : Text) → 1 ≤ n → n ≤ fuel → starts_number (digits_onto fuel n s) ≡ true
unfolding digits_onto
digits_onto-starts zero n s h k = absurd (omega arith)
digits_onto-starts (suc fuel) n s h k = elim (Bool-cases (ltb n 10)) [
  | inl e ↦ simp e (ground arith)
  | inr e ↦
      let big : 10 ≤ n = ground arith in
      let ih = digits_onto-starts fuel (n / 10) ((b'0' + n % 10) ∷ s) (omega arith) (omega arith) in
      simp e ih
]

pub decimal-starts : (n : ℕ) → 1 ≤ n → starts_number (decimal n) ≡ true
unfolding decimal
decimal-starts n h = digits_onto-starts (n + 1) n [] h (omega arith)
