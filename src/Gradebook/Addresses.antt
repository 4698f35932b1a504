-- ===== src/Gradebook/Addresses.antt =====
-- The addresses of the cells, written and read back.
use the_cinder_project.Base.{
  ℕ, zero, suc, ◌+◌, ◌-◌, ◌*◌, ◌/◌, ◌%◌, ◌≤◌, ◌<◌, Bool, true, false, not, ◌||◌, some, [], ◌∷◌,
  ◌++◌, Text, length, is_space, keep, all, All, All-append, All-map, ltb, ◌==◌, ◌≡◌, refl, sym, ◌∙◌,
  ap, ap₂, subst, arith, Bool-cases, inl, inr,
}
use the_cinder_project.Base.Decimal.{
  is_digit, number_from, decimal, decimal-All, number_from-decimal, decimal-length, decimal-starts,
  starts_number,
}
use the_cinder_project.Gradebook.{
  Cell, is_capital, push_front, span, is_column, is_row, matched, column_from, cell_of,
  parse_cell_address, column_loop, column_name, column_from-column_name,
}

abbrev pub IsMark : ℕ → Type 0
IsMark c = (is_capital c || is_digit c) ≡ true

keep-marks : (s : Text) → All IsMark s → keep (λ c. not (c == b'$' || is_space c)) s ≡ s
unfolding is_space
keep-marks [] h = refl
keep-marks (c ∷ s) h =
    let kept : not (c == b'$' || is_space c) ≡ true = ground arith in
    simp kept (ap (λ t. c ∷ t) (keep-marks s h.1))

-- The letters end where the digits begin.
span-append :
    (s t : Text)
    → All (λ c. is_capital c ≡ true) s
    → starts_number t ≡ true
    → span is_capital (s ++ t) ≡ (s, t)
unfolding span
span-append [] [] h k = absurd cc
span-append [] (c ∷ t) h k = let other : is_capital c ≡ false = ground arith in simp other refl
span-append (c ∷ s) t h k = simp (h.0) (ap (push_front c) (span-append s t h.1 k))

-- The values of at most k letters.
abbrev most : ℕ → ℕ
most zero = 0
most (suc k) = most k * 26 + 26

column_loop-length :
    (fuel k value : ℕ) (label : Text)
    → value ≤ most k
    → length (column_loop fuel value label) ≤ length label + k
unfolding column_loop
column_loop-length zero k value label h = omega arith
column_loop-length (suc fuel) zero value label h =
    let done : ltb 0 value ≡ false = ground arith in simp done (omega arith)
column_loop-length (suc fuel) (suc k) value label h =
    let ih =
      column_loop-length fuel k ((value - 1) / 26) ((65 + (value - 1) % 26) ∷ label)
        (omega (arith, h)) in
    elim (Bool-cases (ltb 0 value)) [
      | inl e ↦ simp e (omega (arith, ih))
      | inr e ↦ simp e (omega arith)
    ]

all-All : (p : ℕ → Bool) (s : Text) → All (λ c. p c ≡ true) s → all p s ≡ true
all-All p [] h = refl
all-All p (c ∷ s) h = simp (h.0, all-All p s h.1) refl

column_loop-longer :
    (fuel value : ℕ) (label : Text) → length label ≤ length (column_loop fuel value label)
unfolding column_loop
column_loop-longer zero value label = omega arith
column_loop-longer (suc fuel) value label =
    let ih = column_loop-longer fuel ((value - 1) / 26) ((65 + (value - 1) % 26) ∷ label) in
    elim (Bool-cases (ltb 0 value)) [
      | inl e ↦ simp e (omega (arith, ih))
      | inr e ↦ simp e (omega arith)
    ]

column_loop-some : (fuel value : ℕ) → 1 ≤ length (column_loop (suc fuel) (suc value) [])
unfolding column_loop
column_loop-some fuel value =
    let positive : ltb 0 (suc value) ≡ true = ground arith in
    simp positive
      (column_loop-longer fuel ((suc value - 1) / 26) ((65 + (suc value - 1) % 26) ∷ []))

column_name-is_column : (column : ℕ) → column < 18278 → is_column (column_name column) ≡ true
unfolding column_name
column_name-is_column column h =
    let few : length (column_loop (column + 1) (column + 1) []) ≤ 3 =
      column_loop-length (column + 1) 3 (column + 1) [] (omega (arith, h)) in
    let more : column + 1 ≡ suc column = omega arith in
    let some_letter : 1 ≤ length (column_loop (column + 1) (column + 1) []) =
      subst (λ n. 1 ≤ length (column_loop n n [])) (sym more) (column_loop-some column column) in
    let capitals =
      all-All is_capital (column_loop (column + 1) (column + 1) [])
        (column_from-column_name column).1 in
    ground (arith, few, some_letter, capitals)

row-digits :
    (s : Text)
    → starts_number s ≡ true
    → length s ≤ 4
    → All (λ c. is_digit c ≡ true) s
    → is_row s ≡ true
row-digits [] h k d = absurd cc
row-digits (c ∷ s) h k d = let rest = all-All is_digit s d.1 in ground (arith, rest)

matched-append :
    (s t : Text)
    → All (λ c. is_capital c ≡ true) s
    → starts_number t ≡ true
    → is_column s ≡ true
    → is_row t ≡ true
    → matched (s ++ t) ≡ some (s, t)
unfolding matched
matched-append s t h k column row = simp (span-append s t h k, column, row) refl

-- The address of a cell, as the gradebook writes it.
abbrev pub address_of : ℕ → ℕ → Text
address_of column row = column_name column ++ decimal (row + 1)

address_of-marks : (column row : ℕ) → All IsMark (address_of column row)
address_of-marks column row =
    All-append IsMark (column_name column) (decimal (row + 1))
      (All-map {P = λ c. is_capital c ≡ true} {Q = IsMark} (column_name column)
        (λ c h. ground arith) (column_from-column_name column).1)
      (All-map {P = λ c. is_digit c ≡ true} {Q = IsMark} (decimal (row + 1)) (λ c h. ground arith)
        (decimal-All (row + 1)))

abbrev cell : Text → ℕ → ℕ → Cell
cell address column row = record { address = address; column = column; row = row }

-- The name of a column, with the number of a row behind it, is read back as the address of just that
-- cell, in each of the 18,278 columns that have at most three letters and of the first 9,999 rows,
-- if `toUpperCase` changes neither capital letters nor digits.
pub parse_cell_address-address_of :
    (to_upper_case : Text → Text)
    → ((s : Text) → All IsMark s → to_upper_case s ≡ s)
    → (column row : ℕ) → column < 18278
    → row < 9999
    → parse_cell_address to_upper_case (address_of column row)
      ≡ some (record { address = address_of column row; column = column; row = row })
unfolding parse_cell_address cell_of
parse_cell_address-address_of to_upper_case keeps column row hc hr =
    let marks = address_of-marks column row in
    let letters = (column_from-column_name column).1 in
    let starts = decimal-starts (row + 1) (omega arith) in
    let digits =
      row-digits (decimal (row + 1)) starts (decimal-length (row + 1) (omega (arith, hr)))
        (decimal-All (row + 1)) in
    let found =
      matched-append (column_name column) (decimal (row + 1)) letters starts
        (column_name-is_column column hc) digits in
    let column_same : column_from 0 (column_name column) - 1 ≡ column =
      ap (λ n. n - 1) (column_from-column_name column).0 ∙ omega arith in
    let row_same : number_from 0 (decimal (row + 1)) - 1 ≡ row =
      ap (λ n. n - 1) (number_from-decimal (row + 1)) ∙ omega arith in
    ap (λ s. cell_of (matched (to_upper_case s))) (keep-marks (address_of column row) marks)
    ∙ ap (λ s. cell_of (matched s)) (keeps (address_of column row) marks)
    ∙ ap cell_of found
    ∙ ap₂ (λ c r. some (cell (address_of column row) c r)) column_same row_same
