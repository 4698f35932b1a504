-- ===== src/Gradebook.antt =====
-- The cell addresses of the gradebook: `normalizeCellAddress`, `parseCellAddress` and `columnName` of
-- apps/teacher/src/gradebookIntent.ts. `toUpperCase` is a parameter.
pub mod Addresses
pub mod Sheet
pub mod Edit
pub mod Resolve
pub mod Bulk
pub mod Points
pub mod Members
pub mod Allowed
pub mod CellMap
pub mod Headers
mod Tests
use the_cinder_project.Base.{
  ℕ, zero, suc, ◌+◌, ◌-◌, ◌*◌, ◌/◌, ◌%◌, ◌≤◌, Bool, true, false, not, ◌&&◌, ◌||◌, Option, none,
  some, List, [], ◌∷◌, ◌++◌, Text, codes, length, is_space, keep, all, All, leb, ltb, ◌==◌,
  if◌then◌else◌, ◌≡◌, refl, sym, ◌∙◌, ap, arith, Bool-cases, inl, inr,
}
use the_cinder_project.Base.Decimal.{is_digit, number_from}

abbrev pub is_capital : ℕ → Bool
is_capital c = leb b'A' c && leb c b'Z'

-- The longest start of a text that passes a test, and the rest.
abbrev pub push_front : ℕ → Text × Text → Text × Text
push_front c (s, rest) = (c ∷ s, rest)

unfoldable pub span : (ℕ → Bool) → Text → Text × Text
span p [] = ([], [])
span p (c ∷ s) = let more = span p s in if p c then push_front c more else ([], c ∷ s)

-- `[A-Z]{1,3}` and `[1-9]\d{0,3}`, of a whole text.
abbrev pub is_column : Text → Bool
is_column s = leb 1 (length s) && leb (length s) 3 && all is_capital s

abbrev pub is_row : Text → Bool
is_row [] = false
is_row (c ∷ s) = leb b'1' c && leb c b'9' && leb (length s) 3 && all is_digit s

-- The letters and the digits of an address in either order.
unfoldable pub matched : Text → Option (Text × Text)
unfolding span
matched compact =
    let standard = span is_capital compact in
    let reversed = span is_digit compact in
    if is_column standard.0 && is_row standard.1
    then some standard
    else if is_row reversed.0 && is_column reversed.1
    then some (reversed.1, reversed.0)
    else none

-- The column number of letters, from what stands before them; the first column is 1.
unfoldable pub column_from : ℕ → Text → ℕ
column_from column [] = column
column_from column (c ∷ s) = column_from (column * 26 + c - 64) s

pub record Cell : Type 0 where
  pub address : Text
  pub column : ℕ
  pub row : ℕ

unfoldable pub cell_of : Option (Text × Text) → Option Cell
unfolding column_from number_from
cell_of none = none
cell_of (some (letters, digits)) = some (record {
  address = letters ++ digits;
  column = column_from 0 letters - 1;
  row = number_from 0 digits - 1;
})

abbrev pub joined : Option (Text × Text) → Option Text
joined none = none
joined (some (letters, digits)) = some (letters ++ digits)

-- `normalizeCellAddress`
unfoldable pub normalize_cell_address : (Text → Text) → Text → Option Text
unfolding matched is_space
normalize_cell_address to_upper_case value =
    joined (matched (to_upper_case (keep (λ c. not (c == b'$' || is_space c)) value)))

-- `parseCellAddress`, with the address that `normalizeCellAddress` gives.
unfoldable pub parse_cell_address : (Text → Text) → Text → Option Cell
unfolding cell_of matched
parse_cell_address to_upper_case value =
    cell_of (matched (to_upper_case (keep (λ c. not (c == b'$' || is_space c)) value)))

-- The loop of `columnName`; `value` goes down with each pass, so fuel of its size is enough.
unfoldable pub column_loop : ℕ → ℕ → Text → Text
column_loop zero value label = label
column_loop (suc fuel) value label =
    let next = column_loop fuel ((value - 1) / 26) ((65 + (value - 1) % 26) ∷ label) in
    if ltb 0 value then next else label

unfoldable pub column_name : ℕ → Text
unfolding column_loop
column_name column = column_loop (column + 1) (column + 1) []

column_from-loop :
    (fuel value : ℕ) (label : Text)
    → value ≤ fuel
    → column_from 0 (column_loop fuel value label) ≡ column_from value label
unfolding column_loop column_from
column_from-loop zero value label h = ap (λ n. column_from n label) (omega arith)
column_from-loop (suc fuel) value label h =
    let r = (value - 1) % 26 in
    let ih =
      column_from-loop fuel ((value - 1) / 26) ((65 + (value - 1) % 26) ∷ label) (omega arith) in
    elim (Bool-cases (ltb 0 value)) [
      | inl e ↦
          let step : ((value - 1) / 26) * 26 + (65 + (value - 1) % 26) - 64 ≡ value =
            ground arith in
          simp e (ih ∙ ap (λ n. column_from n label) step)
      | inr e ↦
          let none_left : 0 ≡ value = ground arith in
          simp e (ap (λ n. column_from n label) none_left)
    ]

column_loop-capitals :
    (fuel value : ℕ) (label : Text)
    → All (λ c. is_capital c ≡ true) label
    → All (λ c. is_capital c ≡ true) (column_loop fuel value label)
unfolding column_loop
column_loop-capitals zero value label h = h
column_loop-capitals (suc fuel) value label h =
    let letter : is_capital (65 + (value - 1) % 26) ≡ true = ground arith in
    let ih =
      column_loop-capitals fuel ((value - 1) / 26) ((65 + (value - 1) % 26) ∷ label) (letter, h) in
    elim (Bool-cases (ltb 0 value)) [ inl e ↦ simp e ih | inr e ↦ simp e h ]

-- The name of a column holds capital letters only, and reading it back, the way addresses are read,
-- gives the number of the column, one more than its index.
pub column_from-column_name :
    (column : ℕ)
    → (column_from 0 (column_name column) ≡ column + 1)
      × All (λ c. is_capital c ≡ true) (column_name column)
unfolding column_name column_from
column_from-column_name column = (
  column_from-loop (column + 1) (column + 1) [] (omega arith),
  column_loop-capitals (column + 1) (column + 1) [] tt,
)
