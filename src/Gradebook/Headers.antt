-- ===== src/Gradebook/Headers.antt =====
-- The header cells of the map, read back.
use the_cinder_project.Base.{
  ℕ, suc, ◌+◌, ◌-◌, ◌≤◌, ◌<◌, Bool, true, false, Option, none, some, List, [], ◌∷◌, Text, text_eq,
  text_eq_iff, truthy, trim, find_index, get_elem?, leb, All, ◌≡◌, refl, ◌∙◌, ap, subst, arith,
  Bool-cases, inl, inr,
}
use the_cinder_project.Base.Decimal.{decimal}
use the_cinder_project.Base.Json.{Json}
use the_cinder_project.Base.Regex.{exec}
use the_cinder_project.Model.{User}
use the_cinder_project.Gradebook.{Cell}
use the_cinder_project.Gradebook.Addresses.{IsMark, address_of, parse_cell_address-address_of}
use the_cinder_project.Gradebook.Sheet.{
  Assignment, Sheet, Unicode, first_row, gradebook_values, assignment_for_header,
  parse_assignment_header, header_of, header_pattern, cell_text, has_id,
  find_gradebook_assignment_column, assignment_at, located, assignment_header,
  resolve_gradebook_cell_target,
}
use the_cinder_project.Gradebook.Members.{Holds}
use the_cinder_project.Gradebook.CellMap.{column_of}

module _ {A : Type 0} where
  -- What a search finds is there and passes the test.
  abbrev IsAt : (A → Bool) → List A → ℕ → Type 0
  IsAt p xs i = (x : A) × (get_elem? xs i ≡ some x) × (p x ≡ true)

  later-IsAt :
      (p : A → Bool) (x : A) (xs : List A) (o : Option ℕ)
      → Holds (IsAt p xs) o
      → Holds (IsAt p (x ∷ xs)) (elim o [ none ↦ none | some i ↦ some (suc i) ])
  later-IsAt p x xs none h = tt
  later-IsAt p x xs (some i) h = h

  find_index-IsAt : (p : A → Bool) (xs : List A) → Holds (IsAt p xs) (find_index p xs)
  find_index-IsAt p [] = tt
  find_index-IsAt p (x ∷ xs) = elim (Bool-cases (p x)) [
    | inl e ↦ simp e (x, refl, e)
    | inr e ↦ simp e (later-IsAt p x xs (find_index p xs) (find_index-IsAt p xs))
  ]

module _ (u : Unicode) (assignments : List Assignment) (sheets : List Sheet) where
  abbrev is_listed : Assignment → Assignment → Bool
  is_listed a b = text_eq b.id a.id

  -- A header that stands for an assignment
  abbrev stands_for : Assignment → Json → Bool
  stands_for a h = has_id u (assignment_for_header u (some h) assignments) a.id

  abbrev headers : List Json
  headers = first_row (gradebook_values sheets)

  -- An assignment of the same id
  abbrev IsSame : Assignment → Option Assignment → Type 0
  IsSame a o = (b : Assignment) × (o ≡ some b) × (b.id ≡ a.id)

  has_id-IsSame : (a : Assignment) (o : Option Assignment) → has_id u o a.id ≡ true → IsSame a o
  unfolding has_id
  has_id-IsSame a none h = absurd cc
  has_id-IsSame a (some b) h = (b, refl, (text_eq_iff b.id a.id).0 h)

  untitled : (t : Text) → truthy t ≡ false → truthy (header_of t (exec header_pattern t)).0 ≡ false
  unfolding header_of exec
  untitled [] h = refl
  untitled (c ∷ t) h = absurd cc

  blank-none :
      (value : Option Json)
      → truthy (trim (cell_text u value)) ≡ false
      → assignment_for_header u value assignments ≡ none
  unfolding assignment_for_header parse_assignment_header
  blank-none value h =
      let e : truthy (parse_assignment_header u value).0 ≡ false =
        untitled (trim (cell_text u value)) h in
      simp e refl

  -- The assignment in a column of the map
  assignment_at-listed :
      (a : Assignment) (cell : Cell)
      → (i : ℕ) → IsAt (is_listed a) assignments i
      → cell.column ≡ i + 2
      → truthy (trim (cell_text u (get_elem? headers (i + 2)))) ≡ false
      → IsSame a (assignment_at u cell assignments (gradebook_values sheets))
  unfolding assignment_at
  assignment_at-listed a cell i (b, there, same) at blank =
      let none_here = blank-none (get_elem? headers (i + 2)) blank in
      let far : leb 2 (i + 2) ≡ true = ground arith in
      let back : i + 2 - 2 ≡ i = omega arith in
      simp (at, none_here, blank, far, back, there) (b, refl, (text_eq_iff b.id a.id).0 same)

  assignment_at-found :
      (a : Assignment) (cell : Cell) (c : ℕ)
      → IsAt (stands_for a) headers c
      → cell.column ≡ c
      → IsSame a (assignment_at u cell assignments (gradebook_values sheets))
  unfolding assignment_at
  assignment_at-found a cell c (h, there, same) at =
      let found = has_id-IsSame a (assignment_for_header u (some h) assignments) same in
      simp (at, there, found.1) (found.0, refl, found.2)

  -- The column that the map gives
  abbrev column : Assignment → ℕ
  column a = find_gradebook_assignment_column u a assignments sheets

  abbrev head_cell : Assignment → Cell
  head_cell a = record { address = address_of (column a) 0; column = column a; row = 0 }

  found_IsAt :
      (p : Json → Bool) (xs : List Json) (o : Option ℕ) → find_index p xs ≡ o → Holds (IsAt p xs) o
  found_IsAt p xs o e = subst (Holds (IsAt p xs)) e (find_index-IsAt p xs)

  abbrev column_from_search : Option ℕ → Option ℕ → ℕ
  column_from_search listed o = elim o [
    | some c ↦ c
    | none ↦ elim listed [ none ↦ 1 | some i ↦ i + 2 ]
  ]

  column-found :
      (a : Assignment) (c : ℕ) → find_index (stands_for a) headers ≡ some c → column a ≡ c
  unfolding find_gradebook_assignment_column
  column-found a c e = ap (column_from_search (find_index (is_listed a) assignments)) e

  column-listed :
      (a : Assignment) (i : ℕ)
      → find_index (stands_for a) headers ≡ none
      → find_index (is_listed a) assignments ≡ some i
      → column a ≡ i + 2
  unfolding find_gradebook_assignment_column
  column-listed a i e k =
      ap (column_from_search (find_index (is_listed a) assignments)) e
      ∙ ap (λ o. column_from_search o none) k

  assignment_at-IsSame :
      (a : Assignment) (i : ℕ) (o : Option ℕ)
      → find_index (stands_for a) headers ≡ o
      → find_index (is_listed a) assignments ≡ some i
      → (find_index (stands_for a) headers ≡ none
          → truthy (trim (cell_text u (get_elem? headers (i + 2)))) ≡ false)
      → IsSame a (assignment_at u (head_cell a) assignments (gradebook_values sheets))
  assignment_at-IsSame a i none e k blank =
      assignment_at-listed a (head_cell a) i
        (subst (Holds (IsAt (is_listed a) assignments)) k
          (find_index-IsAt (is_listed a) assignments))
        (column-listed a i e k) (blank e)
  assignment_at-IsSame a i (some c) e k blank =
      assignment_at-found a (head_cell a) c (found_IsAt (stands_for a) headers (some c) e)
        (column-found a c e)

  located-header :
      (a b : Assignment) (roster : List User)
      → 2 ≤ column a
      → assignment_at u (head_cell a) assignments (gradebook_values sheets) ≡ some b
      → located u (some (head_cell a)) roster assignments sheets
        ≡ some (assignment_header (address_of (column a) 0) b)
  unfolding located
  located-header a b roster far e =
      let right : leb (column a) 1 ≡ false = ground arith in simp (right, e) refl

  -- The header cell that the map gives for an assignment is that of an assignment of the same id, when
  -- it is resolved, where the assignment is listed and its column is neither of the first two, which
  -- name the students, nor beyond three letters; where, if no header of the sheet stands for it, the
  -- header in the column of its place in the list is blank; and where `toUpperCase` changes neither
  -- capital letters nor digits.
  pub resolve-column_of :
      (roster : List User) (a : Assignment) (i : ℕ)
      → ((s : Text) → All IsMark s → u.to_upper_case s ≡ s)
      → find_index (is_listed a) assignments ≡ some i
      → 2 ≤ column a
      → column a < 18278
      → (find_index (stands_for a) headers ≡ none
          → truthy (trim (cell_text u (get_elem? headers (i + 2)))) ≡ false)
      → (b : Assignment) × (resolve_gradebook_cell_target u
            (column_of u assignments sheets a).header_cell
            roster
            assignments
            sheets
          ≡ some (assignment_header (column_of u assignments sheets a).header_cell b))
        × (b.id ≡ a.id)
  unfolding resolve_gradebook_cell_target column_of decimal
  resolve-column_of roster a i keeps k far near blank =
      let same = assignment_at-IsSame a i (find_index (stands_for a) headers) refl k blank in
      let read =
        parse_cell_address-address_of u.to_upper_case keeps (column a) 0 near (omega arith) in
      (
        same.0,
        ap (λ o. located u o roster assignments sheets) read
            ∙ located-header a same.0 roster far same.1,
        same.2,
      )
