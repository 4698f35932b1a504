-- ===== src/Gradebook/Sheet.antt =====
-- What a cell of the gradebook stands for: the headers and `resolveGradebookCellTarget` of
-- apps/teacher/src/gradebookIntent.ts. What Unicode counts as a letter or a digit, the lower case of a
-- text, `String` of a cell value and of a number are parameters. Names lie in the basic plane.
use the_cinder_project.Base.{
  ℕ, suc, ◌+◌, ◌-◌, ◌*◌, ◌^◌, Bool, true, false, not, ◌&&◌, ◌||◌, Option, none, some, List, [], ◌∷◌,
  Text, codes, text_eq, truthy, trim, length, keep, find, find_index, get_elem?, leb, ◌==◌,
  if◌then◌else◌,
}
use the_cinder_project.Base.Number.{Number, nan, infinite, finite}
use the_cinder_project.Base.Decimal.{number_from}
use the_cinder_project.Base.Json.{Json, null, bool, num, str, arr, obj}
use the_cinder_project.Base.Regex.{
  Regex, one, then_, many, few, group, start, end_, maybe, some_of, any_char, digit, space, word,
  exec, group_of,
}
use the_cinder_project.Model.{User}
use the_cinder_project.Gradebook.{Cell, parse_cell_address}

-- The fields of an assignment and a submission that are read here.
pub record Assignment : Type 0 where
  pub id : Text
  pub title : Text
  pub max_points : Number

-- The points of its grade, if it is graded.
pub record Submission : Type 0 where
  pub points : Option Number

pub record Sheet : Type 0 where
  pub name : Text
  pub values : List (List Json)

pub record Unicode : Type 0 where
  pub to_locale_lower_case : Text → Text
  pub to_upper_case : Text → Text
  pub is_letter_or_digit : ℕ → Bool
  pub same_letter : ℕ → ℕ → Bool
  pub to_text : Json → Text
  pub show_number : Number → Text

abbrev pub is_apostrophe : ℕ → Bool
is_apostrophe c = c == 0x2019 || c == b'\''

-- `replace(/[’']/g, " ")`
unfoldable pub without_apostrophes : Text → Text
without_apostrophes [] = []
without_apostrophes (c ∷ s) = (if is_apostrophe c then b' ' else c) ∷ without_apostrophes s

-- `/[^\p{L}\p{N}]+/gu` by one space each; `inside` says that the run has begun.
unfoldable pub spaced : (ℕ → Bool) → Bool → Text → Text
spaced p inside [] = []
spaced p inside (c ∷ s) =
    let rest = spaced p (not (p c)) s in
    if p c then c ∷ rest else if inside then rest else b' ' ∷ rest

-- The text of a number in digits, with a sign and a point if need be
abbrev pub fraction_of : Bool → ℕ → Text → Number
fraction_of negative whole digits =
    finite negative (number_from whole digits) (10 ^ length digits - 1)

unfoldable pub unsigned : Bool → ℕ → Text → Number
unfolding number_from
unsigned negative whole [] = finite negative whole 0
unsigned negative whole (c ∷ s) =
    let rest = unsigned negative (whole * 10 + (c - b'0')) s in
    if c == b'.' then fraction_of negative whole s else rest

-- `Number` of such a text
unfoldable pub number_of : Text → Number
unfolding unsigned
number_of [] = nan
number_of (c ∷ s) = if c == b'-' then unsigned true 0 s else unsigned false 0 (c ∷ s)

abbrev pub digits : Regex
digits = then_ (some_of digit) (maybe (then_ (one (λ c. c == b'.')) (some_of digit)))

-- `/^(.*?)\s*(?:-\s*)?\/\s*(\d+(?:\.\d+)?)\s*(?:points?)?$/i`
abbrev pub header_pattern : Regex
header_pattern = then_ start (
    then_ (group 1 (few any_char)) (
      then_ (many space) (
        then_ (maybe (then_ (one (λ c. c == b'-')) (many space))) (
          then_ (one (λ c. c == b'/')) (
            then_ (many space) (
              then_ (group 2 digits) (
                then_ (many space)
                  (then_ (maybe (then_ (word "point") (maybe (word "s")))) end_))))))))

-- `/^["“](.*)["”]$/`
abbrev pub quoted_pattern : Regex
quoted_pattern = then_ start (
    then_ (one (λ c. c == b'"' || c == 0x201c))
      (then_ (group 1 (many any_char)) (then_ (one (λ c. c == b'"' || c == 0x201d)) end_)))

abbrev pub same_sign : Bool → Bool → Bool
same_sign true c = c
same_sign false c = not c

-- `max_points` and `parsed.maxPoints`, which is `null` for a header without points
abbrev pub same_points : Number → Option Number → Bool
same_points x none = false
same_points nan (some y) = false
same_points infinite (some y) = false
same_points (finite a n d) (some nan) = false
same_points (finite a n d) (some infinite) = false
same_points (finite a n d) (some (finite b m e)) =
    n * suc e == m * suc d && (same_sign a b || n == 0)

unfoldable pub unquoted : Option (List (ℕ × Text)) → Text → Text
unfolding group_of
unquoted none title = title
unquoted (some groups) title = elim (group_of 1 groups) [ none ↦ [] | some inner ↦ inner ]

unfoldable pub text_at : ℕ → List (ℕ × Text) → Text
unfolding group_of
text_at n groups = elim (group_of n groups) [ none ↦ [] | some t ↦ t ]

unfoldable pub header_of : Text → Option (List (ℕ × Text)) → Text × Option Number
unfolding text_at trim unquoted exec number_of
header_of text none = (text, none)
header_of text (some groups) =
    let title = trim (text_at 1 groups) in
    (unquoted (exec quoted_pattern title) title, some (number_of (text_at 2 groups)))

-- `sheet?.values` and its rows
abbrev pub first_row : List (List Json) → List Json
first_row [] = []
first_row (row ∷ _) = row

abbrev pub row_at : List (List Json) → ℕ → List Json
row_at values i = elim (get_elem? values i) [ none ↦ [] | some row ↦ row ]

abbrev pub sheet_values : Option Sheet → List (List Json)
sheet_values none = []
sheet_values (some sheet) = sheet.values

unfoldable pub gradebook_values : List Sheet → List (List Json)
unfolding text_eq
gradebook_values sheets =
    sheet_values (find (λ (s : Sheet). text_eq s.name (codes "Gradebook")) sheets)

pub data Target : Type 0 where
  identity : Text → Target
  assignment_header : Text → Assignment → Target
  grade : Text → Assignment → User → Target
  custom : Text → Target

module _ (u : Unicode) where
  unfoldable pub normalize_words : Text → Text
  unfolding trim without_apostrophes spaced
  normalize_words value = trim (
      spaced u.is_letter_or_digit false (without_apostrophes (u.to_locale_lower_case (trim value))))

  -- `String(value ?? "")`
  abbrev pub cell_text : Option Json → Text
  cell_text none = []
  cell_text (some null) = []
  cell_text (some (str value)) = value
  cell_text (some (bool b)) = u.to_text (bool b)
  cell_text (some (num n)) = u.to_text (num n)
  cell_text (some (arr items)) = u.to_text (arr items)
  cell_text (some (obj fields)) = u.to_text (obj fields)

  unfoldable pub parse_assignment_header : Option Json → Text × Option Number
  unfolding trim header_of exec
  parse_assignment_header value =
      let text = trim (cell_text value) in header_of text (exec header_pattern text)

  -- `titleMatches.length === 1 ? … : titleMatches.find(…)`
  abbrev pub chosen : List Assignment → Option Number → Option Assignment
  chosen [] points = none
  chosen (a ∷ []) points = some a
  chosen (a ∷ (b ∷ more)) points =
      find (λ (c : Assignment). same_points c.max_points points) (a ∷ (b ∷ more))

  unfoldable pub assignment_for_header : Option Json → List Assignment → Option Assignment
  unfolding parse_assignment_header normalize_words text_eq
  assignment_for_header value assignments =
      let parsed = parse_assignment_header value in
      if truthy parsed.0
      then chosen
          (keep (λ (a : Assignment). text_eq (normalize_words a.title) (normalize_words parsed.0))
            assignments)
          parsed.1
      else none

  unfoldable pub has_id : Option Assignment → Text → Bool
  unfolding text_eq
  has_id none id = false
  has_id (some a) id = text_eq a.id id

  -- The first two columns name the student.
  unfoldable pub find_gradebook_assignment_column : Assignment → List Assignment → List Sheet → ℕ
  unfolding assignment_for_header has_id text_eq gradebook_values
  find_gradebook_assignment_column a assignments sheets =
      let headers = first_row (gradebook_values sheets) in
      let listed = find_index (λ (b : Assignment). text_eq b.id a.id) assignments in
      elim (find_index (λ h. has_id (assignment_for_header (some h) assignments) a.id) headers) [
        | some column ↦ column
        | none ↦ elim listed [ none ↦ 1 | some i ↦ i + 2 ]
      ]

  abbrev pub or_canonical : Option Assignment → Option Assignment → Bool → Option Assignment
  or_canonical (some a) canonical blank = some a
  or_canonical none canonical true = canonical
  or_canonical none canonical false = none

  abbrev pub canonical_at : ℕ → List Assignment → Option Assignment
  canonical_at column assignments =
      if leb 2 column then get_elem? assignments (column - 2) else none

  unfoldable pub assignment_at : Cell → List Assignment → List (List Json) → Option Assignment
  unfolding assignment_for_header trim
  assignment_at cell assignments values =
      let header = get_elem? (first_row values) cell.column in
      or_canonical (assignment_for_header header assignments) (canonical_at cell.column assignments)
        (not (truthy (trim (cell_text header))))

  abbrev pub or_student : Option User → Option User → Option User
  or_student none other = other
  or_student (some s) other = some s

  unfoldable pub student_at : Cell → List User → List (List Json) → Option User
  unfolding trim text_eq
  student_at cell roster values =
      let username =
        u.to_locale_lower_case (trim (cell_text (get_elem? (row_at values cell.row) 1))) in
      or_student (find (λ (s : User). text_eq (u.to_locale_lower_case s.username) username) roster)
        (get_elem? roster (cell.row - 1))

  abbrev pub grade_or_custom : Text → Assignment → Option User → Target
  grade_or_custom address a none = custom address
  grade_or_custom address a (some s) = grade address a s

  abbrev pub target_of : Cell → Option Assignment → Option User → Target
  target_of cell none student = custom cell.address
  target_of cell (some a) student =
      if cell.row == 0
      then assignment_header cell.address a
      else grade_or_custom cell.address a student

  unfoldable pub located : Option Cell → List User → List Assignment → List Sheet → Option Target
  unfolding gradebook_values assignment_at student_at
  located none roster assignments sheets = none
  located (some cell) roster assignments sheets =
      let values = gradebook_values sheets in
      some (
        if leb cell.column 1
        then identity cell.address
        else target_of cell (assignment_at cell assignments values) (student_at cell roster values))

  unfoldable pub resolve_gradebook_cell_target :
      Text → List User → List Assignment → List Sheet → Option Target
  unfolding located parse_cell_address
  resolve_gradebook_cell_target cell roster assignments sheets =
      located (parse_cell_address u.to_upper_case cell) roster assignments sheets
