-- ===== src/Gradebook/Edit.antt =====
-- A request to edit one cell of the gradebook: `parseCellEdit`, `pointsForGrade` and `resolveCellEdit`.
use the_cinder_project.Base.{
  String, ℕ, Bool, true, false, not, ◌&&◌, ◌||◌, Option, none, some, List, [], ◌∷◌, ◌++◌, Text,
  codes, text_eq, trim, is_space, lower, leb, ◌==◌, if◌then◌else◌,
}
use the_cinder_project.Base.Number.{
  Number, from_nat, finite, is_finite, round, less, is_below_zero, multiply,
}
use the_cinder_project.Base.Json.{Json, null, bool, num, str}
use the_cinder_project.Base.Regex.{
  Regex, one, then_, or_, many, few, group, start, end_, boundary, maybe, some_of, any_char, digit,
  space, word, any_of, exec, test,
}
use the_cinder_project.Model.{User}
use the_cinder_project.Gradebook.{normalize_cell_address}
use the_cinder_project.Gradebook.Sheet.{
  Assignment, Submission, Sheet, Unicode, spaced, digits, number_of, text_at,
}

pub record IntentInput : Type 0 where
  pub prompt : Text
  pub roster : List User
  pub assignments : List Assignment
  pub workbook : List Sheet
  pub submission_for : Text → Text → Option Submission

pub data GradebookAction : Type 0 where
  set_grade : Text → Text → Number → GradebookAction
  add_column : Text → Option Text → Option (List (Text × Json)) → GradebookAction
  update_assignment : Text → Text → Number → GradebookAction
  set_cell : Text → Text → Json → GradebookAction

pub record GradebookIntent : Type 0 where
  pub message : Text
  pub actions : List GradebookAction

abbrev pub only : Text → GradebookIntent
only message = record { message = message; actions = [] }

abbrev pub does : Text → GradebookAction → GradebookIntent
does message action = record { message = message; actions = action ∷ [] }

-- `r{1,3}` and `r{1,4}`
abbrev pub up_to_3 : Regex → Regex
up_to_3 r = then_ r (maybe (then_ r (maybe r)))

abbrev pub up_to_4 : Regex → Regex
up_to_4 r = then_ r (maybe (then_ r (maybe (then_ r (maybe r)))))

abbrev pub a_to_z : Regex
a_to_z = one (λ c. leb b'a' (lower c) && leb (lower c) b'z')

abbrev pub spaces : Regex
spaces = some_of space

-- The request: a verb, perhaps `the`, `cell` and `gradebook!`, the cell, `to`, `to be`, `as` or `=`, and
-- the value up to a full stop or an exclamation mark.
abbrev pub edit_pattern : Regex
edit_pattern = then_ boundary (
    then_
      (any_of (
        word "change"
        ∷ word "edit"
        ∷ word "rename"
        ∷ word "set"
        ∷ word "update"
        ∷ word "make"
        ∷ word "put"
        ∷ []))
      (then_ spaces (
        then_ (maybe (then_ (word "the") spaces)) (
          then_ (maybe (then_ (word "cell") spaces)) (
            then_ (maybe (word "gradebook!")) (
              then_
                (group 1 (
                  or_ (then_ (up_to_3 a_to_z) (then_ (many space) (up_to_4 digit)))
                    (then_ (up_to_4 digit) (then_ (many space) (up_to_3 a_to_z)))))
                (then_ spaces (
                  then_
                    (any_of (
                      then_ (word "to") (maybe (then_ spaces (word "be")))
                      ∷ word "as"
                      ∷ word "="
                      ∷ []))
                    (then_ spaces (
                      then_ (group 2 (then_ any_char (few any_char))) (
                        then_ (many space)
                          (then_ (maybe (one (λ c. c == b'.' || c == b'!'))) end_))))))))))))

abbrev pub is_quote : ℕ → Bool
is_quote c = c == b'"' || c == b'\'' || c == 0x201c || c == 0x201d || c == 0x2018 || c == 0x2019

unfoldable pub without_last_quote : Text → Text
without_last_quote [] = []
without_last_quote (c ∷ []) = if is_quote c then [] else c ∷ []
without_last_quote (c ∷ (d ∷ s)) = c ∷ without_last_quote (d ∷ s)

abbrev pub without_first_quote : Text → Text
without_first_quote [] = []
without_first_quote (c ∷ s) = if is_quote c then s else c ∷ s

abbrev pub edit_of : Option Text → Text → Option (Text × Text)
edit_of none value = none
edit_of (some cell) [] = none
edit_of (some cell) (c ∷ value) = some (cell, c ∷ value)

module _ (u : Unicode) where
  unfoldable pub edit_from : Option (List (ℕ × Text)) → Option (Text × Text)
  unfolding text_at trim without_last_quote normalize_cell_address
  edit_from none = none
  edit_from (some groups) =
      edit_of (normalize_cell_address u.to_upper_case (text_at 1 groups))
        (trim (without_last_quote (without_first_quote (trim (text_at 2 groups)))))

  -- `parseCellEdit`: the cell and the value
  unfoldable pub parse_cell_edit : Text → Option (Text × Text)
  unfolding edit_from exec trim spaced is_space
  parse_cell_edit prompt =
      edit_from (exec edit_pattern (spaced (λ c. not (is_space c)) false (trim prompt)))

abbrev pub whole : Regex → Regex
whole r = then_ start (then_ r end_)

abbrev pub signed : Regex
signed = then_ (maybe (one (λ c. c == b'-'))) digits

-- `parseWorkbookValue`
unfoldable pub parse_workbook_value : Text → Json
unfolding test number_of
parse_workbook_value value =
    if test (whole (any_of (word "blank" ∷ word "empty" ∷ word "null" ∷ []))) value
    then null
    else if test (whole (word "true")) value
    then bool true
    else if test (whole (word "false")) value
    then bool false
    else if test (whole signed) value
    then num (number_of value)
    else str value

-- `full\s+marks?|maximum|max`, by the literals of the flag `i` or without it
abbrev pub full_marks : (String → Regex) → Regex
full_marks literal_of = any_of (
    then_ (literal_of "full") (then_ spaces (then_ (literal_of "mark") (maybe (literal_of "s"))))
    ∷ literal_of "maximum"
    ∷ literal_of "max"
    ∷ [])

-- `%|percent|points?|pts?`
abbrev pub unit : Regex
unit = any_of (
    word "%"
    ∷ word "percent"
    ∷ then_ (word "point") (maybe (word "s"))
    ∷ then_ (word "pt") (maybe (word "s"))
    ∷ [])

abbrev pub grade_pattern : Regex
grade_pattern = whole (then_ (group 1 signed) (then_ (many space) (maybe (group 2 unit))))

unfoldable pub is_percent : Unicode → Text → Bool
unfolding text_eq
is_percent u unit_text =
    text_eq unit_text (codes "%") || text_eq (u.to_locale_lower_case unit_text) (codes "percent")

-- `Math.round(max * amount) / 100`
unfoldable pub percentage : Number → Number → Number
unfolding round
percentage max_points amount = finite false (round (multiply max_points amount)) 99

module _ (u : Unicode) where
  -- The points for an amount with its unit, and how it was read
  unfoldable pub points_of : Number → Bool → Number → Option (Number × Text)
  unfolding percentage
  points_of amount percent max_points =
      if not (is_finite amount) || is_below_zero amount
      then none
      else if percent
      then (if less (from_nat 100) amount
          then none
          else some (percentage max_points amount, u.show_number amount ++ codes "%"))
      else if less max_points amount
      then none
      else some (amount, u.show_number amount ++ codes " points")

  unfoldable pub points_read : Option (List (ℕ × Text)) → Number → Option (Number × Text)
  unfolding points_of number_of text_at is_percent
  points_read none max_points = none
  points_read (some groups) max_points =
      points_of (number_of (text_at 1 groups)) (is_percent u (text_at 2 groups)) max_points

  -- `pointsForGrade`
  unfoldable pub points_for_grade : Text → Number → Option (Number × Text)
  unfolding test trim points_read exec
  points_for_grade value max_points =
      if test (whole (full_marks word)) (trim value)
      then some (max_points, codes "full marks")
      else points_read (exec grade_pattern (trim value)) max_points
