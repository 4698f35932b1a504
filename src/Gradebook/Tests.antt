-- ===== src/Gradebook/Tests.antt =====
-- The gradebook's addresses and its assistant at concrete inputs.
use the_cinder_project.Base.{
  ℕ, text_eq, ap, ◌-◌, false, ◌&&◌, Option, none, some, List, [], ◌∷◌, map, Text, codes, lower, leb,
  ◌==◌, if◌then◌else◌, All, ◌≡◌, refl,
}
use the_cinder_project.Base.Number.{from_nat, finite}
use the_cinder_project.Base.Regex.{is_word}
use the_cinder_project.Model.{student, User}
use the_cinder_project.Base.Json.{str}
use the_cinder_project.Gradebook.Sheet.{
  Assignment, Sheet, Unicode, assignment_header, find_gradebook_assignment_column,
  resolve_gradebook_cell_target,
}
use the_cinder_project.Gradebook.CellMap.{column_of}
use the_cinder_project.Gradebook.Headers.{resolve-column_of}
use the_cinder_project.Gradebook.Edit.{IntentInput, GradebookAction, set_grade, GradebookIntent}
use the_cinder_project.Gradebook.Bulk.{resolve_bulk_grades, resolve_gradebook_intent}
use the_cinder_project.Gradebook.Points.{IsPoints}
use the_cinder_project.Gradebook.Members.{Holds}
use the_cinder_project.Gradebook.Allowed.{AreAllowed}
use the_cinder_project.Gradebook.Allowed.Intent.{resolve_gradebook_intent-AreAllowed}
use native.Mathlib.Omega.{arith}
use the_cinder_project.Gradebook.Addresses.{IsMark, address_of, parse_cell_address-address_of}
use the_cinder_project.Gradebook.{
  parse_cell_address, column_from, column_name, column_loop, cell_of, matched, span,
}
use the_cinder_project.Base.Decimal.{number_from}

parse_cell_address-address_of_example :
    parse_cell_address (λ s. s) (address_of 731 11)
    ≡ some (record { address = address_of 731 11; column = 731; row = 11 })
parse_cell_address-address_of_example =
    parse_cell_address-address_of (λ s. s) (λ s h. refl) 731 11 (omega arith) (omega arith)

column_name_test : column_name 731 ≡ codes "ABD"
unfolding column_name column_loop
column_name_test = refl

cell_of_test :
    cell_of (matched (codes "12AB"))
    ≡ some (record { address = codes "AB12"; column = 27; row = 11 })
unfolding cell_of matched span column_from number_from
cell_of_test = refl

abbrev up : ℕ → ℕ
up c = if leb b'a' c && leb c b'z' then c - 32 else c

-- A text in the letters of ASCII
abbrev ascii : Unicode
ascii = record {
  to_locale_lower_case = λ t. map lower t;
  to_upper_case = λ t. map up t;
  is_letter_or_digit = is_word;
  same_letter = λ k c. lower k == lower c;
  to_text = λ j. [];
  show_number = λ n. codes "n";
}

abbrev ada : User
ada = record {
  id = codes "u1";
  username = codes "ada";
  display_name = codes "Ada Lin";
  role = student;
  grade_level = none;
  section = none;
  roll_number = none;
  must_change_password = false;
  created_at = [];
}

abbrev essay : Assignment
essay = record { id = codes "a1"; title = codes "Essay"; max_points = from_nat 20 }

abbrev quiz : Assignment
quiz = record { id = codes "a2"; title = codes "Quiz"; max_points = finite false 25 1 }

abbrev asking : Text → IntentInput
asking prompt = record {
  prompt = prompt;
  roster = ada ∷ [];
  assignments = essay ∷ (quiz ∷ []);
  workbook = [];
  submission_for = λ s a. some (record { points = none });
}

abbrev has_points : All (λ (a : Assignment). IsPoints a.max_points) (essay ∷ (quiz ∷ []))
has_points = ((2000, refl), ((1250, refl), tt))

resolve_gradebook_intent-AreAllowed_example :
    Holds
      (AreAllowed ascii (asking (codes "Set all grades of Ada to 90%")))
      (resolve_gradebook_intent ascii (asking (codes "Set all grades of Ada to 90%")))
resolve_gradebook_intent-AreAllowed_example =
    resolve_gradebook_intent-AreAllowed ascii (asking (codes "Set all grades of Ada to 90%"))
      has_points

abbrev actions_of : Option GradebookIntent → List GradebookAction
actions_of none = []
actions_of (some intent) = intent.actions

cell_edit_test :
    actions_of (resolve_gradebook_intent ascii (asking (codes "Set C2 to 18")))
    ≡ set_grade (codes "u1") (codes "a1") (from_nat 18) ∷ []
unfolding resolve_gradebook_intent
cell_edit_test = refl

bulk_test :
    actions_of (resolve_bulk_grades ascii (asking (codes "Set all grades of Ada to 90%")))
    ≡ set_grade (codes "u1") (codes "a1") (finite false 1800 99)
      ∷ (set_grade (codes "u1") (codes "a2") (finite false 1125 99) ∷ [])
unfolding resolve_bulk_grades
bulk_test = refl

up-marks : (s : Text) → All IsMark s → map up s ≡ s
up-marks [] h = refl
up-marks (c ∷ s) h =
    let kept : (leb b'a' c && leb c b'z') ≡ false = ground arith in
    simp kept (ap (λ t. c ∷ t) (up-marks s h.1))

-- The sheet has a header for the essay only.
abbrev sheets : List Sheet
sheets =
    record {
      name = codes "Gradebook";
      values =
          (str (codes "Student") ∷ (str (codes "Username") ∷ (str (codes "Essay / 20") ∷ []))) ∷ [];
    }
    ∷ []

resolve-column_of_example :
    (b : Assignment) × (resolve_gradebook_cell_target ascii
        (column_of ascii (essay ∷ (quiz ∷ [])) sheets quiz).header_cell
        (ada ∷ [])
        (essay ∷ (quiz ∷ []))
        sheets
      ≡ some (assignment_header (column_of ascii (essay ∷ (quiz ∷ [])) sheets quiz).header_cell b))
    × (b.id ≡ codes "a2")
unfolding find_gradebook_assignment_column text_eq
resolve-column_of_example =
    resolve-column_of ascii (essay ∷ (quiz ∷ [])) sheets (ada ∷ []) quiz 1 up-marks refl
      (omega arith) (omega arith) (λ e. refl)
