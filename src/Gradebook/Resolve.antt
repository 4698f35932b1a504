-- ===== src/Gradebook/Resolve.antt =====
-- What a request to the gradebook's assistant comes to: `resolveCellEdit`, `resolveBulkGrades` and
-- `resolveGradebookIntent`.
use the_cinder_project.Base.{
  Bool, true, false, not, ◌&&◌, ◌||◌, Option, none, some, ◌++◌, Text, codes, text_eq, truthy, any,
  if◌then◌else◌,
}
use the_cinder_project.Base.Number.{Number, from_nat, is_finite, equals, less, is_below_zero}
use the_cinder_project.Base.Json.{str}
use the_cinder_project.Model.{User}
use the_cinder_project.Gradebook.Sheet.{
  Assignment, Submission, Unicode, same_points, normalize_words, parse_assignment_header, Target,
  identity, assignment_header, grade, custom, resolve_gradebook_cell_target,
}
use the_cinder_project.Gradebook.Edit.{
  IntentInput, set_grade, update_assignment, set_cell, GradebookIntent, only, does, parse_cell_edit,
  parse_workbook_value, points_for_grade,
}

-- `submission?.grade?.points ?? 0`
abbrev pub points_in : Option Submission → Number
points_in none = from_nat 0
points_in (some s) = elim s.points [ none ↦ from_nat 0 | some n ↦ n ]

abbrev pub or_points : Option Number → Number → Number
or_points none n = n
or_points (some m) n = m

abbrev pub has_submission : Option Submission → Bool
has_submission none = false
has_submission (some _) = true

module _ (u : Unicode) (input : IntentInput) where
  -- A grade above the points that an assignment would have
  unfoldable pub conflicts : Text → Number → Bool
  conflicts assignment_id max_points =
      any (λ (s : User). less max_points (points_in (input.submission_for s.id assignment_id)))
        input.roster

  abbrev pub is_allowed_max : Number → Bool
  is_allowed_max n =
      is_finite n && not (is_below_zero n) && not (equals n 0) && not (less (from_nat 10000) n)

  unfoldable pub kept_title : Assignment → Text → Text
  unfolding normalize_words text_eq
  kept_title a title =
      if text_eq (normalize_words u title) (normalize_words u a.title) then a.title else title

  abbrev pub use_heading : Text → Text
  use_heading address =
      codes "Use a heading such as “Story Writing / 20” for " ++ (address ++ codes ".")

  -- The branch of an assignment's header, from the new title and points
  unfoldable pub edit_header : Text → Assignment → Text → Number → GradebookIntent
  unfolding text_eq conflicts
  edit_header address a title max_points =
      if not (truthy title) || not (is_allowed_max max_points)
      then only (use_heading address)
      else if conflicts a.id max_points
      then only (
          codes "I cannot reduce "
          ++ (a.title
              ++ (codes " to "
                  ++ (u.show_number max_points
                      ++ codes
                          " points because an existing grade is higher. Adjust that grade first."))))
      else if text_eq title a.title && same_points max_points (some a.max_points)
      then only (
          address
          ++ (codes " already shows "
              ++ (a.title ++ (codes " / " ++ (u.show_number a.max_points ++ codes ".")))))
      else does
          (address
            ++ (codes " is the authoritative header for "
                ++ (a.title
                    ++ codes
                        ". I will update the assignment itself so the change persists everywhere.")))
          (update_assignment a.id title max_points)

  abbrev pub grade_message : Text → Assignment → User → Text
  grade_message address a s =
      address ++ (codes " is " ++ (s.display_name ++ (codes "’s " ++ (a.title ++ codes " grade"))))

  abbrev pub graded : Text → Assignment → User → Option (Number × Text) → GradebookIntent
  graded address a s none = only (
      grade_message address a s
      ++ (codes ". Enter 0–"
          ++ (u.show_number a.max_points ++ codes ", a percentage, or “full marks”.")))
  graded address a s (some (points, interpretation)) =
      does (grade_message address a s ++ (codes " (" ++ (interpretation ++ codes ").")))
        (set_grade s.id a.id points)

  unfoldable pub edit_grade : Text → Assignment → User → Text → GradebookIntent
  unfolding points_for_grade
  edit_grade address a s value =
      if has_submission (input.submission_for s.id a.id)
      then graded address a s (points_for_grade u value a.max_points)
      else only (
          address
          ++ (codes " cannot be graded because "
              ++ (s.display_name ++ (codes " has not submitted " ++ (a.title ++ codes ".")))))

  unfoldable pub edit_target : Text → Text → Option Target → GradebookIntent
  unfolding edit_header kept_title parse_assignment_header edit_grade parse_workbook_value
  edit_target cell value none = only (codes "I could not find cell " ++ (cell ++ codes "."))
  edit_target cell value (some (identity address)) = only (
      address
      ++ codes
          " contains protected student identity data and cannot be edited from the Gradebook assistant.")
  edit_target cell value (some (assignment_header address a)) =
      let parsed = parse_assignment_header u (some (str value)) in
      edit_header address a (kept_title a parsed.0) (or_points parsed.1 a.max_points)
  edit_target cell value (some (grade address a s)) = edit_grade address a s value
  edit_target cell value (some (custom address)) =
      does (address ++ codes " is a local custom Gradebook cell.")
        (set_cell (codes "Gradebook") address (parse_workbook_value value))

  abbrev pub edited : Option (Text × Text) → Option GradebookIntent
  edited none = none
  edited (some (cell, value)) = some (
      edit_target cell value
        (resolve_gradebook_cell_target u cell input.roster input.assignments input.workbook))

  unfoldable pub resolve_cell_edit : Option GradebookIntent
  unfolding parse_cell_edit resolve_gradebook_cell_target edit_target
  resolve_cell_edit = edited (parse_cell_edit u input.prompt)
