-- ===== src/Gradebook/Allowed.antt =====
-- What the gradebook's assistant may propose.
pub mod Single
pub mod Bulk
pub mod Intent
use the_cinder_project.Base.{
  ℕ, suc, ◌*◌, ◌<◌, ◌≤◌, Bool, true, false, not, ◌&&◌, ◌||◌, Option, none, some, List, [], ◌∷◌,
  Text, codes, truthy, text_eq, trim, keep, length, All, ◌≡◌, refl, arith, Bool-cases, inl, inr,
}
use the_cinder_project.Base.Number.{
  nan, infinite, finite, less, Number, from_nat, is_finite, less, is_below_zero,
}
use the_cinder_project.Base.Json.{str}
use the_cinder_project.Model.{User}
use the_cinder_project.Gradebook.{Cell}
use the_cinder_project.Gradebook.Sheet.{
  Submission, Assignment, Unicode, number_of, text_at, normalize_words, same_points, Target,
  identity, assignment_header, grade, custom, parse_assignment_header,
}
use the_cinder_project.Base.Regex.{word, exact, exec, test}
use the_cinder_project.Gradebook.Edit.{
  IntentInput, GradebookAction, set_grade, add_column, update_assignment, set_cell, GradebookIntent,
  whole, full_marks, grade_pattern, points_of, points_read, points_for_grade, is_percent,
  parse_cell_edit,
}
use the_cinder_project.Gradebook.Resolve.{
  has_submission, or_points, conflicts, is_allowed_max, kept_title, edit_header, graded, edit_grade,
  edit_target, edited, resolve_cell_edit,
}
use the_cinder_project.Gradebook.Bulk.{
  Score, read_score, submitted_of, as_full_marks, bulk_points, bulk_actions, out_of_range,
  exceeds_some, bulk_intent, scored, grades_pattern, all_pattern, whole_word, mentioned,
  find_mentioned_students, resolve_bulk_grades, or_bulk, resolve_gradebook_intent,
}
use the_cinder_project.Gradebook.Points.{IsPoints, IsWithin, percentage-IsWithin, full-IsWithin}
use the_cinder_project.Gradebook.Members.{
  Holds, IsRead, IsIn, All-IsIn, Holds, IsTarget, resolve-IsTarget, find_mentioned_students-All,
}

-- Points above 0 and at most 10,000
abbrev pub IsMaximum : Number → Type 0
IsMaximum nan = ⊥
IsMaximum infinite = ⊥
IsMaximum (finite true n d) = ⊥
IsMaximum (finite false n d) = (0 < n) × (n ≤ 10000 * suc d)

-- A grade that was given, if one was, is not above the points.
abbrev pub IsKept : Option Submission → Number → Type 0
IsKept none max_points = Unit
IsKept (some w) max_points = Holds (λ n. less max_points n ≡ false) w.points

module _ (u : Unicode) (input : IntentInput) where
  -- A grade for work of a student of the classroom that was handed in, from 0 to the points of the
  -- assignment; a title that is not empty and points above 0 and at most 10,000, not below a grade that
  -- was given; or a value for a cell whose address is that of a column beyond the two that name the
  -- students. A column is never added.
  abbrev pub IsAllowed : GradebookAction → Type 0
  IsAllowed (set_grade student_id assignment_id points) =
      (s : User) × (a : Assignment) × IsIn s input.roster
      × IsIn a input.assignments
      × (s.id ≡ student_id)
      × (a.id ≡ assignment_id)
      × (has_submission (input.submission_for student_id assignment_id) ≡ true)
      × IsWithin a.max_points points
  IsAllowed (add_column title assignment_id values) = ⊥
  IsAllowed (update_assignment assignment_id title max_points) =
      (a : Assignment) × IsIn a input.assignments
      × (a.id ≡ assignment_id)
      × (truthy title ≡ true)
      × IsMaximum max_points
      × All (λ s. IsKept (input.submission_for s.id assignment_id) max_points) input.roster
  IsAllowed (set_cell sheet address value) =
      (c : Cell) × IsRead u c × (c.address ≡ address) × (2 ≤ c.column) × (sheet ≡ codes "Gradebook")

  abbrev pub AreAllowed : GradebookIntent → Type 0
  AreAllowed intent = All IsAllowed intent.actions

  abbrev pub HasPoints : Assignment → Type 0
  HasPoints a = IsIn a input.assignments × IsPoints a.max_points
