-- ===== src/Gradebook/Allowed/Single.antt =====
-- The edit of a cell proposes what is allowed.
use the_cinder_project.Base.{
  any, [], ◌∷◌, ℕ, Bool, true, false, not, ◌&&◌, ◌||◌, Option, none, some, List, Text, truthy,
  text_eq, trim, All, ◌≡◌, refl, arith, Bool-cases, inl, inr,
}
use the_cinder_project.Base.Number.{
  nan, infinite, finite, Number, from_nat, is_finite, less, is_below_zero,
}
use the_cinder_project.Base.Json.{str}
use the_cinder_project.Model.{User}
use the_cinder_project.Gradebook.Sheet.{
  Submission, Assignment, Unicode, number_of, text_at, same_points, Target, identity,
  assignment_header, grade, custom, parse_assignment_header,
}
use the_cinder_project.Base.Regex.{word, exec, test}
use the_cinder_project.Gradebook.Edit.{
  IntentInput, update_assignment, whole, full_marks, grade_pattern, points_of, points_read,
  points_for_grade, is_percent,
}
use the_cinder_project.Gradebook.Resolve.{
  points_in, conflicts, has_submission, or_points, conflicts, is_allowed_max, kept_title,
  edit_header, graded, edit_grade, edit_target, edited,
}
use the_cinder_project.Gradebook.Points.{IsPoints, IsWithin, percentage-IsWithin, full-IsWithin}
use the_cinder_project.Gradebook.Members.{IsIn, All-IsIn, Holds, IsTarget, resolve-IsTarget}
use the_cinder_project.Gradebook.Allowed.{IsAllowed, AreAllowed, HasPoints, IsMaximum, IsKept}

module _ (u : Unicode) (input : IntentInput) where
  abbrev IsScore : Number → Option (Number × Text) → Type 0
  IsScore max_points o = Holds (λ (r : Number × Text). IsWithin max_points r.0) o

  points_of-IsScore :
      (amount : Number) (percent : Bool) (max_points : Number)
      → IsPoints max_points
      → IsScore max_points (points_of u amount percent max_points)
  unfolding points_of
  points_of-IsScore amount percent max_points h =
      elim (Bool-cases (not (is_finite amount) || is_below_zero amount)) [
        | inl e ↦ simp e tt
        | inr e ↦
            let below : is_below_zero amount ≡ false = ground arith in
            let fin : is_finite amount ≡ true = ground arith in
            simp e (elim (Bool-cases percent) [
              | inl q ↦ simp q (elim (Bool-cases (less (from_nat 100) amount)) [
                | inl f ↦ simp f tt
                | inr f ↦ simp f (percentage-IsWithin max_points amount h below fin f)
              ])
              | inr q ↦ simp q (elim (Bool-cases (less max_points amount)) [
                | inl f ↦ simp f tt
                | inr f ↦ simp f (below, refl)
              ])
            ])
      ]

  points_read-IsScore :
      (o : Option (List (ℕ × Text))) (max_points : Number)
      → IsPoints max_points
      → IsScore max_points (points_read u o max_points)
  unfolding points_read
  points_read-IsScore none max_points h = tt
  points_read-IsScore (some groups) max_points h =
      points_of-IsScore (number_of (text_at 1 groups)) (is_percent u (text_at 2 groups)) max_points
        h

  points_for_grade-IsScore :
      (value : Text) (max_points : Number)
      → IsPoints max_points
      → IsScore max_points (points_for_grade u value max_points)
  unfolding points_for_grade
  points_for_grade-IsScore value max_points h =
      elim (Bool-cases (test (whole (full_marks word)) (trim value))) [
        | inl e ↦ simp e (full-IsWithin max_points h)
        | inr e ↦ simp e (points_read-IsScore (exec grade_pattern (trim value)) max_points h)
      ]

  graded-AreAllowed :
      (address : Text) (a : Assignment) (s : User) (o : Option (Number × Text))
      → IsIn s input.roster
      → IsIn a input.assignments
      → has_submission (input.submission_for s.id a.id) ≡ true
      → IsScore a.max_points o
      → (AreAllowed u input) (graded u input address a s o)
  graded-AreAllowed address a s none hs ha handed h = tt
  graded-AreAllowed address a s (some (points, read)) hs ha handed h =
      ((s, a, hs, ha, refl, refl, handed, h), tt)

  edit_grade-AreAllowed :
      (address : Text) (a : Assignment) (s : User) (value : Text)
      → (HasPoints u input) a
      → IsIn s input.roster
      → (AreAllowed u input) (edit_grade u input address a s value)
  unfolding edit_grade
  edit_grade-AreAllowed address a s value h hs =
      elim (Bool-cases (has_submission (input.submission_for s.id a.id))) [
        | inl e ↦
            let score = points_for_grade-IsScore value a.max_points h.1 in
            let all =
              graded-AreAllowed address a s (points_for_grade u value a.max_points) hs h.0 e
                score in
            simp e all
        | inr e ↦ simp e tt
      ]

  maximum : (n : Number) → is_allowed_max u input n ≡ true → IsMaximum n
  maximum nan h = absurd cc
  maximum infinite h = absurd cc
  maximum (finite true n d) h = absurd (ground arith)
  maximum (finite false n d) h = (ground arith, ground arith)

  IsKept-one :
      (o : Option Submission) (max_points : Number)
      → less max_points (points_in o) ≡ false
      → IsKept o max_points
  IsKept-one none max_points h = tt
  IsKept-one (some w) max_points h = given w.points h
    where
      given :
          (o : Option Number)
          → less max_points (elim o [ none ↦ from_nat 0 | some n ↦ n ]) ≡ false
          → Holds (λ n. less max_points n ≡ false) o
      given none e = tt
      given (some n) e = e

  kept :
      (id : Text) (max_points : Number) (roster : List User)
      → any (λ (s : User). less max_points (points_in (input.submission_for s.id id))) roster
        ≡ false
      → All (λ s. IsKept (input.submission_for s.id id) max_points) roster
  kept id max_points [] h = tt
  kept id max_points (s ∷ ss) h = (
    IsKept-one (input.submission_for s.id id) max_points (ground arith),
    kept id max_points ss (ground arith),
  )

  edit_header-AreAllowed :
      (address : Text) (a : Assignment) (title : Text) (max_points : Number)
      → IsIn a input.assignments
      → (AreAllowed u input) (edit_header u input address a title max_points)
  unfolding edit_header conflicts
  edit_header-AreAllowed address a title max_points h =
      elim (Bool-cases (not (truthy title) || not (is_allowed_max u input max_points))) [
        | inl e ↦ simp e tt
        | inr e ↦
            let titled : truthy title ≡ true = ground arith in
            let allowed : is_allowed_max u input max_points ≡ true = ground arith in
            simp e (elim (Bool-cases (conflicts u input a.id max_points)) [
              | inl c ↦ simp c tt
              | inr c ↦
                  let action : (IsAllowed u input) (update_assignment a.id title max_points) = (
                    a,
                    h,
                    refl,
                    titled,
                    maximum max_points allowed,
                    kept a.id max_points input.roster c,
                  ) in
                  simp c
                    (elim (Bool-cases
                      (text_eq title a.title && same_points max_points (some a.max_points))) [
                        | inl t ↦ simp t tt
                        | inr t ↦ simp t (action, tt)
                      ])
            ])
      ]

  edit_target-AreAllowed :
      (cell value : Text) (o : Option Target)
      → Holds (IsTarget u (HasPoints u input) (λ s. IsIn s input.roster)) o
      → (AreAllowed u input) (edit_target u input cell value o)
  unfolding edit_target
  edit_target-AreAllowed cell value none h = tt
  edit_target-AreAllowed cell value (some (identity address)) h = tt
  edit_target-AreAllowed cell value (some (assignment_header address a)) h =
      let parsed = parse_assignment_header u (some (str value)) in
      edit_header-AreAllowed address a (kept_title u input a parsed.0)
        (or_points parsed.1 a.max_points) h.0
  edit_target-AreAllowed cell value (some (grade address a s)) h =
      edit_grade-AreAllowed address a s value h.0 h.1
  edit_target-AreAllowed cell value (some (custom address)) (c, read, same, far) =
      ((c, read, same, far, refl), tt)

  pub edited-AreAllowed :
      (o : Option (Text × Text))
      → All (HasPoints u input) input.assignments
      → Holds (AreAllowed u input) (edited u input o)
  edited-AreAllowed none h = tt
  edited-AreAllowed (some (cell, value)) h = edit_target-AreAllowed cell value _ (
      resolve-IsTarget u (HasPoints u input) (λ s. IsIn s input.roster) cell input.roster
        input.assignments input.workbook h (All-IsIn input.roster))
