-- ===== src/Gradebook/Allowed/Bulk.antt =====
-- The grading of several assignments proposes what is allowed.
use the_cinder_project.Base.{
  ℕ, Bool, true, false, not, ◌&&◌, ◌||◌, Option, none, some, List, [], ◌∷◌, keep, length, All, ◌≡◌,
  refl, arith, Bool-cases, inl, inr,
}
use the_cinder_project.Base.Number.{Number, from_nat, is_finite, less, is_below_zero}
use the_cinder_project.Model.{User}
use the_cinder_project.Gradebook.Sheet.{Assignment, Unicode, normalize_words}
use the_cinder_project.Base.Regex.{exact, test}
use the_cinder_project.Gradebook.Edit.{IntentInput, full_marks}
use the_cinder_project.Gradebook.Resolve.{has_submission}
use the_cinder_project.Gradebook.Bulk.{
  Score, read_score, submitted_of, as_full_marks, bulk_points, bulk_actions, out_of_range,
  exceeds_some, bulk_intent, scored, grades_pattern, all_pattern, whole_word, mentioned,
  find_mentioned_students, resolve_bulk_grades,
}
use the_cinder_project.Gradebook.Points.{IsPoints, IsWithin, percentage-IsWithin, full-IsWithin}
use the_cinder_project.Gradebook.Members.{IsIn, All-IsIn, Holds, find_mentioned_students-All}
use the_cinder_project.Gradebook.Allowed.{IsAllowed, AreAllowed, HasPoints}

module _ (u : Unicode) (input : IntentInput) where
  -- The work handed in by a student, with its points
  abbrev IsHandedIn : User → Assignment → Type 0
  IsHandedIn s a = (HasPoints u input) a × (has_submission (input.submission_for s.id a.id) ≡ true)

  handed_in :
      (s : User) (xs : List Assignment)
      → All (HasPoints u input) xs
      → All
          (IsHandedIn s)
          (keep (λ (a : Assignment). has_submission (input.submission_for s.id a.id)) xs)
  handed_in s [] h = tt
  handed_in s (a ∷ xs) h = elim (Bool-cases (has_submission (input.submission_for s.id a.id))) [
    | inl e ↦ simp e ((h.0, refl), handed_in s xs h.1)
    | inr e ↦ simp e (handed_in s xs h.1)
  ]

  bulk_points-IsWithin :
      (full : Bool) (score : Score) (max_points : Number)
      → IsPoints max_points
      → out_of_range u score ≡ false
      → (not full && not score.percent && less max_points score.amount) ≡ false
      → IsWithin max_points (bulk_points full score max_points)
  unfolding bulk_points
  bulk_points-IsWithin true score max_points h e k = full-IsWithin max_points h
  bulk_points-IsWithin false score max_points h e k =
      let below : is_below_zero score.amount ≡ false = ground arith in
      let fin : is_finite score.amount ≡ true = ground arith in
      elim (Bool-cases score.percent) [
        | inl q ↦
            let most : less (from_nat 100) score.amount ≡ false = ground arith in
            simp q (percentage-IsWithin max_points score.amount h below fin most)
        | inr q ↦
            let most : less max_points score.amount ≡ false = ground arith in simp q (below, most)
      ]

  bulk_actions-All :
      (full : Bool) (score : Score) (s : User) (xs : List Assignment)
      → IsIn s input.roster
      → All (IsHandedIn s) xs
      → out_of_range u score ≡ false
      → exceeds_some u full score xs ≡ false
      → All (IsAllowed u input) (bulk_actions full score s xs)
  unfolding bulk_actions
  bulk_actions-All full score s [] hs h e k = tt
  bulk_actions-All full score s (a ∷ xs) hs h e k =
      let most : (not full && not score.percent && less a.max_points score.amount) ≡ false =
        ground arith in
      let rest : exceeds_some u full score xs ≡ false = ground arith in
      (
        (
          s,
          a,
          hs,
          h.0.0.0,
          refl,
          refl,
          h.0.1,
          bulk_points-IsWithin full score a.max_points h.0.0.1 e most,
        ),
        bulk_actions-All full score s xs hs h.1 e rest,
      )

  bulk_intent-AreAllowed :
      (full : Bool) (score : Score) (s : User) (total : ℕ) (xs : List Assignment)
      → IsIn s input.roster
      → All (IsHandedIn s) xs
      → (AreAllowed u input) (bulk_intent u full score s total xs)
  unfolding bulk_intent
  bulk_intent-AreAllowed full score s total [] hs h = tt
  bulk_intent-AreAllowed full score s total (a ∷ more) hs h =
      let as_full = as_full_marks full score (a ∷ more) in
      elim (Bool-cases (out_of_range u score)) [
        | inl e ↦ simp e tt
        | inr e ↦ simp e (elim (Bool-cases (exceeds_some u as_full score (a ∷ more))) [
          | inl k ↦ simp k tt
          | inr k ↦ let all = bulk_actions-All as_full score s (a ∷ more) hs h e k in simp k all
        ])
      ]

  scored-AreAllowed :
      (full : Bool) (s : User) (o : Option Score)
      → IsIn s input.roster
      → All (HasPoints u input) input.assignments
      → Holds (AreAllowed u input) (scored u input full s o)
  scored-AreAllowed full s none hs h = tt
  scored-AreAllowed full s (some score) hs h =
      bulk_intent-AreAllowed full score s (length input.assignments) (submitted_of input s) hs
        (handed_in s input.assignments h)

  mentioned-AreAllowed :
      (full : Bool) (found : List User)
      → All (λ s. IsIn s input.roster) found
      → All (HasPoints u input) input.assignments
      → Holds (AreAllowed u input) (mentioned u input full found)
  mentioned-AreAllowed full [] hs h = tt
  mentioned-AreAllowed full (s ∷ []) hs h =
      scored-AreAllowed full s (read_score u input.prompt full) hs.0 h
  mentioned-AreAllowed full (s ∷ (t ∷ more)) hs h = tt

  pub resolve_bulk_grades-AreAllowed :
      All (HasPoints u input) input.assignments
      → Holds (AreAllowed u input) (resolve_bulk_grades u input)
  unfolding resolve_bulk_grades
  resolve_bulk_grades-AreAllowed h =
      let normalized = normalize_words u input.prompt in
      let full = test (whole_word (full_marks exact)) normalized in
      elim (Bool-cases
        (not (test grades_pattern normalized) || (not (test all_pattern normalized) && not full))) [
          | inl e ↦ simp e tt
          | inr e ↦
              let all =
                find_mentioned_students-All u (λ s. IsIn s input.roster) input.prompt input.roster
                  (All-IsIn input.roster) in
              let allowed =
                mentioned-AreAllowed full (find_mentioned_students u input.prompt input.roster) all
                  h in
              simp e allowed
        ]
