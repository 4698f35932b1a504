-- ===== src/Gradebook/Allowed/Intent.antt =====
-- What is proposed for any request.
use the_cinder_project.Base.{Option, none, some, List, [], ◌∷◌, All}
use the_cinder_project.Gradebook.Sheet.{Unicode}
use the_cinder_project.Gradebook.Edit.{IntentInput, GradebookIntent, parse_cell_edit}
use the_cinder_project.Gradebook.Resolve.{resolve_cell_edit}
use the_cinder_project.Gradebook.Bulk.{resolve_bulk_grades, or_bulk, resolve_gradebook_intent}
use the_cinder_project.Gradebook.Points.{IsPoints}
use the_cinder_project.Gradebook.Members.{IsIn, All-IsIn, Holds}
use the_cinder_project.Gradebook.Allowed.{AreAllowed, HasPoints}
use the_cinder_project.Gradebook.Allowed.Single.{edited-AreAllowed}
use the_cinder_project.Gradebook.Allowed.Bulk.{resolve_bulk_grades-AreAllowed}

All-both :
    {A : Type 0}
    → (P Q : A → Type 0) → (xs : List A) → All P xs
    → All Q xs
    → All (λ x. P x × Q x) xs
All-both P Q [] h k = tt
All-both P Q (x ∷ xs) h k = ((h.0, k.0), All-both P Q xs h.1 k.1)

module _ (u : Unicode) (input : IntentInput) where
  or_bulk-AreAllowed :
      (o bulk : Option GradebookIntent)
      → Holds (AreAllowed u input) o
      → Holds (AreAllowed u input) bulk
      → Holds (AreAllowed u input) (or_bulk u o bulk)
  or_bulk-AreAllowed none bulk h k = k
  or_bulk-AreAllowed (some intent) bulk h k = h

-- Where the points of every assignment are not negative and have at most two decimal places, what the
-- assistant proposes for a request is allowed: a grade is for work that a student of the classroom
-- handed in, of an assignment of the classroom, and lies between 0 and its points; an assignment keeps a
-- title that is not empty and points above 0, at most 10,000 and not below a grade that was given; and
-- any other value is for a cell whose address is that of a column beyond the two that name the
-- students. No column is added.
pub resolve_gradebook_intent-AreAllowed :
    (u : Unicode) (input : IntentInput)
    → All (λ a. IsPoints a.max_points) input.assignments
    → Holds (AreAllowed u input) (resolve_gradebook_intent u input)
unfolding resolve_gradebook_intent resolve_cell_edit
resolve_gradebook_intent-AreAllowed u input h =
    let points : All (HasPoints u input) input.assignments =
      All-both (λ a. IsIn a input.assignments) (λ a. IsPoints a.max_points) input.assignments
        (All-IsIn input.assignments) h in
    or_bulk-AreAllowed u input (resolve_cell_edit u input) (resolve_bulk_grades u input)
      (edited-AreAllowed u input (parse_cell_edit u input.prompt) points)
      (resolve_bulk_grades-AreAllowed u input points)
