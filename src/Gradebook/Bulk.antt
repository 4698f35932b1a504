-- ===== src/Gradebook/Bulk.antt =====
-- A request for several grades at once: `findMentionedStudents` and `resolveBulkGrades`, and
-- `resolveGradebookIntent`, which tries it where no single cell is meant.
use the_cinder_project.Base.{
  ℕ, zero, suc, ◌-◌, Bool, true, false, not, ◌&&◌, ◌||◌, Option, none, some, List, [], ◌∷◌, ◌++◌,
  map, Text, codes, text_eq, truthy, trim, length, keep, any, ltb, ◌==◌, if◌then◌else◌,
}
use the_cinder_project.Base.Number.{Number, from_nat, is_finite, equals, less, is_below_zero}
use the_cinder_project.Base.Decimal.{decimal}
use the_cinder_project.Base.Dict.{Dict, insert}
use the_cinder_project.Base.Regex.{
  Regex, one, then_, or_, empty, many, group, start, end_, boundary, maybe, space, word, exact,
  any_of, exec, test, group_of,
}
use the_cinder_project.Model.{User}
use the_cinder_project.Gradebook.Sheet.{Assignment, Unicode, number_of, text_at, normalize_words}
use the_cinder_project.Gradebook.Edit.{
  IntentInput, GradebookAction, set_grade, GradebookIntent, only, spaces, signed, full_marks, unit,
  percentage,
}
use the_cinder_project.Gradebook.Resolve.{has_submission, resolve_cell_edit}

-- `/(?:^| )label(?: |$)/i`, with the label escaped
abbrev pub same_letters : (ℕ → ℕ → Bool) → Text → Regex
same_letters same [] = empty
same_letters same (k ∷ ks) = then_ (one (λ c. same c k)) (same_letters same ks)

abbrev pub blank : Regex
blank = one (λ c. c == b' ')

abbrev pub mention_pattern : (ℕ → ℕ → Bool) → Text → Regex
mention_pattern same label =
    then_ (or_ start blank) (then_ (same_letters same label) (or_ blank end_))

abbrev pub Mention : Type 0
Mention = User × Text

-- The longest label first; labels of one length keep their order.
unfoldable pub insert_mention : Mention → List Mention → List Mention
insert_mention m [] = m ∷ []
insert_mention m (n ∷ ns) =
    if ltb (length m.1) (length n.1) then n ∷ insert_mention m ns else m ∷ (n ∷ ns)

unfoldable pub sort_mentions : List Mention → List Mention
unfolding insert_mention
sort_mentions [] = []
sort_mentions (m ∷ ms) = insert_mention m (sort_mentions ms)

-- `new Map(…)` by the ids, and its values
unfoldable pub by_id : Dict User → List Mention → Dict User
unfolding insert
by_id d [] = d
by_id d ((s, _) ∷ ms) = by_id (insert s.id s d) ms

abbrev pub values_of : Dict User → List User
values_of d = map (λ (e : Text × User). e.1) d

module _ (u : Unicode) where
  unfoldable pub labels_of : User → List Mention
  unfolding normalize_words
  labels_of s = (s, normalize_words u s.display_name) ∷ ((s, normalize_words u s.username) ∷ [])

  unfoldable pub mentions_of : List User → List Mention
  unfolding labels_of normalize_words
  mentions_of [] = []
  mentions_of (s ∷ ss) = labels_of s ++ mentions_of ss

  unfoldable pub is_mentioned : Text → Mention → Bool
  unfolding test
  is_mentioned prompt (_, label) = truthy label && test (mention_pattern u.same_letter label) prompt

  unfoldable pub find_mentioned_students : Text → List User → List User
  unfolding normalize_words mentions_of is_mentioned sort_mentions by_id
  find_mentioned_students prompt roster =
      let padded = codes " " ++ (normalize_words u prompt ++ codes " ") in
      values_of (by_id [] (sort_mentions (keep (is_mentioned padded) (mentions_of roster))))

-- A word of the language of requests, as a whole
abbrev pub whole_word : Regex → Regex
whole_word r = then_ boundary (then_ r boundary)

abbrev pub grades_pattern : Regex
grades_pattern = whole_word (
    any_of (
      then_ (exact "grade") (maybe (exact "s"))
      ∷ then_ (exact "score") (maybe (exact "s"))
      ∷ then_ (exact "assignment") (maybe (exact "s"))
      ∷ []))

abbrev pub all_pattern : Regex
all_pattern = whole_word (any_of (exact "all" ∷ exact "every" ∷ exact "everything" ∷ []))

abbrev pub amount_pattern : Regex
amount_pattern = then_ (group 1 signed) (then_ (many space) (maybe (group 2 unit)))

abbrev pub led_pattern : Regex
led_pattern = then_ boundary (
    then_
      (any_of (
        then_ (word "to") (maybe (then_ spaces (word "be")))
        ∷ word "at"
        ∷ word "with"
        ∷ word "as"
        ∷ []))
      (then_ spaces amount_pattern))

abbrev pub last_pattern : Regex
last_pattern =
    then_ amount_pattern
      (then_ (many space) (then_ (maybe (one (λ c. c == b'.' || c == b'!'))) end_))

-- What is asked for: the amount, whether it is a percentage, and whether it was given as a number.
pub record Score : Type 0 where
  pub amount : Number
  pub percent : Bool
  pub given : Bool

abbrev pub or_match : Option (List (ℕ × Text)) → Option (List (ℕ × Text)) → Option (List (ℕ × Text))
or_match none o = o
or_match (some g) o = some g

-- `unit === "%" || unit === "percent"`
unfoldable pub is_percent_unit : Unicode → Option Text → Bool
unfolding text_eq
is_percent_unit u none = false
is_percent_unit u (some t) =
    let unit_text = u.to_locale_lower_case t in
    text_eq unit_text (codes "%") || text_eq unit_text (codes "percent")

module _ (u : Unicode) where
  -- 100 where no number is given, as with full marks.
  unfoldable pub score_of : Option (List (ℕ × Text)) → Bool → Option Score
  unfolding number_of text_at group_of is_percent_unit
  score_of none false = none
  score_of none true = some (record { amount = from_nat 100; percent = false; given = false })
  score_of (some groups) full = some (record {
    amount = number_of (text_at 1 groups);
    percent = is_percent_unit u (group_of 2 groups);
    given = true;
  })

  unfoldable pub read_score : Text → Bool → Option Score
  unfolding score_of exec trim
  read_score prompt full =
      score_of (or_match (exec led_pattern prompt) (exec last_pattern (trim prompt))) full

module _ (input : IntentInput) where
  abbrev pub submitted_of : User → List Assignment
  submitted_of s =
      keep (λ (a : Assignment). has_submission (input.submission_for s.id a.id)) input.assignments

-- `interpretedAsFullMarks`
abbrev pub as_full_marks : Bool → Score → List Assignment → Bool
as_full_marks full score submitted =
    full
    || (not score.percent
        && equals score.amount 100
        && any (λ (a : Assignment). less a.max_points score.amount) submitted)

-- The points for one assignment
unfoldable pub bulk_points : Bool → Score → Number → Number
unfolding percentage
bulk_points as_full score max_points =
    if as_full
    then max_points
    else if score.percent
    then percentage max_points score.amount
    else score.amount

unfoldable pub bulk_actions : Bool → Score → User → List Assignment → List GradebookAction
unfolding bulk_points
bulk_actions as_full score s [] = []
bulk_actions as_full score s (a ∷ more) =
    set_grade s.id a.id (bulk_points as_full score a.max_points) ∷ bulk_actions as_full score s more

-- `Math.min(…)`
unfoldable pub smallest : Number → List Assignment → Number
smallest n [] = n
smallest n (a ∷ more) = smallest (if less a.max_points n then a.max_points else n) more

unfoldable pub smallest_of : List Assignment → Number
unfolding smallest
smallest_of [] = from_nat 0
smallest_of (a ∷ more) = smallest a.max_points more

module _ (u : Unicode) where
  abbrev pub interpretation : Bool → Bool → Score → Text
  interpretation full true score =
      if score.given && not full
      then codes "I interpreted “"
        ++ (u.show_number score.amount
            ++ codes
                " points for every grade” as 100% because these assignments have different maximums.")
      else codes "I interpreted the request as full marks on each assignment."
  interpretation full false score =
      if score.percent
      then codes "I converted "
        ++ (u.show_number score.amount ++ codes "% to each assignment’s point scale.")
      else codes "I used " ++ (u.show_number score.amount ++ codes " points for each assignment.")

  abbrev pub skipped_note : ℕ → Text
  skipped_note zero = []
  skipped_note (suc n) =
      codes " Skipped " ++ (decimal (suc n) ++ codes " assignment(s) without a submission.")

  abbrev pub out_of_range : Score → Bool
  out_of_range score =
      not (is_finite score.amount)
      || is_below_zero score.amount
      || (score.percent && less (from_nat 100) score.amount)

  abbrev pub exceeds_some : Bool → Score → List Assignment → Bool
  exceeds_some as_full score submitted =
      not as_full
      && not score.percent
      && any (λ (a : Assignment). less a.max_points score.amount) submitted

  -- From the work that was handed in, and the amount
  unfoldable pub bulk_intent : Bool → Score → User → ℕ → List Assignment → GradebookIntent
  unfolding bulk_actions smallest_of decimal
  bulk_intent full score s total [] =
      only (s.display_name ++ codes " has no submitted assignments that can be graded.")
  bulk_intent full score s total (a ∷ more) =
      let as_full = as_full_marks full score (a ∷ more) in
      if out_of_range score
      then only (codes "That score is outside the allowed range.")
      else if exceeds_some as_full score (a ∷ more)
      then only (
          codes "That request would exceed an assignment maximum of "
          ++ (u.show_number (smallest_of (a ∷ more))
              ++ codes ". Use a percentage or say “full marks” instead."))
      else record {
        message =
            interpretation full as_full score
            ++ (codes " Prepared "
                ++ (decimal (length (a ∷ more))
                    ++ (codes " submitted grade(s) for "
                        ++ (s.display_name
                            ++ (codes "." ++ skipped_note (total - length (a ∷ more)))))));
        actions = bulk_actions as_full score s (a ∷ more);
      }

  abbrev pub scored : IntentInput → Bool → User → Option Score → Option GradebookIntent
  scored input full s none = none
  scored input full s (some score) =
      some (bulk_intent full score s (length input.assignments) (submitted_of input s))

  abbrev pub mentioned : IntentInput → Bool → List User → Option GradebookIntent
  mentioned input full [] = some (
      only (
        codes
          "I recognized a request to change several grades, but I could not match the student name or username to this classroom."))
  mentioned input full (s ∷ []) = scored input full s (read_score u input.prompt full)
  mentioned input full (_ ∷ (_ ∷ _)) = some (
      only (
        codes
          "I recognized a bulk-grade request, but it mentions more than one student. Please make one reviewed request per student."))

  unfoldable pub resolve_bulk_grades : IntentInput → Option GradebookIntent
  unfolding normalize_words test find_mentioned_students read_score bulk_intent
  resolve_bulk_grades input =
      let normalized = normalize_words u input.prompt in
      let full = test (whole_word (full_marks exact)) normalized in
      if not (test grades_pattern normalized) || (not (test all_pattern normalized) && not full)
      then none
      else mentioned input full (find_mentioned_students u input.prompt input.roster)

  abbrev pub or_bulk : Option GradebookIntent → Option GradebookIntent → Option GradebookIntent
  or_bulk none bulk = bulk
  or_bulk (some intent) bulk = some intent

  unfoldable pub resolve_gradebook_intent : IntentInput → Option GradebookIntent
  unfolding resolve_cell_edit resolve_bulk_grades
  resolve_gradebook_intent input = or_bulk (resolve_cell_edit u input) (resolve_bulk_grades input)
