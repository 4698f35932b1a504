-- ===== src/Paper/Bounded.antt =====
-- Every paper that the client takes over from an AI response keeps the bounds.
use the_cinder_project.Base.{
  ℕ, ◌+◌, ◌≤◌, true, Option, none, some, List, [], ◌∷◌, Text, truthy, take, or_text, length,
  length-take, length-append, All, All-append, ◌≡◌, refl, arith, codes,
}
use the_cinder_project.Base.Number.{Number}
use the_cinder_project.Base.Json.{Json, null, bool, num, str, arr, obj, Fields, read_field}
use the_cinder_project.Paper.{PaperSubpart, PaperQuestion, GeneratedPaper}
use the_cinder_project.Paper.Clean.{clean_model_text}
use the_cinder_project.Paper.Normalize.{
  or_nullish, elements, cleaned, numeric, subpart_of, subpart, subparts_from, normalize_subparts,
  usual_lines, question_of, question, questions_from, question_marks, safe_id, scheme_field,
}
use the_cinder_project.Paper.Parse.{Result, paper, error, built}
use the_cinder_project.Paper.Bounds.{
  SubpartFits, MarksFit, QuestionFits, numeric-bounds, normalize_scheme-fits,
}

or_text-truthy : (s t : Text) → truthy t ≡ true → truthy (or_text s t) ≡ true
or_text-truthy [] t h = h
or_text-truthy (c ∷ s) t h = refl

usual_lines-bound : (marks : ℕ) → usual_lines marks ≤ 14
usual_lines-bound marks = ground arith

module _ (to_number : Option Json → Number) where
  subpart_of-fits :
      (prompt : Text) (index : ℕ) (fields : Fields) (marks : ℕ)
      → 1 ≤ marks
      → marks ≤ 50
      → (length (subpart_of to_number prompt index fields marks) ≤ 1)
        × All SubpartFits (subpart_of to_number prompt index fields marks)
  subpart_of-fits [] index fields marks h k = (omega arith, tt)
  subpart_of-fits (c ∷ prompt) index fields marks h k = (
    omega arith,
    (
      record {
        prompted = refl;
        least = h;
        most = k;
        lines =
            (numeric-bounds to_number
              (or_nullish (read_field (codes "working_lines") fields)
                (read_field (codes "workingLines") fields))
              3 0 12 (omega arith) (omega arith)).1;
        scheme = normalize_scheme-fits to_number (scheme_field to_number fields) marks;
      },
      tt,
    ),
  )

  subpart-fits :
      (index : ℕ) (j : Json)
      → (length (subpart to_number index j) ≤ 1) × All SubpartFits (subpart to_number index j)
  unfolding subpart
  subpart-fits index (obj fields) =
      let b =
        numeric-bounds to_number (read_field (codes "marks") fields) 1 1 50 (omega arith)
          (omega arith) in
      subpart_of-fits
        (cleaned
          (or_nullish (read_field (codes "prompt") fields) (read_field (codes "question") fields))
          4000)
        index fields (numeric to_number (read_field (codes "marks") fields) 1 1 50) b.0 b.1
  subpart-fits index null = (omega arith, tt)
  subpart-fits index (bool b) = (omega arith, tt)
  subpart-fits index (num n) = (omega arith, tt)
  subpart-fits index (str t) = (omega arith, tt)
  subpart-fits index (arr js) = (omega arith, tt)

  subparts_from-fits :
      (index : ℕ) (js : List Json)
      → (length (subparts_from to_number index js) ≤ length js)
        × All SubpartFits (subparts_from to_number index js)
  unfolding subparts_from
  subparts_from-fits index [] = (omega arith, tt)
  subparts_from-fits index (j ∷ js) =
      let (a, b) = subpart-fits index j in
      let (c, d) = subparts_from-fits (index + 1) js in
      (
        omega (
          arith,
          length-append {0} (subpart to_number index j) (subparts_from to_number (index + 1) js),
        ),
        All-append SubpartFits (subpart to_number index j) (subparts_from to_number (index + 1) js)
            b d,
      )

  normalize_subparts-fits :
      (o : Option (List Json))
      → (length (normalize_subparts to_number o) ≤ 12)
        × All SubpartFits (normalize_subparts to_number o)
  normalize_subparts-fits none = (omega arith, tt)
  normalize_subparts-fits (some js) =
      let (a, b) = subparts_from-fits 0 (take 12 js) in (omega (arith, length-take {0} 12 js), b)

  question_marks-fit :
      (ps : List PaperSubpart) (v : Option Json) → MarksFit ps (question_marks to_number ps v)
  question_marks-fit [] v = numeric-bounds to_number v 1 1 100 (omega arith) (omega arith)
  question_marks-fit (p ∷ ps) v = refl

  question_of-fits :
      (prompt : Text) (index : ℕ) (fields : Fields) (ps : List PaperSubpart) (marks : ℕ)
      → length prompt ≤ 8000
      → length ps ≤ 12
      → All SubpartFits ps
      → MarksFit ps marks
      → (length (question_of to_number prompt index fields ps marks) ≤ 1)
        × All QuestionFits (question_of to_number prompt index fields ps marks)
  unfolding safe_id
  question_of-fits [] index fields ps marks short few fit marked = (omega arith, tt)
  question_of-fits (c ∷ prompt) index fields ps marks short few fit marked = (
    omega arith,
    (
      record {
        named =
            or_text-truthy
              (take 80 (clean_model_text (read_field (codes "id") fields) (safe_id index)))
              (safe_id index) refl;
        prompted = refl;
        short = short;
        few_subparts = few;
        subparts = fit;
        marked = marked;
        lines =
            (numeric-bounds to_number
              (or_nullish (read_field (codes "working_lines") fields)
                (read_field (codes "workingLines") fields))
              (usual_lines marks) 0 14 (omega arith) (usual_lines-bound marks)).1;
        scheme = normalize_scheme-fits to_number (scheme_field to_number fields) marks;
      },
      tt,
    ),
  )

  question-fits :
      (index : ℕ) (j : Json)
      → (length (question to_number index j) ≤ 1) × All QuestionFits (question to_number index j)
  unfolding question cleaned
  question-fits index (obj fields) =
      let o =
        elements
          (or_nullish (read_field (codes "subparts") fields) (read_field (codes "parts") fields)) in
      let (a, b) = normalize_subparts-fits o in
      question_of-fits
        (cleaned
          (or_nullish (read_field (codes "prompt") fields) (read_field (codes "question") fields))
          8000)
        index fields (normalize_subparts to_number o)
        (question_marks to_number (normalize_subparts to_number o)
          (read_field (codes "marks") fields))
        (length-take 8000 (
          clean_model_text
            (or_nullish (read_field (codes "prompt") fields) (read_field (codes "question") fields))
            []))
        a b
        (question_marks-fit (normalize_subparts to_number o) (read_field (codes "marks") fields))
  question-fits index null = (omega arith, tt)
  question-fits index (bool b) = (omega arith, tt)
  question-fits index (num n) = (omega arith, tt)
  question-fits index (str t) = (omega arith, tt)
  question-fits index (arr js) = (omega arith, tt)

  pub questions_from-fits :
      (index : ℕ) (js : List Json)
      → (length (questions_from to_number index js) ≤ length js)
        × All QuestionFits (questions_from to_number index js)
  unfolding questions_from
  questions_from-fits index [] = (omega arith, tt)
  questions_from-fits index (j ∷ js) =
      let (a, b) = question-fits index j in
      let (c, d) = questions_from-fits (index + 1) js in
      (
        omega (
          arith,
          length-append {0} (question to_number index j) (questions_from to_number (index + 1) js),
        ),
        All-append QuestionFits (question to_number index j)
            (questions_from to_number (index + 1) js) b d,
      )

-- At least one question and at most fifty, each within the bounds, and at most twelve instructions.
pub record PaperFits (p : GeneratedPaper) : Type 0 where
  pub some_question : 1 ≤ length p.questions
  pub few_questions : length p.questions ≤ 50
  pub questions : All QuestionFits p.questions
  pub few_instructions : length p.instructions ≤ 12

abbrev pub ResultFits : Result → Type 0
ResultFits (paper p) = PaperFits p
ResultFits (error _) = Unit

pub built-fits :
    (is : List Text) (qs : List PaperQuestion)
    → length is ≤ 12
    → length qs ≤ 50
    → All QuestionFits qs
    → ResultFits (built is qs)
built-fits is [] h k q = tt
built-fits is (x ∷ qs) h k q = record {
  some_question = omega arith;
  few_questions = k;
  questions = q;
  few_instructions = h;
}
