-- ===== src/Paper/Response.antt =====
-- What the teacher app gets from an AI response.
use the_cinder_project.Base.{
  ℕ, ◌+◌, Bool, true, false, ◌||◌, Option, none, some, List, [], ◌∷◌, ◌++◌, Text, truthy, take,
  length-take, any, ◌≡◌, refl, arith, codes, text_eq, ◌∙◌, Bool-cases, inl, inr,
}
use the_cinder_project.Base.Number.{Number}
use the_cinder_project.Base.Json.{
  Json, null, bool, num, str, arr, obj, Fields, Items, nil, cons, end, field, read_field, items,
}
use the_cinder_project.Paper.{PaperSubpart, PaperQuestion}
use the_cinder_project.Paper.Normalize.{
  or_nullish, elements, cleaned, question, questions_from, question_of, clean_list,
  normalize_subparts, question_marks,
}
use the_cinder_project.Paper.Parse.{
  Result, paper, error, Parsed, value, syntax_error, built, normalize_candidate, candidate_of,
  nested_paper, normalize_generated_paper, extract_json_object, repair_common_json_issues,
}
use the_cinder_project.Paper.Recover.{
  read_fragments, recovered, recover_from, recover_complete_questions, after_questions, fragments,
  scan_start, or_malformed, repaired_or, failing, first_attempt, attempt, names_response,
  parse_generated_paper_response,
}
use the_cinder_project.Paper.Bounds.{clean_list-length}
use the_cinder_project.Paper.Bounded.{ResultFits, built-fits, questions_from-fits}

-- A question with a prompt that is not empty once it is cleaned.
abbrev pub usable : Json → Bool
usable (obj fields) = truthy (
    cleaned (or_nullish (read_field (codes "prompt") fields) (read_field (codes "question") fields))
      8000)
usable _ = false

abbrev pub is_paper : Result → Bool
is_paper (paper _) = true
is_paper (error _) = false

abbrev some_of : List PaperQuestion → Bool
some_of [] = false
some_of (_ ∷ _) = true

some_of-append : (xs ys : List PaperQuestion) → some_of (xs ++ ys) ≡ (some_of xs || some_of ys)
some_of-append [] ys = refl
some_of-append (x ∷ xs) ys = refl

is_paper-built : (is : List Text) (qs : List PaperQuestion) → is_paper (built is qs) ≡ some_of qs
is_paper-built is [] = refl
is_paper-built is (q ∷ qs) = refl

module _ (to_number : Option Json → Number) where
  some_of-question_of :
      (prompt : Text) (index : ℕ) (fields : Fields) (ps : List PaperSubpart) (marks : ℕ)
      → some_of (question_of to_number prompt index fields ps marks) ≡ truthy prompt
  some_of-question_of [] index fields ps marks = refl
  some_of-question_of (c ∷ prompt) index fields ps marks = refl

  some_of-question : (index : ℕ) (j : Json) → some_of (question to_number index j) ≡ usable j
  unfolding question
  some_of-question index (obj fields) =
      let ps = normalize_subparts to_number (
        elements (
          or_nullish (read_field (codes "subparts") fields) (read_field (codes "parts") fields))) in
      some_of-question_of
        (cleaned
          (or_nullish (read_field (codes "prompt") fields) (read_field (codes "question") fields))
          8000)
        index fields ps (question_marks to_number ps (read_field (codes "marks") fields))
  some_of-question index null = refl
  some_of-question index (bool b) = refl
  some_of-question index (num n) = refl
  some_of-question index (str t) = refl
  some_of-question index (arr js) = refl

  some_of-questions_from :
      (index : ℕ) (js : List Json) → some_of (questions_from to_number index js) ≡ any usable js
  unfolding questions_from
  some_of-questions_from index [] = refl
  some_of-questions_from index (j ∷ js) =
      simp (some_of-append, some_of-question index j, some_of-questions_from (index + 1) js) refl

  candidate-fits :
      (candidate : Fields) (o : Option (List Json))
      → ResultFits (normalize_candidate to_number candidate o)
  unfolding normalize_candidate
  candidate-fits candidate none = tt
  candidate-fits candidate (some js) =
      let (a, b) = questions_from-fits to_number 0 (take 50 js) in
      built-fits (clean_list 12 1000 (elements (read_field (codes "instructions") candidate)))
        (questions_from to_number 0 (take 50 js))
        (clean_list-length 12 1000 (elements (read_field (codes "instructions") candidate)))
        (omega (arith, length-take {0} 50 js)) b

  normalize-fits : (j : Json) → ResultFits (normalize_generated_paper to_number j)
  unfolding normalize_generated_paper
  normalize-fits (arr js) =
      let root = field (codes "questions") (arr js) end in
      let c = candidate_of (nested_paper root) root in
      candidate-fits c (elements (read_field (codes "questions") c))
  normalize-fits (obj root) =
      let c = candidate_of (nested_paper root) root in
      candidate-fits c (elements (read_field (codes "questions") c))
  normalize-fits null = tt
  normalize-fits (bool b) = tt
  normalize-fits (num n) = tt
  normalize-fits (str t) = tt

  -- A list of questions, as the value itself, becomes a paper exactly if one of the first fifty is an
  -- object whose prompt is not empty once it is cleaned; otherwise it is an error.
  pub is_paper-normalize_generated_paper :
      (js : Items)
      → is_paper (normalize_generated_paper to_number (arr js)) ≡ any usable (take 50 (items js))
  unfolding normalize_generated_paper normalize_candidate elements read_field text_eq
  is_paper-normalize_generated_paper js =
      is_paper-built _ (questions_from to_number 0 (take 50 (items js)))
      ∙ some_of-questions_from 0 (take 50 (items js))

module _ (parse : Text → Parsed) (to_number : Option Json → Number) where
  abbrev OptionFits : Option Result → Type 0
  OptionFits none = Unit
  OptionFits (some r) = ResultFits r

  recovered-fits : (is : Items) → OptionFits (recovered parse to_number is)
  recovered-fits nil = tt
  recovered-fits (cons j js) = normalize-fits to_number (
      obj
        (field (codes "instructions") (arr nil) (field (codes "questions") (arr (cons j js)) end)))

  recover_from-fits : (o : Option Text) → OptionFits (recover_from parse to_number o)
  recover_from-fits none = tt
  recover_from-fits (some s) =
      recovered-fits (read_fragments parse to_number (fragments scan_start s))

  recover-fits : (text : Text) → OptionFits (recover_complete_questions parse to_number text)
  unfolding recover_complete_questions
  recover-fits text = recover_from-fits (after_questions text)

  or_malformed-fits :
      (o : Option Result) → OptionFits o → ResultFits (or_malformed parse to_number o)
  or_malformed-fits none h = tt
  or_malformed-fits (some r) h = h

  repaired-fits :
      (r : Result) (text : Text)
      → ResultFits r
      → ResultFits (elim r [
        | paper p ↦ paper p
        | error _ ↦ or_malformed parse to_number (recover_complete_questions parse to_number text)
      ])
  repaired-fits (paper p) text h = h
  repaired-fits (error m) text h =
      or_malformed-fits (recover_complete_questions parse to_number text) (recover-fits text)

  repaired_or-fits : (p : Parsed) (text : Text) → ResultFits (repaired_or parse to_number p text)
  repaired_or-fits (syntax_error m) text =
      or_malformed-fits (recover_complete_questions parse to_number text) (recover-fits text)
  repaired_or-fits (value j) text =
      repaired-fits (normalize_generated_paper to_number j) text (normalize-fits to_number j)

  failing-fits : (message json text : Text) → ResultFits (failing parse to_number message json text)
  failing-fits message json text = elim (Bool-cases (names_response message)) [
    | inl e ↦ simp e tt
    | inr e ↦ simp e (repaired_or-fits (parse (repair_common_json_issues json)) text)
  ]

  attempted-fits :
      (r : Result) (json text : Text)
      → ResultFits r
      → ResultFits
          (elim r [ paper p ↦ paper p | error message ↦ failing parse to_number message json text ])
  attempted-fits (paper p) json text h = h
  attempted-fits (error m) json text h = failing-fits m json text

  first_attempt-fits :
      (p : Parsed) (json text : Text) → ResultFits (first_attempt parse to_number p json text)
  first_attempt-fits (syntax_error m) json text = failing-fits m json text
  first_attempt-fits (value j) json text =
      attempted-fits (normalize_generated_paper to_number j) json text (normalize-fits to_number j)

  attempt-fits : (o : Option Text) (text : Text) → ResultFits (attempt parse to_number o text)
  attempt-fits none text =
      or_malformed-fits (recover_complete_questions parse to_number text) (recover-fits text)
  attempt-fits (some json) text = first_attempt-fits (parse json) json text

  -- Whatever the AI answered, and by whichever of the attempts a paper came out of it: the paper has
  -- between one and fifty questions and at most twelve instructions; each question has an id and a
  -- prompt of at most 8,000 characters, at most twelve subparts of 1 to 50 marks, the marks of its
  -- subparts in total or, without any, 1 to 100, and at most fourteen lines; and no point of a marking
  -- scheme is worth more than the marks that there are, or than one.
  pub parse_generated_paper_response-ResultFits :
      (text : Text) → ResultFits (parse_generated_paper_response parse to_number text)
  unfolding parse_generated_paper_response
  parse_generated_paper_response-ResultFits text = attempt-fits (extract_json_object text) text
