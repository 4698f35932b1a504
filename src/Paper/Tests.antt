-- ===== src/Paper/Tests.antt =====
-- Question papers at concrete inputs.
use the_cinder_project.Base.{
  ℕ, true, if◌then◌else◌, text_eq, length, Option, none, List, [], ◌∷◌, Text, codes, is_space, any,
  ◌≡◌, refl,
}
use the_cinder_project.Base.Number.{Number, nan, from_nat}
use the_cinder_project.Base.Json.{Json, null, num, str, obj, nil, cons, end, field, arr, items}
use the_cinder_project.Paper.{PaperScheme, empty_scheme, PaperQuestion, GeneratedPaper, cbse}
use the_cinder_project.Paper.Clean.{clean_text}
use the_cinder_project.Paper.Parse.{
  Result, paper, error, Parsed, value, syntax_error, normalize_generated_paper,
  repair_common_json_issues,
}
use the_cinder_project.Paper.Recover.{parse_generated_paper_response}
use the_cinder_project.Paper.Bounded.{ResultFits}
use the_cinder_project.Paper.Response.{
  usable, is_paper, is_paper-normalize_generated_paper, parse_generated_paper_response-ResultFits,
}
use the_cinder_project.Paper.Print.{
  PaperMetadata, question_paper_text, ranges_of, sorted_pages, compact_page_ranges,
}
use the_cinder_project.Paper.Secret.{other_answers, question_paper_text-other_answers}
use the_cinder_project.Paper.Pages.{has, expand, IsRising, IsSplit, expand-compact}

clean_text_test : clean_text (codes "```json\n## A **b** [working_space]c__d\n```") ≡ codes "A b cd"
unfolding clean_text
clean_text_test = refl

repair_test :
    repair_common_json_issues (codes "{\"a\":\"b\nc\\d\", ]") ≡ codes "{\"a\":\"b\\nc\\\\d\"]"
unfolding repair_common_json_issues is_space
repair_test = refl

compact_test : compact_page_ranges (3 ∷ 1 ∷ 12 ∷ 2 ∷ 3 ∷ []) ≡ codes "pp. 1-3, 12"
unfolding compact_page_ranges
compact_test = refl

abbrev to_number : Option Json → Number
to_number v = nan

abbrev asked : Json
asked =
    obj (field (codes "prompt") (str (codes "Why?")) (field (codes "marks") (num (from_nat 7)) end))

-- The text does not parse as it stands, and each question that is found in it does.
abbrev whole_text : Text
whole_text = codes "{\"questions\": [{}]"

abbrev parse_questions : Text → Parsed
parse_questions text =
    if text_eq text (codes "{}")
    then value asked
    else syntax_error (codes "Unexpected end of JSON input")

abbrev count_questions : Result → ℕ
count_questions (paper p) = length p.questions
count_questions (error _) = 0

recovered_test :
    count_questions (parse_generated_paper_response parse_questions to_number whole_text) ≡ 1
unfolding parse_generated_paper_response
recovered_test = refl

parse_generated_paper_response-ResultFits_example :
    ResultFits (parse_generated_paper_response parse_questions to_number whole_text)
parse_generated_paper_response-ResultFits_example =
    parse_generated_paper_response-ResultFits parse_questions to_number whole_text

is_paper-normalize_generated_paper_example :
    is_paper (normalize_generated_paper to_number (arr (cons null (cons asked nil))))
    ≡ any usable (null ∷ asked ∷ [])
unfolding items
is_paper-normalize_generated_paper_example =
    is_paper-normalize_generated_paper to_number (cons null (cons asked nil))

abbrev exam : PaperQuestion
exam = record {
  id = codes "q1";
  prompt = codes "Why?";
  marks = 7;
  answer = codes "Because.";
  working_lines = 2;
  subparts = [];
  diagram = none;
  source = codes "2019";
  scheme = empty_scheme;
}

abbrev sheet : GeneratedPaper
sheet = record { instructions = []; questions = exam ∷ [] }

abbrev about : PaperMetadata
about = record {
  title = codes "Mock";
  subject = codes "Physics";
  board = cbse;
  syllabus_code = [];
  year = codes "2024";
  session = [];
  paper_variant = [];
  duration_minutes = 60;
  sources = [];
}

abbrev no_answer : Text → Text
no_answer t = []

abbrev no_scheme : Text → PaperScheme
no_scheme t = empty_scheme

question_paper_text-other_answers_example :
    question_paper_text about (other_answers no_answer no_scheme sheet)
    ≡ question_paper_text about sheet
question_paper_text-other_answers_example =
    question_paper_text-other_answers no_answer no_scheme about sheet

abbrev pages : List ℕ
pages = 3 ∷ 1 ∷ 12 ∷ 2 ∷ 3 ∷ []

expand-compact_example :
    (has 2 (expand (ranges_of (sorted_pages pages))) ≡ true)
    × IsRising (expand (ranges_of (sorted_pages pages)))
    × IsSplit 0 (ranges_of (sorted_pages pages))
expand-compact_example = expand-compact pages 2
