-- ===== src/Paper/Normalize.antt =====
-- `normalizeGeneratedPaper` of apps/teacher/src/paperLogic.ts with what it calls. `Number` of a value
-- that is no number is a parameter; a message stands for the error that the source throws.
use the_cinder_project.Base.{
  ℕ, ◌+◌, Bool, false, ◌&&◌, ◌||◌, Option, none, some, List, [], ◌∷◌, ◌++◌, map, Text, codes, trim,
  truthy, or_text, lower, take, keep, length, leb, ltb, ◌==◌, if◌then◌else◌, min, max,
}
use the_cinder_project.Base.Number.{Number, is_finite, round}
use the_cinder_project.Base.Decimal.{decimal}
use the_cinder_project.Base.Json.{Json, null, num, str, arr, obj, Fields, items, get, read_field}
use the_cinder_project.Paper.{
  PaperDiagram, PaperMarkingPoint, PaperScheme, empty_scheme, PaperSubpart, PaperQuestion,
}
use the_cinder_project.Paper.Clean.{clean_model_text, eat, or_eat, count_while}

-- `first ?? second`
abbrev pub or_nullish : Option Json → Option Json → Option Json
or_nullish none second = second
or_nullish (some null) second = second
or_nullish (some v) second = some v

abbrev pub read : Text → Option Json → Option Json
read k none = none
read k (some j) = get k j

unfoldable pub elements : Option Json → Option (List Json)
unfolding items
elements (some (arr js)) = some (items js)
elements _ = none

unfoldable pub cleaned : Option Json → ℕ → Text
unfolding clean_model_text
cleaned value limit = take limit (clean_model_text value [])

abbrev keep_texts : List Text → List Text
keep_texts ts = keep truthy ts

-- `map(cleanModelText and slice).filter(Boolean).slice(0, limit)`
unfoldable pub clean_list : ℕ → ℕ → Option (List Json) → List Text
unfolding cleaned
clean_list limit size none = []
clean_list limit size (some js) = take limit (keep_texts (map (λ j. cleaned (some j) size) js))

abbrev is_base64 : ℕ → Bool
is_base64 c =
    (leb b'a' (lower c) && leb (lower c) b'z')
    || (leb b'0' c && leb c b'9')
    || c == b'+'
    || c == b'/'

-- `[a-z0-9+/]+={0,2}` to the end of the text, behind the number of characters read.
base64_end : ℕ → Text → Bool
base64_end n [] = leb 1 n
base64_end n (c ∷ s) =
    let more = base64_end (n + 1) s in
    if is_base64 c
    then more
    else leb 1 n && c == b'=' && (leb (length s) 1 && count_while (λ d. d == b'=') s == length s)

abbrev ends_base64 : Option Text → Bool
ends_base64 none = false
ends_base64 (some s) = base64_end 0 s

unfoldable data_url : Text → Text
unfolding base64_end eat count_while
data_url url =
    if ends_base64 (
      or_eat (eat (codes "data:image/png;base64,") url) (eat (codes "data:image/jpeg;base64,") url))
    then url
    else []

unfoldable pub sanitize_diagram_image_data_url : Option Json → Text
unfolding data_url trim
sanitize_diagram_image_data_url (some (str value)) =
    if ltb 7000000 (length value) then [] else data_url (trim value)
sanitize_diagram_image_data_url _ = []

abbrev diagram_of : Text → Json → Option PaperDiagram
diagram_of [] candidate = none
diagram_of (c ∷ url) candidate = some (record {
  image_data_url = c ∷ url;
  caption = take 240 (clean_model_text (get (codes "caption") candidate) []);
  alt = take 240 (clean_model_text (get (codes "alt") candidate) (codes "Question diagram"));
})

unfoldable pub normalize_diagram : Option Json → Option PaperDiagram
unfolding sanitize_diagram_image_data_url clean_model_text read_field
normalize_diagram (some (obj fields)) =
    diagram_of
      (sanitize_diagram_image_data_url (
        or_nullish (read_field (codes "imageDataUrl") fields)
          (read_field (codes "image_data_url") fields)))
      (obj fields)
normalize_diagram _ = none

-- `question-<n>`
unfoldable pub safe_id : ℕ → Text
unfolding decimal
safe_id index = codes "question-" ++ decimal (index + 1)

abbrev pub point_of : Text → ℕ → List PaperMarkingPoint
point_of [] marks = []
point_of (c ∷ text) marks = record { text = c ∷ text; marks = marks } ∷ []

abbrev pub sum_marks : List PaperSubpart → ℕ
sum_marks [] = 0
sum_marks (p ∷ ps) = p.marks + sum_marks ps

abbrev pub usual_lines : ℕ → ℕ
usual_lines marks = if leb 5 marks then 6 else if leb 3 marks then 4 else 2

module _ (to_number : Option Json → Number) where
  abbrev pub parsed_number : Option Json → Number
  parsed_number (some (num n)) = n
  parsed_number value = to_number value

  unfoldable pub numeric : Option Json → ℕ → ℕ → ℕ → ℕ
  numeric value fallback minimum maximum =
      let parsed = parsed_number value in
      if is_finite parsed then max minimum (min maximum (round parsed)) else fallback

  unfoldable pub marking_point : ℕ → Json → List PaperMarkingPoint
  unfolding numeric cleaned read_field
  marking_point available (str item) = point_of (cleaned (some (str item)) 600) 1
  marking_point available (obj fields) =
      point_of
        (cleaned (or_nullish (read_field (codes "text") fields) (read_field (codes "point") fields))
          600)
        (numeric (read_field (codes "marks") fields) 1 0 (max 1 available))
  marking_point available _ = []

  unfoldable pub marking_points : ℕ → List Json → List PaperMarkingPoint
  unfolding marking_point
  marking_points available [] = []
  marking_points available (j ∷ js) = marking_point available j ++ marking_points available js

  abbrev pub points_of : ℕ → Option (List Json) → List PaperMarkingPoint
  points_of available none = []
  points_of available (some js) = marking_points available (take 20 js)

  unfoldable pub normalize_scheme : Option Json → ℕ → PaperScheme
  unfolding marking_points clean_list cleaned elements read_field
  normalize_scheme (some (obj fields)) available = record {
    marking_points = points_of available (
        elements (
          or_nullish (read_field (codes "marking_points") fields)
            (read_field (codes "markingPoints") fields)));
    accepted_alternatives = clean_list 20 400 (
        elements (
          or_nullish (read_field (codes "accepted_alternatives") fields)
            (read_field (codes "acceptedAlternatives") fields)));
    guidance =
        cleaned
          (or_nullish (read_field (codes "guidance") fields) (read_field (codes "notes") fields))
          2000;
  }
  normalize_scheme _ available = empty_scheme

  abbrev pub scheme_field : Fields → Option Json
  scheme_field fields = or_nullish (read_field (codes "scheme") fields) (
      or_nullish (read_field (codes "marking_scheme") fields)
        (read_field (codes "markingScheme") fields))

  abbrev pub subpart_of : Text → ℕ → Fields → ℕ → List PaperSubpart
  subpart_of [] index fields marks = []
  subpart_of (c ∷ prompt) index fields marks =
      record {
        label = take 5 (clean_model_text (read_field (codes "label") fields) ((97 + index) ∷ []));
        prompt = c ∷ prompt;
        marks = marks;
        answer = cleaned (read_field (codes "answer") fields) 8000;
        working_lines =
            numeric
              (or_nullish (read_field (codes "working_lines") fields)
                (read_field (codes "workingLines") fields))
              3 0 12;
        scheme = normalize_scheme (scheme_field fields) marks;
      }
      ∷ []

  unfoldable pub subpart : ℕ → Json → List PaperSubpart
  unfolding numeric normalize_scheme cleaned clean_model_text read_field
  subpart index (obj fields) =
      subpart_of
        (cleaned
          (or_nullish (read_field (codes "prompt") fields) (read_field (codes "question") fields))
          4000)
        index fields (numeric (read_field (codes "marks") fields) 1 1 50)
  subpart index _ = []

  unfoldable pub subparts_from : ℕ → List Json → List PaperSubpart
  unfolding subpart
  subparts_from index [] = []
  subparts_from index (j ∷ js) = subpart index j ++ subparts_from (index + 1) js

  abbrev pub normalize_subparts : Option (List Json) → List PaperSubpart
  normalize_subparts none = []
  normalize_subparts (some js) = subparts_from 0 (take 12 js)

  abbrev pub question_marks : List PaperSubpart → Option Json → ℕ
  question_marks [] value = numeric value 1 1 100
  question_marks (p ∷ ps) value = sum_marks (p ∷ ps)

  abbrev pub question_of : Text → ℕ → Fields → List PaperSubpart → ℕ → List PaperQuestion
  question_of [] index fields subparts marks = []
  question_of (c ∷ prompt) index fields subparts marks =
      record {
        id =
            or_text (take 80 (clean_model_text (read_field (codes "id") fields) (safe_id index)))
              (safe_id index);
        prompt = c ∷ prompt;
        marks = marks;
        answer = cleaned (read_field (codes "answer") fields) 12000;
        working_lines =
            numeric
              (or_nullish (read_field (codes "working_lines") fields)
                (read_field (codes "workingLines") fields))
              (usual_lines marks) 0 14;
        subparts = subparts;
        diagram = normalize_diagram (read_field (codes "diagram") fields);
        source = cleaned (read_field (codes "source") fields) 300;
        scheme = normalize_scheme (scheme_field fields) marks;
      }
      ∷ []

  unfoldable pub question : ℕ → Json → List PaperQuestion
  unfolding subparts_from numeric normalize_scheme normalize_diagram cleaned clean_model_text
      safe_id read_field elements
  question index (obj fields) =
      let subparts = normalize_subparts (
        elements (
          or_nullish (read_field (codes "subparts") fields) (read_field (codes "parts") fields))) in
      question_of
        (cleaned
          (or_nullish (read_field (codes "prompt") fields) (read_field (codes "question") fields))
          8000)
        index fields subparts (question_marks subparts (read_field (codes "marks") fields))
  question index _ = []

  unfoldable pub questions_from : ℕ → List Json → List PaperQuestion
  unfolding question
  questions_from index [] = []
  questions_from index (j ∷ js) = question index j ++ questions_from (index + 1) js
