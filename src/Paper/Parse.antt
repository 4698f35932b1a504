-- ===== src/Paper/Parse.antt =====
-- `normalizeGeneratedPaper` and `parseGeneratedPaperResponse` of apps/teacher/src/paperLogic.ts.
-- `JSON.parse` is a parameter: it gives a value, or a syntax error with its message.
use the_cinder_project.Base.{
  ℕ, zero, suc, Bool, false, ◌&&◌, ◌||◌, Option, none, some, List, [], ◌∷◌, ◌++◌, Text, codes, trim,
  is_space, take, drop, ◌==◌, if◌then◌else◌,
}
use mathlib.Core.List.{reverse}
use the_cinder_project.Base.Number.{Number}
use the_cinder_project.Base.Json.{Json, arr, obj, Fields, end, field, read_field}
use the_cinder_project.Paper.{PaperQuestion, GeneratedPaper}
use the_cinder_project.Paper.Clean.{eat, optional_word, skip_spaces, drop_end_fence, count_while}
use the_cinder_project.Paper.Normalize.{or_nullish, elements, clean_list, questions_from}

pub data Result : Type 0 where
  paper : GeneratedPaper → Result
  error : Text → Result

pub data Parsed : Type 0 where
  value : Json → Parsed
  syntax_error : Text → Parsed

abbrev pub no_specification : Text
no_specification = codes "The AI response did not contain a paper specification."

abbrev pub no_questions_list : Text
no_questions_list = codes "The AI response did not contain a questions list."

abbrev pub no_usable_questions : Text
no_usable_questions = codes "The AI response did not contain usable questions."

abbrev pub malformed : Text
malformed = codes "The AI returned malformed paper data. Try creating the paper again."

-- The nested paper, if it is an object and no array, else the root.
abbrev pub candidate_of : Option Json → Fields → Fields
candidate_of (some (obj nested)) root = nested
candidate_of _ root = root

abbrev pub nested_paper : Fields → Option Json
nested_paper root = or_nullish (read_field (codes "paper") root) (
    or_nullish (read_field (codes "question_paper") root)
      (or_nullish (read_field (codes "questionPaper") root) (read_field (codes "data") root)))

abbrev pub built : List Text → List PaperQuestion → Result
built instructions [] = error no_usable_questions
built instructions (q ∷ qs) = paper (record { instructions = instructions; questions = q ∷ qs })

module _ (to_number : Option Json → Number) where
  unfoldable pub normalize_candidate : Fields → Option (List Json) → Result
  unfolding questions_from clean_list elements read_field
  normalize_candidate candidate none = error no_questions_list
  normalize_candidate candidate (some js) =
      built (clean_list 12 1000 (elements (read_field (codes "instructions") candidate)))
        (questions_from to_number 0 (take 50 js))

  abbrev pub normalize_root : Fields → Result
  normalize_root root =
      let candidate = candidate_of (nested_paper root) root in
      normalize_candidate candidate (elements (read_field (codes "questions") candidate))

  unfoldable pub normalize_generated_paper : Json → Result
  unfolding normalize_candidate elements read_field
  normalize_generated_paper (arr js) = normalize_root (field (codes "questions") (arr js) end)
  normalize_generated_paper (obj root) = normalize_root root
  normalize_generated_paper _ = error no_specification

-- The text from the first `{`.
unfoldable from_brace : Text → Text
from_brace [] = []
from_brace (c ∷ s) = let rest = from_brace s in if c == b'{' then c ∷ s else rest

-- A text written backwards, from its last `}`.
unfoldable from_last_brace : Text → Text
from_last_brace [] = []
from_last_brace (c ∷ s) = let rest = from_last_brace s in if c == b'}' then c ∷ s else rest

-- From the first `{` to the last `}`, if that comes behind it.
abbrev nonempty : Text → Option Text
nonempty [] = none
nonempty (c ∷ s) = some (c ∷ s)

abbrev fenced : Option Text → Text → Text
fenced none s = s
fenced (some rest) s = skip_spaces (optional_word (eat (codes "json") rest) rest)

unfoldable pub extract_json_object : Text → Option Text
unfolding from_brace from_last_brace eat skip_spaces drop_end_fence trim
extract_json_object text =
    let cleaned = trim (drop_end_fence (fenced (eat (codes "```") text) text)) in
    nonempty (reverse (from_last_brace (reverse (from_brace cleaned))))

abbrev is_escape : ℕ → Bool
is_escape c =
    c == b'"'
    || c == 92
    || c == b'/'
    || c == b'b'
    || c == b'f'
    || c == b'n'
    || c == b'r'
    || c == b't'
    || c == b'u'

abbrev raw_character : ℕ → Text
raw_character c =
    if c == 10
    then 92 ∷ b'n' ∷ []
    else if c == 13
    then 92 ∷ b'r' ∷ []
    else if c == 9
    then 92 ∷ b't' ∷ []
    else c ∷ []

pub data Place : Type 0 where
  outside inside escaped : Place

-- The scan over the characters.
unfoldable pub repair_from : Place → Text → Text
repair_from outside [] = []
repair_from inside [] = []
repair_from escaped [] = 92 ∷ 92 ∷ []
repair_from outside (c ∷ s) =
    let enter = repair_from inside s in
    let stay = repair_from outside s in if c == b'"' then c ∷ enter else c ∷ stay
repair_from escaped (c ∷ s) =
    let rest = repair_from inside s in if is_escape c then 92 ∷ c ∷ rest else 92 ∷ 92 ∷ c ∷ rest
repair_from inside (c ∷ s) =
    let escape = repair_from escaped s in
    let leave = repair_from outside s in
    let stay = repair_from inside s in
    if c == 92 then escape else if c == b'"' then c ∷ leave else raw_character c ++ stay

abbrev starts_close : Text → Bool
starts_close [] = false
starts_close (c ∷ s) = c == b'}' || c == b']'

-- `replace(/,\s*([}\]])/g, "$1")`; the number of characters still to skip.
unfoldable drop_commas : ℕ → Text → Text
unfolding count_while
drop_commas n [] = []
drop_commas (suc n) (c ∷ s) = drop_commas n s
drop_commas zero (c ∷ s) =
    let spaces = count_while is_space s in
    let skipped = drop_commas spaces s in
    let kept = drop_commas zero s in
    if c == b',' && starts_close (drop spaces s) then skipped else c ∷ kept

unfoldable pub repair_common_json_issues : Text → Text
unfolding repair_from drop_commas
repair_common_json_issues text = drop_commas 0 (repair_from outside text)
