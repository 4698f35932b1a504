-- ===== src/Paper/Recover.antt =====
-- `recoverCompleteQuestions` and `parseGeneratedPaperResponse` of apps/teacher/src/paperLogic.ts.
use the_cinder_project.Base.{
  ℕ, ◌+◌, ◌-◌, Bool, true, false, ◌&&◌, ◌||◌, Option, none, some, List, [], ◌∷◌, Text, codes,
  starts_with, ltb, ◌==◌, if◌then◌else◌,
}
use mathlib.Core.List.{reverse}
use the_cinder_project.Base.Number.{Number}
use the_cinder_project.Base.Json.{Json, obj, arr, Items, nil, cons, end, field}
use the_cinder_project.Paper.Clean.{eat, skip_spaces}
use the_cinder_project.Paper.Parse.{
  Result, paper, error, Parsed, value, syntax_error, malformed, normalize_generated_paper,
  extract_json_object, repair_common_json_issues,
}

-- `["']questions["']\s*:\s*\[` at the start of a text: what is behind it.
abbrev behind_quote : Text → Option Text
behind_quote [] = none
behind_quote (c ∷ s) = if c == b'"' || c == 39 then some s else none

abbrev behind : ℕ → Text → Option Text
behind c [] = none
behind c (d ∷ s) = if d == c then some s else none

abbrev then_ : Option Text → (Text → Option Text) → Option Text
then_ none f = none
then_ (some s) f = f s

questions_start : Text → Option Text
unfolding eat skip_spaces
questions_start s = then_ (behind_quote s) (λ a. then_ (eat (codes "questions") a) (λ b.
    then_ (behind_quote b)
      (λ c. then_ (behind b':' (skip_spaces c)) (λ d. behind b'[' (skip_spaces d)))))

abbrev or_text_at : Option Text → Option Text → Option Text
or_text_at none o = o
or_text_at (some s) o = some s

-- Its first match.
unfoldable pub after_questions : Text → Option Text
unfolding questions_start
after_questions [] = none
after_questions (c ∷ s) = or_text_at (questions_start (c ∷ s)) (after_questions s)

-- Where the scan is: in a string or not, and, at a depth, with the object read so far, backwards.
pub record Scan : Type 0 where
  pub in_string : Bool
  pub escaped : Bool
  pub depth : ℕ
  pub object : Text

abbrev step_string : ℕ → Scan → Scan
step_string c p =
    if p.escaped
    then record p { escaped = false }
    else if c == 92
    then record p { escaped = true }
    else if c == b'"'
    then record p { in_string = false }
    else p

-- A character joins the object, once there is one.
abbrev join : ℕ → Scan → Scan
join c p = if ltb 0 p.depth then record p { object = c ∷ p.object } else p

abbrev opened : Scan → Scan
opened p = record p {
  depth = p.depth + 1;
  object = b'{' ∷ (if ltb 0 p.depth then p.object else []);
}

-- The fragments of complete objects, up to the end of the list.
unfoldable pub fragments : Scan → Text → List Text
fragments p [] = []
fragments p (c ∷ s) =
    let in_text = fragments (step_string c (join c p)) s in
    let quoted = fragments (record (join c p) { in_string = true }) s in
    let deeper = fragments (opened p) s in
    let closed = fragments (record p { depth = 0; object = [] }) s in
    let higher = fragments (record (join c p) { depth = p.depth - 1 }) s in
    let other = fragments (join c p) s in
    if p.in_string
    then in_text
    else if c == b'"'
    then quoted
    else if c == b'{'
    then deeper
    else if c == b'}' && ltb 0 p.depth
    then (if p.depth == 1 then reverse (c ∷ p.object) ∷ closed else higher)
    else if c == b']' && p.depth == 0
    then []
    else other

abbrev pub scan_start : Scan
scan_start = record { in_string = false; escaped = false; depth = 0; object = [] }

abbrev push_value : Parsed → Parsed → Items → Items
push_value (value j) again rest = cons j rest
push_value (syntax_error _) (value j) rest = cons j rest
push_value (syntax_error _) (syntax_error _) rest = rest

abbrev contains : Text → Text → Bool
contains [] word = starts_with [] word
contains (c ∷ s) word = starts_with (c ∷ s) word || contains s word

-- `/AI response|questions|paper specification/.test(message)`
unfoldable pub names_response : Text → Bool
names_response message =
    contains message (codes "AI response")
    || contains message (codes "questions")
    || contains message (codes "paper specification")

module _ (parse : Text → Parsed) (to_number : Option Json → Number) where
  -- A fragment that cannot be read is read again after a repair, and left out if that fails.
  unfoldable pub read_fragments : List Text → Items
  unfolding repair_common_json_issues
  read_fragments [] = nil
  read_fragments (f ∷ fs) =
      push_value (parse f) (parse (repair_common_json_issues f)) (read_fragments fs)

  abbrev pub recovered : Items → Option Result
  recovered nil = none
  recovered (cons j js) = some (
      normalize_generated_paper to_number (
        obj (
          field (codes "instructions") (arr nil)
            (field (codes "questions") (arr (cons j js)) end))))

  abbrev pub recover_from : Option Text → Option Result
  recover_from none = none
  recover_from (some s) = recovered (read_fragments (fragments scan_start s))

  unfoldable pub recover_complete_questions : Text → Option Result
  unfolding read_fragments fragments after_questions normalize_generated_paper
  recover_complete_questions text = recover_from (after_questions text)

  abbrev pub or_malformed : Option Result → Result
  or_malformed none = error malformed
  or_malformed (some r) = r

  -- The second attempt, on the repaired text; any error makes it recover.
  abbrev pub repaired_or : Parsed → Text → Result
  repaired_or (syntax_error _) text = or_malformed (recover_complete_questions text)
  repaired_or (value j) text = (elim (normalize_generated_paper to_number j) [
    | paper p ↦ paper p
    | error _ ↦ or_malformed (recover_complete_questions text)
  ])

  -- An error that names the response is passed on, another leads to the repair.
  abbrev pub failing : Text → Text → Text → Result
  failing message json text =
      if names_response message
      then error message
      else repaired_or (parse (repair_common_json_issues json)) text

  abbrev pub first_attempt : Parsed → Text → Text → Result
  first_attempt (syntax_error message) json text = failing message json text
  first_attempt (value j) json text = (elim (normalize_generated_paper to_number j) [
    | paper p ↦ paper p
    | error message ↦ failing message json text
  ])

  abbrev pub attempt : Option Text → Text → Result
  attempt none text = or_malformed (recover_complete_questions text)
  attempt (some json) text = first_attempt (parse json) json text

  unfoldable pub parse_generated_paper_response : Text → Result
  unfolding extract_json_object recover_complete_questions normalize_generated_paper
      repair_common_json_issues names_response
  parse_generated_paper_response text = attempt (extract_json_object text) text
