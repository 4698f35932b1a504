-- ===== src/Paper/Print.antt =====
-- The texts of a paper: `compactPageRanges`, `sourceSummary`, `questionPaperText`, `schemeLines`,
-- `answerKeyText` and the small tables of apps/teacher/src/paperLogic.ts. Marks, lines, pages and
-- minutes are natural numbers.
use the_cinder_project.Base.{
  ℕ, zero, suc, ◌+◌, Option, none, some, List, [], ◌∷◌, ◌++◌, map, Text, codes, trim, truthy,
  or_text, keep, any, ltb, ◌==◌, if◌then◌else◌,
}
use the_cinder_project.Base.Decimal.{decimal}
use the_cinder_project.Classroom.Scope.{encode_uri_component}
use the_cinder_project.Paper.{
  ExamBoard, cie, igcse, cbse, icse, PaperDiagram, PaperMarkingPoint, PaperScheme, PaperSubpart,
  PaperQuestion, GeneratedPaper, board_name,
}

-- A page into a list in order, if it is not there: `[...new Set(pages)].sort(…)`.
unfoldable pub insert_page : ℕ → List ℕ → List ℕ
insert_page p [] = p ∷ []
insert_page p (q ∷ qs) =
    if p == q then q ∷ qs else if ltb p q then p ∷ q ∷ qs else q ∷ insert_page p qs

unfoldable pub sorted_pages : List ℕ → List ℕ
unfolding insert_page
sorted_pages [] = []
sorted_pages (p ∷ ps) = insert_page p (sorted_pages ps)

-- The loop, with the range that is open.
unfoldable pub ranges_from : ℕ → ℕ → List ℕ → List (ℕ × ℕ)
ranges_from start end_ [] = (start, end_) ∷ []
ranges_from start end_ (page ∷ pages) =
    let longer = ranges_from start page pages in
    let next = ranges_from page page pages in
    if page == end_ + 1 then longer else (start, end_) ∷ next

unfoldable pub ranges_of : List ℕ → List (ℕ × ℕ)
unfolding ranges_from
ranges_of [] = []
ranges_of (page ∷ pages) = ranges_from page page pages

range_text : ℕ × ℕ → Text
unfolding decimal
range_text (start, end_) =
    if start == end_ then decimal start else decimal start ++ (b'-' ∷ decimal end_)

-- `join(separator)`
unfoldable pub join : Text → List Text → Text
join separator [] = []
join separator (t ∷ []) = t
join separator (t ∷ u ∷ ts) = t ++ (separator ++ join separator (u ∷ ts))

abbrev page_label : List ℕ → Text
page_label [] = []
page_label (_ ∷ []) = codes "p. "
page_label (_ ∷ _ ∷ _) = codes "pp. "

unfoldable pub compact_page_ranges : List ℕ → Text
unfolding sorted_pages ranges_of range_text join
compact_page_ranges pages =
    let sorted = sorted_pages pages in
    page_label sorted ++ join (codes ", ") (map range_text (ranges_of sorted))

pub record PaperSourceCitation : Type 0 where
  pub name : Text
  pub pages : List ℕ

pub record PaperMetadata : Type 0 where
  pub title : Text
  pub subject : Text
  pub board : ExamBoard
  pub syllabus_code : Text
  pub year : Text
  pub session : Text
  pub paper_variant : Text
  pub duration_minutes : ℕ
  pub sources : List PaperSourceCitation

abbrev with_pages : Text → Text → Text
with_pages name [] = name
with_pages name (c ∷ pages) = name ++ (codes " (" ++ ((c ∷ pages) ++ codes ")"))

unfoldable pub source_summary : List PaperSourceCitation → Text
unfolding compact_page_ranges join
source_summary sources =
    join (codes "; ")
      (map (λ source. with_pages source.name (compact_page_ranges source.pages)) sources)

abbrev pub prefixed : Text → Text → Text
prefixed word [] = []
prefixed word (c ∷ s) = word ++ (c ∷ s)

abbrev source_line : List PaperSourceCitation → Text
source_line [] = []
source_line (s ∷ ss) = codes "Sources: " ++ source_summary (s ∷ ss)

unfoldable metadata_lines : PaperMetadata → List Text
unfolding source_summary join trim decimal
metadata_lines m =
    let details = keep truthy (
      board_name m.board
      ∷ prefixed (codes "Syllabus ") m.syllabus_code
      ∷ m.year
      ∷ m.session
      ∷ prefixed (codes "Paper ") m.paper_variant
      ∷ []) in
    keep truthy (
      or_text (trim m.title) (codes "Question paper")
      ∷ trim m.subject
      ∷ join (codes " | ") details
      ∷ (if ltb 0 m.duration_minutes
          then codes "Time allowed: " ++ (decimal m.duration_minutes ++ codes " minutes")
          else [])
      ∷ source_line m.sources
      ∷ [])

abbrev pub marked : Text → ℕ → Text
marked text marks = text ++ (codes " [" ++ (decimal marks ++ codes "]"))

unfoldable pub blank_lines : ℕ → List Text
blank_lines zero = []
blank_lines (suc n) = [] ∷ blank_lines n

abbrev pub part_lines : PaperSubpart → List Text
part_lines p =
    marked (codes "   (" ++ (p.label ++ (codes ") " ++ p.prompt))) p.marks
    ∷ blank_lines p.working_lines

unfoldable pub parts_lines : List PaperSubpart → List Text
unfolding blank_lines decimal
parts_lines [] = []
parts_lines (p ∷ ps) = part_lines p ++ parts_lines ps

abbrev pub diagram_lines : Option PaperDiagram → List Text
diagram_lines none = []
diagram_lines (some d) = (codes "[Diagram: " ++ (or_text d.caption d.alt ++ codes "]")) ∷ []

abbrev pub own_lines : List PaperSubpart → ℕ → List Text
own_lines [] n = blank_lines n
own_lines (_ ∷ _) n = []

abbrev pub numbered : ℕ → Text → Text
numbered index text = decimal (index + 1) ++ (codes ". " ++ text)

unfoldable pub question_lines : ℕ → List PaperQuestion → List Text
unfolding parts_lines blank_lines decimal
question_lines index [] = []
question_lines index (q ∷ qs) =
    []
    ∷ marked (numbered index q.prompt) q.marks
    ∷ (diagram_lines q.diagram
        ++ (parts_lines q.subparts
            ++ (own_lines q.subparts q.working_lines ++ question_lines (index + 1) qs)))

abbrev instruction_lines : List Text → List Text
instruction_lines [] = []
instruction_lines (t ∷ ts) = [] ∷ codes "Instructions" ∷ map (λ item. codes "- " ++ item) (t ∷ ts)

unfoldable pub question_paper_text : PaperMetadata → GeneratedPaper → Text
unfolding metadata_lines question_lines join trim
question_paper_text m paper = trim (
    join (10 ∷ []) (
      metadata_lines m
      ++ (instruction_lines paper.instructions ++ question_lines 0 paper.questions)))

abbrev point_lines : Text → List PaperMarkingPoint → List Text
point_lines indent points =
    map (λ (p : PaperMarkingPoint). marked (indent ++ (codes "- " ++ p.text)) p.marks) points

abbrev alternative_lines : Text → List Text → List Text
alternative_lines indent [] = []
alternative_lines indent (t ∷ ts) =
    (indent ++ (codes "Also accept: " ++ join (codes "; ") (t ∷ ts))) ∷ []

abbrev guidance_lines : Text → Text → List Text
guidance_lines indent [] = []
guidance_lines indent (c ∷ s) = (indent ++ (codes "Guidance: " ++ (c ∷ s))) ∷ []

unfoldable pub scheme_lines : Option PaperScheme → Text → List Text
unfolding join decimal
scheme_lines none indent = []
scheme_lines (some s) indent =
    point_lines indent s.marking_points
    ++ (alternative_lines indent s.accepted_alternatives ++ guidance_lines indent s.guidance)

abbrev or_no_answer : Text → Text
or_no_answer answer = or_text answer (codes "No answer supplied.")

unfoldable part_keys : List PaperSubpart → List Text
unfolding scheme_lines decimal
part_keys [] = []
part_keys (p ∷ ps) =
    marked (codes "   (" ++ (p.label ++ (codes ") " ++ or_no_answer p.answer))) p.marks
    ∷ (scheme_lines (some p.scheme) (codes "      ") ++ part_keys ps)

abbrev headline : PaperQuestion → List PaperSubpart → Text
headline q [] = or_no_answer q.answer
headline q (_ ∷ _) = q.prompt

abbrev source_note : Text → List Text
source_note [] = []
source_note (c ∷ s) = (codes "   Source note: " ++ (c ∷ s)) ∷ []

unfoldable key_lines : ℕ → List PaperQuestion → List Text
unfolding part_keys scheme_lines decimal
key_lines index [] = []
key_lines index (q ∷ qs) =
    []
    ∷ marked (numbered index (headline q q.subparts)) q.marks
    ∷ (scheme_lines (some q.scheme) (codes "   ")
        ++ (part_keys q.subparts ++ (source_note q.source ++ key_lines (index + 1) qs)))

unfoldable pub answer_key_text : PaperMetadata → GeneratedPaper → Text
unfolding key_lines join trim
answer_key_text m paper = trim (
    join (10 ∷ []) (
      keep truthy (
        (or_text (trim m.title) (codes "Question paper") ++ codes " - Marking scheme")
        ∷ trim m.subject
        ∷ board_name m.board
        ∷ codes "Teacher copy. Do not give this to students."
        ∷ [])
      ++ key_lines 0 paper.questions))

unfoldable pub paper_total_marks : List PaperQuestion → ℕ
paper_total_marks [] = 0
paper_total_marks (q ∷ qs) = q.marks + paper_total_marks qs

abbrev output_token_options : List ℕ
output_token_options = 512 ∷ 1024 ∷ 2048 ∷ 4096 ∷ 8192 ∷ []

-- The number is what `Number` made of the value; `none` for one that is no natural number.
normalize_paper_output_tokens : Option ℕ → ℕ
normalize_paper_output_tokens none = 4096
normalize_paper_output_tokens (some n) = if any (λ v. v == n) output_token_options then n else 4096

abbrev search_query : Text → Text → Text → Option Text
search_query syllabus_code subject year = encode_uri_component (
    join (codes " ")
      (keep truthy (syllabus_code ∷ subject ∷ year ∷ codes "past papers specimen" ∷ [])))

abbrev at_address : Text → Option Text → Option Text
at_address address none = none
at_address address (some query) = some (address ++ query)

-- `none` where `encodeURIComponent` throws, which it does for every board.
official_source_url : ExamBoard → Text → Text → Text → Option Text
official_source_url cie code subject year =
    at_address (codes "https://www.cambridgeinternational.org/search-results/?query=")
      (search_query code subject year)
official_source_url igcse code subject year =
    at_address (codes "https://www.cambridgeinternational.org/search-results/?query=")
      (search_query code subject year)
official_source_url cbse code subject year = (elim (search_query code subject year) [
  | none ↦ none
  | some _ ↦ some (codes "https://cbseacademic.nic.in/sqp_archive.html")
])
official_source_url icse code subject year =
    at_address (codes "https://cisce.org/?s=") (search_query code subject year)
