-- ===== src/Paper/Export/Tests.antt =====
-- The PDF at concrete inputs.
use the_cinder_project.Base.{
  suc, ◌*◌, ◌/◌, Bool, true, false, none, some, [], ◌∷◌, ◌++◌, Text, codes, length, leb, trim,
  is_space, All, ◌≡◌, refl, arith,
}
use the_cinder_project.Paper.{
  cie, empty_scheme, PaperSubpart, PaperQuestion, GeneratedPaper, PaperDiagram,
}
use the_cinder_project.Paper.Print.{PaperMetadata, scheme_lines}
use the_cinder_project.Paper.Export.Wrap.{
  pdf_safe_text, replaced, replacement, printables, pieces, words_of, wrap_words, add_word,
  break_word, wrap_line,
}
use the_cinder_project.Paper.Export.Wrapped.{IsNarrow, flat, letters, wrap_line-IsNarrow}
use the_cinder_project.Paper.Export.Layout.{
  Fonts, Layout, lines_of, wrapped_height, heights, scheme_height,
}
use the_cinder_project.Paper.Export.Question.{
  question_paper, Picture, no_picture, estimated_height, prompt_height, parts_height,
}
use the_cinder_project.Paper.Export.Kept.{header_height}
use the_cinder_project.Paper.Export.Document.{
  Margins, FitsPage, AreTogether, draw_front, first_page, footers, create_paper_pdf,
  create_paper_pdf-AreTogether,
}

abbrev narrow : Text → Bool
narrow s = leb (length s) 8

abbrev unchanged : Text → Text
unchanged s = s

wrap_line_test :
    wrap_line narrow unchanged (codes "Find the acceleration  now")
    ≡ codes "Find the" ∷ codes "accelera" ∷ codes "tion now" ∷ []
unfolding wrap_line pdf_safe_text replaced replacement printables words_of pieces is_space
    wrap_words add_word break_word
wrap_line_test = refl

wrap_line-IsNarrow_example :
    All (IsNarrow narrow) (wrap_line narrow unchanged (codes "Find the acceleration  now"))
    × (letters (flat (wrap_line narrow unchanged (codes "Find the acceleration  now")))
        ≡ letters (pdf_safe_text unchanged (codes "Find the acceleration  now")))
wrap_line-IsNarrow_example =
    wrap_line-IsNarrow narrow unchanged (codes "Find the acceleration  now")

-- Half as wide as high
abbrev typewriter : Fonts
typewriter = record { width_of = λ strong size t. length t * (size / 2); decompose = unchanged }

abbrev margins : Margins
margins = record {
  header_text = some (codes "Term 2");
  footer_text = none;
  repeat_header = true;
  repeat_footer = false;
}

abbrev part_a : PaperSubpart
part_a = record {
  label = codes "a";
  prompt = codes "Draw it.";
  marks = 2;
  answer = codes "A line.";
  working_lines = 3;
  scheme = empty_scheme;
}

abbrev graph : PaperQuestion
graph = record {
  id = codes "question-1";
  prompt = codes "A body falls.";
  marks = 2;
  answer = [];
  working_lines = 0;
  subparts = part_a ∷ [];
  diagram = none;
  source = [];
  scheme = empty_scheme;
}

abbrev short_paper : GeneratedPaper
short_paper = record { instructions = codes "Answer all." ∷ []; questions = graph ∷ graph ∷ [] }

abbrev about : PaperMetadata
about = record {
  title = codes "Motion";
  subject = codes "Physics";
  board = cie;
  syllabus_code = codes "9702";
  year = codes "2026";
  session = [];
  paper_variant = [];
  duration_minutes = 30;
  sources = [];
}

abbrev blank : PaperDiagram → Picture
blank diagram = no_picture

graph-FitsPage : FitsPage typewriter margins blank question_paper graph
unfolding header_height estimated_height prompt_height parts_height wrapped_height scheme_height
    heights lines_of wrap_line pdf_safe_text replaced replacement printables words_of pieces
    is_space wrap_words add_word break_word trim scheme_lines
graph-FitsPage = (tt, omega arith)

create_paper_pdf-AreTogether_example :
    (l : Layout) × AreTogether typewriter margins blank question_paper 0 short_paper.questions
      (draw_front typewriter margins question_paper about short_paper.instructions first_page)
      l
    × (create_paper_pdf typewriter margins blank about short_paper question_paper
        ≡ footers typewriter margins (suc l.page) (suc l.page) ++ l.drawn)
create_paper_pdf-AreTogether_example =
    create_paper_pdf-AreTogether typewriter margins blank about short_paper question_paper
      (graph-FitsPage, (graph-FitsPage, tt))
