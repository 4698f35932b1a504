-- ===== src/Paper/Export/Document.antt =====
-- The whole PDF: `createPaperPdf`, up to the bytes that the library for PDF makes of it. The title and
-- subject of the file are left out.
use the_cinder_project.Base.{
  ℕ, zero, suc, ◌+◌, ◌-◌, ◌≤◌, Bool, true, false, ◌&&◌, ◌||◌, Option, none, some, List, [], ◌∷◌,
  ◌++◌, Text, codes, trim, truthy, or_text, take, keep, ◌==◌, if◌then◌else◌, All, ◌≡◌, refl,
}
use the_cinder_project.Base.Decimal.{decimal}
use the_cinder_project.Paper.{PaperDiagram, PaperQuestion, GeneratedPaper, board_name}
use the_cinder_project.Paper.Print.{
  PaperMetadata, PaperSourceCitation, source_summary, prefixed, join,
}
use the_cinder_project.Paper.Export.Wrap.{pdf_safe_text}
use the_cinder_project.Paper.Export.Layout.{
  Drawing, Layout, Fonts, Style, text, rule, draw, down, page_margin, content_width, right_edge,
  page_capacity, usual_line_height, draw_custom_header, draw_wrapped,
}
use the_cinder_project.Paper.Export.Question.{
  Kind, question_paper, marking_scheme, Picture, estimated_height, draw_question,
}
use the_cinder_project.Paper.Export.Together.{DiagramFits}
use the_cinder_project.Paper.Export.Kept.{header_height, IsTogether, draw_question-IsTogether}

-- The rest of `PaperMetadata`
pub record Margins : Type 0 where
  pub header_text : Option Text
  pub footer_text : Option Text
  pub repeat_header : Bool
  pub repeat_footer : Bool

abbrev pub repeated : Margins → Option Text
repeated m = if m.repeat_header then m.header_text else none

abbrev pub plain : ℕ → Style
plain size = record {
  x = page_margin;
  width = content_width;
  size = size;
  line_height = usual_line_height size;
  strong = false;
  gap_after = 0;
}

abbrev pub title_style : Style
title_style = record (plain 19000) { line_height = 23000; strong = true; gap_after = 5000 }

abbrev pub subject_style : Style
subject_style = record (plain 11000) { strong = true; gap_after = 2000 }

abbrev pub sources_style : Style
sources_style = record (plain 8000) { line_height = 11000; gap_after = 6000 }

abbrev pub heading_style : Style
heading_style = record (plain 10000) { strong = true; gap_after = 2000 }

abbrev pub instruction_style : Style
instruction_style = record (plain 9300) { x = page_margin + 8000; width = content_width - 8000 }

abbrev pub title_of : Kind → Text → Text
title_of question_paper title = title
title_of marking_scheme title = title ++ codes " - Marking scheme"

unfoldable pub board_details : PaperMetadata → Text
unfolding join
board_details m = join (codes " | ") (
    keep truthy (
      board_name m.board
      ∷ prefixed (codes "Syllabus ") m.syllabus_code
      ∷ m.year
      ∷ m.session
      ∷ prefixed (codes "Paper ") m.paper_variant
      ∷ []))

abbrev pub first_page : Layout
first_page = record { page = 0; used = 0; drawn = [] }

-- The footer of `pages.forEach`, at 24 points from the bottom, which is below the content.
abbrev pub footer_place : ℕ
footer_place = 765890

module _ (fonts : Fonts) (margins : Margins) where
  abbrev pub wrapped : Text → Style → Layout → Layout
  wrapped value style l = draw_wrapped fonts (repeated margins) value style l

  unfoldable pub draw_time : Kind → ℕ → Layout → Layout
  unfolding draw_wrapped decimal
  draw_time question_paper (suc minutes) l =
      wrapped (codes "Time allowed: " ++ (decimal (suc minutes) ++ codes " minutes")) (plain 8800) l
  draw_time question_paper zero l = l
  draw_time marking_scheme minutes l = l

  unfoldable pub draw_sources : List PaperSourceCitation → Layout → Layout
  unfolding draw_wrapped source_summary
  draw_sources [] l = down 7000 l
  draw_sources (source ∷ sources) l =
      wrapped (codes "Sources: " ++ source_summary (source ∷ sources)) sources_style l

  abbrev pub draw_edge : Layout → Layout
  draw_edge l = down 15000 (draw (rule page_margin) l.used l)

  unfoldable pub draw_each : List Text → Layout → Layout
  unfolding draw_wrapped
  draw_each [] l = l
  draw_each (instruction ∷ instructions) l =
      draw_each instructions (wrapped (codes "- " ++ instruction) instruction_style l)

  unfoldable pub draw_instructions : Kind → List Text → Layout → Layout
  unfolding draw_each draw_wrapped
  draw_instructions marking_scheme instructions l = l
  draw_instructions question_paper [] l = l
  draw_instructions question_paper (i ∷ is) l =
      down 8000 (draw_each (i ∷ is) (wrapped (codes "Instructions") heading_style l))

  -- Up to the first question
  unfoldable pub draw_front : Kind → PaperMetadata → List Text → Layout → Layout
  unfolding draw_custom_header draw_wrapped draw_time draw_sources draw_instructions board_details
  draw_front kind m instructions l = draw_instructions kind instructions (
      draw_edge (
        draw_sources m.sources (
          draw_time kind m.duration_minutes (
            wrapped (board_details m) (plain 8800) (
              wrapped m.subject subject_style (
                wrapped (or_text (title_of kind m.title) (codes "Question paper")) title_style
                  (draw_custom_header fonts margins.header_text l)))))))

  unfoldable pub footer_of : Option Text → ℕ → ℕ → List Drawing
  unfolding trim pdf_safe_text
  footer_of none index count = []
  footer_of (some footer) index count =
      if truthy (trim footer) && (margins.repeat_footer || index + 1 == count)
      then record {
        page = index;
        at = footer_place;
        figure =
            text (take 160 (pdf_safe_text fonts.decompose (trim footer))) page_margin 8000 false;
      }
        ∷ []
      else []

  unfoldable pub number_of : ℕ → ℕ → Drawing
  unfolding decimal
  number_of index count =
      let label = decimal (index + 1) ++ (codes " of " ++ decimal count) in
      record {
        page = index;
        at = footer_place;
        figure = text label (right_edge - fonts.width_of false 8000 label) 8000 false;
      }

  -- The footers of the pages below a number of them
  unfoldable pub footers : ℕ → ℕ → List Drawing
  unfolding footer_of number_of
  footers count zero = []
  footers count (suc index) =
      number_of index count ∷ (footer_of margins.footer_text index count ++ footers count index)

  module _ (picture_of : PaperDiagram → Picture) where
    unfoldable pub draw_questions : Kind → ℕ → List PaperQuestion → Layout → Layout
    unfolding draw_question
    draw_questions kind index [] l = l
    draw_questions kind index (q ∷ qs) l =
        draw_questions kind (index + 1) qs
          (draw_question fonts (repeated margins) picture_of kind index q l)

    unfoldable pub create_paper_pdf : PaperMetadata → GeneratedPaper → Kind → List Drawing
    unfolding draw_front draw_questions footers
    create_paper_pdf m paper kind =
        let l =
          draw_questions kind 0 paper.questions (draw_front kind m paper.instructions first_page) in
        footers (suc l.page) (suc l.page) ++ l.drawn

    -- The questions one after the other, with their numbers from an index on, each together
    abbrev pub AreTogether : Kind → ℕ → List PaperQuestion → Layout → Layout → Type 0
    AreTogether kind index [] l m = m ≡ l
    AreTogether kind index (q ∷ qs) l m =
        (n : Layout) × IsTogether fonts (repeated margins) picture_of kind index q l n
        × AreTogether kind (index + 1) qs n m

    abbrev pub FitsPage : Kind → PaperQuestion → Type 0
    FitsPage kind q =
        DiagramFits fonts (repeated margins) picture_of q.diagram
        × (header_height fonts (repeated margins) + estimated_height fonts kind q ≤ page_capacity)

    draw_questions-AreTogether :
        (kind : Kind) (index : ℕ) (qs : List PaperQuestion) (l : Layout)
        → All (FitsPage kind) qs
        → AreTogether kind index qs l (draw_questions kind index qs l)
    unfolding draw_questions
    draw_questions-AreTogether kind index [] l h = refl
    draw_questions-AreTogether kind index (q ∷ qs) l h =
        let next = draw_question fonts (repeated margins) picture_of kind index q l in
        (
          next,
          draw_question-IsTogether fonts (repeated margins) picture_of kind index q l h.0.0 h.0.1,
          draw_questions-AreTogether kind (index + 1) qs next h.1,
        )

    -- What the PDF of a paper holds besides its footers is what is drawn up to the first question and
    -- then each question in turn, from number 1 on. All that its kind of paper shows of a question is
    -- there, in order: its number and marks, the lines of its prompt, its diagram, answer and marking
    -- scheme, its parts, its lines to write on and its source. All of it is on one page and not below
    -- its margin: on the page that was reached, with nothing else drawn for it, or on the next one,
    -- where just the header that pages repeat is drawn before it; where, of each question, what it is
    -- estimated to take and that header fit on a page together, and its diagram, if it has one, was
    -- scaled to its box, or the text in its place is not higher than that.
    pub create_paper_pdf-AreTogether :
        (m : PaperMetadata) (paper : GeneratedPaper) (kind : Kind)
        → All (FitsPage kind) paper.questions
        → (l : Layout) × AreTogether kind 0 paper.questions
            (draw_front kind m paper.instructions first_page)
            l
          × (create_paper_pdf m paper kind ≡ footers (suc l.page) (suc l.page) ++ l.drawn)
    unfolding create_paper_pdf
    create_paper_pdf-AreTogether m paper kind h =
        let front = draw_front kind m paper.instructions first_page in
        (
          draw_questions kind 0 paper.questions front,
          draw_questions-AreTogether kind 0 paper.questions front h,
          refl,
        )
