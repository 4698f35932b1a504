-- ===== src/Paper/Export/Question.antt =====
-- A question on the pages of the PDF: `drawMark`, `drawQuestion` and the sum it begins with.
-- The picture of a diagram, as `scaleToFit` leaves it, is a parameter.
use the_cinder_project.Base.{
  ℕ, zero, suc, ◌+◌, ◌-◌, ◌*◌, ◌/◌, true, false, Option, none, some, List, [], ◌∷◌, ◌++◌, Text,
  codes, or_text, leb, ◌==◌, if◌then◌else◌, max,
}
use the_cinder_project.Base.Decimal.{decimal}
use the_cinder_project.Paper.{PaperDiagram, PaperSubpart, PaperQuestion}
use the_cinder_project.Paper.Export.Wrap.{pdf_safe_text}
use the_cinder_project.Paper.Export.Layout.{
  Layout, Fonts, Style, text, rule, image, draw, down, page_margin, content_width, right_edge,
  page_capacity, usual_line_height, wrapped_height, scheme_height, ensure_space, draw_wrapped,
  draw_scheme,
}

pub data Kind : Type 0 where
  question_paper marking_scheme : Kind

-- What becomes of a diagram: no picture, an error, or one of a width and a height.
pub data Picture : Type 0 where
  no_picture broken : Picture
  fitted : ℕ → ℕ → Picture

abbrev pub prompt_style : Style
prompt_style = record {
  x = page_margin + 24000;
  width = content_width - 70000;
  size = 10500;
  line_height = 15000;
  strong = false;
  gap_after = 5000;
}

abbrev pub caption_style : Style
caption_style = record {
  x = page_margin + 30000;
  width = content_width - 60000;
  size = 8000;
  line_height = 10000;
  strong = false;
  gap_after = 4000;
}

abbrev pub alt_style : Style
alt_style = record {
  x = page_margin;
  width = content_width;
  size = 8500;
  line_height = usual_line_height 8500;
  strong = false;
  gap_after = 4000;
}

abbrev pub answer_style : Style
answer_style = record {
  x = page_margin + 24000;
  width = content_width - 24000;
  size = 9800;
  line_height = usual_line_height 9800;
  strong = false;
  gap_after = 4000;
}

abbrev pub part_style : Style
part_style = record {
  x = page_margin + 50000;
  width = content_width - 96000;
  size = 10000;
  line_height = 14200;
  strong = false;
  gap_after = 4000;
}

abbrev pub source_style : Style
source_style = record {
  x = page_margin + 24000;
  width = content_width - 24000;
  size = 8000;
  line_height = usual_line_height 8000;
  strong = false;
  gap_after = 0;
}

abbrev pub or_not_supplied : Text → Text
or_not_supplied answer = or_text answer (codes "No answer supplied.")

abbrev pub part_text : Kind → PaperSubpart → Text
part_text question_paper part = part.prompt
part_text marking_scheme part = or_not_supplied part.answer

abbrev pub source_note : Text → Text
source_note source = codes "Source note: " ++ source

abbrev pub first_line : Kind → ℕ → ℕ
first_line question_paper zero = 0
first_line question_paper (suc _) = 18000
first_line marking_scheme lines = 0

module _ (fonts : Fonts) where
  -- The parts of `estimatedHeight`
  abbrev pub caption_height : Text → ℕ
  caption_height [] = 0
  caption_height (c ∷ caption) = wrapped_height fonts (c ∷ caption) caption_style

  abbrev pub diagram_height : Option PaperDiagram → ℕ
  diagram_height none = 0
  diagram_height (some diagram) = 215000 + caption_height diagram.caption

  abbrev pub answer_height : Kind → PaperQuestion → List PaperSubpart → ℕ
  answer_height marking_scheme q [] = wrapped_height fonts (or_not_supplied q.answer) answer_style
  answer_height marking_scheme q (_ ∷ _) = 0
  answer_height question_paper q parts = 0

  abbrev pub part_height : Kind → PaperSubpart → ℕ
  part_height question_paper part =
      wrapped_height fonts part.prompt part_style + part.working_lines * 18000
  part_height marking_scheme part =
      wrapped_height fonts (or_not_supplied part.answer) part_style
      + scheme_height fonts part.scheme (content_width - 62000)

  unfoldable pub parts_height : Kind → List PaperSubpart → ℕ
  unfolding wrapped_height scheme_height
  parts_height kind [] = 0
  parts_height kind (part ∷ parts) = part_height kind part + parts_height kind parts

  abbrev pub question_scheme_height : Kind → PaperQuestion → ℕ
  question_scheme_height question_paper q = 0
  question_scheme_height marking_scheme q = scheme_height fonts q.scheme (content_width - 36000)

  abbrev pub own_lines_height : Kind → PaperQuestion → List PaperSubpart → ℕ
  own_lines_height question_paper q [] = q.working_lines * 18000
  own_lines_height question_paper q (_ ∷ _) = 0
  own_lines_height marking_scheme q parts = 0

  abbrev pub source_height : Kind → Text → ℕ
  source_height question_paper source = 0
  source_height marking_scheme [] = 0
  source_height marking_scheme (c ∷ source) =
      wrapped_height fonts (source_note (c ∷ source)) source_style

  unfoldable pub prompt_height : PaperQuestion → ℕ
  unfolding wrapped_height
  prompt_height q = wrapped_height fonts q.prompt prompt_style

  unfoldable pub estimated_height : Kind → PaperQuestion → ℕ
  unfolding prompt_height parts_height wrapped_height scheme_height
  estimated_height kind q =
      prompt_height q
      + 9000
      + diagram_height q.diagram
      + answer_height kind q q.subparts
      + question_scheme_height kind q
      + parts_height kind q.subparts
      + own_lines_height kind q q.subparts
      + source_height kind q.source

  -- `drawMark`
  unfoldable pub draw_mark : ℕ → Layout → Layout
  unfolding decimal
  draw_mark marks l =
      let label = b'[' ∷ (decimal marks ++ (b']' ∷ [])) in
      draw (text label (right_edge - fonts.width_of true 9500 label) 9500 true) l.used l

  module _ (repeated : Option Text) where
    -- The lines to write on
    unfoldable pub draw_rules : ℕ → ℕ → Layout → Layout
    unfolding ensure_space
    draw_rules x zero l = l
    draw_rules x (suc count) l =
        let there = down 12000 (ensure_space fonts repeated 18000 l) in
        draw_rules x count (down 6000 (draw (rule x) there.used there))

    unfoldable pub draw_caption : Text → Layout → Layout
    unfolding draw_wrapped
    draw_caption [] l = l
    draw_caption (c ∷ caption) l = draw_wrapped fonts repeated (c ∷ caption) caption_style l

    abbrev pub draw_image : ℕ → ℕ → Layout → Layout
    draw_image width height l =
        down (height + 5000) (
          draw (image (page_margin + (content_width - width) / 2) width height) (l.used + height) l)

    unfoldable pub draw_picture : Picture → PaperDiagram → Layout → Layout
    unfolding draw_caption ensure_space draw_wrapped
    draw_picture no_picture diagram l = l
    draw_picture broken diagram l =
        draw_wrapped fonts repeated (codes "Diagram: " ++ diagram.alt) alt_style l
    draw_picture (fitted width height) diagram l =
        draw_caption diagram.caption
          (draw_image width height (ensure_space fonts repeated (height + 26000) l))

    module _ (picture_of : PaperDiagram → Picture) where
      unfoldable pub draw_diagram : Option PaperDiagram → Layout → Layout
      unfolding draw_picture
      draw_diagram none l = l
      draw_diagram (some diagram) l = draw_picture (picture_of diagram) diagram l

      unfoldable pub draw_answer : Kind → PaperQuestion → List PaperSubpart → Layout → Layout
      unfolding draw_wrapped
      draw_answer marking_scheme q [] l =
          draw_wrapped fonts repeated (or_not_supplied q.answer) answer_style l
      draw_answer marking_scheme q (_ ∷ _) l = l
      draw_answer question_paper q parts l = l

      unfoldable pub draw_question_scheme : Kind → PaperQuestion → Layout → Layout
      unfolding draw_scheme
      draw_question_scheme question_paper q l = l
      draw_question_scheme marking_scheme q l =
          draw_scheme fonts repeated q.scheme (page_margin + 36000) l

      -- The lines or the scheme below a part
      unfoldable pub draw_below : Kind → PaperSubpart → Layout → Layout
      unfolding draw_rules draw_scheme
      draw_below question_paper part l = draw_rules (page_margin + 50000) part.working_lines l
      draw_below marking_scheme part l =
          draw_scheme fonts repeated part.scheme (page_margin + 62000) l

      unfoldable pub draw_label : PaperSubpart → Layout → Layout
      unfolding pdf_safe_text
      draw_label part l =
          draw
            (text (b'(' ∷ (pdf_safe_text fonts.decompose part.label ++ (b')' ∷ [])))
              (page_margin + 24000) 10000 false)
            l.used l

      unfoldable pub draw_part : Kind → PaperSubpart → Layout → Layout
      unfolding ensure_space draw_label draw_mark draw_wrapped draw_below wrapped_height
      draw_part kind part l = draw_below kind part (
          draw_wrapped fonts repeated (part_text kind part) part_style (
            draw_mark part.marks (
              draw_label part (
                ensure_space fonts repeated
                  (wrapped_height fonts (part_text kind part) part_style
                    + first_line kind part.working_lines)
                  l))))

      unfoldable pub draw_parts : Kind → List PaperSubpart → Layout → Layout
      unfolding draw_part
      draw_parts kind [] l = l
      draw_parts kind (part ∷ parts) l = draw_parts kind parts (draw_part kind part l)

      unfoldable pub draw_own_lines : Kind → PaperQuestion → List PaperSubpart → Layout → Layout
      unfolding draw_rules
      draw_own_lines question_paper q [] l = draw_rules (page_margin + 24000) q.working_lines l
      draw_own_lines question_paper q (_ ∷ _) l = l
      draw_own_lines marking_scheme q parts l = l

      unfoldable pub draw_source : Kind → Text → Layout → Layout
      unfolding draw_wrapped
      draw_source question_paper source l = l
      draw_source marking_scheme [] l = l
      draw_source marking_scheme (c ∷ source) l =
          draw_wrapped fonts repeated (source_note (c ∷ source)) source_style l

      -- From the number of the question to its last line
      unfoldable pub draw_content : Kind → ℕ → PaperQuestion → Layout → Layout
      unfolding decimal draw_mark draw_wrapped draw_diagram draw_answer draw_question_scheme
          draw_parts draw_own_lines draw_source
      draw_content kind index q l =
          let label = decimal (index + 1) ++ codes "." in
          draw_source kind q.source (
            draw_own_lines kind q q.subparts (
              draw_parts kind q.subparts (
                draw_question_scheme kind q (
                  draw_answer kind q q.subparts (
                    draw_diagram q.diagram (
                      draw_wrapped fonts repeated q.prompt prompt_style (
                        draw_mark q.marks (draw (text label page_margin 11000 true) l.used l))))))))

      abbrev pub end_question : ℕ → Layout → Layout
      end_question start l = down (if start == l.used then 14000 else 9000) l

      unfoldable pub needed_space : Kind → PaperQuestion → ℕ
      unfolding estimated_height prompt_height
      needed_space kind q =
          if leb (estimated_height kind q) page_capacity
          then estimated_height kind q
          else max 80000 (prompt_height q + 20000)

      unfoldable pub draw_question : Kind → ℕ → PaperQuestion → Layout → Layout
      unfolding ensure_space draw_content needed_space
      draw_question kind index q l =
          let there = ensure_space fonts repeated (needed_space kind q) l in
          end_question there.used (draw_content kind index q there)
