-- ===== src/Paper/Export/Figures.antt =====
-- What the PDF shows of a question, wherever the pages end: its texts, lines and picture, from the last
-- to the first.
use the_cinder_project.Base.{
  ℕ, zero, suc, ◌+◌, ◌-◌, ◌/◌, Bool, true, false, Option, none, some, List, [], ◌∷◌, ◌++◌, Text,
  codes, trim, truthy, if◌then◌else◌,
}
use the_cinder_project.Base.Decimal.{decimal}
use the_cinder_project.Paper.{PaperScheme, PaperDiagram, PaperSubpart, PaperQuestion}
use the_cinder_project.Paper.Print.{scheme_lines}
use the_cinder_project.Paper.Export.Wrap.{pdf_safe_text}
use the_cinder_project.Paper.Export.Layout.{
  Figure, text, rule, image, Fonts, Style, page_margin, content_width, right_edge, lines_of,
  scheme_style,
}
use the_cinder_project.Paper.Export.Question.{
  Kind, question_paper, marking_scheme, Picture, no_picture, broken, fitted, prompt_style,
  caption_style, alt_style, answer_style, part_style, source_style, or_not_supplied, part_text,
  source_note,
}

unfoldable pub line_figures : ℕ → ℕ → Bool → List Text → List Figure
line_figures x size strong [] = []
line_figures x size strong (line ∷ lines) =
    line_figures x size strong lines ++ (text line x size strong ∷ [])

unfoldable pub rule_figures : ℕ → ℕ → List Figure
rule_figures x zero = []
rule_figures x (suc count) = rule_figures x count ++ (rule x ∷ [])

module _ (fonts : Fonts) where
  abbrev pub wrapped_figures : Text → Style → List Figure
  wrapped_figures value style =
      line_figures style.x style.size style.strong
        (lines_of fonts value style.width style.strong style.size)

  unfoldable pub all_figures : ℕ → ℕ → List Text → List Figure
  all_figures x width [] = []
  all_figures x width (line ∷ lines) =
      all_figures x width lines ++ wrapped_figures line (scheme_style x width)

  abbrev pub scheme_figures : PaperScheme → ℕ → List Figure
  scheme_figures scheme x = all_figures x (right_edge - x) (scheme_lines (some scheme) [])

  abbrev pub header_figures : Option Text → List Figure
  header_figures none = []
  header_figures (some header) =
      if truthy (trim header)
      then line_figures page_margin 8500 true (lines_of fonts (trim header) content_width true 8500)
      else []

  abbrev pub mark_figure : ℕ → Figure
  mark_figure marks =
      let label = b'[' ∷ (decimal marks ++ (b']' ∷ [])) in
      text label (right_edge - fonts.width_of true 9500 label) 9500 true

  abbrev pub caption_figures : Text → List Figure
  caption_figures [] = []
  caption_figures (c ∷ caption) = wrapped_figures (c ∷ caption) caption_style

  abbrev pub picture_figures : Picture → PaperDiagram → List Figure
  picture_figures no_picture diagram = []
  picture_figures broken diagram = wrapped_figures (codes "Diagram: " ++ diagram.alt) alt_style
  picture_figures (fitted width height) diagram =
      caption_figures diagram.caption
      ++ (image (page_margin + (content_width - width) / 2) width height ∷ [])

  abbrev pub answer_figures : Kind → PaperQuestion → List PaperSubpart → List Figure
  answer_figures marking_scheme q [] = wrapped_figures (or_not_supplied q.answer) answer_style
  answer_figures marking_scheme q (_ ∷ _) = []
  answer_figures question_paper q parts = []

  abbrev pub question_scheme_figures : Kind → PaperQuestion → List Figure
  question_scheme_figures question_paper q = []
  question_scheme_figures marking_scheme q = scheme_figures q.scheme (page_margin + 36000)

  abbrev pub below_figures : Kind → PaperSubpart → List Figure
  below_figures question_paper part = rule_figures (page_margin + 50000) part.working_lines
  below_figures marking_scheme part = scheme_figures part.scheme (page_margin + 62000)

  abbrev pub label_figure : PaperSubpart → Figure
  label_figure part =
      text (b'(' ∷ (pdf_safe_text fonts.decompose part.label ++ (b')' ∷ []))) (page_margin + 24000)
        10000 false

  abbrev pub part_figures : Kind → PaperSubpart → List Figure
  part_figures kind part =
      below_figures kind part
      ++ (wrapped_figures (part_text kind part) part_style
          ++ (mark_figure part.marks ∷ (label_figure part ∷ [])))

  unfoldable pub parts_figures : Kind → List PaperSubpart → List Figure
  parts_figures kind [] = []
  parts_figures kind (part ∷ parts) = parts_figures kind parts ++ part_figures kind part

  abbrev pub own_figures : Kind → PaperQuestion → List PaperSubpart → List Figure
  own_figures question_paper q [] = rule_figures (page_margin + 24000) q.working_lines
  own_figures question_paper q (_ ∷ _) = []
  own_figures marking_scheme q parts = []

  abbrev pub source_figures : Kind → Text → List Figure
  source_figures question_paper source = []
  source_figures marking_scheme [] = []
  source_figures marking_scheme (c ∷ source) =
      wrapped_figures (source_note (c ∷ source)) source_style

  module _ (picture_of : PaperDiagram → Picture) where
    abbrev pub diagram_figures : Option PaperDiagram → List Figure
    diagram_figures none = []
    diagram_figures (some diagram) = picture_figures (picture_of diagram) diagram

    -- A question with its number, marks, prompt, diagram, answer, marking scheme, parts, lines to write
    -- on and source, as far as its paper has them.
    abbrev pub question_figures : Kind → ℕ → PaperQuestion → List Figure
    question_figures kind index q =
        source_figures kind q.source
        ++ (own_figures kind q q.subparts
            ++ (parts_figures kind q.subparts
                ++ (question_scheme_figures kind q
                    ++ (answer_figures kind q q.subparts
                        ++ (diagram_figures q.diagram
                            ++ (wrapped_figures q.prompt prompt_style
                                ++ (mark_figure q.marks
                                    ∷ (text (decimal (index + 1) ++ codes ".") page_margin 11000
                                          true
                                        ∷ []))))))))
