-- ===== src/Paper/Export/Together.antt =====
-- A question that fits on a page is drawn on one page.
use the_cinder_project.Base.{
  ℕ, zero, suc, ◌+◌, ◌-◌, ◌*◌, ◌/◌, ◌≤◌, true, Option, none, some, List, [], ◌∷◌, ◌++◌, Text, codes,
  ◌≡◌, refl, arith,
}
use the_cinder_project.Base.Decimal.{decimal}
use the_cinder_project.Paper.{PaperDiagram, PaperSubpart, PaperQuestion}
use the_cinder_project.Paper.Export.Layout.{
  text, rule, image, Layout, Fonts, draw, down, page_margin, content_width, wrapped_height,
  scheme_height, ensure_space, draw_wrapped,
}
use the_cinder_project.Paper.Export.Question.{
  Kind, question_paper, marking_scheme, Picture, no_picture, broken, fitted, prompt_style,
  caption_style, alt_style, answer_style, part_style, source_style, or_not_supplied, part_text,
  source_note, caption_height, diagram_height, answer_height, part_height, parts_height,
  question_scheme_height, own_lines_height, source_height, prompt_height, estimated_height,
  draw_mark, draw_rules, draw_caption, draw_image, draw_picture, draw_diagram, draw_answer,
  draw_question_scheme, draw_below, first_line, draw_label, draw_part, draw_parts, draw_own_lines,
  draw_source, draw_content,
}
use the_cinder_project.Paper.Export.Figures.{
  rule_figures, mark_figure, caption_figures, picture_figures, answer_figures,
  question_scheme_figures, below_figures, part_figures, parts_figures, own_figures, source_figures,
  diagram_figures, question_figures,
}
use the_cinder_project.Paper.Export.Budget.{
  Stays-refl, Stays-down, Stays-draw, Stays-le, Stays-trans, Takes, Takes-then, Takes-le,
  Takes-ensure_space, Takes-draw_wrapped, Takes-draw_scheme,
}

module _ (fonts : Fonts) where
  -- A picture is at most as high as the box that it is fitted into; the text in its place is not higher.
  abbrev pub PictureFits : Picture → PaperDiagram → Type 0
  PictureFits no_picture diagram = Unit
  PictureFits broken diagram =
      wrapped_height fonts (codes "Diagram: " ++ diagram.alt) alt_style ≤ 215000
  PictureFits (fitted width height) diagram = height ≤ 185000

  Takes-draw_mark : (marks : ℕ) → Takes (draw_mark fonts marks) 0 (mark_figure fonts marks ∷ [])
  unfolding draw_mark
  Takes-draw_mark marks l h = Stays-draw _ l

  module _ (repeated : Option Text) where
    Takes-draw_rules :
        (x count : ℕ)
        → Takes (draw_rules fonts repeated x count) (count * 18000) (rule_figures x count)
    unfolding rule_figures draw_rules
    Takes-draw_rules x zero l h = Stays-le (0 * 18000) (Stays-refl l) (omega arith)
    Takes-draw_rules x (suc count) l h =
        let line : Layout → Layout =
          λ m. down 6000 (draw (rule x) (down 12000 m).used (down 12000 m)) in
        let one : Takes line 18000 (rule x ∷ []) = λ m k.
          Stays-trans (Stays-trans (Stays-down 12000 m) (Stays-draw (rule x) (down 12000 m)))
            (Stays-down 6000 (draw (rule x) (down 12000 m).used (down 12000 m))) in
        Takes-le
          (λ m. draw_rules fonts repeated x count (line (ensure_space fonts repeated 18000 m)))
          (18000 + count * 18000) (suc count * 18000) (omega arith)
          (Takes-then (λ m. line (ensure_space fonts repeated 18000 m))
            (draw_rules fonts repeated x count) 18000 (count * 18000)
            (Takes-ensure_space fonts repeated line 18000 18000 (omega arith) one)
            (Takes-draw_rules x count))
          l h

    Takes-draw_caption :
        (caption : Text)
        → Takes
            (draw_caption fonts repeated caption)
            (caption_height fonts caption)
            (caption_figures fonts caption)
    unfolding draw_caption
    Takes-draw_caption [] l h = Stays-refl l
    Takes-draw_caption (c ∷ caption) l h =
        Takes-draw_wrapped fonts repeated (c ∷ caption) caption_style l h

    -- The picture itself, below the room that is asked for it
    Takes-draw_image :
        (width height : ℕ)
        → height ≤ 185000
        → Takes
            (draw_image fonts repeated width height)
            215000
            (image (page_margin + (content_width - width) / 2) width height ∷ [])
    Takes-draw_image width height h l k =
        let shown =
          draw (image (page_margin + (content_width - width) / 2) width height) (l.used + height)
            l in
        record {
          page = refl;
          used = omega arith;
          new =
              record {
                page = l.page;
                at = l.used + height;
                figure = image (page_margin + (content_width - width) / 2) width height;
              }
              ∷ [];
          drawn = refl;
          on = ((refl, omega arith), tt);
          shows = refl;
        }

    Takes-draw_picture :
        (picture : Picture) (diagram : PaperDiagram)
        → PictureFits picture diagram
        → Takes
            (draw_picture fonts repeated picture diagram)
            (215000 + caption_height fonts diagram.caption)
            (picture_figures fonts picture diagram)
    unfolding draw_picture
    Takes-draw_picture no_picture diagram h l k = Stays-le _ (Stays-refl l) (omega arith)
    Takes-draw_picture broken diagram h l k =
        Takes-le (draw_wrapped fonts repeated (codes "Diagram: " ++ diagram.alt) alt_style)
          (wrapped_height fonts (codes "Diagram: " ++ diagram.alt) alt_style)
          (215000 + caption_height fonts diagram.caption) (omega (arith, h))
          (Takes-draw_wrapped fonts repeated (codes "Diagram: " ++ diagram.alt) alt_style) l k
    Takes-draw_picture (fitted width height) diagram h l k =
        Takes-then
          (λ l.
            draw_image fonts repeated width height (ensure_space fonts repeated (height + 26000) l))
          (draw_caption fonts repeated diagram.caption) 215000
          (caption_height fonts diagram.caption)
          (Takes-ensure_space fonts repeated (draw_image fonts repeated width height) 215000
            (height + 26000) (omega (arith, h)) (Takes-draw_image width height h))
          (Takes-draw_caption diagram.caption) l k

    module _ (picture_of : PaperDiagram → Picture) where
      -- The diagram of a question, if it has one, fits as a picture or as a text.
      abbrev pub DiagramFits : Option PaperDiagram → Type 0
      DiagramFits none = Unit
      DiagramFits (some diagram) = PictureFits (picture_of diagram) diagram

      Takes-draw_diagram :
          (o : Option PaperDiagram)
          → DiagramFits o
          → Takes
              (draw_diagram fonts repeated picture_of o)
              (diagram_height fonts o)
              (diagram_figures fonts picture_of o)
      unfolding draw_diagram
      Takes-draw_diagram none h l k = Stays-refl l
      Takes-draw_diagram (some diagram) h l k =
          Takes-draw_picture (picture_of diagram) diagram h l k

      Takes-draw_answer :
          (kind : Kind) (q : PaperQuestion) (parts : List PaperSubpart)
          → Takes
              (draw_answer fonts repeated picture_of kind q parts)
              (answer_height fonts kind q parts)
              (answer_figures fonts kind q parts)
      unfolding draw_answer
      Takes-draw_answer marking_scheme q [] =
          Takes-draw_wrapped fonts repeated (or_not_supplied q.answer) answer_style
      Takes-draw_answer marking_scheme q (_ ∷ _) = λ l h. Stays-refl l
      Takes-draw_answer question_paper q parts = λ l h. Stays-refl l

      Takes-draw_question_scheme :
          (kind : Kind) (q : PaperQuestion)
          → Takes
              (draw_question_scheme fonts repeated picture_of kind q)
              (question_scheme_height fonts kind q)
              (question_scheme_figures fonts kind q)
      unfolding draw_question_scheme
      Takes-draw_question_scheme question_paper q = λ l h. Stays-refl l
      Takes-draw_question_scheme marking_scheme q =
          Takes-draw_scheme fonts repeated q.scheme (page_margin + 36000)

      -- What is below the text of a part
      abbrev below_height : Kind → PaperSubpart → ℕ
      below_height question_paper part = part.working_lines * 18000
      below_height marking_scheme part = scheme_height fonts part.scheme (content_width - 62000)

      Takes-draw_below :
          (kind : Kind) (part : PaperSubpart)
          → Takes
              (draw_below fonts repeated picture_of kind part)
              (below_height kind part)
              (below_figures fonts kind part)
      unfolding draw_below
      Takes-draw_below question_paper part =
          Takes-draw_rules (page_margin + 50000) part.working_lines
      Takes-draw_below marking_scheme part =
          Takes-draw_scheme fonts repeated part.scheme (page_margin + 62000)

      part_height-eq :
          (kind : Kind) (part : PaperSubpart)
          → part_height fonts kind part
            ≡ wrapped_height fonts (part_text kind part) part_style + below_height kind part
      part_height-eq question_paper part = refl
      part_height-eq marking_scheme part = refl

      lines_first : (count : ℕ) → first_line question_paper count ≤ count * 18000
      lines_first zero = omega arith
      lines_first (suc count) = omega arith

      first_line-le :
          (kind : Kind) (part : PaperSubpart)
          → first_line kind part.working_lines ≤ below_height kind part
      first_line-le question_paper part = lines_first part.working_lines
      first_line-le marking_scheme part = omega arith

      Takes-draw_part :
          (kind : Kind) (part : PaperSubpart)
          → Takes
              (draw_part fonts repeated picture_of kind part)
              (part_height fonts kind part)
              (part_figures fonts kind part)
      unfolding draw_part draw_label
      Takes-draw_part kind part =
          let words = wrapped_height fonts (part_text kind part) part_style in
          let below = below_height kind part in
          let label = draw_label fonts repeated picture_of part in
          let mark = draw_mark fonts part.marks in
          let prompt = draw_wrapped fonts repeated (part_text kind part) part_style in
          let rest = draw_below fonts repeated picture_of kind part in
          let inner : Takes (λ l. rest (prompt (mark (label l)))) (0 + 0 + words + below)
              (part_figures fonts kind part) =
            Takes-then (λ l. prompt (mark (label l))) rest (0 + 0 + words) below
              (Takes-then (λ l. mark (label l)) prompt (0 + 0) words
                (Takes-then label mark 0 0 (λ l h. Stays-draw _ l) (Takes-draw_mark part.marks))
                (Takes-draw_wrapped fonts repeated (part_text kind part) part_style))
              (Takes-draw_below kind part) in
          Takes-ensure_space fonts repeated (λ l. rest (prompt (mark (label l))))
            (part_height fonts kind part) (words + first_line kind part.working_lines)
            (omega (arith, first_line-le kind part, part_height-eq kind part))
            (Takes-le (λ l. rest (prompt (mark (label l)))) (0 + 0 + words + below)
              (part_height fonts kind part) (omega (arith, part_height-eq kind part)) inner)

      Takes-draw_parts :
          (kind : Kind) (parts : List PaperSubpart)
          → Takes
              (draw_parts fonts repeated picture_of kind parts)
              (parts_height fonts kind parts)
              (parts_figures fonts kind parts)
      unfolding parts_figures draw_parts parts_height
      Takes-draw_parts kind [] = λ l h. Stays-refl l
      Takes-draw_parts kind (part ∷ parts) =
          Takes-then (draw_part fonts repeated picture_of kind part)
            (draw_parts fonts repeated picture_of kind parts) (part_height fonts kind part)
            (parts_height fonts kind parts) (Takes-draw_part kind part)
            (Takes-draw_parts kind parts)

      Takes-draw_own_lines :
          (kind : Kind) (q : PaperQuestion) (parts : List PaperSubpart)
          → Takes
              (draw_own_lines fonts repeated picture_of kind q parts)
              (own_lines_height fonts kind q parts)
              (own_figures fonts kind q parts)
      unfolding draw_own_lines
      Takes-draw_own_lines question_paper q [] =
          Takes-draw_rules (page_margin + 24000) q.working_lines
      Takes-draw_own_lines question_paper q (_ ∷ _) = λ l h. Stays-refl l
      Takes-draw_own_lines marking_scheme q parts = λ l h. Stays-refl l

      Takes-draw_source :
          (kind : Kind) (source : Text)
          → Takes
              (draw_source fonts repeated picture_of kind source)
              (source_height fonts kind source)
              (source_figures fonts kind source)
      unfolding draw_source
      Takes-draw_source question_paper source = λ l h. Stays-refl l
      Takes-draw_source marking_scheme [] = λ l h. Stays-refl l
      Takes-draw_source marking_scheme (c ∷ source) =
          Takes-draw_wrapped fonts repeated (source_note (c ∷ source)) source_style

      -- What the content of a question takes
      abbrev pub content_height : Kind → PaperQuestion → ℕ
      content_height kind q =
          0
          + 0
          + prompt_height fonts q
          + diagram_height fonts q.diagram
          + answer_height fonts kind q q.subparts
          + question_scheme_height fonts kind q
          + parts_height fonts kind q.subparts
          + own_lines_height fonts kind q q.subparts
          + source_height fonts kind q.source

      pub content_height-le :
          (kind : Kind) (q : PaperQuestion) → content_height kind q ≤ estimated_height fonts kind q
      unfolding estimated_height
      content_height-le kind q = omega arith

      pub Takes-draw_content :
          (kind : Kind) (index : ℕ) (q : PaperQuestion)
          → DiagramFits q.diagram
          → Takes
              (draw_content fonts repeated picture_of kind index q)
              (content_height kind q)
              (question_figures fonts picture_of kind index q)
      unfolding draw_content prompt_height
      Takes-draw_content kind index q h l room =
          let a0 = Stays-draw (text (decimal (index + 1) ++ codes ".") page_margin 11000 true) l in
          let a1 = Stays-trans a0 (Takes-draw_mark q.marks _ (omega (arith, a0.used))) in
          let a2 =
            Stays-trans a1 (
              Takes-draw_wrapped fonts repeated q.prompt prompt_style _ (omega (arith, a1.used))) in
          let a3 = Stays-trans a2 (Takes-draw_diagram q.diagram h _ (omega (arith, a2.used))) in
          let a4 =
            Stays-trans a3 (Takes-draw_answer kind q q.subparts _ (omega (arith, a3.used))) in
          let a5 = Stays-trans a4 (Takes-draw_question_scheme kind q _ (omega (arith, a4.used))) in
          let a6 = Stays-trans a5 (Takes-draw_parts kind q.subparts _ (omega (arith, a5.used))) in
          let a7 =
            Stays-trans a6 (Takes-draw_own_lines kind q q.subparts _ (omega (arith, a6.used))) in
          Stays-trans a7 (Takes-draw_source kind q.source _ (omega (arith, a7.used)))
