-- ===== src/Paper/Export/Kept.antt =====
-- The room that a question asks for keeps it together.
use the_cinder_project.Base.{
  ℕ, suc, ◌+◌, ◌*◌, ◌≤◌, true, Option, none, some, List, [], ◌++◌, Text, trim, truthy, length, All,
  All-map, leb, ltb, if◌then◌else◌, ◌≡◌, ◌⊎◌, refl, ◌∙◌, ap, arith, Bool-cases, inl, inr,
}
use the_cinder_project.Paper.{PaperDiagram, PaperQuestion}
use the_cinder_project.Paper.Export.Layout.{
  Drawing, Layout, Fonts, page_margin, content_width, page_capacity, lines_of, draw_custom_header,
  new_page, ensure_space,
}
use the_cinder_project.Paper.Export.Figures.{header_figures, question_figures}
use the_cinder_project.Paper.Export.Question.{
  Kind, Picture, estimated_height, draw_content, needed_space, end_question, draw_question,
}
use the_cinder_project.Paper.Export.Budget.{
  IsOn, figures, Stays, Stays-refl, Stays-down, Stays-trans, draw_lines-Stays,
}
use the_cinder_project.Paper.Export.Together.{
  DiagramFits, content_height, content_height-le, Takes-draw_content,
}

module _ (fonts : Fonts) where
  -- What a header takes on each page that repeats it
  unfoldable pub header_height : Option Text → ℕ
  unfolding trim lines_of
  header_height none = 0
  header_height (some header) =
      if truthy (trim header)
      then length (lines_of fonts (trim header) content_width true 8500) * 11000 + 7000
      else 0

  draw_custom_header-Stays :
      (o : Option Text) (l : Layout)
      → Stays l (draw_custom_header fonts o l) (header_height o) (header_figures fonts o)
  unfolding draw_custom_header header_height
  draw_custom_header-Stays none l = Stays-refl l
  draw_custom_header-Stays (some header) l =
      let lines = lines_of fonts (trim header) content_width true 8500 in
      let drawn = draw_lines-Stays fonts page_margin 8500 11000 true lines l in
      elim (Bool-cases (truthy (trim header))) [
        | inl e ↦ simp e (Stays-trans drawn (Stays-down 7000 _))
        | inr e ↦ simp e (Stays-refl l)
      ]

  module _ (repeated : Option Text) (picture_of : PaperDiagram → Picture) where
    -- What is added to the drawings is what the PDF shows of a question, all of it on one page and within
    -- its margins: the current page, or the next one, which begins with the header that pages repeat.
    pub record IsTogether (kind : Kind) (index : ℕ) (q : PaperQuestion) (l m : Layout)
        : Type 0 where
      pub place : ℕ
      pub ends : m.page ≡ place
      pub content : List Drawing
      pub head : List Drawing
      pub drawn : m.drawn ≡ content ++ (head ++ l.drawn)
      pub on : All (IsOn place page_capacity) content
      pub shows : figures content ≡ question_figures fonts picture_of kind index q
      pub near :
          ((place ≡ l.page) × (head ≡ []))
          ⊎ ((place ≡ suc l.page) × (figures head ≡ header_figures fonts repeated))

    from_here :
        (kind : Kind) (index : ℕ) (q : PaperQuestion) (l m : Layout) (start height : ℕ)
        → l.used + height ≤ page_capacity
        → Stays l m height (question_figures fonts picture_of kind index q)
        → IsTogether kind index q l (end_question fonts repeated picture_of start m)
    from_here kind index q l m start height room s = record {
      place = l.page;
      ends = s.page;
      content = s.new;
      head = [];
      drawn = s.drawn;
      on =
          All-map {P = IsOn l.page (l.used + height)} {Q = IsOn l.page page_capacity} s.new
            (λ d on. (on.0, omega (arith, on.1))) s.on;
      shows = s.shows;
      near = inl (refl, refl);
    }

    from_there :
        (kind : Kind) (index : ℕ) (q : PaperQuestion) (l next m : Layout) (start above height : ℕ)
        → Stays
            (record l { page = suc l.page; used = 0 })
            next
            above
            (header_figures fonts repeated)
        → next.used + height ≤ page_capacity
        → Stays next m height (question_figures fonts picture_of kind index q)
        → IsTogether kind index q l (end_question fonts repeated picture_of start m)
    from_there kind index q l next m start above height header room s = record {
      place = suc l.page;
      ends = s.page ∙ header.page;
      content = s.new;
      head = header.new;
      drawn = s.drawn ∙ ap (λ ds. s.new ++ ds) header.drawn;
      on =
          All-map {P = IsOn next.page (next.used + height)} {Q = IsOn (suc l.page) page_capacity}
            s.new (λ d on. (on.0 ∙ header.page, omega (arith, on.1))) s.on;
      shows = s.shows;
      near = inr (refl, header.shows);
    }

    -- What the PDF shows of a question is drawn on one page, the one that was reached or the next,
    -- nothing of it below the margin and besides it at most the header of a new page, if what it is
    -- estimated to take and the header that pages repeat fit on a page together; where the diagram, if
    -- there is one, was scaled to its box, or the text in its place is not higher than that.
    pub draw_question-IsTogether :
        (kind : Kind) (index : ℕ) (q : PaperQuestion) (l : Layout)
        → DiagramFits fonts repeated picture_of q.diagram
        → header_height repeated + estimated_height fonts kind q ≤ page_capacity
        → IsTogether kind index q l (draw_question fonts repeated picture_of kind index q l)
    unfolding draw_question needed_space ensure_space new_page
    draw_question-IsTogether kind index q l fits room =
        let height = content_height fonts repeated picture_of kind q in
        let less = content_height-le fonts repeated picture_of kind q in
        let estimated = estimated_height fonts kind q in
        let fresh : Layout = record l { page = suc l.page; used = 0 } in
        let next = draw_custom_header fonts repeated fresh in
        let header = draw_custom_header-Stays repeated fresh in
        let whole : leb estimated page_capacity ≡ true = ground arith in
        let here : l.used + estimated ≤ page_capacity
            → IsTogether kind index q l (
                end_question fonts repeated picture_of l.used
                  (draw_content fonts repeated picture_of kind index q l)) =
          λ h.
            from_here kind index q l (draw_content fonts repeated picture_of kind index q l) l.used
              height (omega (arith, less))
              (Takes-draw_content fonts repeated picture_of kind index q fits l
                (omega (arith, less))) in
        let there : IsTogether kind index q l (
            end_question fonts repeated picture_of next.used
              (draw_content fonts repeated picture_of kind index q next)) =
          from_there kind index q l next (draw_content fonts repeated picture_of kind index q next)
            next.used (header_height repeated) height header (omega (arith, less, header.used))
            (Takes-draw_content fonts repeated picture_of kind index q fits next
              (omega (arith, less, header.used))) in
        elim (Bool-cases (ltb page_capacity (l.used + estimated))) [
          | inl e ↦ simp (whole, e) there
          | inr e ↦ simp (whole, e) (here (ground arith))
        ]
