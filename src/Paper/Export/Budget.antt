-- ===== src/Paper/Export/Budget.antt =====
-- How far the parts of the PDF go down a page that has room for them.
use the_cinder_project.Base.{
  ℕ, suc, ◌+◌, ◌-◌, ◌*◌, ◌≤◌, Bool, false, Option, some, List, [], ◌∷◌, ◌++◌, append_assoc, Text,
  length, All, All-append, All-map, ltb, ◌≡◌, refl, sym, ◌∙◌, ap, ap₂, subst, arith,
}
use native.Mathlib.Nat.{suc-mul}
use the_cinder_project.Paper.{PaperScheme}
use the_cinder_project.Paper.Print.{scheme_lines}
use the_cinder_project.Paper.Export.Layout.{
  Figure, text, Drawing, Layout, Fonts, Style, draw, down, page_capacity, lines_of, draw_lines,
  wrapped_height, scheme_style, heights, scheme_height, ensure_space, draw_wrapped, draw_all,
  draw_scheme, right_edge,
}
use the_cinder_project.Paper.Export.Figures.{
  line_figures, wrapped_figures, all_figures, scheme_figures,
}

-- On one page, and not below a place.
abbrev pub IsOn : ℕ → ℕ → Drawing → Type 0
IsOn page lowest d = (d.page ≡ page) × (d.at ≤ lowest)

-- What drawings show
abbrev pub figures : List Drawing → List Figure
figures [] = []
figures (d ∷ ds) = d.figure ∷ figures ds

figures-append : (ds es : List Drawing) → figures (ds ++ es) ≡ figures ds ++ figures es
figures-append [] es = refl
figures-append (d ∷ ds) es = ap (λ fs. d.figure ∷ fs) (figures-append ds es)

-- What follows a layout on the same page, within a height, and shows some figures.
pub record Stays (l m : Layout) (height : ℕ) (shown : List Figure) : Type 0 where
  pub page : m.page ≡ l.page
  pub used : m.used ≤ l.used + height
  pub new : List Drawing
  pub drawn : m.drawn ≡ new ++ l.drawn
  pub on : All (IsOn l.page (l.used + height)) new
  pub shows : figures new ≡ shown

pub Stays-refl : (l : Layout) → Stays l l 0 []
Stays-refl l = record {
  page = refl;
  used = omega arith;
  new = [];
  drawn = refl;
  on = tt;
  shows = refl;
}

pub Stays-down : (height : ℕ) (l : Layout) → Stays l (down height l) height []
Stays-down height l = record {
  page = refl;
  used = omega arith;
  new = [];
  drawn = refl;
  on = tt;
  shows = refl;
}

pub Stays-draw : (figure : Figure) (l : Layout) → Stays l (draw figure l.used l) 0 (figure ∷ [])
Stays-draw figure l = record {
  page = refl;
  used = omega arith;
  new = record { page = l.page; at = l.used; figure = figure } ∷ [];
  drawn = refl;
  on = ((refl, omega arith), tt);
  shows = refl;
}

pub Stays-le :
    {l m : Layout} {a : ℕ} {fs : List Figure} (b : ℕ) → Stays l m a fs → a ≤ b → Stays l m b fs
Stays-le {l} {m} {a} b s h = record {
  page = s.page;
  used = omega (arith, s.used);
  new = s.new;
  drawn = s.drawn;
  on =
      All-map {P = IsOn l.page (l.used + a)} {Q = IsOn l.page (l.used + b)} s.new
        (λ d on. (on.0, omega (arith, on.1))) s.on;
  shows = s.shows;
}

pub Stays-trans :
    {l m n : Layout} {a b : ℕ} {fs gs : List Figure}
    → Stays l m a fs
    → Stays m n b gs
    → Stays l n (a + b) (gs ++ fs)
Stays-trans {l} {m} {n} {a} {b} s t = record {
  page = t.page ∙ s.page;
  used = omega (arith, s.used, t.used);
  new = t.new ++ s.new;
  drawn = t.drawn ∙ ap (λ ds. t.new ++ ds) s.drawn ∙ sym (append_assoc t.new s.new l.drawn);
  on =
      All-append (IsOn l.page (l.used + (a + b))) t.new s.new
        (All-map {P = IsOn m.page (m.used + b)} {Q = IsOn l.page (l.used + (a + b))} t.new
          (λ d on. (on.0 ∙ s.page, omega (arith, on.1, s.used))) t.on)
        (All-map {P = IsOn l.page (l.used + a)} {Q = IsOn l.page (l.used + (a + b))} s.new
          (λ d on. (on.0, omega (arith, on.1))) s.on);
  shows = figures-append t.new s.new ∙ ap₂ (λ fs gs. fs ++ gs) t.shows s.shows;
}

-- A step of the drawing that shows some figures and takes at most a height, wherever the page has it.
abbrev pub Takes : (Layout → Layout) → ℕ → List Figure → Type 0
Takes f height shown = (l : Layout) → l.used + height ≤ page_capacity → Stays l (f l) height shown

pub Takes-then :
    (f g : Layout → Layout) (a b : ℕ) {fs gs : List Figure}
    → Takes f a fs
    → Takes g b gs
    → Takes (λ l. g (f l)) (a + b) (gs ++ fs)
Takes-then f g a b s t l h =
    let first = s l (omega arith) in Stays-trans first (t (f l) (omega (arith, first.used)))

pub Takes-le :
    (f : Layout → Layout) (a b : ℕ) {fs : List Figure} → a ≤ b → Takes f a fs → Takes f b fs
Takes-le f a b h s l k = Stays-le b (s l (omega arith)) h

Takes-down : (height : ℕ) → Takes (down height) height []
Takes-down height l h = Stays-down height l

Takes-draw : (figure : Figure) → Takes (λ l. draw figure l.used l) 0 (figure ∷ [])
Takes-draw figure l h = Stays-draw figure l

module _ (fonts : Fonts) where
  -- The lines are drawn whether or not there is room.
  pub draw_lines-Stays :
      (x size line_height : ℕ) (strong : Bool) (lines : List Text) (l : Layout)
      → Stays l
          (draw_lines fonts x size line_height strong lines l)
          (length lines * line_height)
          (line_figures x size strong lines)
  unfolding draw_lines line_figures
  draw_lines-Stays x size line_height strong [] l =
      Stays-le (0 * line_height) (Stays-refl l) (omega arith)
  draw_lines-Stays x size line_height strong (line ∷ lines) l =
      let shown = draw (text line x size strong) l.used l in
      let more = draw_lines-Stays x size line_height strong lines (down line_height shown) in
      Stays-le (suc (length lines) * line_height)
        (Stays-trans
          (Stays-trans (Stays-draw (text line x size strong) l) (Stays-down line_height shown))
          more)
        (omega (arith, suc-mul (length lines) line_height))

  module _ (repeated : Option Text) where
    -- Room that is there needs no new page.
    ensure_space-room :
        (height : ℕ) (l : Layout)
        → l.used + height ≤ page_capacity
        → ensure_space fonts repeated height l ≡ l
    unfolding ensure_space
    ensure_space-room height l h =
        let room : ltb page_capacity (l.used + height) ≡ false = ground arith in simp room refl

    -- To ask for room takes none.
    pub Takes-ensure_space :
        (f : Layout → Layout) (height room : ℕ) {fs : List Figure}
        → room ≤ height
        → Takes f height fs
        → Takes (λ l. f (ensure_space fonts repeated room l)) height fs
    Takes-ensure_space f height room {fs} h t l k =
        subst (λ m. Stays l (f m) height fs) (sym (ensure_space-room room l (omega arith))) (t l k)

    pub Takes-draw_wrapped :
        (value : Text) (style : Style)
        → Takes
            (draw_wrapped fonts repeated value style)
            (wrapped_height fonts value style)
            (wrapped_figures fonts value style)
    unfolding draw_wrapped wrapped_height
    Takes-draw_wrapped value style =
        let lines = lines_of fonts value style.width style.strong style.size in
        let draws = draw_lines fonts style.x style.size style.line_height style.strong lines in
        Takes-ensure_space (λ l. down style.gap_after (draws l))
          (length lines * style.line_height + style.gap_after)
          (length lines * style.line_height + style.gap_after) (omega arith)
          (Takes-then draws (down style.gap_after) (length lines * style.line_height)
            style.gap_after
            (λ l h. draw_lines-Stays style.x style.size style.line_height style.strong lines l)
            (Takes-down style.gap_after))

    Takes-draw_all :
        (x width : ℕ) (lines : List Text)
        → Takes
            (draw_all fonts repeated x width lines)
            (heights fonts width lines)
            (all_figures fonts x width lines)
    unfolding all_figures draw_all heights wrapped_height
    Takes-draw_all x width [] l h = Stays-refl l
    Takes-draw_all x width (line ∷ lines) l h =
        let height = wrapped_height fonts line (scheme_style x width) in
        let draws = draw_wrapped fonts repeated line (scheme_style x width) in
        Takes-then (λ l. draws (ensure_space fonts repeated height l))
          (draw_all fonts repeated x width lines) height (heights fonts width lines)
          (Takes-ensure_space draws height height (omega arith)
            (Takes-draw_wrapped line (scheme_style x width)))
          (Takes-draw_all x width lines) l h

    pub Takes-draw_scheme :
        (scheme : PaperScheme) (x : ℕ)
        → Takes
            (draw_scheme fonts repeated scheme x)
            (scheme_height fonts scheme (right_edge - x))
            (scheme_figures fonts scheme x)
    unfolding draw_scheme scheme_height
    Takes-draw_scheme scheme x = Takes-draw_all x (right_edge - x) (scheme_lines (some scheme) [])
