-- ===== src/Paper/Export/Layout.antt =====
-- The pages of the PDF: the closures of `createPaperPdf` that move down a page and draw. Lengths are in
-- thousandths of a point, and where the source has `y`, `used` is how far it is below the upper margin,
-- so `y - height < CONTENT_BOTTOM` is `page_capacity < used + height`. What is drawn is listed from the
-- last to the first, without its colour.
use the_cinder_project.Base.{
  ℕ, suc, ◌+◌, ◌-◌, ◌*◌, ◌/◌, Bool, true, false, not, Option, none, some, List, [], ◌∷◌, Text, trim,
  truthy, length, ltb, if◌then◌else◌,
}
use the_cinder_project.Paper.{PaperScheme}
use the_cinder_project.Paper.Print.{scheme_lines}
use the_cinder_project.Paper.Export.Wrap.{wrap_line}

abbrev pub page_margin : ℕ
page_margin = 52000

-- `A4_WIDTH - PAGE_MARGIN * 2`
abbrev pub content_width : ℕ
content_width = 491280

-- `A4_WIDTH - PAGE_MARGIN`
abbrev pub right_edge : ℕ
right_edge = 543280

-- `A4_HEIGHT - PAGE_MARGIN - CONTENT_BOTTOM`
abbrev pub page_capacity : ℕ
page_capacity = 741890

pub data Figure : Type 0 where
  text : Text → ℕ → ℕ → Bool → Figure
  rule : ℕ → Figure
  image : ℕ → ℕ → ℕ → Figure

pub record Drawing : Type 0 where
  pub page : ℕ
  pub at : ℕ
  pub figure : Figure

pub record Layout : Type 0 where
  pub page : ℕ
  pub used : ℕ
  pub drawn : List Drawing

abbrev pub draw : Figure → ℕ → Layout → Layout
draw figure at l = record l { drawn = record { page = l.page; at = at; figure = figure } ∷ l.drawn }

abbrev pub down : ℕ → Layout → Layout
down height l = record l { used = l.used + height }

-- The options of `drawWrapped`, with their defaults filled in.
pub record Style : Type 0 where
  pub x : ℕ
  pub width : ℕ
  pub size : ℕ
  pub line_height : ℕ
  pub strong : Bool
  pub gap_after : ℕ

-- `size * 1.42`; the sizes that leave the line height out are tenths of a point.
abbrev pub usual_line_height : ℕ → ℕ
usual_line_height size = size / 100 * 142

-- The widths of texts in the two fonts, the normal form, and the header that pages repeat.
pub record Fonts : Type 0 where
  pub width_of : Bool → ℕ → Text → ℕ
  pub decompose : Text → Text

abbrev pub scheme_style : ℕ → ℕ → Style
scheme_style x width = record {
  x = x;
  width = width;
  size = 8600;
  line_height = 11000;
  strong = false;
  gap_after = 1000;
}

module _ (fonts : Fonts) where
  unfoldable pub lines_of : Text → ℕ → Bool → ℕ → List Text
  unfolding wrap_line
  lines_of value width strong size =
      wrap_line (λ line. not (ltb width (fonts.width_of strong size line))) fonts.decompose value

  unfoldable pub draw_lines : ℕ → ℕ → ℕ → Bool → List Text → Layout → Layout
  draw_lines x size line_height strong [] l = l
  draw_lines x size line_height strong (line ∷ lines) l =
      draw_lines x size line_height strong lines
        (down line_height (draw (text line x size strong) l.used l))

  -- `drawCustomHeader`
  unfoldable pub draw_custom_header : Option Text → Layout → Layout
  unfolding trim lines_of draw_lines
  draw_custom_header none l = l
  draw_custom_header (some header) l =
      if truthy (trim header)
      then down 7000 (
          draw_lines page_margin 8500 11000 true (lines_of (trim header) content_width true 8500) l)
      else l

  unfoldable pub wrapped_height : Text → Style → ℕ
  unfolding lines_of
  wrapped_height value style =
      length (lines_of value style.width style.strong style.size) * style.line_height
      + style.gap_after

  unfoldable pub heights : ℕ → List Text → ℕ
  unfolding wrapped_height
  heights width [] = 0
  heights width (line ∷ lines) = wrapped_height line (scheme_style 0 width) + heights width lines

  -- `schemeHeight`
  unfoldable pub scheme_height : PaperScheme → ℕ → ℕ
  unfolding heights scheme_lines
  scheme_height scheme width = heights width (scheme_lines (some scheme) [])

  module _ (repeated : Option Text) where
    unfoldable pub new_page : Layout → Layout
    unfolding draw_custom_header
    new_page l = draw_custom_header repeated (record l { page = suc l.page; used = 0 })

    unfoldable pub ensure_space : ℕ → Layout → Layout
    unfolding new_page
    ensure_space height l = if ltb page_capacity (l.used + height) then new_page l else l

    unfoldable pub draw_wrapped : Text → Style → Layout → Layout
    unfolding ensure_space lines_of draw_lines wrapped_height
    draw_wrapped value style l = down style.gap_after (
        draw_lines style.x style.size style.line_height style.strong
          (lines_of value style.width style.strong style.size)
          (ensure_space (wrapped_height value style) l))

    unfoldable pub draw_all : ℕ → ℕ → List Text → Layout → Layout
    unfolding ensure_space draw_wrapped wrapped_height
    draw_all x width [] l = l
    draw_all x width (line ∷ lines) l = draw_all x width lines (
        draw_wrapped line (scheme_style x width)
          (ensure_space (wrapped_height line (scheme_style x width)) l))

    -- `drawScheme`
    unfoldable pub draw_scheme : PaperScheme → ℕ → Layout → Layout
    unfolding draw_all scheme_lines
    draw_scheme scheme x l = draw_all x (right_edge - x) (scheme_lines (some scheme) []) l
