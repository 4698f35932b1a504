-- ===== src/Paper/Clean.antt =====
-- `cleanModelText` of apps/teacher/src/paperLogic.ts: its replacements, one after another. A regular
-- expression is a scan that skips what it matched.
use the_cinder_project.Base.{
  ℕ, zero, suc, ◌+◌, ◌-◌, Bool, true, false, ◌&&◌, ◌||◌, Option, none, some, [], ◌∷◌, Text, codes,
  is_space, trim, lower, drop, length, leb, ltb, ◌==◌, if◌then◌else◌,
}
use the_cinder_project.Base.Json.{Json, str}
use mathlib.Core.List.{reverse}

-- The text behind a word, whatever the case of its letters; the word is in lower case.
unfoldable pub eat : Text → Text → Option Text
eat [] s = some s
eat (w ∷ ws) [] = none
eat (w ∷ ws) (c ∷ s) = if lower c == w then eat ws s else none

abbrev pub or_eat : Option Text → Option Text → Option Text
or_eat none o = o
or_eat (some s) o = some s

abbrev pub eaten : Text → Option Text → ℕ
eaten s none = 0
eaten s (some rest) = length s - length rest

abbrev pub optional_word : Option Text → Text → Text
optional_word none s = s
optional_word (some rest) s = rest

unfoldable pub skip_spaces : Text → Text
unfolding is_space
skip_spaces [] = []
skip_spaces (c ∷ s) = if is_space c then skip_spaces s else c ∷ s

-- How long a marker at the start of a text is; 0 if there is none.
marker_length : Text → ℕ
unfolding eat
marker_length s = eaten s (
    or_eat (eat (codes "[cinder_questions]") s)
      (or_eat (eat (codes "[cinder_answer_key]") s) (eat (codes "[working_space]") s)))

-- `replace(/\[(?:CINDER_QUESTIONS|…)\]/gi, "")`; the number of characters still to skip.
unfoldable drop_markers : ℕ → Text → Text
unfolding marker_length
drop_markers n [] = []
drop_markers (suc n) (c ∷ s) = drop_markers n s
drop_markers zero (c ∷ s) =
    let n = marker_length (c ∷ s) in
    let skipped = drop_markers (n - 1) s in
    let kept = drop_markers zero s in if ltb 0 n then skipped else c ∷ kept

-- The start of a fence, and the name of a language behind it.
abbrev open_fence : Option Text → Text → Text
open_fence none s = s
open_fence (some rest) s = skip_spaces (
    optional_word
      (or_eat (eat (codes "json") rest) (
        or_eat (eat (codes "text") rest)
          (or_eat (eat (codes "markdown") rest) (eat (codes "md") rest))))
      rest)

abbrev pub close_fence : Option Text → Text → Text
close_fence none s = s
close_fence (some rest) s = reverse (skip_spaces rest)

-- `replace(/\s*```$/i, "")`
unfoldable pub drop_end_fence : Text → Text
unfolding skip_spaces eat
drop_end_fence s = close_fence (eat (codes "```") (reverse s)) s

unfoldable pub count_while : (ℕ → Bool) → Text → ℕ
count_while p [] = 0
count_while p (c ∷ s) = let more = count_while p s in if p c then more + 1 else 0

-- The length of `#{1,6}\s+` at the start of a text; 0 if it does not match.
heading_length : Text → ℕ
unfolding count_while is_space
heading_length s =
    let marks = count_while (λ c. c == b'#') s in
    let spaces = count_while is_space (drop marks s) in
    if leb 1 marks && leb marks 6 && leb 1 spaces then marks + spaces else 0

abbrev ends_line : ℕ → Bool
ends_line c = c == 10 || c == 13 || c == 0x2028 || c == 0x2029

-- `replace(/^#{1,6}\s+/gm, "")`; the flag says that a line starts here.
unfoldable drop_headings : ℕ → Bool → Text → Text
unfolding heading_length
drop_headings n starts [] = []
drop_headings (suc n) starts (c ∷ s) = drop_headings n (ends_line c) s
drop_headings zero starts (c ∷ s) =
    let n = heading_length (c ∷ s) in
    let skipped = drop_headings (n - 1) (ends_line c) s in
    let kept = drop_headings zero (ends_line c) s in if starts && ltb 0 n then skipped else c ∷ kept

-- `replace(/\*\*/g, "")`; the flag says that a star before this character still waits for its pair.
unfoldable drop_stars : Bool → Text → Text
drop_stars false [] = []
drop_stars true [] = b'*' ∷ []
drop_stars false (c ∷ s) =
    let star = drop_stars true s in
    let other = drop_stars false s in if c == b'*' then star else c ∷ other
drop_stars true (c ∷ s) =
    let rest = drop_stars false s in if c == b'*' then rest else b'*' ∷ c ∷ rest

abbrev starts_underscore : Text → Bool
starts_underscore [] = false
starts_underscore (c ∷ s) = c == b'_'

-- `replace(/__+/g, "")`: an underscore goes if it stands beside another.
unfoldable drop_underscores : Bool → Text → Text
drop_underscores before [] = []
drop_underscores before (c ∷ s) =
    let rest = drop_underscores (c == b'_') s in
    if c == b'_' && (before || starts_underscore s) then rest else c ∷ rest

abbrev starts_newline : Text → Bool
starts_newline [] = false
starts_newline (c ∷ s) = c == 10

-- `replace(/\r\n/g, "\n")`
unfoldable plain_newlines : Text → Text
plain_newlines [] = []
plain_newlines (c ∷ s) =
    let rest = plain_newlines s in if c == 13 && starts_newline s then rest else c ∷ rest

unfoldable pub clean_text : Text → Text
unfolding drop_markers drop_end_fence drop_headings drop_stars drop_underscores plain_newlines eat
    skip_spaces trim
clean_text value =
    let without_markers = drop_markers 0 value in
    let opened = open_fence (eat (codes "```") without_markers) without_markers in
    trim (
      plain_newlines
        (drop_underscores false (drop_stars false (drop_headings 0 true (drop_end_fence opened)))))

-- `cleanModelText(value, fallback)`
unfoldable pub clean_model_text : Option Json → Text → Text
unfolding clean_text
clean_model_text (some (str value)) fallback = clean_text value
clean_model_text _ fallback = fallback
