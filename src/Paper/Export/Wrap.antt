-- ===== src/Paper/Export/Wrap.antt =====
-- Text for the PDF: `pdfSafeText` and `wrapLine` of apps/teacher/src/paperExport.ts. The normal form
-- NFKD is a parameter, and so is what `widthOfTextAtSize` says of a text in the font and size at hand.
-- The characters that are replaced are one code unit each.
use the_cinder_project.Base.{
  ℕ, Bool, not, ◌&&◌, ◌||◌, List, [], ◌∷◌, ◌++◌, Text, codes, truthy, is_space, push_char, keep,
  leb, ◌==◌, if◌then◌else◌,
}

-- `CHARACTER_REPLACEMENTS`
abbrev pub replacements : List (ℕ × Text)
replacements =
    (0x2018, codes "'")
    ∷ (0x2019, codes "'")
    ∷ (0x201c, b'"' ∷ [])
    ∷ (0x201d, b'"' ∷ [])
    ∷ (0x2013, codes "-")
    ∷ (0x2014, codes "-")
    ∷ (0x2026, codes "...")
    ∷ (0x2022, codes "-")
    ∷ (0x00d7, codes "x")
    ∷ (0x00f7, codes "/")
    ∷ (0x2264, codes "<=")
    ∷ (0x2265, codes ">=")
    ∷ (0x2260, codes "!=")
    ∷ (0x00b1, codes "+/-")
    ∷ (0x20b9, codes "Rs.")
    ∷ (0x03a9, codes "ohm")
    ∷ (0x03b1, codes "alpha")
    ∷ (0x03b2, codes "beta")
    ∷ (0x03b3, codes "gamma")
    ∷ (0x03b4, codes "delta")
    ∷ (0x03b8, codes "theta")
    ∷ (0x03bb, codes "lambda")
    ∷ (0x03bc, codes "mu")
    ∷ (0x03c0, codes "pi")
    ∷ (0x03c3, codes "sigma")
    ∷ (0x03c6, codes "phi")
    ∷ (0x03c9, codes "omega")
    ∷ (0x00b2, codes "^2")
    ∷ (0x00b3, codes "^3")
    ∷ []

unfoldable pub replacement : ℕ → List (ℕ × Text) → Text
replacement c [] = c ∷ []
replacement c ((d, t) ∷ more) = if c == d then t else replacement c more

unfoldable pub replaced : Text → Text
unfolding replacement
replaced [] = []
replaced (c ∷ s) = replacement c replacements ++ replaced s

-- `/[^\x20-\x7e\u00b0]/g`
abbrev pub printable : ℕ → ℕ
printable c = if (leb 0x20 c && leb c 0x7e) || c == 0xb0 then c else b'?'

unfoldable pub printables : Text → Text
printables [] = []
printables (c ∷ s) = printable c ∷ printables s

abbrev pub is_mark : ℕ → Bool
is_mark c = leb 0x300 c && leb c 0x36f

unfoldable pub pdf_safe_text : (Text → Text) → Text → Text
unfolding replaced printables
pdf_safe_text decompose value =
    printables (keep (λ c. not (is_mark c)) (decompose (replaced value)))

-- What stands between white space, empty pieces included.
unfoldable pub pieces : Text → List Text
unfolding is_space
pieces [] = [] ∷ []
pieces (c ∷ s) = let rest = pieces s in if is_space c then [] ∷ rest else push_char c rest

-- `trim().split(/\s+/).filter(Boolean)`
unfoldable pub words_of : Text → List Text
unfolding pieces
words_of s = keep truthy (pieces s)

abbrev pub some_line : Text → List Text
some_line [] = []
some_line (c ∷ s) = (c ∷ s) ∷ []

abbrev pub with_word : Text → Text → Text
with_word [] word = word
with_word (c ∷ line) word = (c ∷ line) ++ (b' ' ∷ word)

module _ (fits : Text → Bool) where
  -- The loop over the characters of a word that is too wide: the lines it ends, and what is left.
  abbrev pub next_fragment : Text → ℕ → List Text × Text
  next_fragment fragment c =
      if not (fits (fragment ++ (c ∷ []))) && truthy fragment
      then (fragment ∷ [], c ∷ [])
      else ([], fragment ++ (c ∷ []))

  unfoldable pub break_word : Text → Text → List Text × Text
  break_word fragment [] = ([], fragment)
  break_word fragment (c ∷ word) =
      let next = next_fragment fragment c in
      let rest = break_word next.1 word in (next.0 ++ rest.0, rest.1)

  -- One turn of the loop over the words: the lines it ends, and the line that is open.
  unfoldable pub add_word : Text → Text → List Text × Text
  unfolding break_word
  add_word line word =
      let broken = break_word [] word in
      if fits (with_word line word)
      then ([], with_word line word)
      else if fits word
      then (some_line line, word)
      else (some_line line ++ broken.0, broken.1)

  unfoldable pub wrap_words : Text → List Text → List Text
  unfolding add_word
  wrap_words line [] = some_line line
  wrap_words line (word ∷ words) =
      let next = add_word line word in next.0 ++ wrap_words next.1 words

  abbrev pub or_blank : List Text → List Text
  or_blank [] = [] ∷ []
  or_blank (word ∷ words) = wrap_words [] (word ∷ words)

  unfoldable pub wrap_line : (Text → Text) → Text → List Text
  unfolding pdf_safe_text words_of wrap_words
  wrap_line decompose value = or_blank (words_of (pdf_safe_text decompose value))
