-- ===== src/Paper/Export/Wrapped.antt =====
-- What the lines of a wrapped text are.
use the_cinder_project.Base.{
  ℕ, ◌≤◌, Bool, true, not, ◌&&◌, List, [], ◌∷◌, ◌++◌, append_assoc, append-nil, Text, truthy,
  is_space, push_char, keep, length, All, All-append, ◌≡◌, ◌⊎◌, refl, sym, ◌∙◌, ap, arith,
  Bool-cases, inl, inr,
}
use the_cinder_project.Paper.Export.Wrap.{
  pieces, words_of, some_line, with_word, next_fragment, break_word, add_word, wrap_words, or_blank,
  pdf_safe_text, wrap_line,
}

abbrev pub flat : List Text → Text
flat [] = []
flat (t ∷ ts) = t ++ flat ts

-- A text without its white space.
abbrev pub letters : Text → Text
letters s = keep (λ c. not (is_space c)) s

letters-append : (s t : Text) → letters (s ++ t) ≡ letters s ++ letters t
letters-append [] t = refl
letters-append (c ∷ s) t = elim (Bool-cases (is_space c)) [
  | inl e ↦ simp e (letters-append s t)
  | inr e ↦ simp e (ap (λ u. c ∷ u) (letters-append s t))
]

flat-append : (ss ts : List Text) → flat (ss ++ ts) ≡ flat ss ++ flat ts
flat-append [] ts = refl
flat-append (s ∷ ss) ts =
    ap (λ u. s ++ u) (flat-append ss ts) ∙ sym (append_assoc s (flat ss) (flat ts))

flat-keep : (ss : List Text) → flat (keep truthy ss) ≡ flat ss
flat-keep [] = refl
flat-keep ([] ∷ ss) = flat-keep ss
flat-keep ((c ∷ s) ∷ ss) = ap (λ u. (c ∷ s) ++ u) (flat-keep ss)

flat-push_char : (c : ℕ) (ss : List Text) → flat (push_char c ss) ≡ c ∷ flat ss
flat-push_char c [] = refl
flat-push_char c (s ∷ ss) = refl

letters-pieces : (s : Text) → flat (pieces s) ≡ letters s
unfolding pieces
letters-pieces [] = refl
letters-pieces (c ∷ s) = elim (Bool-cases (is_space c)) [
  | inl e ↦ simp e (letters-pieces s)
  | inr e ↦ simp e (flat-push_char c (pieces s) ∙ ap (λ u. c ∷ u) (letters-pieces s))
]

words-letters : (s : Text) → flat (words_of s) ≡ letters s
unfolding words_of
words-letters s = flat-keep (pieces s) ∙ letters-pieces s

letters-letters : (s : Text) → letters (letters s) ≡ letters s
letters-letters [] = refl
letters-letters (c ∷ s) = elim (Bool-cases (is_space c)) [
  | inl e ↦ simp e (letters-letters s)
  | inr e ↦ simp e (ap (λ u. c ∷ u) (letters-letters s))
]

letters-with_word :
    (line word : Text) → letters (with_word line word) ≡ letters line ++ letters word
unfolding is_space
letters-with_word [] word = refl
letters-with_word (c ∷ line) word = letters-append (c ∷ line) (b' ' ∷ word)

flat-some_line : (line : Text) → flat (some_line line) ≡ line
flat-some_line [] = refl
flat-some_line (c ∷ s) = append-nil (c ∷ s)

module _ (fits : Text → Bool) where
  -- A line that fits, or a single character.
  abbrev pub IsNarrow : Text → Type 0
  IsNarrow line = (fits line ≡ true) ⊎ (length line ≤ 1)

  next_fragment-flat :
      (fragment : Text) (c : ℕ)
      → flat (next_fragment fits fragment c).0 ++ (next_fragment fits fragment c).1
        ≡ fragment ++ (c ∷ [])
  next_fragment-flat fragment c =
      elim (Bool-cases (not (fits (fragment ++ (c ∷ []))) && truthy fragment)) [
        | inl e ↦ simp (e, append-nil) refl
        | inr e ↦ simp e refl
      ]

  next_fragment-IsNarrow :
      (fragment : Text) (c : ℕ)
      → IsNarrow fragment
      → All IsNarrow (next_fragment fits fragment c).0 × IsNarrow (next_fragment fits fragment c).1
  next_fragment-IsNarrow [] c h = elim (Bool-cases (fits (c ∷ []))) [
    | inl e ↦ simp e (tt, inl refl)
    | inr e ↦ simp e (tt, inr (omega arith))
  ]
  next_fragment-IsNarrow (d ∷ s) c h = elim (Bool-cases (fits ((d ∷ s) ++ (c ∷ [])))) [
    | inl e ↦ simp e (tt, inl refl)
    | inr e ↦ simp e ((h, tt), inr (omega arith))
  ]

  break_word-flat :
      (fragment word : Text)
      → flat (break_word fits fragment word).0 ++ (break_word fits fragment word).1
        ≡ fragment ++ word
  unfolding break_word
  break_word-flat fragment [] = sym (append-nil fragment)
  break_word-flat fragment (c ∷ word) =
      let next = next_fragment fits fragment c in
      let rest = break_word fits next.1 word in
      ap (λ u. u ++ rest.1) (flat-append next.0 rest.0)
      ∙ append_assoc (flat next.0) (flat rest.0) rest.1
      ∙ ap (λ u. flat next.0 ++ u) (break_word-flat next.1 word)
      ∙ sym (append_assoc (flat next.0) next.1 word)
      ∙ ap (λ u. u ++ word) (next_fragment-flat fragment c)
      ∙ append_assoc fragment (c ∷ []) word

  break_word-IsNarrow :
      (fragment word : Text)
      → IsNarrow fragment
      → All IsNarrow (break_word fits fragment word).0 × IsNarrow (break_word fits fragment word).1
  unfolding break_word
  break_word-IsNarrow fragment [] h = (tt, h)
  break_word-IsNarrow fragment (c ∷ word) h =
      let next = next_fragment fits fragment c in
      let now = next_fragment-IsNarrow fragment c h in
      let later = break_word-IsNarrow next.1 word now.1 in
      (All-append IsNarrow next.0 (break_word fits next.1 word).0 now.0 later.0, later.1)

  add_word-letters :
      (line word : Text)
      → letters (flat (add_word fits line word).0) ++ letters (add_word fits line word).1
        ≡ letters line ++ letters word
  unfolding add_word
  add_word-letters line word =
      let broken = break_word fits [] word in
      let opened : letters (flat (some_line line)) ≡ letters line =
        ap letters (flat-some_line line) in
      let split_up : letters (flat (some_line line ++ broken.0)) ++ letters broken.1
          ≡ letters line ++ letters word =
        ap (λ u. letters u ++ letters broken.1)
          (flat-append (some_line line) broken.0
            ∙ ap (λ u. u ++ flat broken.0) (flat-some_line line))
        ∙ sym (letters-append (line ++ flat broken.0) broken.1)
        ∙ ap letters (
            append_assoc line (flat broken.0) broken.1
            ∙ ap (λ u. line ++ u) (break_word-flat [] word))
        ∙ letters-append line word in
      elim (Bool-cases (fits (with_word line word))) [
        | inl e ↦ simp e (letters-with_word line word)
        | inr e ↦ elim (Bool-cases (fits word)) [
          | inl f ↦ simp (e, f) (ap (λ u. u ++ letters word) opened)
          | inr f ↦ simp (e, f) split_up
        ]
      ]

  some_line-IsNarrow : (line : Text) → IsNarrow line → All IsNarrow (some_line line)
  some_line-IsNarrow [] h = tt
  some_line-IsNarrow (c ∷ s) h = (h, tt)

  add_word-IsNarrow :
      (line word : Text)
      → IsNarrow line
      → All IsNarrow (add_word fits line word).0 × IsNarrow (add_word fits line word).1
  unfolding add_word
  add_word-IsNarrow line word h =
      let ends = some_line-IsNarrow line h in
      let broken = break_word-IsNarrow [] word (inr (omega arith)) in
      elim (Bool-cases (fits (with_word line word))) [
        | inl e ↦ simp e (tt, inl refl)
        | inr e ↦ elim (Bool-cases (fits word)) [
          | inl f ↦ simp (e, f) (ends, inl refl)
          | inr f ↦
              simp (e, f)
                (
                  All-append IsNarrow (some_line line) (break_word fits [] word).0 ends broken.0,
                  broken.1,
                )
        ]
      ]

  wrap_words-letters :
      (line : Text) (words : List Text)
      → letters (flat (wrap_words fits line words)) ≡ letters line ++ letters (flat words)
  unfolding wrap_words
  wrap_words-letters line [] = ap letters (flat-some_line line) ∙ sym (append-nil (letters line))
  wrap_words-letters line (word ∷ words) =
      let next = add_word fits line word in
      ap letters (flat-append next.0 (wrap_words fits next.1 words))
      ∙ letters-append (flat next.0) (flat (wrap_words fits next.1 words))
      ∙ ap (λ u. letters (flat next.0) ++ u) (wrap_words-letters next.1 words)
      ∙ sym (append_assoc (letters (flat next.0)) (letters next.1) (letters (flat words)))
      ∙ ap (λ u. u ++ letters (flat words)) (add_word-letters line word)
      ∙ append_assoc (letters line) (letters word) (letters (flat words))
      ∙ ap (λ u. letters line ++ u) (sym (letters-append word (flat words)))

  wrap_words-IsNarrow :
      (line : Text) (words : List Text) → IsNarrow line → All IsNarrow (wrap_words fits line words)
  unfolding wrap_words
  wrap_words-IsNarrow line [] h = some_line-IsNarrow line h
  wrap_words-IsNarrow line (word ∷ words) h =
      let next = add_word fits line word in
      let now = add_word-IsNarrow line word h in
      All-append IsNarrow next.0 (wrap_words fits next.1 words) now.0
        (wrap_words-IsNarrow next.1 words now.1)

  or_blank-letters :
      (words : List Text) → letters (flat (or_blank fits words)) ≡ letters (flat words)
  or_blank-letters [] = refl
  or_blank-letters (word ∷ words) = wrap_words-letters [] (word ∷ words)

  or_blank-IsNarrow : (words : List Text) → All IsNarrow (or_blank fits words)
  or_blank-IsNarrow [] = (inr (omega arith), tt)
  or_blank-IsNarrow (word ∷ words) = wrap_words-IsNarrow [] (word ∷ words) (inr (omega arith))

  -- The lines of a text are as wide as they may be at most, but for a line of a single character,
  -- and together they hold just the characters of the text made safe for the PDF, in their order,
  -- white space aside.
  pub wrap_line-IsNarrow :
      (decompose : Text → Text) (value : Text)
      → All IsNarrow (wrap_line fits decompose value)
        × (letters (flat (wrap_line fits decompose value))
            ≡ letters (pdf_safe_text decompose value))
  unfolding wrap_line
  wrap_line-IsNarrow decompose value =
      let safe = pdf_safe_text decompose value in
      (
        or_blank-IsNarrow (words_of safe),
        or_blank-letters (words_of safe) ∙ ap letters (words-letters safe) ∙ letters-letters safe,
      )
