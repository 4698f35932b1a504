-- ===== src/Workspace/Migrate.antt =====
-- The legacy library notes, folded into documents: `textToHtml` and `migrateNotes` of
-- apps/forge/src/forgeData.ts. The milliseconds of a date text are a parameter, which has none for
-- an invalid date.
use the_cinder_project.Base.{
  ℕ, suc, ◌+◌, ◌≤◌, Bool, true, false, ◌&&◌, ◌||◌, Option, none, some, is_some, All, All-append,
  List, [], ◌∷◌, ◌++◌, map, Text, codes, push_char, text_eq, text_eq_iff, or_text, any, leb, ◌==◌,
  if◌then◌else◌, ◌≡◌, refl, sym, ◌∙◌, ap, arith, Bool-cases, inl, inr,
}
use the_cinder_project.Workspace.{ForgeNote, StudioNote}

-- `replace(/c/g, r)`
unfoldable replace : ℕ → Text → Text → Text
replace c r [] = []
replace c r (d ∷ s) = if d == c then r ++ replace c r s else d ∷ replace c r s

unfoldable pub escape : Text → Text
unfolding replace
escape text =
    replace b'>' (codes "&gt;") (replace b'<' (codes "&lt;") (replace b'&' (codes "&amp;") text))

-- `replace(/\r\n?/g, "\n")`; the flag says that the last character was a `\r`.
unfoldable line_ends : Bool → Text → Text
line_ends after [] = []
line_ends after (c ∷ s) =
    if c == 13
    then 10 ∷ line_ends true s
    else if after && c == 10
    then line_ends false s
    else c ∷ line_ends false s

-- `split("\n")`
unfoldable lines_of : Text → List Text
lines_of [] = [] ∷ []
lines_of (c ∷ s) = let rest = lines_of s in if c == 10 then [] ∷ rest else push_char c rest

abbrev paragraphs : List Text → Text
paragraphs [] = []
paragraphs (line ∷ lines) =
    codes "<p>" ++ (or_text line (codes "<br>") ++ (codes "</p>" ++ paragraphs lines))

unfoldable pub text_to_html : Text → Text
unfolding escape line_ends lines_of
text_to_html text = paragraphs (lines_of (line_ends false (escape text)))

abbrev pub has_id : Text → List Text → Bool
has_id id ids = any (λ i. text_eq i id) ids

-- The filter, with the ids seen so far.
unfoldable pub fresh_notes : List Text → List ForgeNote → List ForgeNote
unfolding text_eq
fresh_notes existing [] = []
fresh_notes existing (note ∷ notes) =
    if has_id note.id existing
    then fresh_notes existing notes
    else note ∷ fresh_notes (note.id ∷ existing) notes

abbrev pub converted : ForgeNote → StudioNote
converted note = record {
  id = note.id;
  title = or_text note.title (codes "Untitled note");
  topic = note.topic;
  body_html = text_to_html note.body;
  created_at = note.created_at;
  updated_at = note.created_at;
  deleted_at = none;
}

-- The comparator, which does not tell an invalid date, `none`, from another date.
abbrev pub no_later : Option ℕ → Option ℕ → Bool
no_later none p = true
no_later (some a) none = true
no_later (some a) (some b) = leb a b

module _ (time_of : Text → Option ℕ) where
  -- `sort`, stable, the latest first. Times count from the first that a date can have. Where a date
  -- is invalid the language leaves the order open, and this is one of those that it allows.
  unfoldable pub insert : StudioNote → List StudioNote → List StudioNote
  insert note [] = note ∷ []
  insert note (other ∷ others) =
      if no_later (time_of other.updated_at) (time_of note.updated_at)
      then note ∷ other ∷ others
      else other ∷ insert note others

  unfoldable pub sort : List StudioNote → List StudioNote
  unfolding insert
  sort [] = []
  sort (note ∷ notes) = insert note (sort notes)

  unfoldable pub migrate_notes : List ForgeNote → List StudioNote → List StudioNote
  unfolding sort fresh_notes text_to_html
  migrate_notes notes studio_notes =
      sort (studio_notes ++ map converted (fresh_notes (map (λ note. note.id) studio_notes) notes))

-- How many notes pass a test.
abbrev pub count : (StudioNote → Bool) → List StudioNote → ℕ
count p [] = 0
count p (note ∷ notes) = if p note then suc (count p notes) else count p notes

abbrev pub has_note : Text → List ForgeNote → Bool
has_note id notes = any (λ note. text_eq note.id id) notes

abbrev pub with_id : Text → StudioNote → Bool
with_id id note = text_eq note.id id

count-append :
    (p : StudioNote → Bool) (xs ys : List StudioNote) → count p (xs ++ ys) ≡ count p xs + count p ys
count-append p [] ys = omega arith
count-append p (x ∷ xs) ys = ground (arith, count-append p xs ys)

module _ (time_of : Text → Option ℕ) where
  count-insert :
      (p : StudioNote → Bool) (x : StudioNote) (xs : List StudioNote)
      → count p (insert time_of x xs) ≡ count p (x ∷ xs)
  unfolding insert
  count-insert p x [] = refl
  count-insert p x (y ∷ ys) =
      let ih = count-insert p x ys in
      elim (Bool-cases (no_later (time_of y.updated_at) (time_of x.updated_at))) [
        | inl e ↦ simp e refl
        | inr e ↦ simp e (ground (arith, ih))
      ]

  count-sort :
      (p : StudioNote → Bool) (xs : List StudioNote) → count p (sort time_of xs) ≡ count p xs
  unfolding sort
  count-sort p [] = refl
  count-sort p (x ∷ xs) = count-insert p x (sort time_of xs) ∙ ground (arith, count-sort p xs)

has_id-cons :
    (id i : Text) (ids : List Text) → has_id id (i ∷ ids) ≡ (text_eq i id || has_id id ids)
has_id-cons id i ids = refl

has_id-same : (i id : Text) (ids : List Text) → text_eq i id ≡ true → has_id i ids ≡ has_id id ids
has_id-same i id ids e = let same = (text_eq_iff i id).0 e in ap (λ t. has_id t ids) same

count-fresh_notes :
    (id : Text) (existing : List Text) (notes : List ForgeNote)
    → count (with_id id) (map converted (fresh_notes existing notes))
      ≡ (if has_id id existing then 0 else if has_note id notes then 1 else 0)
unfolding fresh_notes
count-fresh_notes id existing [] = ground arith
count-fresh_notes id existing (note ∷ notes) =
    let skip = count-fresh_notes id existing notes in
    let fresh = count-fresh_notes id (note.id ∷ existing) notes in
    elim (Bool-cases (text_eq note.id id)) [
      | inl t ↦ elim (Bool-cases (has_id note.id existing)) [
        | inl e ↦
            simp (e, t, sym (has_id-same note.id id existing t))
              (simp (sym (has_id-same note.id id existing t), e) at skip)
        | inr e ↦ simp (e, t, sym (has_id-same note.id id existing t)) (ap suc (simp t at fresh))
      ]
      | inr t ↦ elim (Bool-cases (has_id note.id existing)) [
        | inl e ↦ simp (e, t) skip
        | inr e ↦ simp (e, t) (simp t at fresh)
      ]
    ]

module _ (time_of : Text → Option ℕ) where
  abbrev pub IsDated : StudioNote → Type 0
  IsDated d = is_some (time_of d.updated_at) ≡ true

  abbrev Precedes : Option ℕ → Option ℕ → Type 0
  Precedes none p = ⊥
  Precedes (some a) none = ⊥
  Precedes (some a) (some b) = b ≤ a

  abbrev Leads : StudioNote → List StudioNote → Type 0
  Leads x [] = Unit
  Leads x (y ∷ ys) = Precedes (time_of x.updated_at) (time_of y.updated_at)

  -- The times of change go down, and each is one.
  abbrev pub IsSorted : List StudioNote → Type 0
  IsSorted [] = Unit
  IsSorted (x ∷ xs) = Leads x xs × IsSorted xs

  Precedes-no_later :
      (o p : Option ℕ) → is_some o ≡ true → is_some p ≡ true → no_later o p ≡ true → Precedes p o
  Precedes-no_later none p h k e = absurd cc
  Precedes-no_later (some a) none h k e = absurd cc
  Precedes-no_later (some a) (some b) h k e = ground arith

  Precedes-later : (o p : Option ℕ) → no_later o p ≡ false → Precedes o p
  Precedes-later none p e = absurd cc
  Precedes-later (some a) none e = absurd cc
  Precedes-later (some a) (some b) e = ground arith

  insert-IsDated :
      (x : StudioNote) (xs : List StudioNote)
      → IsDated x
      → All IsDated xs
      → All IsDated (insert time_of x xs)
  unfolding insert
  insert-IsDated x [] h k = (h, tt)
  insert-IsDated x (y ∷ ys) h k =
      elim (Bool-cases (no_later (time_of y.updated_at) (time_of x.updated_at))) [
        | inl e ↦ simp e (h, k)
        | inr e ↦ simp e (k.0, insert-IsDated x ys h k.1)
      ]

  sort-IsDated : (xs : List StudioNote) → All IsDated xs → All IsDated (sort time_of xs)
  unfolding sort
  sort-IsDated [] h = tt
  sort-IsDated (x ∷ xs) h = insert-IsDated x (sort time_of xs) h.0 (sort-IsDated xs h.1)

  insert-Leads :
      (y x : StudioNote) (xs : List StudioNote)
      → Precedes (time_of y.updated_at) (time_of x.updated_at)
      → Leads y xs
      → Leads y (insert time_of x xs)
  unfolding insert
  insert-Leads y x [] h k = h
  insert-Leads y x (z ∷ zs) h k =
      elim (Bool-cases (no_later (time_of z.updated_at) (time_of x.updated_at))) [
        | inl e ↦ simp e h
        | inr e ↦ simp e k
      ]

  insert-IsSorted :
      (x : StudioNote) (xs : List StudioNote)
      → IsDated x
      → All IsDated xs
      → IsSorted xs
      → IsSorted (insert time_of x xs)
  unfolding insert
  insert-IsSorted x [] d ds h = (tt, tt)
  insert-IsSorted x (y ∷ ys) d ds h =
      elim (Bool-cases (no_later (time_of y.updated_at) (time_of x.updated_at))) [
        | inl e ↦
            simp e (Precedes-no_later (time_of y.updated_at) (time_of x.updated_at) ds.0 d e, h)
        | inr e ↦ simp e (
          insert-Leads y x ys (Precedes-later (time_of y.updated_at) (time_of x.updated_at) e) h.0,
          insert-IsSorted x ys d ds.1 h.1,
        )
      ]

  sort-IsSorted : (xs : List StudioNote) → All IsDated xs → IsSorted (sort time_of xs)
  unfolding sort
  sort-IsSorted [] h = tt
  sort-IsSorted (x ∷ xs) h =
      insert-IsSorted x (sort time_of xs) h.0 (sort-IsDated xs h.1) (sort-IsSorted xs h.1)

  -- The legacy notes that are folded have their dates.
  fresh-IsDated :
      (existing : List Text) (notes : List ForgeNote)
      → All (λ (n : ForgeNote). is_some (time_of n.created_at) ≡ true) notes
      → All IsDated (map converted (fresh_notes existing notes))
  unfolding fresh_notes
  fresh-IsDated existing [] h = tt
  fresh-IsDated existing (note ∷ notes) h = elim (Bool-cases (has_id note.id existing)) [
    | inl e ↦ simp e (fresh-IsDated existing notes h.1)
    | inr e ↦ simp e (h.0, fresh-IsDated (note.id ∷ existing) notes h.1)
  ]

  count-joined :
      (p : StudioNote → Bool) (xs ys : List StudioNote)
      → count p (sort time_of (xs ++ ys)) ≡ count p xs + count p ys
  count-joined p xs ys = count-sort time_of p (xs ++ ys) ∙ count-append p xs ys

  -- Folding the legacy notes into the documents keeps every document, whatever it is counted by;
  -- adds exactly one document for an id that only legacy notes have, and none for an id that a
  -- document has; and leaves the documents in the order of their last change, the latest first, where
  -- the dates of the documents and of the legacy notes are valid.
  pub count-migrate_notes :
      (p : StudioNote → Bool) (id : Text) (notes : List ForgeNote) (documents : List StudioNote)
      → All IsDated documents
      → All (λ (n : ForgeNote). is_some (time_of n.created_at) ≡ true) notes
      → (count p documents ≤ count p (migrate_notes time_of notes documents))
        × (count (with_id id) (migrate_notes time_of notes documents)
            ≡ count (with_id id) documents
              + (if has_id id (map (λ note. note.id) documents)
                  then 0
                  else if has_note id notes
                  then 1
                  else 0))
        × IsSorted (migrate_notes time_of notes documents)
  unfolding migrate_notes
  count-migrate_notes p id notes documents dated legacy =
      let ids = map (λ note. note.id) documents in
      let added = map converted (fresh_notes ids notes) in
      (
        omega (arith, count-joined p documents added),
        count-joined (with_id id) documents added
            ∙ ap (λ n. count (with_id id) documents + n) (count-fresh_notes id ids notes),
        sort-IsSorted (documents ++ added)
            (All-append IsDated documents added dated (fresh-IsDated ids notes legacy)),
      )
