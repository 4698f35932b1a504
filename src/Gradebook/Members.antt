-- ===== src/Gradebook/Members.antt =====
-- What the gradebook's assistant finds is in the classroom.
use the_cinder_project.Base.{
  ℕ, zero, suc, ◌-◌, ◌≤◌, Bool, true, false, Option, none, some, List, [], ◌∷◌, Text, truthy,
  text_eq, keep, find, get_elem?, All, All-keep, leb, ltb, length, ◌==◌, ◌≡◌, ◌⊎◌, refl, arith,
  Bool-cases, inl, inr,
}
use the_cinder_project.Base.Dict.{Dict, insert}
use the_cinder_project.Base.Json.{Json}
use the_cinder_project.Base.Number.{Number}
use the_cinder_project.Model.{User}
use the_cinder_project.Gradebook.{Cell, parse_cell_address}
use the_cinder_project.Gradebook.Sheet.{
  Assignment, Sheet, Unicode, chosen, same_points, parse_assignment_header, assignment_for_header,
  or_canonical, canonical_at, assignment_at, or_student, student_at, target_of, Target, identity,
  assignment_header, grade, custom, located, resolve_gradebook_cell_target, gradebook_values,
  normalize_words, first_row,
}
use the_cinder_project.Gradebook.Bulk.{
  Mention, insert_mention, sort_mentions, by_id, values_of, labels_of, mentions_of,
  find_mentioned_students,
}

module _ {A : Type 0} where
  abbrev pub IsIn : A → List A → Type 0
  IsIn x [] = ⊥
  IsIn x (y ∷ ys) = (x ≡ y) ⊎ IsIn x ys

  All-IsIn-cons : (x : A) (xs ys : List A) → All (λ y. IsIn y xs) ys → All (λ y. IsIn y (x ∷ xs)) ys
  All-IsIn-cons x xs [] h = tt
  All-IsIn-cons x xs (y ∷ ys) h = (inr h.0, All-IsIn-cons x xs ys h.1)

  pub All-IsIn : (xs : List A) → All (λ y. IsIn y xs) xs
  All-IsIn [] = tt
  All-IsIn (x ∷ xs) = (inl refl, All-IsIn-cons x xs xs (All-IsIn xs))

module _ {ℓ} {A : Type ℓ} where
  -- An element, if there is one, that satisfies a predicate
  abbrev pub Holds {κ} : (A → Type κ) → Option A → Type κ
  Holds P none = Unit
  Holds P (some x) = P x

  find-Holds {κ} : (P : A → Type κ) (p : A → Bool) (xs : List A) → All P xs → Holds P (find p xs)
  find-Holds P p [] h = tt
  find-Holds P p (x ∷ xs) h = elim (Bool-cases (p x)) [
    | inl e ↦ simp e (h.0)
    | inr e ↦ simp e (find-Holds P p xs h.1)
  ]

  get_elem-Holds {κ} : (P : A → Type κ) (xs : List A) (i : ℕ) → All P xs → Holds P (get_elem? xs i)
  get_elem-Holds P [] i h = tt
  get_elem-Holds P (x ∷ xs) zero h = h.0
  get_elem-Holds P (x ∷ xs) (suc i) h = get_elem-Holds P xs i h.1

module _ (u : Unicode) (P : Assignment → Type 0) where
  chosen-Holds :
      (found : List Assignment) (points : Option Number)
      → All P found
      → Holds P (chosen u found points)
  chosen-Holds [] points h = tt
  chosen-Holds (a ∷ []) points h = h.0
  chosen-Holds (a ∷ (b ∷ more)) points h =
      find-Holds P (λ (c : Assignment). same_points c.max_points points) (a ∷ (b ∷ more)) h

  assignment_for_header-Holds :
      (value : Option Json) (assignments : List Assignment)
      → All P assignments
      → Holds P (assignment_for_header u value assignments)
  unfolding assignment_for_header
  assignment_for_header-Holds value assignments h =
      let parsed = parse_assignment_header u value in
      let same =
        λ (a : Assignment). text_eq (normalize_words u a.title) (normalize_words u parsed.0) in
      elim (Bool-cases (truthy parsed.0)) [
        | inl e ↦
            simp e (chosen-Holds (keep same assignments) parsed.1 (All-keep P same assignments h))
        | inr e ↦ simp e tt
      ]

  canonical_at-Holds :
      (column : ℕ) (assignments : List Assignment)
      → All P assignments
      → Holds P (canonical_at u column assignments)
  canonical_at-Holds column assignments h = elim (Bool-cases (leb 2 column)) [
    | inl e ↦ simp e (get_elem-Holds P assignments (column - 2) h)
    | inr e ↦ simp e tt
  ]

  or_canonical-Holds :
      (o c : Option Assignment) (b : Bool) → Holds P o → Holds P c → Holds P (or_canonical u o c b)
  or_canonical-Holds (some a) c b h k = h
  or_canonical-Holds none c true h k = k
  or_canonical-Holds none c false h k = tt

  assignment_at-Holds :
      (cell : Cell) (assignments : List Assignment) (values : List (List Json))
      → All P assignments
      → Holds P (assignment_at u cell assignments values)
  unfolding assignment_at
  assignment_at-Holds cell assignments values h =
      or_canonical-Holds _ _ _
        (assignment_for_header-Holds (get_elem? (first_row values) cell.column) assignments h)
        (canonical_at-Holds cell.column assignments h)

module _ (u : Unicode) (P : User → Type 0) where
  or_student-Holds : (o s : Option User) → Holds P o → Holds P s → Holds P (or_student u o s)
  or_student-Holds none s h k = k
  or_student-Holds (some x) s h k = h

  student_at-Holds :
      (cell : Cell) (roster : List User) (values : List (List Json))
      → All P roster
      → Holds P (student_at u cell roster values)
  unfolding student_at
  student_at-Holds cell roster values h =
      or_student-Holds _ _ (find-Holds P _ roster h) (get_elem-Holds P roster (cell.row - 1) h)

  insert_mention-All :
      (m : Mention) (ms : List Mention)
      → P m.0
      → All (λ n. P n.0) ms
      → All (λ n. P n.0) (insert_mention m ms)
  unfolding insert_mention
  insert_mention-All m [] h k = (h, tt)
  insert_mention-All m (n ∷ ns) h k = elim (Bool-cases (ltb (length m.1) (length n.1))) [
    | inl e ↦ simp e (k.0, insert_mention-All m ns h k.1)
    | inr e ↦ simp e (h, k)
  ]

  sort_mentions-All :
      (ms : List Mention) → All (λ n. P n.0) ms → All (λ n. P n.0) (sort_mentions ms)
  unfolding sort_mentions
  sort_mentions-All [] h = tt
  sort_mentions-All (m ∷ ms) h =
      insert_mention-All m (sort_mentions ms) h.0 (sort_mentions-All ms h.1)

  insert-All :
      (k : Text) (s : User) (d : Dict User)
      → P s
      → All (λ e. P e.1) d
      → All (λ e. P e.1) (insert k s d)
  unfolding insert
  insert-All k s [] h all = (h, tt)
  insert-All k s ((j, t) ∷ d) h all = elim (Bool-cases (text_eq j k)) [
    | inl e ↦ simp e (h, all.1)
    | inr e ↦ simp e (all.0, insert-All k s d h all.1)
  ]

  by_id-All :
      (ms : List Mention) (d : Dict User)
      → All (λ n. P n.0) ms
      → All (λ e. P e.1) d
      → All (λ e. P e.1) (by_id d ms)
  unfolding by_id
  by_id-All [] d h k = k
  by_id-All ((s, l) ∷ ms) d h k = by_id-All ms (insert s.id s d) h.1 (insert-All s.id s d h.0 k)

  values_of-All : (d : Dict User) → All (λ e. P e.1) d → All P (values_of d)
  values_of-All [] h = tt
  values_of-All (e ∷ d) h = (h.0, values_of-All d h.1)

  mentions_of-All : (roster : List User) → All P roster → All (λ n. P n.0) (mentions_of u roster)
  unfolding mentions_of labels_of
  mentions_of-All [] h = tt
  mentions_of-All (s ∷ ss) h = (h.0, (h.0, mentions_of-All ss h.1))

  pub find_mentioned_students-All :
      (prompt : Text) (roster : List User)
      → All P roster
      → All P (find_mentioned_students u prompt roster)
  unfolding find_mentioned_students
  find_mentioned_students-All prompt roster h = values_of-All _ (
      by_id-All _ [] (sort_mentions-All _ (All-keep (λ n. P n.0) _ _ (mentions_of-All roster h)))
        tt)

-- A cell that is read off a text.
abbrev pub IsRead : Unicode → Cell → Type 0
IsRead u c = (text : Text) × (parse_cell_address u.to_upper_case text ≡ some c)

-- What a cell stands for: work of the classroom, a student of it, or a cell outside the first two
-- columns, which name the students.
abbrev pub IsTarget : Unicode → (Assignment → Type 0) → (User → Type 0) → Target → Type 0
IsTarget u P Q (identity address) = Unit
IsTarget u P Q (assignment_header address a) = P a
IsTarget u P Q (grade address a s) = P a × Q s
IsTarget u P Q (custom address) = (c : Cell) × IsRead u c × (c.address ≡ address) × (2 ≤ c.column)

module _ (u : Unicode) (P : Assignment → Type 0) (Q : User → Type 0) where
  target_of-IsTarget :
      (cell : Cell) (a : Option Assignment) (s : Option User)
      → IsRead u cell
      → 2 ≤ cell.column
      → Holds P a
      → Holds Q s
      → IsTarget u P Q (target_of u cell a s)
  target_of-IsTarget cell none s read far h k = (cell, read, refl, far)
  target_of-IsTarget cell (some a) none read far h k = elim (Bool-cases (cell.row == 0)) [
    | inl e ↦ simp e h
    | inr e ↦ simp e (cell, read, refl, far)
  ]
  target_of-IsTarget cell (some a) (some s) read far h k = elim (Bool-cases (cell.row == 0)) [
    | inl e ↦ simp e h
    | inr e ↦ simp e (h, k)
  ]

  located-IsTarget :
      (o : Option Cell) (roster : List User) (assignments : List Assignment) (sheets : List Sheet)
      → Holds (IsRead u) o
      → All P assignments
      → All Q roster
      → Holds (IsTarget u P Q) (located u o roster assignments sheets)
  unfolding located
  located-IsTarget none roster assignments sheets read h k = tt
  located-IsTarget (some cell) roster assignments sheets read h k =
      let values = gradebook_values sheets in
      elim (Bool-cases (leb cell.column 1)) [
        | inl e ↦ simp e tt
        | inr e ↦ simp e (
            target_of-IsTarget cell (assignment_at u cell assignments values)
              (student_at u cell roster values) read (ground arith)
              (assignment_at-Holds u P cell assignments values h)
              (student_at-Holds u Q cell roster values k))
      ]

  pub resolve-IsTarget :
      (cell : Text) (roster : List User) (assignments : List Assignment) (sheets : List Sheet)
      → All P assignments
      → All Q roster
      → Holds (IsTarget u P Q) (resolve_gradebook_cell_target u cell roster assignments sheets)
  unfolding resolve_gradebook_cell_target
  resolve-IsTarget cell roster assignments sheets h k =
      let read = read_off (parse_cell_address u.to_upper_case cell) refl in
      located-IsTarget (parse_cell_address u.to_upper_case cell) roster assignments sheets read h k
    where
      read_off :
          (o : Option Cell) → parse_cell_address u.to_upper_case cell ≡ o → Holds (IsRead u) o
      read_off none e = tt
      read_off (some c) e = (cell, e)
