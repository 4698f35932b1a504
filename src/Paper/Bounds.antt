-- ===== src/Paper/Bounds.antt =====
-- The bounds that every paper from an AI response keeps.
use the_cinder_project.Base.{
  ℕ, ◌≤◌, true, Option, none, some, List, [], ◌∷◌, map, Text, truthy, take, keep, length,
  length-take, length-append, All, All-append, max, ◌≡◌, arith, Bool-cases, inl, inr, codes,
}
use the_cinder_project.Base.Number.{Number, is_finite}
use the_cinder_project.Base.Json.{Json, null, bool, num, str, arr, obj, read_field}
use the_cinder_project.Paper.{
  PaperMarkingPoint, PaperScheme, empty_scheme, PaperSubpart, PaperQuestion,
}
use the_cinder_project.Paper.Normalize.{
  or_nullish, elements, cleaned, clean_list, numeric, parsed_number, point_of, marking_point,
  marking_points, points_of, normalize_scheme, sum_marks,
}

pub record SchemeFits (marks : ℕ) (s : PaperScheme) : Type 0 where
  pub few_points : length s.marking_points ≤ 20
  pub points : All (λ (p : PaperMarkingPoint). p.marks ≤ max 1 marks) s.marking_points
  pub few_alternatives : length s.accepted_alternatives ≤ 20

pub record SubpartFits (p : PaperSubpart) : Type 0 where
  pub prompted : truthy p.prompt ≡ true
  pub least : 1 ≤ p.marks
  pub most : p.marks ≤ 50
  pub lines : p.working_lines ≤ 12
  pub scheme : SchemeFits p.marks p.scheme

-- The marks of a question: those of its subparts, or between 1 and 100.
abbrev pub MarksFit : List PaperSubpart → ℕ → Type 0
MarksFit [] marks = (1 ≤ marks) × (marks ≤ 100)
MarksFit (p ∷ ps) marks = marks ≡ sum_marks (p ∷ ps)

pub record QuestionFits (q : PaperQuestion) : Type 0 where
  pub named : truthy q.id ≡ true
  pub prompted : truthy q.prompt ≡ true
  pub short : length q.prompt ≤ 8000
  pub few_subparts : length q.subparts ≤ 12
  pub subparts : All SubpartFits q.subparts
  pub marked : MarksFit q.subparts q.marks
  pub lines : q.working_lines ≤ 14
  pub scheme : SchemeFits q.marks q.scheme

pub clean_list-length :
    (limit size : ℕ) (o : Option (List Json)) → length (clean_list limit size o) ≤ limit
unfolding clean_list
clean_list-length limit size none = omega arith
clean_list-length limit size (some js) =
    length-take limit (keep truthy (map (λ j. cleaned (some j) size) js))

point_of-fits :
    (text : Text) (m marks : ℕ)
    → m ≤ max 1 marks
    → (length (point_of text m) ≤ 1)
      × All (λ (p : PaperMarkingPoint). p.marks ≤ max 1 marks) (point_of text m)
point_of-fits [] m marks h = (omega arith, tt)
point_of-fits (c ∷ text) m marks h = (omega arith, (h, tt))

module _ (to_number : Option Json → Number) where
  pub numeric-bounds :
      (value : Option Json) (fallback lo hi : ℕ)
      → lo ≤ fallback
      → fallback ≤ hi
      → (lo ≤ numeric to_number value fallback lo hi)
        × (numeric to_number value fallback lo hi ≤ hi)
  unfolding numeric
  numeric-bounds value fallback lo hi h k =
      elim (Bool-cases (is_finite (parsed_number to_number value))) [
        | inl e ↦ simp e (omega arith, omega arith)
        | inr e ↦ simp e (h, k)
      ]

  marking_point-fits :
      (marks : ℕ) (j : Json)
      → (length (marking_point to_number marks j) ≤ 1)
        × All (λ (p : PaperMarkingPoint). p.marks ≤ max 1 marks) (marking_point to_number marks j)
  unfolding marking_point
  marking_point-fits marks (str t) =
      point_of-fits (cleaned (some (str t)) 600) 1 marks (omega arith)
  marking_point-fits marks (obj fields) =
      point_of-fits
        (cleaned (or_nullish (read_field (codes "text") fields) (read_field (codes "point") fields))
          600)
        (numeric to_number (read_field (codes "marks") fields) 1 0 (max 1 marks)) marks
        (numeric-bounds (read_field (codes "marks") fields) 1 0 (max 1 marks) (omega arith)
          (omega arith)).1
  marking_point-fits marks null = (omega arith, tt)
  marking_point-fits marks (bool b) = (omega arith, tt)
  marking_point-fits marks (num n) = (omega arith, tt)
  marking_point-fits marks (arr js) = (omega arith, tt)

  marking_points-fits :
      (marks : ℕ) (js : List Json)
      → (length (marking_points to_number marks js) ≤ length js)
        × All (λ (p : PaperMarkingPoint). p.marks ≤ max 1 marks) (marking_points to_number marks js)
  unfolding marking_points
  marking_points-fits marks [] = (omega arith, tt)
  marking_points-fits marks (j ∷ js) =
      let (a, b) = marking_point-fits marks j in
      let (c, d) = marking_points-fits marks js in
      (
        omega (
          arith,
          length-append {0} (marking_point to_number marks j) (marking_points to_number marks js),
        ),
        All-append (λ (p : PaperMarkingPoint). p.marks ≤ max 1 marks)
            (marking_point to_number marks j) (marking_points to_number marks js) b d,
      )

  points_of-fits :
      (marks : ℕ) (o : Option (List Json))
      → (length (points_of to_number marks o) ≤ 20)
        × All (λ (p : PaperMarkingPoint). p.marks ≤ max 1 marks) (points_of to_number marks o)
  points_of-fits marks none = (omega arith, tt)
  points_of-fits marks (some js) =
      let (a, b) = marking_points-fits marks (take 20 js) in
      (omega (arith, length-take {0} 20 js), b)

  empty_scheme-fits : (marks : ℕ) → SchemeFits marks empty_scheme
  empty_scheme-fits marks = record {
    few_points = omega arith;
    points = tt;
    few_alternatives = omega arith;
  }

  pub normalize_scheme-fits :
      (o : Option Json) (marks : ℕ) → SchemeFits marks (normalize_scheme to_number o marks)
  unfolding normalize_scheme
  normalize_scheme-fits (some (obj fields)) marks =
      let (a, b) = points_of-fits marks (
        elements (
          or_nullish (read_field (codes "marking_points") fields)
            (read_field (codes "markingPoints") fields))) in
      record {
        few_points = a;
        points = b;
        few_alternatives = clean_list-length 20 400 (
            elements (
              or_nullish (read_field (codes "accepted_alternatives") fields)
                (read_field (codes "acceptedAlternatives") fields)));
      }
  normalize_scheme-fits none marks = empty_scheme-fits marks
  normalize_scheme-fits (some null) marks = empty_scheme-fits marks
  normalize_scheme-fits (some (bool b)) marks = empty_scheme-fits marks
  normalize_scheme-fits (some (num n)) marks = empty_scheme-fits marks
  normalize_scheme-fits (some (str t)) marks = empty_scheme-fits marks
  normalize_scheme-fits (some (arr js)) marks = empty_scheme-fits marks
