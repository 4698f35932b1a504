-- ===== src/Paper/Pages.antt =====
-- The page ranges of `compactPageRanges`.
use the_cinder_project.Base.{
  ℕ, zero, suc, ◌+◌, ◌-◌, ◌≤◌, ◌<◌, Bool, ◌||◌, List, [], ◌∷◌, ◌++◌, any, ◌==◌, ◌≡◌, refl, sym, ◌∙◌,
  ap, subst, arith, Bool-cases, inl, inr,
}
use the_cinder_project.Paper.Print.{insert_page, sorted_pages, ranges_from, ranges_of}

-- The pages from the first to the last of a range.
abbrev pub count_up : ℕ → ℕ → List ℕ
count_up start zero = []
count_up start (suc n) = start ∷ count_up (start + 1) n

abbrev pub expand : List (ℕ × ℕ) → List ℕ
expand [] = []
expand ((start, end_) ∷ rs) = count_up start ((end_ + 1) - start) ++ expand rs

abbrev pub has : ℕ → List ℕ → Bool
has n ps = any (λ p. p == n) ps

-- Each page below the next.
abbrev pub IsRising : List ℕ → Type 0
IsRising [] = Unit
IsRising (p ∷ []) = Unit
IsRising (p ∷ q ∷ qs) = (p < q) × IsRising (q ∷ qs)

-- Each range goes up, and a page is missing between it and the next.
abbrev pub IsSplit : ℕ → List (ℕ × ℕ) → Type 0
IsSplit least [] = Unit
IsSplit least ((s, e) ∷ rs) = (least ≤ s) × (s ≤ e) × IsSplit (e + 2) rs

insert_page-IsRising : (p : ℕ) (ps : List ℕ) → IsRising ps → IsRising (insert_page p ps)
unfolding insert_page
insert_page-IsRising p [] h = tt
insert_page-IsRising p (q ∷ []) h = ground arith
insert_page-IsRising p (q ∷ r ∷ qs) h = ground (arith, insert_page-IsRising p (r ∷ qs) h.1)

sorted_pages-IsRising : (ps : List ℕ) → IsRising (sorted_pages ps)
unfolding sorted_pages
sorted_pages-IsRising [] = tt
sorted_pages-IsRising (p ∷ ps) = insert_page-IsRising p (sorted_pages ps) (sorted_pages-IsRising ps)

has-insert_page : (n p : ℕ) (ps : List ℕ) → has n (insert_page p ps) ≡ (p == n || has n ps)
unfolding insert_page
has-insert_page n p [] = refl
has-insert_page n p (q ∷ qs) = ground (arith, has-insert_page n p qs)

has-sorted_pages : (n : ℕ) (ps : List ℕ) → has n (sorted_pages ps) ≡ has n ps
unfolding sorted_pages
has-sorted_pages n [] = refl
has-sorted_pages n (p ∷ ps) =
    has-insert_page n p (sorted_pages ps) ∙ ap (λ b. p == n || b) (has-sorted_pages n ps)

count_up-suc :
    (start n : ℕ) (ps : List ℕ)
    → count_up start (suc n) ++ ps ≡ count_up start n ++ ((start + n) ∷ ps)
count_up-suc start zero ps = ap (λ k. k ∷ ps) (omega arith)
count_up-suc start (suc n) ps =
    let same : (start + 1) + n ≡ start + suc n = omega arith in
    ap (λ r. start ∷ r)
      (count_up-suc (start + 1) n ps ∙ ap (λ k. count_up (start + 1) n ++ (k ∷ ps)) same)

longer_range :
    (s e page : ℕ) (ps : List ℕ)
    → s ≤ e
    → page ≡ e + 1
    → count_up s ((page + 1) - s) ++ ps ≡ count_up s ((e + 1) - s) ++ (page ∷ ps)
longer_range s e page ps h k =
    let size : (page + 1) - s ≡ suc ((e + 1) - s) = omega arith in
    let last : s + ((e + 1) - s) ≡ page = omega arith in
    ap (λ n. count_up s n ++ ps) size
    ∙ (count_up-suc s ((e + 1) - s) ps ∙ ap (λ k. count_up s ((e + 1) - s) ++ (k ∷ ps)) last)

one_page : (page : ℕ) (ps : List ℕ) → count_up page ((page + 1) - page) ++ ps ≡ page ∷ ps
one_page page ps =
    let size : (page + 1) - page ≡ suc zero = omega arith in ap (λ n. count_up page n ++ ps) size

expand-ranges_from :
    (s e : ℕ) (ps : List ℕ) → s ≤ e → expand (ranges_from s e ps) ≡ count_up s ((e + 1) - s) ++ ps
unfolding ranges_from
expand-ranges_from s e [] h = refl
expand-ranges_from s e (page ∷ ps) h =
    let next = expand-ranges_from page page ps (omega arith) in
    elim (Bool-cases (page == e + 1)) [
      | inl k ↦
          let same : page ≡ e + 1 = ground arith in
          simp k (expand-ranges_from s page ps (omega arith) ∙ longer_range s e page ps h same)
      | inr k ↦ simp k (ap (λ r. count_up s ((e + 1) - s) ++ r) (next ∙ one_page page ps))
    ]

ranges_from-IsSplit :
    (least s e : ℕ) (ps : List ℕ)
    → least ≤ s
    → s ≤ e
    → IsRising (e ∷ ps)
    → IsSplit least (ranges_from s e ps)
unfolding ranges_from
ranges_from-IsSplit least s e [] h k r = (h, k, tt)
ranges_from-IsSplit least s e (page ∷ ps) h k r = elim (Bool-cases (page == e + 1)) [
  | inl c ↦ simp c (ranges_from-IsSplit least s page ps h (omega arith) r.1)
  | inr c ↦ simp c (h, k, ranges_from-IsSplit (e + 2) page page ps (ground arith) (omega arith) r.1)
]

expand-ranges_of :
    (ps : List ℕ) → IsRising ps → (expand (ranges_of ps) ≡ ps) × IsSplit 0 (ranges_of ps)
unfolding ranges_of
expand-ranges_of [] h = (refl, tt)
expand-ranges_of (p ∷ ps) h = (
  expand-ranges_from p p ps (omega arith) ∙ one_page p ps,
  ranges_from-IsSplit 0 p p ps (omega arith) (omega arith) h,
)

-- The ranges that are printed for some pages, in any order and with repetitions, stand for just these
-- pages, each once and in rising order; each range goes up, and between two ranges a page is
-- missing, so no two of them could be one.
pub expand-compact :
    (pages : List ℕ) (n : ℕ)
    → (has n (expand (ranges_of (sorted_pages pages))) ≡ has n pages)
      × IsRising (expand (ranges_of (sorted_pages pages)))
      × IsSplit 0 (ranges_of (sorted_pages pages))
expand-compact pages n =
    let rising = sorted_pages-IsRising pages in
    let (same, split) = expand-ranges_of (sorted_pages pages) rising in
    (ap (λ ps. has n ps) same ∙ has-sorted_pages n pages, subst IsRising (sym same) rising, split)
