-- ===== src/Api/Routing/Ids.antt =====
-- The ids that the Host makes, as segments of a path.
use the_cinder_project.Base.{
  ℕ, Bool, true, false, ◌&&◌, ◌||◌, List, [], ◌∷◌, ◌++◌, Text, codes, text_eq, text_eq_iff, truthy,
  leb, ◌==◌, all, ◌≡◌, refl, ◌∙◌, ap, arith, Bool-cases, inl, inr,
}
use the_cinder_project.Api.Request.{Request}
use the_cinder_project.Host.Routes.{segments, handled, dispatch, find_route, routes}

-- Hexadecimal digits and dashes: a UUID, or a date.
abbrev pub is_id_char : ℕ → Bool
is_id_char c = (leb b'0' c && leb c b'9') || (leb b'a' c && leb c b'f') || c == b'-'

abbrev pub is_id : Text → Bool
is_id s = all is_id_char s && truthy s

abbrev pub IsId : Text → Type 0
IsId s = is_id s ≡ true

id_chars-push :
    (s : Text) (tail : Text)
    → all is_id_char s ≡ true
    → segments (s ++ (b'/' ∷ tail)) ≡ s ∷ segments tail
unfolding segments
id_chars-push [] tail h = refl
id_chars-push (c ∷ s) tail h =
    let ih = id_chars-push s tail (ground arith) in
    let slash : c == b'/' ≡ false = ground arith in
    let mark : c == b'?' ≡ false = ground arith in simp (slash, mark, ih) refl

segments-chars : (s : Text) → all is_id_char s ≡ true → segments s ≡ s ∷ []
unfolding segments
segments-chars [] h = refl
segments-chars (c ∷ s) h =
    let ih = segments-chars s (ground arith) in
    let slash : c == b'/' ≡ false = ground arith in
    let mark : c == b'?' ≡ false = ground arith in simp (slash, mark, ih) refl

ne_word : (w s : Text) → all is_id_char w ≡ false → all is_id_char s ≡ true → text_eq w s ≡ false
ne_word w s h k = elim (Bool-cases (text_eq w s)) [
  | inr e ↦ e
  | inl e ↦ let same = (text_eq_iff w s).0 e in absurd (cc)
]

-- What a path with an id splits into, and that the id is none of the Host's fixed words there.
pub record IsSegment (s : Text) : Type 0 where
  pub last : segments s ≡ s ∷ []
  pub more : (tail : Text) → segments (s ++ (b'/' ∷ tail)) ≡ s ∷ segments tail
  pub some_char : truthy s ≡ true
  pub ne_join : text_eq (codes "join") s ≡ false
  pub ne_active : text_eq (codes "active") s ≡ false
  pub ne_search : text_eq (codes "search") s ≡ false
  pub ne_fetch : text_eq (codes "fetch") s ≡ false
  pub ne_figures : text_eq (codes "figures") s ≡ false

pub segment : (s : Text) → IsId s → IsSegment s
segment s h =
    let chars : all is_id_char s ≡ true = ground arith in
    record {
      last = segments-chars s chars;
      more = λ tail. id_chars-push s tail chars;
      some_char = ground arith;
      ne_join = ne_word (codes "join") s refl chars;
      ne_active = ne_word (codes "active") s refl chars;
      ne_search = ne_word (codes "search") s refl chars;
      ne_fetch = ne_word (codes "fetch") s refl chars;
      ne_figures = ne_word (codes "figures") s refl chars;
    }

empty-IsId : IsId [] → ⊥
empty-IsId v = cc

-- The Host answers the request by that handler.
abbrev pub Meets : Text → Request → Type 0
Meets handler r = dispatch r.method r.path ≡ handled handler

module _ (handler : Text) (r : Request) where
  pub via :
      (path : List Text)
      → segments r.path ≡ path
      → find_route routes r.method path ≡ handled handler
      → Meets handler r
  unfolding dispatch
  via path e f = ap (find_route routes r.method) e ∙ f

  -- With an id in the path it is enough to find the route for one that is not empty.
  pub via_id :
      (path : Text → List Text) (id : Text)
      → IsId id
      → segments r.path ≡ path id
      → ((c : ℕ) (s : Text) → find_route routes r.method (path (c ∷ s)) ≡ handled handler)
      → Meets handler r
  via_id path [] v e f = absurd (empty-IsId v)
  via_id path (c ∷ s) v e f = via (path (c ∷ s)) e (f c s)

  pub via_ids :
      (path : Text → Text → List Text) (id other : Text)
      → IsId id
      → IsId other
      → segments r.path ≡ path id other
      → ((c d : ℕ) (s t : Text)
          → find_route routes r.method (path (c ∷ s) (d ∷ t)) ≡ handled handler)
      → Meets handler r
  via_ids path [] other v w e f = absurd (empty-IsId v)
  via_ids path (c ∷ s) [] v w e f = absurd (empty-IsId w)
  via_ids path (c ∷ s) (d ∷ t) v w e f = via (path (c ∷ s) (d ∷ t)) e (f c d s t)
