-- ===== src/Classroom/Scope.antt =====
-- apps/forge/src/classrooms/classroomState.ts: the keys under which an account keeps its data.
use the_cinder_project.Base.{
  ℕ, ◌+◌, ◌-◌, ◌*◌, ◌/◌, ◌%◌, ◌<◌, Bool, true, ◌&&◌, ◌||◌, Option, none, some, [], ◌∷◌, ◌++◌, Text,
  codes, ◌≡◌, ◌≢◌, ◌↔◌, refl, subst₂, ap₂, append_assoc, ◌∙◌, sym, arith, any, leb, ltb, ◌==◌,
  if◌then◌else◌, starts_with, All, All-append, Bool-cases, inl, inr, subst,
}

-- The characters that `encodeURIComponent` leaves as they are.
unreserved : ℕ → Bool
unreserved c =
    (leb b'0' c && leb c b'9')
    || (leb b'A' c && leb c b'Z')
    || (leb b'a' c && leb c b'z')
    || any (λ d. d == c) (codes "-_.!~*'()")

abbrev hex_digit : ℕ → ℕ
hex_digit d = if ltb d 10 then b'0' + d else (b'A' + d) - 10

-- `%XY`
abbrev escape_byte : ℕ → Text
escape_byte b = b'%' ∷ hex_digit (b / 16 % 16) ∷ hex_digit (b % 16) ∷ []

-- The UTF-8 bytes of a code point, escaped.
escape_point : ℕ → Text
escape_point c =
    if ltb c 0x80
    then escape_byte c
    else if ltb c 0x800
    then escape_byte (0xc0 + c / 64) ++ escape_byte (0x80 + c % 64)
    else if ltb c 0x10000
    then escape_byte (0xe0 + c / 4096)
      ++ (escape_byte (0x80 + c / 64 % 64) ++ escape_byte (0x80 + c % 64))
    else escape_byte (0xf0 + c / 262144)
      ++ (escape_byte (0x80 + c / 4096 % 64)
          ++ (escape_byte (0x80 + c / 64 % 64) ++ escape_byte (0x80 + c % 64)))

abbrev is_lead : ℕ → Bool
is_lead c = leb 0xd800 c && ltb c 0xdc00

abbrev is_trail : ℕ → Bool
is_trail c = leb 0xdc00 c && ltb c 0xe000

-- The code point of a surrogate pair.
abbrev pair_point : ℕ → ℕ → ℕ
pair_point lead trail = (lead - 0xd800) * 0x400 + (trail - 0xdc00) + 0x10000

abbrev escape_one : ℕ → Text
escape_one c = if unreserved c then c ∷ [] else escape_point c

-- `encodeURIComponent`, on code units; `none` where it throws, at half a surrogate pair. The first
-- argument is a leading half that was read.
unfoldable pub encode_after : Option ℕ → Text → Option Text
unfolding unreserved escape_point
encode_after none [] = some []
encode_after (some lead) [] = none
encode_after none (c ∷ s) =
    if is_lead c
    then encode_after (some c) s
    else if is_trail c
    then none
    else (elim (encode_after none s) [ none ↦ none | some t ↦ some (escape_one c ++ t) ])
encode_after (some lead) (c ∷ s) =
    if is_trail c
    then (elim (encode_after none s) [
      | none ↦ none
      | some t ↦ some (escape_point (pair_point lead c) ++ t)
    ])
    else none

unfoldable pub encode_uri_component : Text → Option Text
unfolding encode_after
encode_uri_component s = encode_after none s

-- `student:<base>:<user>:`, from the encoded address.
abbrev pub scope_of : Text → Text → Text
scope_of base user = codes "student:" ++ (base ++ (b':' ∷ (user ++ (b':' ∷ []))))

unfoldable pub classroom_scope : Text → Text → Option Text
unfolding encode_uri_component
classroom_scope base_url user_id = elim (encode_uri_component base_url) [
  | none ↦ none
  | some base ↦ some (scope_of base user_id)
]

pub data CacheName : Type 0 where
  classrooms assignments submissions tree live_session : CacheName

abbrev cache_name : CacheName → Text
cache_name classrooms = codes "classrooms"
cache_name assignments = codes "assignments"
cache_name submissions = codes "submissions"
cache_name tree = codes "tree"
cache_name live_session = codes "live-session"

abbrev pub classroom_cache_key : Text → CacheName → Text
classroom_cache_key scope name = scope ++ (codes "cache:" ++ cache_name name)

abbrev pub submission_outbox_key : Text → Text → Text
submission_outbox_key scope assignment_id = scope ++ (codes "submission:" ++ assignment_id)

abbrev pub belongs_to_classroom_scope : Text → Text → Bool
belongs_to_classroom_scope key scope = starts_with key scope

starts_with-append : (s t : Text) → starts_with (s ++ t) s ≡ true
starts_with-append [] t = refl
starts_with-append (c ∷ s) t = ground (arith, starts_with-append s t)

-- No `:` in a text.
abbrev pub NoColon : Text → Type 0
NoColon s = All (λ c. c ≢ b':') s

cons_inj : {a b : ℕ} {s t : Text} → a ≡ b → s ≡ t → a ∷ s ≡ b ∷ t
cons_inj e f = cc

-- A text without `:`, up to the first `:` of a longer one.
split_colon :
    (s t x y : Text)
    → NoColon s
    → NoColon t
    → starts_with (s ++ (b':' ∷ x)) (t ++ (b':' ∷ y)) ≡ true
    → (s ≡ t) × (starts_with x y ≡ true)
split_colon [] [] x y n m h = (refl, h)
split_colon [] (d ∷ t) x y n m h = absurd (m.0 (ground arith))
split_colon (c ∷ s) [] x y n m h = absurd (n.0 (ground arith))
split_colon (c ∷ s) (d ∷ t) x y n m h =
    let e : c ≡ d = ground arith in
    let (f, r) = split_colon s t x y n.1 m.1 (ground arith) in (cons_inj e f, r)

hex-ne-colon : (d : ℕ) → d < 16 → hex_digit d ≢ b':'
hex-ne-colon d h = ground arith

escape_byte-NoColon : (b : ℕ) → NoColon (escape_byte b)
escape_byte-NoColon b = (
  omega arith,
  (hex-ne-colon (b / 16 % 16) (omega arith), (hex-ne-colon (b % 16) (omega arith), tt)),
)

escape_pair-NoColon : (a b : ℕ) → NoColon (escape_byte a ++ escape_byte b)
escape_pair-NoColon a b =
    All-append (λ c. c ≢ b':') (escape_byte a) (escape_byte b) (escape_byte-NoColon a)
      (escape_byte-NoColon b)

escape_three-NoColon : (a b c : ℕ) → NoColon (escape_byte a ++ (escape_byte b ++ escape_byte c))
escape_three-NoColon a b c =
    All-append (λ d. d ≢ b':') (escape_byte a) (escape_byte b ++ escape_byte c)
      (escape_byte-NoColon a) (escape_pair-NoColon b c)

escape_four-NoColon :
    (a b c d : ℕ) → NoColon (escape_byte a ++ (escape_byte b ++ (escape_byte c ++ escape_byte d)))
escape_four-NoColon a b c d =
    All-append (λ e. e ≢ b':') (escape_byte a) (escape_byte b ++ (escape_byte c ++ escape_byte d))
      (escape_byte-NoColon a) (escape_three-NoColon b c d)

escape_point-NoColon : (c : ℕ) → NoColon (escape_point c)
unfolding escape_point
escape_point-NoColon c = elim (Bool-cases (ltb c 0x80)) [
  | inl e ↦ simp e (escape_byte-NoColon c)
  | inr e ↦ elim (Bool-cases (ltb c 0x800)) [
    | inl f ↦ simp (e, f) (escape_pair-NoColon _ _)
    | inr f ↦ elim (Bool-cases (ltb c 0x10000)) [
      | inl g ↦ simp (e, f, g) (escape_three-NoColon _ _ _)
      | inr g ↦ simp (e, f, g) (escape_four-NoColon _ _ _ _)
    ]
  ]
]

colon_reserved : (c : ℕ) → unreserved c ≡ true → c ≢ b':'
unfolding unreserved
colon_reserved c h = ground arith

escape_one-NoColon : (c : ℕ) → NoColon (escape_one c)
escape_one-NoColon c = elim (Bool-cases (unreserved c)) [
  | inl e ↦ simp e (colon_reserved c e, tt)
  | inr e ↦ simp e (escape_point-NoColon c)
]

none_ne_some {ℓ} : {A : Type ℓ} {a : A} → none ≡ some a → ⊥
none_ne_some e = cc

some_inj {ℓ} : {A : Type ℓ} {a b : A} → some a ≡ some b → a ≡ b
some_inj e = cc

joined :
    (t : Text) (o : Option Text) (r : Text)
    → NoColon t
    → ((s : Text) → o ≡ some s → NoColon s)
    → (elim o [ none ↦ none | some s ↦ some (t ++ s) ]) ≡ some r
    → NoColon r
joined t none r n f e = absurd (cc)
joined t (some s) r n f e = subst NoColon (some_inj e) (All-append (λ c. c ≢ b':') t s n (f s refl))

encode_after-NoColon : (o : Option ℕ) (s : Text) (t : Text) → encode_after o s ≡ some t → NoColon t
unfolding encode_after
encode_after-NoColon none [] t e = subst NoColon (some_inj e) tt
encode_after-NoColon (some lead) [] t e = absurd (cc)
encode_after-NoColon none (c ∷ s) t e = elim (Bool-cases (is_lead c)) [
  | inl f ↦ encode_after-NoColon (some c) s t (simp f at e)
  | inr f ↦ elim (Bool-cases (is_trail c)) [
    | inl g ↦ absurd (none_ne_some (simp (f, g) at e))
    | inr g ↦
        joined (escape_one c) (encode_after none s) t (escape_one-NoColon c)
          (λ u h. encode_after-NoColon none s u h) (simp (f, g) at e)
  ]
]
encode_after-NoColon (some lead) (c ∷ s) t e = elim (Bool-cases (is_trail c)) [
  | inl g ↦
      joined (escape_point (pair_point lead c)) (encode_after none s) t
        (escape_point-NoColon (pair_point lead c)) (λ u h. encode_after-NoColon none s u h)
        (simp g at e)
  | inr g ↦ absurd (none_ne_some (simp g at e))
]

classroom_scope-parts :
    (base_url user : Text) (o : Option Text) {s : Text}
    → encode_uri_component base_url ≡ o
    → (elim o [ none ↦ none | some base ↦ some (scope_of base user) ]) ≡ some s
    → (base : Text) × NoColon base × (s ≡ scope_of base user)
unfolding encode_uri_component
classroom_scope-parts base_url user none e h = absurd (none_ne_some h)
classroom_scope-parts base_url user (some base) e h =
    (base, encode_after-NoColon none base_url base e, sym (some_inj h))

scope_of-inj :
    (b c u v rest : Text)
    → NoColon b
    → NoColon c
    → NoColon u
    → NoColon v
    → belongs_to_classroom_scope (scope_of b u ++ rest) (scope_of c v) ≡ true
    → (b ≡ c) × (u ≡ v)
scope_of-inj b c u v rest n m k l h =
    let (e, f) =
      split_colon b c (u ++ (b':' ∷ rest)) (v ++ (b':' ∷ [])) n m (simp append_assoc at h) in
    (e, (split_colon u v rest [] k l f).0)

-- The scopes of two accounts, whose ids hold no `:`, never overlap: a key under the one belongs to
-- the other only if the scopes are equal, and then the account ids are equal too; a key belongs to
-- its own scope.
pub belongs-classroom_scope :
    (base_url base_url' user user' rest : Text) {s s' : Text}
    → classroom_scope base_url user ≡ some s
    → classroom_scope base_url' user' ≡ some s'
    → NoColon user
    → NoColon user'
    → ((belongs_to_classroom_scope (s ++ rest) s' ≡ true) ↔ ((s ≡ s') × (user ≡ user')))
unfolding classroom_scope
belongs-classroom_scope base_url base_url' user user' rest {s} {s'} e f n m =
    let (b, nb, p) = classroom_scope-parts base_url user (encode_uri_component base_url) refl e in
    let (c, nc, q) =
      classroom_scope-parts base_url' user' (encode_uri_component base_url') refl f in
    (
      λ h.
          let (x, y) =
            scope_of-inj b c user user' rest nb nc n m
              (subst₂ (λ z w. belongs_to_classroom_scope (z ++ rest) w ≡ true) p q h) in
          (p ∙ (ap₂ scope_of x y ∙ sym q), y),
      λ h. subst (λ z. starts_with (s ++ rest) z ≡ true) h.0 (starts_with-append s rest),
    )
