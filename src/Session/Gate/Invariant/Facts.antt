-- ===== src/Session/Gate/Invariant/Facts.antt =====
-- Lemmas on the continuations that wait.
use the_cinder_project.Base.{
  ℕ, ◌+◌, true, false, Option, none, some, List, [], ◌∷◌, ◌≡◌, All, All-take_out, take_out,
  put_back, arith, refl, ◌∙◌, sym, zero, suc,
}
use the_cinder_project.Session.Gate.{
  Pending, checking, check_saving, logging_in, login_saving, changing, change_saving,
}
use the_cinder_project.Session.Gate.Invariant.{
  View, generation_of, is_login, Captured, Fits, Apart, Distinct,
}

-- In a new generation nothing that waits is current.
pub Fits-later :
    (v w : View) (ps : List Pending)
    → w.generation ≡ v.generation + 1
    → All (Fits v) ps
    → All (Fits w) ps
Fits-later v w [] e h = tt
Fits-later v w (p ∷ ps) e (f, h) =
    let le = f.not_later in
    (
      record { not_later = omega arith; captured = λ x. absurd (omega arith) },
      Fits-later v w ps e h,
    )

-- Nor does it wait as a sign-in of the new generation.
pub Apart-new :
    (v : View) (q : Pending) (ps : List Pending)
    → generation_of q ≡ v.generation + 1
    → All (Fits v) ps
    → All (Apart q) ps
Apart-new v q [] e h = tt
Apart-new v q (p ∷ ps) e (f, h) =
    let le = f.not_later in (record { apart = λ x y z. absurd (omega arith) }, Apart-new v q ps e h)

pub Apart-plain : (q : Pending) (ps : List Pending) → is_login q ≡ false → All (Apart q) ps
Apart-plain q [] e = tt
Apart-plain q (p ∷ ps) e = (record { apart = λ x y z. absurd (cc) }, Apart-plain q ps e)

-- A continuation that goes on as another one of its generation.
pub Apart-same :
    (p q : Pending) (ps : List Pending)
    → generation_of p ≡ generation_of q
    → is_login p ≡ is_login q
    → All (Apart p) ps
    → All (Apart q) ps
Apart-same p q [] e f h = tt
Apart-same p q (r ∷ ps) e f (k, h) =
    (record { apart = λ x y z. k.apart (f ∙ x) y (e ∙ z) }, Apart-same p q ps e f h)

Captured-calm : (v : View) (p : Pending) → Captured v p → v.loading ≡ false
Captured-calm v (checking c) h = h.calm
Captured-calm v (check_saving c _) h = h.calm
Captured-calm v (logging_in a) h = h.calm
Captured-calm v (login_saving a _ _ _) h = h.calm
Captured-calm v (changing w) h = h.calm
Captured-calm v (change_saving w _) h = h.calm

-- Nothing is current while the gate is loading.
pub Fits-loading :
    (v w : View) (ps : List Pending)
    → v.loading ≡ true
    → w.generation ≡ v.generation
    → All (Fits v) ps
    → All (Fits w) ps
Fits-loading v w [] l e h = tt
Fits-loading v w (p ∷ ps) l e (f, h) =
    let le = f.not_later in
    (
      record {
        not_later = omega arith;
        captured = λ x. absurd (cc (l, Captured-calm v p (f.captured (x ∙ e))));
      },
      Fits-loading v w ps l e h,
    )

Captured-signed : (v : View) (p : Pending) → v.signed_in ≡ false → Captured v p → is_login p ≡ true
Captured-signed v (checking c) s h = cc (h.someone)
Captured-signed v (check_saving c _) s h = cc (h.someone)
Captured-signed v (logging_in a) s h = refl
Captured-signed v (login_saving a _ _ _) s h = refl
Captured-signed v (changing w) s h = cc (h.someone)
Captured-signed v (change_saving w _) s h = cc (h.someone)

-- When a sign-in of the current generation ends, nothing else is current.
pub Fits-signed :
    (v w : View) (q : Pending) (ps : List Pending)
    → v.signed_in ≡ false
    → is_login q ≡ true
    → generation_of q ≡ v.generation
    → w.generation ≡ v.generation
    → All (Apart q) ps
    → All (Fits v) ps
    → All (Fits w) ps
Fits-signed v w q [] s e f g k h = tt
Fits-signed v w q (p ∷ ps) s e f g (a, k) (b, h) =
    let le = b.not_later in
    (
      record {
        not_later = omega arith;
        captured =
            λ x. absurd (a.apart e (Captured-signed v p s (b.captured (x ∙ g))) (f ∙ sym (x ∙ g)));
      },
      Fits-signed v w q ps s e f g k h,
    )

Apart-sym : (p q : Pending) → Apart p q → Apart q p
Apart-sym p q h = record { apart = λ x y z. h.apart y x (sym z) }

Distinct-put_back :
    (t : Option (Pending × List Pending)) (x : Pending) (xs : List Pending) (p : Pending)
    (r : List Pending)
    → put_back x t ≡ some (p, r)
    → ((q : Pending) (s : List Pending)
        → t ≡ some (q, s)
        → (All (Apart q) s × Distinct s) × (Apart x q × All (Apart x) s))
    → All (Apart p) r × Distinct r
Distinct-put_back none x xs p r e f = absurd (cc)
Distinct-put_back (some (q, s)) x xs p r e f =
    let ((a, d), (b, c)) = f q s refl in let b' = Apart-sym x q b in ground arith

pub Distinct-take_out :
    (i : ℕ) (ps : List Pending) {p : Pending} {r : List Pending}
    → take_out i ps ≡ some (p, r)
    → Distinct ps
    → All (Apart p) r × Distinct r
Distinct-take_out i [] e d = absurd (cc)
Distinct-take_out zero (x ∷ ps) e d = ground arith
Distinct-take_out (suc i) (x ∷ ps) {p} {r} e (a, d) =
    Distinct-put_back (take_out i ps) x ps p r e
      (λ q s e'. (Distinct-take_out i ps e' d, All-take_out (Apart x) i ps e' a))
