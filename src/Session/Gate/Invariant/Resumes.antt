-- ===== src/Session/Gate/Invariant/Resumes.antt =====
-- The continuations after an `await` keep the invariant.
use the_cinder_project.Base.{
  ℕ, Bool, true, false, Option, none, some, is_some, List, Text, ◌≡◌, All, arith, refl, ◌∙◌, sym,
  Bool-cases, inl, inr, ==_iff, ◌==◌, subst, if◌then◌else◌,
}
use the_cinder_project.Model.{User, user_eq}
use the_cinder_project.Session.Gate.{
  StoredSession, Check, Attempt, Change, Pending, checking, check_saving, logging_in, login_saving,
  changing, change_saving, Gate, set_token, is_current, write, wait, sign_out, release,
}
use the_cinder_project.Session.Gate.Answers.{
  session_of, Answer, profile, accepted, offline, refused, store_done, checked, check_offline,
  check_refused, check_saved, logged_in, login_saved, changed, change_write, changed_user,
  change_saved, continue,
}
use the_cinder_project.Session.Gate.Invariant.{view, generation_of, is_login, Fits, Apart, IsValid}
use the_cinder_project.Session.Gate.Invariant.Facts.{Apart-plain, Apart-same, Fits-signed}
use the_cinder_project.Session.Gate.Invariant.Begins.{calm, ConnectsFit-user, sign_out-IsValid}

-- A result of a continuation, in a state that differs from a valid one in marks alone.
release-IsValid : (c : Check) (g : Gate) → IsValid g → IsValid (release c g)
release-IsValid c g v = go g.in_flight
  where
    go :
        (o : Option (ℕ × ℕ))
        → IsValid (elim o [
          | none ↦ g
          | some (generation, ticket) ↦
              if ticket == c.ticket then (record g { in_flight = none }) else g
        ])
    go none = v
    go (some (generation, ticket)) = elim (Bool-cases (ticket == c.ticket)) [
      | inl e ↦ simp e (record {
        both = v.both;
        bearer = v.bearer;
        address = v.address;
        made = v.made;
        connecting = v.connecting;
        waiting = v.waiting;
        distinct = v.distinct;
      })
      | inr e ↦ simp e v
    ]

-- The mark `online` and the session store are no part of the invariant.
marked-IsValid :
    (b : Bool) (o : Option StoredSession) (g : Gate)
    → IsValid g
    → IsValid (record g { online = b; stored = o })
marked-IsValid b o g v = record {
  both = v.both;
  bearer = v.bearer;
  address = v.address;
  made = v.made;
  connecting = v.connecting;
  waiting = v.waiting;
  distinct = v.distinct;
}

-- A continuation that waits.
wait-IsValid :
    (p : Pending) (g : Gate)
    → Fits (view g) p
    → All (Apart p) g.pending
    → IsValid g
    → IsValid (wait p g)
wait-IsValid p g f a v = record {
  both = v.both;
  bearer = v.bearer;
  address = v.address;
  made = v.made;
  connecting = v.connecting;
  waiting = (f, v.waiting);
  distinct = (a, v.distinct);
}

-- Another user in place of the one who is signed in.
user-IsValid :
    (u : User) (g : Gate) → is_some g.user ≡ true → IsValid g → IsValid (record g { user = some u })
user-IsValid u g e v = record {
  both = sym e ∙ v.both;
  bearer = v.bearer;
  address = v.address;
  made = v.made;
  connecting =
      ConnectsFit-user g.loading g.base_url g.api g.user (some u) g.connect (calm g v e)
        v.connecting;
  waiting =
      subst
        (λ b.
          All
            (Fits (record {
              generation = g.generation;
              loading = g.loading;
              api = g.api;
              base_url = g.base_url;
              signed_in = b;
              token = g.token;
            }))
            g.pending)
        e v.waiting;
  distinct = v.distinct;
}

-- Signing in: only the continuation that ends was current.
login-IsValid :
    (q : Pending) (api : ℕ) (token password : Text) (known : List Text) (u : User) (g : Gate)
    → g.loading ≡ false
    → api ≡ g.api
    → is_some g.user ≡ false
    → is_login q ≡ true
    → generation_of q ≡ g.generation
    → All (Apart q) g.pending
    → IsValid g
    → IsValid (record g {
      apis = set_token g.apis api (some token);
      token = some token;
      user = some u;
      temporary_password = password;
      online = true;
      known_accounts = known;
    })
login-IsValid q api token password known u g l e s f h a v = record {
  both = refl;
  bearer = ground arith;
  address = let x = v.address in ground arith;
  made = v.made;
  connecting = ConnectsFit-user g.loading g.base_url g.api g.user (some u) g.connect l v.connecting;
  waiting = Fits-signed (view g) _ q g.pending s f h refl a v.waiting;
  distinct = v.distinct;
}

module _ (g : Gate) (v : IsValid g) where
  checked-IsValid :
      (c : Check) (u : User) (saved : Bool)
      → Fits (view g) (checking c)
      → All (Apart (checking c)) g.pending
      → IsValid (checked c u saved g)
  unfolding checked
  checked-IsValid c u saved f a = elim (Bool-cases (is_current c.generation g)) [
    | inl e ↦ elim (Bool-cases (user_eq u c.user)) [
      | inl s ↦ simp (e, s) (release-IsValid c _ (marked-IsValid true g.stored g v))
      | inr s ↦
          simp (e, s)
            (wait-IsValid (check_saving c u) _
              (record { not_later = f.not_later; captured = f.captured })
              (Apart-plain _ g.pending refl)
              (marked-IsValid g.online (write saved (session_of c.base_url c.token u) g.stored) g
                v))
    ]
    | inr e ↦ simp e (release-IsValid c g v)
  ]

  check_offline-IsValid : (c : Check) → IsValid (check_offline c g)
  unfolding check_offline
  check_offline-IsValid c = elim (Bool-cases (is_current c.generation g)) [
    | inl e ↦ simp e (release-IsValid c _ (marked-IsValid false g.stored g v))
    | inr e ↦ simp e (release-IsValid c g v)
  ]

  check_refused-IsValid :
      (c : Check) (cleared : Bool)
      → Fits (view g) (checking c)
      → IsValid (check_refused c cleared g)
  unfolding check_refused
  check_refused-IsValid c cleared f = elim (Bool-cases (is_current c.generation g)) [
    | inl e ↦
        let h = f.captured ((==_iff _ _).0 e) in
        simp e (
          subst (λ a. IsValid (sign_out a cleared g)) (sym h.same_api)
            (sign_out-IsValid g cleared h.calm v))
    | inr e ↦ simp e (release-IsValid c g v)
  ]

  check_saved-IsValid :
      (c : Check) (u : User) → Fits (view g) (check_saving c u) → IsValid (check_saved c u g)
  unfolding check_saved
  check_saved-IsValid c u f = elim (Bool-cases (is_current c.generation g)) [
    | inl e ↦
        let h = f.captured ((==_iff _ _).0 e) in
        simp e (release-IsValid c _ (marked-IsValid true g.stored _ (user-IsValid u g h.someone v)))
    | inr e ↦ simp e (release-IsValid c g v)
  ]

  logged_in-IsValid :
      (a : Attempt) (token : Text) (u : User) (saved : Bool)
      → Fits (view g) (logging_in a)
      → All (Apart (logging_in a)) g.pending
      → IsValid (logged_in a token u saved g)
  unfolding logged_in
  logged_in-IsValid a token u saved f k = elim (Bool-cases (is_current a.generation g)) [
    | inl e ↦ simp e (
        wait-IsValid (login_saving a token u saved) _
          (record { not_later = f.not_later; captured = f.captured })
          (Apart-same (logging_in a) _ g.pending refl refl k)
          (marked-IsValid g.online (write saved (session_of a.base_url token u) g.stored) g v))
    | inr e ↦ simp e v
  ]

  login_saved-IsValid :
      (a : Attempt) (token : Text) (u : User) (saved : Bool)
      → Fits (view g) (login_saving a token u saved)
      → All (Apart (login_saving a token u saved)) g.pending
      → IsValid (login_saved a token u saved g)
  unfolding login_saved
  login_saved-IsValid a token u saved f k = elim (Bool-cases (is_current a.generation g)) [
    | inl e ↦ elim (Bool-cases saved) [
      | inl s ↦
          let here = (==_iff _ _).0 e in
          let h = f.captured here in
          simp (e, s)
            (login-IsValid (login_saving a token u saved) a.api token _ _ u g h.calm h.same_api
              h.nobody refl here k v)
      | inr s ↦ simp (e, s) v
    ]
    | inr e ↦ simp e v
  ]

  password-IsValid : (u : User) → is_some g.user ≡ true → IsValid (changed_user u g)
  unfolding changed_user
  password-IsValid u e =
      let w = user-IsValid u g e v in
      record {
        both = w.both;
        bearer = w.bearer;
        address = w.address;
        made = w.made;
        connecting = w.connecting;
        waiting = w.waiting;
        distinct = w.distinct;
      }

  change_write-IsValid :
      (o : Option Text) (w : Change) (u : User) (saved : Bool)
      → Fits (view g) (changing w)
      → is_some g.user ≡ true
      → IsValid (change_write o w u saved g)
  unfolding change_write
  change_write-IsValid none w u saved f e = password-IsValid u e
  change_write-IsValid (some token) w u saved f e =
      wait-IsValid (change_saving w u) _ (record { not_later = f.not_later; captured = f.captured })
        (Apart-plain _ g.pending refl)
        (marked-IsValid g.online (write saved (session_of w.base_url token u) g.stored) g v)

  changed-IsValid :
      (w : Change) (u : User) (saved : Bool)
      → Fits (view g) (changing w)
      → IsValid (changed w u saved g)
  unfolding changed
  changed-IsValid w u saved f = elim (Bool-cases (is_current w.generation g)) [
    | inl e ↦
        let h = f.captured ((==_iff _ _).0 e) in
        simp e (change_write-IsValid w.token w u saved f h.someone)
    | inr e ↦ simp e v
  ]

  change_saved-IsValid :
      (w : Change) (u : User) → Fits (view g) (change_saving w u) → IsValid (change_saved w u g)
  unfolding change_saved
  change_saved-IsValid w u f = elim (Bool-cases (is_current w.generation g)) [
    | inl e ↦ let h = f.captured ((==_iff _ _).0 e) in simp e (password-IsValid u h.someone)
    | inr e ↦ simp e v
  ]

  pub continue-IsValid :
      (p : Pending) (answer : Answer)
      → Fits (view g) p
      → All (Apart p) g.pending
      → IsValid (continue p answer g)
  unfolding continue
  continue-IsValid (checking c) (profile u saved) f a = checked-IsValid c u saved f a
  continue-IsValid (checking c) offline f a = check_offline-IsValid c
  continue-IsValid (checking c) (refused cleared) f a = check_refused-IsValid c cleared f
  continue-IsValid (check_saving c u) store_done f a = check_saved-IsValid c u f
  continue-IsValid (logging_in b) (accepted token u saved) f a =
      logged_in-IsValid b token u saved f a
  continue-IsValid (logging_in b) offline f a = v
  continue-IsValid (logging_in b) (refused _) f a = v
  continue-IsValid (login_saving b token u saved) store_done f a =
      login_saved-IsValid b token u saved f a
  continue-IsValid (changing w) (profile u saved) f a = changed-IsValid w u saved f
  continue-IsValid (changing w) offline f a = v
  continue-IsValid (changing w) (refused _) f a = v
  continue-IsValid (change_saving w u) store_done f a = change_saved-IsValid w u f
  continue-IsValid p _ f a = wait-IsValid p g f a v
