-- ===== src/Classroom/Quiz/Laws.antt =====
-- What a quiz that is open keeps: each answer is at the Host or waits to be sent.
use the_cinder_project.Base.{
  Bool, true, false, not, ◌&&◌, Option, none, some, List, [], ◌∷◌, Text, text_eq, text_eq_iff, ◌≡◌,
  refl, sym, ◌∙◌, ap, Bool-cases, inl, inr,
}
use the_cinder_project.Base.Dict.{Dict, lookup, insert, remove, lookup-insert, lookup-remove}
use the_cinder_project.Classroom.Quiz.{
  State, Event, chosen, typed, blurred, connected, began, succeeded, failed, retried, sent, has,
  open_attempt, save, focused, change, blur, save_all, connect, start, begin, send, is_latest,
  succeed, fail, step, run, answer_or,
}

module _ {A : Type 0} where
  -- The first value, or the second where there is none.
  abbrev pub or_at_host : Option A → Option A → Option A
  or_at_host none h = h
  or_at_host (some a) h = some a

  pub record IsSafe (s : State A) : Type 0 where
    pub agrees :
        (q : Text)
        → focused q s.focus ≡ false
        → lookup q s.answers ≡ or_at_host (lookup q s.dirty) (lookup q s.host)
    pub waits : (q : Text) (a : A) → s.running ≡ some (q, a) → has (lookup q s.dirty) ≡ true

  save-agrees :
      (q : Text) (a : A) (s : State A) (p : Text)
      → (text_eq q p ≡ false → lookup p s.answers ≡ or_at_host (lookup p s.dirty) (lookup p s.host))
      → lookup p (save q a s).answers
        ≡ or_at_host (lookup p (save q a s).dirty) (lookup p (save q a s).host)
  unfolding save
  save-agrees q a s p h = elim (Bool-cases (text_eq q p)) [
    | inl e ↦ simp (lookup-insert q p a s.answers, lookup-insert q p a s.dirty, e) refl
    | inr e ↦ simp (lookup-insert q p a s.answers, lookup-insert q p a s.dirty, e) (h e)
  ]

  save-waits :
      (q : Text) (a : A) (s : State A) (p : Text)
      → has (lookup p s.dirty) ≡ true
      → has (lookup p (save q a s).dirty) ≡ true
  unfolding save
  save-waits q a s p h = elim (Bool-cases (text_eq q p)) [
    | inl e ↦ simp (lookup-insert q p a s.dirty, e) refl
    | inr e ↦ simp (lookup-insert q p a s.dirty, e) h
  ]

  save-focus : (q : Text) (a : A) (s : State A) → (save q a s).focus ≡ s.focus
  unfolding save
  save-focus q a s = refl

  save-running : (q : Text) (a : A) (s : State A) → (save q a s).running ≡ s.running
  unfolding save
  save-running q a s = refl

  save-IsSafe : (q : Text) (a : A) (s : State A) → IsSafe s → IsSafe (save q a s)
  save-IsSafe q a s v = record {
    agrees =
        λ p h. save-agrees q a s p (λ e. v.agrees p (ap (focused p) (sym (save-focus q a s)) ∙ h));
    waits = λ p b h. save-waits q a s p (v.waits p b (sym (save-running q a s) ∙ h));
  }

  change-IsSafe :
      (q : Text) (a : A) (s : State A) (o : Option Text)
      → s.focus ≡ o
      → IsSafe s
      → IsSafe (change q a s o)
  change-IsSafe q a s none e v = record {
    agrees = λ p h. simp (lookup-insert q p a s.answers, h) (v.agrees p (ap (focused p) e));
    waits = v.waits;
  }
  change-IsSafe q a s (some r) e v = elim (Bool-cases (text_eq r q)) [
    | inl same ↦
        let changed : IsSafe (record s { answers = insert q a s.answers }) = record {
          agrees = λ p h.
              let other : text_eq q p ≡ false =
                ap (λ x. text_eq x p) (sym ((text_eq_iff r q).0 same))
                ∙ sym (ap (focused p) e)
                ∙ h in
              simp (lookup-insert q p a s.answers, other) (v.agrees p h);
          waits = v.waits;
        } in
        simp same changed
    | inr other ↦ simp other v
  ]

  blur-IsSafe :
      (empty : A) (s : State A) (o : Option Text) → s.focus ≡ o → IsSafe s → IsSafe (blur empty s o)
  unfolding blur
  blur-IsSafe empty s none e v = v
  blur-IsSafe empty s (some q) e v =
      let a = answer_or empty (lookup q s.answers) in
      record {
        agrees = λ p h. save-agrees q a s p (λ other. v.agrees p (ap (focused p) e ∙ other));
        waits = λ p b h. save-waits q a s p (v.waits p b (sym (save-running q a s) ∙ h));
      }

  save_all-IsSafe : (d : Dict A) (s : State A) → IsSafe s → IsSafe (save_all d s)
  unfolding save_all
  save_all-IsSafe [] s v = v
  save_all-IsSafe ((q, a) ∷ d) s v = save_all-IsSafe d (save q a s) (save-IsSafe q a s v)

  connect-IsSafe : (online : Bool) (s : State A) → IsSafe s → IsSafe (connect online s)
  unfolding connect
  connect-IsSafe online s v =
      let t : State A = record s { online = online } in
      let safe : IsSafe t = record { agrees = v.agrees; waits = v.waits } in
      elim (Bool-cases (online && not s.online && not s.submitted)) [
        | inl e ↦ simp e (save_all-IsSafe s.dirty t safe)
        | inr e ↦ simp e safe
      ]

  abbrev key_of : Text → Option (Text × A) → Text
  key_of q none = q
  key_of q (some (p, _)) = p

  start-IsSafe :
      (q : Text) (rest : List Text) (s : State A) (o : Option A)
      → lookup q s.dirty ≡ o
      → IsSafe s
      → IsSafe (start q rest s o)
  start-IsSafe q rest s none e v = record { agrees = v.agrees; waits = v.waits }
  start-IsSafe q rest s (some latest) e v = record {
    agrees = v.agrees;
    waits = λ p b h.
        let key : q ≡ p = ap (key_of q) h in ap (λ x. has (lookup x s.dirty)) (sym key) ∙ ap has e;
  }

  begin-IsSafe :
      (s : State A) (waiting : List Text) (o : Option (Text × A))
      → IsSafe s
      → IsSafe (begin s waiting o)
  unfolding begin
  begin-IsSafe s [] o v = v
  begin-IsSafe s (q ∷ rest) none v = start-IsSafe q rest s (lookup q s.dirty) refl v
  begin-IsSafe s (q ∷ rest) (some r) v = v

  send-IsSafe : (s : State A) (d : Dict A) → IsSafe s → IsSafe (send s d)
  send-IsSafe s [] v = record { agrees = v.agrees; waits = v.waits }
  send-IsSafe s (_ ∷ _) v = v

  has-or_at_host : (o x y : Option A) → has o ≡ true → or_at_host o x ≡ or_at_host o y
  has-or_at_host none x y h = absurd cc
  has-or_at_host (some a) x y h = refl

  -- A value at the Host that still waits there does not matter.
  host-agrees :
      (q : Text) (a : A) (s : State A) (p : Text)
      → has (lookup q s.dirty) ≡ true
      → or_at_host (lookup p s.dirty) (lookup p s.host)
        ≡ or_at_host (lookup p s.dirty) (lookup p (insert q a s.host))
  host-agrees q a s p h = elim (Bool-cases (text_eq q p)) [
    | inl e ↦
        has-or_at_host (lookup p s.dirty) (lookup p s.host) (lookup p (insert q a s.host))
          (ap (λ x. has (lookup x s.dirty)) (sym ((text_eq_iff q p).0 e)) ∙ h)
    | inr e ↦ simp (lookup-insert q p a s.host, e) refl
  ]

  fail-IsSafe :
      (reached : Bool) (s : State A) (o : Option (Text × A))
      → s.running ≡ o
      → IsSafe s
      → IsSafe (fail reached s o)
  unfolding fail
  fail-IsSafe reached s none e v = v
  fail-IsSafe true s (some (q, a)) e v = record {
    agrees = λ p h. v.agrees p h ∙ host-agrees q a s p (v.waits q a e);
    waits = λ p b h. absurd cc;
  }
  fail-IsSafe false s (some (q, a)) e v = record { agrees = v.agrees; waits = λ p b h. absurd cc }

  module _ (same : A → A → Bool) (same-sound : (a b : A) → same a b ≡ true → a ≡ b) where
    latest-lookup : (a : A) (o : Option A) → is_latest same a o ≡ true → o ≡ some a
    latest-lookup a none h = absurd cc
    latest-lookup a (some b) h = ap some (same-sound b a h)

    delivered-agrees :
        (q : Text) (a : A) (s : State A) (p : Text)
        → lookup q s.dirty ≡ some a
        → or_at_host (lookup p s.dirty) (lookup p s.host)
          ≡ or_at_host (lookup p (remove q s.dirty)) (lookup p (insert q a s.host))
    delivered-agrees q a s p h = elim (Bool-cases (text_eq q p)) [
      | inl e ↦
          let here : lookup p s.dirty ≡ some a =
            ap (λ x. lookup x s.dirty) (sym ((text_eq_iff q p).0 e)) ∙ h in
          simp (lookup-insert q p a s.host, lookup-remove q p s.dirty, e, here) refl
      | inr e ↦ simp (lookup-insert q p a s.host, lookup-remove q p s.dirty, e) refl
    ]

    succeed-IsSafe :
        (s : State A) (o : Option (Text × A)) → s.running ≡ o → IsSafe s → IsSafe (succeed same s o)
    unfolding succeed
    succeed-IsSafe s none e v = v
    succeed-IsSafe s (some (q, a)) e v =
        let stays : IsSafe (record s { running = none; host = insert q a s.host }) = record {
          agrees = λ p h. v.agrees p h ∙ host-agrees q a s p (v.waits q a e);
          waits = λ p b h. absurd cc;
        } in
        elim (Bool-cases (is_latest same a (lookup q s.dirty))) [
          | inl l ↦
              let goes : IsSafe (record s {
                running = none;
                host = insert q a s.host;
                dirty = remove q s.dirty;
              }) =
                record {
                  agrees = λ p h.
                      v.agrees p h
                      ∙ delivered-agrees q a s p (latest-lookup a (lookup q s.dirty) l);
                  waits = λ p b h. absurd cc;
                } in
              simp l goes
          | inr l ↦ simp l stays
        ]

    module _ (empty : A) where
      pub step-IsSafe : (e : Event A) (s : State A) → IsSafe s → IsSafe (step same empty e s)
      unfolding step
      step-IsSafe (chosen q a) s v = save-IsSafe q a s v
      step-IsSafe (typed q a) s v = change-IsSafe q a s s.focus refl v
      step-IsSafe blurred s v = blur-IsSafe empty s s.focus refl v
      step-IsSafe (connected online) s v = connect-IsSafe online s v
      step-IsSafe began s v = begin-IsSafe s s.waiting s.running v
      step-IsSafe succeeded s v = succeed-IsSafe s s.running refl v
      step-IsSafe (failed reached) s v = fail-IsSafe reached s s.running refl v
      step-IsSafe (retried q a) s v = elim (Bool-cases (has (lookup q s.dirty))) [
        | inl e ↦ simp e (save-IsSafe q a s v)
        | inr e ↦ simp e v
      ]
      step-IsSafe sent s v = send-IsSafe s s.dirty v

      pub run-IsSafe : (es : List (Event A)) (s : State A) → IsSafe s → IsSafe (run same empty es s)
      unfolding run
      run-IsSafe [] s v = v
      run-IsSafe (e ∷ es) s v = run-IsSafe es (step same empty e s) (step-IsSafe e s v)

      pub open_attempt-IsSafe :
          (responses : Dict A) (online : Bool) → IsSafe (open_attempt responses online)
      unfolding lookup
      open_attempt-IsSafe responses online = record {
        agrees = λ p h. refl;
        waits = λ p b h. absurd cc;
      }

      sends-empty :
          (s : State A) (d : Dict A) → s.submitted ≡ false → (send s d).submitted ≡ true → d ≡ []
      sends-empty s [] e h = refl
      sends-empty s (_ ∷ _) e h = absurd cc

      -- Whatever the student does once an attempt is open, and however the requests and the
      -- connection fare: each answer that is shown, but for the text that is being typed, waits to
      -- be saved or is the one that the Host has; and a quiz is sent only if the Host has each of
      -- them. Two answers that count as the same are equal.
      pub lookup-run :
          (responses : Dict A) (online : Bool) (es : List (Event A)) (q : Text)
          → focused q (run same empty es (open_attempt responses online)).focus ≡ false
          → (lookup q (run same empty es (open_attempt responses online)).answers
              ≡ or_at_host
                  (lookup q (run same empty es (open_attempt responses online)).dirty)
                  (lookup q (run same empty es (open_attempt responses online)).host))
            × ((run same empty es (open_attempt responses online)).submitted ≡ false
                → (step same empty sent
                    (run same empty es (open_attempt responses online))).submitted
                  ≡ true
                → lookup q (run same empty es (open_attempt responses online)).answers
                  ≡ lookup q (run same empty es (open_attempt responses online)).host)
      unfolding step lookup
      lookup-run responses online es q h =
          let s = run same empty es (open_attempt responses online) in
          let v =
            run-IsSafe es (open_attempt responses online) (open_attempt-IsSafe responses online) in
          (
            v.agrees q h,
            λ e sends.
                v.agrees q h
                ∙ ap (λ d. or_at_host (lookup q d) (lookup q s.host))
                    (sends-empty s s.dirty e sends),
          )
