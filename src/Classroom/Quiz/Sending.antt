-- ===== src/Classroom/Quiz/Sending.antt =====
-- How a submission ends.
use the_cinder_project.Base.{
  Bool, true, false, Option, none, some, List, [], ◌∷◌, ◌++◌, Text, text_eq, text_eq_iff,
  text_eq_refl, ◌≡◌, refl, sym, ◌∙◌, ap, subst, if◌then◌else◌, Bool-cases, inl, inr,
}
use the_cinder_project.Base.Dict.{Dict, lookup, insert, remove, lookup-insert, lookup-remove}
use the_cinder_project.Classroom.Quiz.{
  State, Event, began, succeeded, retried, sent, has, open_attempt, save, begin, send, succeed,
  step, run, answer_or, focused,
}
use the_cinder_project.Classroom.Quiz.Laws.{
  or_at_host, IsSafe, step-IsSafe, run-IsSafe, open_attempt-IsSafe,
}
use the_cinder_project.Classroom.Quiz.Course.{
  settled, saved_each, course_of, succeed-Rests, settled-Rests, run-append,
}

module _ {A : Type 0} (same : A → A → Bool) (empty : A) where
  record IsSending (answers : Dict A) (t : State A) : Type 0 where
    safe : IsSafe t
    waits : t.waiting ≡ []
    idle : t.running ≡ none
    online : t.online ≡ true
    focus : t.focus ≡ none
    shown : (p : Text) → lookup p t.answers ≡ lookup p answers

  -- A turn of the loop
  abbrev turn : Text → A → State A → State A
  turn q a t = step same empty succeeded (step same empty began (step same empty (retried q a) t))

  abbrev saved : Text → A → State A → State A
  saved q a t = record t {
    answers = insert q a t.answers;
    dirty = remove q (insert q a t.dirty);
    waiting = [];
    running = none;
    host = insert q a t.host;
  }

  turn-clean :
      (q : Text) (a : A) (t : State A)
      → lookup q t.dirty ≡ none
      → t.waiting ≡ []
      → t.running ≡ none
      → turn q a t ≡ t
  unfolding step begin succeed
  turn-clean q a t e w r = simp (e, w, r) refl

  saved-dirty :
      (q : Text) (a : A) (t : State A) (p : Text)
      → lookup p (saved q a t).dirty ≡ (if text_eq q p then none else lookup p t.dirty)
  saved-dirty q a t p = elim (Bool-cases (text_eq q p)) [
    | inl e ↦ simp (lookup-remove q p (insert q a t.dirty), e) refl
    | inr e ↦ simp (lookup-remove q p (insert q a t.dirty), lookup-insert q p a t.dirty, e) refl
  ]

  answer_or-some : (o : Option A) → has o ≡ true → some (answer_or empty o) ≡ o
  answer_or-some none h = absurd cc
  answer_or-some (some a) h = refl

  has-or_at_host : (o h : Option A) → has o ≡ true → has (or_at_host o h) ≡ true
  has-or_at_host none h e = absurd cc
  has-or_at_host (some a) h e = refl

  has-none : (o : Option A) → has o ≡ false → o ≡ none
  has-none none e = refl
  has-none (some a) e = absurd cc

  -- What waits is shown.
  shown-some :
      (answers : Dict A) (t : State A) (q : Text)
      → IsSending answers t
      → has (lookup q t.dirty) ≡ true
      → some (answer_or empty (lookup q answers)) ≡ lookup q answers
  shown-some answers t q v e =
      let seen : has (lookup q t.answers) ≡ true =
        ap has (v.safe.agrees q (ap (focused q) v.focus))
        ∙ has-or_at_host (lookup q t.dirty) (lookup q t.host) e in
      answer_or-some (lookup q answers) (ap has (sym (v.shown q)) ∙ seen)

  module _ (same-refl : (a : A) → same a a ≡ true)
      (same-sound : (a b : A) → same a b ≡ true → a ≡ b) where
    turn-saves :
        (q : Text) (a : A) (t : State A)
        → has (lookup q t.dirty) ≡ true
        → t.waiting ≡ []
        → t.running ≡ none
        → t.online ≡ true
        → turn q a t ≡ saved q a t
    unfolding step begin succeed save
    turn-saves q a t e w r o =
        let there : lookup q (insert q a t.dirty) ≡ some a =
          simp (lookup-insert q q a t.dirty, text_eq_refl q) refl in
        simp (e, w, r, o, there, same-refl a) refl

    turn-IsSending :
        (answers : Dict A) (t : State A) (q : Text)
        → IsSending answers t
        → IsSending answers (turn q (answer_or empty (lookup q answers)) t)
          × ((p : Text)
              → lookup p (turn q (answer_or empty (lookup q answers)) t).dirty
                ≡ (if text_eq q p then none else lookup p t.dirty))
    turn-IsSending answers t q v =
        let a = answer_or empty (lookup q answers) in
        let safe : IsSafe (turn q a t) = step-IsSafe same same-sound empty succeeded _ (
          step-IsSafe same same-sound empty began _
            (step-IsSafe same same-sound empty (retried q a) t v.safe)) in
        elim (Bool-cases (has (lookup q t.dirty))) [
          | inl e ↦
              let ends = turn-saves q a t e v.waits v.idle v.online in
              let shown : (p : Text) → lookup p (insert q a t.answers) ≡ lookup p answers = λ p.
                elim (Bool-cases (text_eq q p)) [
                  | inl k ↦
                      simp (lookup-insert q p a t.answers, k)
                        (shown-some answers t q v e
                          ∙ ap (λ x. lookup x answers) ((text_eq_iff q p).0 k))
                  | inr k ↦ simp (lookup-insert q p a t.answers, k) (v.shown p)
                ] in
              let sends : IsSending answers (saved q a t) = record {
                safe = subst IsSafe ends safe;
                waits = refl;
                idle = refl;
                online = v.online;
                focus = v.focus;
                shown = shown;
              } in
              (
                subst (IsSending answers) (sym ends) sends,
                λ p. ap (λ u. lookup p u.dirty) ends ∙ saved-dirty q a t p,
              )
          | inr e ↦
              let none_there = has-none (lookup q t.dirty) e in
              let ends = turn-clean q a t none_there v.waits v.idle in
              let same_dirty : (p : Text)
                  → lookup p t.dirty ≡ (if text_eq q p then none else lookup p t.dirty) =
                λ p. elim (Bool-cases (text_eq q p)) [
                  | inl k ↦
                      simp k (ap (λ x. lookup x t.dirty) (sym ((text_eq_iff q p).0 k)) ∙ none_there)
                  | inr k ↦ simp k refl
                ] in
              (
                subst (IsSending answers) (sym ends) v,
                λ p. ap (λ u. lookup p u.dirty) ends ∙ same_dirty p,
              )
        ]

    left :
        (answers : Dict A) (q : Text) (b : A) (more : Dict A) (t : State A) (p : Text)
        → ((r : Text) → lookup r ((q, b) ∷ more) ≡ none → lookup r t.dirty ≡ none)
        → lookup p more ≡ none
        → (if text_eq q p then none else lookup p t.dirty) ≡ none
    unfolding lookup
    left answers q b more t p h k = elim (Bool-cases (text_eq q p)) [
      | inl e ↦ simp e refl
      | inr e ↦ let absent : lookup p ((q, b) ∷ more) ≡ none = simp e k in simp e (h p absent)
    ]

    -- No value of a key of the list waits any longer, and none that did not wait before.
    saved_each-IsSending :
        (answers more : Dict A) (t : State A)
        → IsSending answers t
        → ((p : Text) → lookup p more ≡ none → lookup p t.dirty ≡ none)
        → IsSending answers (run same empty (saved_each same empty answers more) t)
          × ((p : Text)
              → lookup p (run same empty (saved_each same empty answers more) t).dirty ≡ none)
    unfolding run saved_each lookup
    saved_each-IsSending answers [] t v h = (v, λ p. h p refl)
    saved_each-IsSending answers ((q, b) ∷ more) t v h =
        let next = turn-IsSending answers t q v in
        saved_each-IsSending answers more _ next.0 (λ p k. next.1 p ∙ left answers q b more t p h k)

    lookup-none : (d : Dict A) → ((p : Text) → lookup p d ≡ none) → d ≡ []
    unfolding lookup
    lookup-none [] h = refl
    lookup-none ((q, a) ∷ d) h =
        let there : lookup q ((q, a) ∷ d) ≡ some a = simp (text_eq_refl q) refl in
        let bad : none ≡ some a = sym (h q) ∙ there in absurd cc

    or_at_host-none : (o h : Option A) → or_at_host o h ≡ none → o ≡ none
    or_at_host-none none h e = refl
    or_at_host-none (some a) h e = absurd cc

    -- With nothing left to save, a quiz is sent.
    send-clean :
        (t : State A)
        → t.dirty ≡ []
        → ((send t t.dirty).submitted ≡ true) × ((send t t.dirty).host ≡ t.host)
    send-clean t e = simp e (refl, refl)

    after_waiting :
        (s : State A)
        → IsSafe s
        → s.online ≡ true
        → s.focus ≡ none
        → IsSending s.answers
            (run same empty (settled same empty s.waiting) (succeed same s s.running))
    unfolding step
    after_waiting s v o f =
        let t = succeed same s s.running in
        let r =
          settled-Rests same empty s.waiting s t (succeed-Rests same empty s s.running refl) in
        record {
          safe =
              run-IsSafe same same-sound empty (settled same empty s.waiting) t
                (step-IsSafe same same-sound empty succeeded s v);
          waits = r.waits;
          idle = r.idle;
          online = r.online ∙ o;
          focus = r.focus ∙ f;
          shown = λ p. ap (lookup p) r.answers;
        }

    run-course_of_from :
        (s : State A)
        → IsSafe s
        → s.online ≡ true
        → s.focus ≡ none
        → ((run same empty (course_of same empty s) s).submitted ≡ true)
          × ((q : Text)
              → lookup q (run same empty (course_of same empty s) s).host ≡ lookup q s.answers)
    unfolding run course_of step
    run-course_of_from s v o f =
        let t = succeed same s s.running in
        let u = run same empty (settled same empty s.waiting) t in
        let w = run same empty (saved_each same empty s.answers s.answers) u in
        let sending = after_waiting s v o f in
        let all = saved_each-IsSending s.answers s.answers u sending (λ p k.
          or_at_host-none (lookup p u.dirty) (lookup p u.host)
            (sym (sending.safe.agrees p (ap (focused p) sending.focus)) ∙ sending.shown p ∙ k)) in
        let sends = send-clean w (lookup-none w.dirty all.1) in
        let ends : run same empty (course_of same empty s) s ≡ send w w.dirty =
          run-append same empty (settled same empty s.waiting)
            (saved_each same empty s.answers s.answers ++ (sent ∷ [])) t
          ∙ run-append same empty (saved_each same empty s.answers s.answers) (sent ∷ []) u in
        (
          ap (λ x. x.submitted) ends ∙ sends.0,
          λ q.
              ap (λ x. lookup q x.host) ends
              ∙ ap (lookup q) sends.1
              ∙ ap (λ x. or_at_host x (lookup q w.host)) (sym (all.1 q))
              ∙ sym (all.0.safe.agrees q (ap (focused q) all.0.focus))
              ∙ all.0.shown q,
        )

    -- Whatever the student did once an attempt is open, and however the requests and the connection
    -- fared: where the Host can be reached and no text is being typed, the quiz is sent in the end, and
    -- the Host has each answer that was shown, if the Host accepts what runs, what waits, and then each
    -- save of the submission. An answer is the same as itself, and two that count as the same are equal.
    pub run-course_of :
        (responses : Dict A) (online : Bool) (es : List (Event A))
        → (run same empty es (open_attempt responses online)).online ≡ true
        → (run same empty es (open_attempt responses online)).focus ≡ none
        → ((run same empty
              (course_of same empty (run same empty es (open_attempt responses online)))
              (run same empty es (open_attempt responses online))).submitted
            ≡ true)
          × ((q : Text)
              → lookup q
                  (run same empty
                    (course_of same empty (run same empty es (open_attempt responses online)))
                    (run same empty es (open_attempt responses online))).host
                ≡ lookup q (run same empty es (open_attempt responses online)).answers)
    run-course_of responses online es o f =
        let s = run same empty es (open_attempt responses online) in
        run-course_of_from s
          (run-IsSafe same same-sound empty es (open_attempt responses online)
            (open_attempt-IsSafe same same-sound empty responses online))
          o f
