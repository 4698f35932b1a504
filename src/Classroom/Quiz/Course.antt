-- ===== src/Classroom/Quiz/Course.antt =====
-- The course of a submission whose requests the Host accepts.
use the_cinder_project.Base.{
  Bool, Option, none, some, List, [], ◌∷◌, ◌++◌, Text, ◌≡◌, refl, ◌∙◌, Bool-cases, inl, inr,
}
use the_cinder_project.Base.Dict.{Dict, lookup, insert, remove}
use the_cinder_project.Classroom.Quiz.{
  State, Event, began, succeeded, retried, sent, start, begin, is_latest, succeed, step, run,
  answer_or,
}

module _ {A : Type 0} (same : A → A → Bool) (empty : A) where
  -- What waits is requested, and the Host accepts it.
  unfoldable pub settled : List Text → List (Event A)
  settled [] = []
  settled (q ∷ rest) = began ∷ (succeeded ∷ settled rest)

  -- The loop of `submit` over the answers, each save accepted by the Host; a dictionary has the first
  -- value of a key.
  unfoldable pub saved_each : Dict A → Dict A → List (Event A)
  unfolding lookup
  saved_each answers [] = []
  saved_each answers ((q, _) ∷ more) =
      retried q (answer_or empty (lookup q answers))
      ∷ (began ∷ (succeeded ∷ saved_each answers more))

  unfoldable pub course_of : State A → List (Event A)
  unfolding settled saved_each
  course_of s = succeeded ∷ (settled s.waiting ++ (saved_each s.answers s.answers ++ (sent ∷ [])))

  -- Nothing is under way, but for a list of saves, and what the student sees is the same.
  pub record Rests (s t : State A) (waiting : List Text) : Type 0 where
    pub waits : t.waiting ≡ waiting
    pub idle : t.running ≡ none
    pub online : t.online ≡ s.online
    pub focus : t.focus ≡ s.focus
    pub answers : t.answers ≡ s.answers

  pub succeed-Rests :
      (s : State A) (o : Option (Text × A)) → s.running ≡ o → Rests s (succeed same s o) s.waiting
  unfolding succeed
  succeed-Rests s none e = record {
    waits = refl;
    idle = e;
    online = refl;
    focus = refl;
    answers = refl;
  }
  succeed-Rests s (some (q, a)) e =
      let kept : Rests s (record s { running = none; host = insert q a s.host }) s.waiting =
        record { waits = refl; idle = refl; online = refl; focus = refl; answers = refl } in
      let gone : Rests s
          (record s { running = none; host = insert q a s.host; dirty = remove q s.dirty })
          s.waiting =
        record { waits = refl; idle = refl; online = refl; focus = refl; answers = refl } in
      elim (Bool-cases (is_latest same a (lookup q s.dirty))) [
        | inl l ↦ simp l gone
        | inr l ↦ simp l kept
      ]

  start-Rests :
      (q : Text) (rest : List Text) (s : State A) (o : Option A)
      → Rests s (succeed same (start q rest s o) (start q rest s o).running) rest
  start-Rests q rest s none =
      let u : State A = record s { waiting = rest } in
      let r = succeed-Rests u u.running refl in
      record {
        waits = r.waits;
        idle = r.idle;
        online = r.online;
        focus = r.focus;
        answers = r.answers;
      }
  start-Rests q rest s (some a) =
      let u : State A = record s { waiting = rest; running = some (q, a) } in
      let r = succeed-Rests u u.running refl in
      record {
        waits = r.waits;
        idle = r.idle;
        online = r.online;
        focus = r.focus;
        answers = r.answers;
      }

  turn-Rests :
      (q : Text) (rest : List Text) (s : State A)
      → s.waiting ≡ q ∷ rest
      → s.running ≡ none
      → Rests s (step same empty succeeded (step same empty began s)) rest
  unfolding step begin
  turn-Rests q rest s h k = simp (h, k) (start-Rests q rest s (lookup q s.dirty))

  Rests-trans : (s t u : State A) (ws vs : List Text) → Rests s t ws → Rests t u vs → Rests s u vs
  Rests-trans s t u ws vs a b = record {
    waits = b.waits;
    idle = b.idle;
    online = b.online ∙ a.online;
    focus = b.focus ∙ a.focus;
    answers = b.answers ∙ a.answers;
  }

  pub settled-Rests :
      (ws : List Text) (s t : State A) → Rests s t ws → Rests s (run same empty (settled ws) t) []
  unfolding run settled
  settled-Rests [] s t r = r
  settled-Rests (q ∷ ws) s t r =
      settled-Rests ws s _ (Rests-trans s t _ (q ∷ ws) ws r (turn-Rests q ws t r.waits r.idle))

  pub run-append :
      (es fs : List (Event A)) (s : State A)
      → run same empty (es ++ fs) s ≡ run same empty fs (run same empty es s)
  unfolding run
  run-append [] fs s = refl
  run-append (e ∷ es) fs s = run-append es fs (step same empty e s)
