-- ===== src/Classroom/Quiz.antt =====
-- The answers to a quiz: `save`, `submit` and the effects of
-- apps/forge/src/classrooms/StudentQuizzes.tsx on an attempt that is open, and what the Host has of
-- it. `pendingSave` runs its saves one by one, so a save waits, runs and ends; a request that failed
-- may have reached the Host all the same. `===` on two answers is a parameter. An area for text has
-- the focus from the first change to the `blur` that the browser sends before any other area changes.
pub mod Laws
pub mod Course
pub mod Sending
mod Tests
use the_cinder_project.Base.{
  Bool, true, false, not, ◌&&◌, ◌||◌, Option, none, some, List, [], ◌∷◌, ◌++◌, Text, text_eq,
  if◌then◌else◌,
}
use the_cinder_project.Base.Dict.{Dict, lookup, insert, remove}

module _ (A : Type 0) where
  pub record State : Type 0 where
    pub answers : Dict A
    pub dirty : Dict A
    pub focus : Option Text
    pub waiting : List Text
    pub running : Option (Text × A)
    pub online : Bool
    pub submitted : Bool
    pub host : Dict A

  pub data Event : Type 0 where
    chosen typed : Text → A → Event
    blurred : Event
    connected : Bool → Event
    began : Event
    succeeded : Event
    failed : Bool → Event
    retried : Text → A → Event
    sent : Event

abbrev pub focused : Text → Option Text → Bool
focused q none = false
focused q (some p) = text_eq p q

module _ {A : Type 0} where
  abbrev pub has : Option A → Bool
  has none = false
  has (some _) = true

  -- `open`, with the answers that the Host has
  abbrev pub open_attempt : Dict A → Bool → State A
  open_attempt responses online = record {
    answers = responses;
    dirty = [];
    focus = none;
    waiting = [];
    running = none;
    online = online;
    submitted = false;
    host = responses;
  }

  abbrev pub enqueue : Text → State A → State A
  enqueue q s = record s { waiting = if s.online then s.waiting ++ (q ∷ []) else s.waiting }

  -- `save` up to its `await`
  unfoldable pub save : Text → A → State A → State A
  unfolding insert
  save q a s = enqueue q (record s { answers = insert q a s.answers; dirty = insert q a s.dirty })

  -- `onChange` of an area for text; another area has lost the focus before.
  abbrev pub change : Text → A → State A → Option Text → State A
  change q a s none = record s { answers = insert q a s.answers; focus = some q }
  change q a s (some p) = if text_eq p q then (record s { answers = insert q a s.answers }) else s

  abbrev pub answer_or : A → Option A → A
  answer_or empty none = empty
  answer_or empty (some a) = a

  -- `onBlur`; `empty` is the empty text.
  unfoldable pub blur : A → State A → Option Text → State A
  unfolding lookup save
  blur empty s none = s
  blur empty s (some q) = record (save q (answer_or empty (lookup q s.answers)) s) { focus = none }

  unfoldable pub save_all : Dict A → State A → State A
  unfolding save
  save_all [] s = s
  save_all ((q, a) ∷ more) s = save_all more (save q a s)

  -- The effect that saves what is left once the Host is there again.
  unfoldable pub connect : Bool → State A → State A
  unfolding save_all
  connect online s =
      let t : State A = record s { online = online } in
      let all_saved = save_all s.dirty t in
      if online && not s.online && not s.submitted then all_saved else t

  -- The part of a save behind its place in the queue, up to the request.
  abbrev pub start : Text → List Text → State A → Option A → State A
  start q rest s none = record s { waiting = rest }
  start q rest s (some latest) = record s { waiting = rest; running = some (q, latest) }

  unfoldable pub begin : State A → List Text → Option (Text × A) → State A
  unfolding lookup
  begin s [] running = s
  begin s (q ∷ rest) none = start q rest s (lookup q s.dirty)
  begin s (q ∷ rest) (some _) = s

  -- The rest of a submission, once what it awaited has ended.
  abbrev pub send : State A → Dict A → State A
  send s [] = record s { submitted = true }
  send s (_ ∷ _) = s

  unfoldable pub fail : Bool → State A → Option (Text × A) → State A
  unfolding insert
  fail reached s none = s
  fail reached s (some (q, latest)) =
      let t : State A = record s { running = none } in
      if reached then (record t { host = insert q latest s.host }) else t

  module _ (same : A → A → Bool) where
    abbrev pub is_latest : A → Option A → Bool
    is_latest a none = false
    is_latest a (some b) = same b a

    unfoldable pub succeed : State A → Option (Text × A) → State A
    unfolding lookup insert remove
    succeed s none = s
    succeed s (some (q, latest)) =
        let t : State A = record s { running = none; host = insert q latest s.host } in
        if is_latest latest (lookup q s.dirty) then (record t { dirty = remove q s.dirty }) else t

    module _ (empty : A) where
      unfoldable pub step : Event A → State A → State A
      unfolding lookup save blur connect begin succeed fail
      step (chosen q a) s = save q a s
      step (typed q a) s = change q a s s.focus
      step blurred s = blur empty s s.focus
      step (connected online) s = connect online s
      step began s = begin s s.waiting s.running
      step succeeded s = succeed s s.running
      step (failed reached) s = fail reached s s.running
      step (retried q a) s = let t = save q a s in if has (lookup q s.dirty) then t else s
      step sent s = send s s.dirty

      unfoldable pub run : List (Event A) → State A → State A
      unfolding step
      run [] s = s
      run (e ∷ es) s = run es (step e s)
