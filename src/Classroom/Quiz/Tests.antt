-- ===== src/Classroom/Quiz/Tests.antt =====
-- A quiz at a concrete course of events.
use the_cinder_project.Base.{
  true, false, none, List, [], ◌∷◌, Text, codes, text_eq, text_eq_iff, text_eq_refl, ◌≡◌, refl,
}
use the_cinder_project.Base.Dict.{lookup, insert, remove}
use the_cinder_project.Classroom.Quiz.{
  State, Event, chosen, typed, blurred, connected, began, succeeded, failed, sent, open_attempt,
  save, blur, save_all, connect, begin, succeed, fail, step, run, focused,
}
use the_cinder_project.Classroom.Quiz.Course.{course_of}
use the_cinder_project.Classroom.Quiz.Sending.{run-course_of}
use the_cinder_project.Classroom.Quiz.Laws.{or_at_host, lookup-run}

-- A choice while offline, a text, a request that fails and one that succeeds.
abbrev course : List (Event Text)
course =
    chosen (codes "q1") (codes "B")
    ∷ typed (codes "q2") (codes "Because")
    ∷ blurred
    ∷ connected true
    ∷ began
    ∷ failed false
    ∷ began
    ∷ succeeded
    ∷ chosen (codes "q1") (codes "C")
    ∷ began
    ∷ succeeded
    ∷ []

abbrev finished : State Text
unfolding run
finished = run text_eq [] course (open_attempt [] false)

finished_test : finished.dirty ≡ []
unfolding run step lookup insert remove save blur save_all connect begin succeed fail text_eq
finished_test = refl

finished-focus : focused (codes "q1") finished.focus ≡ false
unfolding run step lookup insert remove save blur save_all connect begin succeed fail text_eq
finished-focus = refl

lookup-run_example :
    (lookup (codes "q1") finished.answers
      ≡ or_at_host (lookup (codes "q1") finished.dirty) (lookup (codes "q1") finished.host))
    × (finished.submitted ≡ false
        → (step text_eq [] sent finished).submitted ≡ true
        → lookup (codes "q1") finished.answers ≡ lookup (codes "q1") finished.host)
unfolding run finished
lookup-run_example =
    lookup-run text_eq (λ s t e. (text_eq_iff s t).0 e) [] [] false course (codes "q1")
      finished-focus

-- A save that runs and two that wait, after a failure
abbrev interrupted : List (Event Text)
interrupted =
    chosen (codes "q1") (codes "B")
    ∷ connected true
    ∷ began
    ∷ failed true
    ∷ chosen (codes "q2") (codes "D")
    ∷ began
    ∷ chosen (codes "q1") (codes "A")
    ∷ chosen (codes "q1") (codes "B")
    ∷ []

abbrev halfway : State Text
unfolding run
halfway = run text_eq [] interrupted (open_attempt [] false)

halfway-online : halfway.online ≡ true
unfolding run step lookup insert remove save blur save_all connect begin succeed fail text_eq
halfway-online = refl

halfway-focus : halfway.focus ≡ none
unfolding run step lookup insert remove save blur save_all connect begin succeed fail text_eq
halfway-focus = refl

run-course_of_example :
    ((run text_eq [] (course_of text_eq [] halfway) halfway).submitted ≡ true)
    × ((q : Text)
        → lookup q (run text_eq [] (course_of text_eq [] halfway) halfway).host
          ≡ lookup q halfway.answers)
unfolding run halfway
run-course_of_example =
    run-course_of text_eq [] text_eq_refl (λ s t e. (text_eq_iff s t).0 e) [] false interrupted
      halfway-online halfway-focus
