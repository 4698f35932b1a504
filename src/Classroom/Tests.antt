-- ===== src/Classroom/Tests.antt =====
-- The classroom theorems at concrete inputs.
use the_cinder_project.Base.{
  ℕ, true, false, ◌&&◌, ◌≡◌, ◌↔◌, refl, arith, Option, none, some, [], ◌∷◌, ◌++◌, Text, codes,
  text_eq, if◌then◌else◌,
}
use the_cinder_project.Base.Dict.{lookup}
use the_cinder_project.Base.Number.{finite}
use the_cinder_project.Classroom.Scope.{
  classroom_scope, scope_of, encode_uri_component, encode_after, belongs_to_classroom_scope,
  submission_outbox_key, NoColon, belongs-classroom_scope,
}
use the_cinder_project.Classroom.Outbox.{
  SubmissionPayload, submission, Answer, sent, api_error, State, flush_current_student, Prepared,
  failed, fits, submit,
}
use the_cinder_project.Classroom.Outbox.Laws.{
  Kept, left_by, waiting, lookup-flush_current_student, accepted-flush_current_student,
  lookup-submit,
}
use the_cinder_project.Classroom.Live.{
  LiveSession, live_session_clock, live_session_clock-IsClockFor, checked_live_result,
  checked_live_result-IsChecked, IsClockFor, IsChecked,
}

abbrev base_url : Text
base_url = codes "http://a b:1"

abbrev encoded : Text
encoded = codes "http%3A%2F%2Fa%20b%3A1"

scope_test : classroom_scope base_url (codes "u1") ≡ some (scope_of encoded (codes "u1"))
unfolding classroom_scope encode_uri_component encode_after
scope_test = refl

other_scope_test : classroom_scope base_url (codes "u2") ≡ some (scope_of encoded (codes "u2"))
unfolding classroom_scope encode_uri_component encode_after
other_scope_test = refl

one-NoColon : NoColon (codes "u1")
one-NoColon = omega arith

two-NoColon : NoColon (codes "u2")
two-NoColon = omega arith

belongs-classroom_scope_example :
    (belongs_to_classroom_scope
        (scope_of encoded (codes "u1") ++ codes "cache:tree")
        (scope_of encoded (codes "u2"))
      ≡ true)
    ↔ ((scope_of encoded (codes "u1") ≡ scope_of encoded (codes "u2")) × (codes "u1" ≡ codes "u2"))
belongs-classroom_scope_example =
    belongs-classroom_scope base_url base_url (codes "u1") (codes "u2") (codes "cache:tree")
      scope_test other_scope_test one-NoColon two-NoColon

abbrev essay : SubmissionPayload
essay = record {
  assignment_id = codes "7";
  doc = codes "{}";
  text = codes "words";
  note = codes "Submitted";
}

abbrev mine : Text
mine = scope_of encoded (codes "u1")

abbrev theirs : Text
theirs = scope_of encoded (codes "u2")

abbrev mine_key : Text
mine_key = submission_outbox_key mine (codes "7")

abbrev theirs_key : Text
theirs_key = submission_outbox_key theirs (codes "7")

abbrev full : State
full = record {
  outbox = (mine_key, submission essay) ∷ (theirs_key, submission essay) ∷ [];
  accepted = [];
  rejected = false;
}

abbrev busy : Text → Answer
busy key = api_error 503

lookup-flush_current_student_example :
    Kept mine busy mine_key full.outbox (flush_current_student mine busy full).outbox
lookup-flush_current_student_example = lookup-flush_current_student mine busy mine_key full

accepted-flush_current_student_example :
    (flush_current_student mine (λ _. sent) full).accepted
    ≡ full.accepted ++ waiting mine full.outbox
accepted-flush_current_student_example = accepted-flush_current_student mine full

abbrev prepared : Prepared
prepared = record { payload = essay; text_bytes = 5; doc_bytes = 2 }

lookup-submit_example :
    (lookup mine_key (submit true (api_error 0) mine (some prepared) full).0.outbox ≡ (
      if fits prepared
        && text_eq (submission_outbox_key mine prepared.payload.assignment_id) mine_key
      then left_by true (api_error 0) prepared.payload
      else lookup mine_key full.outbox))
    × (submit true (api_error 0) mine none full ≡ (full, failed))
lookup-submit_example = lookup-submit true (api_error 0) mine mine_key prepared full

abbrev lesson : LiveSession
lesson = record { ends_at = codes "2026"; ended_at = none }

abbrev parse_date : Text → Option ℕ
parse_date raw = some 90000

live_session_clock-IsClockFor_example :
    IsClockFor (some 90000) 30500 (live_session_clock parse_date lesson 30500)
live_session_clock-IsClockFor_example = live_session_clock-IsClockFor parse_date lesson 30500 refl

checked_live_result-IsChecked_example :
    IsChecked
      (checked_live_result (some (finite false 175 1)) (finite false 121 1) 1)
      (finite false 175 1)
      (finite false 121 1)
      1
checked_live_result-IsChecked_example =
    checked_live_result-IsChecked (finite false 175 1) (finite false 121 1) 1
