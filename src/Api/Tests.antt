-- ===== src/Api/Tests.antt =====
-- The client at concrete inputs.
use the_cinder_project.Base.{
  Option, drop, trim, true, false, ◌||◌, none, some, List, [], ◌∷◌, Text, codes, ◌≡◌, ◌⊎◌, refl,
  arith,
}
use the_cinder_project.Base.Dict.{lookup}
use the_cinder_project.Base.Json.{null}
use the_cinder_project.Api.Request.{Method, Fetched, answered, receive}
use the_cinder_project.Api.Classrooms.{remove_student}
use the_cinder_project.Api.Calls.{Call, of_classroom, request_of}
use the_cinder_project.Host.Routes.{Route, Answer, find_route, segments, dispatch, IsRouter}
use the_cinder_project.Api.Routing.All.{Reaches, request_of-Reaches}
use the_cinder_project.Api.Routing.Query.{Each}
use the_cinder_project.Api.Routing.Proper.{OnWire, request_of-OnWire}
use the_cinder_project.Api.Transport.{
  Bytes, RequestHead, ReplyHead, Sent, Native, replied, not_a_frame, transport_error, frame,
  failure, Answers, host_fetch, host_fetch-frame,
}
use the_cinder_project.Api.Answers.{
  offline, silent, is_done, succeeded, turned_down, receive-offline, flush_over, flush_over-lookup,
}
use the_cinder_project.Classroom.Outbox.{State, submission, SubmissionPayload}
use the_cinder_project.Classroom.Scope.{belongs_to_classroom_scope}

abbrev removal : Call
removal = of_classroom (remove_student (codes "4f2a-01") (codes "9b"))

abbrev serve : List Route → Method → Text → Answer
serve table m path = find_route table m (segments path)

serve-IsRouter : IsRouter serve
unfolding dispatch
serve-IsRouter m path = refl

request_of-Reaches_example : Each (Reaches serve (codes "classrooms::remove")) (request_of removal)
request_of-Reaches_example = request_of-Reaches serve serve-IsRouter removal (refl, refl)

request_of-OnWire_example :
    Each (OnWire (codes "https://host:1//") (some (codes "t")) 2000) (request_of removal)
request_of-OnWire_example = request_of-OnWire (codes "https://host:1//") (some (codes "t")) removal

receive-offline_example :
    (offline (receive (answered 503 none)) ≡ silent (answered 503 none))
    × (is_done (receive (answered 503 none)) ≡ succeeded (answered 503 none))
receive-offline_example = receive-offline (answered 503 none) (omega arith)

abbrev essay : SubmissionPayload
essay = record {
  assignment_id = codes "7";
  doc = codes "{}";
  text = codes "words";
  note = codes "Submitted";
}

abbrev waiting_one : State
waiting_one = record {
  outbox = (codes "student:a:u:1", submission essay) ∷ [];
  accepted = [];
  rejected = false;
}

abbrev refusing : Text → Fetched
refusing key = answered 403 (some null)

flush_over-lookup_example :
    (lookup (codes "student:a:u:1") (flush_over (codes "student:a:u:") refusing waiting_one).outbox
      ≡ lookup (codes "student:a:u:1") waiting_one.outbox)
    ⊎ ((belongs_to_classroom_scope (codes "student:a:u:1") (codes "student:a:u:") ≡ true)
        × ((succeeded (refusing (codes "student:a:u:1"))
              || turned_down (refusing (codes "student:a:u:1")))
            ≡ true)
        × (silent (refusing (codes "student:a:u:1")) ≡ false))
flush_over-lookup_example =
    flush_over-lookup (codes "student:a:u:") refusing (codes "student:a:u:1") waiting_one

abbrev found : ReplyHead
found = record { status = 200; headers = [] }

abbrev no_text : RequestHead → Bytes
no_text head = []

abbrev one_byte : ReplyHead → Bytes
one_byte head = 123 ∷ []

abbrev read_found : Bytes → Option ReplyHead
read_found raw = some found

abbrev echo : Bytes → Native
unfolding frame
echo raw = replied (frame (123 ∷ []) (drop 4 raw))

abbrev posted : Sent
posted = record { method = codes "POST"; headers = []; body = 104 ∷ (105 ∷ []) }

echo-frame :
    (head : RequestHead) (body : Bytes)
    → echo (frame (no_text head) body) ≡ replied (frame (one_byte found) body)
unfolding frame
echo-frame head body = refl

host_fetch-frame_example :
    Answers no_text read_found echo found posted.body
      (host_fetch no_text read_found echo true not_a_frame (codes "https://host") 8000 posted)
host_fetch-frame_example =
    host_fetch-frame no_text read_found echo one_byte (λ head body. (found, body)) (λ h b. refl)
      (λ h b. omega arith) echo-frame not_a_frame (codes "https://host") 8000 posted

failure_test :
    failure (codes "host_outdated: Update Cinder Host.")
    ≡ transport_error (codes "host_outdated") (codes "Update Cinder Host.")
unfolding failure trim
failure_test = refl
