-- ===== src/Api/Answers.antt =====
-- What the answers of the Host mean to the client, and to the outbox.
use the_cinder_project.Base.{
  ℕ, ◌≤◌, Bool, true, false, not, ◌&&◌, ◌||◌, Option, none, some, is_some, Text, codes, leb, ◌==◌,
  if◌then◌else◌, ◌≡◌, ◌⊎◌, inl, inr, refl, arith,
}
use the_cinder_project.Base.Json.{Json}
use the_cinder_project.Api.Request.{
  Fetched, named, rejected, answered, Outcome, done, failed, broken, receive, ok_status, unanswered,
  refused, parsed,
}
use the_cinder_project.Classroom.Outbox.{
  is_offline, should_retry_outbox_failure, State, Entry, flush_current_student,
}
use the_cinder_project.Classroom.Outbox.Laws.{IsSettled, lookup-flush_current_student}
use the_cinder_project.Classroom.Scope.{belongs_to_classroom_scope}
use the_cinder_project.Base.Dict.{lookup}
use the_cinder_project.Classroom.Outbox

-- The statuses of HTTP.
abbrev pub IsHttp : Fetched → Type 0
IsHttp (named _ _) = Unit
IsHttp (rejected _) = Unit
IsHttp (answered status body) = 100 ≤ status

-- No response came.
abbrev pub silent : Fetched → Bool
silent (named _ _) = true
silent (rejected _) = true
silent (answered _ _) = false

-- A response of success, with the JSON that it needs.
abbrev pub succeeded : Fetched → Bool
succeeded (named _ _) = false
succeeded (rejected _) = false
succeeded (answered status body) = ok_status status && (status == 204 || is_some body)

abbrev pub offline : Outcome → Bool
offline (done _) = false
offline (failed e) = is_offline e.status
offline broken = false

abbrev pub is_done : Outcome → Bool
is_done (done _) = true
is_done (failed _) = false
is_done broken = false

-- How `flushCurrentStudent` and `submit` tell the outcomes of `submitWork` apart.
abbrev pub answer_of : Outcome → Outbox.Answer
answer_of (done _) = Outbox.sent
answer_of (failed e) = Outbox.api_error e.status
answer_of broken = Outbox.broken

-- A response that is turned down for good: no success, and no status that is to be retried.
abbrev pub turned_down : Fetched → Bool
turned_down (named _ _) = false
turned_down (rejected _) = false
turned_down (answered status body) =
    not (ok_status status)
    && not (status == 408 || status == 425 || status == 429 || leb 500 status)

unanswered-offline :
    (a : Bool) (late : Text)
    → (offline (unanswered a late) ≡ true)
      × (is_done (unanswered a late) ≡ false)
      × (answer_of (unanswered a late) ≡ Outbox.api_error 0)
unfolding unanswered is_offline
unanswered-offline true late = (refl, refl, refl)
unanswered-offline false late = (refl, refl, refl)

answered-cases :
    (b c : Bool) (status : ℕ) (body : Option Json)
    → (b ≡ false → is_offline status ≡ false)
    → (offline (if not b then refused status body else if c then done none else parsed body)
        ≡ false)
      × (is_done (if not b then refused status body else if c then done none else parsed body)
          ≡ (b && (c || is_some body)))
unfolding refused
answered-cases false c status body h = (h refl, refl)
answered-cases true true status body h = (refl, refl)
answered-cases true false status none h = (refl, refl)
answered-cases true false status (some v) h = (refl, refl)

-- A request is reported as offline exactly if no response came, and ends well exactly if a response
-- of success came whose body is JSON, unless the status is 204, where the status of a response is
-- one of HTTP.
pub receive-offline :
    (f : Fetched)
    → IsHttp f
    → (offline (receive f) ≡ silent f) × (is_done (receive f) ≡ succeeded f)
unfolding receive is_offline
receive-offline (named c m) h = (refl, refl)
receive-offline (rejected a) h =
    let u = unanswered-offline a (codes "The teacher computer did not respond in time.") in
    (u.0, u.1)
receive-offline (answered status body) h =
    answered-cases (ok_status status) (status == 204) status body (λ e. ground arith)

-- What the outbox may do with an answer.
abbrev pub Settles : Outbox.Answer → Bool → Bool → Type 0
Settles a ok down = IsSettled a → (ok || down) ≡ true

settled-cases :
    (b c : Bool) (status : ℕ) (body : Option Json)
    → Settles
        (answer_of (if not b then refused status body else if c then done none else parsed body))
        (b && (c || is_some body))
        (not b && not (status == 408 || status == 425 || status == 429 || leb 500 status))
unfolding refused should_retry_outbox_failure
settled-cases false c status body = λ h. ground arith
settled-cases true true status body = λ h. refl
settled-cases true false status none = λ h. absurd h
settled-cases true false status (some v) = λ h. refl

receive-Settles : (f : Fetched) → Settles (answer_of (receive f)) (succeeded f) (turned_down f)
unfolding receive should_retry_outbox_failure is_offline
receive-Settles (named c m) = λ h. cc
receive-Settles (rejected true) = λ h. cc
receive-Settles (rejected false) = λ h. cc
receive-Settles (answered status body) =
    settled-cases (ok_status status) (status == 204) status body

not_silent : (f : Fetched) → (succeeded f || turned_down f) ≡ true → silent f ≡ false
not_silent (named c m) h = cc
not_silent (rejected a) h = cc
not_silent (answered status body) h = refl

-- `flushCurrentStudent` over the client: each submission is answered by what its request fetches.
pub flush_over : Text → (Text → Fetched) → State → State
flush_over scope fetched s =
    flush_current_student scope (λ key. answer_of (receive (fetched key))) s

-- A submission leaves the outbox, when it is sent over the client, only if its key is in the scope of
-- the account and a response came that is a success, with JSON or status 204, or turns it down with
-- a status other than 408, 425, 429 and those from 500; where no response came, it stays.
pub flush_over-lookup :
    (scope : Text) (fetched : Text → Fetched) (key : Text) (s : State)
    → (lookup key (flush_over scope fetched s).outbox ≡ lookup key s.outbox)
      ⊎ ((belongs_to_classroom_scope key scope ≡ true)
          × ((succeeded (fetched key) || turned_down (fetched key)) ≡ true)
          × (silent (fetched key) ≡ false))
unfolding flush_over
flush_over-lookup scope fetched key s =
    elim (lookup-flush_current_student scope (λ k. answer_of (receive (fetched k))) key s) [
      | inl e ↦ inl e
      | inr (b, h) ↦
          let done_with = receive-Settles (fetched key) h in
          inr (b, done_with, not_silent (fetched key) done_with)
    ]
