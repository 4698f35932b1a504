-- ===== src/Session/Gate/Tests.antt =====
-- Runs of the gate, and its theorems at concrete inputs.
use the_cinder_project.Base.{
  true, false, Option, none, some, List, [], ◌∷◌, Text, codes, ◌≡◌, refl, arith,
}
use the_cinder_project.Model.{User, student}
use the_cinder_project.Session.Gate.{StoredSession, Gate, checking, Check, write}
use the_cinder_project.Session.Gate.Answers.{
  profile, accepted, offline, refused, store_done, session_of, continue,
}
use the_cinder_project.Session.Gate.Begin.{switch_account}
use the_cinder_project.Session.Gate.Run.{
  Event, refreshes, logs_in, switches, connects, connect_answer, connect_done, resumes, run,
}
use the_cinder_project.Session.Gate.Startup.{
  Config, unreachable, startup, FromStore, startup-IsValid,
}
use the_cinder_project.Session.Gate.Invariant.{IsValid}
use the_cinder_project.Session.Gate.Invariant.Runs.{run-IsValid}
use the_cinder_project.Session.Gate.Late.{SameSession, continue-SameSession}
use the_cinder_project.Session.Gate.SignOut.{run-switch_account}
use the_cinder_project.Session.Gate.SignIn.{
  login_events, refresh_events, login_signs_in, refresh_answers,
}

abbrev asha : User
asha = record {
  id = codes "u1";
  username = codes "asha";
  display_name = codes "Asha";
  role = student;
  grade_level = none;
  section = none;
  roll_number = none;
  must_change_password = true;
  created_at = codes "2026-01-05";
}

abbrev school : Text
school = codes "https://10.0.0.2:7373"

abbrev config : Config
config = record { host_url = some school; device_label = none }

abbrev saved_session : StoredSession
saved_session = record { base_url = school; token = codes "t0"; user = asha }

abbrev unchanged : Text → Option Text
unchanged url = some url

-- Nobody is signed in.
abbrev closed : Gate
closed = startup unchanged config none unreachable true true []

-- A session is stored, and the Host cannot be reached.
abbrev away : Gate
away = startup unchanged config (some saved_session) unreachable false true []

closed-IsValid : IsValid closed
closed-IsValid = (startup-IsValid unchanged config none unreachable true true []).0

away-IsValid : IsValid away
away-IsValid = (startup-IsValid unchanged config (some saved_session) unreachable false true []).0

startup-IsValid_example : IsValid away × FromStore unchanged (some saved_session) away
startup-IsValid_example =
    startup-IsValid unchanged config (some saved_session) unreachable false true []

-- A check is under way when the account is switched; its answer comes late.
abbrev late_events : List Event
late_events = refreshes ∷ switches true ∷ resumes 0 (profile asha true) ∷ logs_in (codes "pw") ∷ []

run_late : (run away late_events).generation ≡ 2
unfolding run startup
run_late = refl

run-IsValid_example : IsValid (run away late_events)
run-IsValid_example = run-IsValid away late_events (omega arith) away-IsValid

-- A check that was begun in an earlier generation.
abbrev old_check : Check
old_check = record {
  generation = 7;
  api = 0;
  base_url = school;
  user = asha;
  token = codes "t0";
  ticket = 0;
}

continue-SameSession_example : SameSession away (continue (checking old_check) (refused true) away)
unfolding startup
continue-SameSession_example =
    continue-SameSession (checking old_check) (refused true) away (λ e. absurd (omega arith))

abbrev after_switch : List Event
after_switch =
    resumes 0 (accepted (codes "t1") asha true)
    ∷ connects
    ∷ connects
    ∷ connect_answer 1 (some (codes "https://10.0.0.3:7373", [])) false
    ∷ connect_answer 1 (some (codes "https://10.0.0.4:7373", [])) false
    ∷ connect_done 1
    ∷ connect_done 0
    ∷ refreshes
    ∷ []

run-switch_account_example :
    ((run (switch_account true away) after_switch).user ≡ none)
    × ((run (switch_account true away) after_switch).token ≡ none)
    × ((run (switch_account true away) after_switch).stored ≡ none)
    × (((run (switch_account true away) after_switch).apis
          (run (switch_account true away) after_switch).api).bearer
        ≡ none)
unfolding startup
run-switch_account_example = run-switch_account away after_switch tt (λ e. cc) (omega arith)

login_signs_in_example :
    ((run closed (login_events (codes "pw") (codes "t1") asha true)).user ≡ some asha)
    × ((run closed (login_events (codes "pw") (codes "t1") asha true)).token ≡ some (codes "t1"))
    × (((run closed (login_events (codes "pw") (codes "t1") asha true)).apis closed.api).bearer
        ≡ some (codes "t1"))
    × ((run closed (login_events (codes "pw") (codes "t1") asha true)).stored
        ≡ session_of closed.base_url (codes "t1") asha)
    × ((run closed (login_events (codes "pw") (codes "t1") asha true)).online ≡ true)
    × ((run closed (login_events (codes "pw") (codes "t1") asha false)).user ≡ none)
unfolding startup
login_signs_in_example =
    login_signs_in closed (codes "pw") (codes "t1") asha closed-IsValid refl refl

refresh_answers_example :
    (((run away (refresh_events offline)).user ≡ some asha)
      × ((run away (refresh_events offline)).token ≡ some (codes "t0"))
      × ((run away (refresh_events offline)).stored ≡ away.stored)
      × ((run away (refresh_events offline)).online ≡ false))
    × (((run away (refresh_events (refused true))).user ≡ none)
        × ((run away (refresh_events (refused true))).token ≡ none)
        × (((run away (refresh_events (refused true))).apis away.api).bearer ≡ none)
        × ((run away (refresh_events (refused true))).stored ≡ write true none away.stored))
unfolding startup
refresh_answers_example = refresh_answers away asha (codes "t0") true away-IsValid refl refl refl

-- Two saves of the address that overlap, and a sign-in between their ends.
abbrev overlap : List Event
overlap =
    connects
    ∷ connects
    ∷ connect_answer 1 (some (codes "https://10.0.0.3:7373", [])) true
    ∷ connect_answer 1 (some (codes "https://10.0.0.4:7373", [])) true
    ∷ connect_done 1
    ∷ logs_in (codes "pw")
    ∷ connect_done 0
    ∷ resumes 0 (accepted (codes "t1") asha true)
    ∷ resumes 0 store_done
    ∷ []

-- The user is signed in, and the api object in use carries no token.
overlap_test :
    ((run closed overlap).token ≡ some (codes "t1"))
    × (((run closed overlap).apis (run closed overlap).api).bearer ≡ none)
unfolding run startup
overlap_test = (refl, refl)
