-- ===== src/Session/Gate/Run.antt =====
-- The events of the gate, in any order.
use the_cinder_project.Base.{ℕ, Bool, Option, List, [], ◌∷◌, Text}
use the_cinder_project.Session.Gate.{Gate}
use the_cinder_project.Session.Gate.Begin.{
  begin_refresh, begin_login, begin_change, switch_account, begin_connect, connect_answered,
  connect_cleared,
}
use the_cinder_project.Session.Gate.Answers.{Answer, resume}

pub data Event : Type 0 where
  refreshes : Event
  logs_in : Text → Event
  changes_password : Event
  switches : Bool → Event
  connects : Event
  connect_answer : ℕ → Option (Text × Text) → Bool → Event
  connect_done : ℕ → Event
  opens_connection : Bool → Event
  resumes : ℕ → Answer → Event

unfoldable pub step : Gate → Event → Gate
unfolding begin_refresh begin_login begin_change switch_account connect_answered connect_cleared
    resume
step g refreshes = begin_refresh g
step g (logs_in password) = begin_login password g
step g changes_password = begin_change g
step g (switches cleared) = switch_account cleared g
step g connects = begin_connect g
step g (connect_answer i answer cleared) = connect_answered i answer cleared g
step g (connect_done i) = connect_cleared i g
step g (opens_connection shown) = record g { connection_open = shown }
step g (resumes i answer) = resume i answer g

unfoldable pub run : Gate → List Event → Gate
unfolding step
run g [] = g
run g (e ∷ es) = run (step g e) es
