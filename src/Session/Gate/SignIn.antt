-- ===== src/Session/Gate/SignIn.antt =====
-- Signing in, and the check of a session by the Host.
use the_cinder_project.Base.{Bool, true, false, none, some, List, [], ◌∷◌, Text, ◌≡◌, arith}
use the_cinder_project.Model.{User}
use the_cinder_project.Session.Gate.{Pending, Gate, write, sign_out}
use the_cinder_project.Session.Gate.Begin.{start_check, start_login, begin_refresh, begin_login}
use the_cinder_project.Session.Gate.Answers.{
  session_of, Answer, accepted, offline, refused, store_done, check_offline, check_refused,
  logged_in, login_saved, continue, go_on, resume,
}
use the_cinder_project.Session.Gate.Run.{Event, refreshes, logs_in, resumes, step, run}
use the_cinder_project.Session.Gate.Invariant.{IsValid}

-- `login` on an answer that comes at once: it begins, the Host accepts, the store is written.
abbrev pub login_events : Text → Text → User → Bool → List Event
login_events password token u saved =
    logs_in password ∷ resumes 0 (accepted token u saved) ∷ resumes 0 store_done ∷ []

go_on_head :
    (p : Pending) (ps : List Pending) (answer : Answer) (g : Gate)
    → g.pending ≡ p ∷ ps
    → resume 0 answer g ≡ continue p answer (record g { pending = ps })
unfolding resume go_on
go_on_head p ps answer g e = rw (e, go_on)

-- A sign-in that the Host accepts, from a valid gate with nobody signed in and not loading: if the
-- session could be stored, the user, the token, the token of the api object in use and the stored
-- session are those of the answer, and the gate is online; if not, nobody is signed in.
pub login_signs_in :
    (g : Gate) (password token : Text) (u : User)
    → IsValid g
    → g.user ≡ none
    → g.loading ≡ false
    → ((run g (login_events password token u true)).user ≡ some u)
      × ((run g (login_events password token u true)).token ≡ some token)
      × (((run g (login_events password token u true)).apis g.api).bearer ≡ some token)
      × ((run g (login_events password token u true)).stored ≡ session_of g.base_url token u)
      × ((run g (login_events password token u true)).online ≡ true)
      × ((run g (login_events password token u false)).user ≡ none)
unfolding run step begin_login start_login resume go_on continue logged_in login_saved
login_signs_in g password token u v e l = ground arith

-- `refresh` on an answer that comes at once.
abbrev pub refresh_events : Answer → List Event
refresh_events answer = refreshes ∷ resumes 0 answer ∷ []

-- A check of the session begun with nothing in flight, from a gate where `u` is signed in with
-- `token`: if the Host cannot be reached, the gate is offline and keeps user, token and stored
-- session; if the Host refuses, nobody is signed in, the token is gone from the state and from the
-- api object, and the stored session is erased, if it could be.
pub refresh_answers :
    (g : Gate) (u : User) (token : Text) (cleared : Bool)
    → IsValid g
    → g.user ≡ some u
    → g.token ≡ some token
    → g.in_flight ≡ none
    → (((run g (refresh_events offline)).user ≡ some u)
        × ((run g (refresh_events offline)).token ≡ some token)
        × ((run g (refresh_events offline)).stored ≡ g.stored)
        × ((run g (refresh_events offline)).online ≡ false))
      × (((run g (refresh_events (refused cleared))).user ≡ none)
          × ((run g (refresh_events (refused cleared))).token ≡ none)
          × (((run g (refresh_events (refused cleared))).apis g.api).bearer ≡ none)
          × ((run g (refresh_events (refused cleared))).stored ≡ write cleared none g.stored))
unfolding run step begin_refresh start_check resume go_on continue check_offline check_refused
    sign_out
refresh_answers g u token cleared v e t f = (ground arith, ground arith)
