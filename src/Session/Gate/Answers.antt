-- ===== src/Session/Gate/Answers.antt =====
-- The continuations of the gate after an `await`.
use the_cinder_project.Base.{
  ℕ, Bool, true, false, not, Option, none, some, List, [], ◌∷◌, Text, text_eq, keep, take, take_out,
  if◌then◌else◌,
}
use the_cinder_project.Model.{User, user_eq}
use the_cinder_project.Session.Gate.{
  StoredSession, Check, Attempt, Change, Pending, checking, check_saving, logging_in, login_saving,
  changing, change_saving, Gate, set_token, is_current, write, wait, sign_out, release,
}

-- What a continuation waits for. The flags say whether a write to the session store that is queued
-- next succeeds.
pub data Answer : Type 0 where
  profile : User → Bool → Answer
  accepted : Text → User → Bool → Answer
  offline : Answer
  refused : Bool → Answer
  store_done : Answer

abbrev pub session_of : Text → Text → User → Option StoredSession
session_of base_url token user = some (record { base_url = base_url; token = token; user = user })

-- `refresh` after `me()` answered.
unfoldable pub checked : Check → User → Bool → Gate → Gate
checked c user saved g =
    if is_current c.generation g
    then (if user_eq user c.user then release c (record g { online = true }) else (record g {
      stored = write saved (session_of c.base_url c.token user) g.stored;
      pending = check_saving c user ∷ g.pending;
    }))
    else release c g

-- `refresh` after `me()` threw an `ApiError` that is offline.
unfoldable pub check_offline : Check → Gate → Gate
check_offline c g =
    if is_current c.generation g then release c (record g { online = false }) else release c g

-- `refresh` after any other failure.
unfoldable pub check_refused : Check → Bool → Gate → Gate
unfolding sign_out
check_refused c cleared g =
    if is_current c.generation g then sign_out c.api cleared g else release c g

unfoldable pub check_saved : Check → User → Gate → Gate
check_saved c user g =
    if is_current c.generation g
    then release c (record g { user = some user; online = true })
    else release c g

-- `login` after the Host accepted the password.
unfoldable pub logged_in : Attempt → Text → User → Bool → Gate → Gate
logged_in a token user saved g =
    if is_current a.generation g
    then (record g {
      stored = write saved (session_of a.base_url token user) g.stored;
      pending = login_saving a token user saved ∷ g.pending;
    })
    else g

abbrev pub remember : Text → List Text → List Text
remember name known = take 12 (name ∷ keep (λ other. not (text_eq other name)) known)

-- The end of `login`; a write that failed makes it throw.
unfoldable pub login_saved : Attempt → Text → User → Bool → Gate → Gate
unfolding text_eq
login_saved a token user saved g =
    if is_current a.generation g
    then (if saved
        then (record g {
          apis = set_token g.apis a.api (some token);
          token = some token;
          user = some user;
          temporary_password = if user.must_change_password then a.password else [];
          online = true;
          known_accounts = remember user.username a.known_accounts;
        })
        else g)
    else g

unfoldable pub changed_user : User → Gate → Gate
changed_user user g = record g { user = some user; temporary_password = [] }

-- The session is written with the token that was captured, if there was one.
unfoldable pub change_write : Option Text → Change → User → Bool → Gate → Gate
unfolding changed_user
change_write none w user saved g = changed_user user g
change_write (some token) w user saved g = record g {
  stored = write saved (session_of w.base_url token user) g.stored;
  pending = change_saving w user ∷ g.pending;
}

-- The password form after the Host changed the password.
unfoldable pub changed : Change → User → Bool → Gate → Gate
unfolding change_write
changed w user saved g =
    if is_current w.generation g then change_write w.token w user saved g else g

unfoldable pub change_saved : Change → User → Gate → Gate
unfolding changed_user
change_saved w user g = if is_current w.generation g then changed_user user g else g

-- A continuation goes on with its answer; one of another kind is not for it, and it waits on. A
-- failure of `login` or of the password change only shows a message.
unfoldable pub continue : Pending → Answer → Gate → Gate
unfolding checked check_offline check_refused check_saved logged_in login_saved changed change_saved
continue (checking c) (profile user saved) g = checked c user saved g
continue (checking c) offline g = check_offline c g
continue (checking c) (refused cleared) g = check_refused c cleared g
continue (check_saving c user) store_done g = check_saved c user g
continue (logging_in a) (accepted token user saved) g = logged_in a token user saved g
continue (logging_in a) offline g = g
continue (logging_in a) (refused _) g = g
continue (login_saving a token user saved) store_done g = login_saved a token user saved g
continue (changing w) (profile user saved) g = changed w user saved g
continue (changing w) offline g = g
continue (changing w) (refused _) g = g
continue (change_saving w user) store_done g = change_saved w user g
continue p _ g = wait p g

unfoldable pub go_on : Option (Pending × List Pending) → Answer → Gate → Gate
unfolding continue
go_on none answer g = g
go_on (some (p, rest)) answer g = continue p answer (record g { pending = rest })

-- The `i`-th of the waiting continuations goes on.
unfoldable pub resume : ℕ → Answer → Gate → Gate
unfolding go_on
resume i answer g = go_on (take_out i g.pending) answer g
