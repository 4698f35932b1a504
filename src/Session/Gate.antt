-- ===== src/Session/Gate.antt =====
-- apps/forge/src/matchboxSession.tsx: the gate that holds the signed-in session of the student
-- app. An asynchronous function is cut at its `await`s: what it has captured waits in `pending`,
-- and `resume` goes on with one of the waiting continuations, in any order. The state is what the
-- last render saw. Writes to the session store take effect when they are queued, in that order,
-- since the store's operations run one after the other; their results come later.
pub mod Begin
pub mod Answers
pub mod Run
pub mod Startup
pub mod Invariant
pub mod Late
pub mod SignOut
pub mod SignIn
mod Tests
use the_cinder_project.Base.{
  ℕ, ◌+◌, Bool, true, false, not, Option, none, some, is_some, List, [], ◌∷◌, Text, codes, text_eq,
  keep, take, take_out, if◌then◌else◌, ◌==◌,
}
use the_cinder_project.Model.{User, user_eq}

pub record StoredSession : Type 0 where
  pub base_url : Text
  pub token : Text
  pub user : User

-- An object of the class `CinderApi`.
pub record ApiObject : Type 0 where
  pub url : Text
  pub bearer : Option Text

-- What `refresh` captures; `ticket` stands for the identity of its promise.
pub record Check : Type 0 where
  pub generation : ℕ
  pub api : ℕ
  pub base_url : Text
  pub user : User
  pub token : Text
  pub ticket : ℕ

-- What `login` captures.
pub record Attempt : Type 0 where
  pub generation : ℕ
  pub api : ℕ
  pub base_url : Text
  pub password : Text
  pub known_accounts : List Text

-- What the password form's `onChange` captures.
pub record Change : Type 0 where
  pub generation : ℕ
  pub base_url : Text
  pub token : Option Text

-- The continuations that wait: for an answer of the Host, or for the session store.
pub data Pending : Type 0 where
  checking : Check → Pending
  check_saving : Check → User → Pending
  logging_in : Attempt → Pending
  login_saving : Attempt → Text → User → Bool → Pending
  changing : Change → Pending
  change_saving : Change → User → Pending

-- `saveConnection`: it waits for the address to be checked, or for the store to be cleared. The form
-- can be closed and opened again while a save runs, so several may wait.
pub data Connect : Type 0 where
  probing : Text → ℕ → Connect
  clearing : Text → Text → Connect

pub record Gate : Type 0 where
  pub loading : Bool
  pub base_url : Text
  pub device_label : Text
  -- `api` names the object in use among the objects made so far.
  pub api : ℕ
  pub apis : ℕ → ApiObject
  pub next_api : ℕ
  pub user : Option User
  pub token : Option Text
  pub online : Bool
  pub temporary_password : Text
  pub connection_open : Bool
  pub known_accounts : List Text
  pub generation : ℕ
  -- generation and ticket of `refreshInFlight`
  pub in_flight : Option (ℕ × ℕ)
  pub next_ticket : ℕ
  pub stored : Option StoredSession
  pub pending : List Pending
  pub connect : List Connect

abbrev pub update : (ℕ → ApiObject) → ℕ → ApiObject → ℕ → ApiObject
update f a o b = if a == b then o else f b

-- `apis[a].setToken(bearer)`
abbrev pub set_token : (ℕ → ApiObject) → ℕ → Option Text → ℕ → ApiObject
set_token f a bearer = update f a (record { url = (f a).url; bearer = bearer })

-- `isCurrentMatchboxSessionGeneration`
abbrev pub is_current : ℕ → Gate → Bool
is_current generation g = generation == g.generation

-- A write to the session store that may fail.
abbrev pub write : Bool → Option StoredSession → Option StoredSession → Option StoredSession
write done new old = if done then new else old

abbrev pub wait : Pending → Gate → Gate
wait p g = record g { pending = p ∷ g.pending }

-- The lines that end a session: a new generation, nothing in flight, no token, no user. `api` is
-- the captured object.
unfoldable pub sign_out : ℕ → Bool → Gate → Gate
sign_out api cleared g = record g {
  generation = g.generation + 1;
  in_flight = none;
  apis = set_token g.apis api none;
  token = none;
  user = none;
  temporary_password = [];
  stored = write cleared none g.stored;
}

-- The `finally` of `refresh`.
abbrev pub release : Check → Gate → Gate
release c g = elim g.in_flight [
  | none ↦ g
  | some (generation, ticket) ↦ if ticket == c.ticket then (record g { in_flight = none }) else g
]
