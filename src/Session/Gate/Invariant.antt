-- ===== src/Session/Gate/Invariant.antt =====
-- The invariant of the gate: who is signed in, with which token, through which api object.
pub mod Facts
pub mod Begins
pub mod Resumes
pub mod Runs
use the_cinder_project.Base.{
  ℕ, ◌+◌, ◌≤◌, ◌<◌, Bool, true, false, Option, none, some, is_some, List, [], ◌∷◌, Text, ◌≡◌, ◌≢◌,
  All,
}
use the_cinder_project.Model.{User}
use the_cinder_project.Session.Gate.{
  Check, Attempt, Change, Pending, checking, check_saving, logging_in, login_saving, changing,
  change_saving, Connect, probing, clearing, Gate, ApiObject,
}

abbrev pub generation_of : Pending → ℕ
generation_of (checking c) = c.generation
generation_of (check_saving c _) = c.generation
generation_of (logging_in a) = a.generation
generation_of (login_saving a _ _ _) = a.generation
generation_of (changing w) = w.generation
generation_of (change_saving w _) = w.generation

abbrev pub is_login : Pending → Bool
is_login (logging_in _) = true
is_login (login_saving _ _ _ _) = true
is_login (checking _) = false
is_login (check_saving _ _) = false
is_login (changing _) = false
is_login (change_saving _ _) = false

-- The part of the state that a continuation relies on.
pub record View : Type 0 where
  pub generation : ℕ
  pub loading : Bool
  pub api : ℕ
  pub base_url : Text
  pub signed_in : Bool
  pub token : Option Text

abbrev pub view : Gate → View
view g = record {
  generation = g.generation;
  loading = g.loading;
  api = g.api;
  base_url = g.base_url;
  signed_in = is_some g.user;
  token = g.token;
}

pub record CheckFits (v : View) (c : Check) : Type 0 where
  pub calm : v.loading ≡ false
  pub same_api : c.api ≡ v.api
  pub same_url : c.base_url ≡ v.base_url
  pub someone : v.signed_in ≡ true
  pub same_token : v.token ≡ some c.token

pub record AttemptFits (v : View) (a : Attempt) : Type 0 where
  pub calm : v.loading ≡ false
  pub same_api : a.api ≡ v.api
  pub same_url : a.base_url ≡ v.base_url
  pub nobody : v.signed_in ≡ false

pub record ChangeFits (v : View) (w : Change) : Type 0 where
  pub calm : v.loading ≡ false
  pub same_url : w.base_url ≡ v.base_url
  pub someone : v.signed_in ≡ true
  pub same_token : v.token ≡ w.token

-- What the state still has in common with what a continuation of the current generation captured.
abbrev pub Captured : View → Pending → Type 0
Captured v (checking c) = CheckFits v c
Captured v (check_saving c _) = CheckFits v c
Captured v (logging_in a) = AttemptFits v a
Captured v (login_saving a _ _ _) = AttemptFits v a
Captured v (changing w) = ChangeFits v w
Captured v (change_saving w _) = ChangeFits v w

pub record Fits (v : View) (p : Pending) : Type 0 where
  pub not_later : generation_of p ≤ v.generation
  pub captured : generation_of p ≡ v.generation → Captured v p

-- No two sign-ins wait with one generation.
pub record Apart (p q : Pending) : Type 0 where
  pub apart : is_login p ≡ true → is_login q ≡ true → generation_of p ≢ generation_of q

abbrev pub Distinct : List Pending → Type 0
Distinct [] = Unit
Distinct (p ∷ ps) = All (Apart p) ps × Distinct ps

-- `saveConnection` with its captured address and api: no other is made while it waits, and while it
-- waits for the store the gate is loading, with nobody signed in.
abbrev pub ConnectFits : Bool → Text → ℕ → Option User → Option Connect → Type 0
ConnectFits loading url api user none = loading ≡ false
ConnectFits loading url api user (some (probing u a)) = (loading ≡ false) × (u ≡ url) × (a ≡ api)
ConnectFits loading url api user (some (clearing _ _)) = (loading ≡ true) × (user ≡ none)

-- At most one save waits.
abbrev pub ConnectsFit : Bool → Text → ℕ → Option User → List Connect → Type 0
ConnectsFit loading url api user [] = ConnectFits loading url api user none
ConnectsFit loading url api user (c ∷ []) = ConnectFits loading url api user (some c)
ConnectsFit loading url api user (_ ∷ _ ∷ _) = ⊥

pub record IsValid (g : Gate) : Type 0 where
  -- a user is signed in exactly if there is a token, which the api object in use carries
  pub both : is_some g.user ≡ is_some g.token
  pub bearer : (g.apis g.api).bearer ≡ g.token
  -- that object talks to the address that is shown
  pub address : (g.apis g.api).url ≡ g.base_url
  pub made : g.api < g.next_api
  pub connecting : ConnectsFit g.loading g.base_url g.api g.user g.connect
  pub waiting : All (Fits (view g)) g.pending
  pub distinct : Distinct g.pending
