-- ===== src/Session/Gate/Late.antt =====
-- Answers that come late.
use the_cinder_project.Base.{
  ℕ, false, Option, none, some, ◌≡◌, ◌≢◌, arith, Bool-cases, inl, inr, ◌==◌, if◌then◌else◌,
}
use the_cinder_project.Session.Gate.{
  Check, Pending, checking, check_saving, logging_in, login_saving, changing, change_saving, Gate,
  release,
}
use the_cinder_project.Session.Gate.Answers.{
  Answer, profile, accepted, offline, refused, store_done, checked, check_offline, check_refused,
  check_saved, logged_in, login_saved, changed, change_saved, continue,
}
use the_cinder_project.Session.Gate.Invariant.{generation_of}

-- The parts of the state that a session consists of.
pub record SameSession (g h : Gate) : Type 0 where
  pub same_user : h.user ≡ g.user
  pub same_token : h.token ≡ g.token
  pub same_store : h.stored ≡ g.stored
  pub same_apis : h.apis ≡ g.apis
  pub same_api : h.api ≡ g.api
  pub same_url : h.base_url ≡ g.base_url
  pub same_online : h.online ≡ g.online
  pub same_password : h.temporary_password ≡ g.temporary_password
  pub same_accounts : h.known_accounts ≡ g.known_accounts
  pub same_generation : h.generation ≡ g.generation

release-SameSession : (c : Check) (g : Gate) → SameSession g (release c g)
release-SameSession c g = go g.in_flight
  where
    go :
        (o : Option (ℕ × ℕ))
        → SameSession g (elim o [
          | none ↦ g
          | some (generation, ticket) ↦
              if ticket == c.ticket then (record g { in_flight = none }) else g
        ])
    go none = ground arith
    go (some (generation, ticket)) = elim (Bool-cases (ticket == c.ticket)) [
      | inl e ↦ simp e (ground arith)
      | inr e ↦ simp e (ground arith)
    ]

same : (g : Gate) → SameSession g g
same g = ground arith

late :
    (p : Pending) (g : Gate)
    → generation_of p ≢ g.generation
    → (generation_of p == g.generation) ≡ false
late p g n = ground arith

-- A continuation that captured another generation than the current one changes nothing of the
-- session, whatever it is answered: neither the user nor the token, the store, the api objects, the
-- address, the marks, the remembered accounts nor the generation.
pub continue-SameSession :
    (p : Pending) (answer : Answer) (g : Gate)
    → generation_of p ≢ g.generation
    → SameSession g (continue p answer g)
unfolding continue checked check_offline check_refused check_saved logged_in login_saved changed
    change_saved
continue-SameSession (checking c) (profile u saved) g n =
    simp (late (checking c) g n) (release-SameSession c g)
continue-SameSession (checking c) offline g n =
    simp (late (checking c) g n) (release-SameSession c g)
continue-SameSession (checking c) (refused cleared) g n =
    simp (late (checking c) g n) (release-SameSession c g)
continue-SameSession (check_saving c u) store_done g n =
    simp (late (check_saving c u) g n) (release-SameSession c g)
continue-SameSession (logging_in a) (accepted token u saved) g n =
    simp (late (logging_in a) g n) (same g)
continue-SameSession (logging_in a) offline g n = same g
continue-SameSession (logging_in a) (refused _) g n = same g
continue-SameSession (login_saving a token u saved) store_done g n =
    simp (late (login_saving a token u saved) g n) (same g)
continue-SameSession (changing w) (profile u saved) g n = simp (late (changing w) g n) (same g)
continue-SameSession (changing w) offline g n = same g
continue-SameSession (changing w) (refused _) g n = same g
continue-SameSession (change_saving w u) store_done g n =
    simp (late (change_saving w u) g n) (same g)
continue-SameSession p _ g n = ground arith

pub release-pending : (c : Check) (g : Gate) → (release c g).pending ≡ g.pending
release-pending c g = ground arith
