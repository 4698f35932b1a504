-- ===== src/Session/Gate/SignOut.antt =====
-- The end of a session.
use the_cinder_project.Base.{
  ℕ, ◌+◌, ◌<◌, ◌≤◌, Bool, true, false, Option, none, some, List, [], ◌∷◌, Text, ◌≡◌, ◌≢◌, All,
  All-take_out, take_out, arith, refl, ◌∙◌, sym, ap₂, Bool-cases, Option-cases, inl, inr, text_eq,
  ◌==◌, subst,
}
use the_cinder_project.Model.{User}
use the_cinder_project.Session.Gate.{
  Pending, checking, check_saving, logging_in, login_saving, changing, change_saving, Connect,
  probing, clearing, Gate, write, sign_out,
}
use the_cinder_project.Session.Gate.Begin.{
  in_flight_now, start_check, start_change, end_session, leave, answer_connect, finish_connect,
  begin_refresh, begin_change, switch_account, connect_answered, connect_cleared,
}
use the_cinder_project.Session.Gate.Answers.{
  Answer, profile, accepted, offline, refused, store_done, checked, check_offline, check_refused,
  check_saved, logged_in, login_saved, changed, change_saved, continue, go_on, resume,
}
use the_cinder_project.Session.Gate.Run.{
  Event, refreshes, logs_in, changes_password, switches, connects, connect_answer, connect_done,
  opens_connection, resumes, step, run,
}
use the_cinder_project.Session.Gate.Invariant.{generation_of}
use the_cinder_project.Session.Gate.Late.{continue-SameSession, release-pending}

abbrev Outdated : ℕ → Pending → Type 0
Outdated generation p = generation_of p < generation

late_lt :
    (p : Pending) (g : Gate) → Outdated g.generation p → (generation_of p == g.generation) ≡ false
late_lt p g h = ground arith

-- An outdated continuation starts nothing that is not outdated.
continue-Outdated :
    (p : Pending) (answer : Answer) (g : Gate)
    → Outdated g.generation p
    → All (Outdated g.generation) g.pending
    → All (Outdated g.generation) (continue p answer g).pending
unfolding continue checked check_offline check_refused check_saved logged_in login_saved changed
    change_saved
continue-Outdated (checking c) (profile u saved) g n h =
    simp (late_lt (checking c) g n, release-pending) h
continue-Outdated (checking c) offline g n h = simp (late_lt (checking c) g n, release-pending) h
continue-Outdated (checking c) (refused cleared) g n h =
    simp (late_lt (checking c) g n, release-pending) h
continue-Outdated (check_saving c u) store_done g n h =
    simp (late_lt (check_saving c u) g n, release-pending) h
continue-Outdated (logging_in a) (accepted token u saved) g n h =
    simp (late_lt (logging_in a) g n) h
continue-Outdated (logging_in a) offline g n h = h
continue-Outdated (logging_in a) (refused _) g n h = h
continue-Outdated (login_saving a token u saved) store_done g n h =
    simp (late_lt (login_saving a token u saved) g n) h
continue-Outdated (changing w) (profile u saved) g n h = simp (late_lt (changing w) g n) h
continue-Outdated (changing w) offline g n h = h
continue-Outdated (changing w) (refused _) g n h = h
continue-Outdated (change_saving w u) store_done g n h = simp (late_lt (change_saving w u) g n) h
continue-Outdated p _ g n h = (n, h)

-- Nobody is signed in, nothing is stored, and nothing that waits can change that.
record IsOut (g : Gate) : Type 0 where
  gone : g.user ≡ none
  blank : g.token ≡ none
  silent : (g.apis g.api).bearer ≡ none
  erased : g.stored ≡ none
  outdated : All (Outdated g.generation) g.pending

IsOut-continue :
    (p : Pending) (answer : Answer) (g : Gate)
    → Outdated g.generation p
    → IsOut g
    → IsOut (continue p answer g)
IsOut-continue p answer g n o =
    let s = continue-SameSession p answer g (λ e. absurd (omega arith)) in
    record {
      gone = s.same_user ∙ o.gone;
      blank = s.same_token ∙ o.blank;
      silent = ap₂ (λ f a. (f a).bearer) s.same_apis s.same_api ∙ o.silent;
      erased = s.same_store ∙ o.erased;
      outdated =
          subst (λ k. All (Outdated k) (continue p answer g).pending) (sym s.same_generation)
            (continue-Outdated p answer g n o.outdated);
    }

IsOut-go_on :
    (r : Option (Pending × List Pending)) (answer : Answer) (g : Gate)
    → ((p : Pending) (ps : List Pending)
        → r ≡ some (p, ps)
        → Outdated g.generation p × All (Outdated g.generation) ps)
    → IsOut g
    → IsOut (go_on r answer g)
unfolding go_on
IsOut-go_on none answer g f o = o
IsOut-go_on (some (p, ps)) answer g f o =
    let (n, a) = f p ps refl in
    IsOut-continue p answer (record g { pending = ps }) n
      (record {
        gone = o.gone;
        blank = o.blank;
        silent = o.silent;
        erased = o.erased;
        outdated = a;
      })

Outdated-later : (G : ℕ) (ps : List Pending) → All (Outdated G) ps → All (Outdated (G + 1)) ps
Outdated-later G [] h = tt
Outdated-later G (p ∷ ps) (f, h) = (omega arith, Outdated-later G ps h)

write-none : (b : Bool) → write b none none ≡ none
write-none true = refl
write-none false = refl

IsOut-sign_out : (g : Gate) (api : ℕ) (cleared : Bool) → IsOut g → IsOut (sign_out api cleared g)
unfolding sign_out
IsOut-sign_out g api cleared o = record {
  gone = refl;
  blank = refl;
  silent = let s = o.silent in ground arith;
  erased = rw (o.erased) (write-none cleared);
  outdated = Outdated-later g.generation g.pending o.outdated;
}

start_check-none : (t : Option Text) (g : Gate) → start_check none t g ≡ g
unfolding start_check
start_check-none t g = refl

IsOut-refresh : (o : Option User) (g : Gate) → o ≡ none → IsOut g → IsOut (start_check o g.token g)
unfolding start_check
IsOut-refresh none g e h = h
IsOut-refresh (some u) g e h = absurd (cc)

IsOut-connect :
    (c : Option (Connect × List Connect)) (answer : Option (Text × Text)) (cleared : Bool)
    (g : Gate)
    → IsOut g
    → IsOut (answer_connect c answer cleared g)
unfolding answer_connect leave
IsOut-connect none answer cleared g o = o
IsOut-connect (some (clearing url label, rest)) answer cleared g o = o
IsOut-connect (some (probing url api, rest)) none cleared g o = record {
  gone = o.gone;
  blank = o.blank;
  silent = o.silent;
  erased = o.erased;
  outdated = o.outdated;
}
IsOut-connect (some (probing url api, rest)) (some (u, label)) cleared g o =
    elim (Bool-cases (text_eq u url)) [
      | inl e ↦ simp e (record {
        gone = o.gone;
        blank = o.blank;
        silent = o.silent;
        erased = o.erased;
        outdated = o.outdated;
      })
      | inr e ↦ simp e (
          IsOut-sign_out (record g { loading = true; connect = clearing u label ∷ rest }) api
            cleared
            (record {
              gone = o.gone;
              blank = o.blank;
              silent = o.silent;
              erased = o.erased;
              outdated = o.outdated;
            }))
    ]

IsOut-connected :
    (c : Option (Connect × List Connect)) (g : Gate) → IsOut g → IsOut (finish_connect c g)
unfolding finish_connect
IsOut-connected none g o = o
IsOut-connected (some (probing url api, rest)) g o = o
IsOut-connected (some (clearing url label, rest)) g o = record {
  gone = o.gone;
  blank = o.blank;
  silent = ground arith;
  erased = o.erased;
  outdated = o.outdated;
}

-- Every event but a sign-in.
abbrev pub NoLogin : Event → Type 0
NoLogin (logs_in _) = ⊥
NoLogin refreshes = Unit
NoLogin changes_password = Unit
NoLogin (switches _) = Unit
NoLogin connects = Unit
NoLogin (connect_answer _ _ _) = Unit
NoLogin (connect_done _) = Unit
NoLogin (opens_connection _) = Unit
NoLogin (resumes _ _) = Unit

IsOut-change : (o : Option User) (g : Gate) → o ≡ none → IsOut g → IsOut (start_change o g)
unfolding start_change
IsOut-change none g e h = h
IsOut-change (some u) g e h = absurd (cc)

IsOut-end :
    (o : Option User) (cleared : Bool) (g : Gate) → IsOut g → IsOut (end_session o cleared g)
unfolding end_session
IsOut-end none cleared g h = h
IsOut-end (some u) cleared g h = IsOut-sign_out g g.api cleared h

IsOut-step : (g : Gate) (e : Event) → NoLogin e → IsOut g → IsOut (step g e)
unfolding step begin_refresh begin_change switch_account connect_answered connect_cleared resume
IsOut-step g refreshes n o = elim (Bool-cases (in_flight_now g)) [
  | inl e ↦ simp e o
  | inr e ↦ simp e (IsOut-refresh g.user g o.gone o)
]
IsOut-step g (logs_in _) n o = absurd n
IsOut-step g changes_password n o = IsOut-change g.user g o.gone o
IsOut-step g (switches cleared) n o = IsOut-end g.user cleared g o
IsOut-step g connects n o = elim (Bool-cases g.loading) [
  | inl e ↦ simp e o
  | inr e ↦ simp e (record {
    gone = o.gone;
    blank = o.blank;
    silent = o.silent;
    erased = o.erased;
    outdated = o.outdated;
  })
]
IsOut-step g (connect_answer i answer cleared) n o =
    IsOut-connect (take_out i g.connect) answer cleared g o
IsOut-step g (connect_done i) n o = IsOut-connected (take_out i g.connect) g o
IsOut-step g (opens_connection b) n o = record {
  gone = o.gone;
  blank = o.blank;
  silent = o.silent;
  erased = o.erased;
  outdated = o.outdated;
}
IsOut-step g (resumes i answer) n o =
    IsOut-go_on (take_out i g.pending) answer g
      (λ p r e. All-take_out (Outdated g.generation) i g.pending e o.outdated) o

IsOut-run : (g : Gate) (events : List Event) → All NoLogin events → IsOut g → IsOut (run g events)
unfolding run
IsOut-run g [] n o = o
IsOut-run g (e ∷ es) (n, ns) o = IsOut-run (step g e) es ns (IsOut-step g e n o)

-- No continuation that waits is of a later generation.
abbrev pub IsNotLater : Gate → Pending → Type 0
IsNotLater g p = generation_of p ≤ g.generation

Outdated-now :
    (g : Gate) (ps : List Pending) → All (IsNotLater g) ps → All (Outdated (g.generation + 1)) ps
Outdated-now g [] h = tt
Outdated-now g (p ∷ ps) (le, h) = (omega arith, Outdated-now g ps h)

signed-IsOut :
    (g : Gate) → g.user ≢ none → All (IsNotLater g) g.pending → IsOut (switch_account true g)
unfolding switch_account end_session sign_out
signed-IsOut g n v = elim (Option-cases g.user) [ inl e ↦ absurd (n e) | inr (u, e) ↦ go g.user e ]
  where
    go : (o : Option User) {u : User} → o ≡ some u → IsOut (end_session o true g)
    go none e = absurd (cc)
    go (some u) e = record {
      gone = refl;
      blank = refl;
      silent = ground arith;
      erased = refl;
      outdated = Outdated-now g g.pending v;
    }

-- After a switch of the account whose clearing of the store succeeds, nothing but a new sign-in
-- brings a session back: whatever handlers are called then and whatever the continuations that
-- still wait are answered, in any order, saves of the address that overlap included, there is no
-- user, no token, no stored session, and no token on the api object in use. No continuation is of a
-- generation later than that of the gate at the switch.
pub run-switch_account :
    (g : Gate) (events : List Event)
    → All (IsNotLater g) g.pending
    → g.user ≢ none
    → All NoLogin events
    → ((run (switch_account true g) events).user ≡ none)
      × ((run (switch_account true g) events).token ≡ none)
      × ((run (switch_account true g) events).stored ≡ none)
      × (((run (switch_account true g) events).apis (run (switch_account true g) events).api).bearer
          ≡ none)
run-switch_account g events v n a =
    let o = IsOut-run (switch_account true g) events a (signed-IsOut g n v) in
    (o.gone, o.blank, o.erased, o.silent)
