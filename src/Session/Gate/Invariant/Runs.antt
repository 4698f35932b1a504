-- ===== src/Session/Gate/Invariant/Runs.antt =====
-- The invariant over whole runs of the gate.
use the_cinder_project.Base.{
  ℕ, Bool, true, false, if◌then◌else◌, Option, none, some, List, [], ◌∷◌, Text, ◌≡◌, All,
  All-take_out, take_out, refl, sym, subst, Bool-cases, inl, inr,
}
use the_cinder_project.Session.Gate.{Pending, Gate, probing}
use the_cinder_project.Session.Gate.Begin.{
  in_flight_now, begin_refresh, begin_login, begin_change, switch_account, begin_connect,
}
use the_cinder_project.Session.Gate.Answers.{Answer, go_on, resume}
use the_cinder_project.Session.Gate.Run.{
  Event, refreshes, logs_in, changes_password, switches, connects, connect_answer, connect_done,
  opens_connection, resumes, step, run,
}
use the_cinder_project.Session.Gate.Invariant.{view, Fits, Apart, Distinct, IsValid}
use the_cinder_project.Session.Gate.Invariant.Facts.{Distinct-take_out}
use the_cinder_project.Session.Gate.Invariant.Begins.{
  start_check-IsValid, start_login-IsValid, start_change-IsValid, end_session-IsValid,
  connect_answered-IsValid, connect_cleared-IsValid,
}
use the_cinder_project.Session.Gate.Invariant.Resumes.{continue-IsValid}

begin_refresh-IsValid : (g : Gate) → IsValid g → IsValid (begin_refresh g)
unfolding begin_refresh
begin_refresh-IsValid g v = elim (Bool-cases (in_flight_now g)) [
  | inl e ↦ simp e v
  | inr e ↦ simp e (start_check-IsValid g.user g.token g refl refl v)
]

begin_login-IsValid : (password : Text) (g : Gate) → IsValid g → IsValid (begin_login password g)
unfolding begin_login
begin_login-IsValid password g v = elim (Bool-cases g.loading) [
  | inl e ↦ simp e v
  | inr e ↦ simp e (start_login-IsValid g.user password g refl e v)
]

probing-IsValid :
    (g : Gate) (b : Bool)
    → g.loading ≡ b
    → IsValid g
    → IsValid (if b then g else (record g { connect = probing g.base_url g.api ∷ [] }))
probing-IsValid g true l v = v
probing-IsValid g false l v = record {
  both = v.both;
  bearer = v.bearer;
  address = v.address;
  made = v.made;
  connecting = (l, refl, refl);
  waiting = v.waiting;
  distinct = v.distinct;
}

begin_connect-IsValid : (g : Gate) → g.connect ≡ [] → IsValid g → IsValid (begin_connect g)
begin_connect-IsValid g e v =
    subst
      (λ cs.
        IsValid (if g.loading then g else (record g { connect = probing g.base_url g.api ∷ cs })))
      (sym e) (probing-IsValid g g.loading refl v)

opened-IsValid : (b : Bool) (g : Gate) → IsValid g → IsValid (record g { connection_open = b })
opened-IsValid b g v = record {
  both = v.both;
  bearer = v.bearer;
  address = v.address;
  made = v.made;
  connecting = v.connecting;
  waiting = v.waiting;
  distinct = v.distinct;
}

rest-IsValid :
    (g : Gate) (r : List Pending)
    → All (Fits (view g)) r
    → Distinct r
    → IsValid g
    → IsValid (record g { pending = r })
rest-IsValid g r w d v = record {
  both = v.both;
  bearer = v.bearer;
  address = v.address;
  made = v.made;
  connecting = v.connecting;
  waiting = w;
  distinct = d;
}

go_on-IsValid :
    (o : Option (Pending × List Pending)) (answer : Answer) (g : Gate)
    → ((p : Pending) (r : List Pending)
        → o ≡ some (p, r)
        → (Fits (view g) p × All (Fits (view g)) r) × (All (Apart p) r × Distinct r))
    → IsValid g
    → IsValid (go_on o answer g)
unfolding go_on
go_on-IsValid none answer g f v = v
go_on-IsValid (some (p, r)) answer g f v =
    let ((fits, w), (a, d)) = f p r refl in
    continue-IsValid (record g { pending = r }) (rest-IsValid g r w d v) p answer fits a

resume-IsValid : (i : ℕ) (answer : Answer) (g : Gate) → IsValid g → IsValid (resume i answer g)
unfolding resume
resume-IsValid i answer g v =
    go_on-IsValid (take_out i g.pending) answer g
      (λ p r e. (
        All-take_out (Fits (view g)) i g.pending e v.waiting,
        Distinct-take_out i g.pending e v.distinct,
      ))
      v

pub switch_account-IsValid :
    (cleared : Bool) (g : Gate) → IsValid g → IsValid (switch_account cleared g)
unfolding switch_account
switch_account-IsValid cleared g v = end_session-IsValid g.user cleared g refl v

-- No save of the address is begun while another waits.
abbrev pub IsAlone : Gate → Event → Type 0
IsAlone g connects = g.connect ≡ []
IsAlone g refreshes = Unit
IsAlone g (logs_in _) = Unit
IsAlone g changes_password = Unit
IsAlone g (switches _) = Unit
IsAlone g (connect_answer _ _ _) = Unit
IsAlone g (connect_done _) = Unit
IsAlone g (opens_connection _) = Unit
IsAlone g (resumes _ _) = Unit

abbrev pub AreAlone : Gate → List Event → Type 0
AreAlone g [] = Unit
AreAlone g (e ∷ es) = IsAlone g e × AreAlone (step g e) es

-- Every event keeps the invariant.
step-IsValid : (g : Gate) (e : Event) → IsAlone g e → IsValid g → IsValid (step g e)
unfolding step switch_account begin_change
step-IsValid g refreshes a v = begin_refresh-IsValid g v
step-IsValid g (logs_in password) a v = begin_login-IsValid password g v
step-IsValid g changes_password a v = start_change-IsValid g.user g refl v
step-IsValid g (switches cleared) a v = end_session-IsValid g.user cleared g refl v
step-IsValid g connects a v = begin_connect-IsValid g a v
step-IsValid g (connect_answer i answer cleared) a v = connect_answered-IsValid i answer cleared g v
step-IsValid g (connect_done i) a v = connect_cleared-IsValid i g v
step-IsValid g (opens_connection b) a v = opened-IsValid b g v
step-IsValid g (resumes i answer) a v = resume-IsValid i answer g v

-- Whatever the order in which handlers are called and continuations go on, from a valid gate, where
-- no save of the address is begun while another one waits: a user is signed in exactly if there is a
-- token, the api object in use carries that token and talks to the address that is shown, and no
-- continuation of the current generation relies on another api, address or token.
pub run-IsValid :
    (g : Gate) (events : List Event) → AreAlone g events → IsValid g → IsValid (run g events)
unfolding run
run-IsValid g [] a v = v
run-IsValid g (e ∷ es) (a, as_) v = run-IsValid (step g e) es as_ (step-IsValid g e a v)
