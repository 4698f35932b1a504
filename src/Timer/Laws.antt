-- ===== src/Timer/Laws.antt =====
-- What the countdown promises: the invariant of its handlers, and pausing.
use the_cinder_project.Base.{ℕ, ◌+◌, ◌*◌, ◌≤◌, true, ◌≡◌, ◌≢◌, arith, List, [], ◌∷◌, any, ◌==◌, ◌↔◌}
use the_cinder_project.Timer.{
  timer_minutes, running, done, remaining_seconds, Countdown, seconds, tick, choose, toggle, pause,
  show_floating, hide_floating,
}

-- The handlers of the hook.
pub data Action : Type 0 where
  ticking toggling pausing showing hiding : Action
  choosing : ℕ → Action

-- What a handler does when it is called at time `time`.
unfoldable pub act : Action → ℕ → Countdown → Countdown
unfolding tick choose toggle pause
act ticking time c = tick time c
act toggling time c = toggle time c
act pausing time c = pause time c
act showing time c = show_floating c
act hiding time c = hide_floating c
act (choosing value) time c = choose value c

-- A session: handlers with the times of their calls.
unfoldable pub run : Countdown → List (Action × ℕ) → Countdown
run c [] = c
run c ((a, time) ∷ rest) = run (act a time c) rest

-- The minutes are on the list; neither a pause nor a deadline leaves more than they.
pub record IsValid (c : Countdown) : Type 0 where
  pub listed : any (λ m. m == c.timer.minutes) timer_minutes ≡ true
  pub within : c.timer.paused_seconds ≤ c.timer.minutes * 60
  pub fair : c.timer.status ≡ running → c.timer.deadline ≤ c.now + c.timer.minutes * 60000

tick-IsValid : (time : ℕ) {c : Countdown} → c.now ≤ time → IsValid c → IsValid (tick time c)
unfolding tick
tick-IsValid time h v = ground arith

choose-IsValid : (value : ℕ) {c : Countdown} → IsValid c → IsValid (choose value c)
unfolding choose
choose-IsValid value v = ground arith

toggle-IsValid : (time : ℕ) {c : Countdown} → IsValid c → IsValid (toggle time c)
unfolding toggle
toggle-IsValid time v = ground arith

pause-IsValid : (time : ℕ) {c : Countdown} → c.now ≤ time → IsValid c → IsValid (pause time c)
unfolding pause
pause-IsValid time h v = ground arith

-- Every handler keeps the invariant, if the clock does not go back.
act-IsValid :
    (a : Action) (time : ℕ) {c : Countdown} → c.now ≤ time → IsValid c → IsValid (act a time c)
unfolding act
act-IsValid ticking time h v = tick-IsValid time h v
act-IsValid toggling time h v = toggle-IsValid time v
act-IsValid pausing time h v = pause-IsValid time h v
act-IsValid showing time h v = ground arith
act-IsValid hiding time h v = ground arith
act-IsValid (choosing value) time h v = choose-IsValid value v

now-act : (a : Action) (time : ℕ) (c : Countdown) → c.now ≤ time → (act a time c).now ≤ time
unfolding act
now-act ticking time c h = unfold tick in ground arith
now-act toggling time c h = unfold toggle in ground arith
now-act pausing time c h = unfold pause in ground arith
now-act showing time c h = h
now-act hiding time c h = h
now-act (choosing value) time c h = unfold choose in ground arith

-- The times of a session do not fall, from `start` on.
abbrev pub Rising : ℕ → List (Action × ℕ) → Type 0
Rising start [] = Unit
Rising start ((a, time) ∷ rest) = (start ≤ time) × Rising time rest

run-IsValid :
    (actions : List (Action × ℕ)) (start : ℕ) {c : Countdown}
    → c.now ≤ start
    → Rising start actions
    → IsValid c
    → IsValid (run c actions)
unfolding run
run-IsValid [] start h r v = v
run-IsValid ((a, time) ∷ rest) start {c} h r v =
    let late : c.now ≤ time = omega arith in
    run-IsValid rest time (now-act a time c late) r.1 (act-IsValid a time late v)

-- In any session of handlers whose clock does not go back, from a countdown that is valid, the
-- seconds shown are never more than the chosen minutes, and the minutes are among those offered.
pub seconds-run-le :
    (actions : List (Action × ℕ)) (c : Countdown)
    → IsValid c
    → Rising c.now actions
    → (seconds (run c actions) ≤ (run c actions).timer.minutes * 60)
      × (any (λ m. m == (run c actions).timer.minutes) timer_minutes ≡ true)
unfolding seconds
seconds-run-le actions c v r = let w = run-IsValid actions c.now (omega arith) r v in ground arith

-- Pausing a running countdown with time left and going on at any later time shows, at the moment
-- of going on, the seconds that were left when it was paused; it runs again.
pause-pause :
    (c : Countdown) (t u : ℕ)
    → c.timer.status ≡ running
    → remaining_seconds c.timer.deadline t ≢ 0
    → ((pause u (pause t c)).timer.status ≡ running)
      × (seconds (pause u (pause t c)) ≡ remaining_seconds c.timer.deadline t)
      × (seconds (pause t c) ≡ remaining_seconds c.timer.deadline t)
unfolding pause seconds
pause-pause c t u e h = ground arith

-- A tick of a running countdown makes it done exactly when its deadline is not after the time of
-- the tick; otherwise it stays running, and at least one second is shown.
tick-eq-done_iff :
    (c : Countdown) (time : ℕ)
    → c.timer.status ≡ running
    → (((tick time c).timer.status ≡ done) ↔ (c.timer.deadline ≤ time))
      × (((tick time c).timer.status ≡ running) ↔ (1 ≤ seconds (tick time c)))
unfolding tick seconds
tick-eq-done_iff c time e = ground arith
