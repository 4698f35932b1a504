-- ===== src/Timer.antt =====
-- The student's countdown: apps/forge/src/components/studentTools.ts and the hook `useCountdown`
-- of apps/forge/src/components/Countdown.tsx. Times are whole milliseconds, as `Date.now` gives
-- them. A stored deadline that is no whole number is kept as the next whole one: since `now` is
-- whole, `remainingSeconds` has the same value at both.
pub mod Laws
pub mod Restore
mod Tests
use the_cinder_project.Base.{
  ℕ, ◌+◌, ◌-◌, ◌*◌, ◌/◌, min, max, Bool, true, false, ◌||◌, Option, none, some, List, [], ◌∷◌, Text,
  codes, truthy, text_eq, any, if◌then◌else◌, ◌==◌,
}
use the_cinder_project.Base.Number.{Number, is_finite, equals, round, ceiling, from_nat}
use the_cinder_project.Base.Json.{Json, num, str, get, read_field}

abbrev pub timer_minutes : List ℕ
timer_minutes = 5 ∷ 10 ∷ 15 ∷ 20 ∷ 25 ∷ 30 ∷ []

pub data Status : Type 0 where
  idle running paused done : Status

pub record StoredCountdown : Type 0 where
  pub minutes : ℕ
  pub status : Status
  pub deadline : ℕ
  pub paused_seconds : ℕ

-- The difference stops at 0, as `Math.max(0, …)` does; the division rounds up.
pub remaining_seconds : ℕ → ℕ → ℕ
remaining_seconds deadline now = (deadline - now + 999) / 1000

abbrev pub fallback : StoredCountdown
fallback = record { minutes = 25; status = idle; deadline = 0; paused_seconds = 25 * 60 }

-- `TIMER_MINUTES.includes(value)`, with the entry that it equals.
listed_minutes : Number → List ℕ → Option ℕ
listed_minutes x [] = none
listed_minutes x (m ∷ ms) = if equals x m then some m else listed_minutes x ms

abbrev read_minutes : Option Json → Option ℕ
read_minutes (some (num x)) = listed_minutes x timer_minutes
read_minutes none = none
read_minutes (some _) = none

status_of_name : Text → Option Status
unfolding text_eq
status_of_name s =
    if text_eq s (codes "idle")
    then some idle
    else if text_eq s (codes "running")
    then some running
    else if text_eq s (codes "paused")
    then some paused
    else if text_eq s (codes "done")
    then some done
    else none

abbrev read_status : Option Json → Option Status
read_status (some (str s)) = status_of_name s
read_status none = none
read_status (some _) = none

abbrev read_deadline : Option Json → ℕ
read_deadline (some (num x)) = if is_finite x then ceiling x else 0
read_deadline none = 0
read_deadline (some _) = 0

abbrev read_paused : ℕ → Option Json → ℕ
read_paused minutes (some (num x)) =
    if is_finite x then max 0 (min (minutes * 60) (round x)) else minutes * 60
read_paused minutes none = minutes * 60
read_paused minutes (some _) = minutes * 60

abbrev is_running : Status → Bool
is_running running = true
is_running _ = false

-- The end of `restoreCountdown`, when all fields are read.
settle : ℕ → ℕ → Status → ℕ → ℕ → StoredCountdown
unfolding remaining_seconds
settle now minutes status deadline paused_seconds = elim status [
  | running ↦
      if remaining_seconds deadline now == 0
      then (record { minutes = minutes; status = done; deadline = 0; paused_seconds = 0 })
      else (record {
        minutes = minutes;
        status = running;
        deadline = deadline;
        paused_seconds = paused_seconds;
      })
  | other ↦ record {
    minutes = minutes;
    status = other;
    deadline = deadline;
    paused_seconds = paused_seconds;
  }
]

-- The tests on the minutes and on the status, each a reason to fall back.
restore_fields : Option ℕ → Option Status → Json → ℕ → StoredCountdown
unfolding settle
restore_fields none status saved now = fallback
restore_fields (some m) none saved now = fallback
restore_fields (some m) (some s) saved now =
    settle now m s (read_deadline (get (codes "deadline") saved))
      (read_paused m (get (codes "pausedSeconds") saved))

-- The fields of what `JSON.parse` gave.
restore_saved : Json → ℕ → StoredCountdown
unfolding restore_fields listed_minutes status_of_name read_field round ceiling
restore_saved saved now =
    restore_fields (read_minutes (get (codes "minutes") saved))
      (read_status (get (codes "status") saved)) saved now

-- `parse` is `JSON.parse`, which throws where it gives `none`.
pub restore_countdown : (Text → Option Json) → Option Text → ℕ → StoredCountdown
unfolding restore_saved
restore_countdown parse none now = fallback
restore_countdown parse (some value) now =
    if truthy value
    then (elim (parse value) [ none ↦ fallback | some saved ↦ restore_saved saved now ])
    else fallback

-- The state of the hook.
pub record Countdown : Type 0 where
  pub timer : StoredCountdown
  pub now : ℕ
  pub floating_open : Bool

-- What is shown.
pub seconds : Countdown → ℕ
unfolding remaining_seconds
seconds c = elim c.timer.status [
  | running ↦ remaining_seconds c.timer.deadline c.now
  | paused ↦ c.timer.paused_seconds
  | done ↦ 0
  | idle ↦ c.timer.minutes * 60
]

-- The callback of the interval timer, at time `time`.
pub tick : ℕ → Countdown → Countdown
unfolding remaining_seconds
tick time c = elim c.timer.status [
  | running ↦
      if remaining_seconds c.timer.deadline time == 0
      then (record c {
        now = time;
        timer = record c.timer { status = done; deadline = 0; paused_seconds = 0 };
      })
      else (record c { now = time })
  | _ ↦ c
]

pub choose : ℕ → Countdown → Countdown
choose value c =
    if any (λ m. m == value) timer_minutes
    then (record c {
      timer = record { minutes = value; status = idle; deadline = 0; paused_seconds = value * 60 };
    })
    else c

abbrev stopped : Countdown → Countdown
stopped c = record c {
  timer = record c.timer { status = idle; deadline = 0; paused_seconds = c.timer.minutes * 60 };
}

abbrev started : ℕ → Countdown → Countdown
started time c = record {
  now = time;
  floating_open = true;
  timer = record c.timer {
    status = running;
    deadline = time + c.timer.minutes * 60000;
    paused_seconds = c.timer.minutes * 60;
  };
}

pub toggle : ℕ → Countdown → Countdown
toggle time c = elim c.timer.status [
  | running ↦ stopped c
  | paused ↦ stopped c
  | idle ↦ started time c
  | done ↦ started time c
]

pub pause : ℕ → Countdown → Countdown
unfolding remaining_seconds
pause time c = elim c.timer.status [
  | running ↦
      let next = remaining_seconds c.timer.deadline time in
      record c {
        timer = record c.timer {
          status = if next == 0 then done else paused;
          deadline = 0;
          paused_seconds = next;
        };
      }
  | paused ↦ record c {
    now = time;
    timer = record c.timer { status = running; deadline = time + c.timer.paused_seconds * 1000 };
  }
  | idle ↦ c
  | done ↦ c
]

abbrev pub show_floating : Countdown → Countdown
show_floating c = record c { floating_open = true }

abbrev pub hide_floating : Countdown → Countdown
hide_floating c = record c { floating_open = false }
