-- ===== src/Timer/Tests.antt =====
-- Runs of the countdown, and its theorems at concrete inputs.
use the_cinder_project.Base.{
  ℕ, ◌*◌, ◌≤◌, true, false, ◌≡◌, refl, arith, List, [], ◌∷◌, any, ◌==◌, Option, some, Text, codes,
}
use the_cinder_project.Base.Json.{Json}
use the_cinder_project.Timer.{
  timer_minutes, running, done, StoredCountdown, fallback, Countdown, seconds, restore_countdown,
}
use the_cinder_project.Timer.Laws.{
  Action, ticking, toggling, pausing, hiding, choosing, run, IsValid, seconds-run-le, act,
}
use the_cinder_project.Timer.Restore.{
  IsRestored, to_json, restore_countdown-IsRestored, restore_countdown-to_json,
}

abbrev fresh : Countdown
fresh = record { timer = fallback; now = 1000; floating_open = false }

abbrev session : List (Action × ℕ)
session =
    (choosing 5, 1000)
    ∷ (toggling, 2000)
    ∷ (ticking, 62000)
    ∷ (pausing, 63500)
    ∷ (hiding, 64000)
    ∷ (pausing, 90000)
    ∷ []

abbrev half_way : StoredCountdown
half_way = record { minutes = 10; status = running; deadline = 400000; paused_seconds = 600 }

abbrev counting : Countdown
counting = record { timer = half_way; now = 100000; floating_open = true }

fresh-IsValid : IsValid fresh
fresh-IsValid = record { listed = refl; within = omega arith; fair = λ e. cc }

session_test : seconds (run fresh session) ≡ 239
unfolding seconds run act
session_test = refl

seconds-run-le_example :
    (seconds (run fresh session) ≤ (run fresh session).timer.minutes * 60)
    × (any (λ m. m == (run fresh session).timer.minutes) timer_minutes ≡ true)
seconds-run-le_example = seconds-run-le session fresh fresh-IsValid (omega arith)

abbrev parse_half_way : Text → Option Json
parse_half_way raw = some (to_json half_way)

half_way-IsRestored : IsRestored 100000 half_way
half_way-IsRestored = record { listed = refl; within = omega arith; time_left = λ e. omega arith }

restore_countdown-IsRestored_example :
    IsRestored 100000 (restore_countdown parse_half_way (some (codes "{}")) 100000)
restore_countdown-IsRestored_example =
    restore_countdown-IsRestored parse_half_way (some (codes "{}")) 100000

restore_countdown-to_json_example :
    restore_countdown parse_half_way (some (codes "{}")) 100000 ≡ half_way
restore_countdown-to_json_example =
    restore_countdown-to_json parse_half_way (codes "{}") 100000 half_way refl (λ e. cc)
      half_way-IsRestored

-- At the deadline a stored countdown comes back as done.
restore_late :
    restore_countdown parse_half_way (some (codes "{}")) 400000
    ≡ record { minutes = 10; status = done; deadline = 0; paused_seconds = 0 }
unfolding restore_countdown to_json
restore_late = refl
