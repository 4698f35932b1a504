-- ===== src/Classroom/Live.antt =====
-- The clock and the result of a live session: `liveSessionClock`, `studentLiveModule` and
-- `checkedLiveResult` of apps/forge/src/classrooms/classroomState.ts. What `new Date(text)` gives is a
-- parameter, in whole milliseconds, `none` for an invalid date.
use the_cinder_project.Base.{
  ℕ, suc, ◌+◌, ◌-◌, ◌*◌, ◌/◌, ◌≤◌, ◌<◌, Bool, true, false, not, ◌&&◌, ◌||◌, Option, none, some,
  Text, codes, text_eq, truthy, ltb, leb, ◌==◌, ◌≡◌, ◌↔◌, refl, arith, if◌then◌else◌, min,
  Bool-cases, inl, inr,
}
use the_cinder_project.Base.Number.{Number, nan, infinite, finite, is_finite, round}

pub data StudentLiveModule : Type 0 where
  classroom typing english games unsupported : StudentLiveModule

student_live_module : Text → StudentLiveModule
unfolding text_eq
student_live_module module_id =
    if text_eq module_id (codes "classroom.live")
    then classroom
    else if text_eq module_id (codes "typing") || text_eq module_id (codes "typing.practice")
    then typing
    else if text_eq module_id (codes "english") || text_eq module_id (codes "english.practice")
    then english
    else if text_eq module_id (codes "games") || text_eq module_id (codes "games.practice")
    then games
    else unsupported

pub record LiveSession : Type 0 where
  pub ends_at : Text
  pub ended_at : Option Text

pub data ClockState : Type 0 where
  ended expired active : ClockState

pub record Clock : Type 0 where
  pub state : ClockState
  pub remaining_seconds : ℕ

abbrev has_ended : Option Text → Bool
has_ended none = false
has_ended (some t) = truthy t

-- The clock of a session that has not ended, with the milliseconds of its end.
unfoldable clock_at : Option ℕ → ℕ → Clock
clock_at none now = record { state = expired; remaining_seconds = 0 }
clock_at (some end) now =
    if leb end now
    then record { state = expired; remaining_seconds = 0 }
    else record { state = active; remaining_seconds = ((end - now) + 999) / 1000 }

unfoldable pub live_session_clock : (Text → Option ℕ) → LiveSession → ℕ → Clock
unfolding clock_at
live_session_clock parse_date session now =
    if has_ended session.ended_at
    then record { state = ended; remaining_seconds = 0 }
    else clock_at (parse_date session.ends_at) now

pub record LiveResult : Type 0 where
  pub score : Number
  pub elapsed_seconds : ℕ

abbrev is_negative : Number → Bool
is_negative nan = false
is_negative infinite = false
is_negative (finite negative n d) = negative && ltb 0 n

abbrev exceeds : Number → ℕ → Bool
exceeds nan k = false
exceeds infinite k = false
exceeds (finite true n d) k = false
exceeds (finite false n d) k = ltb (k * suc d) n

-- A missing score is turned down before this.
check_score : Number → Number → ℕ → Option LiveResult
check_score score elapsed minutes =
    if (if is_finite score then false else true) || is_negative score || exceeds score 100
    then none
    else if (if is_finite elapsed then false else true) || is_negative elapsed
    then none
    else some (record { score = score; elapsed_seconds = min (round elapsed) (minutes * 60) })

pub checked_live_result : Option Number → Number → ℕ → Option LiveResult
unfolding check_score
checked_live_result none elapsed minutes = none
checked_live_result (some score) elapsed minutes = check_score score elapsed minutes

abbrev pub IsClockFor : Option ℕ → ℕ → Clock → Type 0
IsClockFor none now c = (c.state ≡ expired) × (c.remaining_seconds ≡ 0)
IsClockFor (some end) now c =
    ((c.state ≡ active) ↔ (now < end))
    × (end ≤ now + c.remaining_seconds * 1000)
    × (now < end → now + c.remaining_seconds * 1000 < end + 1000)
    × (end ≤ now → (c.state ≡ expired) × (c.remaining_seconds ≡ 0))

clock_at-IsClockFor : (o : Option ℕ) (now : ℕ) → IsClockFor o now (clock_at o now)
unfolding clock_at
clock_at-IsClockFor none now = (refl, refl)
clock_at-IsClockFor (some end) now = elim (Bool-cases (leb end now)) [
  | inl e ↦
      simp e
        ((λ h. absurd (cc), λ h. ground arith), ground arith, λ h. ground arith, λ h. (refl, refl))
  | inr e ↦
      simp e ((λ h. ground arith, λ h. refl), omega arith, λ h. omega arith, λ h. ground arith)
]

-- The clock of a session that was not ended is active exactly while the end, as far as its text is a
-- date, lies ahead; the seconds it then shows are the time left, rounded up. Otherwise it has
-- expired and shows none.
pub live_session_clock-IsClockFor :
    (parse_date : Text → Option ℕ) (session : LiveSession) (now : ℕ)
    → has_ended session.ended_at ≡ false
    → IsClockFor (parse_date session.ends_at) now (live_session_clock parse_date session now)
unfolding live_session_clock
live_session_clock-IsClockFor parse_date session now e =
    simp e (clock_at-IsClockFor (parse_date session.ends_at) now)

-- A finite number between 0 and some bound, and one that is not negative.
abbrev pub within : Number → ℕ → Bool
within nan k = false
within infinite k = false
within (finite true n d) k = n == 0
within (finite false n d) k = leb n (k * suc d)

abbrev pub counts_up : Number → Bool
counts_up nan = false
counts_up infinite = false
counts_up (finite true n d) = n == 0
counts_up (finite false n d) = true

abbrev pub IsChecked : Option LiveResult → Number → Number → ℕ → Type 0
IsChecked none score elapsed minutes = (within score 100 && counts_up elapsed) ≡ false
IsChecked (some r) score elapsed minutes =
    ((within score 100 && counts_up elapsed) ≡ true)
    × (r.score ≡ score)
    × (r.elapsed_seconds ≤ minutes * 60)

unfit_score :
    (x : Number)
    → ((if is_finite x then false else true) || is_negative x || exceeds x 100) ≡ not (within x 100)
unfit_score nan = refl
unfit_score infinite = refl
unfit_score (finite true n d) = ground arith
unfit_score (finite false n d) = ground arith

unfit_time :
    (x : Number) → ((if is_finite x then false else true) || is_negative x) ≡ not (counts_up x)
unfit_time nan = refl
unfit_time infinite = refl
unfit_time (finite true n d) = ground arith
unfit_time (finite false n d) = refl

check_score-IsChecked :
    (score elapsed : Number) (minutes : ℕ)
    → IsChecked (check_score score elapsed minutes) score elapsed minutes
unfolding check_score
check_score-IsChecked score elapsed minutes = elim (Bool-cases (within score 100)) [
  | inr e ↦ simp (unfit_score score, e) refl
  | inl e ↦ elim (Bool-cases (counts_up elapsed)) [
    | inr f ↦ simp (unfit_score score, unfit_time elapsed, e, f) refl
    | inl f ↦ simp (unfit_score score, unfit_time elapsed, e, f) (refl, refl, omega arith)
  ]
]

-- A result is turned down exactly if the score is no finite number from 0 to 100, or the elapsed time
-- is no finite number or negative; otherwise it keeps the score, and the seconds are at most
-- those of the session.
pub checked_live_result-IsChecked :
    (score elapsed : Number) (minutes : ℕ)
    → IsChecked (checked_live_result (some score) elapsed minutes) score elapsed minutes
unfolding checked_live_result
checked_live_result-IsChecked score elapsed minutes = check_score-IsChecked score elapsed minutes
