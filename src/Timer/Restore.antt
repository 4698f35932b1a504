-- ===== src/Timer/Restore.antt =====
-- `restoreCountdown`: what it accepts, and that it reads back what the hook has written.
use the_cinder_project.Base.{
  ℕ, min, max, ◌*◌, ◌≤◌, ◌<◌, true, ◌≡◌, ◌≢◌, refl, arith, [], ◌∷◌, any, ◌==◌, inl, inr, Option,
  none, some, Text, codes, Option-cases,
}
use the_cinder_project.Base.Number.{Number, from_nat, round, ceiling}
use the_cinder_project.Base.Json.{Json, num, str, obj, field, end, get, read_field}
use the_cinder_project.Timer.{
  timer_minutes, Status, idle, running, paused, done, StoredCountdown, fallback, listed_minutes,
  read_minutes, read_status, read_paused, settle, restore_fields, restore_saved, restore_countdown,
  status_of_name,
}

-- What every restored countdown has: minutes on the list, no more seconds than they hold, and time
-- left if it runs.
pub record IsRestored (now : ℕ) (t : StoredCountdown) : Type 0 where
  pub listed : any (λ m. m == t.minutes) timer_minutes ≡ true
  pub within : t.paused_seconds ≤ t.minutes * 60
  pub time_left : t.status ≡ running → now < t.deadline

listed_minutes-listed :
    (x : Number) {m : ℕ}
    → listed_minutes x timer_minutes ≡ some m
    → any (λ k. k == m) timer_minutes ≡ true
unfolding listed_minutes
listed_minutes-listed x h = ground arith

read_minutes-listed :
    (j : Option Json) {m : ℕ} → read_minutes j ≡ some m → any (λ k. k == m) timer_minutes ≡ true
read_minutes-listed (some (num x)) h = listed_minutes-listed x h
read_minutes-listed none h = absurd (cc)
read_minutes-listed (some _) h = absurd (cc)

read_paused-le : (m : ℕ) (j : Option Json) → read_paused m j ≤ m * 60
read_paused-le m (some (num x)) = ground arith
read_paused-le m none = omega arith
read_paused-le m (some _) = omega arith

settle-IsRestored :
    (now m : ℕ) (s : Status) (d p : ℕ)
    → any (λ k. k == m) timer_minutes ≡ true
    → p ≤ m * 60
    → IsRestored now (settle now m s d p)
unfolding settle
settle-IsRestored now m idle d p l h = ground arith
settle-IsRestored now m _ d p l h = ground arith

fallback-IsRestored : (now : ℕ) → IsRestored now fallback
fallback-IsRestored now = record { listed = refl; within = omega arith; time_left = λ e. cc }

restore_fields-IsRestored :
    (minutes : Option ℕ) (status : Option Status) (saved : Json) (now : ℕ)
    → ((m : ℕ) → minutes ≡ some m → any (λ k. k == m) timer_minutes ≡ true)
    → IsRestored now (restore_fields minutes status saved now)
unfolding restore_fields
restore_fields-IsRestored none status saved now l = fallback-IsRestored now
restore_fields-IsRestored (some m) none saved now l = fallback-IsRestored now
restore_fields-IsRestored (some m) (some s) saved now l =
    settle-IsRestored now m s _ _ (l m refl) (read_paused-le m _)

restore_saved-IsRestored : (saved : Json) (now : ℕ) → IsRestored now (restore_saved saved now)
unfolding restore_saved
restore_saved-IsRestored saved now =
    restore_fields-IsRestored (read_minutes minutes) (read_status (get (codes "status") saved))
      saved now (λ m e. read_minutes-listed minutes e)
  where
    minutes : Option Json
    minutes = get (codes "minutes") saved

-- Whatever `localStorage` holds and whatever `JSON.parse` makes of it, the restored countdown has
-- minutes that are offered, a pause within them, and a deadline in the future if it runs.
pub restore_countdown-IsRestored :
    (parse : Text → Option Json) (value : Option Text) (now : ℕ)
    → IsRestored now (restore_countdown parse value now)
unfolding restore_countdown
restore_countdown-IsRestored parse none now = fallback-IsRestored now
restore_countdown-IsRestored parse (some []) now = fallback-IsRestored now
restore_countdown-IsRestored parse (some (c ∷ s)) now = elim (Option-cases (parse (c ∷ s))) [
  | inl e ↦ rw e (fallback-IsRestored now)
  | inr (j, e) ↦ rw e (restore_saved-IsRestored j now)
]

abbrev status_name : Status → Text
status_name idle = codes "idle"
status_name running = codes "running"
status_name paused = codes "paused"
status_name done = codes "done"

-- The object that `JSON.stringify(timer)` writes.
unfoldable pub to_json : StoredCountdown → Json
to_json t = obj (
    field (codes "minutes") (num (from_nat t.minutes)) (
      field (codes "status") (str (status_name t.status)) (
        field (codes "deadline") (num (from_nat t.deadline))
          (field (codes "pausedSeconds") (num (from_nat t.paused_seconds)) end))))

read_minutes-from_nat :
    (m : ℕ)
    → any (λ k. k == m) timer_minutes ≡ true
    → listed_minutes (from_nat m) timer_minutes ≡ some m
unfolding listed_minutes
read_minutes-from_nat m h = ground arith

round-from_nat : (n : ℕ) → round (from_nat n) ≡ n
unfolding round
round-from_nat n = omega arith

ceiling-from_nat : (n : ℕ) → ceiling (from_nat n) ≡ n
unfolding ceiling
ceiling-from_nat n = omega arith

status-status_name : (s : Status) → status_of_name (status_name s) ≡ some s
unfolding status_of_name
status-status_name idle = refl
status-status_name running = refl
status-status_name paused = refl
status-status_name done = refl

settle_lem :
    (now : ℕ) (t : StoredCountdown)
    → (t.status ≡ running → now < t.deadline)
    → settle now t.minutes t.status t.deadline t.paused_seconds ≡ t
unfolding settle
settle_lem now t h = ground arith

restore_saved_lem :
    (j : Json) (now : ℕ)
    → restore_saved j now
      ≡ restore_fields
          (read_minutes (get (codes "minutes") j))
          (read_status (get (codes "status") j))
          j
          now
unfolding restore_saved
restore_saved_lem j now = refl

restore_fields-to_json :
    (now : ℕ) (t : StoredCountdown)
    → restore_fields (some t.minutes) (some t.status) (to_json t) now
      ≡ settle now t.minutes t.status
          (ceiling (from_nat t.deadline))
          (max 0 (min (t.minutes * 60) (round (from_nat t.paused_seconds))))
unfolding restore_fields read_field to_json
restore_fields-to_json now t = refl

restore_saved-to_json :
    (now : ℕ) (t : StoredCountdown) → IsRestored now t → restore_saved (to_json t) now ≡ t
unfolding read_field to_json
restore_saved-to_json now t v =
    rw (restore_saved_lem, read_minutes-from_nat t.minutes v.listed, status-status_name)
      (rw (restore_fields-to_json, ceiling-from_nat, round-from_nat, clamped)
        (settle_lem now t v.time_left))
  where
    clamped : max 0 (min (t.minutes * 60) t.paused_seconds) ≡ t.paused_seconds
    clamped = let w = v.within in omega arith

-- A countdown that is written to storage and read back before its deadline is the same countdown,
-- if its minutes are offered ones and its pause lies within them, where `JSON.parse` gives the
-- object that was written.
pub restore_countdown-to_json :
    (parse : Text → Option Json) (raw : Text) (now : ℕ) (t : StoredCountdown)
    → parse raw ≡ some (to_json t)
    → raw ≢ []
    → IsRestored now t
    → restore_countdown parse (some raw) now ≡ t
unfolding restore_countdown
restore_countdown-to_json parse [] now t e n v = absurd (n refl)
restore_countdown-to_json parse (c ∷ s) now t e n v = rw e (restore_saved-to_json now t v)
