-- ===== src/Scheduler/Recovery.antt =====
-- The instants of the scheduled recoveries, 0, 8 and 16 o'clock UTC and one second:
-- backend-go/internal/scheduler/channel_scheduler.go. An instant is a number of nanoseconds since 1970.
use ccx.Base.{
  ℕ, ◌+◌, ◌-◌, ◌*◌, ◌/◌, ◌≤◌, ◌<◌, ◌≡◌, ◌≢◌, ◌↔◌, Bool, false, not, Option, none, some, List, [],
  ◌∷◌, String, ltb, str_eq, if◌then◌else◌, arith,
}

abbrev pub second : ℕ
second = 1000000000

abbrev pub hour : ℕ
hour = 3600000000000

abbrev pub day : ℕ
day = 86400000000000

-- One second after midnight of the day of `now`.
abbrev pub base : ℕ → ℕ
base now = now / day * day + second

-- The loop over the hours of `NextScheduledRecoveryTimeUTC`.
abbrev pub next_slot : ℕ → List ℕ → ℕ
next_slot now [] = base now + 24 * hour
next_slot now (h ∷ hs) =
    let rest = next_slot now hs in
    if ltb now (base now + h * hour) then base now + h * hour else rest

unfoldable pub next_scheduled_recovery_time_utc : ℕ → ℕ
next_scheduled_recovery_time_utc now = next_slot now (0 ∷ 8 ∷ 16 ∷ [])

abbrev pub last_slot : ℕ → List ℕ → ℕ
last_slot now [] = base now - 8 * hour
last_slot now (h ∷ hs) =
    let rest = last_slot now hs in
    if not (ltb now (base now + h * hour)) then base now + h * hour else rest

-- The loop over the hours runs down.
unfoldable pub last_scheduled_recovery_time_utc : ℕ → ℕ
last_scheduled_recovery_time_utc now = last_slot now (16 ∷ 8 ∷ 0 ∷ [])

unfoldable pub missed_scheduled_recovery_time_utc : ℕ → ℕ → Option ℕ
unfolding last_scheduled_recovery_time_utc
missed_scheduled_recovery_time_utc last_checked now =
    if not (ltb last_checked now)
    then none
    else if ltb last_checked (last_scheduled_recovery_time_utc now)
    then some (last_scheduled_recovery_time_utc now)
    else none

-- `time.Parse` of an RFC 3339 text is the parameter `parse`.
unfoldable pub should_skip_scheduled_recovery : (String → Option ℕ) → String → String → ℕ → Bool
should_skip_scheduled_recovery parse disabled_at recover_at now =
    elim (if str_eq recover_at "" then none else parse recover_at) [
      | some t ↦ ltb now t
      | none ↦
          if str_eq disabled_at ""
          then false
          else elim (parse disabled_at) [ none ↦ false | some t ↦ ltb now (t + hour) ]
    ]

-- From the second day on, the last slot is not after `now`, the next one is after `now`, and they
-- are 8 hours apart: no slot lies between.
pub slots_around_now :
    (now : ℕ)
    → day ≤ now
    → (last_scheduled_recovery_time_utc now ≤ now)
      × (now < next_scheduled_recovery_time_utc now)
      × (next_scheduled_recovery_time_utc now ≡ last_scheduled_recovery_time_utc now + 8 * hour)
unfolding last_scheduled_recovery_time_utc next_scheduled_recovery_time_utc
slots_around_now now h = ground arith

-- With the last check on the second day or later, a slot is reported as missed exactly if the first
-- slot after the last check is not after `now`.
pub missed_iff_due :
    (last_checked now : ℕ)
    → day ≤ last_checked
    → (missed_scheduled_recovery_time_utc last_checked now ≢ none)
      ↔ (next_scheduled_recovery_time_utc last_checked ≤ now)
unfolding missed_scheduled_recovery_time_utc last_scheduled_recovery_time_utc
    next_scheduled_recovery_time_utc
missed_iff_due last_checked now h = ground arith
