-- ===== src/Dates/Laws.antt =====
-- Laws of the times of frontend/src/helpers/date.ts.
use solana_governance.Common.{
  ℕ, ◌+◌, ◌-◌, ◌*◌, ◌/◌, ◌%◌, ◌≤◌, ◌<◌, ◌≡◌, ◌⊎◌, some, List, ltb, arith, Bool-cases, inl, inr,
}
use solana_governance.Common.Ratio.{of_ℕ, RatioLe}
use solana_governance.Dates.{
  PerfSample, estimate_slot_time_ms, ms_per_day, ms_per_hour, ms_per_minute, EndsIn, ended,
  months_days, days_hours_minutes, hours_minutes, minutes_only, calculate_voting_ends_in, AgeUnit,
  minute, hour, day, month, year, TimeAgo, just_now, one_ago, many_ago, minus_days_ago,
  in_milliseconds, calculate_time_ago,
}

-- Whatever the samples, a slot time is at least 100 and at most 1000 ms.
pub estimate_slot_time_ms_bounds :
    (samples : List PerfSample)
    → let slot_time = estimate_slot_time_ms samples in
      RatioLe (of_ℕ 100) slot_time × RatioLe slot_time (of_ℕ 1000)
unfolding estimate_slot_time_ms
estimate_slot_time_ms_bounds samples = (ground arith, ground arith)

-- what a countdown tells at least, and how exactly
abbrev pub told : EndsIn → ℕ
told ended = 0
told (months_days months days) = (months * 30 + days) * ms_per_day
told (days_hours_minutes days hours minutes) =
    days * ms_per_day + hours * ms_per_hour + minutes * ms_per_minute
told (hours_minutes hours minutes) = hours * ms_per_hour + minutes * ms_per_minute
told (minutes_only minutes) = minutes * ms_per_minute

abbrev pub grain : EndsIn → ℕ
grain ended = 0
grain (months_days months days) = ms_per_day
grain _ = ms_per_minute

-- The fields of a countdown are those of a mixed radix, and the larger units that are shown are not 0.
abbrev pub IsNormal : EndsIn → Type 0
IsNormal ended = Unit
IsNormal (months_days months days) = (0 < months) × (days < 30) × (30 < months * 30 + days)
IsNormal (days_hours_minutes days hours minutes) =
    (0 < days) × (days ≤ 30) × (hours < 24) × (minutes < 60)
IsNormal (hours_minutes hours minutes) = (0 < hours) × (hours < 24) × (minutes < 60)
IsNormal (minutes_only minutes) = minutes < 60

-- Before the end, the countdown is written in days of a mixed radix and rounds the time left down: to
-- whole days, with months of 30 days, over 30 days, and to whole minutes otherwise.
pub calculate_voting_ends_in-told :
    (end now : ℕ)
    → now < end
    → (e : EndsIn) × (calculate_voting_ends_in (some end) now ≡ some e)
      × IsNormal e
      × (told e ≤ end - now)
      × (end - now < told e + grain e)
unfolding calculate_voting_ends_in
calculate_voting_ends_in-told end now h =
    let diff = end - now in
    let days = diff / ms_per_day in
    let hours = diff % ms_per_day / ms_per_hour in
    let minutes = diff % ms_per_hour / ms_per_minute in
    elim (Bool-cases (ltb 30 days)) [
      | inl a ↦ (
        months_days (days / 30) (days % 30),
        ground arith,
        ground arith,
        ground arith,
        ground arith,
      )
      | inr a ↦ elim (Bool-cases (ltb 0 days)) [
        | inl b ↦ (
          days_hours_minutes days hours minutes,
          ground arith,
          ground arith,
          ground arith,
          ground arith,
        )
        | inr b ↦ elim (Bool-cases (ltb 0 hours)) [
          | inl c ↦
              (hours_minutes hours minutes, ground arith, ground arith, ground arith, ground arith)
          | inr c ↦ (minutes_only minutes, ground arith, ground arith, ground arith, ground arith)
        ]
      ]
    ]

abbrev pub size : AgeUnit → ℕ
size minute = ms_per_minute
size hour = ms_per_hour
size day = ms_per_day
size month = 30 * ms_per_day
size year = 365 * ms_per_day

abbrev pub Tells : TimeAgo → ℕ → Type 0
Tells just_now diff = diff < ms_per_minute
Tells (one_ago unit) diff = (size unit ≤ diff) × (diff < 2 * size unit)
Tells (many_ago n unit) diff =
    (n * size unit ≤ diff)
    × (diff < (n + 1) * size unit)
    × ((2 ≤ n) ⊎ ((n ≡ 0) × (unit ≡ year) × (360 * ms_per_day ≤ diff) × (diff < 365 * ms_per_day)))
Tells (minus_days_ago n) diff = ⊥

-- For a time that is not to come, the text tells the age rounded down to the unit that it names, and a
-- plural is of at least 2, except that an age of 360 to 364 days may be told as 0 years.
pub calculate_time_ago-Tells :
    (timestamp now : ℕ)
    → in_milliseconds timestamp ≤ now
    → Tells (calculate_time_ago timestamp now) (now - in_milliseconds timestamp)
unfolding calculate_time_ago
calculate_time_ago-Tells timestamp now h = ground arith
