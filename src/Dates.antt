-- ===== src/Dates.antt =====
-- frontend/src/helpers/date.ts: slot times, countdowns and ages. Times are milliseconds since 1970,
-- as natural numbers, and the answers are given by what the text says, before it is written out. The
-- text of an end time is read by `Date`, an argument here.
use solana_governance.Common.{
  ℕ, ◌+◌, ◌-◌, ◌*◌, ◌/◌, ◌%◌, Bool, ◌&&◌, ◌||◌, Option, none, some, List, [], ◌∷◌, ltb, leb, ◌==◌,
  if◌then◌else◌,
}
use solana_governance.Common.Ratio.{Ratio, of_ℕ, div, ratio_ltb}
use solana_governance.Common.Int.{ℤ, pos, negsuc, ◌-ℤ◌}
pub mod Epochs
pub mod Laws

pub record PerfSample : Type 0 where
  pub num_slots : ℕ
  pub sample_period_secs : ℕ

pub record Totals : Type 0 where
  pub slots : ℕ
  pub seconds : ℕ

abbrev pub default_slot_time_ms : ℕ
default_slot_time_ms = 350

abbrev pub min_plausible_slot_time_ms : ℕ
min_plausible_slot_time_ms = 100

abbrev pub max_plausible_slot_time_ms : ℕ
max_plausible_slot_time_ms = 1000

abbrev pub add_sample : Totals → PerfSample → Totals
add_sample acc sample =
    if ltb 0 sample.num_slots && ltb 0 sample.sample_period_secs
    then record {
      slots = acc.slots + sample.num_slots;
      seconds = acc.seconds + sample.sample_period_secs;
    }
    else acc

unfoldable pub total_samples : Totals → List PerfSample → Totals
total_samples acc [] = acc
total_samples acc (sample ∷ samples) = total_samples (add_sample acc sample) samples

-- The quotient is finite, as the slots are not 0.
unfoldable pub estimate_slot_time_ms : List PerfSample → Ratio
unfolding total_samples
estimate_slot_time_ms samples =
    let totals = total_samples (record { slots = 0; seconds = 0 }) samples in
    if totals.slots == 0
    then of_ℕ default_slot_time_ms
    else let slot_time_ms = div (totals.seconds * 1000) totals.slots in
      if ratio_ltb slot_time_ms (of_ℕ min_plausible_slot_time_ms)
        || ratio_ltb (of_ℕ max_plausible_slot_time_ms) slot_time_ms
      then of_ℕ default_slot_time_ms
      else slot_time_ms

abbrev pub ms_per_day : ℕ
ms_per_day = 1000 * 60 * 60 * 24

abbrev pub ms_per_hour : ℕ
ms_per_hour = 1000 * 60 * 60

abbrev pub ms_per_minute : ℕ
ms_per_minute = 1000 * 60

-- `Math.ceil` of a quotient by a positive constant: rounds up, also below 0
abbrev pub ceil_div_ℤ : ℤ → ℕ → ℤ
ceil_div_ℤ (pos n) d = pos ((n + (d - 1)) / d)
ceil_div_ℤ (negsuc n) d = pos 0 -ℤ pos ((n + 1) / d)

unfoldable pub get_days_left : (future now : ℕ) → ℤ
get_days_left future now = ceil_div_ℤ (pos future -ℤ pos now) ms_per_day

unfoldable pub get_hours_left : (future now : ℕ) → ℤ
get_hours_left future now = ceil_div_ℤ (pos future -ℤ pos now) ms_per_hour

-- the texts of a countdown
pub data EndsIn : Type 0 where
  ended : EndsIn
  months_days : (months days : ℕ) → EndsIn
  days_hours_minutes : (days hours minutes : ℕ) → EndsIn
  hours_minutes : (hours minutes : ℕ) → EndsIn
  minutes_only : ℕ → EndsIn

-- the end time is `none` where it is missing, empty or no date
unfoldable pub calculate_voting_ends_in : Option ℕ → ℕ → Option EndsIn
calculate_voting_ends_in none now_ms = none
calculate_voting_ends_in (some end_ms) now_ms =
    if leb end_ms now_ms
    then some ended
    else let diff = end_ms - now_ms in
      let days = diff / ms_per_day in
      let hours = diff % ms_per_day / ms_per_hour in
      let minutes = diff % ms_per_hour / ms_per_minute in
      if ltb 30 days
      then some (months_days (days / 30) (days % 30))
      else if ltb 0 days
      then some (days_hours_minutes days hours minutes)
      else if ltb 0 hours
      then some (hours_minutes hours minutes)
      else some (minutes_only minutes)

-- the texts of an age: "just now", "1 hour ago", "5 hours ago", and so on
pub data AgeUnit : Type 0 where
  minute hour day month year : AgeUnit

pub data TimeAgo : Type 0 where
  just_now : TimeAgo
  one_ago : AgeUnit → TimeAgo
  many_ago : ℕ → AgeUnit → TimeAgo
  -- "-n days ago", of a time to come
  minus_days_ago : ℕ → TimeAgo

-- `timestamp < 1e12` takes it for seconds
abbrev pub in_milliseconds : ℕ → ℕ
in_milliseconds timestamp = if ltb timestamp 1000000000000 then timestamp * 1000 else timestamp

-- For a time to come `days` is negative, and the other units are not read.
unfoldable pub calculate_time_ago : (timestamp now : ℕ) → TimeAgo
calculate_time_ago timestamp now =
    let diff = now - in_milliseconds timestamp in
    let days = diff / ms_per_day in
    let hours = diff % ms_per_day / ms_per_hour in
    let minutes = diff % ms_per_hour / ms_per_minute in
    if ltb now (in_milliseconds timestamp)
    then minus_days_ago ((in_milliseconds timestamp - now + (ms_per_day - 1)) / ms_per_day)
    else if days == 0
    then if hours == 0
      then if minutes == 0
        then just_now
        else if minutes == 1
        then one_ago minute
        else many_ago minutes minute
      else if hours == 1
      then one_ago hour
      else many_ago hours hour
    else if days == 1
    then one_ago day
    else if ltb days 30
    then many_ago days day
    else let months = days / 30 in
      if months == 1
      then one_ago month
      else if ltb months 12
      then many_ago months month
      else let years = days / 365 in if years == 1 then one_ago year else many_ago years year
