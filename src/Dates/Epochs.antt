-- ===== src/Dates/Epochs.antt =====
-- `epochToDate` of frontend/src/helpers/date.ts: when an epoch begins. The answers of the RPC server are
-- arguments, a time in seconds is a whole number, and the date is a quotient in milliseconds, which may
-- be before 1970. `slot_of` is `getFirstSlotInEpoch`.
use native.Mathlib.Nat.{mul-le-mul_left}
use mathlib.Core.Path.{subst}
use solana_governance.Common.{
  ℕ, ◌+◌, ◌*◌, ◌≤◌, ◌<◌, ◌≡◌, sym, ap, ◌∙◌, Option, none, some, List, leb, ◌==◌, arith,
  if◌then◌else◌,
}
use solana_governance.Common.Int.{ℤ, pos, ◌+ℤ◌, ◌*ℤ◌, sub_ℕ, ◌≤ℤ◌}
use solana_governance.Common.Ratio.{Ratio, of_ℕ}
use solana_governance.Dates.{PerfSample, estimate_slot_time_ms, default_slot_time_ms}
use solana_governance.Dates.Laws.{estimate_slot_time_ms_bounds}

-- an answer of the server, or an error
pub data Reply (A : Type 0) : Type 0 where
  fulfilled : A → Reply A
  rejected : Reply A

pub record EpochInfo : Type 0 where
  pub epoch : ℕ
  pub absolute_slot : ℕ

-- `num / den` milliseconds
pub record Moment : Type 0 where
  pub num : ℤ
  pub den : ℕ

abbrev moment : ℤ → ℕ → Moment
moment num den = record { num = num; den = den }

abbrev pub at_ms : ℕ → Moment
at_ms ms = record { num = pos ms; den = 1 }

-- a block time of 0 counts as none
abbrev pub known_time : Option ℕ → Option ℕ
known_time none = none
known_time (some t) = if t == 0 then none else some t

-- the block time of the current slot, or the clock
abbrev pub current_block_time : (now : ℕ) → Reply (Option ℕ) → ℕ
current_block_time now (fulfilled (some t)) = t * 1000
current_block_time now (fulfilled none) = now
current_block_time now rejected = now

abbrev pub slot_time : Reply (List PerfSample) → Ratio
slot_time (fulfilled samples) = estimate_slot_time_ms samples
slot_time rejected = of_ℕ default_slot_time_ms

-- `currentBlockTime + slotsUntilTarget * slotTimeMs`
unfoldable pub projected :
    (now target_slot absolute_slot : ℕ) → Reply (Option ℕ) → Reply (List PerfSample) → Moment
unfolding estimate_slot_time_ms ◌+ℤ◌ ◌*ℤ◌
projected now target_slot absolute_slot block_time samples =
    let time = slot_time samples in
    record {
      num =
          pos (current_block_time now block_time * time.den)
          +ℤ sub_ℕ target_slot absolute_slot *ℤ pos time.num;
      den = time.den;
    }

ahead : (slots target absolute : ℕ) → target ≡ absolute + slots → sub_ℕ target absolute ≡ pos slots
ahead slots target absolute h = ground arith

times : (a b : ℕ) → pos a *ℤ pos b ≡ pos (a * b)
unfolding ◌*ℤ◌
times a b = ground arith

plus : (a b : ℕ) → pos a +ℤ pos b ≡ pos (a + b)
unfolding ◌+ℤ◌
plus a b = ground arith

-- so many slots ahead, the sum is a sum of natural numbers
sum_ahead :
    (time : ℕ) (n slots target absolute : ℕ)
    → target ≡ absolute + slots
    → pos time +ℤ sub_ℕ target absolute *ℤ pos n ≡ pos (time + slots * n)
sum_ahead time n slots target absolute h =
    ap (λ z. pos time +ℤ z *ℤ pos n) (ahead slots target absolute h)
    ∙ ap (λ z. pos time +ℤ z) (times slots n)
    ∙ plus time (slots * n)

-- the bounds of a slot time, taken that many times
lower : (start slots n d : ℕ) → 100 * d ≤ n → (start + 100 * slots) * d ≤ start * d + slots * n
lower start slots n d h = omega (arith, mul-le-mul_left slots h)

upper : (start slots n d : ℕ) → n ≤ 1000 * d → start * d + slots * n ≤ (start + 1000 * slots) * d
upper start slots n d h = omega (arith, mul-le-mul_left slots h)

-- between 100 and 1000 ms for each slot behind a time
abbrev pub IsWithin : (start slots : ℕ) → Moment → Type 0
IsWithin start slots m =
    (pos ((start + 100 * slots) * m.den) ≤ℤ m.num) × (m.num ≤ℤ pos ((start + 1000 * slots) * m.den))

within :
    (start slots n d : ℕ)
    → 100 * d ≤ n
    → n ≤ 1000 * d
    → IsWithin start slots (record { num = pos (start * d + slots * n); den = d })
within start slots n d h k =
    (omega (arith, lower start slots n d h), omega (arith, upper start slots n d k))

slot_time_bounds :
    (samples : Reply (List PerfSample))
    → (100 * (slot_time samples).den ≤ (slot_time samples).num)
      × ((slot_time samples).num ≤ 1000 * (slot_time samples).den)
slot_time_bounds (fulfilled samples) =
    let b = estimate_slot_time_ms_bounds samples in (omega (arith, b.0), omega (arith, b.1))
slot_time_bounds rejected = (omega arith, omega arith)

module _ (slot_of : ℕ → ℕ) (now : ℕ) where
  abbrev pub past_or : Reply (Option ℕ) → Moment → Moment
  past_or rejected next = at_ms now
  past_or (fulfilled time) next = elim (known_time time) [ some t ↦ at_ms (t * 1000) | none ↦ next ]

  unfoldable pub epoch_to_date :
      (epoch : ℕ)
      → EpochInfo
      → (target_time block_time : Reply (Option ℕ)) → Reply (List PerfSample)
      → Moment
  unfolding projected
  epoch_to_date epoch info target_time block_time samples =
      let next = projected now (slot_of epoch) info.absolute_slot block_time samples in
      if leb epoch info.epoch then past_or target_time next else next

  -- a later epoch is projected
  epoch_to_date_later :
      (epoch : ℕ) (info : EpochInfo) (target_time block_time : Reply (Option ℕ))
      (samples : Reply (List PerfSample))
      → info.epoch < epoch
      → epoch_to_date epoch info target_time block_time samples
        ≡ projected now (slot_of epoch) info.absolute_slot block_time samples
  unfolding epoch_to_date
  epoch_to_date_later epoch info target_time block_time samples h = ground (arith, h)

  -- The first slot of a later epoch that is so many slots ahead is put between 100 and 1000 ms for each
  -- of them behind the time of the current slot, whatever the server answers.
  pub epoch_to_date-bounds :
      (epoch slots : ℕ) (info : EpochInfo) (target_time block_time : Reply (Option ℕ))
      → (samples : Reply (List PerfSample)) → info.epoch < epoch
      → slot_of epoch ≡ info.absolute_slot + slots
      → IsWithin
          (current_block_time now block_time)
          slots
          (epoch_to_date epoch info target_time block_time samples)
  unfolding epoch_to_date projected
  epoch_to_date-bounds epoch slots info target_time block_time samples h e =
      let time = slot_time samples in
      let start = current_block_time now block_time in
      let next = projected now (slot_of epoch) info.absolute_slot block_time samples in
      let sum : next.num ≡ pos (start * time.den + slots * time.num) =
        sum_ahead (start * time.den) time.num slots (slot_of epoch) info.absolute_slot e in
      let whole : next
          ≡ record { num = pos (start * time.den + slots * time.num); den = time.den } =
        ap (λ z. moment z time.den) sum in
      let plausible = slot_time_bounds samples in
      let same : epoch_to_date epoch info target_time block_time samples ≡ next =
        epoch_to_date_later epoch info target_time block_time samples h in
      subst (IsWithin start slots) (sym (same ∙ whole))
        (within start slots time.num time.den plausible.0 plausible.1)
