-- ===== src/Chain/Slots.antt =====
-- `computeProofCloseTimestamp` and `blockTimeAtOrBefore` of
-- frontend/src/chain/instructions/helpers.ts. The round of a failed block time is skipped over, and
-- `Math.trunc` rounds towards zero. The text of the last error is left out of the thrown one.
use solana_governance.Common.{
  ℕ, zero, suc, ◌+◌, ◌-◌, ◌*◌, ◌/◌, ◌==◌, max, Option, none, some, List, [], ◌∷◌, if◌then◌else◌,
}
use solana_governance.Common.Int.{ℤ, pos, negsuc, sub_ℕ, ◌+ℤ◌, ◌-ℤ◌, ◌*ℤ◌, ltb_ℤ, max_ℤ}
use solana_governance.Chain.Types.{Result, ok, err, no_block_time, EpochInfo}
use solana_governance.Chain.Flow.{
  Flow, Trace, Env, return, throw, ask, ◌>>=◌, continue, asked_block_time, asked_epoch_info,
}
pub mod Laws

abbrev pub ms_per_slot : ℕ
ms_per_slot = 400

abbrev pub buffer_pct : ℕ
buffer_pct = 20

abbrev pub min_buffer_seconds : ℕ
min_buffer_seconds = 3600

abbrev pub max_attempts : ℕ
max_attempts = 8

-- `Math.trunc(a / d)`
abbrev pub trunc_div : ℤ → ℕ → ℤ
trunc_div (pos n) d = pos (n / d)
trunc_div (negsuc n) d = sub_ℕ 0 (suc n / d)

-- a block time, or none if there is none or the call failed
abbrev pub resolved : Result (Option ℤ) → Option ℤ
resolved (ok time) = time
resolved (err e) = none

module _ (env : Env) where
  -- the rounds left, the slot of this one, and the slots tried before
  unfoldable pub block_time_loop : ℕ → ℕ → ℕ → ℕ → Flow (ℕ × ℤ)
  block_time_loop zero candidate attempts last_tried tr =
      (err (no_block_time attempts last_tried), tr)
  block_time_loop (suc rounds) candidate attempts last_tried tr =
      let tr' : Trace = asked_block_time candidate ∷ tr in
      let next = block_time_loop rounds (candidate - 1) (attempts + 1) candidate tr' in
      elim (resolved (env.get_block_time candidate tr)) [
        | some time ↦ (ok (candidate, time), tr')
        | none ↦
            if candidate == 0 then (err (no_block_time (attempts + 1) candidate), tr') else next
      ]

  unfoldable pub block_time_at_or_before : ℕ → Flow (ℕ × ℤ)
  unfolding block_time_loop
  block_time_at_or_before slot = block_time_loop max_attempts slot 0 slot

-- the slots from the reference to the start of the end epoch
unfoldable pub slot_delta : EpochInfo → ℕ → ℕ → ℤ
slot_delta info end_epoch ref_slot =
    let epoch_start_slot = pos info.absolute_slot -ℤ pos info.slot_index in
    let target_slot =
      epoch_start_slot +ℤ (pos end_epoch -ℤ pos info.epoch) *ℤ pos info.slots_in_epoch in
    target_slot -ℤ pos ref_slot

unfoldable pub projected_secs : ℤ → ℤ
projected_secs delta = trunc_div (delta *ℤ pos ms_per_slot) 1000

unfoldable pub buffer : ℤ → ℤ
buffer projected =
    if ltb_ℤ (pos 0) projected
    then max_ℤ (trunc_div (projected *ℤ pos buffer_pct) 100) (pos min_buffer_seconds)
    else pos 0

-- the estimate, from the answers
unfoldable pub estimate : EpochInfo → ℕ → ℕ × ℤ → ℤ
estimate info end_epoch (ref_slot, ref_time) =
    let projected = projected_secs (slot_delta info end_epoch ref_slot) in
    ref_time +ℤ projected +ℤ buffer projected

unfoldable pub compute_proof_close_timestamp : Env → ℕ → Flow ℤ
compute_proof_close_timestamp env end_epoch = do
  info ← ask asked_epoch_info env.get_epoch_info
  reference ← block_time_at_or_before env info.absolute_slot
  return (estimate info end_epoch reference)
