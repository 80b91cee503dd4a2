-- ===== src/Chain/Slots/Laws.antt =====
-- Laws of the reference slot and of the estimate of frontend/src/chain/instructions/helpers.ts.
use solana_governance.Common.{
  ℕ, zero, suc, ◌+◌, ◌*◌, ◌-◌, ◌/◌, ◌≤◌, ◌<◌, ◌≡◌, ◌⊎◌, some, arith, inl, inr, ap, ◌∙◌, ◌∷◌, length,
  ◌==◌, Bool-cases, Option-cases,
}
use solana_governance.Common.Int.{ℤ, pos, negsuc, ◌+ℤ◌, ◌*ℤ◌, pos_part, +ℤ_assoc}
use solana_governance.Chain.Types.{ok, EpochInfo}
use solana_governance.Chain.Flow.{Trace, Env, asked_block_time}
use solana_governance.Chain.Slots.{
  resolved, block_time_loop, block_time_at_or_before, slot_delta, projected_secs, buffer, estimate,
}

module _ (env : Env) where
  block_time_loop_sound :
      (rounds candidate attempts last_tried : ℕ) (tr : Trace) {s : ℕ} {t : ℤ}
      → (block_time_loop env rounds candidate attempts last_tried tr).0 ≡ ok (s, t)
      → (s ≤ candidate)
        × (candidate < s + rounds)
        × ((tr' : Trace) × (resolved (env.get_block_time s tr') ≡ some t))
  unfolding block_time_loop
  block_time_loop_sound zero candidate attempts last_tried tr h = cc
  block_time_loop_sound (suc rounds) candidate attempts last_tried tr {s} {t} h =
      elim (Option-cases (resolved (env.get_block_time candidate tr))) [
        | inr (time, e) ↦ (ground arith, ground arith, (tr, ground arith))
        | inl e ↦
            let later =
              block_time_loop_sound rounds (candidate - 1) (attempts + 1) candidate
                (asked_block_time candidate ∷ tr) {s = s} {t = t} (ground arith) in
            (ground arith, ground arith, later.2)
      ]

  block_time_loop-finds :
      (k : ℕ) (t : ℤ)
      → ((tr : Trace) → resolved (env.get_block_time k tr) ≡ some t)
      → (rounds candidate attempts last_tried : ℕ) (tr : Trace) → k ≤ candidate
      → candidate < k + rounds
      → (r : ℕ × ℤ) × ((block_time_loop env rounds candidate attempts last_tried tr).0 ≡ ok r)
  unfolding block_time_loop
  block_time_loop-finds k t answers zero candidate attempts last_tried tr h l = absurd (omega arith)
  block_time_loop-finds k t answers (suc rounds) candidate attempts last_tried tr h l =
      elim (Option-cases (resolved (env.get_block_time candidate tr))) [
        | inr (time, e) ↦ ((candidate, time), ground arith)
        | inl e ↦ elim (Bool-cases (k == candidate)) [
          | inl same ↦ absurd (ground (arith, answers tr))
          | inr below ↦
              let later =
                block_time_loop-finds k t answers rounds (candidate - 1) (attempts + 1) candidate
                  (asked_block_time candidate ∷ tr) (ground arith) (ground arith) in
              (later.0, ground arith)
        ]
      ]

  block_time_loop-length :
      (rounds candidate attempts last_tried : ℕ) (tr : Trace)
      → length (block_time_loop env rounds candidate attempts last_tried tr).1 ≤ length tr + rounds
  unfolding block_time_loop
  block_time_loop-length zero candidate attempts last_tried tr = omega arith
  block_time_loop-length (suc rounds) candidate attempts last_tried tr = ground (
    arith,
    block_time_loop-length rounds (candidate - 1) (attempts + 1) candidate
        (asked_block_time candidate ∷ tr),
  )

-- A reference that is returned is at the slot or at most 7 below it, and its time is one that the
-- connection gave for it; at most 8 calls are made, whatever the outcome.
pub block_time_at_or_before_sound :
    (env : Env) (slot : ℕ) (tr : Trace) {s : ℕ} {t : ℤ}
    → (block_time_at_or_before env slot tr).0 ≡ ok (s, t)
    → (s ≤ slot)
      × (slot < s + 8)
      × ((tr' : Trace) × (resolved (env.get_block_time s tr') ≡ some t))
      × (length (block_time_at_or_before env slot tr).1 ≤ length tr + 8)
unfolding block_time_at_or_before
block_time_at_or_before_sound env slot tr h =
    let found = block_time_loop_sound env 8 slot 0 slot tr h in
    (found.0, found.1, found.2, block_time_loop-length env 8 slot 0 slot tr)

-- If the slot, or one of the 7 below it, always has a block time, a reference is returned.
pub block_time_at_or_before-finds :
    (env : Env) (slot k : ℕ) (t : ℤ)
    → ((tr : Trace) → resolved (env.get_block_time k tr) ≡ some t)
    → k ≤ slot
    → slot < k + 8
    → (tr : Trace) → (r : ℕ × ℤ) × ((block_time_at_or_before env slot tr).0 ≡ ok r)
unfolding block_time_at_or_before
block_time_at_or_before-finds env slot k t answers h l tr =
    block_time_loop-finds env k t answers 8 slot 0 slot tr h l

forward :
    (n : ℕ)
    → let p = projected_secs (pos n) in
      (c : ℕ) × (p +ℤ buffer p ≡ pos c)
      × (n * 480 ≤ (c + 2) * 1000)
      × ((n * 400 / 1000 ≡ 0) ⊎ (n * 400 / 1000 + 3600 ≤ c))
unfolding projected_secs buffer ◌+ℤ◌ ◌*ℤ◌
forward n = (
  pos_part (projected_secs (pos n) +ℤ buffer (projected_secs (pos n))),
  ground arith,
  ground arith,
  ground arith,
)

-- For an end epoch that starts `n` slots after the reference, the estimate is `c` seconds after the
-- time of the reference, late enough for slots of 480 ms up to 2 seconds of rounding, and at least an
-- hour after the projection at 400 ms, unless this rounds to no time at all.
pub estimate-forward :
    (info : EpochInfo) (end_epoch ref_slot : ℕ) (ref_time : ℤ) (n : ℕ)
    → slot_delta info end_epoch ref_slot ≡ pos n
    → (c : ℕ) × (estimate info end_epoch (ref_slot, ref_time) ≡ ref_time +ℤ pos c)
      × (n * 480 ≤ (c + 2) * 1000)
      × ((n * 400 / 1000 ≡ 0) ⊎ (n * 400 / 1000 + 3600 ≤ c))
unfolding estimate
estimate-forward info end_epoch ref_slot ref_time n h =
    let f = forward n in (f.0, rw h (+ℤ_assoc _ _ _ ∙ ap (λ z. ref_time +ℤ z) f.1), f.2, f.3)

expired :
    (time : ℤ) (n : ℕ)
    → let p = projected_secs (negsuc n) in time +ℤ p +ℤ buffer p +ℤ pos (suc n * 400 / 1000) ≡ time
unfolding projected_secs buffer ◌+ℤ◌ ◌*ℤ◌
expired time n = ground arith

-- For an end epoch that started `n + 1` slots before the reference, the estimate is not after the
-- time of the reference: it lies before it by the whole seconds of those slots at 400 ms.
pub estimate-expired :
    (info : EpochInfo) (end_epoch ref_slot : ℕ) (ref_time : ℤ) (n : ℕ)
    → slot_delta info end_epoch ref_slot ≡ negsuc n
    → estimate info end_epoch (ref_slot, ref_time) +ℤ pos (suc n * 400 / 1000) ≡ ref_time
unfolding estimate
estimate-expired info end_epoch ref_slot ref_time n h = rw h (expired ref_time n)
