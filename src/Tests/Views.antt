-- ===== src/Tests/Views.antt =====
-- The timeline and the texts of times, at concrete inputs.
use solana_governance.Common.{ℕ, ◌-◌, ◌≤◌, ◌<◌, ◌≡◌, ◌≢◌, ◌↔◌, List, [], ◌∷◌, length, arith}
use solana_governance.Common.Int.{pos}
use solana_governance.Lifecycle.{voting}
use solana_governance.PhaseTimeline.{
  passed, current, upcoming, failed_phase, phases, resolve_phase_state,
}
use solana_governance.PhaseTimeline.Connectors.{resolve_phase_state-split}
use solana_governance.Dates.{PerfSample, in_milliseconds, calculate_time_ago}
use solana_governance.Dates.Laws.{Tells, calculate_time_ago-Tells}

resolve_phase_state-split_example :
    ((resolve_phase_state (pos 1) (pos 2) voting ≡ passed) ↔ (1 < 2))
    × ((resolve_phase_state (pos 1) (pos 2) voting ≡ current) ↔ ◌≡◌ {A = ℕ} 1 2)
    × ((resolve_phase_state (pos 1) (pos 2) voting ≡ upcoming) ↔ (2 < 1))
    × (resolve_phase_state (pos 1) (pos 2) voting ≢ failed_phase)
resolve_phase_state-split_example = resolve_phase_state-split 1 2 voting (λ h. cc)

at_least : 3 ≤ length phases
unfolding phases
at_least = omega arith

second : 1 < length phases
unfolding phases
second = omega arith

abbrev samples : List PerfSample
samples =
    record { num_slots = 150; sample_period_secs = 60 }
    ∷ record { num_slots = 0; sample_period_secs = 60 }
    ∷ []

-- 362 days ago
calculate_time_ago-Tells_example :
    Tells
      (calculate_time_ago 1700000000000 1731276800000)
      (1731276800000 - in_milliseconds 1700000000000)
calculate_time_ago-Tells_example =
    calculate_time_ago-Tells 1700000000000 1731276800000 (ground arith)
