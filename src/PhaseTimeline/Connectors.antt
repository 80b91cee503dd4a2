-- ===== src/PhaseTimeline/Connectors.antt =====
-- The states and the connectors of frontend/src/components/proposals/detail/phase-timeline.
use solana_governance.Common.{ℕ, suc, ◌≤◌, ◌<◌, ◌≡◌, ◌≢◌, ◌↔◌, ◌⊎◌, Bool, true, false, arith}
use solana_governance.Common.Int.{ℤ, pos}
use solana_governance.Lifecycle.{ProposalStatus, failed, finalized}
use solana_governance.PhaseTimeline.{
  passed, current, upcoming, failed_phase, ConnectorVariant, complete, not_yet, resolve_phase_state,
  resolve_connector_variant, should_animate_connector,
}

-- On a timeline that has not failed, with its current phase in range, a phase is passed exactly
-- before the current one, current exactly at it, upcoming exactly after it, and never failed.
pub resolve_phase_state-split :
    (i c : ℕ) (status : ProposalStatus)
    → status ≢ failed
    → let state = resolve_phase_state (pos i) (pos c) status in
      ((state ≡ passed) ↔ (i < c))
      × ((state ≡ current) ↔ (i ≡ c))
      × ((state ≡ upcoming) ↔ (c < i))
      × (state ≢ failed_phase)
unfolding resolve_phase_state
resolve_phase_state-split i c status h = (
  (λ e. ground arith, λ e. ground arith),
  (λ e. ground arith, λ e. ground arith),
  (λ e. ground arith, λ e. ground arith),
  λ e. ground arith,
)

-- the connector between a phase and the next
abbrev pub connector : (i : ℕ) → ℤ → ProposalStatus → ConnectorVariant
connector i c status =
    resolve_connector_variant (resolve_phase_state (pos i) c status)
      (resolve_phase_state (pos (suc i)) c status)

-- On a timeline that has not failed, with its current phase in range, the connector behind a phase is
-- complete exactly before the current phase and upcoming from it on, so it never flows; and it is
-- animated exactly before the current phase, unless the current phase given is the last and the
-- proposal is finalized.
pub connector-split :
    (i c : ℕ) (status current_phase : ProposalStatus) (is_done : Bool)
    → status ≢ failed
    → let variant = connector i (pos c) status in
      ((variant ≡ complete) ↔ (i < c))
      × ((variant ≡ not_yet) ↔ (c ≤ i))
      × ((should_animate_connector variant (pos i) current_phase is_done (pos c) ≡ true)
          ↔ ((i < c) × ((current_phase ≢ finalized) ⊎ (is_done ≡ false))))
unfolding resolve_phase_state resolve_connector_variant should_animate_connector
connector-split i c status current_phase is_done h = (
  (λ e. ground arith, λ e. ground arith),
  (λ e. ground arith, λ e. ground arith),
  (λ e. ground arith, λ e. ground arith),
)

-- A failed proposal shows the failure at the first phase and nowhere else, no phase is current or
-- passed, and every connector is upcoming and still, whatever the current phase.
pub connector-failed :
    (i : ℕ) (c : ℤ) (current_phase : ProposalStatus) (is_done : Bool)
    → ((resolve_phase_state (pos i) c failed ≡ failed_phase) ↔ (i ≡ 0))
      × ((resolve_phase_state (pos i) c failed ≡ upcoming) ↔ (i ≢ 0))
      × (connector i c failed ≡ not_yet)
      × (should_animate_connector (connector i c failed) (pos i) current_phase is_done c ≡ false)
unfolding resolve_phase_state resolve_connector_variant should_animate_connector
connector-failed i c current_phase is_done = (
  (λ e. ground arith, λ e. ground arith),
  (λ e. ground arith, λ e. ground arith),
  ground arith,
  ground arith,
)
