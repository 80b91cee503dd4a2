-- ===== src/Lifecycle/Laws.antt =====
-- Laws of the phases and the status of frontend/src/lib/proposals.ts.
use solana_governance.Common.{ℕ, ◌+◌, ◌*◌, ◌≤◌, ◌<◌, ◌≡◌, ◌≢◌, ◌↔◌, ◌⊎◌, true, false, Option, arith}
use solana_governance.Lifecycle.{
  supporting, discussion, voting, finalized, GetProposalStatusParams, is_set,
  get_proposal_phase_epochs, get_proposal_status, EpochConstants, ProposalPhaseAnchors,
  support_succeeded, anchored_start,
}

abbrev pub HasEnded : GetProposalStatusParams → Type 0
HasEnded p = (p.end_epoch ≤ p.current_epoch) × (p.end_epoch ≢ 0)

-- The status is `voting` exactly when the proposal is not finalized, its support succeeded, the
-- creation and start epochs are reached, a consensus result is set and the end epoch is not reached.
pub get_proposal_status-voting_iff :
    (p : GetProposalStatusParams)
    → (get_proposal_status p ≡ voting) ↔ (
        (p.finalized ≡ false)
        × (p.voting ≡ true)
        × (p.creation_epoch ≤ p.current_epoch)
        × (p.start_epoch ≤ p.current_epoch)
        × (is_set p.consensus_result ≡ true)
        × (¬ HasEnded p))
unfolding get_proposal_status
get_proposal_status-voting_iff p = ground arith

-- The status is `finalized` exactly when the account says so, or when the support succeeded and the
-- end epoch, once set, is reached.
pub get_proposal_status-finalized_iff :
    (p : GetProposalStatusParams)
    → (get_proposal_status p ≡ finalized)
      ↔ ((p.finalized ≡ true) ⊎ ((p.voting ≡ true) × HasEnded p))
unfolding get_proposal_status
get_proposal_status-finalized_iff p = (λ h. ground arith, λ h. ground arith)

-- the epoch at whose start the support is counted
abbrev pub support_end : GetProposalStatusParams → ℕ
support_end p = p.creation_epoch + p.epoch_constants.support_epochs + 1

-- A proposal that is not finalized and whose support has not succeeded on chain is `supporting`
-- exactly before the end of the support phase, is `discussion` exactly at that epoch with the
-- threshold met in lamports (both only if the end epoch is not reached), and is never `voting` or
-- `finalized`; in all other cases it is `failed`.
pub get_proposal_status-unsupported :
    (p : GetProposalStatusParams)
    → p.finalized ≡ false
    → p.voting ≡ false
    → ((get_proposal_status p ≡ supporting) ↔ ((p.current_epoch < support_end p) × (¬ HasEnded p)))
      × ((get_proposal_status p ≡ discussion) ↔ (
          (p.current_epoch ≡ support_end p)
          × (p.total_staked_lamports * p.cluster_support_pct_min_bps
              ≤ p.cluster_support_lamports * 10000)
          × (¬ HasEnded p)))
      × (get_proposal_status p ≢ voting)
      × (get_proposal_status p ≢ finalized)
unfolding get_proposal_status
get_proposal_status-unsupported p f v = (
  (λ h. ground arith, λ h. ground arith),
  (λ h. ground arith, λ h. ground arith),
  λ h. ground arith,
  λ h. ground arith,
)

-- With no anchors, or anchors that do not apply, the phases follow one another: support, then
-- discussion from its end, then the snapshot after the discussion, and each lasts as many epochs as
-- configured. Anchors that apply move the ends of the discussion and of the snapshot phase to the
-- voting start on chain, and leave the support phase alone.
pub get_proposal_phase_epochs-ordered :
    (creation : ℕ) (epochs : EpochConstants) (on_chain : Option ProposalPhaseAnchors)
    → let phases = get_proposal_phase_epochs creation epochs on_chain in
      (phases.support_start_epoch < phases.support_end_epoch)
      × (phases.support_end_epoch ≡ phases.support_start_epoch + epochs.support_epochs + 1)
      × (phases.discussion_start_epoch ≡ phases.support_end_epoch)
      × (((support_succeeded on_chain ≡ false)
            × (phases.discussion_end_epoch
                ≡ phases.discussion_start_epoch + epochs.discussion_epochs)
            × (phases.snapshot_epoch ≡ phases.discussion_end_epoch + epochs.snapshot_epochs))
          ⊎ ((support_succeeded on_chain ≡ true)
              × (phases.discussion_end_epoch ≡ anchored_start on_chain)
              × (phases.snapshot_epoch ≡ anchored_start on_chain)))
unfolding get_proposal_phase_epochs
get_proposal_phase_epochs-ordered creation epochs on_chain = ground arith
