-- ===== src/Lifecycle/Progress.antt =====
-- The status of frontend/src/lib/proposals.ts as the epochs pass, the account and the configuration unchanged.
use solana_governance.Common.{ℕ, ◌+◌, ◌≤◌, ◌≡◌, ◌⊎◌, refl, Bool, true, false, arith, inl, inr}
use solana_governance.Lifecycle.{
  ProposalStatus, supporting, discussion, voting, finalized, failed, GetProposalStatusParams,
  get_proposal_status,
}

-- the same proposal, seen at another epoch
abbrev pub at_epoch : ℕ → GetProposalStatusParams → GetProposalStatusParams
at_epoch e p = record p { current_epoch = e }

-- the position of a status in the lifecycle; both terminal states stand last
abbrev pub rank : ProposalStatus → ℕ
rank supporting = 0
rank discussion = 1
rank voting = 2
rank finalized = 3
rank failed = 3

-- the diagram of the lifecycle
infix 40 ◌⟶◌
pub data ◌⟶◌ : ProposalStatus → ProposalStatus → Type 0 where
  support_reached : supporting ⟶ discussion
  support_missed : supporting ⟶ failed
  never_activated : discussion ⟶ failed
  snapshot_ready : discussion ⟶ voting
  window_missed : discussion ⟶ finalized
  window_closed : voting ⟶ finalized

-- As the epochs pass, with the account and the configuration unchanged, the status never moves back
-- in the lifecycle supporting, discussion, voting, finalized or failed.
pub get_proposal_status-rank_mono :
    (p : GetProposalStatusParams) (e e' : ℕ)
    → e ≤ e'
    → rank (get_proposal_status (at_epoch e p)) ≤ rank (get_proposal_status (at_epoch e' p))
unfolding get_proposal_status
get_proposal_status-rank_mono p e e' h = ground arith

-- With the account and the configuration unchanged, a proposal that is finalized or failed at an
-- epoch has the same status at every later one.
pub get_proposal_status-terminal_absorbs :
    (p : GetProposalStatusParams) (e e' : ℕ)
    → e ≤ e'
    → rank (get_proposal_status (at_epoch e p)) ≡ 3
    → get_proposal_status (at_epoch e' p) ≡ get_proposal_status (at_epoch e p)
unfolding get_proposal_status
get_proposal_status-terminal_absorbs p e e' h t = ground arith

-- the diagram as a test, with staying put
stays_or_steps : ProposalStatus → ProposalStatus → Bool
stays_or_steps supporting voting = false
stays_or_steps supporting finalized = false
stays_or_steps supporting _ = true
stays_or_steps discussion supporting = false
stays_or_steps discussion _ = true
stays_or_steps voting voting = true
stays_or_steps voting finalized = true
stays_or_steps voting _ = false
stays_or_steps finalized finalized = true
stays_or_steps finalized _ = false
stays_or_steps failed failed = true
stays_or_steps failed _ = false

stays_or_steps-⟶ : (s t : ProposalStatus) → stays_or_steps s t ≡ true → (t ≡ s) ⊎ (s ⟶ t)
unfolding stays_or_steps
stays_or_steps-⟶ supporting supporting h = inl refl
stays_or_steps-⟶ supporting discussion h = inr support_reached
stays_or_steps-⟶ supporting failed h = inr support_missed
stays_or_steps-⟶ discussion discussion h = inl refl
stays_or_steps-⟶ discussion failed h = inr never_activated
stays_or_steps-⟶ discussion voting h = inr snapshot_ready
stays_or_steps-⟶ discussion finalized h = inr window_missed
stays_or_steps-⟶ voting voting h = inl refl
stays_or_steps-⟶ voting finalized h = inr window_closed
stays_or_steps-⟶ finalized finalized h = inl refl
stays_or_steps-⟶ failed failed h = inl refl
stays_or_steps-⟶ _ _ h = cc

get_proposal_status-steps :
    (p : GetProposalStatusParams) (e : ℕ)
    → p.creation_epoch ≤ e
    → stays_or_steps (get_proposal_status (at_epoch e p)) (get_proposal_status (at_epoch (e + 1) p))
      ≡ true
unfolding get_proposal_status stays_or_steps
get_proposal_status-steps p e h = ground arith

-- From one epoch to the next, from the creation epoch on and with the account and the configuration
-- unchanged, the status stays or takes one step of the lifecycle's diagram: the support is reached or
-- missed, the discussion ends in a vote, in a failure or after the voting window, or the vote ends.
pub get_proposal_status-⟶ :
    (p : GetProposalStatusParams) (e : ℕ)
    → p.creation_epoch ≤ e
    → (get_proposal_status (at_epoch (e + 1) p) ≡ get_proposal_status (at_epoch e p))
      ⊎ (get_proposal_status (at_epoch e p) ⟶ get_proposal_status (at_epoch (e + 1) p))
get_proposal_status-⟶ p e h = stays_or_steps-⟶ _ _ (get_proposal_status-steps p e h)
