-- ===== src/Tests/Status.antt =====
-- frontend/src/lib/proposals.ts at a proposal.
use solana_governance.Common.{◌≤◌, ◌≡◌, ◌↔◌, ◌⊎◌, true, false, Option, none, some, arith}
use solana_governance.Lifecycle.{
  discussion, voting, EpochConstants, ProposalPhaseAnchors, GetProposalStatusParams,
  get_proposal_status,
}
use solana_governance.Lifecycle.Laws.{HasEnded, get_proposal_status-voting_iff}
use solana_governance.Lifecycle.Progress.{at_epoch, rank, ◌⟶◌, get_proposal_status-⟶}

abbrev epochs : EpochConstants
epochs = record {
  support_epochs = 7;
  discussion_epochs = 4;
  snapshot_epochs = 1;
  voting_epochs = 3;
}

-- created at epoch 800, its support not yet counted
abbrev young : GetProposalStatusParams
young = record {
  creation_epoch = 800;
  start_epoch = 0;
  end_epoch = 0;
  current_epoch = 808;
  cluster_support_lamports = 15;
  total_staked_lamports = 100;
  cluster_support_pct_min_bps = 1500;
  consensus_result = none;
  finalized = false;
  voting = false;
  epoch_constants = epochs;
}

-- its vote is on
abbrev voted : GetProposalStatusParams
voted = record young {
  start_epoch = 813;
  end_epoch = 816;
  current_epoch = 814;
  consensus_result = some "consensus";
  voting = true;
}

young_discussed : get_proposal_status young ≡ discussion
unfolding get_proposal_status
young_discussed = ground arith

voting_iff_example : (get_proposal_status voted ≡ voting) ↔ (
    (false ≡ false)
    × (true ≡ true)
    × (800 ≤ 814)
    × (813 ≤ 814)
    × (true ≡ true)
    × (¬ HasEnded voted))
voting_iff_example = get_proposal_status-voting_iff voted

abbrev anchors : Option ProposalPhaseAnchors
anchors = some (record { voting = true; start_epoch = 813 })

young_failed : rank (get_proposal_status (at_epoch 809 young)) ≡ 3
unfolding get_proposal_status
young_failed = ground arith

steps_example :
    (get_proposal_status (at_epoch 809 young) ≡ get_proposal_status (at_epoch 808 young))
    ⊎ (get_proposal_status (at_epoch 808 young) ⟶ get_proposal_status (at_epoch 809 young))
steps_example = get_proposal_status-⟶ young 808 (omega arith)
