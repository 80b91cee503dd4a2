-- ===== src/Quorum.antt =====
-- frontend/src/chain/quorum.ts: participation and vote shares of a proposal. Lamports are natural
-- numbers, percentages exact fractions; `undefined` and `null` are `none`, and `known: false` too.
use solana_governance.Common.{
  ℕ, ◌+◌, ◌*◌, Bool, not, Option, none, some, leb, ltb, ◌==◌, if◌then◌else◌,
}
use solana_governance.Common.Ratio.{Ratio, of_ℕ, div, scale, ratio_leb}
pub mod Laws

abbrev pub quorum_numerator : ℕ
quorum_numerator = 1

abbrev pub quorum_denominator : ℕ
quorum_denominator = 3

pub record QuorumInput : Type 0 where
  pub for_lamports : ℕ
  pub against_lamports : ℕ
  pub abstain_lamports : ℕ
  pub total_active_stake : Option ℕ

pub record KnownQuorum : Type 0 where
  pub total_active_stake : ℕ
  pub participation_percent : Ratio
  pub is_met : Bool

abbrev pub QuorumStatus : Type 0
QuorumStatus = Option KnownQuorum

pub record VoteShares : Type 0 where
  pub for_percent : Ratio
  pub against_percent : Ratio
  pub abstain_percent : Ratio

abbrev pub VotePercentageBreakdown : Type 0
VotePercentageBreakdown = Option VoteShares

pub record ProposalVoteStats : Type 0 where
  pub quorum : QuorumStatus
  pub vote_share : VotePercentageBreakdown
  pub stake_share : VotePercentageBreakdown

-- the sum that both computations take
abbrev pub participating_lamports : QuorumInput → ℕ
participating_lamports input = input.for_lamports + input.against_lamports + input.abstain_lamports

-- the body behind the guard, at a positive total
abbrev pub quorum_of : QuorumInput → ℕ → KnownQuorum
quorum_of input total = record {
  total_active_stake = total;
  participation_percent = scale (div (participating_lamports input) total) 100;
  is_met =
      ratio_leb (div (total * quorum_numerator) quorum_denominator)
        (of_ℕ (participating_lamports input));
}

-- `undefined` or `<= 0` is not known
unfoldable pub compute_quorum : QuorumInput → QuorumStatus
compute_quorum input = elim input.total_active_stake [
  | none ↦ none
  | some total ↦ if leb total 0 then none else some (quorum_of input total)
]

-- each option against one total
abbrev pub shares_of : QuorumInput → ℕ → VoteShares
shares_of input total = record {
  for_percent = scale (div input.for_lamports total) 100;
  against_percent = scale (div input.against_lamports total) 100;
  abstain_percent = scale (div input.abstain_lamports total) 100;
}

unfoldable pub compute_proposal_vote_stats : QuorumInput → ProposalVoteStats
unfolding compute_quorum
compute_proposal_vote_stats input = record {
  quorum = compute_quorum input;
  vote_share =
      if ltb 0 (participating_lamports input)
      then some (shares_of input (participating_lamports input))
      else none;
  stake_share = elim (compute_quorum input) [
    | none ↦ none
    | some known ↦ some (shares_of input known.total_active_stake)
  ];
}

pub record SnapshotTotalSource : Type 0 where
  pub slot : ℕ
  pub total_active_stake : Option ℕ

-- `!proposalSnapshotSlot` holds of `undefined` and of 0
unfoldable pub resolve_quorum_denominator : Option SnapshotTotalSource → Option ℕ → Option ℕ
resolve_quorum_denominator none proposal_slot = none
resolve_quorum_denominator (some meta) none = none
resolve_quorum_denominator (some meta) (some proposal_slot) =
    if proposal_slot == 0
    then none
    else if not (meta.slot == proposal_slot)
    then none
    else meta.total_active_stake
