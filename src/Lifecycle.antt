-- ===== src/Lifecycle.antt =====
-- frontend/src/lib/proposals.ts: the phases of a proposal and its status at an epoch, from the
-- on-chain account and the GlobalConfig. Epochs and lamports are natural numbers; the key of the
-- consensus result is its text, of which only the presence counts.
use Prim.Native.String.{String}
use solana_governance.Common.{
  ℕ, ◌+◌, ◌*◌, Bool, true, false, not, ◌&&◌, Option, none, some, ltb, leb, ◌==◌, if◌then◌else◌,
}
use solana_governance.Common.Ratio.{Ratio, of_ℕ, div, scale, ratio_leb}
pub mod Laws
pub mod Progress

pub data ProposalStatus : Type 0 where
  supporting discussion voting finalized failed : ProposalStatus

pub record GovernanceConfigDto : Type 0 where
  pub admin : String
  pub max_title_length : ℕ
  pub max_description_length : ℕ
  pub max_support_epochs : ℕ
  pub min_proposal_stake_lamports : ℕ
  pub cluster_support_pct_min_bps : ℕ
  pub discussion_epochs : ℕ
  pub voting_epochs : ℕ
  pub snapshot_epoch_extension : ℕ
  pub snapshot_slot_offset : ℕ
  pub max_supporters : ℕ
  pub bump : ℕ

pub record EpochConstants : Type 0 where
  pub support_epochs : ℕ
  pub discussion_epochs : ℕ
  pub snapshot_epochs : ℕ
  pub voting_epochs : ℕ

unfoldable pub epoch_constants_from_governance_config : GovernanceConfigDto → EpochConstants
epoch_constants_from_governance_config dto = record {
  support_epochs = dto.max_support_epochs;
  discussion_epochs = dto.discussion_epochs;
  snapshot_epochs = dto.snapshot_epoch_extension;
  voting_epochs = dto.voting_epochs;
}

abbrev pub default_support_threshold_percent : ℕ
default_support_threshold_percent = 15

unfoldable pub support_threshold_percent_from_config : Option GovernanceConfigDto → Ratio
support_threshold_percent_from_config none = of_ℕ default_support_threshold_percent
support_threshold_percent_from_config (some dto) = div dto.cluster_support_pct_min_bps 100

pub record ProposalPhaseEpochs : Type 0 where
  pub support_start_epoch : ℕ
  pub support_end_epoch : ℕ
  pub phase_base_epoch : ℕ
  pub discussion_start_epoch : ℕ
  pub discussion_end_epoch : ℕ
  pub snapshot_epoch : ℕ

pub record ProposalPhaseAnchors : Type 0 where
  pub voting : Bool
  pub start_epoch : ℕ

-- `onChain?.voting && onChain.startEpoch > 0`
abbrev pub support_succeeded : Option ProposalPhaseAnchors → Bool
support_succeeded none = false
support_succeeded (some on_chain) = on_chain.voting && ltb 0 on_chain.start_epoch

-- `onChain.startEpoch`, read only where the anchors are given
abbrev pub anchored_start : Option ProposalPhaseAnchors → ℕ
anchored_start none = 0
anchored_start (some on_chain) = on_chain.start_epoch

unfoldable pub get_proposal_phase_epochs :
    ℕ → EpochConstants → Option ProposalPhaseAnchors → ProposalPhaseEpochs
get_proposal_phase_epochs creation_epoch epochs on_chain =
    let support_end = creation_epoch + epochs.support_epochs + 1 in
    let projected : ProposalPhaseEpochs = record {
      support_start_epoch = creation_epoch;
      support_end_epoch = support_end;
      phase_base_epoch = support_end;
      discussion_start_epoch = support_end;
      discussion_end_epoch = support_end + epochs.discussion_epochs;
      snapshot_epoch = support_end + epochs.discussion_epochs + epochs.snapshot_epochs;
    } in
    if support_succeeded on_chain
    then record projected {
      discussion_end_epoch = anchored_start on_chain;
      snapshot_epoch = anchored_start on_chain;
    }
    else projected

pub record GetProposalStatusParams : Type 0 where
  pub creation_epoch : ℕ
  pub start_epoch : ℕ
  pub end_epoch : ℕ
  pub current_epoch : ℕ
  pub cluster_support_lamports : ℕ
  pub total_staked_lamports : ℕ
  pub cluster_support_pct_min_bps : ℕ
  pub consensus_result : Option String
  pub finalized : Bool
  pub voting : Bool
  pub epoch_constants : EpochConstants

-- the truth value of `consensusResult`, an object or `undefined`
abbrev pub is_set {ℓ} : {A : Type ℓ} → Option A → Bool
is_set none = false
is_set (some a) = true

-- the threshold check at the end of the support phase
unfoldable pub support_threshold_met : GetProposalStatusParams → Bool
support_threshold_met p =
    ratio_leb (scale (div p.cluster_support_pct_min_bps 10000) p.total_staked_lamports)
      (of_ℕ p.cluster_support_lamports)

unfoldable pub get_proposal_status : GetProposalStatusParams → ProposalStatus
unfolding get_proposal_phase_epochs support_threshold_met
get_proposal_status p =
    if p.finalized
    then finalized
    else if leb p.end_epoch p.current_epoch && not (p.end_epoch == 0)
    then if not p.voting then failed else finalized
    else let phases = get_proposal_phase_epochs p.creation_epoch p.epoch_constants none in
      let voting_start_epoch = if p.voting then p.start_epoch else phases.snapshot_epoch + 1 in
      if ltb p.current_epoch phases.support_start_epoch
      then supporting
      else if p.voting
      then if ltb p.current_epoch voting_start_epoch
        then discussion
        else if is_set p.consensus_result
        then voting
        else discussion
      else if p.current_epoch == phases.support_start_epoch
      then supporting
      else if ltb p.current_epoch phases.support_end_epoch
      then supporting
      else if p.current_epoch == phases.support_end_epoch
      then if not (support_threshold_met p) then failed else discussion
      else if leb phases.discussion_start_epoch p.current_epoch
          && leb p.current_epoch phases.discussion_end_epoch
      then failed
      else if ltb phases.discussion_end_epoch p.current_epoch
      then failed
      else supporting
