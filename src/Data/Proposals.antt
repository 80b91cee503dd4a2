-- ===== src/Data/Proposals.antt =====
-- frontend/src/data/getProposals.ts: the list of proposals. Lamports are natural numbers, and `toNumber`,
-- which throws for what is not exact, is an argument. The summary counts are those of the hooks
-- useSummaryStats.ts and useProposalOverviewStats.ts.
use Prim.Native.String.{String}
use solana_governance.Common.{
  ℕ, suc, ◌+◌, Bool, true, false, not, ◌&&◌, ◌||◌, Option, none, some, List, [], ◌∷◌, length,
  if◌then◌else◌,
}
use solana_governance.Common.Int.{ℤ, pos, ltb_ℤ}
use solana_governance.Common.Text.{Text}
use solana_governance.Common.Sort.{sort}
use solana_governance.Common.Sort.Laws.{keep}
use solana_governance.Github.Platform.{Platform, ◌>>=◌}
use solana_governance.Github.FileName.{ProposalRef}
use solana_governance.Github.Url.{get_proposal_ref_from_url}
use solana_governance.Lifecycle.{
  ProposalStatus, supporting, discussion, voting, finalized, failed, GovernanceConfigDto,
  EpochConstants, epoch_constants_from_governance_config, get_proposal_status,
}
use solana_governance.Data.Config.{number_or_zero}
pub mod Order

-- the account, with the optional integers that the mapping allows for
pub record ProposalAccountData : Type 0 where
  pub author : String
  pub title : String
  pub description : Text
  pub creation_epoch : ℕ
  pub start_epoch : ℕ
  pub end_epoch : ℕ
  pub proposer_stake_weight_bp : Option ℕ
  pub cluster_support_lamports : Option ℕ
  pub for_votes_lamports : Option ℕ
  pub against_votes_lamports : Option ℕ
  pub abstain_votes_lamports : Option ℕ
  pub voting : Bool
  pub finalized : Bool
  pub proposal_bump : ℕ
  pub creation_timestamp : Option ℤ
  pub vote_count : ℕ
  pub index : ℕ
  pub snapshot_slot : ℕ
  pub consensus_result : Option String

pub record RawProposalAccount : Type 0 where
  pub account : ProposalAccountData
  pub public_key : String

-- without the text of `vote`; the `id` is the index that it is made from
pub record ProposalRecord : Type 0 where
  pub public_key : String
  pub id : ℕ
  pub proposal_ref : Option ProposalRef
  pub title : String
  pub description : Text
  pub author : String
  pub creation_epoch : ℕ
  pub start_epoch : ℕ
  pub end_epoch : ℕ
  pub creation_timestamp : ℤ
  pub cluster_support_lamports : ℕ
  pub for_votes_lamports : ℕ
  pub against_votes_lamports : ℕ
  pub abstain_votes_lamports : ℕ
  pub vote_count : ℕ
  pub proposer_stake_weight_bp : ℕ
  pub status : ProposalStatus
  pub voting : Bool
  pub finalized : Bool
  pub consensus_result : Option String
  pub snapshot_slot : ℕ
  pub proposal_bump : ℕ
  pub index : ℕ

pub record Filters : Type 0 where
  pub voting : Option Bool
  pub finalized : Option Bool

pub record Clock : Type 0 where
  pub current_epoch : ℕ
  pub total_staked_lamports : ℕ

-- what `toNumber` gives of an integer, and of a signed one
pub record ToNumber : Type 0 where
  pub natural : ℕ → Option ℕ
  pub signed : ℤ → Option ℤ

-- `x?.toNumber() || 0`
abbrev pub natural_or_zero : ToNumber → Option ℕ → Option ℕ
natural_or_zero to none = some 0
natural_or_zero to (some n) = to.natural n

abbrev pub signed_or_zero : ToNumber → Option ℤ → Option ℤ
signed_or_zero to none = some (pos 0)
signed_or_zero to (some n) = to.signed n

-- the stakes of the current vote accounts; a missing one counts 0
unfoldable pub total_stake : List (Option ℕ) → ℕ
total_stake [] = 0
total_stake (stake ∷ stakes) = number_or_zero stake + total_stake stakes

module _ (platform : Platform) (to : ToNumber) (clock : Clock) (config : GovernanceConfigDto) where
  unfoldable pub map_proposal_dto : RawProposalAccount → ℕ → Option ProposalRecord
  unfolding get_proposal_status epoch_constants_from_governance_config get_proposal_ref_from_url
  map_proposal_dto raw_account id = do
    let raw = raw_account.account
    creation_epoch ← to.natural raw.creation_epoch
    start_epoch ← to.natural raw.start_epoch
    end_epoch ← to.natural raw.end_epoch
    let cluster_support_lamports = number_or_zero raw.cluster_support_lamports
    let status = get_proposal_status (record {
      creation_epoch = creation_epoch;
      start_epoch = start_epoch;
      end_epoch = end_epoch;
      current_epoch = clock.current_epoch;
      cluster_support_lamports = cluster_support_lamports;
      total_staked_lamports = clock.total_staked_lamports;
      cluster_support_pct_min_bps = config.cluster_support_pct_min_bps;
      consensus_result = raw.consensus_result;
      finalized = raw.finalized;
      voting = raw.voting;
      epoch_constants = epoch_constants_from_governance_config config;
    })
    creation_timestamp ← signed_or_zero to raw.creation_timestamp
    proposer_stake_weight_bp ← natural_or_zero to raw.proposer_stake_weight_bp
    snapshot_slot ← to.natural raw.snapshot_slot
    some (record {
      public_key = raw_account.public_key;
      id = id;
      proposal_ref = get_proposal_ref_from_url platform raw.description;
      title = raw.title;
      description = raw.description;
      author = raw.author;
      creation_epoch = creation_epoch;
      start_epoch = start_epoch;
      end_epoch = end_epoch;
      creation_timestamp = creation_timestamp;
      cluster_support_lamports = cluster_support_lamports;
      for_votes_lamports = number_or_zero raw.for_votes_lamports;
      against_votes_lamports = number_or_zero raw.against_votes_lamports;
      abstain_votes_lamports = number_or_zero raw.abstain_votes_lamports;
      vote_count = raw.vote_count;
      proposer_stake_weight_bp = proposer_stake_weight_bp;
      status = status;
      voting = raw.voting;
      finalized = raw.finalized;
      consensus_result = raw.consensus_result;
      snapshot_slot = snapshot_slot;
      proposal_bump = raw.proposal_bump;
      index = raw.index;
    })

  -- the accounts from an index on
  unfoldable pub map_from : ℕ → List RawProposalAccount → Option (List ProposalRecord)
  unfolding map_proposal_dto
  map_from id [] = some []
  map_from id (raw ∷ raws) = do
    first ← map_proposal_dto raw id
    others ← map_from (suc id) raws
    some (first ∷ others)

-- `proposal.voting === filters.voting`, for a filter that is set
abbrev pub agrees : Option Bool → Bool → Bool
agrees none b = true
agrees (some true) b = b
agrees (some false) b = not b

-- the two filters, one after the other
unfoldable pub filtered : Option Filters → List ProposalRecord → List ProposalRecord
unfolding keep
filtered none records = records
filtered (some filters) records =
    keep (λ p. agrees filters.finalized p.finalized)
      (keep (λ p. agrees filters.voting p.voting) records)

-- `b.creationTimestamp - a.creationTimestamp` is not above 0
abbrev pub not_older : ProposalRecord → ProposalRecord → Bool
not_older a b = not (ltb_ℤ a.creation_timestamp b.creation_timestamp)

unfoldable pub listed : Option Filters → List ProposalRecord → List ProposalRecord
unfolding sort filtered
listed filters records = sort not_older (filtered filters records)

unfoldable pub get_proposals :
    Platform
    → ToNumber
    → Option Filters
    → (current_epoch : ℕ) → (stakes : List (Option ℕ)) → GovernanceConfigDto
    → List RawProposalAccount
    → Option (List ProposalRecord)
unfolding map_from listed total_stake
get_proposals platform to filters current_epoch stakes config accounts = do
  records ←
      map_from platform to
        (record { current_epoch = current_epoch; total_staked_lamports = total_stake stakes })
        config 0 accounts
  some (listed filters records)

pub record SummaryStatsData : Type 0 where
  pub total : ℕ
  pub active : ℕ
  pub finalized : ℕ

abbrev pub is_voting : ProposalStatus → Bool
is_voting voting = true
is_voting _ = false

abbrev pub is_supporting : ProposalStatus → Bool
is_supporting supporting = true
is_supporting _ = false

abbrev pub is_finalized : ProposalStatus → Bool
is_finalized finalized = true
is_finalized _ = false

-- before the proposals are known, all counts are 0, as they are of no proposals
unfoldable pub summary_stats : List ProposalRecord → SummaryStatsData
unfolding keep
summary_stats proposals = record {
  total = length proposals;
  active = length (keep (λ p. is_supporting p.status || is_voting p.status) proposals);
  finalized = length (keep (λ p. is_finalized p.status) proposals);
}
