-- ===== src/Tests/Figures.antt =====
-- frontend/src/chain/quorum.ts, the figures of the support phase and the split of a vote, at numbers.
use solana_governance.Common.{
  ◌*◌, ◌^◌, leb, ◌≤◌, ◌<◌, ◌≡◌, ◌⊎◌, refl, true, false, none, some, List, [], ◌∷◌, arith,
}
use solana_governance.Common.Ratio.{of_ℕ}
use solana_governance.Common.Text.{text}
use solana_governance.Lifecycle.{GovernanceConfigDto, GetProposalStatusParams}
use solana_governance.Quorum.{
  QuorumInput, KnownQuorum, SnapshotTotalSource, quorum_of, compute_quorum,
}
use solana_governance.SupportStats.{SupportStatsInput}
use solana_governance.VoteDistribution.{
  VoteDistribution, for, against, abstain, total, take_excess, adjust_distribution, Event,
  option_change, quick_select, run,
}
use solana_governance.VoteDistribution.Laws.{
  IsWholeSplit, adjust_distribution-fits, run-IsWholeSplit,
}
use solana_governance.VoteDistribution.Whole.{
  Percentages, sum, doubles, percentage, with_percentage,
}
use solana_governance.Common.Double.{
  plus, minus, round, spacing, spacing_from, precision, one, integer,
}

-- 40 of 90 voted
abbrev some_votes : QuorumInput
some_votes = record {
  for_lamports = 20;
  against_lamports = 15;
  abstain_lamports = 5;
  total_active_stake = some 90;
}

abbrev more_votes : QuorumInput
more_votes = record some_votes { against_lamports = 25 }

abbrev known : KnownQuorum
known = quorum_of some_votes 90

votes_known : compute_quorum some_votes ≡ some known
unfolding compute_quorum
votes_known = refl

abbrev served : SnapshotTotalSource
served = record { slot = 900; total_active_stake = some 90 }

-- 10 percent of the stake supports, 15 are needed
abbrev support : SupportStatsInput
support = record {
  current_support_lamports = 100;
  total_staked_lamports = 1000;
  threshold_percent = of_ℕ 15;
  validator_count = 3;
  num_of_validators = 30;
  threshold_crossed = false;
}

abbrev crossed : SupportStatsInput
crossed = record support { threshold_crossed = true }

abbrev config : GovernanceConfigDto
config = record {
  admin = "admin";
  max_title_length = 50;
  max_description_length = 250;
  max_support_epochs = 7;
  min_proposal_stake_lamports = 1;
  cluster_support_pct_min_bps = 1500;
  discussion_epochs = 4;
  voting_epochs = 3;
  snapshot_epoch_extension = 1;
  snapshot_slot_offset = 1000;
  max_supporters = 2000;
  bump = 255;
}

abbrev proposal : GetProposalStatusParams
proposal = record {
  creation_epoch = 800;
  start_epoch = 0;
  end_epoch = 0;
  current_epoch = 808;
  cluster_support_lamports = 149;
  total_staked_lamports = 1000;
  cluster_support_pct_min_bps = 1500;
  consensus_result = none;
  finalized = false;
  voting = false;
  epoch_constants = record {
    support_epochs = 7;
    discussion_epochs = 4;
    snapshot_epochs = 1;
    voting_epochs = 3;
  };
}

abbrev half : Percentages
half = record { for_percent = 50; against_percent = 30; abstain_percent = 20 }

adjust_distribution-fits_example :
    let given = with_percentage abstain 80 half in
    (q : Percentages) × (adjust_distribution (doubles half) abstain (integer 80) ≡ doubles q)
    × (percentage abstain q ≡ 80)
    × (sum q ≤ 100)
    × (((sum given ≤ 100) × (q ≡ given)) ⊎ ((100 < sum given) × (sum q ≡ 100)))
    × (q.for_percent ≤ given.for_percent)
    × (q.against_percent ≤ given.against_percent)
    × (q.abstain_percent ≤ given.abstain_percent)
adjust_distribution-fits_example =
    adjust_distribution-fits half abstain 80 (omega arith) (omega arith)

abbrev inputs : List Event
inputs = quick_select against ∷ option_change abstain (text " 040.9%") ∷ []

run-IsWholeSplit_example : IsWholeSplit (run (doubles half) inputs)
run-IsWholeSplit_example =
    run-IsWholeSplit (doubles half) inputs (half, refl, omega arith) (tt, (tt, tt))

-- the double with `m / 2 ^ e`, for the stored basis points 5786, 1489, 2725 over 100
abbrev stored : VoteDistribution
stored = record {
  for_share = 8143071076239278 * 2 ^ 1027;
  against_share = 8382324806443336 * 2 ^ 1025;
  abstain_share = 7670193115365376 * 2 ^ 1026;
}

-- doubles that are not whole may come to more than the whole
exceeds : leb (total (adjust_distribution stored for (integer 97))) (integer 100) ≡ false
unfolding adjust_distribution take_excess plus minus round spacing spacing_from precision one
    integer
exceeds = refl
