-- ===== src/Tests/Data.antt =====
-- What is read from the chain, reports of errors and the creation of a proposal, at concrete inputs.
use Prim.Native.String.{String}
use solana_governance.Common.{ℕ, ◌≡◌, refl, true, false, Option, none, some, List, [], ◌∷◌}
use solana_governance.Common.Int.{pos}
use solana_governance.Common.Text.{text, starts_with, some_part}
use solana_governance.Tests.Github.{platform, url}
use solana_governance.Chain.Create.{CreateProposalParams}
use solana_governance.Lifecycle.{GovernanceConfigDto}
use solana_governance.Data.Proposals.{
  RawProposalAccount, ProposalRecord, Filters, ToNumber, map_from, map_proposal_dto, get_proposals,
  total_stake,
}
use solana_governance.Data.Proposals.Order.{IsListing, get_proposals-IsListing}
use solana_governance.Data.Splits.{Vote, tally_from}
use solana_governance.Data.Splits.Totals.{IsAmong, sums_at, sum_of, votes_of, tally-total}
use solana_governance.Reports.{ErrorEvent, filenames, is_third_party_script_error}
use solana_governance.Reports.Own.{is_own, is_third_party_script_error-own}

abbrev params : CreateProposalParams
params = record { title = "Fee"; description = url; seed = some 7; wallet = some "me" }

abbrev config : GovernanceConfigDto
config = record {
  admin = "admin";
  max_title_length = 50;
  max_description_length = 250;
  max_support_epochs = 7;
  min_proposal_stake_lamports = 1;
  cluster_support_pct_min_bps = 1500;
  discussion_epochs = 4;
  voting_epochs = 3;
  snapshot_epoch_extension = 1;
  snapshot_slot_offset = 1000;
  max_supporters = 2000;
  bump = 255;
}

abbrev account : ℕ → RawProposalAccount
account time = record {
  public_key = "proposal";
  account = record {
    author = "me";
    title = "Fee";
    description = text "https://github.com/";
    creation_epoch = 800;
    start_epoch = 0;
    end_epoch = 0;
    proposer_stake_weight_bp = none;
    cluster_support_lamports = some 100;
    for_votes_lamports = none;
    against_votes_lamports = none;
    abstain_votes_lamports = none;
    voting = false;
    finalized = false;
    proposal_bump = 255;
    creation_timestamp = some (pos time);
    vote_count = 0;
    index = 1;
    snapshot_slot = 0;
    consensus_result = none;
  };
}

abbrev to : ToNumber
to = record { natural = λ n. some n; signed = λ n. some n }

abbrev filters : Option Filters
filters = some (record { voting = some false; finalized = none })

abbrev mapped : Option (List ProposalRecord)
mapped =
    map_from platform to
      (record { current_epoch = 803; total_staked_lamports = total_stake (some 1000 ∷ none ∷ []) })
      config 0 (account 5 ∷ account 9 ∷ [])

abbrev or_empty : Option (List ProposalRecord) → List ProposalRecord
or_empty none = []
or_empty (some records) = records

abbrev records : List ProposalRecord
records = or_empty mapped

all_mapped : mapped ≡ some records
unfolding map_from map_proposal_dto
all_mapped = refl

get_proposals-IsListing_example :
    (result : List ProposalRecord) × (get_proposals platform to filters 803
        (some 1000 ∷ none ∷ [])
        config
        (account 5 ∷ account 9 ∷ [])
      ≡ some result)
    × IsListing filters records result
get_proposals-IsListing_example =
    get_proposals-IsListing platform to filters 803 (some 1000 ∷ none ∷ []) config
      (account 5 ∷ account 9 ∷ []) records all_mapped

abbrev vote : String → ℕ → Vote
vote validator share = record {
  validator = validator;
  vote_timestamp = pos 7;
  for_votes_bp = share;
  against_votes_bp = 0;
  abstain_votes_bp = 0;
}

abbrev votes : List Vote
votes = vote "one" 7000 ∷ vote "two" 100 ∷ vote "other" 30 ∷ vote "one" 500 ∷ []

tally-total_example :
    let sums = sums_at "one" (tally_from ("one" ∷ "two" ∷ []) votes []) in
    let own = votes_of "one" votes in
    (IsAmong "one" ("one" ∷ "two" ∷ [])
      → (sums.for_sum ≡ sum_of (λ v. v.for_votes_bp) own)
        × (sums.against ≡ sum_of (λ v. v.against_votes_bp) own)
        × (sums.abstain ≡ sum_of (λ v. v.abstain_votes_bp) own)
        × (sums.count ≡ sum_of (λ v. 1) own))
    × (¬ IsAmong "one" ("one" ∷ "two" ∷ [])
        → (sums.for_sum ≡ 0) × (sums.against ≡ 0) × (sums.abstain ≡ 0) × (sums.count ≡ 0))
tally-total_example = tally-total ("one" ∷ "two" ∷ []) "one" votes

abbrev event : ErrorEvent
event = record {
  values =
      record {
        mechanism = some (record { handled = some false; parent_id = none });
        frames = some (text "app:///inpage.js") ∷ none ∷ some (text "app:///_next/page.js") ∷ [];
      }
      ∷ [];
}

has_own : some_part is_own (filenames event.values) ≡ true
unfolding starts_with
has_own = refl

is_third_party_script_error-own_example : is_third_party_script_error event ≡ false
is_third_party_script_error-own_example = is_third_party_script_error-own event has_own
