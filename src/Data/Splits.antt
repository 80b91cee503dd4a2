-- ===== src/Data/Splits.antt =====
-- frontend/src/hooks/useValidatorsVoterSplits.ts: how the validators have split their votes. The integers
-- are those that `toNumber` gives, and quotients are exact. The three records of the source have the
-- same keys, in the order in which they are first met, and are one list here.
use Prim.Native.String.{String}
use text.Mathlib.Text.{◌==◌ as str_eq}
use solana_governance.Common.{
  ℕ, ◌+◌, ◌*◌, Bool, true, false, ◌||◌, Option, none, some, List, [], ◌∷◌, map, ◌==◌, if◌then◌else◌,
}
use solana_governance.Common.Int.{ℤ, pos, negsuc, ◌*ℤ◌, ◌-ℤ◌, ltb_ℤ}
pub mod Totals

pub record Vote : Type 0 where
  pub validator : String
  pub vote_timestamp : ℤ
  pub for_votes_bp : ℕ
  pub against_votes_bp : ℕ
  pub abstain_votes_bp : ℕ

pub record Sums : Type 0 where
  pub for_sum : ℕ
  pub against : ℕ
  pub abstain : ℕ
  pub count : ℕ

pub record Tally : Type 0 where
  pub identity : String
  pub latest : ℤ
  pub sums : Sums
  pub votes_count : ℕ

abbrev pub no_votes : Sums
no_votes = record { for_sum = 0; against = 0; abstain = 0; count = 0 }

abbrev pub add_vote : Vote → Sums → Sums
add_vote vote s = record {
  for_sum = s.for_sum + vote.for_votes_bp;
  against = s.against + vote.against_votes_bp;
  abstain = s.abstain + vote.abstain_votes_bp;
  count = s.count + 1;
}

-- in milliseconds
abbrev pub parsed_timestamp : Vote → ℤ
parsed_timestamp vote = vote.vote_timestamp *ℤ pos 1000

abbrev pub is_unset : ℤ → Bool
is_unset (pos n) = n == 0
is_unset (negsuc n) = false

-- a latest time of 0 counts as none
unfoldable pub later : ℤ → ℤ → ℤ
later latest parsed = if is_unset latest || ltb_ℤ latest parsed then parsed else latest

abbrev pub counted : Vote → Tally → Tally
counted vote tally = record {
  identity = tally.identity;
  latest = later tally.latest (parsed_timestamp vote);
  sums = add_vote vote tally.sums;
  votes_count = tally.votes_count + 1;
}

-- the body of the loops, for a vote of a known validator
unfoldable pub count_vote : Vote → List Tally → List Tally
unfolding later
count_vote vote [] =
    record {
      identity = vote.validator;
      latest = parsed_timestamp vote;
      sums = add_vote vote no_votes;
      votes_count = 1;
    }
    ∷ []
count_vote vote (tally ∷ tallies) =
    let rest = count_vote vote tallies in
    if str_eq tally.identity vote.validator then counted vote tally ∷ tallies else tally ∷ rest

-- whether a validator has the identity
abbrev pub is_known : List String → String → Bool
is_known [] identity = false
is_known (validator ∷ validators) identity =
    str_eq validator identity || is_known validators identity

unfoldable pub tally_from : List String → List Vote → List Tally → List Tally
unfolding count_vote
tally_from validators [] tallies = tallies
tally_from validators (vote ∷ votes) tallies =
    tally_from validators votes
      (if is_known validators vote.validator then count_vote vote tallies else tallies)

-- a share of the votes in percent: `num / (100 * count)`
pub record VoteSplitAnalytics : Type 0 where
  pub identity : String
  pub yes_num : ℕ
  pub no_num : ℕ
  pub abstain_num : ℕ
  pub undecided_num : ℤ
  pub den : ℕ

abbrev pub split_of : Tally → VoteSplitAnalytics
split_of t = record {
  identity = t.identity;
  yes_num = t.sums.for_sum;
  no_num = t.sums.against;
  abstain_num = t.sums.abstain;
  undecided_num =
      pos (10000 * t.sums.count) -ℤ pos (t.sums.for_sum + t.sums.against + t.sums.abstain);
  den = 100 * t.sums.count;
}

unfoldable pub voter_splits : List String → List Vote → List VoteSplitAnalytics
unfolding tally_from ◌-ℤ◌
voter_splits validators votes = map split_of (tally_from validators votes [])
