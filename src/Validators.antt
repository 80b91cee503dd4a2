-- ===== src/Validators.antt =====
-- frontend/src/hooks/useGetValidators.ts and useGetValidatorsTable.ts: the validators of the network,
-- with what StakeWiz tells of them, and the rows of their table. Stakes are whole numbers. The text of
-- a number, the text of a date, `Number` of a text and the rounded percentage are arguments; NaN is
-- `none`. The children are the theorems, and what TopVoters.tsx shows of the rows.
use Prim.Native.String.{String}
use text.Mathlib.Text.{◌==◌ as str_eq}
use solana_governance.Common.{
  ℕ, suc, ◌+◌, ◌*◌, Bool, true, false, Option, none, some, List, [], ◌∷◌, ◌++◌, map, leb, ◌==◌,
  find?, if◌then◌else◌,
}
use solana_governance.Common.Sort.{sort}
use solana_governance.Common.Text.{Text, text as ascii}
use solana_governance.Data.Splits.{VoteSplitAnalytics}
pub mod Stake
pub mod Table

pub record Validator : Type 0 where
  pub name : Text
  pub identity : Option String
  pub vote_identity : String
  pub activated_stake : ℕ
  pub image : Option String
  pub version : Option Text
  pub commission : ℕ
  pub asn : Option Text
  pub description : Option Text
  pub epoch_credits : ℕ
  pub last_vote : ℕ

-- what the RPC server tells of a vote account
pub record RpcVoteAccount : Type 0 where
  pub vote_pubkey : String
  pub node_pubkey : String
  pub activated_stake : ℕ
  pub commission : ℕ
  pub epoch_credits : List (List ℕ)
  pub last_vote : ℕ

pub record VoteAccountStatus : Type 0 where
  pub current : List RpcVoteAccount
  pub delinquent : List RpcVoteAccount

-- `metadataByVoteAccount.get(key)`: the last validator that was set under the key
unfoldable pub metadata : List Validator → String → Option Validator
metadata [] key = none
metadata (v ∷ vs) key = elim (metadata vs key) [
  | some w ↦ some w
  | none ↦ if str_eq v.vote_identity key then some v else none
]

-- `?.[0] || 0`
abbrev pub first_or_zero : List ℕ → ℕ
first_or_zero [] = 0
first_or_zero (n ∷ ns) = n

abbrev pub first_credits : List (List ℕ) → ℕ
first_credits [] = 0
first_credits (credits ∷ rest) = first_or_zero credits

-- `??`
abbrev pub or_node : Option String → String → String
or_node none node = node
or_node (some identity) node = identity

abbrev pub with_metadata : RpcVoteAccount → Validator → Validator
with_metadata vote v = record v {
  activated_stake = vote.activated_stake;
  identity = some (or_node v.identity vote.node_pubkey);
}

module _ (to_string : ℕ → Text) where
  abbrev pub unknown_validator : ℕ → RpcVoteAccount → Validator
  unknown_validator unknown_count vote = record {
    name = ascii "Unknown validator #" ++ to_string unknown_count;
    identity = some vote.node_pubkey;
    vote_identity = vote.vote_pubkey;
    activated_stake = vote.activated_stake;
    image = none;
    version = some (ascii "-");
    commission = vote.commission;
    asn = some (ascii "-");
    description = some [];
    epoch_credits = first_credits vote.epoch_credits;
    last_vote = vote.last_vote;
  }

  -- the body of `map`, with the number of validators that were not known so far
  unfoldable pub with_names : List Validator → ℕ → List RpcVoteAccount → List Validator
  unfolding metadata
  with_names validators unknown_count [] = []
  with_names validators unknown_count (vote ∷ votes) = elim (metadata validators vote.vote_pubkey) [
    | some v ↦ with_metadata vote v ∷ with_names validators unknown_count votes
    | none ↦
        unknown_validator (suc unknown_count) vote ∷ with_names validators (suc unknown_count) votes
  ]

  -- no metadata is set when StakeWiz has failed
  abbrev pub or_none : Option (List Validator) → List Validator
  or_none none = []
  or_none (some validators) = validators

  -- `none` for an error: the vote accounts could not be fetched
  unfoldable pub get_validators :
      (stake_wiz : Option (List Validator)) (vote_accounts : Option VoteAccountStatus)
      → Option (List Validator)
  unfolding with_names
  get_validators stake_wiz none = none
  get_validators stake_wiz (some accounts) =
      some (with_names (or_none stake_wiz) 0 (accounts.current ++ accounts.delinquent))

pub data SortBy : Type 0 where
  weight name percentage date : SortBy

-- the shares, or "-" without votes
pub record ValidatorsTableRow : Type 0 where
  pub validator : Validator
  pub percentage : Option ℕ
  pub splits : Option VoteSplitAnalytics
  pub vote_date : Text

unfoldable pub stake_sum : List Validator → ℕ
stake_sum [] = 0
stake_sum (v ∷ vs) = v.activated_stake + stake_sum vs

-- what the hook and JavaScript give: the splits and the latest times under an identity, `Number` of a
-- text, and the percentage of a stake and a total, rounded, in hundredths
pub record Reading : Type 0 where
  pub splits_under : String → Option VoteSplitAnalytics
  pub latest_vote : String → Option Text
  pub number : Text → Option ℕ
  pub round_percentage : ℕ → ℕ → Option ℕ

module _ (reading : Reading) where
  abbrev pub date_or_dash : Option Text → Text
  date_or_dash none = ascii "-"
  date_or_dash (some s) = s

  abbrev pub row_of : ℕ → Validator → ValidatorsTableRow
  row_of total v = record {
    validator = v;
    percentage = reading.round_percentage v.activated_stake total;
    splits = reading.splits_under v.vote_identity;
    vote_date = date_or_dash (reading.latest_vote v.vote_identity);
  }

  -- `+row[sortByProp]`
  abbrev pub sort_key : SortBy → ValidatorsTableRow → Option ℕ
  sort_key weight row = some row.validator.activated_stake
  sort_key name row = reading.number row.validator.name
  sort_key percentage row = row.percentage
  sort_key date row = reading.number row.vote_date

  -- a difference that is not above 0; NaN counts as 0
  abbrev pub key_le : Option ℕ → Option ℕ → Bool
  key_le (some a) (some b) = leb b a
  key_le _ _ = true

  abbrev pub row_le : SortBy → ValidatorsTableRow → ValidatorsTableRow → Bool
  row_le sort_by a b = key_le (sort_key sort_by a) (sort_key sort_by b)

  -- the rows before they are sorted
  unfoldable pub table_rows : List Validator → List ValidatorsTableRow
  unfolding stake_sum
  table_rows validators = map (row_of (stake_sum validators)) validators

  unfoldable pub validators_table : SortBy → List Validator → List ValidatorsTableRow
  unfolding table_rows sort
  validators_table sort_by validators = sort (row_le sort_by) (table_rows validators)
