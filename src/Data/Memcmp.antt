-- ===== src/Data/Memcmp.antt =====
-- The filters of frontend/src/data/getVoteOverrideAccounts.ts and getSupportAccounts.ts, the offsets of
-- getProposalVotes.ts, getProposalVoteOverrides.ts and getValidatorProposalVoteAccount.ts, and the
-- layout of the accounts they are for (frontend/src/chain/types/svmgov_program.ts): the bytes of the
-- discriminator, of the fields in their order, and what is behind the fields that are filtered.
use Prim.Native.String.{String}
use text.Mathlib.Text.{◌==◌ as str_eq}
use solana_governance.Common.{
  ℕ, Bool, true, false, not, Option, none, some, List, [], ◌∷◌, ◌++◌, map, if◌then◌else◌,
}
use solana_governance.Common.Sort.Laws.{keep}
use solana_governance.Common.Text.{Text as Bytes}
use solana_governance.Modals.{given_text, unless_set}
pub mod Layout

pub record Memcmp : Type 0 where
  pub offset : ℕ
  pub bytes : String

pub data OverrideField : Type 0 where
  delegator stake_account validator proposal : OverrideField

pub data SupportField : Type 0 where
  proposal validator : SupportField

pub data VoteField : Type 0 where
  validator proposal : VoteField

pub record Filter (F : Type 0) : Type 0 where
  pub name : F
  pub value : String

abbrev pub override_offset : OverrideField → ℕ
override_offset delegator = 8
override_offset stake_account = 40
override_offset validator = 72
override_offset proposal = 104

abbrev pub support_offset : SupportField → ℕ
support_offset proposal = 8
support_offset validator = 40

-- the literals of getValidatorProposalVoteAccount.ts
abbrev pub vote_offset : VoteField → ℕ
vote_offset validator = 8
vote_offset proposal = 40

module _ {F : Type 0} (offset_of : F → ℕ) where
  abbrev pub memcmp_of : Filter F → Memcmp
  memcmp_of f = record { offset = offset_of f.name; bytes = f.value }

  -- `!!f.value`, as every value is a text
  abbrev pub has_value : Filter F → Bool
  has_value f = not (str_eq f.value "")

  unfoldable pub filters_to_memcmp : List (Filter F) → List Memcmp
  unfolding keep
  filters_to_memcmp filters = map memcmp_of (keep has_value filters)

  -- what the program's accounts are asked for; `none` is the error that a filter is missing
  unfoldable pub asked_filters : List (Filter F) → Option (List Memcmp)
  unfolding filters_to_memcmp
  asked_filters [] = none
  asked_filters (f ∷ filters) = some (filters_to_memcmp (f ∷ filters))

-- the filters of the modals and of useHasUserVoted.ts; a proposal that is missing or empty has none
unfoldable pub build_vote_override_filters :
    (proposal_public_key delegator_public_key : Option String) → List (Filter OverrideField)
build_vote_override_filters proposal_public_key delegator_public_key =
    unless_set (given_text proposal_public_key) []
      (λ key. record { name = OverrideField.proposal; value = key } ∷ [])
    ++ unless_set delegator_public_key []
        (λ key. record { name = OverrideField.delegator; value = key } ∷ [])

pub record VoteOverrideBytes : Type 0 where
  pub discriminator : Bytes
  pub delegator_key : Bytes
  pub stake_account_key : Bytes
  pub validator_key : Bytes
  pub proposal_key : Bytes
  pub behind : Bytes

pub record SupportBytes : Type 0 where
  pub discriminator : Bytes
  pub proposal_key : Bytes
  pub validator_key : Bytes
  pub behind : Bytes

pub record VoteBytes : Type 0 where
  pub discriminator : Bytes
  pub validator_key : Bytes
  pub proposal_key : Bytes
  pub behind : Bytes

abbrev pub override_data : VoteOverrideBytes → Bytes
override_data a =
    a.discriminator
    ++ (a.delegator_key
        ++ (a.stake_account_key ++ (a.validator_key ++ (a.proposal_key ++ a.behind))))

abbrev pub support_data : SupportBytes → Bytes
support_data a = a.discriminator ++ (a.proposal_key ++ (a.validator_key ++ a.behind))

abbrev pub vote_data : VoteBytes → Bytes
vote_data a = a.discriminator ++ (a.validator_key ++ (a.proposal_key ++ a.behind))
