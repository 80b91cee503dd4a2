-- ===== src/Data/Votes.antt =====
-- frontend/src/data/getVoteProposals.ts and frontend/src/data/getHasUserVoted.ts: the votes of a wallet.
-- Keys are their base58 texts.
use Prim.Native.String.{String}
use text.Mathlib.Text.{◌==◌ as str_eq}
use solana_governance.Common.{
  Bool, not, ◌&&◌, ◌||◌, Option, none, some, List, [], ◌∷◌, find?, if◌then◌else◌,
}
use solana_governance.Common.Text.{is_empty}
use solana_governance.Lifecycle.{is_set}
use solana_governance.Data.Proposals.{ProposalRecord}

-- what is read of an account of an override
pub record VoteOverrideAccountData : Type 0 where
  pub public_key : String
  pub proposal : String
  pub stake_account : String

pub record VoteProposalData : Type 0 where
  pub vote_account : VoteOverrideAccountData
  pub proposal : ProposalRecord
  pub vote_public_key : String

-- `proposalMap.get(key)`: of two proposals with one key, the map keeps the later
unfoldable pub proposal_at : String → List ProposalRecord → Option ProposalRecord
proposal_at key [] = none
proposal_at key (p ∷ ps) = elim (proposal_at key ps) [
  | some later ↦ some later
  | none ↦ if str_eq p.public_key key then some p else none
]

abbrev pub vote_entry :
    VoteOverrideAccountData → Option ProposalRecord → List VoteProposalData → List VoteProposalData
vote_entry vote none rest = rest
vote_entry vote (some p) rest =
    record { vote_account = vote; proposal = p; vote_public_key = vote.public_key } ∷ rest

unfoldable pub get_vote_proposals :
    List VoteOverrideAccountData → List ProposalRecord → List VoteProposalData
unfolding proposal_at
get_vote_proposals [] proposals = []
get_vote_proposals (vote ∷ votes) proposals =
    vote_entry vote (proposal_at vote.proposal proposals) (get_vote_proposals votes proposals)

unfoldable pub get_vote_override_by_stake_account :
    List VoteOverrideAccountData
    → (stake_account proposal : String) → Option VoteOverrideAccountData
get_vote_override_by_stake_account accounts stake_account proposal =
    find? (λ a. str_eq a.stake_account stake_account && str_eq a.proposal proposal) accounts

abbrev pub get_user_has_voted {ℓ} : {V : Type ℓ} → List VoteOverrideAccountData → Option V → Bool
get_user_has_voted overrides vote_account = not (is_empty overrides) || is_set vote_account

abbrev pub get_user_has_supported {ℓ} : {S : Type ℓ} → List S → Bool
get_user_has_supported support_accounts = not (is_empty support_accounts)
