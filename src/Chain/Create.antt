-- ===== src/Chain/Create.antt =====
-- frontend/src/chain/instructions/createProposal.ts: the creation of a proposal. A seed is a whole
-- number below 2 ^ 53, as `new BN` demands of a number; the random one is an argument.
use Prim.Native.String.{String}
use text.Mathlib.Text.{◌==◌ as str_eq}
use solana_governance.Common.{ℕ, true, ◌⊎◌, inl, inr, Option, none, some, [], ◌∷◌, find?}
use solana_governance.Common.Text.{Text}
use solana_governance.Github.Platform.{Platform}
use solana_governance.Github.Validate.{ProposalUrlErrorCode, assert_valid_proposal_url}
use solana_governance.Chain.Types.{
  PublicKey, Result, ok, err, wallet_not_connected, no_vote_account, invalid_proposal_url,
  CreateAccounts, create_instruction, TransactionResult,
}
use solana_governance.Chain.Flow.{
  Flow, Env, return, lift, require, ask, ◌>>=◌, listed_vote_accounts,
}
use solana_governance.Chain.Helpers.{
  derive_proposal_account, derive_proposal_index_pda, derive_global_config_pda, sign_and_send,
}

pub record CreateProposalParams : Type 0 where
  pub title : String
  pub description : Text
  pub seed : Option ℕ
  pub wallet : Option PublicKey

-- the issue is thrown
unfoldable pub checked_description : ProposalUrlErrorCode ⊎ Text → Result Text
checked_description (inl code) = err (invalid_proposal_url code)
checked_description (inr normalized) = ok normalized

-- `seed ?? random`
abbrev pub seed_or : ℕ → Option ℕ → ℕ
seed_or random none = random
seed_or random (some seed) = seed

module _ (env : Env) (platform : Platform) (random : ℕ) where
  abbrev pub create_accounts : (signer spl_vote_account : PublicKey) (seed : ℕ) → CreateAccounts
  create_accounts signer spl_vote_account seed = record {
    signer = signer;
    proposal = derive_proposal_account env seed spl_vote_account;
    spl_vote_account = spl_vote_account;
    proposal_index = derive_proposal_index_pda env;
    global_config = derive_global_config_pda env;
  }

  unfoldable pub create_proposal : CreateProposalParams → Flow TransactionResult
  create_proposal params = do
    signer ← require wallet_not_connected params.wallet
    description ← lift (checked_description (assert_valid_proposal_url platform params.description))
    let seed = seed_or random params.seed
    accounts ← ask listed_vote_accounts env.get_vote_accounts
    validator ← require (no_vote_account signer) (find? (λ a. str_eq a.node_pubkey signer) accounts)
    spl_vote_account ← lift (env.public_key validator.vote_pubkey)
    signature ← sign_and_send env signer (
        create_instruction seed params.title description
          (create_accounts signer spl_vote_account seed)
        ∷ [])
    return (record { signature = signature; success = true })
