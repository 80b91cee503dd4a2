-- ===== src/Chain/Support.antt =====
-- frontend/src/chain/instructions/supportProposal.ts: a validator's support of a proposal. Slots are
-- whole numbers below 2 ^ 53, as `new BN` demands of a number.
use Prim.Native.String.{String}
use solana_governance.Common.{ℕ, ◌+◌, true, Option, [], ◌∷◌}
use solana_governance.Chain.Types.{
  PublicKey, Result, ok, err, wallet_not_connected, slot_not_defined, no_vote_account,
  SupportAccounts, ProposalAccount, set_compute_unit_limit, support_instruction, TransactionResult,
  label, u64_le,
}
use solana_governance.Chain.Flow.{
  Flow, Trace, Env, return, lift, require, ask, ◌>>=◌, fetched_proposal, asked_epoch_info,
  asked_epoch_schedule,
}
use solana_governance.Chain.ComputeBudget.{max_supporters, support_compute_unit_limit}
use solana_governance.Chain.Helpers.{derive_support_pda, derive_global_config_pda, sign_and_send}

pub record SupportProposalParams : Type 0 where
  pub proposal_id : String
  pub wallet : Option PublicKey

pub record SupportProposalGlobalConfigInput : Type 0 where
  pub discussion_epochs : ℕ
  pub snapshot_epoch_extension : ℕ
  pub snapshot_slot_offset : ℕ

-- the supporters to budget for: a failed read means a full list
unfoldable pub listed_supporters : Result ProposalAccount → ℕ
listed_supporters (ok account) = account.num_supporters
listed_supporters (err e) = max_supporters

module _ (env : Env) where
  unfoldable pub num_supporters : PublicKey → Trace → Result ℕ
  num_supporters proposal tr = ok (listed_supporters (env.fetch_proposal proposal tr))

  abbrev pub ballot_box_pda : ℕ → PublicKey
  ballot_box_pda snapshot_slot =
      env.find_program_address (label "BallotBox" ∷ u64_le snapshot_slot ∷ [])
        env.snapshot_program_id

  abbrev pub program_config_pda : PublicKey
  program_config_pda = env.find_program_address (label "ProgramConfig" ∷ []) env.snapshot_program_id

  abbrev pub support_accounts :
      (signer proposal spl_vote_account : PublicKey) (snapshot_slot : ℕ) → SupportAccounts
  support_accounts signer proposal spl_vote_account snapshot_slot = record {
    signer = signer;
    proposal = proposal;
    support = derive_support_pda env proposal spl_vote_account;
    spl_vote_account = spl_vote_account;
    ballot_box = ballot_box_pda snapshot_slot;
    program_config = program_config_pda;
    global_config = derive_global_config_pda env;
  }

  unfoldable pub support_proposal :
      SupportProposalParams
      → (slot : Option ℕ) → (validator_vote_account : Option String)
      → SupportProposalGlobalConfigInput
      → Flow TransactionResult
  support_proposal params slot validator_vote_account global_config = do
    signer ← require wallet_not_connected params.wallet
    _ ← require slot_not_defined slot
    vote_account ← require (no_vote_account signer) validator_vote_account
    proposal ← lift (env.public_key params.proposal_id)
    spl_vote_account ← lift (env.public_key vote_account)
    supporters ← ask (fetched_proposal proposal) (num_supporters proposal)
    epoch_info ← ask asked_epoch_info env.get_epoch_info
    let target_epoch =
        epoch_info.epoch + global_config.discussion_epochs + global_config.snapshot_epoch_extension
    first_slot ← ask asked_epoch_schedule env.get_first_slot_in_epoch
    let snapshot_slot = first_slot target_epoch + global_config.snapshot_slot_offset
    signature ← sign_and_send env signer (
        set_compute_unit_limit (support_compute_unit_limit supporters)
        ∷ support_instruction (support_accounts signer proposal spl_vote_account snapshot_slot)
        ∷ [])
    return (record { signature = signature; success = true })
