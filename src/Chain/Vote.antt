-- ===== src/Chain/Vote.antt =====
-- frontend/src/chain/instructions/castVote.ts and modifyVote.ts: a validator's vote. Both build the
-- proof account in the same transaction, if it does not exist yet.
use Prim.Native.String.{String}
use text.Mathlib.Text.{◌==◌ as str_eq}
use solana_governance.Common.{Bool, true, false, Option, List, [], ◌∷◌, ◌++◌, find?}
use solana_governance.Chain.Types.{
  PublicKey, wallet_not_connected, consensus_result_not_defined, no_vote_account, Distribution,
  VoteAccounts, ProposalAccount, VoteAccountProofResponse, Instruction, init_meta_merkle_proof,
  cast_vote_instruction, modify_vote_instruction, TransactionResult,
}
use solana_governance.Chain.Flow.{
  Flow, Env, return, lift, require, ask, ◌>>=◌, ◌>>◌, fetched_proposal, listed_vote_accounts,
  fetched_vote_proof, look_up,
}
use solana_governance.Chain.Slots.{compute_proof_close_timestamp}
use solana_governance.Chain.Helpers.{
  derive_vote_pda, derive_vote_override_cache_pda, get_meta_merkle_proof_pda,
  resolve_proposal_snapshot_slot, convert_merkle_proof_strings, to_basis_points,
  validate_vote_basis_points, sign_and_send,
}

pub record VoteParams : Type 0 where
  pub proposal_id : String
  pub distribution : Distribution
  pub wallet : Option PublicKey
  pub consensus_result : Option PublicKey

-- what both functions establish before they build an instruction
pub record VoteContext : Type 0 where
  pub signer : PublicKey
  pub proposal : PublicKey
  pub spl_vote_account : PublicKey
  pub consensus_result : PublicKey
  pub meta_merkle_proof : PublicKey
  pub init_instructions : List Instruction

abbrev pub unless_known : Bool → Flow (List Instruction) → Flow (List Instruction)
unless_known true build = return []
unless_known false build = build

module _ (env : Env) where
  -- the instruction that creates the proof account
  unfoldable pub init_instruction :
      (signer consensus_result merkle_proof : PublicKey)
      → VoteAccountProofResponse
      → ProposalAccount
      → Flow (List Instruction)
  init_instruction signer consensus_result merkle_proof proof account = do
    end_epoch ← lift (env.to_number account.end_epoch)
    close_timestamp ← compute_proof_close_timestamp env end_epoch
    voting_wallet ← lift (env.public_key proof.meta_merkle_leaf.voting_wallet)
    vote_account ← lift (env.public_key proof.meta_merkle_leaf.vote_account)
    stake_merkle_root ← lift (env.public_key proof.meta_merkle_leaf.stake_merkle_root)
    active_stake ← lift (env.big_number proof.meta_merkle_leaf.active_stake)
    proofs ← lift (convert_merkle_proof_strings env proof.meta_merkle_proof)
    return (
        init_meta_merkle_proof
          (record {
            voting_wallet = voting_wallet;
            vote_account = vote_account;
            stake_merkle_root = stake_merkle_root;
            active_stake = active_stake;
          })
          proofs close_timestamp consensus_result merkle_proof signer
        ∷ [])

  unfoldable pub vote_context : VoteParams → String → Flow VoteContext
  vote_context params network = do
    signer ← require wallet_not_connected params.wallet
    consensus_result ← require consensus_result_not_defined params.consensus_result
    lift (validate_vote_basis_points params.distribution)
    proposal ← lift (env.public_key params.proposal_id)
    account ← ask (fetched_proposal proposal) (env.fetch_proposal proposal)
    slot ← lift (resolve_proposal_snapshot_slot env account.snapshot_slot)
    accounts ← ask listed_vote_accounts env.get_vote_accounts
    validator ← require (no_vote_account signer) (find? (λ a. str_eq a.node_pubkey signer) accounts)
    spl_vote_account ← lift (env.public_key validator.vote_pubkey)
    proof ←
        ask (fetched_vote_proof validator.vote_pubkey network slot)
          (env.fetch_vote_proof validator.vote_pubkey network slot)
    merkle_proof ← lift (get_meta_merkle_proof_pda env proof consensus_result)
    known ← look_up env merkle_proof
    init_instructions ←
        unless_known known (init_instruction signer consensus_result merkle_proof proof account)
    return (record {
      signer = signer;
      proposal = proposal;
      spl_vote_account = spl_vote_account;
      consensus_result = consensus_result;
      meta_merkle_proof = merkle_proof;
      init_instructions = init_instructions;
    })

  abbrev pub vote_accounts : VoteContext → VoteAccounts
  vote_accounts c = record {
    signer = c.signer;
    proposal = c.proposal;
    spl_vote_account = c.spl_vote_account;
    vote = derive_vote_pda env c.proposal c.spl_vote_account;
    consensus_result = c.consensus_result;
    meta_merkle_proof = c.meta_merkle_proof;
  }

  unfoldable pub cast_vote : VoteParams → String → Flow TransactionResult
  cast_vote params network = do
    c ← vote_context params network
    let vote = vote_accounts c
    let cache = derive_vote_override_cache_pda env c.proposal vote.vote
    signature ← sign_and_send env c.signer (
        c.init_instructions
        ++ cast_vote_instruction (to_basis_points params.distribution) vote cache ∷ [])
    return (record { signature = signature; success = true })

  unfoldable pub modify_vote : VoteParams → String → Flow TransactionResult
  modify_vote params network = do
    c ← vote_context params network
    signature ← sign_and_send env c.signer (
        c.init_instructions
        ++ modify_vote_instruction (to_basis_points params.distribution) (vote_accounts c) ∷ [])
    return (record { signature = signature; success = true })
