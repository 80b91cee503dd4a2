-- ===== src/Chain/Override.antt =====
-- frontend/src/chain/instructions/castVoteOverride.ts and modifyVoteOverride.ts: a delegator's vote.
-- The proof account is created and confirmed in a transaction of its own before the override.
use Prim.Native.String.{String}
use text.Mathlib.Text.{◌==◌ as str_eq}
use solana_governance.Common.{Bool, true, false, Option, none, some, List, [], ◌∷◌, if◌then◌else◌}
use solana_governance.Chain.Types.{
  PublicKey, wallet_not_connected, consensus_result_not_defined, init_failed, Distribution,
  StakeMerkleLeaf, OverrideAccounts, ProposalAccount, VoteAccountProofResponse,
  init_meta_merkle_proof, cast_override_instruction, modify_override_instruction, TransactionResult,
}
use solana_governance.Chain.Flow.{
  Flow, Env, return, throw, lift, require, ask, ◌>>=◌, ◌>>◌, fetched_proposal, fetched_stake_proof,
  fetched_vote_proof, look_up, confirm,
}
use solana_governance.Chain.Slots.{compute_proof_close_timestamp}
use solana_governance.Chain.Helpers.{
  derive_vote_pda, derive_vote_override_pda, derive_vote_override_cache_pda,
  get_meta_merkle_proof_pda, resolve_snapshot_vote_account, resolve_proposal_snapshot_slot,
  assert_override_proof_lineage, convert_merkle_proof_strings,
  convert_stake_merkle_leaf_data_to_idl_type, to_basis_points, validate_vote_basis_points,
  sign_and_send,
}

pub record OverrideParams : Type 0 where
  pub proposal_id : String
  pub distribution : Distribution
  pub stake_account : String
  pub wallet : Option PublicKey
  pub consensus_result : Option PublicKey

-- a confirmation with an error throws
abbrev pub confirmed_or_throw : Option String → Flow (Unit {0})
confirmed_or_throw none = return tt
confirmed_or_throw (some reason) = throw (init_failed reason)

abbrev pub initialize_unless_known : Bool → Flow (Unit {0}) → Flow (Unit {0})
initialize_unless_known true initialize = return tt
initialize_unless_known false initialize = initialize

pub record OverrideContext : Type 0 where
  pub override_accounts : OverrideAccounts
  pub stake_merkle_proof : List PublicKey
  pub stake_merkle_leaf : StakeMerkleLeaf

-- `blockchainParams.network || "mainnet"`
abbrev pub or_mainnet : String → String
or_mainnet network = if str_eq network "" then "mainnet" else network

module _ (env : Env) where
  -- create the proof account, and wait until it is confirmed
  unfoldable pub initialize_proof :
      (signer consensus_result merkle_proof : PublicKey)
      → VoteAccountProofResponse
      → ProposalAccount
      → Flow (Unit {0})
  initialize_proof signer consensus_result merkle_proof proof account = do
    stake_merkle_root ← lift (env.public_key proof.meta_merkle_leaf.stake_merkle_root)
    proofs ← lift (convert_merkle_proof_strings env proof.meta_merkle_proof)
    end_epoch ← lift (env.to_number account.end_epoch)
    close_timestamp ← compute_proof_close_timestamp env end_epoch
    voting_wallet ← lift (env.public_key proof.meta_merkle_leaf.voting_wallet)
    vote_account ← lift (env.public_key proof.meta_merkle_leaf.vote_account)
    active_stake ← lift (env.big_number proof.meta_merkle_leaf.active_stake)
    signature ← sign_and_send env signer (
        init_meta_merkle_proof
          (record {
            voting_wallet = voting_wallet;
            vote_account = vote_account;
            stake_merkle_root = stake_merkle_root;
            active_stake = active_stake;
          })
          proofs close_timestamp consensus_result merkle_proof signer
        ∷ [])
    reason ← confirm env signature
    confirmed_or_throw reason

  unfoldable pub override_context : OverrideParams → String → Flow OverrideContext
  override_context params network = do
    signer ← require wallet_not_connected params.wallet
    consensus_result ← require consensus_result_not_defined params.consensus_result
    lift (validate_vote_basis_points params.distribution)
    proposal ← lift (env.public_key params.proposal_id)
    account ← ask (fetched_proposal proposal) (env.fetch_proposal proposal)
    slot ← lift (resolve_proposal_snapshot_slot env account.snapshot_slot)
    stake_account ← lift (env.public_key params.stake_account)
    stake_proof ←
        ask (fetched_stake_proof params.stake_account network slot)
          (env.fetch_stake_proof params.stake_account network slot)
    spl_vote_account ← lift (resolve_snapshot_vote_account env stake_proof)
    meta_proof ←
        ask (fetched_vote_proof spl_vote_account network slot)
          (env.fetch_vote_proof spl_vote_account network slot)
    lift (assert_override_proof_lineage stake_proof meta_proof)
    merkle_proof ← lift (get_meta_merkle_proof_pda env meta_proof consensus_result)
    known ← look_up env merkle_proof
    initialize_unless_known known
        (initialize_proof signer consensus_result merkle_proof meta_proof account)
    proofs ← lift (convert_merkle_proof_strings env stake_proof.stake_merkle_proof)
    leaf ← lift (convert_stake_merkle_leaf_data_to_idl_type env stake_proof.stake_merkle_leaf)
    let vote = derive_vote_pda env proposal spl_vote_account
    return (record {
      override_accounts = record {
        signer = signer;
        spl_vote_account = spl_vote_account;
        spl_stake_account = stake_account;
        proposal = proposal;
        consensus_result = consensus_result;
        meta_merkle_proof = merkle_proof;
        vote_override = derive_vote_override_pda env proposal stake_account vote;
        vote_override_cache = derive_vote_override_cache_pda env proposal vote;
        validator_vote = vote;
      };
      stake_merkle_proof = proofs;
      stake_merkle_leaf = leaf;
    })

  unfoldable pub cast_vote_override : OverrideParams → String → Flow TransactionResult
  cast_vote_override params network = do
    c ← override_context params network
    signature ← sign_and_send env c.override_accounts.signer (
        cast_override_instruction (to_basis_points params.distribution) c.stake_merkle_proof
          c.stake_merkle_leaf c.override_accounts
        ∷ [])
    return (record { signature = signature; success = true })

  unfoldable pub modify_vote_override : OverrideParams → String → Flow TransactionResult
  modify_vote_override params network = do
    c ← override_context params (or_mainnet network)
    signature ← sign_and_send env c.override_accounts.signer (
        modify_override_instruction (to_basis_points params.distribution) c.stake_merkle_proof
          c.stake_merkle_leaf c.override_accounts
        ∷ [])
    return (record { signature = signature; success = true })
