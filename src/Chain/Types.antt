-- ===== src/Chain/Types.antt =====
-- What the functions of frontend/src/chain/instructions pass around (types.ts there, the interfaces
-- of the web3 and anchor libraries that they use, and the instructions that they build).
use solana_governance.Common.Double.{Double}
use Prim.Native.String.{String}
use solana_governance.Common.{ℕ, Bool, Option, List}
use solana_governance.Common.Int.{ℤ}
use solana_governance.Common.Text.{Text}
use solana_governance.Github.Validate.{ProposalUrlErrorCode}

-- a public key by its base58 text, which is what `toBase58` gives and what `equals` compares
abbrev pub PublicKey : Type 0
PublicKey = String

pub data Error : Type 0 where
  wallet_not_connected consensus_result_not_defined no_snapshot_slot slot_not_defined : Error
  bad_total : ℕ → Error
  no_vote_account : PublicKey → Error
  missing_snapshot_vote_account : Error
  proof_mismatch : String → String → Error
  signed_by_another not_signed invalid_signature : Error
  init_failed : String → Error
  no_block_time : ℕ → ℕ → Error
  invalid_public_key : String → Error
  invalid_proposal_url : ProposalUrlErrorCode → Error
  -- a rejection by a library or a service
  rejected : String → Error

pub data Result {ℓ} (A : Type ℓ) : Type ℓ where
  ok : A → Result A
  err : Error → Result A

-- what stands under an account name of a vote instruction
pub record VoteAccounts : Type 0 where
  pub signer : PublicKey
  pub proposal : PublicKey
  pub spl_vote_account : PublicKey
  pub vote : PublicKey
  pub consensus_result : PublicKey
  pub meta_merkle_proof : PublicKey

pub record OverrideAccounts : Type 0 where
  pub signer : PublicKey
  pub spl_vote_account : PublicKey
  pub spl_stake_account : PublicKey
  pub proposal : PublicKey
  pub consensus_result : PublicKey
  pub meta_merkle_proof : PublicKey
  pub vote_override : PublicKey
  pub vote_override_cache : PublicKey
  pub validator_vote : PublicKey

-- the numbers that the callers hand over
pub record Distribution : Type 0 where
  pub for_votes_bp : Double
  pub against_votes_bp : Double
  pub abstain_votes_bp : Double

-- the integers that the methods take
pub record BasisPoints : Type 0 where
  pub for_votes_bn : ℕ
  pub against_votes_bn : ℕ
  pub abstain_votes_bn : ℕ

pub record MetaMerkleLeaf : Type 0 where
  pub voting_wallet : PublicKey
  pub vote_account : PublicKey
  pub stake_merkle_root : PublicKey
  pub active_stake : ℕ

pub record StakeMerkleLeaf : Type 0 where
  pub active_stake : ℕ
  pub stake_account : PublicKey
  pub voting_wallet : PublicKey

pub record SupportAccounts : Type 0 where
  pub signer : PublicKey
  pub proposal : PublicKey
  pub support : PublicKey
  pub spl_vote_account : PublicKey
  pub ballot_box : PublicKey
  pub program_config : PublicKey
  pub global_config : PublicKey

pub record CreateAccounts : Type 0 where
  pub signer : PublicKey
  pub proposal : PublicKey
  pub spl_vote_account : PublicKey
  pub proposal_index : PublicKey
  pub global_config : PublicKey

-- The methods called, with their arguments and the accounts that vary.
pub data Instruction : Type 0 where
  init_meta_merkle_proof :
      MetaMerkleLeaf
      → List PublicKey
      → ℤ
      → (consensus_result merkle_proof payer : PublicKey) → Instruction
  cast_vote_instruction :
      BasisPoints → VoteAccounts → (vote_override_cache : PublicKey) → Instruction
  modify_vote_instruction : BasisPoints → VoteAccounts → Instruction
  cast_override_instruction :
      BasisPoints → List PublicKey → StakeMerkleLeaf → OverrideAccounts → Instruction
  modify_override_instruction :
      BasisPoints → List PublicKey → StakeMerkleLeaf → OverrideAccounts → Instruction
  set_compute_unit_limit : ℕ → Instruction
  support_instruction : SupportAccounts → Instruction
  create_instruction :
      (seed : ℕ) (title : String) (description : Text) → CreateAccounts → Instruction

pub record Transaction : Type 0 where
  pub instructions : List Instruction
  pub fee_payer : PublicKey
  pub recent_blockhash : String

pub record SignaturePair : Type 0 where
  pub public_key : PublicKey
  pub signature : Option String

-- What a wallet returns: it may be another transaction than the one it was given.
pub record SignedTransaction : Type 0 where
  pub body : Transaction
  pub signatures : List SignaturePair
  pub verifies : Bool

pub record TransactionResult : Type 0 where
  pub signature : String
  pub success : Bool

pub record ProposalAccount : Type 0 where
  pub snapshot_slot : ℕ
  pub end_epoch : ℕ
  pub num_supporters : ℕ

pub record VoteAccountInfo : Type 0 where
  pub node_pubkey : PublicKey
  pub vote_pubkey : PublicKey

pub record EpochInfo : Type 0 where
  pub epoch : ℕ
  pub slot_index : ℕ
  pub slots_in_epoch : ℕ
  pub absolute_slot : ℕ

pub record VoteAccountProofLeaf : Type 0 where
  pub active_stake : String
  pub stake_merkle_root : String
  pub vote_account : String
  pub voting_wallet : String

pub record VoteAccountProofResponse : Type 0 where
  pub meta_merkle_leaf : VoteAccountProofLeaf
  pub meta_merkle_proof : List String

pub record StakeMerkleLeafRaw : Type 0 where
  pub active_stake : String
  pub stake_account : String
  pub voting_wallet : String

-- `vote_account` may be missing from the response of an older verifier
pub record StakeAccountProofResponse : Type 0 where
  pub stake_merkle_leaf : StakeMerkleLeafRaw
  pub stake_merkle_proof : List String
  pub vote_account : Option String

pub data Seed : Type 0 where
  label : String → Seed
  key : PublicKey → Seed
  u64_le : ℕ → Seed
