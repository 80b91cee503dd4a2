-- ===== src/Chain/Helpers.antt =====
-- frontend/src/chain/instructions/helpers.ts: the checks, addresses, proofs and the signature that
-- every instruction shares. A wallet is the key that it is connected with, if any. The fetches of a
-- proof are calls of the service: their URL is their account, network and slot.
use Prim.Native.String.{String}
use text.Mathlib.Text.{◌==◌ as str_eq}
use solana_governance.Common.{
  ℕ, ◌==◌, Bool, false, not, ◌&&◌, Option, none, some, List, [], ◌∷◌, find?, leb, if◌then◌else◌,
}
use solana_governance.Common.Double.{Double, integer, plus, truncated}
use solana_governance.Chain.Types.{
  PublicKey, Result, ok, err, no_snapshot_slot, bad_total, missing_snapshot_vote_account,
  proof_mismatch, signed_by_another, not_signed, invalid_signature, Distribution, BasisPoints,
  StakeMerkleLeaf, Transaction, SignaturePair, SignedTransaction, VoteAccountProofResponse,
  StakeMerkleLeafRaw, StakeAccountProofResponse, Instruction, label, key, u64_le,
}
use solana_governance.Chain.Flow.{
  Flow, Env, lift, ask, ◌>>=◌, asked_signature, asked_blockhash, sent,
}
use solana_governance.Lifecycle.{is_set}

-- the first signature slot of a key
abbrev pub signature_of : PublicKey → SignedTransaction → Option SignaturePair
signature_of signer tx = find? (λ s. str_eq s.public_key signer) tx.signatures

-- the truth value of `expectedSignature?.signature`
abbrev pub has_signature : Option SignaturePair → Bool
has_signature none = false
has_signature (some s) = is_set s.signature

-- a signature by another key
abbrev pub unexpected_signature : PublicKey → SignedTransaction → Option SignaturePair
unexpected_signature signer tx =
    find? (λ s. is_set s.signature && not (str_eq s.public_key signer)) tx.signatures

-- the checks on what the wallet returned
unfoldable pub check_signed : PublicKey → SignedTransaction → Result SignedTransaction
check_signed signer tx =
    if not (has_signature (signature_of signer tx)) && is_set (unexpected_signature signer tx)
    then err signed_by_another
    else if not (has_signature (signature_of signer tx))
    then err not_signed
    else if not tx.verifies
    then err invalid_signature
    else ok tx

unfoldable pub sign_transaction_for_wallet : Env → Transaction → PublicKey → Flow SignedTransaction
sign_transaction_for_wallet env transaction expected_signer = do
  signed ← ask (asked_signature transaction) (env.sign_transaction transaction)
  lift (check_signed expected_signer signed)

abbrev pub derive_proposal_index_pda : Env → PublicKey
derive_proposal_index_pda env = env.find_program_address (label "index" ∷ []) env.program_id

abbrev pub derive_global_config_pda : Env → PublicKey
derive_global_config_pda env = env.find_program_address (label "global_config" ∷ []) env.program_id

abbrev pub derive_vote_pda : Env → PublicKey → PublicKey → PublicKey
derive_vote_pda env proposal vote_account =
    env.find_program_address (label "vote" ∷ key proposal ∷ key vote_account ∷ []) env.program_id

abbrev pub derive_support_pda : Env → PublicKey → PublicKey → PublicKey
derive_support_pda env proposal vote_account =
    env.find_program_address (label "support" ∷ key proposal ∷ key vote_account ∷ []) env.program_id

abbrev pub derive_vote_override_pda : Env → PublicKey → PublicKey → PublicKey → PublicKey
derive_vote_override_pda env proposal stake_account validator_vote =
    env.find_program_address
      (label "vote_override" ∷ key proposal ∷ key stake_account ∷ key validator_vote ∷ [])
      env.program_id

abbrev pub derive_vote_override_cache_pda : Env → PublicKey → PublicKey → PublicKey
derive_vote_override_cache_pda env proposal vote =
    env.find_program_address (label "vote_override_cache" ∷ key proposal ∷ key vote ∷ [])
      env.program_id

-- frontend/src/chain/helpers.ts
abbrev pub derive_proposal_account : Env → ℕ → PublicKey → PublicKey
derive_proposal_account env seed spl_vote_account =
    env.find_program_address (label "proposal" ∷ u64_le seed ∷ key spl_vote_account ∷ [])
      env.program_id

infixl 5 ◌>>=ʳ◌
abbrev pub ◌>>=ʳ◌ {ℓ κ} : {A : Type ℓ} {B : Type κ} → Result A → (A → Result B) → Result B
ok a >>=ʳ f = f a
err e >>=ʳ f = err e

unfoldable pub get_meta_merkle_proof_pda :
    Env → VoteAccountProofResponse → PublicKey → Result PublicKey
get_meta_merkle_proof_pda env proof consensus_result =
    env.public_key proof.meta_merkle_leaf.vote_account >>=ʳ λ vote_account. ok (
      env.find_program_address
        (label "MetaMerkleProof" ∷ key consensus_result ∷ key vote_account ∷ [])
        env.snapshot_program_id)

-- `!vote_account` holds of a missing one and of the empty text
abbrev pub present : Option String → Option String
present none = none
present (some text) = if str_eq text "" then none else some text

unfoldable pub resolve_snapshot_vote_account : Env → StakeAccountProofResponse → Result PublicKey
resolve_snapshot_vote_account env proof = elim (present proof.vote_account) [
  | none ↦ err missing_snapshot_vote_account
  | some vote_account ↦ env.public_key vote_account
]

unfoldable pub resolve_proposal_snapshot_slot : Env → ℕ → Result ℕ
resolve_proposal_snapshot_slot env snapshot_slot =
    env.to_number snapshot_slot >>=ʳ λ slot. if leb slot 0 then err no_snapshot_slot else ok slot

-- the vote account of a stake proof, as the lineage check compares it
abbrev pub stated : Option String → String
stated none = "undefined"
stated (some text) = text

abbrev pub same_account : String → Option String → Bool
same_account account none = false
same_account account (some other) = str_eq account other

unfoldable pub assert_override_proof_lineage :
    StakeAccountProofResponse → VoteAccountProofResponse → Result (Unit {0})
assert_override_proof_lineage stake meta =
    if not (same_account meta.meta_merkle_leaf.vote_account stake.vote_account)
    then err (proof_mismatch (stated stake.vote_account) meta.meta_merkle_leaf.vote_account)
    else ok tt

unfoldable pub convert_merkle_proof_strings : Env → List String → Result (List PublicKey)
convert_merkle_proof_strings env [] = ok []
convert_merkle_proof_strings env (proof ∷ proofs) = env.public_key proof >>=ʳ λ first.
    convert_merkle_proof_strings env proofs >>=ʳ λ others. ok (first ∷ others)

unfoldable pub convert_stake_merkle_leaf_data_to_idl_type :
    Env → StakeMerkleLeafRaw → Result StakeMerkleLeaf
convert_stake_merkle_leaf_data_to_idl_type env leaf = env.big_number leaf.active_stake >>=ʳ λ stake.
    env.public_key leaf.stake_account >>=ʳ λ account.
    env.public_key leaf.voting_wallet >>=ʳ λ wallet.
    ok (record { active_stake = stake; stake_account = account; voting_wallet = wallet })

abbrev pub total_bp : Distribution → Double
total_bp d = plus (plus d.for_votes_bp d.against_votes_bp) d.abstain_votes_bp

-- `new BN`, of each
abbrev pub to_basis_points : Distribution → BasisPoints
to_basis_points d = record {
  for_votes_bn = truncated d.for_votes_bp;
  against_votes_bn = truncated d.against_votes_bp;
  abstain_votes_bn = truncated d.abstain_votes_bp;
}

unfoldable pub validate_vote_basis_points : Distribution → Result (Unit {0})
validate_vote_basis_points d =
    if not (total_bp d == integer 10000) then err (bad_total (total_bp d)) else ok tt

-- The end of every instruction: the transaction is built on a recent blockhash, signed by the wallet,
-- checked, and sent.
unfoldable pub sign_and_send : Env → PublicKey → List Instruction → Flow String
sign_and_send env signer instructions = do
  recent_blockhash ← ask asked_blockhash env.get_latest_blockhash
  tx ←
      sign_transaction_for_wallet env
        (record {
          instructions = instructions;
          fee_payer = signer;
          recent_blockhash = recent_blockhash;
        })
        signer
  ask (sent tx) (env.send_raw_transaction tx)
