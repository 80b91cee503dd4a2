-- ===== src/Chain/Sound.antt =====
-- What may happen on behalf of a connected wallet, whatever the libraries and services answer.
use text.Mathlib.Text.{◌==◌ as str_eq}
use solana_governance.Common.{
  ℕ, ◌+◌, ◌<◌, ◌≤◌, ◌≡◌, ◌⊎◌, Bool, true, false, Option, none, some, List, [], ◌∷◌, All,
}
use solana_governance.Common.Double.{integer, precision}
use solana_governance.Common.Text.{starts_with}
use solana_governance.Github.Validate.{on_chain_prefix, describe_on_chain_violation}
use solana_governance.Chain.Types.{
  PublicKey, Distribution, BasisPoints, Instruction, init_meta_merkle_proof, cast_vote_instruction,
  modify_vote_instruction, cast_override_instruction, modify_override_instruction,
  set_compute_unit_limit, support_instruction, create_instruction, Transaction, SignedTransaction,
  Result, ok, err,
}
use solana_governance.Chain.Flow.{
  Event, Trace, Flow, Env, asked_signature, sent, confirmed, looked_up, fetched_proposal,
  fetched_stake_proof, fetched_vote_proof, listed_vote_accounts, asked_epoch_info,
  asked_epoch_schedule, asked_blockhash, asked_block_time,
}
use solana_governance.Chain.Helpers.{signature_of, has_signature}
pub mod Rules
pub mod Steps
pub mod Vote
pub mod Override
pub mod Support
pub mod Create
pub mod Results

-- the wallet's answer carries a signature of the key, and its signatures verify
abbrev pub SignedBy : PublicKey → SignedTransaction → Type 0
SignedBy signer tx = (has_signature (signature_of signer tx) ≡ true) × (tx.verifies ≡ true)

-- an instruction of the list creates the proof account
abbrev pub Creates : PublicKey → List Instruction → Type 0
Creates proof [] = ⊥
Creates proof (init_meta_merkle_proof leaf proofs close consensus account payer ∷ rest) =
    (account ≡ proof) ⊎ Creates proof rest
Creates proof (_ ∷ rest) = Creates proof rest

-- a signature was asked for such an instruction
abbrev pub Requested : PublicKey → Trace → Type 0
Requested proof [] = ⊥
Requested proof (asked_signature tx ∷ tr) = Creates proof tx.instructions ⊎ Requested proof tr
Requested proof (_ ∷ tr) = Requested proof tr

-- the proof account was found, or its creation was confirmed without an error
abbrev pub IsReady : PublicKey → Trace → Type 0
IsReady proof [] = ⊥
IsReady proof (looked_up account true ∷ tr) = (account ≡ proof) ⊎ IsReady proof tr
IsReady proof (confirmed signature none ∷ tr) = Requested proof tr ⊎ IsReady proof tr
IsReady proof (_ ∷ tr) = IsReady proof tr

abbrev pub total_bn : BasisPoints → ℕ
total_bn b = b.for_votes_bn + b.against_votes_bn + b.abstain_votes_bn

-- integers, whose sum a double still tells apart
abbrev pub IsIntegral : Distribution → Type 0
IsIntegral d =
    (b : BasisPoints) × (d ≡ record {
      for_votes_bp = integer b.for_votes_bn;
      against_votes_bp = integer b.against_votes_bn;
      abstain_votes_bp = integer b.abstain_votes_bn;
    })
    × (total_bn b < precision)

abbrev pub IsWhole : BasisPoints → Type 0
IsWhole b = total_bn b ≡ 10000

-- A vote gives away the whole weight, for the connected key, on a proof account that exists: it was
-- ready before, or the same transaction creates it. An override needs it ready before. A request for
-- compute units stays within what the runtime grants. A proposal is created with a description that
-- has the prefix the program wants, and nothing that the program is known to refuse.
abbrev pub SoundInstruction : PublicKey → Trace → List Instruction → Instruction → Type 0
SoundInstruction signer tr all (init_meta_merkle_proof leaf proofs close consensus account payer) =
    payer ≡ signer
SoundInstruction signer tr all (cast_vote_instruction d accounts cache) =
    IsWhole d
    × (accounts.signer ≡ signer)
    × (IsReady accounts.meta_merkle_proof tr ⊎ Creates accounts.meta_merkle_proof all)
SoundInstruction signer tr all (modify_vote_instruction d accounts) =
    IsWhole d
    × (accounts.signer ≡ signer)
    × (IsReady accounts.meta_merkle_proof tr ⊎ Creates accounts.meta_merkle_proof all)
SoundInstruction signer tr all (cast_override_instruction d proofs leaf accounts) =
    IsWhole d × (accounts.signer ≡ signer) × IsReady accounts.meta_merkle_proof tr
SoundInstruction signer tr all (modify_override_instruction d proofs leaf accounts) =
    IsWhole d × (accounts.signer ≡ signer) × IsReady accounts.meta_merkle_proof tr
SoundInstruction signer tr all (set_compute_unit_limit units) = units ≤ 1400000
SoundInstruction signer tr all (support_instruction accounts) = accounts.signer ≡ signer
SoundInstruction signer tr all (create_instruction seed title description accounts) =
    (accounts.signer ≡ signer)
    × (starts_with description on_chain_prefix ≡ true)
    × (describe_on_chain_violation description ≡ false)

-- Signatures are asked only for transactions that the key pays for, of sound instructions; only what
-- the key signed is sent.
abbrev pub SoundEvent : PublicKey → Trace → Event → Type 0
SoundEvent signer tr (asked_signature tx) =
    (tx.fee_payer ≡ signer) × All (SoundInstruction signer tr tx.instructions) tx.instructions
SoundEvent signer tr (sent tx) = SignedBy signer tx
SoundEvent signer tr _ = Unit

abbrev pub IsSound : PublicKey → Trace → Type 0
IsSound signer [] = Unit
IsSound signer (e ∷ tr) = SoundEvent signer tr e × IsSound signer tr
