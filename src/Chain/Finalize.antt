-- ===== src/Chain/Finalize.antt =====
-- frontend/src/chain/instructions/finalizeProposal.ts and addMerkleRoot.ts. Both catch what is thrown and
-- tell it in their result. The call of the generated method is an argument, and so is the reading of a
-- key; an error is its message.
use Prim.Native.String.{String}
use solana_governance.Common.{Bool, true, false, ◌⊎◌, inl, inr, ◌≡◌, ◌↔◌, refl, Option, none, some}
use solana_governance.Chain.Types.{PublicKey}

pub record FinalizeProposalParams : Type 0 where
  pub proposal_id : String
  pub wallet : Option PublicKey

pub record CaughtResult : Type 0 where
  pub signature : String
  pub success : Bool
  pub error : Option String

abbrev caught : String ⊎ String → CaughtResult
caught (inl message) = record { signature = ""; success = false; error = some message }
caught (inr signature) = record { signature = signature; success = true; error = none }

abbrev then_call : String ⊎ PublicKey → (PublicKey → String ⊎ String) → String ⊎ String
then_call (inl message) call = inl message
then_call (inr key) call = call key

abbrev for_wallet : Option PublicKey → (PublicKey → String ⊎ String) → String ⊎ String
for_wallet none call = inl "Wallet not connected"
for_wallet (some signer) call = call signer

module _ (public_key : String → String ⊎ PublicKey)
    (rpc : (signer proposal : PublicKey) → String ⊎ String) where
  unfoldable pub finalize_proposal : FinalizeProposalParams → CaughtResult
  finalize_proposal params =
      caught
        (for_wallet params.wallet λ signer. then_call (public_key params.proposal_id) (rpc signer))

-- the method is not implemented
unfoldable pub add_merkle_root : Option PublicKey → CaughtResult
add_merkle_root wallet = caught (for_wallet wallet λ signer. inl "Not implemented")

caught-success_inv :
    (r : String ⊎ String) (signature : String)
    → caught r ≡ record { signature = signature; success = true; error = none }
    → r ≡ inr signature
caught-success_inv (inl message) signature h = absurd (cc)
caught-success_inv (inr s) signature h = λ i. inr (h i).signature

for_wallet-inr_inv :
    (wallet : Option PublicKey) (call : PublicKey → String ⊎ String) (signature : String)
    → for_wallet wallet call ≡ inr signature
    → (signer : PublicKey) × (wallet ≡ some signer) × (call signer ≡ inr signature)
for_wallet-inr_inv none call signature h = absurd (cc)
for_wallet-inr_inv (some signer) call signature h = (signer, refl, h)

then_call-inr_inv :
    (read : String ⊎ PublicKey) (call : PublicKey → String ⊎ String) (signature : String)
    → then_call read call ≡ inr signature
    → (key : PublicKey) × (read ≡ inr key) × (call key ≡ inr signature)
then_call-inr_inv (inl message) call signature h = absurd (cc)
then_call-inr_inv (inr key) call signature h = (key, refl, h)

-- A finalization tells success exactly if there is a wallet, the proposal's key is read, and the method
-- called with both returns the signature that is told.
pub finalize_proposal-success_iff :
    (public_key : String → String ⊎ PublicKey)
    (rpc : (signer proposal : PublicKey) → String ⊎ String) (params : FinalizeProposalParams)
    (signature : String)
    → (finalize_proposal public_key rpc params
        ≡ record { signature = signature; success = true; error = none })
      ↔ ((signer : PublicKey) × (proposal : PublicKey) × (params.wallet ≡ some signer)
          × (public_key params.proposal_id ≡ inr proposal)
          × (rpc signer proposal ≡ inr signature))
unfolding finalize_proposal
finalize_proposal-success_iff public_key rpc params signature = (to, from)
  where
    to :
        caught (
            for_wallet params.wallet
              λ signer. then_call (public_key params.proposal_id) (rpc signer))
          ≡ record { signature = signature; success = true; error = none }
        → (signer : PublicKey) × (proposal : PublicKey) × (params.wallet ≡ some signer)
          × (public_key params.proposal_id ≡ inr proposal)
          × (rpc signer proposal ≡ inr signature)
    to h =
        let (signer, w, c) =
          for_wallet-inr_inv params.wallet _ signature (caught-success_inv _ signature h) in
        let (proposal, k, r) =
          then_call-inr_inv (public_key params.proposal_id) (rpc signer) signature c in
        (signer, proposal, w, k, r)

    from :
        (signer : PublicKey) × (proposal : PublicKey) × (params.wallet ≡ some signer)
          × (public_key params.proposal_id ≡ inr proposal)
          × (rpc signer proposal ≡ inr signature)
        → caught (
            for_wallet params.wallet
              λ signer. then_call (public_key params.proposal_id) (rpc signer))
          ≡ record { signature = signature; success = true; error = none }
    from (signer, proposal, w, k, r) = rw (w, k, r)

-- Adding a root never tells success.
pub add_merkle_root-fails : (wallet : Option PublicKey) → (add_merkle_root wallet).success ≡ false
unfolding add_merkle_root
add_merkle_root-fails none = refl
add_merkle_root-fails (some signer) = refl
