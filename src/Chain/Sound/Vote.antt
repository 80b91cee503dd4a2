-- ===== src/Chain/Sound/Vote.antt =====
-- The soundness of a validator's vote (frontend/src/chain/instructions/castVote.ts, modifyVote.ts).
use Prim.Native.String.{String}
use solana_governance.Common.{
  ◌≡◌, refl, ◌⊎◌, inl, inr, Bool, true, false, some, List, [], ◌∷◌, ◌++◌, All,
}
use solana_governance.Common.Int.{ℤ}
use solana_governance.Chain.Types.{
  PublicKey, Instruction, init_meta_merkle_proof, MetaMerkleLeaf, ok, VoteAccountProofResponse,
  ProposalAccount,
}
use solana_governance.Chain.Flow.{Trace, Env, looked_up, asked_blockhash}
use solana_governance.Chain.Vote.{
  VoteParams, init_instruction, unless_known, vote_context, cast_vote, modify_vote,
}
use solana_governance.Chain.Helpers.{to_basis_points}
use solana_governance.Chain.Sound.{IsIntegral, SoundInstruction, IsSound, IsWhole, IsReady, Creates}
use solana_governance.Chain.Sound.Rules.{
  Ensures, bind-Ensures, lift-Ensures, ask-Ensures, require-Ensures, given-Ensures, return-Ensures,
  Ensures-anyhow,
}
use solana_governance.Chain.Sound.Steps.{
  sends-Ensures, close_timestamp-Ensures, look_up-Ensures, validate_vote_basis_points-IsWhole,
}

-- how the proof account of a vote is provided for: it exists, or the one instruction creates it
pub data Provides (signer proof : PublicKey) (tr : Trace) : List Instruction → Type 0 where
  exists : IsReady proof tr → Provides signer proof tr []
  creates :
      (leaf : MetaMerkleLeaf) (proofs : List PublicKey) (close : ℤ) (consensus : PublicKey)
      → Provides signer proof tr
          (init_meta_merkle_proof leaf proofs close consensus proof signer ∷ [])

-- the instructions of a vote are sound where the proof account is provided for
provided :
    (signer proof : PublicKey) (inits : List Instruction) (tr : Trace) (vote : Instruction)
    → Provides signer proof tr inits
    → (IsReady proof tr ⊎ Creates proof (inits ++ vote ∷ [])
        → SoundInstruction signer (asked_blockhash ∷ tr) (inits ++ vote ∷ []) vote)
    → All (SoundInstruction signer (asked_blockhash ∷ tr) (inits ++ vote ∷ [])) (inits ++ vote ∷ [])
provided signer proof inits tr vote (exists ready) k = (k (inl ready), tt)
provided signer proof inits tr vote (creates leaf proofs close consensus) k =
    (refl, (k (inr (inl refl)), tt))

module _ (env : Env) where
  init_instruction-Ensures :
      (signer consensus merkle_proof : PublicKey) (proof : VoteAccountProofResponse)
      (account : ProposalAccount) (tr : Trace)
      → IsSound signer tr
      → Ensures
          (init_instruction env signer consensus merkle_proof proof account)
          tr
          (IsSound signer)
          (λ inits tr'. IsSound signer tr' × Provides signer merkle_proof tr' inits)
  unfolding init_instruction
  init_instruction-Ensures signer consensus merkle_proof proof account tr s =
      lift-Ensures _ _ tr s λ end_epoch _.
        bind-Ensures {Q = λ _ t. IsSound signer t} _ _ _
          (close_timestamp-Ensures env signer end_epoch tr s)
          λ close t q. lift-Ensures _ _ t q λ wallet _. lift-Ensures _ _ t q λ vote _.
            lift-Ensures _ _ t q λ root _. lift-Ensures _ _ t q λ stake _.
              lift-Ensures _ _ t q
                λ proofs _. return-Ensures _ t (q, creates _ proofs close consensus)

  unless_known-Ensures :
      (signer consensus merkle_proof : PublicKey) (proof : VoteAccountProofResponse)
      (account : ProposalAccount) (tr : Trace) (known : Bool)
      → env.get_account_info merkle_proof tr ≡ ok known
      → IsSound signer tr
      → Ensures
          (unless_known known (init_instruction env signer consensus merkle_proof proof account))
          (looked_up merkle_proof known ∷ tr)
          (IsSound signer)
          (λ inits tr'. IsSound signer tr' × Provides signer merkle_proof tr' inits)
  unless_known-Ensures signer consensus merkle_proof proof account tr true e s =
      return-Ensures _ _ ((tt, s), exists (inl refl))
  unless_known-Ensures signer consensus merkle_proof proof account tr false e s =
      init_instruction-Ensures signer consensus merkle_proof proof account _ (tt, s)

  vote_context-Ensures :
      (params : VoteParams) (network : String) (signer : PublicKey) (tr : Trace)
      → params.wallet ≡ some signer
      → IsIntegral params.distribution
      → IsSound signer tr
      → Ensures (vote_context env params network) tr (IsSound signer) (λ c tr'.
        IsSound signer tr'
        × IsWhole (to_basis_points params.distribution)
        × (c.signer ≡ signer)
        × Provides signer c.meta_merkle_proof tr' c.init_instructions)
  unfolding vote_context
  vote_context-Ensures params network signer tr w integral s = given-Ensures _ _ signer _ tr w (
      require-Ensures _ _ _ tr s λ consensus _. lift-Ensures _ _ tr s λ u whole.
        lift-Ensures _ _ tr s λ proposal _.
          ask-Ensures _ _ _ tr (tt, s)
            λ account _.
              lift-Ensures _ _ _ (tt, s)
                λ slot _.
                  ask-Ensures _ _ _ _ (tt, (tt, s))
                    λ accounts _.
                      require-Ensures _ _ _ _ (tt, (tt, s))
                        λ validator _.
                          lift-Ensures _ _ _ (tt, (tt, s))
                            λ spl _.
                              ask-Ensures _ _ _ _ (tt, (tt, (tt, s)))
                                λ proof _.
                                  lift-Ensures _ _ _ (tt, (tt, (tt, s)))
                                    λ merkle_proof _.
                                      look_up-Ensures env signer merkle_proof _ _
                                        (tt, (tt, (tt, s)))
                                        λ known e.
                                          bind-Ensures
                                            {Q = λ inits t.
                                              IsSound signer t
                                              × Provides signer merkle_proof t inits}
                                            _ _ _
                                            (unless_known-Ensures signer consensus merkle_proof
                                              proof account _ known e (tt, (tt, (tt, s))))
                                            λ inits t q. return-Ensures _ t (
                                              q.0,
                                              validate_vote_basis_points-IsWhole _ u integral whole,
                                              refl,
                                              q.1,
                                            ))

  cast_vote-Ensures :
      (params : VoteParams) (network : String) (signer : PublicKey) (tr : Trace)
      → params.wallet ≡ some signer
      → IsIntegral params.distribution
      → IsSound signer tr
      → Ensures (cast_vote env params network) tr (IsSound signer) (λ _ t. IsSound signer t)
  unfolding cast_vote
  cast_vote-Ensures params network signer tr w integral s =
      bind-Ensures _ _ tr (vote_context-Ensures params network signer tr w integral s) λ c t q.
        bind-Ensures _ _ t
          (sends-Ensures env signer c.signer _ t q.2 q.0
            (provided signer c.meta_merkle_proof c.init_instructions t _ q.3 λ r. (q.1, q.2, r)))
          λ signature t' p. return-Ensures _ t' p

  modify_vote-Ensures :
      (params : VoteParams) (network : String) (signer : PublicKey) (tr : Trace)
      → params.wallet ≡ some signer
      → IsIntegral params.distribution
      → IsSound signer tr
      → Ensures (modify_vote env params network) tr (IsSound signer) (λ _ t. IsSound signer t)
  unfolding modify_vote
  modify_vote-Ensures params network signer tr w integral s =
      bind-Ensures _ _ tr (vote_context-Ensures params network signer tr w integral s) λ c t q.
        bind-Ensures _ _ t
          (sends-Ensures env signer c.signer _ t q.2 q.0
            (provided signer c.meta_merkle_proof c.init_instructions t _ q.3 λ r. (q.1, q.2, r)))
          λ signature t' p. return-Ensures _ t' p

-- Whatever the wallet, the chain and the proof service answer, and whether or not they succeed,
-- casting and modifying a validator's vote for a connected key keep the trace sound, if the basis
-- points that are handed over are integers whose sum is below 2 ^ 53: a signature is asked for a
-- vote only if it gives away exactly 10000 basis points in the key's name and the proof account was
-- found or the same transaction creates it; and only a transaction that the key signed, and whose
-- signatures verify, is sent.
pub votes-IsSound :
    (env : Env) (params : VoteParams) (network : String) (signer : PublicKey) (tr : Trace)
    → params.wallet ≡ some signer
    → IsIntegral params.distribution
    → IsSound signer tr
    → IsSound signer (cast_vote env params network tr).1
      × IsSound signer (modify_vote env params network tr).1
votes-IsSound env params network signer tr w integral s = (
  Ensures-anyhow _ tr (λ _ _ q. q) (cast_vote-Ensures env params network signer tr w integral s),
  Ensures-anyhow _ tr (λ _ _ q. q) (modify_vote-Ensures env params network signer tr w integral s),
)
