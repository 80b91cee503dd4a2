-- ===== src/Chain/Sound/Override.antt =====
-- The soundness of an override (frontend/src/chain/instructions/castVoteOverride.ts,
-- modifyVoteOverride.ts).
use Prim.Native.String.{String}
use solana_governance.Common.{◌≡◌, refl, inl, Bool, true, false, Option, none, some, List, ◌∷◌}
use solana_governance.Chain.Types.{
  PublicKey, Instruction, Result, ok, err, VoteAccountProofResponse, ProposalAccount,
}
use solana_governance.Chain.Flow.{
  Trace, Env, looked_up, confirmed, confirm, outcome, continue, ◌>>=◌, return, throw,
}
use solana_governance.Chain.Override.{
  OverrideParams, confirmed_or_throw, initialize_proof, initialize_unless_known, override_context,
  cast_vote_override, modify_vote_override, or_mainnet,
}
use solana_governance.Chain.Helpers.{to_basis_points}
use solana_governance.Chain.Sound.{IsIntegral, IsSound, IsWhole, IsReady, Creates}
use solana_governance.Chain.Sound.Rules.{
  Ensures, Outcome, bind-Ensures, lift-Ensures, ask-Ensures, require-Ensures, given-Ensures,
  return-Ensures, Ensures-anyhow,
}
use solana_governance.Chain.Sound.Steps.{
  Sent, sends-Ensures, sign_and_send-Ensures, close_timestamp-Ensures,
  validate_vote_basis_points-IsWhole, look_up-Ensures,
}

module _ (env : Env) where
  -- after the creation was sent, a confirmation without an error makes the proof account ready
  confirmed-outcome :
      (signer proof : PublicKey) (signature : String) (inits : List Instruction) (tr tr' : Trace)
      (r : Result (Option String))
      → IsSound signer tr'
      → Creates proof inits
      → Sent signer inits tr tr'
      → let end = continue confirmed_or_throw r (confirmed signature (outcome r) ∷ tr') in
        Outcome (IsSound signer) (λ _ t. IsSound signer t × IsReady proof t) end.0 end.1
  unfolding return throw
  confirmed-outcome signer proof signature inits tr tr' (ok none) s c sent =
      ((tt, s), inl (rw sent.3 (inl (rw sent.2 c))))
  confirmed-outcome signer proof signature inits tr tr' (ok (some reason)) s c sent = (tt, s)
  confirmed-outcome signer proof signature inits tr tr' (err x) s c sent = (tt, s)

  confirm-Ensures :
      (signer proof : PublicKey) (signature : String) (inits : List Instruction) (tr tr' : Trace)
      → IsSound signer tr'
      → Creates proof inits
      → Sent signer inits tr tr'
      → Ensures
          (confirm env signature >>= confirmed_or_throw)
          tr'
          (IsSound signer)
          (λ _ t. IsSound signer t × IsReady proof t)
  unfolding ◌>>=◌ confirm
  confirm-Ensures signer proof signature inits tr tr' s c sent = record {
    outcome =
        confirmed-outcome signer proof signature inits tr tr'
          (env.confirm_transaction signature tr') s c sent;
  }

  initialize_proof-Ensures :
      (signer consensus merkle_proof : PublicKey) (proof : VoteAccountProofResponse)
      (account : ProposalAccount) (tr : Trace)
      → IsSound signer tr
      → Ensures
          (initialize_proof env signer consensus merkle_proof proof account)
          tr
          (IsSound signer)
          (λ _ t. IsSound signer t × IsReady merkle_proof t)
  unfolding initialize_proof
  initialize_proof-Ensures signer consensus merkle_proof proof account tr s =
      lift-Ensures _ _ tr s λ root _. lift-Ensures _ _ tr s λ proofs _.
        lift-Ensures _ _ tr s λ end_epoch _.
          bind-Ensures {Q = λ _ t. IsSound signer t} _ _ _
            (close_timestamp-Ensures env signer end_epoch tr s)
            λ close t q. lift-Ensures _ _ t q λ wallet _. lift-Ensures _ _ t q λ vote _.
              lift-Ensures _ _ t q λ stake _.
                bind-Ensures _ _ t (sign_and_send-Ensures env signer _ t q (refl, tt))
                  λ signature t' p.
                    confirm-Ensures signer merkle_proof signature _ t t' p.0 (inl refl) p.1

  initialize_unless_known-Ensures :
      (signer consensus merkle_proof : PublicKey) (proof : VoteAccountProofResponse)
      (account : ProposalAccount) (tr : Trace) (known : Bool)
      → IsSound signer tr
      → Ensures
          (initialize_unless_known known
            (initialize_proof env signer consensus merkle_proof proof account))
          (looked_up merkle_proof known ∷ tr)
          (IsSound signer)
          (λ _ t. IsSound signer t × IsReady merkle_proof t)
  initialize_unless_known-Ensures signer consensus merkle_proof proof account tr true s =
      return-Ensures _ _ ((tt, s), inl refl)
  initialize_unless_known-Ensures signer consensus merkle_proof proof account tr false s =
      initialize_proof-Ensures signer consensus merkle_proof proof account _ (tt, s)

  override_context-Ensures :
      (params : OverrideParams) (network : String) (signer : PublicKey) (tr : Trace)
      → params.wallet ≡ some signer
      → IsIntegral params.distribution
      → IsSound signer tr
      → Ensures (override_context env params network) tr (IsSound signer) (λ c t.
        IsSound signer t
        × IsWhole (to_basis_points params.distribution)
        × (c.override_accounts.signer ≡ signer)
        × IsReady c.override_accounts.meta_merkle_proof t)
  unfolding override_context
  override_context-Ensures params network signer tr w integral s = given-Ensures _ _ signer _ tr w (
      require-Ensures _ _ _ tr s λ consensus _. lift-Ensures _ _ tr s λ u whole.
        lift-Ensures _ _ tr s λ proposal _.
          ask-Ensures _ _ _ tr (tt, s)
            λ account _.
              lift-Ensures _ _ _ (tt, s)
                λ slot _.
                  lift-Ensures _ _ _ (tt, s)
                    λ stake_account _.
                      ask-Ensures _ _ _ _ (tt, (tt, s))
                        λ stake_proof _.
                          lift-Ensures _ _ _ (tt, (tt, s))
                            λ spl _.
                              ask-Ensures _ _ _ _ (tt, (tt, (tt, s)))
                                λ meta_proof _.
                                  lift-Ensures _ _ _ (tt, (tt, (tt, s)))
                                    λ v _.
                                      lift-Ensures _ _ _ (tt, (tt, (tt, s)))
                                        λ merkle_proof _.
                                          look_up-Ensures env signer merkle_proof _ _
                                            (tt, (tt, (tt, s)))
                                            λ known _.
                                              bind-Ensures _ _ _
                                                (initialize_unless_known-Ensures signer consensus
                                                  merkle_proof meta_proof account _ known
                                                  (tt, (tt, (tt, s))))
                                                λ _ t q. lift-Ensures _ _ t q.0 λ proofs _.
                                                  lift-Ensures _ _ t q.0 λ leaf _.
                                                    return-Ensures _ t (
                                                      q.0,
                                                      validate_vote_basis_points-IsWhole _ u
                                                          integral whole,
                                                      refl,
                                                      q.1,
                                                    ))

  cast_vote_override-Ensures :
      (params : OverrideParams) (network : String) (signer : PublicKey) (tr : Trace)
      → params.wallet ≡ some signer
      → IsIntegral params.distribution
      → IsSound signer tr
      → Ensures
          (cast_vote_override env params network)
          tr
          (IsSound signer)
          (λ _ t. IsSound signer t)
  unfolding cast_vote_override
  cast_vote_override-Ensures params network signer tr w integral s =
      bind-Ensures _ _ tr (override_context-Ensures params network signer tr w integral s) λ c t q.
        bind-Ensures _ _ t
          (sends-Ensures env signer c.override_accounts.signer _ t q.2 q.0 ((q.1, q.2, q.3), tt))
          λ signature t' p. return-Ensures _ t' p

  modify_vote_override-Ensures :
      (params : OverrideParams) (network : String) (signer : PublicKey) (tr : Trace)
      → params.wallet ≡ some signer
      → IsIntegral params.distribution
      → IsSound signer tr
      → Ensures
          (modify_vote_override env params network)
          tr
          (IsSound signer)
          (λ _ t. IsSound signer t)
  unfolding modify_vote_override
  modify_vote_override-Ensures params network signer tr w integral s =
      bind-Ensures _ _ tr
        (override_context-Ensures params (or_mainnet network) signer tr w integral s)
        λ c t q.
          bind-Ensures _ _ t
            (sends-Ensures env signer c.override_accounts.signer _ t q.2 q.0 ((q.1, q.2, q.3), tt))
            λ signature t' p. return-Ensures _ t' p

-- Whatever the wallet, the chain and the proof service answer, and whether or not they succeed,
-- casting and modifying an override for a connected key keep the trace sound, if the basis points
-- that are handed over are integers whose sum is below 2 ^ 53: a signature is asked for an override
-- only if it gives away exactly 10000 basis points in the key's name and the proof account was
-- found, or its creation was asked for and a later confirmation had no error; and only a transaction
-- that the key signed, and whose signatures verify, is sent.
pub overrides-IsSound :
    (env : Env) (params : OverrideParams) (network : String) (signer : PublicKey) (tr : Trace)
    → params.wallet ≡ some signer
    → IsIntegral params.distribution
    → IsSound signer tr
    → IsSound signer (cast_vote_override env params network tr).1
      × IsSound signer (modify_vote_override env params network tr).1
overrides-IsSound env params network signer tr w integral s = (
  Ensures-anyhow _ tr (λ _ _ q. q)
      (cast_vote_override-Ensures env params network signer tr w integral s),
  Ensures-anyhow _ tr (λ _ _ q. q)
      (modify_vote_override-Ensures env params network signer tr w integral s),
)
