-- ===== src/Chain/Live/Override.antt =====
-- The return of an override (frontend/src/chain/instructions/castVoteOverride.ts, modifyVoteOverride.ts).
use Prim.Native.String.{String}
use text.Mathlib.Text.{◌==◌ as str_eq}
use solana_governance.Common.{ℕ, ◌≡◌, refl, Bool, true, false, Option, none, some, List, ◌∷◌, arith}
use solana_governance.Common.Double.{integer}
use solana_governance.Chain.Types.{
  PublicKey, Result, ok, err, Instruction, TransactionResult, VoteAccountProofResponse,
  StakeAccountProofResponse, ProposalAccount,
}
use solana_governance.Chain.Flow.{
  Trace, Flow, Env, ◌>>=◌, return, confirm, continue, confirmed, outcome,
}
use solana_governance.Chain.Helpers.{
  total_bp, resolve_snapshot_vote_account, assert_override_proof_lineage, sign_and_send,
}
use solana_governance.Chain.Override.{
  OverrideParams, OverrideContext, confirmed_or_throw, initialize_proof, initialize_unless_known,
  override_context, cast_vote_override, modify_vote_override, or_mainnet,
}
use solana_governance.Chain.Sound.Rules.{Outcome, bind-Ensures, given-Ensures, return-Ensures}
use solana_governance.Chain.Live.{
  Answered, Answers, Returns, Parses, Cooperates, Delegates, lift-Returns, ask-Returns,
  look_up-Returns,
}
use solana_governance.Chain.Live.Steps.{
  Done, validate_vote_basis_points-Answers, resolve_proposal_snapshot_slot-Answers,
  get_meta_merkle_proof_pda-Answers, close_timestamp-Returns, sign_and_send-Returns, sends-Returns,
  answer,
}

resolved_key :
    (env : Env) (proof : StakeAccountProofResponse) (validator : String) (key : PublicKey)
    → proof.vote_account ≡ some validator
    → str_eq validator "" ≡ false
    → env.public_key validator ≡ ok key
    → resolve_snapshot_vote_account env proof ≡ ok key
unfolding resolve_snapshot_vote_account
resolved_key env proof validator key v n k = ground arith

resolve_snapshot_vote_account-Answered :
    (env : Env) (proof : StakeAccountProofResponse) (validator : String) (key : PublicKey)
    → proof.vote_account ≡ some validator
    → str_eq validator "" ≡ false
    → env.public_key validator ≡ ok key
    → Answered (resolve_snapshot_vote_account env proof) (λ k. k ≡ key)
resolve_snapshot_vote_account-Answered env proof validator key v n k =
    rw (resolved_key env proof validator key v n k) refl

assert_override_proof_lineage-Answers :
    (stake : StakeAccountProofResponse) (meta : VoteAccountProofResponse) (validator : String)
    → stake.vote_account ≡ some validator
    → str_eq meta.meta_merkle_leaf.vote_account validator ≡ true
    → Answers (assert_override_proof_lineage stake meta)
unfolding assert_override_proof_lineage
assert_override_proof_lineage-Answers stake meta validator v same = rw v (rw same tt)

confirmed-Outcome :
    (signature : String) (r : Result (Option String)) (tr : Trace)
    → Answered r (λ reason. reason ≡ none)
    → let end = continue confirmed_or_throw r (confirmed signature (outcome r) ∷ tr) in
      Outcome (λ _. ⊥) Done end.0 end.1
unfolding return
confirmed-Outcome signature (ok none) tr p = tt
confirmed-Outcome signature (ok (some reason)) tr p = absurd (cc)
confirmed-Outcome signature (err e) tr p = absurd p

module _ (env : Env) (signer : PublicKey) (params : OverrideParams) (validator : String)
    (key : PublicKey) (calls : Cooperates env signer)
    (own : Delegates env params validator key) where
  own_proof-Answered :
      (k : PublicKey)
      → k ≡ key
      → (network : String) (slot : ℕ) (tr : Trace)
      → Answered
          (env.fetch_vote_proof k network slot tr)
          (λ m. Parses env m × (str_eq m.meta_merkle_leaf.vote_account validator ≡ true))
  own_proof-Answered k same network slot tr = rw same (own.own_proof network slot tr)

  confirm-Returns :
      (signature : String) (tr : Trace)
      → Returns (confirm env signature >>= confirmed_or_throw) tr Done
  unfolding ◌>>=◌ confirm
  confirm-Returns signature tr = record {
    outcome =
        confirmed-Outcome signature (env.confirm_transaction signature tr) tr
          (own.confirms signature tr);
  }

  initialize_proof-Returns :
      (consensus merkle_proof : PublicKey) (proof : VoteAccountProofResponse)
      (account : ProposalAccount) (tr : Trace)
      → Parses env proof
      → Answers (env.to_number account.end_epoch)
      → Returns (initialize_proof env signer consensus merkle_proof proof account) tr Done
  unfolding initialize_proof
  initialize_proof-Returns consensus merkle_proof proof account tr p e =
      lift-Returns _ _ tr p.2 λ _ _. lift-Returns _ _ tr p.4 λ _ _.
        lift-Returns _ _ tr e λ end_epoch _.
          bind-Ensures {Q = Done} _ _ _ (close_timestamp-Returns env signer calls end_epoch tr)
            λ close t _. lift-Returns _ _ t p.1 λ _ _. lift-Returns _ _ t p.0 λ _ _.
              lift-Returns _ _ t p.3 λ _ _.
                bind-Ensures {Q = Done} _ _ t (sign_and_send-Returns env signer calls _ t)
                  λ signature t' _. confirm-Returns signature t'

  initialize_unless_known-Returns :
      (known : Bool) (initialize : Flow (Unit {0})) (tr : Trace)
      → Returns initialize tr Done
      → Returns (initialize_unless_known known initialize) tr Done
  initialize_unless_known-Returns true initialize tr b = return-Ensures _ tr tt
  initialize_unless_known-Returns false initialize tr b = b

  override_context-Returns :
      (network : String) (consensus : PublicKey) (tr : Trace)
      → params.wallet ≡ some signer
      → params.consensus_result ≡ some consensus
      → total_bp params.distribution ≡ integer 10000
      → Returns
          (override_context env params network)
          tr
          (λ c t. c.override_accounts.signer ≡ signer)
  unfolding override_context
  override_context-Returns network consensus tr w c total = given-Ensures _ _ signer _ tr w (
      given-Ensures _ _ consensus _ tr c (
        lift-Returns _ _ tr (validate_vote_basis_points-Answers params.distribution total) λ _ _.
          lift-Returns _ _ tr own.proposal_key λ proposal _.
            ask-Returns _ _ _ tr (calls.account proposal tr) λ account a.
              lift-Returns _ _ _ (resolve_proposal_snapshot_slot-Answers env _ a.0) λ slot _.
                lift-Returns _ _ _ own.stake_key λ stake_account _.
                  ask-Returns _ _ _ _ (own.stake_proof network slot _) λ stake_proof s.
                    lift-Returns _ _ _
                      (resolve_snapshot_vote_account-Answered env stake_proof validator key s.0
                        own.validator_named own.validator_key)
                      λ spl same.
                        ask-Returns _ _ _ _ (own_proof-Answered spl same network slot _) λ meta m.
                          lift-Returns _ _ _
                            (assert_override_proof_lineage-Answers stake_proof meta validator s.0
                              m.1)
                            λ _ _.
                              lift-Returns _ _ _
                                (get_meta_merkle_proof_pda-Answers env meta consensus m.0.0)
                                λ merkle_proof _.
                                  look_up-Returns env merkle_proof _ _ (calls.known _ _) λ known t.
                                    bind-Ensures _ _ t
                                      (initialize_unless_known-Returns known _ t (
                                        initialize_proof-Returns consensus merkle_proof meta account
                                          t m.0 a.1))
                                      λ _ t' _. lift-Returns _ _ t' s.1 λ _ _.
                                        lift-Returns _ _ t' s.2 λ _ _. return-Ensures _ t' refl))

  -- every override ends so
  sends_last-Returns :
      (context : Flow OverrideContext) (instructions : OverrideContext → List Instruction)
      (tr : Trace)
      → Returns context tr (λ c t. c.override_accounts.signer ≡ signer)
      → Returns {A = TransactionResult}
          (context >>= λ c.
            sign_and_send env c.override_accounts.signer (instructions c) >>= λ signature.
            return (record { signature = signature; success = true }))
          tr
          Done
  sends_last-Returns context instructions tr r = bind-Ensures _ _ tr r λ c t e.
      bind-Ensures {Q = Done} _ _ t
        (sends-Returns env signer calls c.override_accounts.signer e (instructions c) t)
        λ signature t' _. return-Ensures _ t' tt

-- An override whose basis points add up to 10000 in doubles goes through, for a connected key and a
-- known consensus result, if every call is answered, the proposal has a snapshot slot, the service
-- has the proof of the stake and the proof of the validator that it names, one of the last eight
-- slots always has a block time, no confirmation has an error, and the wallet signs for the key:
-- casting and modifying return a result.
pub overrides-Answers :
    (env : Env) (signer consensus : PublicKey) (params : OverrideParams) (network : String)
    (validator : String) (key : PublicKey) (tr : Trace)
    → params.wallet ≡ some signer
    → params.consensus_result ≡ some consensus
    → total_bp params.distribution ≡ integer 10000
    → Cooperates env signer
    → Delegates env params validator key
    → ((r : TransactionResult) × ((cast_vote_override env params network tr).0 ≡ ok r))
      × ((r : TransactionResult) × ((modify_vote_override env params network tr).0 ≡ ok r))
unfolding cast_vote_override modify_vote_override
overrides-Answers env signer consensus params network validator key tr w c total calls own =
    let context = λ (net : String).
      override_context-Returns env signer params validator key calls own net consensus tr w c
        total in
    (
      answer _ _
          (sends_last-Returns env signer params validator key calls own _ _ tr
            (context network)).outcome,
      answer _ _
          (sends_last-Returns env signer params validator key calls own _ _ tr
            (context (or_mainnet network))).outcome,
    )
