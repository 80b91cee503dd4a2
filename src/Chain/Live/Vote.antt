-- ===== src/Chain/Live/Vote.antt =====
-- The return of a validator's vote (frontend/src/chain/instructions/castVote.ts, modifyVote.ts).
use Prim.Native.String.{String}
use solana_governance.Common.{◌≡◌, refl, Bool, true, false, some, List}
use solana_governance.Common.Double.{integer}
use solana_governance.Chain.Types.{
  PublicKey, ok, Instruction, TransactionResult, VoteAccountProofResponse, ProposalAccount,
}
use solana_governance.Chain.Flow.{Trace, Flow, Env, ◌>>=◌, return}
use solana_governance.Chain.Helpers.{total_bp, sign_and_send}
use solana_governance.Chain.Vote.{
  VoteParams, VoteContext, init_instruction, unless_known, vote_context, cast_vote, modify_vote,
}
use solana_governance.Chain.Sound.Rules.{bind-Ensures, given-Ensures, return-Ensures}
use solana_governance.Chain.Live.{
  Answers, Returns, Parses, Cooperates, Validates, lift-Returns, ask-Returns, look_up-Returns,
}
use solana_governance.Chain.Live.Steps.{
  Done, validate_vote_basis_points-Answers, resolve_proposal_snapshot_slot-Answers,
  get_meta_merkle_proof_pda-Answers, close_timestamp-Returns, sends-Returns, answer,
}

module _ (env : Env) (signer : PublicKey) (params : VoteParams) (calls : Cooperates env signer)
    (own : Validates env signer params) where
  init_instruction-Returns :
      (consensus merkle_proof : PublicKey) (proof : VoteAccountProofResponse)
      (account : ProposalAccount) (tr : Trace)
      → Parses env proof
      → Answers (env.to_number account.end_epoch)
      → Returns (init_instruction env signer consensus merkle_proof proof account) tr Done
  unfolding init_instruction
  init_instruction-Returns consensus merkle_proof proof account tr p e =
      lift-Returns _ _ tr e λ end_epoch _.
        bind-Ensures {Q = Done} _ _ _ (close_timestamp-Returns env signer calls end_epoch tr)
          λ close t _. lift-Returns _ _ t p.1 λ _ _. lift-Returns _ _ t p.0 λ _ _.
            lift-Returns _ _ t p.2 λ _ _.
              lift-Returns _ _ t p.3 λ _ _. lift-Returns _ _ t p.4 λ _ _. return-Ensures _ t tt

  unless_known-Returns :
      (known : Bool) (build : Flow (List Instruction)) (tr : Trace)
      → Returns build tr Done
      → Returns (unless_known known build) tr Done
  unless_known-Returns true build tr b = return-Ensures _ tr tt
  unless_known-Returns false build tr b = b

  vote_context-Returns :
      (network : String) (consensus : PublicKey) (tr : Trace)
      → params.wallet ≡ some signer
      → params.consensus_result ≡ some consensus
      → total_bp params.distribution ≡ integer 10000
      → Returns (vote_context env params network) tr (λ c t. c.signer ≡ signer)
  unfolding vote_context
  vote_context-Returns network consensus tr w c total = given-Ensures _ _ signer _ tr w (
      given-Ensures _ _ consensus _ tr c (
        lift-Returns _ _ tr (validate_vote_basis_points-Answers params.distribution total) λ _ _.
          lift-Returns _ _ tr own.proposal_key λ proposal _.
            ask-Returns _ _ _ tr (calls.account proposal tr) λ account a.
              lift-Returns _ _ _ (resolve_proposal_snapshot_slot-Answers env _ a.0) λ slot _.
                ask-Returns _ _ _ _ (own.validators _) λ vs v. given-Ensures _ _ v.0 _ _ v.1 (
                  lift-Returns _ _ _ v.2 λ spl _. ask-Returns _ _ _ _ (own.proof _ _ _ _) λ proof p.
                    lift-Returns _ _ _ (get_meta_merkle_proof_pda-Answers env proof consensus p.0)
                      λ merkle_proof _.
                        look_up-Returns env merkle_proof _ _ (calls.known _ _) λ known t.
                          bind-Ensures _ _ t
                            (unless_known-Returns known _ t (
                              init_instruction-Returns consensus merkle_proof proof account t p
                                a.1))
                            λ inits t' _. return-Ensures _ t' refl)))

  -- every vote ends so
  sends_last-Returns :
      (context : Flow VoteContext) (instructions : VoteContext → List Instruction) (tr : Trace)
      → Returns context tr (λ c t. c.signer ≡ signer)
      → Returns {A = TransactionResult}
          (context >>= λ c. sign_and_send env c.signer (instructions c) >>= λ signature.
            return (record { signature = signature; success = true }))
          tr
          Done
  sends_last-Returns context instructions tr r = bind-Ensures _ _ tr r λ c t e.
      bind-Ensures {Q = Done} _ _ t (sends-Returns env signer calls c.signer e (instructions c) t)
        λ signature t' _. return-Ensures _ t' tt

-- A vote whose basis points add up to 10000 in doubles goes through, for a connected key and a known
-- consensus result, if every call is answered, the proposal has a snapshot slot, the key is the
-- identity of a validator, one of the last eight slots always has a block time, and the wallet signs
-- for the key: casting and modifying return a result.
pub votes-Answers :
    (env : Env) (signer consensus : PublicKey) (params : VoteParams) (network : String) (tr : Trace)
    → params.wallet ≡ some signer
    → params.consensus_result ≡ some consensus
    → total_bp params.distribution ≡ integer 10000
    → Cooperates env signer
    → Validates env signer params
    → ((r : TransactionResult) × ((cast_vote env params network tr).0 ≡ ok r))
      × ((r : TransactionResult) × ((modify_vote env params network tr).0 ≡ ok r))
unfolding cast_vote modify_vote
votes-Answers env signer consensus params network tr w c total calls own =
    let context = vote_context-Returns env signer params calls own network consensus tr w c total in
    (
      answer _ _ (sends_last-Returns env signer params calls own _ _ tr context).outcome,
      answer _ _ (sends_last-Returns env signer params calls own _ _ tr context).outcome,
    )
