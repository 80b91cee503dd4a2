-- ===== src/Chain/Live/Steps.antt =====
-- The return of the steps that every vote shares (frontend/src/chain/instructions/helpers.ts).
use solana_governance.Common.{ℕ, ◌<◌, ◌≡◌, refl, List, arith, leb, if◌then◌else◌}
use solana_governance.Common.Double.{integer}
use solana_governance.Chain.Types.{
  PublicKey, Result, ok, err, Instruction, Distribution, VoteAccountProofResponse, no_snapshot_slot,
}
use solana_governance.Chain.Flow.{Trace, Env}
use solana_governance.Chain.Helpers.{
  ◌>>=ʳ◌, total_bp, validate_vote_basis_points, resolve_proposal_snapshot_slot,
  get_meta_merkle_proof_pda, sign_and_send, sign_transaction_for_wallet,
}
use solana_governance.Chain.Slots.{compute_proof_close_timestamp}
use solana_governance.Chain.Slots.Laws.{block_time_at_or_before-finds}
use solana_governance.Chain.Sound.Rules.{Outcome, bind-Ensures, return-Ensures}
use solana_governance.Chain.Live.{
  Answered, Answers, Returns, Cooperates, then-Answered, ask-Returns, lift_last-Returns,
  ask_last-Returns, check_signed-Answers,
}

-- the flow returns, and nothing more
abbrev pub Done : {A : Type 0} → A → Trace → Type 0
Done a tr = Unit

pub validate_vote_basis_points-Answers :
    (d : Distribution) → total_bp d ≡ integer 10000 → Answers (validate_vote_basis_points d)
unfolding validate_vote_basis_points
validate_vote_basis_points-Answers d h = ground arith

positive_slot :
    (slot : ℕ) → 0 < slot → (if leb slot 0 then err no_snapshot_slot else ok slot) ≡ ok slot
positive_slot slot h = ground arith

positive_slot-Answers :
    (slot : ℕ) → 0 < slot → Answers (if leb slot 0 then err no_snapshot_slot else ok slot)
positive_slot-Answers slot h = rw (positive_slot slot h) tt

pub resolve_proposal_snapshot_slot-Answers :
    (env : Env) (snapshot_slot : ℕ)
    → Answered (env.to_number snapshot_slot) (λ slot. 0 < slot)
    → Answers (resolve_proposal_snapshot_slot env snapshot_slot)
unfolding resolve_proposal_snapshot_slot
resolve_proposal_snapshot_slot-Answers env snapshot_slot p =
    then-Answered (λ _. Unit) (env.to_number snapshot_slot) _ p positive_slot-Answers

then_ok-Answers :
    {A B : Type 0} (r : Result A) (g : A → B) → Answers r → Answers (r >>=ʳ λ a. ok (g a))
then_ok-Answers (ok a) g p = tt
then_ok-Answers (err e) g p = p

pub get_meta_merkle_proof_pda-Answers :
    (env : Env) (proof : VoteAccountProofResponse) (consensus : PublicKey)
    → Answers (env.public_key proof.meta_merkle_leaf.vote_account)
    → Answers (get_meta_merkle_proof_pda env proof consensus)
unfolding get_meta_merkle_proof_pda
get_meta_merkle_proof_pda-Answers env proof consensus p = then_ok-Answers _ _ p

resolved-Outcome :
    {A : Type 0} (r : Result A) (a : A) (tr : Trace) → r ≡ ok a → Outcome (λ _. ⊥) Done r tr
resolved-Outcome r a tr e = rw e tt

module _ (env : Env) (signer : PublicKey) (calls : Cooperates env signer) where
  pub close_timestamp-Returns :
      (end_epoch : ℕ) (tr : Trace) → Returns (compute_proof_close_timestamp env end_epoch) tr Done
  unfolding compute_proof_close_timestamp
  close_timestamp-Returns end_epoch tr = ask-Returns _ _ _ tr (calls.epoch tr) λ info h.
      bind-Ensures {Q = Done} _ _ _
        (record {
          outcome =
              let found =
                block_time_at_or_before-finds env info.absolute_slot h.0 h.1 h.2 h.3 h.4 _ in
              resolved-Outcome _ found.0 _ found.1;
        })
        λ reference t _. return-Ensures _ t tt

  pub sign_and_send-Returns :
      (instructions : List Instruction) (tr : Trace)
      → Returns (sign_and_send env signer instructions) tr Done
  unfolding sign_and_send sign_transaction_for_wallet
  sign_and_send-Returns instructions tr = ask-Returns _ _ _ tr (calls.blockhash tr) λ blockhash _.
      bind-Ensures {Q = Done} _ _ _
        (ask-Returns _ _ _ _ (calls.signs _ _)
          λ signed h. lift_last-Returns _ _ (check_signed-Answers signer signed h))
        λ tx t _. ask_last-Returns _ _ t (calls.sends tx t)

  pub sends-Returns :
      (key : PublicKey)
      → key ≡ signer
      → (instructions : List Instruction) (tr : Trace)
      → Returns (sign_and_send env key instructions) tr Done
  sends-Returns key e instructions tr = rw e (sign_and_send-Returns instructions tr)

-- a flow that returns has an answer
pub answer :
    {A : Type 0} (r : Result A) (tr : Trace) → Outcome (λ _. ⊥) Done r tr → (a : A) × (r ≡ ok a)
answer (ok a) tr o = (a, refl)
answer (err e) tr o = absurd o
