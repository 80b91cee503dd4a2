-- ===== src/Chain/Sound/Steps.antt =====
-- The soundness of the steps that every vote shares (frontend/src/chain/instructions/helpers.ts).
use solana_governance.Common.{
  ℕ, suc, ap, ◌∙◌, ◌==◌, not, if◌then◌else◌, ◌-◌, ◌+◌, zero, ◌≡◌, refl, Bool, List, ◌∷◌, All, arith,
}
use solana_governance.Chain.Types.{
  PublicKey, Distribution, Instruction, Transaction, SignedTransaction, Result, ok, err, bad_total,
}
use solana_governance.Chain.Flow.{
  Trace, Flow, Env, continue, ◌>>=◌, asked_signature, asked_blockhash, sent, asked_block_time,
  looked_up, look_up, answered,
}
use solana_governance.Chain.Slots.{
  block_time_loop, block_time_at_or_before, compute_proof_close_timestamp,
}
use solana_governance.Chain.Helpers.{
  check_signed, sign_transaction_for_wallet, sign_and_send, total_bp, to_basis_points,
  validate_vote_basis_points,
}
use solana_governance.Chain.Sound.{
  SignedBy, SoundInstruction, IsSound, IsWhole, IsIntegral, total_bn,
}
use solana_governance.Common.Double.{integer}
use solana_governance.Common.Double.Exact.{plus-integers, integer-injective, truncated-integer}
use mathlib.Core.Path.{subst}
use solana_governance.Chain.Sound.Rules.{
  Ensures, Outcome, bind-Ensures, ask-Ensures, return-Ensures, lift_last-Ensures, anyhow-Ensures,
  weaken-Ensures, ask_last-Ensures,
}

pub check_signed-SignedBy :
    (signer : PublicKey) (tx signed : SignedTransaction)
    → check_signed signer tx ≡ ok signed
    → SignedBy signer signed
unfolding check_signed
check_signed-SignedBy signer tx signed h = ground arith

pub validate_vote_basis_points-IsWhole :
    (d : Distribution) (u : Unit {0})
    → IsIntegral d
    → validate_vote_basis_points d ≡ ok u
    → IsWhole (to_basis_points d)
unfolding validate_vote_basis_points
validate_vote_basis_points-IsWhole d u (b, same, bound) h =
    rw
      (
        same,
        truncated-integer b.for_votes_bn,
        truncated-integer b.against_votes_bn,
        truncated-integer b.abstain_votes_bn,
      )
      (checked (total_bn b) (
        subst (λ t. (if not (t == integer 10000) then err (bad_total t) else ok tt) ≡ ok u)
          (ap total_bp same
            ∙ plus-integers b.for_votes_bn b.against_votes_bn b.abstain_votes_bn bound)
          h))
  where
    checked :
        (n : ℕ)
        → (if not (integer n == integer 10000) then err (bad_total (integer n)) else ok tt) ≡ ok u
        → n ≡ 10000
    checked n h = integer-injective n 10000 (ground arith)

-- what asking for a signature adds to the trace
abbrev pub Asked : List Instruction → Trace → Trace → Type 0
Asked instructions tr tr' =
    (tx : Transaction) × (tx.instructions ≡ instructions)
    × (tr' ≡ asked_signature tx ∷ asked_blockhash ∷ tr)

-- what sending adds to the trace, if it succeeds
abbrev pub Sent : PublicKey → List Instruction → Trace → Trace → Type 0
Sent signer instructions tr tr' =
    (blockhash_and : Transaction) × (tx : SignedTransaction) × (blockhash_and.instructions
      ≡ instructions)
    × (tr' ≡ sent tx ∷ asked_signature blockhash_and ∷ asked_blockhash ∷ tr)

pub sign_and_send-Ensures :
    (env : Env) (signer : PublicKey) (instructions : List Instruction) (tr : Trace)
    → IsSound signer tr
    → All (SoundInstruction signer (asked_blockhash ∷ tr) instructions) instructions
    → Ensures
        (sign_and_send env signer instructions)
        tr
        (IsSound signer)
        (λ _ tr'. IsSound signer tr' × Sent signer instructions tr tr')
unfolding sign_and_send sign_transaction_for_wallet
sign_and_send-Ensures env signer instructions tr s all =
    ask-Ensures _ _ _ tr (tt, s)
      λ blockhash _.
        bind-Ensures
          {Q = λ signed tr'.
            IsSound signer tr' × SignedBy signer signed × Asked instructions tr tr'}
          _ _ _
          (ask-Ensures _ _ _ _ ((refl, all), (tt, s))
            λ tx _.
              lift_last-Ensures _ _ ((refl, all), (tt, s))
                λ signed h. (
                  ((refl, all), (tt, s)),
                  check_signed-SignedBy signer tx signed h,
                  (_, refl, refl),
                ))
          λ signed t q.
            ask_last-Ensures _ _ t (q.1, q.0)
              λ signature _. ((q.1, q.0), (q.2.0, signed, q.2.1, ap (λ z. sent signed ∷ z) q.2.2))

-- the same for a key that is the signer, with the trace sound again
pub sends-Ensures :
    (env : Env) (signer key : PublicKey) (instructions : List Instruction) (tr : Trace)
    → key ≡ signer
    → IsSound signer tr
    → All (SoundInstruction signer (asked_blockhash ∷ tr) instructions) instructions
    → Ensures (sign_and_send env key instructions) tr (IsSound signer) (λ _ t. IsSound signer t)
sends-Ensures env signer key instructions tr e s all =
    rw e
      (weaken-Ensures _ tr (λ _ t q. q.0) (sign_and_send-Ensures env signer instructions tr s all))

answered-outcome :
    {B : Type 0} (signer account : PublicKey) {R : B → Trace → Type 0} (f : Bool → Flow B)
    (r : Result Bool) (tr : Trace)
    → IsSound signer tr
    → ((known : Bool)
        → r ≡ ok known
        → Ensures (f known) (looked_up account known ∷ tr) (IsSound signer) R)
    → Outcome
        (IsSound signer)
        R
        (continue f r (looked_up account (answered r) ∷ tr)).0
        (continue f r (looked_up account (answered r) ∷ tr)).1
answered-outcome signer account f (ok known) tr s k = (k known refl).outcome
answered-outcome signer account f (err x) tr s k = (tt, s)

pub look_up-Ensures :
    {B : Type 0} {R : B → Trace → Type 0} (env : Env) (signer account : PublicKey)
    (f : Bool → Flow B) (tr : Trace)
    → IsSound signer tr
    → ((known : Bool)
        → env.get_account_info account tr ≡ ok known
        → Ensures (f known) (looked_up account known ∷ tr) (IsSound signer) R)
    → Ensures (look_up env account >>= f) tr (IsSound signer) R
unfolding ◌>>=◌ look_up
look_up-Ensures {R} env signer account f tr s k = record {
  outcome = answered-outcome signer account {R = R} f (env.get_account_info account tr) tr s k;
}

module _ (env : Env) (signer : PublicKey) where
  block_time_loop-IsSound :
      (rounds candidate attempts last_tried : ℕ) (tr : Trace)
      → IsSound signer tr
      → IsSound signer (block_time_loop env rounds candidate attempts last_tried tr).1
  unfolding block_time_loop
  block_time_loop-IsSound zero candidate attempts last_tried tr s = s
  block_time_loop-IsSound (suc rounds) candidate attempts last_tried tr s = ground (
    arith,
    block_time_loop-IsSound rounds (candidate - 1) (attempts + 1) candidate
        (asked_block_time candidate ∷ tr) (tt, s),
  )

  block_time-Ensures :
      (slot : ℕ) (tr : Trace)
      → IsSound signer tr
      → Ensures (block_time_at_or_before env slot) tr (IsSound signer) (λ _ tr'. IsSound signer tr')
  unfolding block_time_at_or_before
  block_time-Ensures slot tr s =
      anyhow-Ensures (block_time_at_or_before env slot) tr
        (block_time_loop-IsSound 8 slot 0 slot tr s)

  pub close_timestamp-Ensures :
      (end_epoch : ℕ) (tr : Trace)
      → IsSound signer tr
      → Ensures
          (compute_proof_close_timestamp env end_epoch)
          tr
          (IsSound signer)
          (λ _ tr'. IsSound signer tr')
  unfolding compute_proof_close_timestamp
  close_timestamp-Ensures end_epoch tr s =
      ask-Ensures _ _ _ tr (tt, s)
        λ info _.
          bind-Ensures {Q = λ _ tr'. IsSound signer tr'} _ _ _
            (block_time-Ensures info.absolute_slot _ (tt, s)) λ reference t q. return-Ensures _ t q
