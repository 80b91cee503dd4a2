-- ===== src/Chain/Sound/Results.antt =====
-- What the four votes of frontend/src/chain/instructions tell and refuse.
use Prim.Native.String.{String}
use solana_governance.Common.{◌≡◌, ◌≢◌, refl, true, some, List, ◌∷◌, arith}
use solana_governance.Common.Double.{integer}
use solana_governance.Chain.Types.{
  PublicKey, Distribution, Instruction, Result, ok, err, bad_total, SignedTransaction,
  TransactionResult,
}
use solana_governance.Chain.Flow.{Trace, Flow, Env, sent, ◌>>=◌, return, require, lift}
use solana_governance.Chain.Helpers.{total_bp, validate_vote_basis_points, sign_and_send}
use solana_governance.Chain.Vote.{VoteParams, vote_context, cast_vote, modify_vote}
use solana_governance.Chain.Override.{
  OverrideParams, override_context, cast_vote_override, modify_vote_override,
}
use solana_governance.Chain.Sound.Rules.{
  Ensures, Outcome, bind-Ensures, ask-Ensures, return-Ensures, ask_last-Ensures, trivial-Ensures,
}

-- the newest event is a sending, and its answer is the signature
abbrev pub SentAs : Env → String → Trace → Type 0
SentAs env signature tr =
    (tx : SignedTransaction) × (rest : Trace) × (tr ≡ sent tx ∷ rest)
    × (env.send_raw_transaction tx rest ≡ ok signature)

module _ (env : Env) where
  sign_and_send-SentAs :
      (signer : PublicKey) (instructions : List Instruction) (tr : Trace)
      → Ensures (sign_and_send env signer instructions) tr (λ _. Unit {0}) (SentAs env)
  unfolding sign_and_send
  sign_and_send-SentAs signer instructions tr = ask-Ensures _ _ _ tr tt λ blockhash _.
      bind-Ensures _ _ _ (trivial-Ensures _ _)
        λ tx t _. ask_last-Ensures _ _ t tt λ signature e. (tx, t, refl, e)

  -- every vote ends so
  sends_last :
      {C : Type 0} (context : Flow C) (signer : C → PublicKey) (instructions : C → List Instruction)
      (tr : Trace)
      → Ensures
          (context >>= λ c. sign_and_send env (signer c) (instructions c) >>= λ signature.
            return (record { signature = signature; success = true }))
          tr
          (λ _. Unit {0})
          (λ (r : TransactionResult) t. (r.success ≡ true) × SentAs env r.signature t)
  sends_last context signer instructions tr = bind-Ensures _ _ tr (trivial-Ensures _ tr) λ c t _.
      bind-Ensures _ _ t (sign_and_send-SentAs (signer c) (instructions c) t)
        λ signature t' s. return-Ensures _ t' (refl, s)

-- what an end tells: success, and the answer to the sending of a transaction, the last call made; or
-- an error
abbrev pub Tells : Env → Result TransactionResult × Trace → Type 0
Tells env (ok r, tr) = (r.success ≡ true) × SentAs env r.signature tr
Tells env (err e, tr) = Unit

module _ (env : Env) where
  Outcome-Tells :
      (r : Result TransactionResult) (tr : Trace)
      → Outcome
          (λ _. Unit {0})
          (λ (r : TransactionResult) t. (r.success ≡ true) × SentAs env r.signature t)
          r
          tr
      → Tells env (r, tr)
  Outcome-Tells (ok r) tr o = o
  Outcome-Tells (err e) tr o = tt

-- If one of the four votes returns, it tells success, and its signature is what the service answered
-- to the sending of a transaction, the last call made.
pub votes-Tells :
    (env : Env) (vote : VoteParams) (override : OverrideParams) (network : String) (tr : Trace)
    → Tells env (cast_vote env vote network tr)
      × Tells env (modify_vote env vote network tr)
      × Tells env (cast_vote_override env override network tr)
      × Tells env (modify_vote_override env override network tr)
unfolding cast_vote modify_vote cast_vote_override modify_vote_override
votes-Tells env vote override network tr = (
  Outcome-Tells env _ _ (sends_last env _ _ _ tr).outcome,
  Outcome-Tells env _ _ (sends_last env _ _ _ tr).outcome,
  Outcome-Tells env _ _ (sends_last env _ _ _ tr).outcome,
  Outcome-Tells env _ _ (sends_last env _ _ _ tr).outcome,
)

-- the error that a bad distribution ends a vote with, before any call
abbrev pub Refused : {A : Type 0} → Distribution → Trace → Result A × Trace → Type 0
Refused d tr end = (end.0 ≡ err (bad_total (total_bp d))) × (end.1 ≡ tr)

-- the refusal of all four votes for the same distribution and wallet
abbrev pub AllRefused : Env → VoteParams → OverrideParams → String → Trace → Type 0
AllRefused env vote override network tr =
    Refused vote.distribution tr (cast_vote env vote network tr)
    × Refused vote.distribution tr (modify_vote env vote network tr)
    × Refused override.distribution tr (cast_vote_override env override network tr)
    × Refused override.distribution tr (modify_vote_override env override network tr)

-- If a wallet is connected and the consensus result is known, then each of the four votes refuses a
-- distribution whose basis points do not add up to 10000 in doubles, with their sum, before anything
-- is fetched, signed or sent.
pub votes-refuse_total :
    (env : Env) (vote : VoteParams) (override : OverrideParams) (network : String)
    (signer consensus : PublicKey) (tr : Trace)
    → vote.wallet ≡ some signer
    → vote.consensus_result ≡ some consensus
    → total_bp vote.distribution ≢ integer 10000
    → override.wallet ≡ some signer
    → override.consensus_result ≡ some consensus
    → total_bp override.distribution ≢ integer 10000
    → AllRefused env vote override network tr
unfolding cast_vote modify_vote vote_context cast_vote_override modify_vote_override
    override_context ◌>>=◌ require lift validate_vote_basis_points
votes-refuse_total env vote override network signer consensus tr w c h w' c' h' =
    (ground arith, ground arith, ground arith, ground arith)
