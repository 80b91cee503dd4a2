-- ===== src/Chain/Live.antt =====
-- When a flow returns: rules for answers, and what a vote needs the calls to answer.
use mathlib.Core.Path.{subst}
use Prim.Native.String.{String}
use text.Mathlib.Text.{◌==◌ as str_eq}
use solana_governance.Common.{
  ℕ, Bool, true, false, zero, suc, ◌+◌, ◌≤◌, ◌<◌, ◌≡◌, refl, sym, Option, none, some, ◌∷◌, find?,
  arith,
}
use solana_governance.Common.Int.{ℤ}
use solana_governance.Chain.Types.{
  PublicKey, Result, ok, err, Transaction, SignedTransaction, VoteAccountInfo,
  VoteAccountProofResponse, EpochInfo, ProposalAccount,
}
use solana_governance.Chain.Flow.{
  Event, Trace, Flow, Env, ◌>>=◌, lift, ask, look_up, looked_up, answered, continue,
}
use solana_governance.Chain.Helpers.{
  ◌>>=ʳ◌, convert_merkle_proof_strings, convert_stake_merkle_leaf_data_to_idl_type, check_signed,
}
use solana_governance.Chain.Slots.{resolved}
use solana_governance.Chain.Vote.{VoteParams}
use solana_governance.Chain.Override.{OverrideParams}
use solana_governance.Chain.Sound.{SignedBy}
use solana_governance.Chain.Sound.Rules.{Outcome, Ensures}
pub mod Steps
pub mod Vote
pub mod Override

abbrev pub Answered : {A : Type 0} → Result A → (A → Type 0) → Type 0
Answered (ok a) P = P a
Answered (err e) P = ⊥

abbrev pub Answers : {A : Type 0} → Result A → Type 0
Answers r = Answered r (λ _. Unit)

-- the flow returns, and what holds then
abbrev pub Returns : {A : Type 0} → Flow A → Trace → (A → Trace → Type 0) → Type 0
Returns m tr Q = Ensures m tr (λ _. ⊥) Q

module _ {A B : Type 0} {P : A → Type 0} where
  pub then-Answered :
      (Q : B → Type 0) (r : Result A) (f : A → Result B)
      → Answered r P
      → ((a : A) → P a → Answered (f a) Q)
      → Answered (r >>=ʳ f) Q
  then-Answered Q (ok a) f p k = k a p
  then-Answered Q (err e) f p k = p

  module _ {R : B → Trace → Type 0} where
    pub lift-Returns :
        (r : Result A) (f : A → Flow B) (tr : Trace)
        → Answered r P
        → ((a : A) → P a → Returns (f a) tr R)
        → Returns (lift r >>= f) tr R
    unfolding ◌>>=◌ lift
    lift-Returns (ok a) f tr p k = record { outcome = (k a p).outcome }
    lift-Returns (err e) f tr p k = absurd p

    pub ask-Returns :
        (event : Event) (answer : Trace → Result A) (f : A → Flow B) (tr : Trace)
        → Answered (answer tr) P
        → ((a : A) → P a → Returns (f a) (event ∷ tr) R)
        → Returns (ask event answer >>= f) tr R
    unfolding ◌>>=◌ ask lift
    ask-Returns event answer f tr p k = record {
      outcome = (lift-Returns (answer tr) f (event ∷ tr) p k).outcome;
    }

pub lift_last-Returns :
    {A : Type 0} (r : Result A) (tr : Trace) → Answers r → Returns (lift r) tr (λ _ _. Unit)
unfolding lift
lift_last-Returns (ok a) tr p = record { outcome = tt }
lift_last-Returns (err e) tr p = absurd p

pub ask_last-Returns :
    {A : Type 0} (event : Event) (answer : Trace → Result A) (tr : Trace)
    → Answers (answer tr)
    → Returns (ask event answer) tr (λ _ _. Unit)
unfolding lift ask
ask_last-Returns event answer tr p = record {
  outcome = (lift_last-Returns (answer tr) (event ∷ tr) p).outcome;
}

-- a call that is looked up
look_up-Outcome :
    {B : Type 0} {R : B → Trace → Type 0} (f : Bool → Flow B) (account : PublicKey)
    (r : Result Bool) (tr : Trace)
    → Answers r
    → ((known : Bool) (t : Trace) → Returns (f known) t R)
    → Outcome
        (λ _. ⊥)
        R
        (continue f r (looked_up account (answered r) ∷ tr)).0
        (continue f r (looked_up account (answered r) ∷ tr)).1
look_up-Outcome f account (ok known) tr p k = (k known _).outcome
look_up-Outcome f account (err e) tr p k = absurd p

pub look_up-Returns :
    {B : Type 0} {R : B → Trace → Type 0} (env : Env) (account : PublicKey) (f : Bool → Flow B)
    (tr : Trace)
    → Answers (env.get_account_info account tr)
    → ((known : Bool) (t : Trace) → Returns (f known) t R)
    → Returns (look_up env account >>= f) tr R
unfolding ◌>>=◌ look_up
look_up-Returns {R} env account f tr p k = record {
  outcome = look_up-Outcome {R = R} f account (env.get_account_info account tr) tr p k;
}

pub check_signed-Answers :
    (signer : PublicKey) (tx : SignedTransaction)
    → SignedBy signer tx
    → Answers (check_signed signer tx)
unfolding check_signed
check_signed-Answers signer tx s = rw s.0 (rw s.1 tt)

-- the texts of a proof are keys and a number
abbrev pub Parses : Env → VoteAccountProofResponse → Type 0
Parses env p =
    Answers (env.public_key p.meta_merkle_leaf.vote_account)
    × Answers (env.public_key p.meta_merkle_leaf.voting_wallet)
    × Answers (env.public_key p.meta_merkle_leaf.stake_merkle_root)
    × Answers (env.big_number p.meta_merkle_leaf.active_stake)
    × Answers (convert_merkle_proof_strings env p.meta_merkle_proof)

-- one of the last eight slots always has a block time
abbrev pub HasBlockTime : Env → EpochInfo → Type 0
HasBlockTime env info =
    (k : ℕ) × (time : ℤ) × ((tr : Trace) → resolved (env.get_block_time k tr) ≡ some time)
    × (k ≤ info.absolute_slot)
    × (info.absolute_slot < k + 8)

-- What every vote needs: its calls are answered, the proposal has a snapshot slot, and the wallet signs
-- for the key.
pub record Cooperates (env : Env) (signer : PublicKey) : Type 0 where
  pub account :
      (key : PublicKey) (tr : Trace)
      → Answered (env.fetch_proposal key tr) (λ a.
        Answered (env.to_number a.snapshot_slot) (λ slot. 0 < slot)
        × Answers (env.to_number a.end_epoch))
  pub known : (key : PublicKey) (tr : Trace) → Answers (env.get_account_info key tr)
  pub epoch : (tr : Trace) → Answered (env.get_epoch_info tr) (HasBlockTime env)
  pub blockhash : (tr : Trace) → Answers (env.get_latest_blockhash tr)
  pub signs :
      (tx : Transaction) (tr : Trace) → Answered (env.sign_transaction tx tr) (SignedBy signer)
  pub sends : (tx : SignedTransaction) (tr : Trace) → Answers (env.send_raw_transaction tx tr)

-- What a validator's vote needs besides: the key is the identity of a validator, and the service has
-- proofs.
pub record Validates (env : Env) (signer : PublicKey) (params : VoteParams) : Type 0 where
  pub proposal_key : Answers (env.public_key params.proposal_id)
  pub validators :
      (tr : Trace)
      → Answered (env.get_vote_accounts tr) (λ vs.
        (v : VoteAccountInfo) × (find? (λ a. str_eq a.node_pubkey signer) vs ≡ some v)
        × Answers (env.public_key v.vote_pubkey))
  pub proof :
      (account network : String) (slot : ℕ) (tr : Trace)
      → Answered (env.fetch_vote_proof account network slot tr) (Parses env)

-- What an override needs besides: the service has the proof of the stake, which names a validator, and
-- the proof of this validator; and no confirmation has an error.
pub record Delegates (env : Env) (params : OverrideParams) (validator : String) (key : PublicKey)
    : Type 0 where
  pub proposal_key : Answers (env.public_key params.proposal_id)
  pub stake_key : Answers (env.public_key params.stake_account)
  pub validator_key : env.public_key validator ≡ ok key
  pub validator_named : str_eq validator "" ≡ false
  pub stake_proof :
      (network : String) (slot : ℕ) (tr : Trace)
      → Answered (env.fetch_stake_proof params.stake_account network slot tr) (λ p.
        (p.vote_account ≡ some validator)
        × Answers (convert_merkle_proof_strings env p.stake_merkle_proof)
        × Answers (convert_stake_merkle_leaf_data_to_idl_type env p.stake_merkle_leaf))
  pub own_proof :
      (network : String) (slot : ℕ) (tr : Trace)
      → Answered
          (env.fetch_vote_proof key network slot tr)
          (λ m. Parses env m × (str_eq m.meta_merkle_leaf.vote_account validator ≡ true))
  pub confirms :
      (signature : String) (tr : Trace)
      → Answered (env.confirm_transaction signature tr) (λ reason. reason ≡ none)
