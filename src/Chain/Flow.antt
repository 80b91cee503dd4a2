-- ===== src/Chain/Flow.antt =====
-- An asynchronous function of frontend/src/chain/instructions as a function of what has happened so
-- far, the newest event first. Each awaited call is an event, and its answer may depend on all that
-- happened before. A thrown error ends the function; what has happened remains.
use Prim.Native.String.{String}
use solana_governance.Common.{ℕ, Bool, false, Option, none, some, List, ◌∷◌}
use solana_governance.Common.Int.{ℤ}
use solana_governance.Chain.Types.{
  PublicKey, Error, Result, ok, err, Transaction, SignedTransaction, ProposalAccount,
  VoteAccountInfo, EpochInfo, VoteAccountProofResponse, StakeAccountProofResponse, Seed,
}

pub data Event : Type 0 where
  fetched_proposal : PublicKey → Event
  listed_vote_accounts asked_epoch_info asked_epoch_schedule asked_blockhash : Event
  fetched_stake_proof fetched_vote_proof : (account network : String) (slot : ℕ) → Event
  looked_up : PublicKey → Bool → Event
  asked_block_time : ℕ → Event
  asked_signature : Transaction → Event
  sent : SignedTransaction → Event
  confirmed : String → Option String → Event

abbrev pub Trace : Type 0
Trace = List Event

abbrev pub Flow {ℓ} : Type ℓ → Type ℓ
Flow A = Trace → Result A × Trace

unfoldable pub return {ℓ} : {A : Type ℓ} → A → Flow A
return a tr = (ok a, tr)

unfoldable pub throw {ℓ} : {A : Type ℓ} → Error → Flow A
throw e tr = (err e, tr)

unfoldable pub lift {ℓ} : {A : Type ℓ} → Result A → Flow A
lift r tr = (r, tr)

-- the rest of a function after a call: only an answer goes on
abbrev pub continue {ℓ κ} :
    {A : Type ℓ} {B : Type κ} → (A → Flow B) → Result A → Trace → Result B × Trace
continue f (ok a) tr = f a tr
continue f (err e) tr = (err e, tr)

infixl 5 ◌>>=◌ ◌>>◌
unfoldable pub ◌>>=◌ {ℓ κ} : {A : Type ℓ} {B : Type κ} → Flow A → (A → Flow B) → Flow B
◌>>=◌ m f tr = continue f (m tr).0 (m tr).1

abbrev pub ◌>>◌ {ℓ} : {B : Type ℓ} → Flow (Unit {0}) → Flow B → Flow B
m >> k = m >>= λ _. k

-- `undefined` throws
unfoldable pub require {ℓ} : {A : Type ℓ} → Error → Option A → Flow A
require e none tr = (err e, tr)
require e (some a) tr = (ok a, tr)

-- an awaited call
unfoldable pub ask {ℓ} : {A : Type ℓ} → Event → (Trace → Result A) → Flow A
ask e answer tr = (answer tr, e ∷ tr)

-- What the sources import from the web3 and anchor libraries, and reach over the network: calls that
-- may fail, with answers that the sources do not control.
pub record Env : Type 0 where
  pub program_id : PublicKey
  pub snapshot_program_id : PublicKey
  -- `new PublicKey(text)`
  pub public_key : String → Result PublicKey
  -- `PublicKey.findProgramAddressSync`
  pub find_program_address : List Seed → PublicKey → PublicKey
  -- `toNumber` of an on-chain integer
  pub to_number : ℕ → Result ℕ
  -- `new BN(text)`
  pub big_number : String → Result ℕ
  pub fetch_proposal : PublicKey → Trace → Result ProposalAccount
  pub get_vote_accounts : Trace → Result (List VoteAccountInfo)
  pub get_epoch_info : Trace → Result EpochInfo
  -- `getEpochSchedule`, then `getFirstSlotInEpoch`
  pub get_first_slot_in_epoch : Trace → Result (ℕ → ℕ)
  pub get_block_time : ℕ → Trace → Result (Option ℤ)
  -- whether `getAccountInfo` finds the account
  pub get_account_info : PublicKey → Trace → Result Bool
  pub get_latest_blockhash : Trace → Result String
  pub fetch_stake_proof : (account network : String) → ℕ → Trace → Result StakeAccountProofResponse
  pub fetch_vote_proof : (account network : String) → ℕ → Trace → Result VoteAccountProofResponse
  pub sign_transaction : Transaction → Trace → Result SignedTransaction
  pub send_raw_transaction : SignedTransaction → Trace → Result String
  -- `confirmTransaction`: `value.err`
  pub confirm_transaction : String → Trace → Result (Option String)

-- `getAccountInfo`: the event tells what was found, if the call was answered
abbrev pub answered : Result Bool → Bool
answered (ok found) = found
answered (err e) = false

unfoldable pub look_up : Env → PublicKey → Flow Bool
look_up env account tr = (
  env.get_account_info account tr,
  looked_up account (answered (env.get_account_info account tr)) ∷ tr,
)

-- `confirmTransaction`: the event tells the error, or that the call itself failed
abbrev pub outcome : Result (Option String) → Option String
outcome (ok reason) = reason
outcome (err e) = some "unanswered"

unfoldable pub confirm : Env → String → Flow (Option String)
confirm env signature tr = (
  env.confirm_transaction signature tr,
  confirmed signature (outcome (env.confirm_transaction signature tr)) ∷ tr,
)
