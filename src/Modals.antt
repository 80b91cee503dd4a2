-- ===== src/Modals.antt =====
-- The forms of frontend/src/components/modals/: what the handlers of the modals do to the state of the
-- form, and what they set off. The children are the modals; this file has what they share. The values
-- of the hooks that a handler reads are its `Context`.
use Prim.Native.String.{String}
use text.Mathlib.Text.{◌==◌ as str_eq}
use solana_governance.Common.{Bool, true, false, Option, none, some, List, [], ◌∷◌, if◌then◌else◌}
use solana_governance.Common.Double.{times}
use solana_governance.Chain.Types.{PublicKey, Distribution}
use solana_governance.Ncn.{ErrorValue, is_ncn_proof_not_found}
use solana_governance.Networks.{WalletRole}
use solana_governance.Reports.Cancelled.{ErrorObject, is_wallet_signing_cancellation}
use solana_governance.VoteDistribution.{VoteDistribution}
pub mod Cast
pub mod Opening
pub mod Override
pub mod Proposal
pub mod Session

pub record SelectedProposal : Type 0 where
  pub id : Option String
  pub consensus_result : Option PublicKey

-- `extra` is the state that only some modals have
pub record Form (X : Type 0) : Type 0 where
  pub selected_proposal : SelectedProposal
  pub distribution : VoteDistribution
  pub is_loading : Bool
  pub error : Option String
  pub extra : X

-- what a handler sets off; `mutated` is the call of the mutation
pub data Effect (R : Type 0) : Type 0 where
  toast_success : String → Effect R
  toast_info : String → Effect R
  toast_error : String → Effect R
  -- the text with the modal's first proposal behind it
  toast_error_of : String → Option String → Effect R
  captured : Effect R
  closed : Effect R
  mutated : R → Effect R

pub record Outcome (X R : Type 0) : Type 0 where
  pub form : Form X
  pub effects : List (Effect R)

-- `err: Error`, as its readers see it; the message is `none` if it is no `Error`
pub record Failure : Type 0 where
  pub value : ErrorValue
  pub object : Option ErrorObject
  pub message : Option String

pub record Context : Type 0 where
  pub wallet : Option PublicKey
  pub wallet_role : WalletRole

-- a text that is not empty
abbrev pub given_text : Option String → Option String
given_text none = none
given_text (some s) = if str_eq s "" then none else some s

abbrev pub message_or : String → Option String → String
message_or default none = default
message_or default (some message) = message

-- an early return
abbrev pub unless_set {ℓ κ} : {A : Type ℓ} {B : Type κ} → Option A → B → (A → B) → B
unless_set none stop next = stop
unless_set (some a) stop next = next a

-- `for * 100`
abbrev pub basis_points : VoteDistribution → Distribution
basis_points d = record {
  for_votes_bp = times d.for_share 100;
  against_votes_bp = times d.against_share 100;
  abstain_votes_bp = times d.abstain_share 100;
}

abbrev pub ncn_proof_not_found_message : String
ncn_proof_not_found_message =
    "This account had no active stake in the proposal snapshot and cannot vote. If you believe this to be an error, open an issue at https://github.com/solana-foundation/solana-governance/issues/new."

abbrev pub wallet_signing_cancelled_message : String
wallet_signing_cancelled_message = "Transaction approval cancelled"

module _ {X : Type 0} where
  -- `setIsLoading(false)`
  abbrev pub stopped : Form X → Form X
  stopped form = record form { is_loading = false }

  abbrev pub with_error : String → Form X → Form X
  with_error message form = record form { error = some message }

  unfoldable pub handle_proposal_change : String → PublicKey → Form X → Form X
  handle_proposal_change proposal_id consensus_result form = record form {
    selected_proposal = record { id = some proposal_id; consensus_result = some consensus_result };
  }

module _ {X R : Type 0} where
  abbrev pub toasted : String → Form X → Outcome X R
  toasted message form = record { form = form; effects = toast_error message ∷ [] }

  unfoldable pub handle_success : String → Form X → Outcome X R
  handle_success message form = record {
    form = stopped form;
    effects = toast_success message ∷ closed ∷ [];
  }

  unfoldable pub handle_error :
      (toast default : String) (initial_proposal_id : Option String)
      → Failure
      → Form X
      → Outcome X R
  handle_error toast default initial_proposal_id err form =
      if is_ncn_proof_not_found err.value
      then record { form = stopped form; effects = toast_info ncn_proof_not_found_message ∷ [] }
      else if is_wallet_signing_cancellation err.object
      then record {
        form = stopped form;
        effects = toast_info wallet_signing_cancelled_message ∷ [];
      }
      else record {
        form = stopped (with_error (message_or default err.message) form);
        effects = captured ∷ toast_error_of toast initial_proposal_id ∷ [];
      }
