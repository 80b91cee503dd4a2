-- ===== src/Modals/Proposal.antt =====
-- frontend/src/components/modals/CreateProposalModal.tsx and SupportProposalModal.tsx: the forms that
-- create a proposal and support one.
use Prim.Native.String.{String}
use text.Mathlib.Text.{◌==◌ as str_eq}
use solana_governance.Common.{
  Bool, true, false, not, ◌||◌, Option, none, some, [], ◌∷◌, if◌then◌else◌,
}
use solana_governance.Common.Text.{Text}
use solana_governance.Github.Platform.{Platform}
use solana_governance.Github.Validate.{ProposalUrlValidation, validate_proposal_url}
use solana_governance.Chain.Types.{PublicKey}
use solana_governance.Chain.Create.{CreateProposalParams}
use solana_governance.Lifecycle.{is_set}
use solana_governance.Modals.{
  Effect, Failure, mutated, toast_success, toast_info, toast_error_of, captured, closed, given_text,
  message_or, wallet_signing_cancelled_message,
}
use solana_governance.Reports.Cancelled.{is_wallet_signing_cancellation}
use solana_governance.Common.{List}
pub mod Accepted

pub record CreateForm : Type 0 where
  pub title : String
  pub description : Text
  pub is_loading : Bool
  pub error : Option String
  pub description_touched : Bool

pub record Created : Type 0 where
  pub form : CreateForm
  pub effects : List (Effect CreateProposalParams)

-- the form when it is closed, by `handleClose` or from outside
unfoldable pub emptied : CreateForm → CreateForm
emptied form = record form {
  title = "";
  description = [];
  error = none;
  description_touched = false;
}

unfoldable pub create_submit : Platform → Option PublicKey → CreateForm → Created
unfolding validate_proposal_url
create_submit platform wallet before =
    let form = record before { description_touched = true } in
    if str_eq form.title "" || not (validate_proposal_url platform form.description).ok
    then record { form = form; effects = [] }
    else record {
      form = record form { is_loading = true; error = none };
      effects =
          mutated (record {
            title = form.title;
            description = form.description;
            seed = none;
            wallet = wallet;
          })
          ∷ [];
    }

unfoldable pub create_success : CreateForm → Created
create_success form = record {
  form = record form { is_loading = false };
  effects = toast_success "Proposal created successfully" ∷ closed ∷ [];
}

unfoldable pub create_error : Failure → CreateForm → Created
create_error err form =
    if is_wallet_signing_cancellation err.object
    then record {
      form = record form { is_loading = false };
      effects = toast_info wallet_signing_cancelled_message ∷ [];
    }
    else record {
      form = record form {
        is_loading = false;
        error = some (message_or "Failed to create proposal" err.message);
      };
      effects = captured ∷ [];
    }

pub record SupportForm : Type 0 where
  pub proposal_id : Option String
  pub is_loading : Bool
  pub error : Option String

-- the proposal and the wallet that the mutation is called with
pub record SupportRequest : Type 0 where
  pub proposal_id : String
  pub wallet : Option PublicKey

pub record Supported : Type 0 where
  pub form : SupportForm
  pub effects : List (Effect SupportRequest)

-- the three requirements are constants, and met
unfoldable pub support_submit : Option PublicKey → SupportForm → Supported
support_submit wallet form = elim (given_text form.proposal_id) [
  | none ↦ record { form = form; effects = [] }
  | some id ↦ if form.is_loading then record { form = form; effects = [] } else record {
    form = record form { is_loading = true; error = none };
    effects = mutated (record { proposal_id = id; wallet = wallet }) ∷ [];
  }
]

unfoldable pub support_error : Failure → SupportForm → Supported
support_error err form =
    if is_wallet_signing_cancellation err.object
    then record {
      form = record form { is_loading = false };
      effects = toast_info wallet_signing_cancelled_message ∷ [];
    }
    else record {
      form = record form {
        is_loading = false;
        error = some (message_or "Failed to support proposal" err.message);
      };
      effects = captured ∷ toast_error_of "Error supporting proposalId " form.proposal_id ∷ [];
    }
