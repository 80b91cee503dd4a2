-- ===== src/Modals/Session.antt =====
-- A session of one open form of frontend/src/components/modals/: the handlers in the order in which the
-- user and the mutation call them. The mutation calls back once for each time it is called.
use Prim.Native.String.{String}
use solana_governance.Common.{
  ℕ, ◌+◌, ◌-◌, ◌==◌, Bool, true, false, Option, none, some, List, [], ◌∷◌, ◌++◌, if◌then◌else◌,
}
use solana_governance.Chain.Types.{PublicKey}
use solana_governance.VoteDistribution.{default_distribution, step as step_distribution}
use solana_governance.VoteDistribution
use solana_governance.Modals.{
  SelectedProposal, Form, Effect, mutated, Outcome, Failure, handle_success, handle_error,
  handle_proposal_change,
}
pub mod Once
pub mod Ready
pub mod Released

-- what tells the modals apart: their texts, the first proposal, the first `extra` and `handleSubmit`
pub record Modal (X C R : Type 0) : Type 0 where
  pub success_message : String
  pub error_toast : String
  pub default_message : String
  pub initial : SelectedProposal
  pub initial_extra : X
  pub submit : C → Form X → Outcome X R

pub data SessionEvent (X C : Type 0) : Type 0 where
  submitted : C → SessionEvent X C
  succeeded : SessionEvent X C
  failed : Failure → SessionEvent X C
  proposal_changed : String → PublicKey → SessionEvent X C
  distribution_changed : VoteDistribution.Event → SessionEvent X C
  extra_changed : X → SessionEvent X C

-- `requests` are the calls of the mutation, and `in_flight` those without an answer
pub record Session (X R : Type 0) : Type 0 where
  pub form : Form X
  pub in_flight : ℕ
  pub requests : List R

-- the calls of the mutation among the effects
unfoldable pub requests_of : {R : Type 0} → List (Effect R) → List R
requests_of [] = []
requests_of (mutated request ∷ effects) = request ∷ requests_of effects
requests_of (_ ∷ effects) = requests_of effects

abbrev pub count : {R : Type 0} → List R → ℕ
count [] = 0
count (x ∷ xs) = count xs + 1

module _ {X C R : Type 0} (modal : Modal X C R) where
  -- the form when the modal is mounted
  abbrev pub mounted_form : Session X R
  mounted_form = record {
    form = record {
      selected_proposal = modal.initial;
      distribution = default_distribution;
      is_loading = false;
      error = none;
      extra = modal.initial_extra;
    };
    in_flight = 0;
    requests = [];
  }

  unfoldable pub after : Session X R → Outcome X R → Session X R
  unfolding requests_of
  after s outcome = record {
    form = outcome.form;
    in_flight = s.in_flight + count (requests_of outcome.effects);
    requests = s.requests ++ requests_of outcome.effects;
  }

  -- an answer comes only to a call
  abbrev pub answered : Session X R → Form X → Session X R
  answered s form =
      if s.in_flight == 0 then s else record s { form = form; in_flight = s.in_flight - 1 }

  unfoldable pub session_step : Session X R → SessionEvent X C → Session X R
  unfolding after handle_success handle_error handle_proposal_change step_distribution
  session_step s (submitted context) = after s (modal.submit context s.form)
  session_step s succeeded = answered s (handle_success {R = R} modal.success_message s.form).form
  session_step s (failed err) =
      answered s
        (handle_error {R = R} modal.error_toast modal.default_message modal.initial.id err
          s.form).form
  session_step s (proposal_changed id consensus_result) = record s {
    form = handle_proposal_change id consensus_result s.form;
  }
  session_step s (distribution_changed event) = record s {
    form = record s.form { distribution = step_distribution s.form.distribution event };
  }
  session_step s (extra_changed extra) = record s { form = record s.form { extra = extra } }

  unfoldable pub session_run : Session X R → List (SessionEvent X C) → Session X R
  unfolding session_step
  session_run s [] = s
  session_run s (event ∷ events) = session_run (session_step s event) events
