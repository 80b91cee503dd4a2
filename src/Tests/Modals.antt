-- ===== src/Tests/Modals.antt =====
-- The forms of frontend/src/components/modals/ at a wallet, and without one.
use Prim.Native.String.{String}
use solana_governance.Common.{
  ◌≤◌, ◌≡◌, ◌*◌, ◌^◌, refl, ◌↔◌, ◌⊎◌, true, false, ◌&&◌, Option, none, some, List, [], ◌∷◌, All,
}
use solana_governance.Ncn.{other_error}
use solana_governance.Lifecycle.{is_set}
use solana_governance.Networks.{WalletRole, validator, staker, no_role}
use solana_governance.VoteDistribution.{is_valid_distribution, for, quick_select}
use solana_governance.Common.Double.{
  integer, plus, times, round, spacing, spacing_from, precision, one, truncated,
}
use solana_governance.Chain.Helpers.{total_bp, to_basis_points}
use solana_governance.Chain.Sound.{total_bn}
use solana_governance.VoteDistribution.{VoteDistribution}
use solana_governance.Chain.Vote.{VoteParams}
use solana_governance.Chain.Override.{OverrideParams}
use solana_governance.Modals.{Form, Context, Failure, given_text, basis_points}
use solana_governance.Modals.Cast
use solana_governance.Modals.Override
use solana_governance.Modals.Override.{OverrideContext, OverrideState}
use solana_governance.Modals.Session.{
  Modal, SessionEvent, submitted, succeeded, failed, distribution_changed, extra_changed,
  mounted_form, session_run,
}
use solana_governance.Modals.Session.Once.{calls, one_call}
use solana_governance.Modals.Session.Released.{IsReleased, override-IsReleased, cast-stuck_iff}
use solana_governance.Modals.Session.{requests_of}
use solana_governance.Modals.Proposal.{CreateForm, create_submit}
use solana_governance.Modals.Proposal.Accepted.{IsAcceptedBy, create_submit-accepted}
use solana_governance.Tests.Github.{platform, url, keeps_plain, no_dot}

abbrev cast : Modal Unit Context VoteParams
cast = record {
  success_message = "Vote cast successfully";
  error_toast = "Error voting for proposal ";
  default_message = "Failed to cast vote";
  initial = record { id = some "proposal"; consensus_result = some "consensus" };
  initial_extra = tt;
  submit = Cast.handle_submit;
}

abbrev override : Modal OverrideState OverrideContext OverrideParams
override = record {
  success_message = "Vote cast successfully";
  error_toast = "Error voting for proposal ";
  default_message = "Failed to cast vote";
  initial = record { id = some "proposal"; consensus_result = some "consensus" };
  initial_extra = record {
    selected_stake_account = none;
    has_confirmed_validator_override = false;
  };
  submit = Override.handle_submit;
}

abbrev modify_override : Modal (Option String) OverrideContext OverrideParams
modify_override = record {
  success_message = "Vote cast successfully";
  error_toast = "Error modifying for proposal ";
  default_message = "Failed to modify vote";
  initial = record { id = some "proposal"; consensus_result = some "consensus" };
  initial_extra = none;
  submit = Override.handle_modify_submit;
}

abbrev context : WalletRole → Context
context role = record { wallet = some "me"; wallet_role = role }

abbrev staker_context : OverrideContext
staker_context = record {
  base = context staker;
  has_stake_accounts = true;
  is_loading_chain_vote_account = false;
  has_validator_identity = false;
}

abbrev failure : Failure
failure = record { value = other_error; object = none; message = some "no answer" }

-- submitted twice, answered with an error, and submitted again
abbrev cast_events : List (SessionEvent Unit Context)
cast_events =
    distribution_changed (quick_select for)
    ∷ submitted (context validator)
    ∷ submitted (context validator)
    ∷ failed failure
    ∷ submitted (context validator)
    ∷ []

abbrev override_events : List (SessionEvent OverrideState OverrideContext)
override_events =
    distribution_changed (quick_select for)
    ∷ extra_changed
        (record { selected_stake_account = some "stake"; has_confirmed_validator_override = false })
    ∷ submitted staker_context
    ∷ submitted staker_context
    ∷ succeeded
    ∷ submitted staker_context
    ∷ []

abbrev modify_events : List (SessionEvent (Option String) OverrideContext)
modify_events =
    distribution_changed (quick_select for)
    ∷ extra_changed (some "stake")
    ∷ submitted staker_context
    ∷ submitted staker_context
    ∷ []

one_call_example :
    ((session_run cast (mounted_form cast) cast_events).in_flight ≤ 1)
    × ((session_run override (mounted_form override) override_events).in_flight ≤ 1)
    × ((session_run modify_override (mounted_form modify_override) modify_events).in_flight ≤ 1)
one_call_example =
    one_call cast override modify_override refl refl refl cast_events override_events modify_events

override-IsReleased_example :
    IsReleased (session_run override (mounted_form override) override_events)
override-IsReleased_example = override-IsReleased override override_events refl

-- a form that can be submitted
abbrev form : Form Unit
form = record {
  selected_proposal = record { id = some "proposal"; consensus_result = some "consensus" };
  distribution = record { for_share = integer 100; against_share = 0; abstain_share = 0 };
  is_loading = false;
  error = none;
  extra = tt;
}

abbrev no_wallet : Context
no_wallet = record { wallet = none; wallet_role = staker }

cast-stuck_iff_example :
    (((Cast.handle_submit no_wallet form).form.is_loading ≡ true)
      × (calls (Cast.handle_submit no_wallet form) ≡ 0))
    ↔ ((false ≡ true)
        ⊎ (((is_set (given_text form.selected_proposal.id)
                && is_valid_distribution form.distribution)
              ≡ true)
            × ((no_wallet.wallet ≡ none)
                ⊎ ((form.selected_proposal.consensus_result ≡ none)
                    ⊎ (no_wallet.wallet_role ≡ no_role)))))
cast-stuck_iff_example = cast-stuck_iff no_wallet form

abbrev create_form : CreateForm
create_form = record {
  title = "Fee";
  description = url;
  is_loading = false;
  error = none;
  description_touched = false;
}

create_submit-accepted_example :
    All
      (IsAcceptedBy platform)
      (requests_of (create_submit platform (some "me") create_form).effects)
create_submit-accepted_example =
    create_submit-accepted platform (some "me") create_form keeps_plain no_dot

-- the doubles nearest to 42.59, 0.57 and 56.84
abbrev fractions : VoteDistribution
fractions = record {
  for_share = 5994009629053420 * 2 ^ 1027;
  against_share = 5134103575202365 * 2 ^ 1021;
  abstain_share = 7999518838116844 * 2 ^ 1027;
}

-- The sum of their basis points is accepted, and one of them is lost.
fractions_lose :
    (total_bp (basis_points fractions) ≡ integer 10000)
    × (total_bn (to_basis_points (basis_points fractions)) ≡ 9999)
unfolding integer plus times round spacing spacing_from precision one truncated
fractions_lose = (refl, refl)
