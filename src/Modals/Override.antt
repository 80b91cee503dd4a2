-- ===== src/Modals/Override.antt =====
-- frontend/src/components/modals/OverrideVoteModal.tsx and ModifyOverrideVoteModal.tsx: the forms of a
-- delegator's override. The two guards that only the first has come before the role.
use Prim.Native.String.{String}
use solana_governance.Common.{
  Bool, true, not, ◌||◌, ◌&&◌, Option, none, some, [], ◌∷◌, if◌then◌else◌,
}
use solana_governance.Chain.Types.{PublicKey}
use solana_governance.Chain.Override.{OverrideParams}
use solana_governance.Lifecycle.{is_set}
use solana_governance.Networks.{staker}
use solana_governance.VoteDistribution.{VoteDistribution, is_valid_distribution}
use solana_governance.Modals.{
  Form, Outcome, Context, mutated, given_text, unless_set, basis_points, toasted, stopped,
}

pub record OverrideState : Type 0 where
  pub selected_stake_account : Option String
  pub has_confirmed_validator_override : Bool

pub record OverrideContext : Type 0 where
  pub base : Context
  -- whether the stake accounts are there, and the wallet has a vote account on the chain
  pub has_stake_accounts : Bool
  pub is_loading_chain_vote_account : Bool
  pub has_validator_identity : Bool

module _ {X : Type 0} where
  -- the call of the mutation, for a staker whose accounts are there
  abbrev pub submit_override :
      OverrideContext
      → VoteDistribution
      → Option String
      → (wallet : PublicKey) → (id : String) → (consensus_result : PublicKey) → Form X
      → Outcome X OverrideParams
  submit_override context d selected_stake_account wallet id consensus_result form =
      if not context.has_stake_accounts
      then toasted "No stake accounts found" (stopped form)
      else unless_set selected_stake_account
          (toasted "Not able to determine stake account" (stopped form))
          λ stake_account. record {
            form = form;
            effects =
                mutated (record {
                  proposal_id = id;
                  distribution = basis_points d;
                  stake_account = stake_account;
                  wallet = some wallet;
                  consensus_result = some consensus_result;
                })
                ∷ [];
          }

unfoldable pub handle_vote :
    OverrideContext → VoteDistribution → Form OverrideState → Outcome OverrideState OverrideParams
handle_vote context d form =
    unless_set context.base.wallet (toasted "Wallet not connected" (stopped form)) λ wallet.
      unless_set (given_text form.selected_proposal.id)
        (toasted "No Proposal ID provided" (stopped form))
        λ id.
          unless_set form.selected_proposal.consensus_result
            (toasted "Couldn't obtain consensus result" (stopped form))
            λ consensus_result.
              if context.is_loading_chain_vote_account
              then toasted "Loading wallet voting identity" (stopped form)
              else if context.has_validator_identity
                  && not form.extra.has_confirmed_validator_override
              then toasted "Confirm the stake override vote path before signing" (stopped form)
              else elim context.base.wallet_role [
                | staker ↦
                    submit_override context d form.extra.selected_stake_account wallet id
                      consensus_result form
                | _ ↦ toasted "You are not authorized to override vote" (stopped form)
              ]

unfoldable pub handle_submit :
    OverrideContext → Form OverrideState → Outcome OverrideState OverrideParams
unfolding handle_vote is_valid_distribution
handle_submit context form =
    if not (is_set (given_text form.selected_proposal.id))
      || not (is_valid_distribution form.distribution)
      || not (is_set form.extra.selected_stake_account)
      || form.is_loading
    then record { form = form; effects = [] }
    else handle_vote context form.distribution (record form { is_loading = true; error = none })

-- `handleVote` of ModifyOverrideVoteModal.tsx, where the state is the stake account
unfoldable pub handle_modify_vote :
    OverrideContext
    → VoteDistribution
    → Form (Option String)
    → Outcome (Option String) OverrideParams
handle_modify_vote context d form =
    unless_set context.base.wallet (toasted "Wallet not connected" (stopped form)) λ wallet.
      unless_set (given_text form.selected_proposal.id)
        (toasted "No proposal ID provided" (stopped form))
        λ id.
          unless_set form.selected_proposal.consensus_result
            (toasted "Couldn't obtain consensus result" (stopped form))
            λ consensus_result. elim context.base.wallet_role [
              | staker ↦ submit_override context d form.extra wallet id consensus_result form
              | _ ↦ toasted "You are not authorized to override vote" form
            ]

unfoldable pub handle_modify_submit :
    OverrideContext → Form (Option String) → Outcome (Option String) OverrideParams
unfolding handle_modify_vote is_valid_distribution
handle_modify_submit context form =
    if not (is_set (given_text form.selected_proposal.id))
      || not (is_valid_distribution form.distribution)
      || not (is_set form.extra)
      || form.is_loading
    then record { form = form; effects = [] }
    else handle_modify_vote context form.distribution
        (record form { is_loading = true; error = none })
