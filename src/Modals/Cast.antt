-- ===== src/Modals/Cast.antt =====
-- frontend/src/components/modals/CastVoteModal.tsx and ModifyVoteModal.tsx: the forms of a validator's
-- vote. Their handlers differ in the mutation alone, which is told apart by the session that uses them.
use solana_governance.Common.{true, not, ◌||◌, none, some, [], ◌∷◌, if◌then◌else◌}
use solana_governance.Chain.Vote.{VoteParams}
use solana_governance.Lifecycle.{is_set}
use solana_governance.Networks.{staker, no_role}
use solana_governance.VoteDistribution.{VoteDistribution, is_valid_distribution}
use solana_governance.Modals.{
  Form, Outcome, Context, mutated, given_text, unless_set, basis_points, toasted, stopped,
  with_error,
}

-- `handleVote` of the one and `handleModifyVote` of the other
unfoldable pub handle_vote : Context → VoteDistribution → Form Unit → Outcome Unit VoteParams
handle_vote context d form =
    unless_set context.wallet (toasted "Wallet not connected" form) λ wallet.
      unless_set (given_text form.selected_proposal.id) (toasted "No proposal ID provided" form)
        λ id.
          unless_set form.selected_proposal.consensus_result
            (toasted "Couldn't obtain consensus result" form)
            λ consensus_result. elim context.wallet_role [
              | no_role ↦ toasted "You are not authorized to vote" form
              | staker ↦
                  toasted "Staker can only cast an override vote"
                    (stopped (with_error "Staker can only cast an override vote" form))
              | _ ↦ record {
                form = form;
                effects =
                    mutated (record {
                      proposal_id = id;
                      distribution = basis_points d;
                      wallet = some wallet;
                      consensus_result = some consensus_result;
                    })
                    ∷ [];
              }
            ]

unfoldable pub handle_submit : Context → Form Unit → Outcome Unit VoteParams
unfolding handle_vote is_valid_distribution
handle_submit context form =
    if not (is_set (given_text form.selected_proposal.id))
      || not (is_valid_distribution form.distribution)
      || form.is_loading
    then record { form = form; effects = [] }
    else handle_vote context form.distribution (record form { is_loading = true; error = none })

-- `handleModifyVote` of ModifyVoteModal.tsx has the same guards, in the same order, with the same texts
unfoldable pub handle_modify_cast_vote :
    Context → VoteDistribution → Form Unit → Outcome Unit VoteParams
unfolding handle_vote
handle_modify_cast_vote context d form = handle_vote context d form

-- and so has its `handleSubmit`
unfoldable pub modify_submit : Context → Form Unit → Outcome Unit VoteParams
unfolding handle_submit
modify_submit context form = handle_submit context form
