-- ===== src/Tests/Votes.antt =====
-- frontend/src/chain/instructions at a wallet, a chain and a service that answer.
use solana_governance.Common.{arith, ◌≡◌, refl, some, []}
use solana_governance.Common.Double.{integer, plus, round, spacing, spacing_from, precision, one}
use solana_governance.Chain.Types.{ok}
use solana_governance.Chain.Flow.{return, require, lift, ask, look_up, confirm, ◌>>=◌}
use solana_governance.Chain.Helpers.{
  sign_and_send, validate_vote_basis_points, resolve_proposal_snapshot_slot,
  get_meta_merkle_proof_pda, convert_merkle_proof_strings, sign_transaction_for_wallet,
  check_signed, resolve_snapshot_vote_account, assert_override_proof_lineage,
  convert_stake_merkle_leaf_data_to_idl_type,
}
use solana_governance.Chain.Vote.{vote_context, init_instruction, cast_vote, modify_vote}
use solana_governance.Chain.Override.{
  override_context, initialize_proof, cast_vote_override, modify_vote_override,
}
use solana_governance.Chain.Support.{SupportProposalParams, SupportProposalGlobalConfigInput}
use solana_governance.Chain.Slots.{
  block_time_at_or_before, block_time_loop, compute_proof_close_timestamp,
}
use solana_governance.Chain.Sound.{IsSound}
use solana_governance.Chain.Sound.Vote.{votes-IsSound}
use solana_governance.Chain.Sound.Override.{overrides-IsSound}
use solana_governance.Chain.Sound.Results.{Tells, AllRefused, votes-Tells, votes-refuse_total}
use solana_governance.Tests.World.{env, vote, override, done, split-IsIntegral, split_off}

cast_returns : (cast_vote env (vote 6000) "mainnet" []).0 ≡ ok done
unfolding cast_vote vote_context return require lift ask look_up sign_and_send
    validate_vote_basis_points resolve_proposal_snapshot_slot get_meta_merkle_proof_pda
    init_instruction compute_proof_close_timestamp block_time_at_or_before block_time_loop
    convert_merkle_proof_strings sign_transaction_for_wallet check_signed ◌>>=◌ integer plus round
    spacing spacing_from precision one
cast_returns = refl

override_returns : (cast_vote_override env (override 6000) "mainnet" []).0 ≡ ok done
unfolding cast_vote_override override_context return require lift ask look_up sign_and_send
    validate_vote_basis_points resolve_proposal_snapshot_slot get_meta_merkle_proof_pda
    initialize_proof compute_proof_close_timestamp block_time_at_or_before block_time_loop
    convert_merkle_proof_strings sign_transaction_for_wallet check_signed ◌>>=◌ integer plus round
    spacing spacing_from precision one resolve_snapshot_vote_account assert_override_proof_lineage
    confirm convert_stake_merkle_leaf_data_to_idl_type
override_returns = refl

votes-IsSound_example :
    IsSound "me" (cast_vote env (vote 6000) "mainnet" []).1
    × IsSound "me" (modify_vote env (vote 6000) "mainnet" []).1
votes-IsSound_example =
    votes-IsSound env (vote 6000) "mainnet" "me" [] refl (split-IsIntegral 6000 (omega arith)) tt

overrides-IsSound_example :
    IsSound "me" (cast_vote_override env (override 6000) "mainnet" []).1
    × IsSound "me" (modify_vote_override env (override 6000) "mainnet" []).1
overrides-IsSound_example =
    overrides-IsSound env (override 6000) "mainnet" "me" [] refl
      (split-IsIntegral 6000 (omega arith)) tt

abbrev supporter : SupportProposalParams
supporter = record { proposal_id = "proposal"; wallet = some "me" }

abbrev config : SupportProposalGlobalConfigInput
config = record { discussion_epochs = 4; snapshot_epoch_extension = 1; snapshot_slot_offset = 1000 }

votes-refuse_total_example : AllRefused env (vote 6001) (override 5999) "mainnet" []
votes-refuse_total_example =
    votes-refuse_total env (vote 6001) (override 5999) "mainnet" "me" "consensus" [] refl refl
      (split_off 6001 (omega arith) (λ h. omega arith)) refl refl
      (split_off 5999 (omega arith) (λ h. omega arith))

votes-Tells_example :
    Tells env (cast_vote env (vote 6000) "mainnet" [])
    × Tells env (modify_vote env (vote 6000) "mainnet" [])
    × Tells env (cast_vote_override env (override 6000) "mainnet" [])
    × Tells env (modify_vote_override env (override 6000) "mainnet" [])
votes-Tells_example = votes-Tells env (vote 6000) (override 6000) "mainnet" []
