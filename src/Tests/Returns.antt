-- ===== src/Tests/Returns.antt =====
-- frontend/src/chain/instructions at calls that are all answered.
use solana_governance.Common.{arith, ◌≡◌, refl, []}
use solana_governance.Common.Int.{pos}
use solana_governance.Chain.Types.{ok, TransactionResult}
use solana_governance.Chain.Helpers.{
  convert_merkle_proof_strings, convert_stake_merkle_leaf_data_to_idl_type,
}
use solana_governance.Chain.Vote.{cast_vote, modify_vote}
use solana_governance.Chain.Override.{cast_vote_override, modify_vote_override}
use solana_governance.Chain.Live.{Cooperates, Validates, Delegates}
use solana_governance.Chain.Live.Vote.{votes-Answers}
use solana_governance.Chain.Live.Override.{overrides-Answers}
use solana_governance.Tests.World.{split-total, env, vote, override}

cooperates : Cooperates env "me"
cooperates = record {
  account = λ key tr. (omega arith, tt);
  known = λ key tr. tt;
  epoch = λ tr. (1004, pos 5000, (λ tr'. refl), omega arith, omega arith);
  blockhash = λ tr. tt;
  signs = λ tx tr. (refl, refl);
  sends = λ tx tr. tt;
}

validates : Validates env "me" (vote 6000)
unfolding convert_merkle_proof_strings
validates = record {
  proposal_key = tt;
  validators = λ tr. (record { node_pubkey = "me"; vote_pubkey = "vote" }, refl, tt);
  proof = λ account network slot tr. (tt, tt, tt, tt, tt);
}

votes-Answers_example :
    ((r : TransactionResult) × ((cast_vote env (vote 6000) "mainnet" []).0 ≡ ok r))
    × ((r : TransactionResult) × ((modify_vote env (vote 6000) "mainnet" []).0 ≡ ok r))
votes-Answers_example =
    votes-Answers env "me" "consensus" (vote 6000) "mainnet" [] refl refl
      (split-total 6000 (omega arith)) cooperates validates

delegates : Delegates env (override 6000) "vote" "vote"
unfolding convert_merkle_proof_strings convert_stake_merkle_leaf_data_to_idl_type
delegates = record {
  proposal_key = tt;
  stake_key = tt;
  validator_key = refl;
  validator_named = refl;
  stake_proof = λ network slot tr. (refl, tt, tt);
  own_proof = λ network slot tr. ((tt, tt, tt, tt, tt), refl);
  confirms = λ signature tr. refl;
}

overrides-Answers_example :
    ((r : TransactionResult) × ((cast_vote_override env (override 6000) "mainnet" []).0 ≡ ok r))
    × ((r : TransactionResult) × ((modify_vote_override env (override 6000) "mainnet" []).0 ≡ ok r))
overrides-Answers_example =
    overrides-Answers env "me" "consensus" (override 6000) "mainnet" "vote" "vote" [] refl refl
      (split-total 6000 (omega arith)) cooperates delegates
