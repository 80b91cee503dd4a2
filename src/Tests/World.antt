-- ===== src/Tests/World.antt =====
-- A wallet, a chain and a service that answer the calls of frontend/src/chain/instructions.
use solana_governance.Common.{
  ◌==◌, if◌then◌else◌, ℕ, ◌+◌, ◌≤◌, ◌≡◌, ◌≢◌, refl, sym, ◌∙◌, arith, true, false, Option, none,
  some, [], ◌∷◌,
}
use solana_governance.Common.Int.{ℤ, pos}
use solana_governance.Common.Double.{integer}
use solana_governance.Common.Double.Exact.{plus-integers, integer-injective, small}
use solana_governance.Chain.Helpers.{total_bp}
use solana_governance.Chain.Sound.{IsIntegral}
use solana_governance.Chain.Types.{
  ok, Distribution, EpochInfo, TransactionResult, VoteAccountProofLeaf,
}
use solana_governance.Chain.Flow.{Env}
use solana_governance.Chain.Vote.{VoteParams}
use solana_governance.Chain.Override.{OverrideParams}

abbrev pub leaf : VoteAccountProofLeaf
leaf = record {
  active_stake = "7";
  stake_merkle_root = "root";
  vote_account = "vote";
  voting_wallet = "me";
}

abbrev pub info : EpochInfo
info = record { epoch = 10; slot_index = 5; slots_in_epoch = 100; absolute_slot = 1005 }

-- the slot 1005 has no block time, the one below it has
abbrev pub block_time : ℕ → Option ℤ
block_time slot = if slot == 1004 then some (pos 5000) else none

-- no account exists yet
abbrev pub env : Env
env = record {
  program_id = "program";
  snapshot_program_id = "snapshot";
  public_key = λ text. ok text;
  find_program_address = λ seeds program. "address";
  to_number = λ n. ok n;
  big_number = λ text. ok 7;
  fetch_proposal =
      λ key tr. ok (record { snapshot_slot = 900; end_epoch = 12; num_supporters = 3 });
  get_vote_accounts = λ tr. ok (record { node_pubkey = "me"; vote_pubkey = "vote" } ∷ []);
  get_epoch_info = λ tr. ok info;
  get_first_slot_in_epoch = λ tr. ok (λ epoch. epoch + epoch);
  get_block_time = λ slot tr. ok (block_time slot);
  get_account_info = λ key tr. ok false;
  get_latest_blockhash = λ tr. ok "hash";
  fetch_stake_proof = λ account network slot tr. ok (record {
    stake_merkle_leaf = record {
      active_stake = "7";
      stake_account = "stake";
      voting_wallet = "me";
    };
    stake_merkle_proof = "left" ∷ [];
    vote_account = some "vote";
  });
  fetch_vote_proof = λ account network slot tr.
      ok (record { meta_merkle_leaf = leaf; meta_merkle_proof = "right" ∷ [] });
  sign_transaction = λ tx tr. ok (record {
    body = tx;
    signatures = record { public_key = "me"; signature = some "signed" } ∷ [];
    verifies = true;
  });
  send_raw_transaction = λ tx tr. ok "signature";
  confirm_transaction = λ signature tr. ok none;
}

abbrev pub split : ℕ → Distribution
split n = record {
  for_votes_bp = integer n;
  against_votes_bp = integer 3000;
  abstain_votes_bp = integer 1000;
}

pub split-total : (n : ℕ) → n ≤ 10000 → total_bp (split n) ≡ integer (n + 3000 + 1000)
split-total n h = plus-integers n 3000 1000 (small (n + 3000 + 1000) (omega arith))

pub split-IsIntegral : (n : ℕ) → n ≤ 10000 → IsIntegral (split n)
split-IsIntegral n h = (
  record { for_votes_bn = n; against_votes_bn = 3000; abstain_votes_bn = 1000 },
  refl,
  small (n + 3000 + 1000) (omega arith),
)

pub split_off : (n : ℕ) → n ≤ 10000 → n ≢ 6000 → total_bp (split n) ≢ integer 10000
split_off n h k e =
    k (subtracted n (integer-injective (n + 3000 + 1000) 10000 (sym (split-total n h) ∙ e)))
  where
    subtracted : (n : ℕ) → n + 3000 + 1000 ≡ 10000 → n ≡ 6000
    subtracted n e = omega arith

abbrev pub vote : ℕ → VoteParams
vote n = record {
  proposal_id = "proposal";
  distribution = split n;
  wallet = some "me";
  consensus_result = some "consensus";
}

abbrev pub override : ℕ → OverrideParams
override n = record {
  proposal_id = "proposal";
  distribution = split n;
  stake_account = "stake";
  wallet = some "me";
  consensus_result = some "consensus";
}

abbrev pub done : TransactionResult
done = record { signature = "signature"; success = true }
