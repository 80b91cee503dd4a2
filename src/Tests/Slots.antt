-- ===== src/Tests/Slots.antt =====
-- The times and the compute budget of frontend/src/chain/instructions, at numbers.
use solana_governance.Common.{arith, ℕ, ◌≡◌, refl, []}
use solana_governance.Common.Int.{ℤ, pos, negsuc, ◌+ℤ◌, ◌-ℤ◌, ◌*ℤ◌}
use solana_governance.Chain.Types.{ok}
use solana_governance.Chain.Slots.{block_time_at_or_before, block_time_loop, slot_delta}
use solana_governance.Chain.Slots.Laws.{block_time_at_or_before-finds}
use solana_governance.Tests.World.{info, env}

found : (block_time_at_or_before env 1005 []).0 ≡ ok (1004, pos 5000)
unfolding block_time_at_or_before block_time_loop
found = refl

block_time_at_or_before-finds_example :
    (r : ℕ × ℤ) × ((block_time_at_or_before env 1005 []).0 ≡ ok r)
block_time_at_or_before-finds_example =
    block_time_at_or_before-finds env 1005 1004 (pos 5000) (λ tr. refl) (omega arith) (omega arith)
      []

ahead : slot_delta info 12 1004 ≡ pos 196
unfolding slot_delta ◌+ℤ◌ ◌-ℤ◌ ◌*ℤ◌
ahead = refl

behind : slot_delta info 10 1004 ≡ negsuc 3
unfolding slot_delta ◌+ℤ◌ ◌-ℤ◌ ◌*ℤ◌
behind = refl
