-- ===== src/Chain/ComputeBudget.antt =====
-- `supportComputeUnitLimit` of frontend/src/chain/instructions/types.ts.
use solana_governance.Common.{ℕ, ◌+◌, ◌-◌, ◌*◌, ◌/◌, ◌≤◌, ◌<◌, min, max, arith}

abbrev pub support_cu_base : ℕ
support_cu_base = 22500

abbrev pub support_cu_per_supporter : ℕ
support_cu_per_supporter = 132

abbrev pub support_cu_activation : ℕ
support_cu_activation = 28000

abbrev pub support_cu_headroom_percent : ℕ
support_cu_headroom_percent = 15

abbrev pub max_compute_unit_limit : ℕ
max_compute_unit_limit = 1400000

abbrev pub max_supporters : ℕ
max_supporters = 2000

-- `Math.ceil(n / d)`
abbrev pub ceil_div : ℕ → ℕ → ℕ
ceil_div n d = (n + (d - 1)) / d

unfoldable pub support_compute_unit_limit : ℕ → ℕ
support_compute_unit_limit num_supporters =
    let modelled =
      support_cu_base + support_cu_per_supporter * max 0 num_supporters + support_cu_activation in
    let with_headroom = ceil_div (modelled * (100 + support_cu_headroom_percent)) 100 in
    min with_headroom max_compute_unit_limit

-- The units that a call is measured to need at most, with that many supporters listed: the base, the
-- re-tally of the list, and the activation.
abbrev pub modelled_units : ℕ → ℕ
modelled_units n = 22500 + 132 * n + 28000

-- A longer list never requests less, and no list requests more than a transaction may.
pub support_compute_unit_limit_bounds :
    (n m : ℕ)
    → n ≤ m
    → (support_compute_unit_limit n ≤ support_compute_unit_limit m)
      × (support_compute_unit_limit m ≤ 1400000)
unfolding support_compute_unit_limit
support_compute_unit_limit_bounds n m h = (omega arith, omega arith)

-- For a list as long as the program permits, the request is the modelled cost with 15 percent of
-- headroom, rounded up, and stays below what a transaction may request.
pub support_compute_unit_limit-covers :
    (n : ℕ)
    → n ≤ max_supporters
    → (modelled_units n * 115 ≤ support_compute_unit_limit n * 100)
      × (support_compute_unit_limit n * 100 < modelled_units n * 115 + 100)
      × (support_compute_unit_limit n < 1400000)
unfolding support_compute_unit_limit
support_compute_unit_limit-covers n h = omega arith
