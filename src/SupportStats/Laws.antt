-- ===== src/SupportStats/Laws.antt =====
-- Laws of the figures of frontend/src/components/proposals/detail/support-phase-progress/stats.ts.
use solana_governance.Common.{ℕ, ◌*◌, ◌<◌, ◌≡◌, ◌↔◌, true, false, some, arith}
use solana_governance.Common.Ratio.{of_ℕ, RatioLe}
use solana_governance.SupportStats.{SupportStatsInput, compute_support_stats}
use solana_governance.Lifecycle.{
  GovernanceConfigDto, GetProposalStatusParams, support_threshold_met,
  support_threshold_percent_from_config,
}

-- Once the chain has recorded the crossing, whatever the live stake: the threshold is met, the
-- progress is at least 100 percent, and nothing remains.
pub compute_support_stats-crossed :
    (i : SupportStatsInput)
    → i.threshold_crossed ≡ true
    → let stats = compute_support_stats i in
      (stats.is_threshold_met ≡ true)
      × RatioLe (of_ℕ 100) stats.progress_percent
      × (stats.remaining_lamports ≡ of_ℕ 0)
unfolding compute_support_stats
compute_support_stats-crossed i h = ground arith

product_pos : (a b : ℕ) → 0 < a → 0 < b → 0 < a * b
product_pos a b h k = grind arith

-- Before the crossing, with stake loaded and a positive threshold, three figures tell the same: the
-- threshold is met exactly when the progress reaches 100 percent, and exactly when nothing remains.
pub compute_support_stats-agree :
    (i : SupportStatsInput)
    → i.threshold_crossed ≡ false
    → 0 < i.total_staked_lamports
    → 0 < i.threshold_percent.num
    → 0 < i.threshold_percent.den
    → let stats = compute_support_stats i in
      ((stats.is_threshold_met ≡ true) ↔ RatioLe (of_ℕ 100) stats.progress_percent)
      × ((stats.is_threshold_met ≡ true) ↔ (stats.remaining_lamports.num ≡ 0))
unfolding compute_support_stats
compute_support_stats-agree i c t n d =
    let positive = product_pos i.total_staked_lamports i.threshold_percent.num t n in
    ((λ h. ground arith, λ h. ground arith), (λ h. ground arith, λ h. ground arith))

-- the input that the page builds from the same configuration and tallies as the status
abbrev pub stats_input :
    GovernanceConfigDto → GetProposalStatusParams → (validators supporters : ℕ) → SupportStatsInput
stats_input dto p validators supporters = record {
  current_support_lamports = p.cluster_support_lamports;
  total_staked_lamports = p.total_staked_lamports;
  threshold_percent = support_threshold_percent_from_config (some dto);
  validator_count = supporters;
  num_of_validators = validators;
  threshold_crossed = false;
}

-- With stake loaded, and before the chain has recorded the crossing, the page and the status decide the threshold alike, from one configuration.
pub compute_support_stats-support_threshold_met :
    (dto : GovernanceConfigDto) (p : GetProposalStatusParams) (validators supporters : ℕ)
    → p.cluster_support_pct_min_bps ≡ dto.cluster_support_pct_min_bps
    → 0 < p.total_staked_lamports
    → (compute_support_stats (stats_input dto p validators supporters)).is_threshold_met
      ≡ support_threshold_met p
unfolding compute_support_stats support_threshold_met support_threshold_percent_from_config
compute_support_stats-support_threshold_met dto p validators supporters e t = ground arith
