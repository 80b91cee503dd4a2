-- ===== src/SupportStats.antt =====
-- frontend/src/components/proposals/detail/support-phase-progress/stats.ts: the figures of the
-- support phase. Lamports and counts are natural numbers, quotients exact fractions.
use solana_governance.Common.{ℕ, ◌+◌, ◌*◌, Bool, ◌&&◌, ◌||◌, ltb, if◌then◌else◌}
use solana_governance.Common.Ratio.{
  Ratio, of_ℕ, div, scale, div_by, quot, monus, ratio_leb, ratio_ltb, ratio_max,
}
pub mod Laws

pub record SupportStatsInput : Type 0 where
  pub current_support_lamports : ℕ
  pub total_staked_lamports : ℕ
  pub threshold_percent : Ratio
  pub validator_count : ℕ
  pub num_of_validators : ℕ
  pub threshold_crossed : Bool

pub record SupportStats : Type 0 where
  pub current_support_lamports : ℕ
  pub total_staked_lamports : ℕ
  pub required_threshold_lamports : Ratio
  pub threshold_percent : Ratio
  pub progress_percent : Ratio
  pub support_percent_of_total : Ratio
  pub remaining_lamports : Ratio
  pub is_threshold_met : Bool
  pub validator_count : ℕ
  pub participation_percent : Ratio
  pub avg_stake_per_validator : Ratio

abbrev pub required_threshold : SupportStatsInput → Ratio
required_threshold i = scale (div_by i.threshold_percent 100) i.total_staked_lamports

abbrev pub live_progress : SupportStatsInput → Ratio
live_progress i =
    if ratio_ltb (of_ℕ 0) (required_threshold i)
    then scale (quot (of_ℕ i.current_support_lamports) (required_threshold i)) 100
    else of_ℕ 0

unfoldable pub compute_support_stats : SupportStatsInput → SupportStats
compute_support_stats i = record {
  current_support_lamports = i.current_support_lamports;
  total_staked_lamports = i.total_staked_lamports;
  required_threshold_lamports = required_threshold i;
  threshold_percent = i.threshold_percent;
  progress_percent =
      if i.threshold_crossed then ratio_max (live_progress i) (of_ℕ 100) else live_progress i;
  support_percent_of_total =
      if ltb 0 i.total_staked_lamports
      then scale (div i.current_support_lamports i.total_staked_lamports) 100
      else of_ℕ 0;
  remaining_lamports =
      if i.threshold_crossed
      then of_ℕ 0
      else monus (required_threshold i) (of_ℕ i.current_support_lamports);
  is_threshold_met =
      i.threshold_crossed
      || (ltb 0 i.total_staked_lamports
          && ratio_leb (required_threshold i) (of_ℕ i.current_support_lamports));
  validator_count = i.validator_count;
  participation_percent =
      if ltb 0 i.num_of_validators
      then scale (div i.validator_count i.num_of_validators) 100
      else of_ℕ 0;
  avg_stake_per_validator =
      if ltb 0 i.validator_count then div i.current_support_lamports i.validator_count else of_ℕ 0;
}
