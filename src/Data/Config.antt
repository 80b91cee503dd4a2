-- ===== src/Data/Config.antt =====
-- `toGovernanceConfigDto` of frontend/src/lib/getGovernanceConfig.ts.
use Prim.Native.String.{String}
use solana_governance.Common.{ℕ, Option, none, some}
use solana_governance.Github.Platform.{◌>>=◌}
use solana_governance.Lifecycle.{GovernanceConfigDto}

-- a field of the account: a number, an integer with `toNumber`, or neither
pub data Field : Type 0 where
  number : ℕ → Field
  big_number : ℕ → Field
  neither : Field

pub record GlobalConfigAccount : Type 0 where
  pub admin : String
  pub max_title_length : Option ℕ
  pub max_description_length : Option ℕ
  pub max_support_epochs : Field
  pub min_proposal_stake_lamports : Field
  pub cluster_support_pct_min_bps : Field
  pub discussion_epochs : Field
  pub voting_epochs : Field
  pub snapshot_epoch_extension : Field
  pub snapshot_slot_offset : Field
  pub max_supporters : Field
  pub bump : ℕ

-- `?? 0`
abbrev pub number_or_zero : Option ℕ → ℕ
number_or_zero none = 0
number_or_zero (some n) = n

-- `toNumber`, which throws for what is not exact, is the argument
module _ (to_number : ℕ → Option ℕ) where
  -- `n`
  abbrev pub number_of_field : Field → Option ℕ
  number_of_field (number n) = some n
  number_of_field (big_number n) = to_number n
  number_of_field neither = some 0

  unfoldable pub to_governance_config_dto : GlobalConfigAccount → Option GovernanceConfigDto
  to_governance_config_dto account = do
    max_support_epochs ← number_of_field account.max_support_epochs
    min_proposal_stake_lamports ← number_of_field account.min_proposal_stake_lamports
    cluster_support_pct_min_bps ← number_of_field account.cluster_support_pct_min_bps
    discussion_epochs ← number_of_field account.discussion_epochs
    voting_epochs ← number_of_field account.voting_epochs
    snapshot_epoch_extension ← number_of_field account.snapshot_epoch_extension
    snapshot_slot_offset ← number_of_field account.snapshot_slot_offset
    max_supporters ← number_of_field account.max_supporters
    some (record {
      admin = account.admin;
      max_title_length = number_or_zero account.max_title_length;
      max_description_length = number_or_zero account.max_description_length;
      max_support_epochs = max_support_epochs;
      min_proposal_stake_lamports = min_proposal_stake_lamports;
      cluster_support_pct_min_bps = cluster_support_pct_min_bps;
      discussion_epochs = discussion_epochs;
      voting_epochs = voting_epochs;
      snapshot_epoch_extension = snapshot_epoch_extension;
      snapshot_slot_offset = snapshot_slot_offset;
      max_supporters = max_supporters;
      bump = account.bump;
    })
