-- ===== src/Networks.antt =====
-- frontend/src/lib/snapshotNetwork.ts and frontend/src/lib/governance/role-detection.ts: the network
-- that the verifier service is asked for, and the role of a wallet.
use Prim.Native.String.{String}
use text.Mathlib.Text.{◌==◌ as str_eq}
use solana_governance.Common.{
  Bool, true, false, ◌&&◌, Option, none, some, List, [], ◌∷◌, find?, if◌then◌else◌, ◌⊎◌, inl, inr,
}
use solana_governance.Common.Text.{is_empty}
use solana_governance.Lifecycle.{is_set}
pub mod Resolve

pub data KnownSnapshotNetwork : Type 0 where
  mainnet devnet testnet : KnownSnapshotNetwork

pub data RpcEndpoint : Type 0 where
  known : KnownSnapshotNetwork → RpcEndpoint
  custom : RpcEndpoint

abbrev pub cluster_genesis_hashes : KnownSnapshotNetwork → String
cluster_genesis_hashes mainnet = "5eykt4UsFv8P8NJdTREpY1vzqKqZKvdpKuc147dw2N9d"
cluster_genesis_hashes devnet = "EtWTRABZaYq6iMfeYKouRu166VU2xqa1wcaWoxPkrZBG"
cluster_genesis_hashes testnet = "4uhcVJyU9pJkvQyS88uRDiswHXSCkY3zQawwpjk2NsNY"

-- the keys, in the order of the source
abbrev pub networks : List KnownSnapshotNetwork
networks = mainnet ∷ devnet ∷ testnet ∷ []

unfoldable pub network_from_genesis_hash : String → Option KnownSnapshotNetwork
network_from_genesis_hash genesis_hash =
    find? (λ network. str_eq (cluster_genesis_hashes network) genesis_hash) networks

-- a custom endpoint is asked for its hash, which may fail
unfoldable pub resolve_snapshot_network :
    RpcEndpoint → Option String → Option (Option KnownSnapshotNetwork)
unfolding network_from_genesis_hash
resolve_snapshot_network (known network) genesis_hash = some (some network)
resolve_snapshot_network custom none = none
resolve_snapshot_network custom (some genesis_hash) = some (network_from_genesis_hash genesis_hash)

pub data WalletRole : Type 0 where
  validator staker both no_role : WalletRole

pub data ViewType : Type 0 where
  validator_view staker_view : ViewType

-- `!!stakeAccounts?.length`
abbrev pub has_stake {ℓ} : {A : Type ℓ} → Option (List A) → Bool
has_stake none = false
has_stake (some []) = false
has_stake (some (account ∷ accounts)) = true

module _ {ℓ κ} {S : Type ℓ} {V : Type κ} where
  unfoldable pub determine_wallet_role : Option (List S) → Option V → WalletRole
  determine_wallet_role stake_accounts chain_vote_account =
      let has_identity = is_set chain_vote_account in
      if has_stake stake_accounts && has_identity
      then both
      else if has_identity
      then validator
      else if has_stake stake_accounts
      then staker
      else staker

abbrev pub get_default_view : WalletRole → Option ViewType
get_default_view validator = some validator_view
get_default_view staker = some staker_view
get_default_view both = some validator_view
get_default_view no_role = none

pub data CastModalName : Type 0 where
  cast_vote override_vote : CastModalName

pub data ModifyModalName : Type 0 where
  modify_vote modify_override_vote : ModifyModalName

pub record VoteModalNames : Type 0 where
  pub cast_modal_name : CastModalName
  pub modify_modal_name : ModifyModalName

abbrev pub get_vote_modal_names {κ} : {V : Type κ} → Option V → VoteModalNames
get_vote_modal_names chain_vote_account =
    if is_set chain_vote_account
    then record { cast_modal_name = cast_vote; modify_modal_name = modify_vote }
    else record { cast_modal_name = override_vote; modify_modal_name = modify_override_vote }
