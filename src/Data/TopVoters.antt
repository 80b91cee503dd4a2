-- ===== src/Data/TopVoters.antt =====
-- frontend/src/hooks/useProposalVotes.ts: the voters of a proposal. Stakes and basis points are whole
-- numbers, a time is in milliseconds, and a percentage is a quotient. The colours are their places in
-- `accentColors`. Votes and overrides are read alike, up to the stake account and the type.
use Prim.Native.String.{String}
use text.Mathlib.Text.{◌==◌ as str_eq}
use solana_governance.Common.{
  ℕ, ◌+◌, ◌*◌, ◌-◌, ◌%◌, ◌^◌, Bool, true, false, ◌&&◌, ◌||◌, Option, none, some, List, [], ◌∷◌,
  ◌++◌, map, ltb, if◌then◌else◌,
}
use solana_governance.Common.Int.{ℤ, pos, negsuc, ◌+ℤ◌, ◌-ℤ◌, ◌*ℤ◌, sub_ℕ}
use solana_governance.Common.Ratio.{Ratio, of_ℕ, div, scale}
use solana_governance.Common.Text.{Text, text as ascii, is_empty}
use solana_governance.Modals.{given_text}
use solana_governance.Validators.{Validator, stake_sum}
pub mod Color

-- the bits of a 32-bit integer, as an unsigned number
abbrev pub bits_32 : ℤ → ℕ
bits_32 (pos n) = n % 2 ^ 32
bits_32 (negsuc n) = (2 ^ 32 - 1) - n % 2 ^ 32

-- the signed number with these bits
abbrev pub signed_32 : ℕ → ℤ
signed_32 u = if ltb u (2 ^ 31) then pos u else sub_ℕ u (2 ^ 32)

-- what `<<` and `&` make of a number
unfoldable pub to_int_32 : ℤ → ℤ
to_int_32 z = signed_32 (bits_32 z)

-- `(hash << 5) - hash + char`, and `hash & hash`
unfoldable pub next_hash : ℤ → ℕ → ℤ
unfolding to_int_32 ◌+ℤ◌ ◌-ℤ◌ ◌*ℤ◌
next_hash hash char = to_int_32 ((to_int_32 (hash *ℤ pos 32) -ℤ hash) +ℤ pos char)

unfoldable pub hash_from : ℤ → Text → ℤ
unfolding next_hash
hash_from hash [] = hash
hash_from hash (char ∷ str) = hash_from (next_hash hash char) str

-- `Math.abs(z)`
abbrev pub abs : ℤ → ℕ
abs (pos n) = n
abs (negsuc n) = n + 1

abbrev pub accent_colors : ℕ
accent_colors = 14

unfoldable pub get_color_from_string : Text → ℕ
unfolding hash_from
get_color_from_string str = abs (hash_from (pos 0) str) % accent_colors

pub data WalletType : Type 0 where
  validator staker : WalletType

pub record ProposalVote : Type 0 where
  pub identity : String
  pub active_stake : ℕ
  -- in seconds
  pub vote_timestamp : ℤ
  pub for_votes_bp : ℕ
  pub against_votes_bp : ℕ
  pub abstain_votes_bp : ℕ

pub record ProposalOverride : Type 0 where
  pub vote : ProposalVote
  pub stake_account : String

pub record TopVoterRecord : Type 0 where
  pub id : String
  pub validator_name : Text
  pub validator_image : Option String
  pub staked_lamports : ℕ
  pub vote_percentage : Ratio
  pub vote_timestamp : ℤ
  pub for_votes_bp : ℕ
  pub against_votes_bp : ℕ
  pub abstain_votes_bp : ℕ
  pub accent_color : ℕ
  pub stake_account : Option String
  pub wallet_type : WalletType

-- the validator that is set last under the key; each is set under its vote account, and under its
-- identity if it has one
unfoldable pub validator_map : List Validator → String → Option Validator
validator_map [] key = none
validator_map (v ∷ vs) key = elim (validator_map vs key) [
  | some w ↦ some w
  | none ↦ elim (given_text v.identity) [
    | some identity ↦ if str_eq v.vote_identity key || str_eq identity key then some v else none
    | none ↦ if str_eq v.vote_identity key then some v else none
  ]
]

-- `validator?.name || "Unknown Validator"`
abbrev pub name_or_unknown : Option Validator → Text
name_or_unknown none = ascii "Unknown Validator"
name_or_unknown (some v) = if is_empty v.name then ascii "Unknown Validator" else v.name

abbrev pub image_of : Option Validator → Option String
image_of none = none
image_of (some v) = v.image

-- 0 without a stake or a total
unfoldable pub vote_percentage : (staked_lamports total_staked_lamports : ℕ) → Ratio
vote_percentage staked total =
    if ltb 0 total && ltb 0 staked then scale (div staked total) 100 else of_ℕ 0

abbrev pub voter_record :
    List Validator → (total : ℕ) → WalletType → Option String → ProposalVote → TopVoterRecord
voter_record validators total wallet_type stake_account v =
    let validator = validator_map validators v.identity in
    record {
      id = v.identity;
      validator_name = name_or_unknown validator;
      validator_image = image_of validator;
      staked_lamports = v.active_stake;
      vote_percentage = vote_percentage v.active_stake total;
      vote_timestamp = v.vote_timestamp *ℤ pos 1000;
      for_votes_bp = v.for_votes_bp;
      against_votes_bp = v.against_votes_bp;
      abstain_votes_bp = v.abstain_votes_bp;
      accent_color = get_color_from_string (name_or_unknown validator);
      stake_account = stake_account;
      wallet_type = wallet_type;
    }

-- while the validators are not loaded there are none
unfoldable pub top_voters :
    List Validator → List ProposalVote → List ProposalOverride → List TopVoterRecord
unfolding validator_map vote_percentage get_color_from_string stake_sum
top_voters validators votes vote_overrides =
    let total = stake_sum validators in
    map (voter_record validators total WalletType.validator none) votes
    ++ map (λ o. voter_record validators total staker (some o.stake_account) o.vote) vote_overrides
