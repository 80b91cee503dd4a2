-- ===== src/Validators/Stake.antt =====
-- The stakes of frontend/src/hooks/useGetValidators.ts are those of the RPC server.
use Prim.Native.String.{String}
use text.Mathlib.Text.{◌==◌ as str_eq}
use text.Mathlib.TextEquality.{eq_iff}
use solana_governance.Common.{
  ℕ, suc, ◌≡◌, refl, sym, ap, ◌∙◌, Bool, true, false, Option, none, some, List, [], ◌∷◌, ◌++◌, map,
  ◌⊎◌, inl, inr, Option-cases, if◌then◌else◌,
}
use solana_governance.Common.Text.{Text}
use solana_governance.Validators.{
  Validator, RpcVoteAccount, VoteAccountStatus, metadata, with_names, get_validators, or_none,
}

-- what is found is found behind, or is the first with the key
picked :
    (o : Option Validator) (v w : Validator) (b : Bool)
    → (elim o [ some u ↦ some u | none ↦ if b then some v else none ]) ≡ some w
    → (o ≡ some w) ⊎ ((b ≡ true) × (v.vote_identity ≡ w.vote_identity))
picked (some u) v w b h = inl h
picked none v w true h = inr (refl, cc)
picked none v w false h = absurd (cc)

-- what is found has the key
metadata-key :
    (vs : List Validator) (key : String) (w : Validator)
    → metadata vs key ≡ some w
    → w.vote_identity ≡ key
unfolding metadata
metadata-key [] key w h = absurd (cc)
metadata-key (v ∷ vs) key w h = elim (picked (metadata vs key) v w (str_eq v.vote_identity key) h) [
  | inl e ↦ metadata-key vs key w e
  | inr (b, e) ↦ sym e ∙ (eq_iff v.vote_identity key).0 b
]

-- a vote account and its stake
abbrev pub stake_of : Validator → String × ℕ
stake_of v = (v.vote_identity, v.activated_stake)

abbrev pub account_stake : RpcVoteAccount → String × ℕ
account_stake a = (a.vote_pubkey, a.activated_stake)

with_names-stakes :
    (to_string : ℕ → Text) (validators : List Validator) (n : ℕ) (votes : List RpcVoteAccount)
    → map stake_of (with_names to_string validators n votes) ≡ map account_stake votes
unfolding with_names
with_names-stakes to_string validators n [] = refl
with_names-stakes to_string validators n (vote ∷ votes) =
    elim (Option-cases (metadata validators vote.vote_pubkey)) [
      | inr (v, e) ↦
          rw (map, e)
            (ap
                (λ i.
                  (i, vote.activated_stake)
                  ∷ map stake_of (with_names to_string validators n votes))
                (metadata-key validators vote.vote_pubkey v e)
              ∙ ap (λ t. account_stake vote ∷ t) (with_names-stakes to_string validators n votes))
      | inl e ↦
          rw (map, e)
            (ap (λ t. account_stake vote ∷ t)
              (with_names-stakes to_string validators (suc n) votes))
    ]

-- If the vote accounts are fetched, the validators are these accounts with their stakes, in their order,
-- whatever StakeWiz answers, and if it fails.
pub get_validators-stakes :
    (to_string : ℕ → Text) (stake_wiz : Option (List Validator)) (accounts : VoteAccountStatus)
    → (validators : List Validator) × (get_validators to_string stake_wiz (some accounts)
        ≡ some validators)
      × (map stake_of validators ≡ map account_stake (accounts.current ++ accounts.delinquent))
unfolding get_validators
get_validators-stakes to_string stake_wiz accounts = (
  _,
  refl,
  with_names-stakes to_string (or_none to_string stake_wiz) 0
      (accounts.current ++ accounts.delinquent),
)
