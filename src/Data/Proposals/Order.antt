-- ===== src/Data/Proposals/Order.antt =====
-- The order of the list of proposals (frontend/src/data/getProposals.ts).
use mathlib.Core.List.{Perm}
use solana_governance.Common.{
  All, ℕ, ◌≡◌, refl, sym, ap, Bool, true, not, ◌&&◌, Option, none, some, List, [], ◌∷◌, arith,
}
use solana_governance.Common.Int.{◌≤ℤ◌, ℤ, ltb_ℤ}
use solana_governance.Common.Sort.Laws.{
  keep, IsSorted, IsTransitive, IsTotal, sort-perm, sort-IsSorted, sort-keep,
}
use solana_governance.Github.Platform.{Platform, ◌>>=◌}
use solana_governance.Lifecycle.{GovernanceConfigDto}
use solana_governance.Data.Proposals.{
  ProposalRecord, RawProposalAccount, Filters, ToNumber, agrees, filtered, listed, not_older,
  map_from, get_proposals, total_stake,
}

-- what a proposal must be to be listed
abbrev pub passes : Option Filters → ProposalRecord → Bool
passes none p = true
passes (some filters) p = agrees filters.voting p.voting && agrees filters.finalized p.finalized

not_older-IsTransitive : IsTransitive not_older
not_older-IsTransitive a b c h k = ground arith

not_older-IsTotal : IsTotal not_older
not_older-IsTotal a b h = ground arith

keep-keep :
    (p q : ProposalRecord → Bool) (records : List ProposalRecord)
    → keep q (keep p records) ≡ keep (λ r. p r && q r) records
unfolding keep
keep-keep p q [] = refl
keep-keep p q (r ∷ records) = ground (arith, keep-keep p q records)

keep-all : (records : List ProposalRecord) → keep (λ r. true) records ≡ records
unfolding keep
keep-all [] = refl
keep-all (r ∷ records) = ap (λ rest. r ∷ rest) (keep-all records)

filtered-keep :
    (filters : Option Filters) (records : List ProposalRecord)
    → filtered filters records ≡ keep (passes filters) records
unfolding filtered
filtered-keep none records = sym (keep-all records)
filtered-keep (some filters) records = keep-keep _ _ records

-- proposals of one time
abbrev pub made_at : ℤ → ProposalRecord → Bool
made_at t p = not (ltb_ℤ p.creation_timestamp t) && not (ltb_ℤ t p.creation_timestamp)

made_at-not_older :
    (t : ℤ) (a b : ProposalRecord) → made_at t a ≡ true → made_at t b ≡ true → not_older a b ≡ true
made_at-not_older t a b h k = ground arith

-- no proposal is newer than one in front of it
abbrev pub IsNewestFirst : List ProposalRecord → Type 0
IsNewestFirst [] = Unit
IsNewestFirst (p ∷ ps) =
    All (λ q. q.creation_timestamp ≤ℤ p.creation_timestamp) ps × IsNewestFirst ps

All-not_newer :
    (p : ProposalRecord) (ps : List ProposalRecord)
    → All (λ q. not_older p q ≡ true) ps
    → All (λ q. q.creation_timestamp ≤ℤ p.creation_timestamp) ps
All-not_newer p [] a = tt
All-not_newer p (q ∷ ps) a = (not_newer p q a.0, All-not_newer p ps a.1)
  where
    not_newer :
        (p q : ProposalRecord) → not_older p q ≡ true → q.creation_timestamp ≤ℤ p.creation_timestamp
    not_newer p q h = ground arith

IsSorted-IsNewestFirst : (ps : List ProposalRecord) → IsSorted not_older ps → IsNewestFirst ps
IsSorted-IsNewestFirst [] s = tt
IsSorted-IsNewestFirst (p ∷ ps) s = (All-not_newer p ps s.0, IsSorted-IsNewestFirst ps s.1)

-- a list of the records that pass, the newest first, and those of one time in the order of the chain
abbrev pub IsListing : Option Filters → List ProposalRecord → List ProposalRecord → Type 0
IsListing filters records result =
    Perm result (keep (passes filters) records)
    × IsNewestFirst result
    × ((t : ℤ) → keep (made_at t) result ≡ keep (made_at t) (keep (passes filters) records))

pub listed-IsListing :
    (filters : Option Filters) (records : List ProposalRecord)
    → IsListing filters records (listed filters records)
unfolding listed
listed-IsListing filters records = rw (filtered-keep filters records) (
  sort-perm not_older (keep (passes filters) records),
  IsSorted-IsNewestFirst _ (
      sort-IsSorted not_older (keep (passes filters) records) not_older-IsTransitive
        not_older-IsTotal),
  λ t. sort-keep not_older (made_at t) (keep (passes filters) records) (made_at-not_older t),
)

-- If every account can be mapped, the proposals are listed: exactly the mapped ones that pass the
-- filters, the newest first, and those of the same time in the order of the chain.
pub get_proposals-IsListing :
    (platform : Platform) (to : ToNumber) (filters : Option Filters) (current_epoch : ℕ)
    (stakes : List (Option ℕ)) (config : GovernanceConfigDto) (accounts : List RawProposalAccount)
    (records : List ProposalRecord)
    → map_from platform to
        (record { current_epoch = current_epoch; total_staked_lamports = total_stake stakes })
        config
        0
        accounts
      ≡ some records
    → (result : List ProposalRecord) × (get_proposals platform to filters current_epoch stakes
          config accounts
        ≡ some result)
      × IsListing filters records result
unfolding get_proposals
get_proposals-IsListing platform to filters current_epoch stakes config accounts records h = (
  listed filters records,
  ap (λ mapped. mapped >>= λ rs. some (listed filters rs)) h,
  listed-IsListing filters records,
)
