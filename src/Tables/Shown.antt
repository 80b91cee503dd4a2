-- ===== src/Tables/Shown.antt =====
-- The filters of the tables of frontend/src/components/governance/ show the rows that pass all of them.
use solana_governance.Common.{
  ℕ, ◌≡◌, refl, sym, ap, ◌∙◌, Bool, true, false, ◌&&◌, ◌||◌, List, [], ◌∷◌, leb, arith,
  if◌then◌else◌,
}
use solana_governance.Common.Sort.Laws.{keep}
use solana_governance.Common.Text.{Text, is_empty, text_eq}
use solana_governance.Tables.{
  StakeAccountData, StakeFilters, VoteAccountRow, all_text, active_text, includes_lower,
  includes_some, or_text, threshold, filtered_stake_accounts, filtered_vote_accounts,
}

-- a filter on what another has kept
keep-keep :
    {A : Type 0} → (p q : A → Bool) (xs : List A) → keep q (keep p xs) ≡ keep (λ x. p x && q x) xs
unfolding keep
keep-keep p q [] = refl
keep-keep p q (x ∷ xs) = ground (arith, keep-keep p q xs)

-- a filter that may be off
abbrev optional : {A : Type 0} → Bool → (A → Bool) → List A → List A
optional off p xs = if off then xs else keep p xs

keep-true : {A : Type 0} → (xs : List A) → keep (λ x. true) xs ≡ xs
unfolding keep
keep-true [] = refl
keep-true (x ∷ xs) = ap (λ ys. x ∷ ys) (keep-true xs)

optional-keep :
    {A : Type 0}
    → (off : Bool) (p : A → Bool) (xs : List A) → optional off p xs ≡ keep (λ x. off || p x) xs
optional-keep true p xs = sym (keep-true xs)
optional-keep false p xs = refl

optional_two :
    {A : Type 0}
    → (a b : Bool) (p q : A → Bool) (xs : List A)
    → optional b q (optional a p xs) ≡ keep (λ x. (a || p x) && (b || q x)) xs
optional_two a b p q xs =
    optional-keep b q (optional a p xs)
    ∙ ap (keep (λ x. b || q x)) (optional-keep a p xs)
    ∙ keep-keep (λ x. a || p x) (λ x. b || q x) xs

optional_three :
    {A : Type 0}
    → (a b c : Bool) (p q r : A → Bool) (xs : List A)
    → optional c r (optional b q (optional a p xs))
      ≡ keep (λ x. ((a || p x) && (b || q x)) && (c || r x)) xs
optional_three a b c p q r xs =
    optional-keep c r (optional b q (optional a p xs))
    ∙ ap (keep (λ x. c || r x)) (optional_two a b p q xs)
    ∙ keep-keep (λ x. (a || p x) && (b || q x)) (λ x. c || r x) xs

-- what the three filters ask of a row
abbrev pub passes_stake : (Text → ℕ) → StakeFilters → StakeAccountData → Bool
passes_stake parse_float f row =
    ((is_empty f.search_value
        || (includes_lower row.stake_account f.search_value
            || includes_some row.vote_account f.search_value))
      && (text_eq f.stake_size_filter all_text
          || leb (threshold parse_float f.stake_size_filter) row.active_stake))
    && (text_eq f.stake_status_filter all_text
        || text_eq (or_text row.state active_text) f.stake_status_filter)

abbrev pub passes_vote :
    (Text → ℕ) → (search_value stake_size_filter : Text) → VoteAccountRow → Bool
passes_vote parse_float search_value stake_size_filter row =
    (is_empty search_value || includes_lower row.vote_account search_value)
    && (text_eq stake_size_filter all_text
        || leb (threshold parse_float stake_size_filter) row.active_stake)

-- The stake accounts that are shown are those that pass the search, the size and the status together, in
-- their order, and the vote accounts those that pass the search and the size.
pub filtered_accounts-together :
    (parse_float : Text → ℕ) (f : StakeFilters) (rows : List StakeAccountData)
    → (search_value stake_size_filter : Text) (votes : List VoteAccountRow)
    → (filtered_stake_accounts parse_float f rows ≡ keep (passes_stake parse_float f) rows)
      × (filtered_vote_accounts parse_float search_value stake_size_filter votes
          ≡ keep (passes_vote parse_float search_value stake_size_filter) votes)
unfolding filtered_stake_accounts filtered_vote_accounts
filtered_accounts-together parse_float f rows search_value stake_size_filter votes = (
  optional_three (is_empty f.search_value) (text_eq f.stake_size_filter all_text)
      (text_eq f.stake_status_filter all_text)
      (λ row.
        includes_lower row.stake_account f.search_value
        || includes_some row.vote_account f.search_value)
      (λ row. leb (threshold parse_float f.stake_size_filter) row.active_stake)
      (λ row. text_eq (or_text row.state active_text) f.stake_status_filter) rows,
  optional_two (is_empty search_value) (text_eq stake_size_filter all_text)
      (λ row. includes_lower row.vote_account search_value)
      (λ row. leb (threshold parse_float stake_size_filter) row.active_stake) votes,
)
