-- ===== src/Validators/Table.antt =====
-- The order of the rows of frontend/src/hooks/useGetValidatorsTable.ts.
use solana_governance.Common.{ℕ, ◌≡◌, refl, none, List, [], ◌∷◌, map, arith, All}
use mathlib.Core.List.{Perm}
use solana_governance.Common.Sort.{sort, insert}
use solana_governance.Common.Sort.Laws.{IsSorted, IsTransitive, IsTotal, sort-perm, sort-IsSorted}
use solana_governance.Validators.{
  Validator, ValidatorsTableRow, SortBy, weight, name, date, Reading, sort_key, row_le, row_of,
  table_rows, stake_sum, validators_table,
}

module _ (reading : Reading) where
  weight-IsTransitive : IsTransitive (row_le reading weight)
  weight-IsTransitive a b c h k = ground arith

  weight-IsTotal : IsTotal (row_le reading weight)
  weight-IsTotal a b h = ground arith

  -- The rows by weight are all the rows, in the order of their stakes, the largest first.
  pub validators_table-by_weight :
      (validators : List Validator)
      → IsSorted (row_le reading weight) (validators_table reading weight validators)
        × Perm (validators_table reading weight validators) (table_rows reading validators)
  unfolding validators_table
  validators_table-by_weight validators = (
    sort-IsSorted (row_le reading weight) (table_rows reading validators) weight-IsTransitive
        weight-IsTotal,
    sort-perm (row_le reading weight) (table_rows reading validators),
  )

  -- no row has a number to be sorted by
  abbrev pub HasNoKey : SortBy → List ValidatorsTableRow → Type 0
  HasNoKey sort_by rows = All (λ row. sort_key reading sort_by row ≡ none) rows

  sort_unkeyed :
      (sort_by : SortBy) (rows : List ValidatorsTableRow)
      → HasNoKey sort_by rows
      → sort (row_le reading sort_by) rows ≡ rows
  unfolding sort insert
  sort_unkeyed sort_by [] h = refl
  sort_unkeyed sort_by (row ∷ rows) h = rw (sort_unkeyed sort_by rows h.1) (first rows)
    where
      first :
          (rows : List ValidatorsTableRow) → insert (row_le reading sort_by) row rows ≡ row ∷ rows
      first [] = refl
      first (r ∷ rs) = rw h.0 refl

  -- Sorting the rows by name, or by the date of the last vote, leaves them in the order of the
  -- validators if no name, and no date, reads as a number.
  pub validators_table-unsorted :
      (validators : List Validator)
      → All (λ v. reading.number v.name ≡ none) validators
      → All (λ row. reading.number row.vote_date ≡ none) (table_rows reading validators)
      → (validators_table reading name validators ≡ table_rows reading validators)
        × (validators_table reading date validators ≡ table_rows reading validators)
  unfolding validators_table
  validators_table-unsorted validators h k = (
    sort_unkeyed name (table_rows reading validators) (names (stake_sum validators) validators h),
    sort_unkeyed date (table_rows reading validators) k,
  )
    where
      names :
          (total : ℕ) (vs : List Validator)
          → All (λ v. reading.number v.name ≡ none) vs
          → HasNoKey name (map (row_of reading total) vs)
      names total [] h = tt
      names total (v ∷ vs) h = (h.0, names total vs h.1)
