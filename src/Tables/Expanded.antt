-- ===== src/Tables/Expanded.antt =====
-- The rows of frontend/src/components/proposals/proposals-table/ProposalsTable.tsx open and close one by one.
use Prim.Native.String.{String}
use text.Mathlib.Text.{◌==◌ as str_eq}
use text.Mathlib.TextEquality.{eq_iff}
use solana_governance.Common.{
  ◌≡◌, refl, sym, ap, ◌∙◌, inl, inr, Bool, true, false, not, List, [], ◌∷◌, All, arith, Bool-cases,
  if◌then◌else◌,
}
use solana_governance.Tables.{
  ExpandedState, get_is_expanded, with_flag, ProposalsTable, TableEvent, row_toggled, rows_changed,
  reset, handle_row_toggle, apply_default, table_step, table_run,
}

differ : (b : Bool) → b ≡ false → b ≡ true → ⊥
differ b f t = ground arith

-- a flag is set for one row
get_is_expanded-with_flag :
    (state : ExpandedState) (row other : String) (flag : Bool)
    → get_is_expanded (with_flag state row flag) other
      ≡ (if str_eq row other then flag else get_is_expanded state other)
unfolding get_is_expanded with_flag
get_is_expanded-with_flag [] row other flag = refl
get_is_expanded-with_flag ((id, shown) ∷ state) row other flag = elim (Bool-cases (str_eq id row)) [
  | inl h ↦ here h (ap (λ s. str_eq s other) ((eq_iff id row).0 h))
  | inr h ↦
      there h (λ a b. apart id row h ((eq_iff id other).0 a ∙ sym ((eq_iff row other).0 b)))
        (get_is_expanded-with_flag state row other flag)
]
  where
    here :
        str_eq id row ≡ true
        → str_eq id other ≡ str_eq row other
        → get_is_expanded (with_flag ((id, shown) ∷ state) row flag) other
          ≡ (if str_eq row other then flag else get_is_expanded ((id, shown) ∷ state) other)
    here h e = ground arith

    apart : (s t : String) → str_eq s t ≡ false → s ≡ t → ⊥
    apart s t h e = differ (str_eq s t) h ((eq_iff s t).1 e)

    there :
        str_eq id row ≡ false
        → (str_eq id other ≡ true → str_eq row other ≡ true → ⊥)
        → get_is_expanded (with_flag state row flag) other
          ≡ (if str_eq row other then flag else get_is_expanded state other)
        → get_is_expanded (with_flag ((id, shown) ∷ state) row flag) other
          ≡ (if str_eq row other then flag else get_is_expanded ((id, shown) ∷ state) other)
    there h n ih = ground (arith, n, ih)

-- a flag after the events: each click on the row turns it over
abbrev pub turned : String → List TableEvent → Bool → Bool
turned id [] flag = flag
turned id (row_toggled row ∷ events) flag =
    turned id events (if str_eq row id then not flag else flag)
turned id (event ∷ events) flag = turned id events flag

abbrev pub IsNoReset : TableEvent → Type 0
IsNoReset reset = ⊥
IsNoReset event = Unit

toggled :
    (state : ExpandedState) (row id : String)
    → get_is_expanded (handle_row_toggle row state) id
      ≡ (if str_eq row id then not (get_is_expanded state id) else get_is_expanded state id)
unfolding handle_row_toggle
toggled state row id =
    get_is_expanded-with_flag state row id (not (get_is_expanded state row))
    ∙ own (str_eq row id) (λ h. ap (λ r. not (get_is_expanded state r)) ((eq_iff row id).0 h))
  where
    own :
        (b : Bool)
        → (b ≡ true → not (get_is_expanded state row) ≡ not (get_is_expanded state id))
        → (if b then not (get_is_expanded state row) else get_is_expanded state id)
          ≡ (if b then not (get_is_expanded state id) else get_is_expanded state id)
    own true h = h refl
    own false h = refl

-- Once the first row has been opened by itself, new data opens and closes no row, and a row is open
-- after any clicks, on this row and on others, as often as it is clicked turned over from what it was.
pub table_run-turned :
    (t : ProposalsTable) (events : List TableEvent) (id : String)
    → t.has_applied_default_expansion ≡ true
    → All IsNoReset events
    → get_is_expanded (table_run t events).expanded id
      ≡ turned id events (get_is_expanded t.expanded id)
unfolding table_run table_step apply_default
table_run-turned t [] id h n = refl
table_run-turned t (row_toggled row ∷ events) id h n =
    table_run-turned (table_step t (row_toggled row)) events id h n.1
    ∙ ap (turned id events) (toggled t.expanded row id)
table_run-turned t (rows_changed rows ∷ events) id h n =
    let same : table_step t (rows_changed rows) ≡ record t { rows = rows } = rw h refl in
    ap (λ u. get_is_expanded (table_run u events).expanded id) same
    ∙ table_run-turned (record t { rows = rows }) events id h n.1
table_run-turned t (reset ∷ events) id h n = absurd n.0
