-- ===== src/Tables.antt =====
-- The tables of frontend/src/components/: which rows of ProposalsTable.tsx are open, and which rows
-- StakeAccountsTable.tsx, VoteAccountsTable.tsx, TopVotersTable.tsx, TopSupportersTable.tsx and
-- ProposalList.tsx show. Sorting and paging by the table library are not modelled, and lower case is
-- that of ASCII. The option of a filter is read by `parseFloat`, which is an argument.
use Prim.Native.String.{String}
use text.Mathlib.Text.{◌==◌ as str_eq}
use solana_governance.Common.{
  ℕ, ◌*◌, ◌^◌, Bool, true, false, not, ◌&&◌, ◌||◌, Option, none, some, List, [], ◌∷◌, leb,
  if◌then◌else◌,
}
use solana_governance.Common.Sort.Laws.{keep}
use solana_governance.Common.Text.{
  Text, text as ascii, lower_text, includes, is_empty, trim, text_eq,
}
pub mod Expanded
pub mod Shown

-- a record of flags; a row without a flag is closed
abbrev pub ExpandedState : Type 0
ExpandedState = List (String × Bool)

unfoldable pub get_is_expanded : ExpandedState → String → Bool
get_is_expanded [] row_id = false
get_is_expanded ((id, shown) ∷ state) row_id =
    let rest = get_is_expanded state row_id in if str_eq id row_id then shown else rest

-- `{ ...previous, [rowId]: flag }`
unfoldable pub with_flag : ExpandedState → String → Bool → ExpandedState
with_flag [] row_id flag = (row_id, flag) ∷ []
with_flag ((id, shown) ∷ state) row_id flag =
    let rest = with_flag state row_id flag in
    if str_eq id row_id then (id, flag) ∷ state else (id, shown) ∷ rest

-- the ids of the rows, in the order of the data, and whether the first row has been opened by itself
pub record ProposalsTable : Type 0 where
  pub rows : List String
  pub expanded : ExpandedState
  pub has_applied_default_expansion : Bool

pub data TableEvent : Type 0 where
  row_toggled : String → TableEvent
  rows_changed : List String → TableEvent
  reset : TableEvent

abbrev pub mounted : ProposalsTable
mounted = record { rows = []; expanded = []; has_applied_default_expansion = false }

unfoldable pub handle_row_toggle : String → ExpandedState → ExpandedState
unfolding get_is_expanded with_flag
handle_row_toggle row_id previous =
    with_flag previous row_id (not (get_is_expanded previous row_id))

abbrev pub get_default_expanded : List String → ExpandedState
get_default_expanded [] = []
get_default_expanded (row ∷ rows) = (row, true) ∷ []

-- the effect, when the data has changed
unfoldable pub apply_default : ProposalsTable → ProposalsTable
apply_default t =
    if not t.has_applied_default_expansion && not (is_empty t.rows)
    then record t { expanded = get_default_expanded t.rows; has_applied_default_expansion = true }
    else t

unfoldable pub table_step : ProposalsTable → TableEvent → ProposalsTable
unfolding handle_row_toggle apply_default
table_step t (row_toggled row_id) = record t { expanded = handle_row_toggle row_id t.expanded }
table_step t (rows_changed rows) = apply_default (record t { rows = rows })
table_step t reset = record t { expanded = get_default_expanded t.rows }

unfoldable pub table_run : ProposalsTable → List TableEvent → ProposalsTable
unfolding table_step
table_run t [] = t
table_run t (event ∷ events) = table_run (table_step t event) events

pub record StakeAccountData : Type 0 where
  pub stake_account : Text
  pub vote_account : Option Text
  pub active_stake : ℕ
  pub state : Option Text

pub record StakeFilters : Type 0 where
  pub search_value : Text
  pub stake_size_filter : Text
  pub stake_status_filter : Text

abbrev pub all_text : Text
all_text = ascii "All"

abbrev pub active_text : Text
active_text = ascii "active"

pub record VoteAccountRow : Type 0 where
  pub vote_account : Text
  pub active_stake : ℕ

-- `s.toLowerCase().includes(t.toLowerCase())`
abbrev pub includes_lower : Text → Text → Bool
includes_lower s t = includes (lower_text s) (lower_text t)

abbrev pub includes_some : Option Text → Text → Bool
includes_some none t = false
includes_some (some s) t = includes_lower s t

-- `??`
abbrev pub or_text : Option Text → Text → Text
or_text none default = default
or_text (some s) default = s

module _ (parse_float : Text → ℕ) where
  abbrev pub threshold : Text → ℕ
  threshold filter = parse_float filter * 10 ^ 9

  unfoldable pub filtered_stake_accounts :
      StakeFilters → List StakeAccountData → List StakeAccountData
  unfolding keep includes text_eq
  filtered_stake_accounts f rows =
      let searched =
        if is_empty f.search_value
        then rows
        else keep
            (λ row.
              includes_lower row.stake_account f.search_value
              || includes_some row.vote_account f.search_value)
            rows in
      let sized =
        if text_eq f.stake_size_filter all_text
        then searched
        else keep (λ row. leb (threshold f.stake_size_filter) row.active_stake) searched in
      if text_eq f.stake_status_filter all_text
      then sized
      else keep (λ row. text_eq (or_text row.state active_text) f.stake_status_filter) sized

  unfoldable pub filtered_vote_accounts :
      (search_value stake_size_filter : Text) → List VoteAccountRow → List VoteAccountRow
  unfolding keep includes text_eq
  filtered_vote_accounts search_value stake_size_filter rows =
      let searched =
        if is_empty search_value
        then rows
        else keep (λ row. includes_lower row.vote_account search_value) rows in
      if text_eq stake_size_filter all_text
      then searched
      else keep (λ row. leb (threshold stake_size_filter) row.active_stake) searched

pub record VoterRow : Type 0 where
  pub validator_name : Text
  pub validator_identity : Text
  pub stake_account : Option Text

-- a search in the voters; the supporters have no stake account
unfoldable pub searched_voters : Text → List VoterRow → List VoterRow
unfolding keep includes trim
searched_voters search_value rows =
    let search_term = lower_text (trim search_value) in
    if is_empty search_term
    then rows
    else keep
        (λ row.
          includes (lower_text row.validator_name) search_term
          || includes (lower_text row.validator_identity) search_term
          || includes (lower_text (or_text row.stake_account [])) search_term)
        rows

pub record ProposalRow : Type 0 where
  pub title : Text
  pub status : Text

-- the statuses are in lower case already
unfoldable pub filtered_proposals :
    (status search_query : Text) → List ProposalRow → List ProposalRow
unfolding keep includes text_eq
filtered_proposals status search_query rows =
    keep
      (λ row.
        if not (text_eq status (ascii "all")) && not (text_eq (lower_text row.status) status)
        then false
        else if not (is_empty search_query) && not (includes_lower row.title search_query)
        then false
        else true)
      rows
