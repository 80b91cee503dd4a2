-- ===== src/Tests/Voters.antt =====
-- The validators, the pages, the file, the table of proposals and the carousel at concrete inputs.
use Prim.Native.String.{String}
use solana_governance.Common.{
  ℕ, ◌+◌, ◌≤◌, ◌≡◌, refl, true, false, none, some, List, [], ◌∷◌, ◌++◌, map, arith, length,
  get_elem?,
}
use solana_governance.Common.Int.{pos, negsuc}
use solana_governance.Common.Text.{Text, text}
use solana_governance.Lifecycle.{supporting, discussion}
use solana_governance.Validators.{
  Validator, RpcVoteAccount, VoteAccountStatus, ValidatorsTableRow, get_validators,
}
use solana_governance.Validators.Stake.{stake_of, account_stake, get_validators-stakes}
use solana_governance.Voters.{PageItem, page, get_pagination_range, total_pages}
use solana_governance.Voters.Range.{Follows, shows, get_pagination_range_complete}
use solana_governance.Voters.Pages.{pages, pages-all}
use solana_governance.Voters.Csv.{Printing, download_csv_data}
use solana_governance.Voters.Csv.Reader.{read}
use solana_governance.Voters.Csv.RoundTrip.{
  PrintsPlain, cell, column_name, columns, download_csv_data-read,
}
use solana_governance.Tables.{
  ProposalsTable, TableEvent, row_toggled, rows_changed, mounted, get_is_expanded, table_run,
}
use solana_governance.Tables.Expanded.{turned, table_run-turned}
use solana_governance.Carousel.{
  CarouselCard, Props, CarouselEvent, carousel_run, first_render, props_changed, dragged, picked,
  cards, current_card,
}
use solana_governance.Carousel.Shown.{current_card-shown}

-- numbers below 10
abbrev digit : ℕ → Text
digit n = (48 + n) ∷ []

abbrev vote_account : String → ℕ → RpcVoteAccount
vote_account key stake = record {
  vote_pubkey = key;
  node_pubkey = "node";
  activated_stake = stake;
  commission = 5;
  epoch_credits = (7 ∷ []) ∷ [];
  last_vote = 900;
}

abbrev validator : Text → String → Validator
validator name key = record {
  name = name;
  identity = none;
  vote_identity = key;
  activated_stake = 1;
  image = none;
  version = none;
  commission = 5;
  asn = none;
  description = none;
  epoch_credits = 7;
  last_vote = 900;
}

abbrev accounts : VoteAccountStatus
accounts = record {
  current = vote_account "one" 40 ∷ vote_account "two" 70 ∷ [];
  delinquent = vote_account "three" 9 ∷ [];
}

get_validators-stakes_example :
    (validators : List Validator) × (get_validators digit
        (some (validator (text "Two") "two" ∷ []))
        (some accounts)
      ≡ some validators)
    × (map stake_of validators ≡ map account_stake (accounts.current ++ accounts.delinquent))
get_validators-stakes_example =
    get_validators-stakes digit (some (validator (text "Two") "two" ∷ [])) accounts

get_pagination_range_complete_example :
    (items : List PageItem) × (get_pagination_range 5 20 ≡ page 1 ∷ items)
    × Follows 20 1 items
    × (shows 5 (page 1 ∷ items) ≡ true)
    × (length items ≤ 8)
get_pagination_range_complete_example =
    get_pagination_range_complete 5 20 (omega arith) (omega arith)

abbrev numbers : List ℕ
numbers = 3 ∷ 1 ∷ 4 ∷ 1 ∷ 5 ∷ 9 ∷ 2 ∷ []

pages-all_example : pages 3 0 (total_pages 3 numbers) numbers ≡ numbers
pages-all_example = pages-all 3 numbers (omega arith)

abbrev printing : Printing
printing = record {
  stake = λ n. text "70";
  yes = λ v. text "60.5";
  no = λ v. text "30";
  abstain = λ v. text "9.5";
  undecided = λ v. text "0";
  percentage = λ p. text "12.34";
}

prints_plain : PrintsPlain printing
prints_plain = record {
  stake = λ n. refl;
  yes = λ v. refl;
  no = λ v. refl;
  abstain = λ v. refl;
  undecided = λ v. refl;
  percentage = λ p. refl;
}

-- a name with a quote, a comma and a line break
abbrev table_row : ValidatorsTableRow
table_row = record {
  validator = validator (text "Say \"yes\", twice" ++ (10 ∷ text "or more")) "one";
  percentage = some 1234;
  splits = none;
  vote_date = text "-";
}

download_csv_data-read_example :
    (s : Text) × (download_csv_data printing (table_row ∷ table_row ∷ []) ≡ some s)
    × (read s
        ≡ some (
            map column_name columns
            ∷ map (λ r. map (cell printing r) columns) (table_row ∷ table_row ∷ [])))
download_csv_data-read_example =
    download_csv_data-read printing table_row (table_row ∷ []) prints_plain

abbrev table : ProposalsTable
table = table_run mounted (rows_changed ("a" ∷ "b" ∷ []) ∷ [])

table_applied : table.has_applied_default_expansion ≡ true
unfolding table_run
table_applied = refl

abbrev table_events : List TableEvent
table_events = row_toggled "a" ∷ rows_changed ("b" ∷ "a" ∷ []) ∷ row_toggled "b" ∷ []

table_run-turned_example :
    get_is_expanded (table_run table table_events).expanded "a"
    ≡ turned "a" table_events (get_is_expanded table.expanded "a")
table_run-turned_example =
    table_run-turned table table_events "a" table_applied (tt, (tt, (tt, tt)))

abbrev props : Props
props = record {
  lifecycle_stage = discussion;
  support_to_discussion_end = 100;
  discussion_to_voting_end = 200;
  has_ended = false;
}

-- swiped back and forth, and back in the support phase
abbrev carousel_events : List CarouselEvent
carousel_events =
    dragged (pos 30)
    ∷ dragged (negsuc 29)
    ∷ props_changed (record props { lifecycle_stage = supporting })
    ∷ picked 1
    ∷ []

current_card-shown_example :
    let s = carousel_run (first_render props) carousel_events in
    (card : CarouselCard) × (current_card s ≡ some card)
    × (get_elem? (cards s.props) s.active_index ≡ some card)
current_card-shown_example = current_card-shown props carousel_events
