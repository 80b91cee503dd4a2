-- ===== src/Voters/Csv.antt =====
-- `downloadCsvData` of frontend/src/components/TopVoters.tsx: the text of the file. The texts of the
-- numbers are an argument. The reader is one of comma-separated values with quotes.
use solana_governance.Common.{
  ℕ, Bool, true, false, Option, none, some, List, [], ◌∷◌, ◌++◌, map, ◌==◌, ◌||◌, if◌then◌else◌,
}
use solana_governance.Common.Text.{Text, text, join}
use solana_governance.Data.Splits.{VoteSplitAnalytics}
use solana_governance.Validators.{ValidatorsTableRow}
pub mod Reader
pub mod RoundTrip

pub data Field : Type 0 where
  string : Text → Field
  number : Text → Field

abbrev pub quote : ℕ
quote = b'"'

abbrev pub comma : ℕ
comma = b','

abbrev pub line_break : ℕ
line_break = 10

-- `value.replace(/"/g, '""')`
unfoldable pub escaped : Text → Text
escaped [] = []
escaped (c ∷ s) = let rest = escaped s in if c == quote then quote ∷ quote ∷ rest else c ∷ rest

unfoldable pub written_field : Field → Text
unfolding escaped
written_field (string s) = quote ∷ (escaped s ++ (quote ∷ []))
written_field (number s) = s

unfoldable pub written_row : List Field → Text
unfolding written_field join
written_row fields = join (comma ∷ []) (map written_field fields)

abbrev pub headers : List Text
headers =
    text "name"
    ∷ text "activated_stake"
    ∷ text "yes"
    ∷ text "no"
    ∷ text "abstain"
    ∷ text "undecided"
    ∷ text "percentage"
    ∷ text "voteDate"
    ∷ []

unfoldable pub csv_content : List (List Field) → Text
unfolding written_row join
csv_content rows = join (line_break ∷ []) (join (comma ∷ []) headers ∷ map written_row rows)

-- the texts of the numbers
pub record Printing : Type 0 where
  pub stake : ℕ → Text
  pub yes : VoteSplitAnalytics → Text
  pub no : VoteSplitAnalytics → Text
  pub abstain : VoteSplitAnalytics → Text
  pub undecided : VoteSplitAnalytics → Text
  pub percentage : Option ℕ → Text

abbrev pub share_field : (VoteSplitAnalytics → Text) → Option VoteSplitAnalytics → Field
share_field print none = string (text "-")
share_field print (some splits) = number (print splits)

abbrev pub fields_of : Printing → ValidatorsTableRow → List Field
fields_of printing row =
    string row.validator.name
    ∷ number (printing.stake row.validator.activated_stake)
    ∷ share_field printing.yes row.splits
    ∷ share_field printing.no row.splits
    ∷ share_field printing.abstain row.splits
    ∷ share_field printing.undecided row.splits
    ∷ number (printing.percentage row.percentage)
    ∷ string row.vote_date
    ∷ []

-- the file's text; no file for no rows
unfoldable pub download_csv_data : Printing → List ValidatorsTableRow → Option Text
unfolding csv_content
download_csv_data printing [] = none
download_csv_data printing (row ∷ rows) = some (csv_content (map (fields_of printing) (row ∷ rows)))
