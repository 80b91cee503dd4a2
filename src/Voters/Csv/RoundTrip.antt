-- ===== src/Voters/Csv/RoundTrip.antt =====
-- The file that frontend/src/components/TopVoters.tsx writes is read back.
use solana_governance.Common.{
  ℕ, ◌≡◌, refl, ap, ◌∙◌, true, not, ◌||◌, Option, none, some, List, [], ◌∷◌, ◌++◌, map, ◌==◌, All,
}
use mathlib.Core.List.{append_assoc}
use solana_governance.Common.Text.{Text, text, join}
use solana_governance.Voters.Csv.{
  Field, string, number, quote, comma, line_break, escaped, written_field, written_row, headers,
  csv_content, Printing, share_field, fields_of, download_csv_data,
}
use solana_governance.Data.Splits.{VoteSplitAnalytics}
use solana_governance.Validators.{ValidatorsTableRow}
use solana_governance.Voters.Csv.Reader.{
  Mode, opening, bare, inside, closing, Reader, read, finish, finish_in, read_in, read_all,
  end_field, end_row, is_plain, value_of, IsPlain, at_field, read_all-append, read_escaped,
  read_plain, read_plain_opening, both,
}

-- outside quotes a comma and a line break end the field, and the text may end
abbrev Outside : Mode → Type 0
Outside mode =
    ((r : Reader) → read_in mode comma r ≡ end_field r)
    × ((r : Reader) → read_in mode line_break r ≡ end_row r)
    × ((r : Reader) → finish_in mode r ≡ some (end_row r).rows)

-- a field is read, up to what follows it
abbrev IsRead : (field : Text) (row : List Text) → Reader → (rows : List (List Text)) → Type 0
IsRead field row r rows = (m : Mode) × Outside m × (r ≡ at_field m field row rows)

number-IsRead :
    (s : Text) (row : List Text) (rows : List (List Text))
    → is_plain s ≡ true
    → IsRead s row (read_all (at_field opening [] row rows) s) rows
number-IsRead [] row rows h = (opening, (λ r. refl, λ r. refl, λ r. refl), refl)
number-IsRead (c ∷ s) row rows h =
    let parts = both (not (c == quote || c == comma || c == line_break)) (is_plain s) h in
    (
      bare,
      (λ r. refl, λ r. refl, λ r. refl),
      ap (λ r. read_all r s) (read_plain_opening c row rows parts.0)
          ∙ read_plain (c ∷ []) s row rows parts.1,
    )

field-IsRead :
    (v : Field) (row : List Text) (rows : List (List Text))
    → IsPlain v
    → IsRead (value_of v) row (read_all (at_field opening [] row rows) (written_field v)) rows
unfolding written_field
field-IsRead (number s) row rows h = number-IsRead s row rows h
field-IsRead (string s) row rows h = (
  closing,
  (λ r. refl, λ r. refl, λ r. refl),
  read_all-append (at_field inside [] row rows) (escaped s) (quote ∷ [])
      ∙ ap (λ r. read_all r (quote ∷ [])) (read_escaped [] s row rows),
)

-- a row is read, up to what follows it
abbrev RowIsRead : (values : List Text) → Reader → (rows : List (List Text)) → Type 0
RowIsRead values r rows =
    (row : List Text) × (field : Text) × IsRead field row r rows × (row ++ (field ∷ []) ≡ values)

row-RowIsRead :
    (v : Field) (vs : List Field) (row : List Text) (rows : List (List Text))
    → All IsPlain (v ∷ vs)
    → RowIsRead
        (row ++ map value_of (v ∷ vs))
        (read_all (at_field opening [] row rows) (written_row (v ∷ vs)))
        rows
unfolding written_row join
row-RowIsRead v [] row rows h = (row, value_of v, field-IsRead v row rows h.0, refl)
row-RowIsRead v (w ∷ vs) row rows h =
    let one = field-IsRead v row rows h.0 in
    let rest = row-RowIsRead w vs (row ++ (value_of v ∷ [])) rows h.1 in
    let tail = written_row (w ∷ vs) in
    let start = at_field opening [] row rows in
    let up_to : read_all start (written_row (v ∷ w ∷ vs))
        ≡ read_all (at_field opening [] (row ++ (value_of v ∷ [])) rows) tail =
      read_all-append start (written_field v) (comma ∷ tail)
      ∙ ap (λ r. read_all r (comma ∷ tail)) one.2
      ∙ ap (λ r. read_all r tail) (one.1.0 (at_field one.0 (value_of v) row rows)) in
    (
      rest.0,
      rest.1,
      (rest.2.0, rest.2.1, up_to ∙ rest.2.2),
      rest.3 ∙ append_assoc row (value_of v ∷ []) (map value_of (w ∷ vs)),
    )

-- at least one field, and the numbers have no character that separates
abbrev pub IsRow : List Field → Type 0
IsRow [] = ⊥
IsRow (v ∷ vs) = All IsPlain (v ∷ vs)

line-RowIsRead :
    (fs : List Field) (rows : List (List Text))
    → IsRow fs
    → RowIsRead (map value_of fs) (read_all (at_field opening [] [] rows) (written_row fs)) rows
line-RowIsRead [] rows h = absurd h
line-RowIsRead (v ∷ vs) rows h = row-RowIsRead v vs [] rows h

-- the row is complete behind a line break, and at the end
completed :
    (values : List Text) (r : Reader) (rows : List (List Text))
    → RowIsRead values r rows
    → (read_in r.mode line_break r ≡ at_field opening [] [] (rows ++ (values ∷ [])))
      × (finish r ≡ some (rows ++ (values ∷ [])))
completed values r rows h =
    let m = h.2.0 in
    let stop = at_field m h.1 h.0 rows in
    let whole : end_row stop ≡ at_field opening [] [] (rows ++ (values ∷ [])) =
      ap (λ row. at_field opening [] [] (rows ++ (row ∷ []))) h.3 in
    (
      ap (λ r. read_in r.mode line_break r) h.2.2 ∙ h.2.1.1 stop ∙ whole,
      ap (λ r. finish r) h.2.2 ∙ h.2.1.2 stop ∙ ap (λ r. some r.rows) whole,
    )

read_rows :
    (fs : List Field) (fss : List (List Field)) (rows : List (List Text))
    → IsRow fs
    → All IsRow fss
    → finish (
        read_all
          (at_field opening [] [] rows)
          (join (line_break ∷ []) (written_row fs ∷ map written_row fss)))
      ≡ some (rows ++ (map value_of fs ∷ map (map value_of) fss))
unfolding join
read_rows fs [] rows h hs = (completed (map value_of fs) _ rows (line-RowIsRead fs rows h)).1
read_rows fs (gs ∷ fss) rows h hs =
    let start = at_field opening [] [] rows in
    let tail = join (line_break ∷ []) (written_row gs ∷ map written_row fss) in
    let values = map value_of fs in
    ap (λ r. finish r)
      (read_all-append start (written_row fs) (line_break ∷ tail)
        ∙ ap (λ r. read_all r tail)
            (completed values (read_all start (written_row fs)) rows (line-RowIsRead fs rows h)).0)
    ∙ read_rows gs fss (rows ++ (values ∷ [])) hs.0 hs.1
    ∙ ap some (append_assoc rows (values ∷ []) (map value_of gs ∷ map (map value_of) fss))

csv_content-read :
    (rows : List (List Field))
    → All IsRow rows
    → read (csv_content rows) ≡ some (headers ∷ map (map value_of) rows)
unfolding csv_content written_row join
csv_content-read rows h =
    let names : List Field = map (λ name. number name) headers in
    (read_rows names rows [] (refl, (refl, (refl, (refl, (refl, (refl, (refl, (refl, tt)))))))) h)

-- the texts of the numbers have no quote, no comma and no line break
pub record PrintsPlain (printing : Printing) : Type 0 where
  pub stake : (n : ℕ) → is_plain (printing.stake n) ≡ true
  pub yes : (v : VoteSplitAnalytics) → is_plain (printing.yes v) ≡ true
  pub no : (v : VoteSplitAnalytics) → is_plain (printing.no v) ≡ true
  pub abstain : (v : VoteSplitAnalytics) → is_plain (printing.abstain v) ≡ true
  pub undecided : (v : VoteSplitAnalytics) → is_plain (printing.undecided v) ≡ true
  pub percentage : (p : Option ℕ) → is_plain (printing.percentage p) ≡ true

share_field-IsPlain :
    (print : VoteSplitAnalytics → Text) (splits : Option VoteSplitAnalytics)
    → ((v : VoteSplitAnalytics) → is_plain (print v) ≡ true)
    → IsPlain (share_field print splits)
share_field-IsPlain print none h = tt
share_field-IsPlain print (some v) h = h v

fields_of-IsRow :
    (printing : Printing) (row : ValidatorsTableRow)
    → PrintsPlain printing
    → IsRow (fields_of printing row)
fields_of-IsRow printing row p = (
  tt,
  (
    p.stake row.validator.activated_stake,
    (
      share_field-IsPlain printing.yes row.splits p.yes,
      (
        share_field-IsPlain printing.no row.splits p.no,
        (
          share_field-IsPlain printing.abstain row.splits p.abstain,
          (
            share_field-IsPlain printing.undecided row.splits p.undecided,
            (p.percentage row.percentage, (tt, tt)),
          ),
        ),
      ),
    ),
  ),
)

rows-IsRow :
    (printing : Printing) (rows : List ValidatorsTableRow)
    → PrintsPlain printing
    → All IsRow (map (fields_of printing) rows)
rows-IsRow printing [] p = tt
rows-IsRow printing (row ∷ rows) p = (fields_of-IsRow printing row p, rows-IsRow printing rows p)

-- the columns of the file, in their order
pub data Column : Type 0 where
  name_column activated_stake_column yes_column no_column abstain_column undecided_column
        percentage_column vote_date_column :
      Column

abbrev pub columns : List Column
columns =
    name_column ∷ activated_stake_column ∷ yes_column ∷ no_column ∷ abstain_column
    ∷ undecided_column ∷ percentage_column ∷ vote_date_column ∷ []

abbrev pub column_name : Column → Text
column_name name_column = text "name"
column_name activated_stake_column = text "activated_stake"
column_name yes_column = text "yes"
column_name no_column = text "no"
column_name abstain_column = text "abstain"
column_name undecided_column = text "undecided"
column_name percentage_column = text "percentage"
column_name vote_date_column = text "voteDate"

abbrev or_dash : (VoteSplitAnalytics → Text) → Option VoteSplitAnalytics → Text
or_dash print none = text "-"
or_dash print (some splits) = print splits

-- what a validator has in a column
abbrev pub cell : Printing → ValidatorsTableRow → Column → Text
cell printing row name_column = row.validator.name
cell printing row activated_stake_column = printing.stake row.validator.activated_stake
cell printing row yes_column = or_dash printing.yes row.splits
cell printing row no_column = or_dash printing.no row.splits
cell printing row abstain_column = or_dash printing.abstain row.splits
cell printing row undecided_column = or_dash printing.undecided row.splits
cell printing row percentage_column = printing.percentage row.percentage
cell printing row vote_date_column = row.vote_date

fields_of-cells :
    (printing : Printing) (row : ValidatorsTableRow)
    → map value_of (fields_of printing row) ≡ map (cell printing row) columns
fields_of-cells printing row = shares row.splits
  where
    shares :
        (o : Option VoteSplitAnalytics)
        → map value_of (fields_of printing (record row { splits = o }))
          ≡ map (cell printing (record row { splits = o })) columns
    shares none = refl
    shares (some v) = refl

-- For one row or more there is a file, and a reader of comma-separated values with quotes, whose
-- rows end at line feeds, gives of it the names of the columns, and for each validator what it has
-- in these columns, whatever characters the names of the validators have, if the text of no number
-- has a quote, a comma or a line break.
pub download_csv_data-read :
    (printing : Printing) (row : ValidatorsTableRow) (rows : List ValidatorsTableRow)
    → PrintsPlain printing
    → (s : Text) × (download_csv_data printing (row ∷ rows) ≡ some s)
      × (read s
          ≡ some (map column_name columns ∷ map (λ r. map (cell printing r) columns) (row ∷ rows)))
unfolding download_csv_data
download_csv_data-read printing row rows p = (
  _,
  refl,
  csv_content-read (map (fields_of printing) (row ∷ rows)) (rows-IsRow printing (row ∷ rows) p)
      ∙ ap (λ t. some (headers ∷ t)) (map_twice (row ∷ rows)),
)
  where
    map_twice :
        (rs : List ValidatorsTableRow)
        → map (map value_of) (map (fields_of printing) rs)
          ≡ map (λ r. map (cell printing r) columns) rs
    map_twice [] = refl
    map_twice (r ∷ rs) = λ i. fields_of-cells printing r i ∷ map_twice rs i
