-- ===== src/Voters/Csv/Reader.antt =====
-- A reader of comma-separated values, and how it reads the texts that
-- frontend/src/components/TopVoters.tsx writes. A comma ends a field and a line feed ends a row. A field
-- may stand in quotes, with a quote inside them written twice. A quote in a field without quotes is
-- refused, so is anything but a comma or a line feed behind a closing quote, and so is a text that ends
-- inside quotes.
use solana_governance.Common.{
  ℕ, ◌≡◌, refl, sym, ap, ◌∙◌, inl, inr, Bool, true, false, not, Option, none, some, ==_iff, ◌&&◌,
  ◌||◌, List, [], ◌∷◌, ◌++◌, ◌==◌, arith, Bool-cases, if◌then◌else◌,
}
use mathlib.Core.List.{append_assoc, append-nil}
use solana_governance.Common.Text.{Text, all}
use solana_governance.Voters.Csv.{Field, string, number, quote, comma, line_break, escaped}

-- where a reader is: before a field, in one without quotes, inside quotes, behind a quote inside them, or
-- behind what is refused
pub data Mode : Type 0 where
  opening bare inside closing refused : Mode

pub record Reader : Type 0 where
  pub mode : Mode
  pub field : Text
  pub row : List Text
  pub rows : List (List Text)

abbrev pub begin : Reader
begin = record { mode = opening; field = []; row = []; rows = [] }

abbrev pub add : Mode → ℕ → Reader → Reader
add mode c r = record r { mode = mode; field = r.field ++ (c ∷ []) }

abbrev pub end_field : Reader → Reader
end_field r = record r { mode = opening; field = []; row = r.row ++ (r.field ∷ []) }

abbrev pub end_row : Reader → Reader
end_row r = record {
  mode = opening;
  field = [];
  row = [];
  rows = r.rows ++ ((r.row ++ (r.field ∷ [])) ∷ []);
}

abbrev pub refuse : Reader → Reader
refuse r = record r { mode = refused }

-- a character outside quotes
abbrev pub separate : ℕ → Reader → Reader
separate c r =
    if c == comma then end_field r else if c == line_break then end_row r else add bare c r

abbrev pub read_in : Mode → ℕ → Reader → Reader
read_in opening c r = if c == quote then record r { mode = inside } else separate c r
read_in bare c r = if c == quote then refuse r else separate c r
read_in inside c r = if c == quote then record r { mode = closing } else add inside c r
read_in closing c r =
    if c == quote
    then add inside c r
    else if c == comma
    then end_field r
    else if c == line_break
    then end_row r
    else refuse r
read_in refused c r = r

abbrev pub read_all : Reader → Text → Reader
read_all r [] = r
read_all r (c ∷ s) = read_all (read_in r.mode c r) s

abbrev pub finish_in : Mode → Reader → Option (List (List Text))
finish_in inside r = none
finish_in refused r = none
finish_in _ r = some (end_row r).rows

abbrev pub finish : Reader → Option (List (List Text))
finish r = finish_in r.mode r

abbrev pub read : Text → Option (List (List Text))
read s = finish (read_all begin s)

-- without a character that separates
abbrev pub is_plain : Text → Bool
is_plain s = all (λ c. not (c == quote || c == comma || c == line_break)) s

abbrev pub value_of : Field → Text
value_of (string s) = s
value_of (number s) = s

abbrev pub IsPlain : Field → Type 0
IsPlain (string s) = Unit
IsPlain (number s) = is_plain s ≡ true

pub read_all-append : (r : Reader) (s t : Text) → read_all r (s ++ t) ≡ read_all (read_all r s) t
read_all-append r [] t = refl
read_all-append r (c ∷ s) t = read_all-append (read_in r.mode c r) s t

-- a reader in the middle of a row
abbrev pub at_field : Mode → Text → List Text → List (List Text) → Reader
at_field mode field row rows = record { mode = mode; field = field; row = row; rows = rows }

moved : (f s : Text) (c : ℕ) → (f ++ (c ∷ [])) ++ s ≡ f ++ (c ∷ s)
moved f s c = append_assoc f (c ∷ []) s

escaped-quote :
    (c : ℕ) (s : Text) → (c == quote) ≡ true → escaped (c ∷ s) ≡ quote ∷ quote ∷ escaped s
unfolding escaped
escaped-quote c s h = ground arith

escaped-other : (c : ℕ) (s : Text) → (c == quote) ≡ false → escaped (c ∷ s) ≡ c ∷ escaped s
unfolding escaped
escaped-other c s h = ground arith

-- an escaped text is read inside quotes
pub read_escaped :
    (f s : Text) (row : List Text) (rows : List (List Text))
    → read_all (at_field inside f row rows) (escaped s) ≡ at_field inside (f ++ s) row rows
unfolding escaped
read_escaped f [] row rows = ap (λ t. at_field inside t row rows) (sym (append-nil f))
read_escaped f (c ∷ s) row rows = elim (Bool-cases (c == quote)) [
  | inl h ↦
      ap (read_all (at_field inside f row rows)) (escaped-quote c s h)
      ∙ read_escaped (f ++ (quote ∷ [])) s row rows
      ∙ ap (λ t. at_field inside t row rows)
          (moved f s quote ∙ ap (λ d. f ++ (d ∷ s)) (sym ((==_iff c quote).0 h)))
  | inr h ↦
      ap (read_all (at_field inside f row rows)) (escaped-other c s h)
      ∙ ap (λ r. read_all r (escaped s)) (kept c f row rows h)
      ∙ read_escaped (f ++ (c ∷ [])) s row rows
      ∙ ap (λ t. at_field inside t row rows) (moved f s c)
]
  where
    kept :
        (c : ℕ) (f : Text) (row : List Text) (rows : List (List Text))
        → (c == quote) ≡ false
        → read_in inside c (at_field inside f row rows) ≡ at_field inside (f ++ (c ∷ [])) row rows
    kept c f row rows h = rw h refl

pub no_separator :
    (c : ℕ)
    → not (c == quote || c == comma || c == line_break) ≡ true
    → ((c == quote) ≡ false) × ((c == comma) ≡ false) × ((c == line_break) ≡ false)
no_separator c h = ground arith

-- a plain character stands for itself at the start of a field and in one without quotes
pub read_plain_opening :
    (c : ℕ) (row : List Text) (rows : List (List Text))
    → not (c == quote || c == comma || c == line_break) ≡ true
    → read_in opening c (at_field opening [] row rows) ≡ at_field bare (c ∷ []) row rows
read_plain_opening c row rows h = let n = no_separator c h in rw (n.0, n.1, n.2) refl

read_plain_bare :
    (c : ℕ) (f : Text) (row : List Text) (rows : List (List Text))
    → not (c == quote || c == comma || c == line_break) ≡ true
    → read_in bare c (at_field bare f row rows) ≡ at_field bare (f ++ (c ∷ [])) row rows
read_plain_bare c f row rows h = let n = no_separator c h in rw (n.0, n.1, n.2) refl

pub both : (a b : Bool) → (a && b) ≡ true → (a ≡ true) × (b ≡ true)
both a b h = ground arith

pub read_plain :
    (f s : Text) (row : List Text) (rows : List (List Text))
    → is_plain s ≡ true
    → read_all (at_field bare f row rows) s ≡ at_field bare (f ++ s) row rows
read_plain f [] row rows h = ap (λ t. at_field bare t row rows) (sym (append-nil f))
read_plain f (c ∷ s) row rows h =
    let parts = both (not (c == quote || c == comma || c == line_break)) (is_plain s) h in
    ap (λ r. read_all r s) (read_plain_bare c f row rows parts.0)
    ∙ read_plain (f ++ (c ∷ [])) s row rows parts.1
    ∙ ap (λ t. at_field bare t row rows) (moved f s c)
