-- ===== src/Github/Frontmatter.antt =====
-- frontend/src/lib/github/proposalMarkdown.ts: the front matter of a proposal document and the number
-- that it tells. The patterns are written out: none of them can match in two ways.
use solana_governance.Common.{
  ℕ, Bool, not, ◌&&◌, ◌||◌, Option, none, some, List, [], ◌∷◌, ◌==◌, if◌then◌else◌,
}
use solana_governance.Common.Text.{
  Text, text, starts_with, lower_text, drop, is_empty, drop_while, extend,
}
use solana_governance.Github.FileName.{
  ProposalNumberKind, simd, sgp, ProposalRef, make_proposal_ref, span_digits, is_line_terminator,
}

pub record SplitDocument : Type 0 where
  pub frontmatter : Option Text
  pub body : Text

abbrev pub line_feed : ℕ
line_feed = 10

abbrev pub carriage_return : ℕ
carriage_return = 13

-- behind `\n`
abbrev pub behind_feed : Text → Option Text
behind_feed [] = none
behind_feed (c ∷ s) = if c == line_feed then some s else none

-- behind `\r?\n`
unfoldable pub behind_break : Text → Option Text
behind_break [] = none
behind_break (c ∷ s) =
    if c == line_feed then some s else if c == carriage_return then behind_feed s else none

-- behind `---`
abbrev pub behind_dashes : Option Text → Option Text
behind_dashes none = none
behind_dashes (some s) = if starts_with s (text "---") then some (drop 3 s) else none

-- at a character that may begin the end, with what is found behind it
abbrev pub closed_at : ℕ → Option (Text × Text) → Option Text → Option (Text × Text)
closed_at c later (some tail) = some ([], tail)
closed_at c none none = none
closed_at c (some found) none = some (c ∷ found.0, found.1)

-- the text in front of the first `\r?\n---`, and the one behind it
unfoldable pub find_close : Text → Option (Text × Text)
unfolding behind_break starts_with
find_close [] = none
find_close (c ∷ s) = closed_at c (find_close s) (behind_dashes (behind_break (c ∷ s)))

-- behind `---\r?\n` at the start
abbrev pub behind_open : Text → Option Text
behind_open s = if starts_with s (text "---") then behind_break (drop 3 s) else none

-- `replace(/^(?:\r?\n)+/, "")`: what stands behind `\r` is dropped with its `\n`
unfoldable pub strip_breaks : Text → Text
unfolding starts_with
strip_breaks [] = []
strip_breaks (c ∷ s) =
    let rest = strip_breaks s in
    if c == line_feed || (c == carriage_return && starts_with s (line_feed ∷ []))
    then rest
    else c ∷ s

abbrev pub split_found : Text → Option (Text × Text) → SplitDocument
split_found s none = record { frontmatter = none; body = s }
split_found s (some found) = record { frontmatter = some found.0; body = strip_breaks found.1 }

abbrev pub split_open : Text → Option Text → SplitDocument
split_open s none = record { frontmatter = none; body = s }
split_open s (some rest) = split_found s (find_close rest)

unfoldable pub split_frontmatter : Text → SplitDocument
unfolding starts_with behind_break find_close strip_breaks
split_frontmatter s = split_open s (behind_open s)

abbrev pub is_blank : ℕ → Bool
is_blank c = c == 32 || c == 9

abbrev pub skip_blanks : Text → Text
skip_blanks s = drop_while is_blank s

abbrev pub is_quote : ℕ → Bool
is_quote c = c == 39 || c == 34

-- `['"]?`
abbrev pub skip_quote : Text → Text
skip_quote [] = []
skip_quote (c ∷ s) = if is_quote c then s else c ∷ s

-- `:`, and what stands behind it
abbrev pub behind_colon : Text → Option Text
behind_colon [] = none
behind_colon (c ∷ s) = if c == b':' then some s else none

-- `(simd|sgp)`
unfoldable pub kind_prefix : Text → Option (ProposalNumberKind × Text)
unfolding starts_with
kind_prefix s =
    if starts_with (lower_text s) (text "simd")
    then some (simd, drop 4 s)
    else if starts_with (lower_text s) (text "sgp")
    then some (sgp, drop 3 s)
    else none

-- `(\d+)['"]?[ \t]*$`, from the digits and what stands behind them
unfoldable pub checked_digits : Text × Text → Option Text
unfolding drop_while
checked_digits spanned =
    if not (is_empty spanned.0) && is_empty (skip_blanks (skip_quote spanned.1))
    then some spanned.0
    else none

-- `['"]?(\d+)['"]?[ \t]*$`
unfoldable pub quoted_digits : Text → Option Text
unfolding span_digits checked_digits
quoted_digits s = checked_digits (span_digits (skip_quote s))

infixl 5 ◌>>=◌
abbrev pub ◌>>=◌ : {A B : Type 0} → Option A → (A → Option B) → Option B
none >>= f = none
some a >>= f = f a

-- `NUMBER_LINE` on one line
unfoldable pub number_line : Text → Option ProposalRef
unfolding kind_prefix drop_while quoted_digits
number_line line = do
  key ← kind_prefix (skip_blanks line)
  value ← behind_colon (skip_blanks key.1)
  digits ← quoted_digits (skip_blanks value)
  some (make_proposal_ref digits key.0)

-- the lines that `^` and `$` see
unfoldable pub match_lines : Text → List Text
match_lines [] = [] ∷ []
match_lines (c ∷ s) =
    let rest = match_lines s in if is_line_terminator c then [] ∷ rest else extend c rest

-- the first of two
abbrev pub ref_or : Option ProposalRef → Option ProposalRef → Option ProposalRef
ref_or fallback none = fallback
ref_or fallback (some ref) = some ref

-- the first line that names a number
unfoldable pub first_number : List Text → Option ProposalRef
unfolding number_line
first_number [] = none
first_number (line ∷ lines) = ref_or (first_number lines) (number_line line)

-- the front matter tells the number, and otherwise it is the given one
unfoldable pub number_of : Option Text → Option ProposalRef → Option ProposalRef
unfolding match_lines first_number
number_of none fallback = fallback
number_of (some frontmatter) fallback = ref_or fallback (first_number (match_lines frontmatter))
