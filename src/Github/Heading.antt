-- ===== src/Github/Heading.antt =====
-- frontend/src/lib/github/proposalHeading.ts: the heading of a proposal, from its number and its
-- title. A number is a text of digits, which `Number` reads exactly as far as it can equal one of five.
use solana_governance.Common.{
  ℕ, ◌+◌, ◌-◌, ◌*◌, Bool, true, false, not, ◌&&◌, ◌||◌, Option, none, some, List, [], ◌∷◌, ◌++◌,
  length, leb, ◌==◌, if◌then◌else◌,
}
use solana_governance.Common.Text.{
  Text, text, trim_start, is_empty, is_digit, is_upper, is_lower, is_space, drop_while,
}
use solana_governance.Github.FileName.{ProposalNumberKind, simd, sgp, ProposalRef, span_digits}
use solana_governance.Github.Frontmatter.{kind_prefix, ◌>>=◌}
pub mod Once

-- `#?`
abbrev pub skip_hash : Text → Text
skip_hash [] = []
skip_hash (c ∷ s) = if c == b'#' then s else c ∷ s

-- what `\w` stands for
abbrev pub is_word : ℕ → Bool
is_word c = is_digit c || is_upper c || is_lower c || c == b'_'

-- `\b` behind a digit
abbrev pub at_boundary : Text → Bool
at_boundary [] = true
at_boundary (c ∷ s) = not (is_word c)

abbrev pub is_zero : ℕ → Bool
is_zero c = c == b'0'

-- the group of `0*(\d{1,5})` that reaches the end of the digits: the last zero, if there is nothing else
abbrev pub digit_group : Text → Text
digit_group [] = b'0' ∷ []
digit_group (c ∷ s) = c ∷ s

-- `0*(\d{1,5})\b`, from the digits and what stands behind them
unfoldable pub checked_group : Text × Text → Option Text
unfolding drop_while
checked_group spanned =
    let group = digit_group (drop_while is_zero spanned.0) in
    if not (is_empty spanned.0) && leb (length group) 5 && at_boundary spanned.1
    then some group
    else none

-- `[\s-]*0*(\d{1,5})\b`
unfoldable pub number_behind : Text → Option Text
unfolding drop_while span_digits checked_group
number_behind s = checked_group (span_digits (drop_while (λ c. is_space c || c == b'-') s))

-- the groups of `TITLE_PREFIX`
unfoldable pub title_prefix : Text → Option (ProposalNumberKind × Text)
unfolding drop_while kind_prefix number_behind
title_prefix s = do
  key ← kind_prefix (drop_while is_space (skip_hash s))
  digits ← number_behind key.1
  some (key.0, digits)

-- `Number(digits)`
unfoldable pub value_from : ℕ → Text → ℕ
value_from n [] = n
value_from n (c ∷ s) = value_from (n * 10 + (c - 48)) s

abbrev pub number_value : Text → ℕ
number_value s = value_from 0 s

abbrev pub same_kind : ProposalNumberKind → ProposalNumberKind → Bool
same_kind simd simd = true
same_kind sgp sgp = true
same_kind _ _ = false

abbrev pub names_ref : ProposalRef → Option (ProposalNumberKind × Text) → Bool
names_ref ref none = false
names_ref ref (some found) =
    same_kind found.0 ref.kind && number_value found.1 == number_value ref.number

unfoldable pub title_names_proposal : Text → ProposalRef → Bool
unfolding trim_start title_prefix value_from
title_names_proposal title ref = names_ref ref (title_prefix (trim_start title))

abbrev pub prefixed : ProposalRef → Text → Text
prefixed ref title = ref.label ++ (text ": " ++ title)

unfoldable pub format_proposal_heading : Option ProposalRef → Text → Text
unfolding title_names_proposal
format_proposal_heading none title = title
format_proposal_heading (some ref) title =
    if title_names_proposal title ref then title else prefixed ref title
