-- ===== src/Github/Markdown.antt =====
-- frontend/src/lib/github/proposalMarkdown.ts: the summary of a proposal document, and the whole. The
-- patterns are written out: none of them can match in two ways.
use solana_governance.Common.{
  ℕ, Bool, true, false, not, ◌&&◌, ◌||◌, Option, none, some, List, [], ◌∷◌, ◌++◌, length, leb, ltb,
  ◌==◌, if◌then◌else◌,
}
use solana_governance.Common.Text.{
  Text, text, trim, trim_end, starts_with, lower_text, drop, take, is_empty, is_digit, drop_while,
  extend, join,
}
use solana_governance.Github.FileName.{
  ProposalNumberKind, simd, sgp, ProposalRef, make_proposal_ref, span_digits, is_line_terminator,
}
use solana_governance.Github.Frontmatter.{
  SplitDocument, behind_break, behind_colon, behind_dashes, behind_feed, behind_open,
  carriage_return, checked_digits, closed_at, find_close, first_number, is_blank, is_quote,
  kind_prefix, line_feed, match_lines, number_line, number_of, quoted_digits, ref_or, skip_blanks,
  skip_quote, split_found, split_frontmatter, split_open, strip_breaks, ◌>>=◌,
}
pub mod RoundTrip
pub mod Summary

pub record ParsedProposalMarkdown : Type 0 where
  pub ref : Option ProposalRef
  pub summary : Text

-- `split(/\r?\n/)`
unfoldable pub split_lines : Text → List Text
unfolding starts_with
split_lines [] = [] ∷ []
split_lines (c ∷ s) =
    let rest = split_lines s in
    if c == line_feed
    then [] ∷ rest
    else if c == carriage_return && starts_with s (line_feed ∷ [])
    then rest
    else extend c rest

-- behind one to six `#`, if no more of them follow
unfoldable pub behind_hashes : Text → Option Text
unfolding drop_while
behind_hashes s =
    let tail = drop_while (λ c. c == b'#') s in
    if starts_with s (text "#") && not (starts_with s (text "#######")) then some tail else none

abbrev pub starts_blank : Text → Bool
starts_blank [] = false
starts_blank (c ∷ s) = is_blank c

-- `ANY_HEADING`
unfoldable pub is_heading : Text → Bool
unfolding behind_hashes
is_heading line = elim (behind_hashes line) [ none ↦ false | some tail ↦ starts_blank tail ]

-- `:?`
abbrev pub skip_colon : Text → Text
skip_colon [] = []
skip_colon (c ∷ s) = if c == b':' then s else c ∷ s

-- `SUMMARY_HEADING`
unfoldable pub is_summary_heading : Text → Bool
unfolding behind_hashes drop_while starts_with
is_summary_heading line = elim (behind_hashes line) [
  | none ↦ false
  | some tail ↦
      let name = skip_blanks tail in
      starts_with (lower_text name) (text "summary")
      && is_empty (skip_blanks (skip_colon (skip_blanks (drop 7 name))))
]

-- the lines behind the first heading of a summary
unfoldable pub behind_summary : List Text → Option (List Text)
unfolding is_summary_heading
behind_summary [] = none
behind_summary (line ∷ lines) =
    let rest = behind_summary lines in if is_summary_heading line then some lines else rest

-- the lines in front of the first heading
unfoldable pub until_heading : List Text → List Text
unfolding is_heading
until_heading [] = []
until_heading (line ∷ lines) =
    let rest = until_heading lines in if is_heading line then [] else line ∷ rest

-- the loop over the lines, with the paragraph so far
unfoldable pub paragraph_loop : List Text → List Text → List Text
unfolding is_heading trim
paragraph_loop paragraph [] = paragraph
paragraph_loop paragraph (line ∷ lines) =
    let skipped = paragraph_loop paragraph lines in
    let pushed = paragraph_loop (paragraph ++ (line ∷ [])) lines in
    if is_heading line || is_empty (trim line)
    then if is_empty paragraph then skipped else paragraph
    else pushed

abbrev pub fallback_summary_max_length : ℕ
fallback_summary_max_length = 600

abbrev pub ellipsis : ℕ
ellipsis = 8230

abbrev pub join_lines : List Text → Text
join_lines lines = trim (join (line_feed ∷ []) lines)

unfoldable pub shortened : Text → Text
unfolding trim_end
shortened joined =
    if ltb fallback_summary_max_length (length joined)
    then trim_end (take fallback_summary_max_length joined) ++ (ellipsis ∷ [])
    else joined

unfoldable pub first_paragraph : List Text → Text
unfolding paragraph_loop join trim shortened
first_paragraph lines = shortened (join_lines (paragraph_loop [] lines))

abbrev pub text_or : List Text → Text → Text
text_or lines section = if is_empty section then first_paragraph lines else section

abbrev pub section_or : List Text → Option (List Text) → Text
section_or lines none = first_paragraph lines
section_or lines (some rest) = text_or lines (join_lines (until_heading rest))

abbrev pub summary_of : List Text → Text
summary_of lines = section_or lines (behind_summary lines)

unfoldable pub extract_summary : Text → Text
unfolding split_lines behind_summary until_heading join trim first_paragraph
extract_summary body = summary_of (split_lines body)

abbrev pub read_document : Option ProposalRef → SplitDocument → ParsedProposalMarkdown
read_document fallback_ref document = record {
  ref = number_of document.frontmatter fallback_ref;
  summary = extract_summary document.body;
}

unfoldable pub parse_proposal_markdown : Text → Option ProposalRef → ParsedProposalMarkdown
unfolding split_frontmatter number_of extract_summary
parse_proposal_markdown s fallback_ref = read_document fallback_ref (split_frontmatter s)
