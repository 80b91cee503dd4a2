-- ===== src/Github/Markdown/RoundTrip.antt =====
-- The front matter of a document, written and read back.
use solana_governance.Common.{
  ℕ, ◌≡◌, refl, ap, ◌∙◌, Bool, true, false, not, Option, none, some, [], ◌∷◌, ◌++◌, arith,
}
use solana_governance.Common.Text.{
  Text, text, text_eq, starts_with, ends_with, includes, all, is_digit, drop_while,
}
use solana_governance.Github.FileName.{
  ProposalNumberKind, simd, sgp, ProposalRef, make_proposal_ref, span_digits, is_line_terminator,
}
use solana_governance.Github.Markdown.{parse_proposal_markdown, extract_summary, read_document}
use solana_governance.Github.Frontmatter.{
  behind_break, behind_dashes, behind_open, split_open, split_found, closed_at, find_close,
  strip_breaks, split_frontmatter, line_feed, carriage_return, match_lines, number_line,
  first_number, number_of, kind_prefix, quoted_digits, skip_blanks, skip_quote, checked_digits,
  ◌>>=◌, ref_or,
}

-- a line break in either of its forms
abbrev pub line_break : Bool → Text
line_break true = carriage_return ∷ line_feed ∷ []
line_break false = line_feed ∷ []

-- a document with front matter
abbrev pub written : Bool → Text → Text → Text
written crlf frontmatter body =
    text "---"
    ++ (line_break crlf
        ++ (frontmatter ++ (line_break crlf ++ (text "---" ++ (line_break crlf ++ body)))))

abbrev closing : Text
closing = line_feed ∷ text "---"

-- what follows a text does not complete three dashes
starts_with-dashes :
    (crlf : Bool) (s tail : Text)
    → starts_with (s ++ (line_break crlf ++ tail)) (text "---") ≡ starts_with s (text "---")
unfolding starts_with
starts_with-dashes true [] tail = refl
starts_with-dashes false [] tail = refl
starts_with-dashes true (a ∷ []) tail = ground arith
starts_with-dashes false (a ∷ []) tail = ground arith
starts_with-dashes true (a ∷ b ∷ []) tail = ground arith
starts_with-dashes false (a ∷ b ∷ []) tail = ground arith
starts_with-dashes crlf (a ∷ b ∷ c ∷ s) tail = ground arith

-- the end does not stand before the end of the front matter
not_closed :
    (crlf : Bool) (c : ℕ) (s tail : Text)
    → includes (c ∷ s) closing ≡ false
    → ends_with (c ∷ s) (text "\r") ≡ false
    → behind_dashes (behind_break (c ∷ (s ++ (line_break crlf ++ tail)))) ≡ none
unfolding behind_break starts_with includes ends_with text_eq
not_closed true c [] tail i e = ground arith
not_closed false c [] tail i e = ground arith
not_closed crlf c (d ∷ s) tail i e =
    ground (arith, starts_with-dashes crlf (d ∷ s) tail, starts_with-dashes crlf s tail)

find_close_later :
    (c : ℕ) (s : Text) (found : Text × Text)
    → behind_dashes (behind_break (c ∷ s)) ≡ none
    → find_close s ≡ some found
    → find_close (c ∷ s) ≡ some (c ∷ found.0, found.1)
unfolding find_close
find_close_later c s found h e = ap (closed_at c (find_close s)) h ∙ ap (λ r. closed_at c r none) e

find_close-written :
    (crlf : Bool) (s tail : Text)
    → includes s closing ≡ false
    → ends_with s (text "\r") ≡ false
    → find_close (s ++ (line_break crlf ++ (text "---" ++ tail))) ≡ some (s, tail)
unfolding find_close includes ends_with
find_close-written true [] tail i e = refl
find_close-written false [] tail i e = refl
find_close-written crlf (c ∷ s) tail i e =
    let later = find_close-written crlf s tail (ground arith) (ground arith) in
    let here = not_closed crlf c s (text "---" ++ tail) i e in
    find_close_later c _ (s, tail) here later

-- what front matter may be, to be read back
abbrev pub IsPlain : Text → Type 0
IsPlain frontmatter =
    (includes frontmatter closing ≡ false) × (ends_with frontmatter (text "\r") ≡ false)

strip_breaks_id : (s : Text) → behind_break s ≡ none → strip_breaks s ≡ s
unfolding strip_breaks behind_break starts_with
strip_breaks_id [] h = refl
strip_breaks_id (c ∷ []) h = ground arith
strip_breaks_id (c ∷ d ∷ s) h = ground arith

strip_breaks_break :
    (crlf : Bool) (s : Text) → behind_break s ≡ none → strip_breaks (line_break crlf ++ s) ≡ s
unfolding strip_breaks starts_with
strip_breaks_break true s h = strip_breaks_id s h
strip_breaks_break false s h = strip_breaks_id s h

opened : (crlf : Bool) (s : Text) → behind_open (text "---" ++ (line_break crlf ++ s)) ≡ some s
unfolding behind_break starts_with
opened true s = refl
opened false s = refl

-- A document is split into its front matter and its body, with either line break, if the front matter
-- has no line of its own that begins with three dashes and does not end with a carriage return, and
-- the body does not begin with a line break.
pub split_frontmatter-written :
    (crlf : Bool) (frontmatter body : Text)
    → IsPlain frontmatter
    → behind_break body ≡ none
    → split_frontmatter (written crlf frontmatter body)
      ≡ record { frontmatter = some frontmatter; body = body }
unfolding split_frontmatter
split_frontmatter-written crlf frontmatter body p b =
    let whole = written crlf frontmatter body in
    ap (split_open whole) (opened crlf _)
    ∙ ap (split_found whole) (find_close-written crlf frontmatter (line_break crlf ++ body) p.0 p.1)
    ∙ ap (λ t. record { frontmatter = some frontmatter; body = t }) (strip_breaks_break crlf body b)

-- the line that tells the number
abbrev pub kind_text : ProposalNumberKind → Text
kind_text simd = text "simd"
kind_text sgp = text "sgp"

abbrev pub number_text : ProposalNumberKind → Text → Text
number_text kind digits = kind_text kind ++ (text ": " ++ digits)

span_digits-all : (s : Text) → all is_digit s ≡ true → span_digits s ≡ (s, [])
unfolding span_digits
span_digits-all [] h = refl
span_digits-all (c ∷ s) h = ground (arith, span_digits-all s)

digit-no_quote : (c : ℕ) (s : Text) → is_digit c ≡ true → skip_quote (c ∷ s) ≡ c ∷ s
digit-no_quote c s h = ground arith

digit-no_blank : (c : ℕ) (s : Text) → is_digit c ≡ true → skip_blanks (c ∷ s) ≡ c ∷ s
unfolding drop_while
digit-no_blank c s h = ground arith

quoted_digits-all :
    (c : ℕ) (s : Text) → all is_digit (c ∷ s) ≡ true → quoted_digits (c ∷ s) ≡ some (c ∷ s)
unfolding quoted_digits checked_digits drop_while
quoted_digits-all c s h =
    ap (λ t. checked_digits (span_digits t)) (digit-no_quote c s (ground arith))
    ∙ ap checked_digits (span_digits-all (c ∷ s) h)

number_line-written :
    (kind : ProposalNumberKind) (c : ℕ) (s : Text)
    → all is_digit (c ∷ s) ≡ true
    → number_line (number_text kind (c ∷ s)) ≡ some (make_proposal_ref (c ∷ s) kind)
unfolding number_line kind_prefix drop_while starts_with
number_line-written simd c s h =
    ap (λ t. quoted_digits t >>= λ digits. some (make_proposal_ref digits simd))
      (digit-no_blank c s (ground arith))
    ∙ ap (λ v. v >>= λ digits. some (make_proposal_ref digits simd)) (quoted_digits-all c s h)
number_line-written sgp c s h =
    ap (λ t. quoted_digits t >>= λ digits. some (make_proposal_ref digits sgp))
      (digit-no_blank c s (ground arith))
    ∙ ap (λ v. v >>= λ digits. some (make_proposal_ref digits sgp)) (quoted_digits-all c s h)

-- a line without terminators is the only one
one_line : (s : Text) → all (λ c. not (is_line_terminator c)) s ≡ true → match_lines s ≡ s ∷ []
unfolding match_lines
one_line [] h = refl
one_line (c ∷ s) h = ground (arith, one_line s)

-- such a line ends no front matter
one_line-IsPlain : (s : Text) → all (λ c. not (is_line_terminator c)) s ≡ true → IsPlain s
unfolding includes ends_with starts_with text_eq
one_line-IsPlain [] h = (refl, refl)
one_line-IsPlain (c ∷ s) h = ground (arith, one_line-IsPlain s)

digits-one_line :
    (s : Text) → all is_digit s ≡ true → all (λ c. not (is_line_terminator c)) s ≡ true
digits-one_line [] h = refl
digits-one_line (c ∷ s) h = ground (arith, digits-one_line s)

number_text-one_line :
    (kind : ProposalNumberKind) (digits : Text)
    → all is_digit digits ≡ true
    → all (λ c. not (is_line_terminator c)) (number_text kind digits) ≡ true
number_text-one_line simd digits h = digits-one_line digits h
number_text-one_line sgp digits h = digits-one_line digits h

number_of-written :
    (kind : ProposalNumberKind) (c : ℕ) (s : Text) (fallback : Option ProposalRef)
    → all is_digit (c ∷ s) ≡ true
    → number_of (some (number_text kind (c ∷ s))) fallback ≡ some (make_proposal_ref (c ∷ s) kind)
unfolding number_of first_number
number_of-written kind c s fallback h =
    ap (λ lines. ref_or fallback (first_number lines))
      (one_line (number_text kind (c ∷ s)) (number_text-one_line kind (c ∷ s) h))
    ∙ ap (λ r. ref_or fallback (ref_or none r)) (number_line-written kind c s h)

-- A document whose front matter is the line of a number is read back with this number, whatever its
-- file is called, and with the summary of its body, if the body does not begin with a line break.
pub parse_proposal_markdown-written :
    (crlf : Bool) (kind : ProposalNumberKind) (c : ℕ) (s body : Text)
    (fallback : Option ProposalRef)
    → all is_digit (c ∷ s) ≡ true
    → behind_break body ≡ none
    → parse_proposal_markdown (written crlf (number_text kind (c ∷ s)) body) fallback
      ≡ record { ref = some (make_proposal_ref (c ∷ s) kind); summary = extract_summary body }
unfolding parse_proposal_markdown
parse_proposal_markdown-written crlf kind c s body fallback h b =
    let line = number_text kind (c ∷ s) in
    let plain = one_line-IsPlain line (number_text-one_line kind (c ∷ s) h) in
    ap (read_document fallback) (split_frontmatter-written crlf line body plain b)
    ∙ ap (λ r. record { ref = r; summary = extract_summary body })
        (number_of-written kind c s fallback h)
