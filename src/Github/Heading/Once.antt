-- ===== src/Github/Heading/Once.antt =====
-- A heading names its proposal once (frontend/src/lib/github/proposalHeading.ts).
use solana_governance.Common.{
  ℕ, ◌≤◌, ◌≡◌, refl, ap, ◌∙◌, Bool, true, ◌&&◌, ◌||◌, none, some, [], ◌∷◌, ◌++◌, length, leb, ◌==◌,
  if◌then◌else◌, arith,
}
use solana_governance.Common.Text.{
  Text, text, trim_start, all, is_digit, is_space, drop_while, starts_with,
}
use solana_governance.Github.FileName.{
  ProposalNumberKind, simd, sgp, make_proposal_ref, upper_kind, span_digits,
}
use solana_governance.Github.Frontmatter.{kind_prefix, ◌>>=◌}
use solana_governance.Github.Heading.{
  is_zero, digit_group, checked_group, at_boundary, title_prefix, value_from, number_value,
  names_ref, title_names_proposal, format_proposal_heading, prefixed, number_behind, same_kind,
}

span_digits-behind :
    (s tail : Text)
    → all is_digit s ≡ true
    → at_boundary tail ≡ true
    → span_digits (s ++ tail) ≡ (s, tail)
unfolding span_digits
span_digits-behind [] [] h b = refl
span_digits-behind [] (c ∷ tail) h b = ground arith
span_digits-behind (c ∷ s) tail h b = ground (arith, span_digits-behind s tail)

-- leading zeros do not count
value_from-zeros : (s : Text) → value_from 0 (drop_while is_zero s) ≡ value_from 0 s
unfolding value_from drop_while
value_from-zeros [] = refl
value_from-zeros (c ∷ s) = ground (arith, value_from-zeros s)

digit_group-value : (s : Text) → value_from 0 (digit_group s) ≡ value_from 0 s
unfolding value_from
digit_group-value [] = refl
digit_group-value (c ∷ s) = refl

length-drop_zeros : (s : Text) → length (drop_while is_zero s) ≤ length s
unfolding drop_while
length-drop_zeros [] = omega arith
length-drop_zeros (c ∷ s) = ground (arith, length-drop_zeros s)

digit_group-length : (s : Text) (n : ℕ) → length s ≤ n → 1 ≤ n → length (digit_group s) ≤ n
digit_group-length [] n h k = omega arith
digit_group-length (c ∷ s) n h k = h

group_found :
    (group tail : Text)
    → length group ≤ 5
    → at_boundary tail ≡ true
    → (if leb (length group) 5 && at_boundary tail then some group else none) ≡ some group
group_found group tail l b = ground arith

checked_group_found :
    (c : ℕ) (s tail : Text)
    → length (c ∷ s) ≤ 5
    → at_boundary tail ≡ true
    → checked_group (c ∷ s, tail) ≡ some (digit_group (drop_while is_zero (c ∷ s)))
unfolding checked_group
checked_group_found c s tail l b =
    let short =
      digit_group-length (drop_while is_zero (c ∷ s)) 5 (omega (arith, length-drop_zeros (c ∷ s)))
        (omega arith) in
    group_found (digit_group (drop_while is_zero (c ∷ s))) tail short b

number_value-group : (s : Text) → number_value (digit_group (drop_while is_zero s)) ≡ number_value s
number_value-group s = digit_group-value (drop_while is_zero s) ∙ value_from-zeros s

separator_dropped :
    (c : ℕ) (s : Text)
    → is_digit c ≡ true
    → drop_while (λ c. is_space c || c == b'-') (b'-' ∷ c ∷ s) ≡ c ∷ s
unfolding drop_while is_space
separator_dropped c s h = ground arith

number_behind-label :
    (c : ℕ) (s tail : Text)
    → all is_digit (c ∷ s) ≡ true
    → length (c ∷ s) ≤ 5
    → at_boundary tail ≡ true
    → number_behind (b'-' ∷ ((c ∷ s) ++ tail)) ≡ some (digit_group (drop_while is_zero (c ∷ s)))
unfolding number_behind
number_behind-label c s tail h l b =
    ap (λ t. checked_group (span_digits t)) (separator_dropped c (s ++ tail) (ground arith))
    ∙ ap checked_group (span_digits-behind (c ∷ s) tail h b)
    ∙ checked_group_found c s tail l b

-- the label is read back, with the digits that it has behind its zeros
title_prefix-label :
    (kind : ProposalNumberKind) (c : ℕ) (s tail : Text)
    → all is_digit (c ∷ s) ≡ true
    → length (c ∷ s) ≤ 5
    → at_boundary tail ≡ true
    → title_prefix (trim_start (upper_kind kind ++ (b'-' ∷ ((c ∷ s) ++ tail))))
      ≡ some (kind, digit_group (drop_while is_zero (c ∷ s)))
unfolding title_prefix kind_prefix drop_while starts_with trim_start is_space
title_prefix-label simd c s tail h l b =
    ap (λ d. d >>= λ digits. some (simd, digits)) (number_behind-label c s tail h l b)
title_prefix-label sgp c s tail h l b =
    ap (λ d. d >>= λ digits. some (sgp, digits)) (number_behind-label c s tail h l b)

same_kind_refl : (kind : ProposalNumberKind) → same_kind kind kind ≡ true
same_kind_refl simd = refl
same_kind_refl sgp = refl

regrouped :
    (kind : Text) (number title : Text)
    → (kind ++ (b'-' ∷ number)) ++ title ≡ kind ++ (b'-' ∷ (number ++ title))
regrouped [] number title = refl
regrouped (c ∷ kind) number title = ap (λ t. c ∷ t) (regrouped kind number title)

title_names_proposal-prefixed :
    (kind : ProposalNumberKind) (c : ℕ) (s title : Text)
    → all is_digit (c ∷ s) ≡ true
    → length (c ∷ s) ≤ 5
    → title_names_proposal
        (prefixed (make_proposal_ref (c ∷ s) kind) title)
        (make_proposal_ref (c ∷ s) kind)
      ≡ true
unfolding title_names_proposal
title_names_proposal-prefixed kind c s title h l =
    let ref = make_proposal_ref (c ∷ s) kind in
    ap (λ t. names_ref ref (title_prefix (trim_start t)))
      (regrouped (upper_kind kind) (c ∷ s) (text ": " ++ title))
    ∙ ap (names_ref ref) (title_prefix-label kind c s (text ": " ++ title) h l refl)
    ∙ label_named kind (digit_group (drop_while is_zero (c ∷ s))) (c ∷ s)
        (number_value-group (c ∷ s))
  where
    label_named :
        (kind : ProposalNumberKind) (group number : Text)
        → number_value group ≡ number_value number
        → (same_kind kind kind && number_value group == number_value number) ≡ true
    label_named kind group number e = ground (arith, same_kind_refl kind)

-- what puts a prefix in front unless it is there
abbrev with_prefix : (Text → Bool) → (Text → Text) → Text → Text
with_prefix p f title = if p title then title else f title

with_prefix-there :
    (p : Text → Bool) (f : Text → Text) (title : Text)
    → p (f title) ≡ true
    → p (with_prefix p f title) ≡ true
with_prefix-there p f title h = ground arith

with_prefix_id :
    (p : Text → Bool) (f : Text → Text) (title : Text)
    → p title ≡ true
    → with_prefix p f title ≡ title
with_prefix_id p f title h = ground arith

-- A heading is its own heading: it names the proposal, so the number is never put in front twice, for
-- a number of at most five digits.
pub format_proposal_heading-twice :
    (kind : ProposalNumberKind) (c : ℕ) (s title : Text)
    → all is_digit (c ∷ s) ≡ true
    → length (c ∷ s) ≤ 5
    → (title_names_proposal
          (format_proposal_heading (some (make_proposal_ref (c ∷ s) kind)) title)
          (make_proposal_ref (c ∷ s) kind)
        ≡ true)
      × (format_proposal_heading
            (some (make_proposal_ref (c ∷ s) kind))
            (format_proposal_heading (some (make_proposal_ref (c ∷ s) kind)) title)
          ≡ format_proposal_heading (some (make_proposal_ref (c ∷ s) kind)) title)
unfolding format_proposal_heading
format_proposal_heading-twice kind c s title h l =
    let ref = make_proposal_ref (c ∷ s) kind in
    let names = title_names_proposal-prefixed kind c s title h l in
    let there = with_prefix-there (λ t. title_names_proposal t ref) (prefixed ref) title names in
    (there, with_prefix_id (λ t. title_names_proposal t ref) (prefixed ref) _ there)
