-- ===== src/Github/Markdown/Summary.antt =====
-- The summary of a document (frontend/src/lib/github/proposalMarkdown.ts).
use solana_governance.Common.{
  ℕ, zero, suc, ◌+◌, ◌≤◌, ◌≡◌, refl, ap, ◌∙◌, Bool, true, false, some, List, [], ◌∷◌, ◌++◌, length,
  length-append, All, ltb, arith, if◌then◌else◌,
}
use solana_governance.Common.Text.{Text, trim_end, take, drop_while, is_empty, is_space}
use mathlib.Core.List.{reverse_aux}
use solana_governance.Github.Markdown.{
  is_heading, is_summary_heading, split_lines, behind_summary, until_heading, join_lines,
  paragraph_loop, shortened, first_paragraph, extract_summary, summary_of, section_or, text_or,
}

abbrev pub NoSummary : Text → Type 0
NoSummary line = is_summary_heading line ≡ false

abbrev pub NoHeading : Text → Type 0
NoHeading line = is_heading line ≡ false

-- nothing follows, or a heading does
abbrev pub Ends : List Text → Type 0
Ends [] = Unit
Ends (line ∷ lines) = is_heading line ≡ true

behind_summary-found :
    (before : List Text) (heading : Text) (rest : List Text)
    → All NoSummary before
    → is_summary_heading heading ≡ true
    → behind_summary (before ++ heading ∷ rest) ≡ some rest
unfolding behind_summary
behind_summary-found [] heading rest a h = ground arith
behind_summary-found (line ∷ before) heading rest a h =
    ground (arith, behind_summary-found before heading rest a.1 h)

until_heading-section :
    (section rest : List Text)
    → All NoHeading section
    → Ends rest
    → until_heading (section ++ rest) ≡ section
unfolding until_heading
until_heading-section [] [] a e = refl
until_heading-section [] (line ∷ rest) a e = ground arith
until_heading-section (line ∷ section) rest a e =
    ground (arith, until_heading-section section rest a.1 e)

-- The summary of a body is the text below its first heading of that name, up to the next heading, if
-- there is any.
pub extract_summary-section :
    (body heading : Text) (before section rest : List Text)
    → split_lines body ≡ before ++ heading ∷ (section ++ rest)
    → All NoSummary before
    → is_summary_heading heading ≡ true
    → All NoHeading section
    → Ends rest
    → is_empty (join_lines section) ≡ false
    → extract_summary body ≡ join_lines section
unfolding extract_summary
extract_summary-section body heading before section rest l a h s e n =
    ap summary_of l
    ∙ ap (section_or (before ++ heading ∷ (section ++ rest)))
        (behind_summary-found before heading (section ++ rest) a h)
    ∙ ap (text_or (before ++ heading ∷ (section ++ rest)))
        (ap join_lines (until_heading-section section rest s e))
    ∙ ground arith

length-take : (n : ℕ) (s : Text) → length (take n s) ≤ n
length-take zero s = omega arith
length-take (suc n) [] = omega arith
length-take (suc n) (c ∷ s) = omega (arith, length-take n s)

length-drop_while : (p : ℕ → Bool) (s : Text) → length (drop_while p s) ≤ length s
unfolding drop_while
length-drop_while p [] = omega arith
length-drop_while p (c ∷ s) = ground (arith, length-drop_while p s)

length-reverse_aux : (s t : Text) → length (reverse_aux s t) ≡ length s + length t
length-reverse_aux [] t = omega arith
length-reverse_aux (c ∷ s) t = omega (arith, length-reverse_aux s (c ∷ t))

length-trim_end : (s : Text) → length (trim_end s) ≤ length s
unfolding trim_end
length-trim_end s = omega (
  arith,
  length-reverse_aux (drop_while is_space (reverse_aux s [])) [],
  length-drop_while is_space (reverse_aux s []),
  length-reverse_aux s [],
)

cut_bounds : (s : Text) → length (trim_end (take 600 s) ++ 8230 ∷ []) ≤ 601
cut_bounds s = omega (
  arith,
  length-append (trim_end (take 600 s)) (8230 ∷ []),
  length-trim_end (take 600 s),
  length-take 600 s,
)

-- a test that bounds what is as it is
if_bounds : (s t : Text) → length t ≤ 601 → length (if ltb 600 (length s) then t else s) ≤ 601
if_bounds s t h = ground arith

shortened_bounds : (s : Text) → length (shortened s) ≤ 601
unfolding shortened
shortened_bounds s = if_bounds s _ (cut_bounds s)

-- The first paragraph is shown with at most 600 code units, and the sign of an omission if it is longer.
pub first_paragraph_bounds : (lines : List Text) → length (first_paragraph lines) ≤ 601
unfolding first_paragraph
first_paragraph_bounds lines = shortened_bounds (join_lines (paragraph_loop [] lines))
