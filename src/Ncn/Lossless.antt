-- ===== src/Ncn/Lossless.antt =====
-- `parseNcnJson` of frontend/src/lib/ncnApi.ts: integers of named fields are put in quotes before the
-- text is parsed. A field is a text that a pattern would match as it stands, after escaping.
use solana_governance.Common.{
  ℕ, zero, suc, ◌+◌, Bool, true, false, not, ◌&&◌, ◌||◌, Option, none, some, List, [], ◌∷◌, ◌++◌,
  length, ◌==◌, if◌then◌else◌,
}
use solana_governance.Common.Text.{
  Text, text, starts_with, take, drop, drop_while, is_space, is_digit,
}
use solana_governance.Github.FileName.{span_digits}
pub mod Unchanged

-- `"field"`
abbrev pub quoted_field : Text → Text
quoted_field field = b'"' ∷ (field ++ (b'"' ∷ []))

-- `0|[1-9]\d*`, of all the digits that follow
abbrev pub is_integer : Text → Bool
is_integer [] = false
is_integer (c ∷ []) = true
is_integer (c ∷ d ∷ s) = not (c == b'0')

-- `(?=\s*[,}])`
unfoldable pub at_end : Text → Bool
unfolding drop_while is_space starts_with
at_end s =
    let tail = drop_while is_space s in starts_with tail (text ",") || starts_with tail (text "}")

-- the number of signs in front of the digits
abbrev pub sign_length : Text → ℕ
sign_length [] = 0
sign_length (c ∷ s) = if c == b'-' then 1 else 0

-- the length of the integer at the start, if the value ends behind it
unfoldable pub integer_length : Text → Option ℕ
unfolding span_digits at_end
integer_length s =
    let spanned = span_digits (drop (sign_length s) s) in
    if is_integer spanned.0 && at_end spanned.1
    then some (sign_length s + length spanned.0)
    else none

-- the length of white space
unfoldable pub space_length : Text → ℕ
unfolding is_space
space_length [] = 0
space_length (c ∷ s) = let rest = space_length s in if is_space c then suc rest else 0

-- the length of `"field"\s*:\s*`
unfoldable pub key_length : Text → Text → Option ℕ
unfolding starts_with space_length
key_length field s =
    let name = length (quoted_field field) in
    let colon = name + space_length (drop name s) in
    if starts_with s (quoted_field field) && starts_with (drop colon s) (text ":")
    then some (colon + 1 + space_length (drop (colon + 1) s))
    else none

-- a length without the first character
abbrev pub behind_first : ℕ → Option ℕ → Option (ℕ × ℕ)
behind_first zero n = none
behind_first (suc k) none = none
behind_first (suc k) (some n) = some (k, n)

abbrev pub lengths_at : Text → Option ℕ → Option (ℕ × ℕ)
lengths_at s none = none
lengths_at s (some k) = behind_first k (integer_length (drop k s))

-- The lengths of the two groups at the start, the first without its first character, which is a quote.
unfoldable pub match_integer : Text → Text → Option (ℕ × ℕ)
unfolding key_length integer_length
match_integer field s = lengths_at s (key_length field s)

-- the replacement at a match, with what follows the match
abbrev pub replaced : Text → ℕ → ℕ → Text → Text
replaced s k n rest = take k s ++ (b'"' ∷ (take n (drop k s) ++ (b'"' ∷ rest)))

-- from a character on, with what follows it and what the search gives of that
abbrev pub after_match : ℕ → Text → (ℕ → Text) → Option (ℕ × ℕ) → Text
after_match c s rest none = c ∷ rest 0
after_match c s rest (some (k, n)) = c ∷ replaced s k n (rest (k + n))

-- `replace` with the flag `g`, with the number of characters that a match has taken already
unfoldable pub quote_integers : Text → ℕ → Text → Text
unfolding match_integer
quote_integers field skip [] = []
quote_integers field (suc skip) (c ∷ s) = quote_integers field skip s
quote_integers field zero (c ∷ s) =
    after_match c s (λ skip. quote_integers field skip s) (match_integer field (c ∷ s))

-- the loop over the fields, before `JSON.parse`
unfoldable pub normalized : List Text → Text → Text
unfolding quote_integers
normalized [] body = body
normalized (field ∷ fields) body = normalized fields (quote_integers field 0 body)
