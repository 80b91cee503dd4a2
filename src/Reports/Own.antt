-- ===== src/Reports/Own.antt =====
-- No report with a frame of the application is dropped (frontend/src/lib/sentryFilters.ts).
use solana_governance.Common.{◌≡◌, refl, ap, ◌∙◌, Bool, true, false, List, [], ◌∷◌, ◌++◌, arith}
use solana_governance.Common.Sort.Laws.{keep}
use solana_governance.Common.Text.{
  Text, text, text_eq, starts_with, ends_with, some_part, lower_text,
}
use solana_governance.Common.Text.Laws.{starts_with-drop}
use solana_governance.Github.FileName.{span_digits}
use solana_governance.Reports.{
  ErrorEvent, matches_pattern, without_query, is_third_party_filename, is_attributable,
  attributable_filenames, filenames, every, is_third_party_script_error,
}

-- where the application's own scripts are
abbrev pub own_prefix : Text
own_prefix = text "app:///_next/"

abbrev pub is_own : Text → Bool
is_own name = starts_with name own_prefix

own-no_match : (s : Text) → matches_pattern (own_prefix ++ s) ≡ false
unfolding matches_pattern starts_with ends_with text_eq span_digits
own-no_match s = ground arith

own_third_party : (s : Text) → is_third_party_filename (own_prefix ++ s) ≡ false
unfolding is_third_party_filename without_query
own_third_party s = own-no_match (lower_text (without_query s))

own_attributable : (s : Text) → is_attributable (own_prefix ++ s) ≡ true
unfolding is_attributable text_eq
own_attributable s = refl

own_name :
    (name : Text)
    → is_own name ≡ true
    → (is_third_party_filename name ≡ false) × (is_attributable name ≡ true)
own_name name h =
    let whole = starts_with-drop name own_prefix h in
    (
      ap is_third_party_filename whole ∙ own_third_party _,
      ap is_attributable whole ∙ own_attributable _,
    )

every-own :
    (names : List Text)
    → some_part is_own names ≡ true
    → every is_third_party_filename (keep is_attributable names) ≡ false
unfolding keep
every-own [] h = absurd (cc)
every-own (name ∷ names) h = ground (arith, own_name name, every-own names)

-- A report with a frame of the application's own scripts, anywhere in the chain of its exceptions, is
-- never taken for one of a foreign script, whatever its other frames and its mechanism are.
pub is_third_party_script_error-own :
    (event : ErrorEvent)
    → some_part is_own (filenames event.values) ≡ true
    → is_third_party_script_error event ≡ false
unfolding is_third_party_script_error attributable_filenames
is_third_party_script_error-own event h = ground (arith, every-own (filenames event.values) h)
