-- ===== src/Reports.antt =====
-- frontend/src/lib/sentryFilters.ts: which reports of errors are dropped.
use solana_governance.Common.{
  ℕ, Bool, true, false, not, ◌&&◌, ◌||◌, Option, none, some, List, [], ◌∷◌, ◌++◌, length, leb, ◌==◌,
  if◌then◌else◌,
}
use solana_governance.Common.Sort.Laws.{keep}
use solana_governance.Common.Text.{
  Text, text, text_eq, starts_with, ends_with, lower_text, drop, all, is_empty,
}
use solana_governance.Github.FileName.{span_digits, is_line_terminator}
pub mod Own
pub mod Cancelled

pub record Mechanism : Type 0 where
  pub handled : Option Bool
  pub parent_id : Option ℕ

-- an exception with the filenames of its frames
pub record Exception : Type 0 where
  pub mechanism : Option Mechanism
  pub frames : List (Option Text)

pub record ErrorEvent : Type 0 where
  pub values : List Exception

abbrev pub unattributable_filenames : List Text
unattributable_filenames = text "<anonymous>" ∷ text "[native code]" ∷ text "native" ∷ []

abbrev pub is_one_of : List Text → Text → Bool
is_one_of [] s = false
is_one_of (t ∷ ts) s = text_eq s t || is_one_of ts s

abbrev pub starts_with_one : List Text → Text → Bool
starts_with_one [] s = false
starts_with_one (prefix ∷ prefixes) s = starts_with s prefix || starts_with_one prefixes s

-- `[set]+\.js$`, of a lower case text
abbrev pub is_script : (ℕ → Bool) → Text → Bool
is_script p s = all p s && ends_with s (text ".js") && leb 4 (length s)

abbrev pub extension_schemes : List Text
extension_schemes =
    text "chrome-extension://"
    ∷ text "moz-extension://"
    ∷ text "safari-web-extension://"
    ∷ text "safari-extension://"
    ∷ text "ms-browser-extension://"
    ∷ text "opera-extension://"
    ∷ text "webkit-masked-url://"
    ∷ text "chrome://"
    ∷ text "resource://"
    ∷ text "extensions://"
    ∷ []

-- `\d+\.js$`
abbrev pub is_numbered : Text × Text → Bool
is_numbered (digits, tail) = not (is_empty digits) && text_eq tail (text ".js")

-- `THIRD_PARTY_FILENAME_PATTERNS`, of a lower case text
unfoldable pub matches_pattern : Text → Bool
unfolding starts_with ends_with text_eq span_digits
matches_pattern s =
    (starts_with s (text "app:///") && is_script (λ c. not (c == b'/')) (drop 7 s))
    || (starts_with s (text "app:///executors/") && is_numbered (span_digits (drop 17 s)))
    || starts_with_one extension_schemes s
    || is_script (λ c. not (c == b'/' || c == b':' || c == b'?' || c == b'#')) s

-- `replace(/[?#].*$/, "")`
unfoldable pub without_query : Text → Text
without_query [] = []
without_query (c ∷ s) =
    let rest = without_query s in
    if (c == b'?' || c == b'#') && all (λ d. not (is_line_terminator d)) s then [] else c ∷ rest

unfoldable pub is_third_party_filename : Text → Bool
unfolding matches_pattern without_query
is_third_party_filename filename = matches_pattern (lower_text (without_query filename))

-- `mechanism?.parent_id === undefined`
abbrev pub is_root : Exception → Bool
is_root e = elim e.mechanism [
  | none ↦ true
  | some m ↦ elim m.parent_id [ none ↦ true | some parent ↦ false ]
]

abbrev pub or_else {ℓ} : {A : Type ℓ} → Option A → Option A → Option A
or_else none other = other
or_else (some a) other = some a

abbrev pub root_or : Bool → Exception → Option Exception
root_or true e = some e
root_or false e = none

-- the last without a parent
abbrev pub last_root : List Exception → Option Exception
last_root [] = none
last_root (e ∷ es) = or_else (last_root es) (root_or (is_root e) e)

abbrev pub last_exception : List Exception → Option Exception
last_exception [] = none
last_exception (e ∷ es) = or_else (last_exception es) (some e)

abbrev pub get_root_exception : ErrorEvent → Option Exception
get_root_exception event = or_else (last_root event.values) (last_exception event.values)

abbrev pub given : List (Option Text) → List Text
given [] = []
given (none ∷ names) = given names
given (some name ∷ names) = name ∷ given names

abbrev pub filenames : List Exception → List Text
filenames [] = []
filenames (e ∷ es) = given e.frames ++ filenames es

unfoldable pub is_attributable : Text → Bool
unfolding text_eq
is_attributable name = not (is_empty name) && not (is_one_of unattributable_filenames name)

unfoldable pub attributable_filenames : ErrorEvent → List Text
unfolding keep is_attributable
attributable_filenames event = keep is_attributable (filenames event.values)

-- `mechanism?.handled !== false`
abbrev pub is_unhandled : Exception → Bool
is_unhandled e = elim e.mechanism [
  | none ↦ false
  | some m ↦ elim m.handled [ none ↦ false | some handled ↦ not handled ]
]

abbrev pub root_is_unhandled : Option Exception → Bool
root_is_unhandled none = false
root_is_unhandled (some e) = is_unhandled e

abbrev pub every : (Text → Bool) → List Text → Bool
every p [] = true
every p (name ∷ names) = p name && every p names

unfoldable pub is_third_party_script_error : ErrorEvent → Bool
unfolding attributable_filenames is_third_party_filename
is_third_party_script_error event =
    root_is_unhandled (get_root_exception event)
    && not (is_empty (attributable_filenames event))
    && every is_third_party_filename (attributable_filenames event)
