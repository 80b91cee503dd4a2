-- ===== src/Github/OnChain.antt =====
-- `is_valid_github_link` of svmgov/program/programs/svmgov_program/src/utils.rs, the check that the
-- program makes of a description: what `validateProposalUrl` must imply.
use solana_governance.Common.{
  ℕ, suc, ◌+◌, Bool, true, false, not, ◌&&◌, ◌||◌, Option, none, some, List, [], ◌∷◌, ◌++◌, length,
  ltb, leb, ◌==◌, if◌then◌else◌,
}
use solana_governance.Common.Text.{
  Text, text, text_eq, starts_with, ends_with, includes, drop, is_empty,
}
use solana_governance.Github.FileName.{sgp_repo}
use solana_governance.Github.Validate.{on_chain_prefix, is_alphanumeric, without_slash}
pub mod Refines

abbrev pub max_segments : ℕ
max_segments = 10

abbrev pub min_segments : ℕ
min_segments = 2

-- a letter, a digit, or one of `-_.`
abbrev pub is_segment_char : ℕ → Bool
is_segment_char c = is_alphanumeric c || c == b'-' || c == b'_' || c == b'.'

-- The loop over the characters, with the segments closed so far and whether one is open; the test
-- behind the loop is at its end. The first forbidden character ends it.
unfoldable pub scan : ℕ → Bool → Text → Bool
scan count in_segment [] =
    let segments = if in_segment then count + 1 else count in
    leb min_segments segments && leb segments max_segments
scan count in_segment (c ∷ s) =
    let next = scan (count + 1) false s in
    let inside = scan count true s in
    if c == b'/'
    then if not in_segment then false else if ltb max_segments (count + 1) then false else next
    else if is_segment_char c
    then inside
    else false

-- the path, without one `/` at its end
unfoldable pub is_valid_path : Text → Bool
unfolding starts_with includes ends_with scan
is_valid_path path =
    not (is_empty path)
    && not (starts_with path (text "/"))
    && starts_with path (sgp_repo ++ text "/")
    && not (includes path (text "/../") || ends_with path (text "/.."))
    && scan 0 false path

-- a path that is `/` alone is refused, as it is empty without it
unfoldable pub is_valid_github_link : Text → Bool
unfolding starts_with is_valid_path without_slash
is_valid_github_link link =
    starts_with link on_chain_prefix
    && is_valid_path (without_slash (drop (length on_chain_prefix) link))
