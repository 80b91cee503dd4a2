-- ===== src/Github/FileName.antt =====
-- The naming rules of frontend/src/lib/github/proposalUrl.ts: a rule is known by its kind, and its
-- pattern is written out as a function that gives the digits of the first group. Case does not count
-- in a pattern, which without the flag `u` concerns only ASCII letters where the pattern has them.
use solana_governance.Common.{
  ℕ, Bool, false, not, ◌&&◌, ◌||◌, Option, none, some, List, [], ◌∷◌, ◌++◌, leb, ◌==◌,
  if◌then◌else◌, length,
}
use solana_governance.Common.Text.{
  Text, text, is_digit, text_eq, starts_with, ends_with, lower_text, drop, all, is_empty,
}
use solana_governance.Github.Platform.{Platform}

pub data ProposalNumberKind : Type 0 where
  simd sgp : ProposalNumberKind

pub record ProposalRef : Type 0 where
  pub number : Text
  pub kind : ProposalNumberKind
  pub label : Text

pub record GithubRepoRef : Type 0 where
  pub owner : Text
  pub repo : Text

pub record ProposalRepoConfig : Type 0 where
  pub proposal_dir : Option Text
  pub file_rules : List ProposalNumberKind
  pub default_kind : ProposalNumberKind

-- the leading digits and the rest
unfoldable pub span_digits : Text → Text × Text
span_digits [] = ([], [])
span_digits (c ∷ s) =
    let rest = span_digits s in if is_digit c then (c ∷ rest.0, rest.1) else ([], c ∷ s)

-- `.` of a pattern stands for none of these
abbrev pub is_line_terminator : ℕ → Bool
is_line_terminator c = c == 10 || c == 13 || c == 8232 || c == 8233

abbrev pub is_separator : ℕ → Bool
is_separator c = c == b'-' || c == b'_' || c == b'.'

abbrev pub starts_separated : Text → Bool
starts_separated [] = false
starts_separated (c ∷ s) = is_separator c

-- `(?:[-_.].*)?\.md$`
unfoldable pub is_md_tail : Text → Bool
unfolding ends_with
is_md_tail s =
    starts_separated s
    && ends_with (lower_text s) (text ".md")
    && all (λ c. not (is_line_terminator c)) s

-- `(\d{1,5})(?:[-_.].*)?\.md$`: what stands behind the digits is no digit, so they are all there are
unfoldable pub match_digits : Text → Option Text
unfolding span_digits is_md_tail
match_digits s =
    let digits = (span_digits s).0 in
    if not (is_empty digits) && leb (length digits) 5 && is_md_tail (span_digits s).1
    then some digits
    else none

-- `SIMD_RULE` and `SGP_RULE`
unfoldable pub match_rule : ProposalNumberKind → Text → Option Text
unfolding match_digits starts_with
match_rule simd s = match_digits s
match_rule sgp s =
    if starts_with (lower_text s) (text "sgp-") then match_digits (drop 4 s) else none

abbrev pub simd_repo : Text
simd_repo = text "solana-foundation/solana-improvement-documents"

abbrev pub sgp_repo : Text
sgp_repo = text "solana-foundation/solana-governance-proposals"

abbrev pub simd_config : ProposalRepoConfig
simd_config = record {
  proposal_dir = some (text "proposals");
  file_rules = simd ∷ [];
  default_kind = simd;
}

abbrev pub sgp_config : ProposalRepoConfig
sgp_config = record {
  proposal_dir = some (text "proposals");
  file_rules = sgp ∷ [];
  default_kind = sgp;
}

abbrev pub default_repo_config : ProposalRepoConfig
default_repo_config = record {
  proposal_dir = none;
  file_rules = sgp ∷ simd ∷ [];
  default_kind = simd;
}

abbrev pub repo_key : Platform → GithubRepoRef → Text
repo_key platform repo =
    platform.to_lower_case repo.owner ++ (b'/' ∷ platform.to_lower_case repo.repo)

unfoldable pub resolve_repo_config : Platform → GithubRepoRef → ProposalRepoConfig
unfolding text_eq
resolve_repo_config platform repo =
    if text_eq (repo_key platform repo) simd_repo
    then simd_config
    else if text_eq (repo_key platform repo) sgp_repo
    then sgp_config
    else default_repo_config

-- `kind.toUpperCase()`
abbrev pub upper_kind : ProposalNumberKind → Text
upper_kind simd = text "SIMD"
upper_kind sgp = text "SGP"

abbrev pub make_proposal_ref : Text → ProposalNumberKind → ProposalRef
make_proposal_ref number kind = record {
  number = number;
  kind = kind;
  label = upper_kind kind ++ (b'-' ∷ number);
}

-- the loop over the rules
unfoldable pub first_match : List ProposalNumberKind → Text → Option ProposalRef
unfolding match_rule
first_match [] file_name = none
first_match (rule ∷ rules) file_name =
    let rest = first_match rules file_name in
    elim (match_rule rule file_name) [
      | some digits ↦ some (make_proposal_ref digits rule)
      | none ↦ rest
    ]

abbrev pub proposal_ref_from_file_name : Text → ProposalRepoConfig → Option ProposalRef
proposal_ref_from_file_name file_name config = first_match config.file_rules file_name
