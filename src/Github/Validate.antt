-- ===== src/Github/Validate.antt =====
-- frontend/src/lib/github/validateProposalUrl.ts: what a description must be before it is sent. The
-- messages are left out, an issue is its code.
use solana_governance.Common.{
  ℕ, Bool, true, false, not, ◌&&◌, ◌||◌, Option, none, some, List, [], ◌∷◌, ◌++◌, length, ltb, leb,
  ◌==◌, if◌then◌else◌, ◌⊎◌, inl, inr,
}
use solana_governance.Common.Text.{
  Text, text, trim, text_eq, starts_with, ends_with, lower_text, drop, all, any, is_empty, is_digit,
  is_lower, is_upper, split, some_part,
}
use solana_governance.Lifecycle.{is_set}
use solana_governance.Github.Platform.{Platform}
use solana_governance.Github.FileName.{GithubRepoRef, ProposalRef, sgp_repo}
use solana_governance.Github.Url.{
  UnsupportedUrlCode, ParsedProposalUrl, blob, pull, unsupported, parse_proposal_url,
}
pub mod Accepts

pub data ProposalUrlErrorCode : Type 0 where
  empty not_a_url not_https not_github not_allowed_repo pull_request tree_or_directory :
      ProposalUrlErrorCode
  not_markdown query_or_fragment too_long rejected_on_chain unsupported_link : ProposalUrlErrorCode

pub data ProposalUrlWarningCode : Type 0 where
  mutable_ref unrecognized_filename : ProposalUrlWarningCode

pub record ProposalUrlValidation : Type 0 where
  pub ok : Bool
  pub errors : List ProposalUrlErrorCode
  pub warnings : List ProposalUrlWarningCode
  pub parsed : ParsedProposalUrl
  pub normalized : Text

-- the `switch` over the codes of `parseProposalUrl`
abbrev pub bad_shape : UnsupportedUrlCode → ProposalUrlErrorCode
bad_shape UnsupportedUrlCode.empty = empty
bad_shape UnsupportedUrlCode.not_a_url = not_a_url
bad_shape UnsupportedUrlCode.not_https = not_https
bad_shape UnsupportedUrlCode.not_github = not_github
bad_shape UnsupportedUrlCode.tree_or_directory = tree_or_directory
bad_shape UnsupportedUrlCode.unrecognized = unsupported_link

abbrev pub max_description_bytes : ℕ
max_description_bytes = 500

abbrev pub on_chain_prefix : Text
on_chain_prefix = text "https://github.com/"

abbrev pub on_chain_min_segments : ℕ
on_chain_min_segments = 2

abbrev pub on_chain_max_segments : ℕ
on_chain_max_segments = 10

abbrev pub is_alphanumeric : ℕ → Bool
is_alphanumeric c = is_digit c || is_upper c || is_lower c

-- `[A-Za-z0-9\-_./]`
abbrev pub is_allowed : ℕ → Bool
is_allowed c = is_alphanumeric c || c == b'-' || c == b'_' || c == b'.' || c == b'/'

abbrev pub is_hex : ℕ → Bool
is_hex c = is_digit c || (leb b'a' c && leb c b'f') || (leb b'A' c && leb c b'F')

-- `COMMIT_SHA`
abbrev pub is_commit_sha : Text → Bool
is_commit_sha s = length s == 40 && all is_hex s

-- `s.replace(/\/$/, "")`
unfoldable pub without_slash : Text → Text
without_slash [] = []
without_slash (c ∷ []) = if c == b'/' then [] else c ∷ []
without_slash (c ∷ d ∷ s) = c ∷ without_slash (d ∷ s)

-- whether `describeOnChainViolation` finds one, in the path behind the prefix
unfoldable pub violates : Text → Bool
unfolding text_eq split
violates path =
    let segments = split b'/' path in
    some_part is_empty segments
    || some_part (λ segment. text_eq segment (text "..")) segments
    || ltb (length segments) on_chain_min_segments
    || ltb on_chain_max_segments (length segments)
    || not (all is_allowed path)

abbrev pub describe_on_chain_violation : Text → Bool
describe_on_chain_violation url = violates (without_slash (drop (length on_chain_prefix) url))

-- one issue if the test holds
abbrev pub when {ℓ} : {A : Type ℓ} → Bool → A → List A
when b a = if b then a ∷ [] else []

abbrev pub failed : ProposalUrlErrorCode → ParsedProposalUrl → Text → ProposalUrlValidation
failed code parsed trimmed = record {
  ok = false;
  errors = code ∷ [];
  warnings = [];
  parsed = parsed;
  normalized = trimmed;
}

abbrev pub repo_path : GithubRepoRef → Text
repo_path repo = repo.owner ++ (b'/' ∷ repo.repo)

module _ (platform : Platform) where
  -- the errors of a file on github.com, in the order of the checks
  unfoldable pub blob_errors : GithubRepoRef → Text → Text → List ProposalUrlErrorCode
  unfolding ends_with text_eq violates without_slash
  blob_errors repo file_name trimmed =
      when (not (ends_with (lower_text file_name) (text ".md"))) not_markdown
      ++ (when (any (λ c. c == b'?' || c == b'#') trimmed) query_or_fragment
          ++ (when (ltb max_description_bytes (platform.byte_length trimmed)) too_long
              ++ (when (describe_on_chain_violation trimmed) rejected_on_chain
                  ++ when (not (text_eq (repo_path repo) sgp_repo)) not_allowed_repo)))

  abbrev pub blob_warnings : Text → Option ProposalRef → List ProposalUrlWarningCode
  blob_warnings git_ref ref =
      when (not (is_commit_sha git_ref)) mutable_ref
      ++ when (not (is_set ref)) unrecognized_filename

  unfoldable pub validate_blob :
      GithubRepoRef
      → Text
      → Text
      → Option ProposalRef
      → ParsedProposalUrl
      → Text
      → ProposalUrlValidation
  unfolding blob_errors starts_with
  validate_blob repo git_ref file_name ref parsed trimmed =
      if not (starts_with trimmed on_chain_prefix)
      then failed not_github parsed trimmed
      else record {
        ok = is_empty (blob_errors repo file_name trimmed);
        errors = blob_errors repo file_name trimmed;
        warnings = blob_warnings git_ref ref;
        parsed = parsed;
        normalized = trimmed;
      }

  unfoldable pub validate_parsed : ParsedProposalUrl → Text → ProposalUrlValidation
  unfolding validate_blob
  validate_parsed (pull repo pull_number) trimmed =
      failed pull_request (pull repo pull_number) trimmed
  validate_parsed (unsupported code) trimmed = failed (bad_shape code) (unsupported code) trimmed
  validate_parsed (blob repo git_ref path file_name ref) trimmed =
      validate_blob repo git_ref file_name ref (blob repo git_ref path file_name ref) trimmed

  unfoldable pub validate_proposal_url : Text → ProposalUrlValidation
  unfolding trim
  validate_proposal_url url =
      let trimmed = trim url in validate_parsed (parse_proposal_url platform trimmed) trimmed

  -- the first error is thrown, if there is one
  abbrev pub assert_ok : List ProposalUrlErrorCode → Text → ProposalUrlErrorCode ⊎ Text
  assert_ok [] normalized = inr normalized
  assert_ok (code ∷ codes) normalized = inl code

  unfoldable pub assert_valid_proposal_url : Text → ProposalUrlErrorCode ⊎ Text
  unfolding validate_proposal_url
  assert_valid_proposal_url url =
      assert_ok (validate_proposal_url url).errors (validate_proposal_url url).normalized
