-- ===== src/Tests/Github.antt =====
-- The documents of proposals, at concrete inputs (frontend/src/lib/github).
use solana_governance.Common.{
  ℕ, ◌+◌, ◌-◌, ◌≡◌, ◌↔◌, ◌≤◌, ◌≢◌, ◌⊎◌, refl, true, false, Option, none, some, [], ◌∷◌,
  if◌then◌else◌, length,
}
use solana_governance.Common.Int.{ℤ, pos}
use solana_governance.Common.Text.{
  Text, text, trim, starts_with, drop, lower_text, split, some_part, text_eq,
}
use solana_governance.Github.Platform.{Platform, Url}
use solana_governance.Github.FileName.{ProposalRef, GithubRepoRef, sgp, make_proposal_ref}
use solana_governance.Github.Url.{
  parse_proposal_url, url_result, github_result, segments_of, kind_result, blob_result,
}
use solana_governance.Github.Validate.{
  on_chain_prefix, without_slash, validate_parsed, validate_proposal_url,
}
use solana_governance.Github.Validate.Accepts.{KeepsPlain, IsAccepted, validate_proposal_url-ok_iff}
use solana_governance.Github.OnChain.{is_valid_github_link}
use solana_governance.Github.OnChain.Refines.{validate_proposal_url-refines}
use solana_governance.Github.Markdown.{parse_proposal_markdown, extract_summary}
use solana_governance.Github.Frontmatter.{behind_break}
use solana_governance.Github.Markdown.RoundTrip.{
  written, number_text, parse_proposal_markdown-written,
}
use solana_governance.Github.Document.{fetch_proposal_document, list_pull_request_files}
use solana_governance.Github.Api.{
  Response, Fetch, GithubApiError, returned, thrown, github_api_error,
}
use solana_governance.Github.Document.Requests.{fetch_proposal_document-requests, allowed}
use solana_governance.Github.Document.Failures.{list_pull_request_files-refused}

-- a browser that knows plain URLs of github.com, and numbers of one digit
abbrev pub parse_plain : Text → Option Url
parse_plain s =
    if starts_with s on_chain_prefix
    then some (record {
      protocol = text "https:";
      hostname = text "github.com";
      pathname = b'/' ∷ drop (length on_chain_prefix) s;
    })
    else none

abbrev pub digit_of : Text → Option ℤ
digit_of (c ∷ []) = some (pos (c - 48))
digit_of _ = none

abbrev pub platform : Platform
platform = record {
  parse_url = parse_plain;
  ref_parameter = λ s. some (text "sha");
  decode_uri_component = λ s. some s;
  encode_uri_component = λ s. some s;
  to_lower_case = lower_text;
  decimal = λ n. (48 + n) ∷ [];
  integer = digit_of;
  byte_length = λ s. length s;
}

abbrev pub keeps_plain : KeepsPlain platform
unfolding starts_with
keeps_plain = record { keeps = λ path a d e. refl; decodes = λ s a. refl; lowers = refl }

abbrev pub url : Text
url =
    text
      " https://github.com/solana-foundation/solana-governance-proposals/blob/main/proposals/sgp-0001-constitution.md "

url_ok : (validate_proposal_url platform url).ok ≡ true
unfolding validate_proposal_url validate_parsed parse_proposal_url url_result github_result
    segments_of kind_result blob_result
url_ok = refl

pub no_dot :
    some_part
      (λ part. text_eq part (text "."))
      (split b'/' (without_slash (drop (length on_chain_prefix) (trim url))))
    ≡ false
unfolding split text_eq without_slash trim
no_dot = refl

validate_proposal_url-ok_iff_example :
    ((validate_proposal_url platform url).ok ≡ true)
    ↔ IsAccepted platform (trim url) (parse_proposal_url platform (trim url))
validate_proposal_url-ok_iff_example = validate_proposal_url-ok_iff platform url

validate_proposal_url-refines_example :
    is_valid_github_link (validate_proposal_url platform url).normalized ≡ true
validate_proposal_url-refines_example =
    validate_proposal_url-refines platform url keeps_plain url_ok no_dot

plain_body : behind_break (text "## Summary") ≡ none
unfolding behind_break
plain_body = refl

parse_proposal_markdown-written_example :
    parse_proposal_markdown (written true (number_text sgp (text "0001")) (text "## Summary")) none
    ≡ record {
      ref = some (make_proposal_ref (text "0001") sgp);
      summary = extract_summary (text "## Summary");
    }
parse_proposal_markdown-written_example =
    parse_proposal_markdown-written true sgp b'0' (text "001") (text "## Summary") none refl
      plain_body

abbrev ref : ProposalRef
ref = make_proposal_ref (text "0003") sgp

abbrev answer : ℕ → Response
answer status = record {
  status = status;
  rate_limit_remaining = none;
  retry_after = none;
  link = none;
  body = some (text "## Summary");
  json = some [];
}

abbrev fetch : ℕ → Fetch
fetch status requests target = some (answer status)

fetch_proposal_document-requests_example :
    length (fetch_proposal_document platform (fetch 200) 5 url []).1
    ≤ allowed (parse_proposal_url platform url) + 0
fetch_proposal_document-requests_example =
    fetch_proposal_document-requests platform (fetch 200) 5 url []

abbrev repo : GithubRepoRef
repo = record { owner = text "solana-foundation"; repo = text "solana-governance-proposals" }

list_pull_request_files-refused_example :
    ((◌≡◌ {A = ℕ} 429 404)
      × ((list_pull_request_files platform (fetch 429) repo 3 []).0 ≡ returned none))
    ⊎ ((e : GithubApiError) × ((list_pull_request_files platform (fetch 429) repo 3 []).0
          ≡ thrown (github_api_error e))
        × (e.status ≡ 429)
        × ((e.retryable ≡ true) ↔ (◌≢◌ {A = ℕ} 429 403 × ◌≢◌ {A = ℕ} 429 429)))
list_pull_request_files-refused_example =
    list_pull_request_files-refused platform (fetch 429) repo 3 [] (answer 429) refl refl
