-- ===== src/Github/Document.antt =====
-- frontend/src/lib/github/fetchProposalDocument.ts. What `fetch` answers may depend on the requests made
-- so far, the newest first; an abort is a rejection. Messages are left out.
use solana_governance.Common.{
  ℕ, zero, suc, ◌+◌, Bool, true, false, not, ◌&&◌, ◌||◌, Option, none, some, List, [], ◌∷◌, ◌++◌,
  leb, ◌==◌, if◌then◌else◌,
}
use solana_governance.Common.Text.{
  Text, text, text_eq, starts_with, is_empty, is_space, drop, drop_while, split,
}
use solana_governance.Github.Platform.{Platform}
use solana_governance.Github.FileName.{GithubRepoRef, ProposalRef, resolve_repo_config}
use solana_governance.Github.Url.{
  ParsedProposalUrl, blob, pull, unsupported, parse_proposal_url, raw_content_url,
}
use solana_governance.Github.PickFile.{
  PullRequestFile, PickedProposalFile, PickProposalFileResult, picked, nothing, ambiguous,
  not_blank, pick_proposal_file,
}
use solana_governance.Github.Markdown.{ParsedProposalMarkdown, parse_proposal_markdown}
use solana_governance.Github.Api.{
  Fetch, FetchError, GithubApiError, Outcome, RequestLog, Response, checked_link,
  error_for_api_response, first_of, github_api_error, is_given, is_next, is_ok, is_text,
  max_pull_file_pages, next_link, next_link_at, next_of_parts, next_page_url, other_error,
  raw_error, returned, span_link, thrown,
}
pub mod Requests
pub mod Failures

pub record ProposalDocument : Type 0 where
  pub ref : Option ProposalRef
  pub summary : Text
  pub source_url : Text
  pub fetched_at : ℕ

pub data ProposalDocumentResult : Type 0 where
  found : ProposalDocument → ProposalDocumentResult
  unsupported_url : ProposalDocumentResult

-- a page of files: the pull request is missing, the call throws, or the files and the next URL are known
pub data Page : Type 0 where
  missing : Page
  failed : FetchError → Page
  read : List PullRequestFile → Option Text → Page

abbrev pub Files : Type 0
Files = Outcome (Option (List PullRequestFile)) × RequestLog

-- a round of the loop, from the page and the rounds behind it
abbrev pub after_page : (List PullRequestFile → Option Text → Files) → RequestLog → Page → Files
after_page next_rounds requests missing = (returned none, requests)
after_page next_rounds requests (failed e) = (thrown e, requests)
after_page next_rounds requests (read batch next) = next_rounds batch next

module _ (platform : Platform) (fetch : Fetch) where
  abbrev pub text_of : Option Text → Outcome (Option Text)
  text_of none = thrown other_error
  text_of (some s) = returned (some s)

  unfoldable pub raw_answer : Option Response → Outcome (Option Text)
  raw_answer none = thrown other_error
  raw_answer (some r) =
      if r.status == 404
      then returned none
      else if not (is_ok r.status)
      then thrown (raw_error r.status)
      else text_of r.body

  unfoldable pub fetch_raw_markdown : Text → RequestLog → Outcome (Option Text) × RequestLog
  unfolding raw_answer
  fetch_raw_markdown source_url requests =
      (raw_answer (fetch requests source_url), source_url ∷ requests)

  abbrev pub batch_of : Response → Option (List PullRequestFile) → Page
  batch_of r none = failed other_error
  batch_of r (some batch) = read batch (next_page_url r.link)

  unfoldable pub page_answer : Bool → Option Response → Page
  unfolding error_for_api_response next_page_url
  page_answer first none = failed other_error
  page_answer first (some r) =
      if r.status == 404 && first
      then missing
      else if not (is_ok r.status)
      then failed (github_api_error (error_for_api_response r))
      else batch_of r r.json

  -- the loop over the pages that are left
  unfoldable pub pages_loop : ℕ → Bool → List PullRequestFile → Option Text → RequestLog → Files
  unfolding page_answer
  pages_loop left first files none requests = (returned (some files), requests)
  pages_loop zero first files (some url) requests = (returned (some files), requests)
  pages_loop (suc left) first files (some url) requests =
      after_page (λ batch next. pages_loop left false (files ++ batch) next (url ∷ requests))
        (url ∷ requests) (page_answer first (fetch requests url))

  abbrev pub pull_files_url : GithubRepoRef → ℕ → Text
  pull_files_url repo pull_number =
      text "https://api.github.com/repos/"
      ++ (repo.owner
          ++ (b'/'
              ∷ (repo.repo
                  ++ (text "/pulls/"
                      ++ (platform.decimal pull_number ++ text "/files?per_page=100")))))

  unfoldable pub list_pull_request_files : GithubRepoRef → ℕ → RequestLog → Files
  unfolding pages_loop
  list_pull_request_files repo pull_number requests =
      pages_loop max_pull_file_pages true [] (some (pull_files_url repo pull_number)) requests

  module _ (now : ℕ) where
    abbrev pub build_document : Option ProposalRef → Text → Text → ProposalDocumentResult
    build_document fallback_ref source_url s =
        let parsed = parse_proposal_markdown s fallback_ref in
        found (record {
          ref = parsed.ref;
          summary = parsed.summary;
          source_url = source_url;
          fetched_at = now;
        })

    -- a missing file is no document
    unfoldable pub document_of :
        Option ProposalRef → Text → Outcome (Option Text) → Outcome ProposalDocumentResult
    document_of ref source_url (thrown e) = thrown e
    document_of ref source_url (returned none) = returned unsupported_url
    document_of ref source_url (returned (some s)) = returned (build_document ref source_url s)

    unfoldable pub fetch_document :
        Option ProposalRef → Option Text → RequestLog → Outcome ProposalDocumentResult × RequestLog
    unfolding fetch_raw_markdown document_of
    fetch_document ref none requests = (thrown other_error, requests)
    fetch_document ref (some source_url) requests =
        let answer = fetch_raw_markdown source_url requests in
        (document_of ref source_url answer.0, answer.1)

    unfoldable pub fetch_picked :
        GithubRepoRef
        → PickProposalFileResult
        → RequestLog
        → Outcome ProposalDocumentResult × RequestLog
    unfolding fetch_document raw_content_url
    fetch_picked repo nothing requests = (returned unsupported_url, requests)
    fetch_picked repo (ambiguous paths) requests = (returned unsupported_url, requests)
    fetch_picked repo (picked file) requests =
        fetch_document file.ref (raw_content_url platform repo file.head_sha file.path) requests

    unfoldable pub fetch_listed :
        GithubRepoRef
        → Outcome (Option (List PullRequestFile))
        → RequestLog
        → Outcome ProposalDocumentResult × RequestLog
    unfolding fetch_picked pick_proposal_file resolve_repo_config
    fetch_listed repo (thrown e) requests = (thrown e, requests)
    fetch_listed repo (returned none) requests = (returned unsupported_url, requests)
    fetch_listed repo (returned (some files)) requests =
        fetch_picked repo (pick_proposal_file platform files (resolve_repo_config platform repo))
          requests

    unfoldable pub fetch_parsed :
        ParsedProposalUrl → RequestLog → Outcome ProposalDocumentResult × RequestLog
    unfolding fetch_document fetch_listed list_pull_request_files raw_content_url
    fetch_parsed (unsupported code) requests = (returned unsupported_url, requests)
    fetch_parsed (blob repo git_ref path file_name ref) requests =
        fetch_document ref (raw_content_url platform repo git_ref path) requests
    fetch_parsed (pull repo pull_number) requests =
        let listed = list_pull_request_files repo pull_number requests in
        fetch_listed repo listed.0 listed.1

    unfoldable pub fetch_proposal_document :
        Text → RequestLog → Outcome ProposalDocumentResult × RequestLog
    unfolding fetch_parsed parse_proposal_url
    fetch_proposal_document url requests = fetch_parsed (parse_proposal_url platform url) requests
