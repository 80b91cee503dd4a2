-- ===== src/Github/Document/Requests.antt =====
-- How many requests a document costs (frontend/src/lib/github/fetchProposalDocument.ts).
use solana_governance.Common.{
  ℕ, zero, suc, ◌+◌, ◌≤◌, Bool, true, false, Option, none, some, List, [], ◌∷◌, ◌++◌, length, arith,
}
use solana_governance.Common.Text.{Text}
use solana_governance.Github.Platform.{Platform}
use solana_governance.Github.FileName.{GithubRepoRef, ProposalRef}
use solana_governance.Github.Url.{ParsedProposalUrl, blob, pull, unsupported, parse_proposal_url}
use solana_governance.Github.PickFile.{
  PullRequestFile, PickProposalFileResult, picked, nothing, ambiguous,
}
use solana_governance.Github.Document.{
  Page, missing, failed, read, Files, after_page, page_answer, pages_loop, pull_files_url,
  list_pull_request_files, fetch_document, fetch_picked, fetch_listed, fetch_parsed,
  fetch_proposal_document,
}
use solana_governance.Github.Api.{RequestLog, Fetch, Outcome, returned, thrown}

-- the requests that a URL may cost: none, the file, or three pages and the file
abbrev pub allowed : ParsedProposalUrl → ℕ
allowed (unsupported code) = 0
allowed (blob repo git_ref path file_name ref) = 1
allowed (pull repo pull_number) = 4

after_page-requests :
    (next_rounds : List PullRequestFile → Option Text → Files) (requests : RequestLog) (page : Page)
    (n : ℕ)
    → length requests ≤ n
    → ((batch : List PullRequestFile) (next : Option Text) → length (next_rounds batch next).1 ≤ n)
    → length (after_page next_rounds requests page).1 ≤ n
after_page-requests next_rounds requests missing n h k = h
after_page-requests next_rounds requests (failed e) n h k = h
after_page-requests next_rounds requests (read batch next) n h k = k batch next

module _ (platform : Platform) (fetch : Fetch) where
  pages_loop-requests :
      (left : ℕ) (first : Bool) (files : List PullRequestFile) (next : Option Text)
      (requests : RequestLog)
      → length (pages_loop platform fetch left first files next requests).1 ≤ left + length requests
  unfolding pages_loop
  pages_loop-requests left first files none requests = omega arith
  pages_loop-requests zero first files (some url) requests = omega arith
  pages_loop-requests (suc left) first files (some url) requests =
      after_page-requests _ _ (page_answer platform fetch first (fetch requests url))
        (suc left + length requests) (omega arith)
        λ batch next.
          omega (arith, pages_loop-requests left false (files ++ batch) next (url ∷ requests))

  module _ (now : ℕ) where
    fetch_document-requests :
        (ref : Option ProposalRef) (url : Option Text) (requests : RequestLog)
        → length (fetch_document platform fetch now ref url requests).1 ≤ 1 + length requests
    unfolding fetch_document
    fetch_document-requests ref none requests = omega arith
    fetch_document-requests ref (some url) requests = omega arith

    fetch_picked-requests :
        (repo : GithubRepoRef) (result : PickProposalFileResult) (requests : RequestLog)
        → length (fetch_picked platform fetch now repo result requests).1 ≤ 1 + length requests
    unfolding fetch_picked
    fetch_picked-requests repo nothing requests = omega arith
    fetch_picked-requests repo (ambiguous paths) requests = omega arith
    fetch_picked-requests repo (picked file) requests = fetch_document-requests file.ref _ requests

    fetch_listed-requests :
        (repo : GithubRepoRef) (files : Outcome (Option (List PullRequestFile)))
        (requests : RequestLog)
        → length (fetch_listed platform fetch now repo files requests).1 ≤ 1 + length requests
    unfolding fetch_listed
    fetch_listed-requests repo (thrown e) requests = omega arith
    fetch_listed-requests repo (returned none) requests = omega arith
    fetch_listed-requests repo (returned (some files)) requests =
        fetch_picked-requests repo _ requests

    fetch_parsed-requests :
        (parsed : ParsedProposalUrl) (requests : RequestLog)
        → length (fetch_parsed platform fetch now parsed requests).1
          ≤ allowed parsed + length requests
    unfolding fetch_parsed list_pull_request_files
    fetch_parsed-requests (unsupported code) requests = omega arith
    fetch_parsed-requests (blob repo git_ref path file_name ref) requests =
        fetch_document-requests ref _ requests
    fetch_parsed-requests (pull repo pull_number) requests =
        let url = some (pull_files_url platform fetch repo pull_number) in
        let listed = pages_loop platform fetch 3 true [] url requests in
        omega (
          arith,
          pages_loop-requests 3 true [] url requests,
          fetch_listed-requests repo listed.0 listed.1,
        )

-- A document costs no request if its URL is not supported, at most one if the URL is that of a file,
-- and at most four if it is that of a pull request, whatever GitHub answers.
pub fetch_proposal_document-requests :
    (platform : Platform) (fetch : Fetch) (now : ℕ) (url : Text) (requests : RequestLog)
    → length (fetch_proposal_document platform fetch now url requests).1
      ≤ allowed (parse_proposal_url platform url) + length requests
unfolding fetch_proposal_document
fetch_proposal_document-requests platform fetch now url requests =
    fetch_parsed-requests platform fetch now (parse_proposal_url platform url) requests
