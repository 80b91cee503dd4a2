-- ===== src/Github/Document/Failures.antt =====
-- What an answer of the GitHub API means (frontend/src/lib/github/fetchProposalDocument.ts).
use solana_governance.Common.{
  ℕ, ◌≡◌, ◌≢◌, ◌↔◌, ◌⊎◌, inl, inr, true, false, Option, none, some, ◌==◌, [], ◌∷◌, ◌++◌, arith, ap,
  ◌∙◌, Bool-cases,
}
use solana_governance.Github.Platform.{Platform}
use solana_governance.Github.FileName.{GithubRepoRef}
use solana_governance.Github.Document.{
  Page, missing, failed, page_answer, pages_loop, after_page, list_pull_request_files,
  pull_files_url,
}
use solana_governance.Github.Api.{
  Response, Fetch, RequestLog, GithubApiError, github_api_error, returned, thrown, is_ok,
  error_for_api_response,
}

-- the statuses that another attempt does not change
abbrev pub IsTerminal : ℕ → Type 0
IsTerminal status = (status ≡ 403) ⊎ (status ≡ 404) ⊎ (status ≡ 429)

retryable-not_terminal :
    (r : Response)
    → (error_for_api_response r).retryable ≡ true
    → (r.status ≢ 403) × (r.status ≢ 404) × (r.status ≢ 429)
unfolding error_for_api_response
retryable-not_terminal r h = ground arith

not_terminal-retryable :
    (r : Response)
    → r.status ≢ 403
    → r.status ≢ 404
    → r.status ≢ 429
    → (error_for_api_response r).retryable ≡ true
unfolding error_for_api_response
not_terminal-retryable r a b c = ground arith

module _ (platform : Platform) (fetch : Fetch) where
  page_missing :
      (r : Response) → r.status ≡ 404 → page_answer platform fetch true (some r) ≡ missing
  unfolding page_answer
  page_missing r h = ground arith

  page_failed :
      (r : Response)
      → r.status ≢ 404
      → is_ok r.status ≡ false
      → page_answer platform fetch true (some r)
        ≡ failed (github_api_error (error_for_api_response r))
  unfolding page_answer
  page_failed r h o = ground arith

  -- the first page decides, if it is missing or the call fails
  first_page_decides :
      (repo : GithubRepoRef) (n : ℕ) (requests : RequestLog) (answer : Option Response)
      (page : Page)
      → fetch requests (pull_files_url platform fetch repo n) ≡ answer
      → page_answer platform fetch true answer ≡ page
      → list_pull_request_files platform fetch repo n requests
        ≡ after_page
            (λ batch next.
              pages_loop platform fetch 2 false
                ([] ++ batch)
                next
                (pull_files_url platform fetch repo n ∷ requests))
            (pull_files_url platform fetch repo n ∷ requests)
            page
  unfolding list_pull_request_files pages_loop
  first_page_decides repo n requests answer page h e =
      let url = pull_files_url platform fetch repo n in
      ap
        (λ p.
          after_page
            (λ batch next. pages_loop platform fetch 2 false ([] ++ batch) next (url ∷ requests))
            (url ∷ requests) p)
        (ap (page_answer platform fetch true) h ∙ e)

  error_status : (r : Response) → (error_for_api_response r).status ≡ r.status
  unfolding error_for_api_response
  error_status r = ground arith

-- If the first answer about a pull request is not a success, the listing ends with it: a missing pull
-- request is told as such, and any other status is thrown, to be tried again exactly if it is neither
-- 403 nor 429.
pub list_pull_request_files-refused :
    (platform : Platform) (fetch : Fetch) (repo : GithubRepoRef) (n : ℕ) (requests : RequestLog)
    (r : Response)
    → fetch requests (pull_files_url platform fetch repo n) ≡ some r
    → is_ok r.status ≡ false
    → ((r.status ≡ 404)
        × ((list_pull_request_files platform fetch repo n requests).0 ≡ returned none))
      ⊎ ((e : GithubApiError) × ((list_pull_request_files platform fetch repo n requests).0
            ≡ thrown (github_api_error e))
          × (e.status ≡ r.status)
          × ((e.retryable ≡ true) ↔ ((r.status ≢ 403) × (r.status ≢ 429))))
list_pull_request_files-refused platform fetch repo n requests r h o =
    elim (Bool-cases (r.status == 404)) [
      | inl e ↦
          let is_missing : r.status ≡ 404 = ground arith in
          inl (
            is_missing,
            ap (λ p. p.0)
                (first_page_decides platform fetch repo n requests (some r) missing h
                  (page_missing platform fetch r is_missing)),
          )
      | inr e ↦
          let other : r.status ≢ 404 = ground arith in
          inr (
            error_for_api_response r,
            ap (λ p. p.0)
                (first_page_decides platform fetch repo n requests (some r) _ h
                  (page_failed platform fetch r other o)),
            error_status platform fetch r,
            (
              (λ t.
                  let not_terminal = retryable-not_terminal r t in
                  (not_terminal.0, not_terminal.2)),
              λ t. not_terminal-retryable r t.0 other t.1,
            ),
          )
    ]
