-- ===== src/Github/Api.antt =====
-- frontend/src/lib/github/fetchProposalDocument.ts: what is read of an answer of GitHub. What `fetch`
-- answers may depend on the requests made so far, the newest first; an abort is a rejection.
use solana_governance.Common.{
  ℕ, Bool, true, false, not, ◌&&◌, ◌||◌, Option, none, some, List, [], ◌∷◌, leb, ◌==◌,
  if◌then◌else◌,
}
use solana_governance.Common.Text.{
  Text, text, text_eq, starts_with, is_empty, is_space, drop, drop_while, split,
}
use solana_governance.Github.PickFile.{PullRequestFile}

pub record GithubApiError : Type 0 where
  pub status : ℕ
  pub retryable : Bool

-- what a request meets; a body may fail to be read, and JSON that is no list counts as an empty one
pub record Response : Type 0 where
  pub status : ℕ
  pub rate_limit_remaining : Option Text
  pub retry_after : Option Text
  pub link : Option Text
  pub body : Option Text
  pub json : Option (List PullRequestFile)

pub data FetchError : Type 0 where
  github_api_error : GithubApiError → FetchError
  raw_error : (status : ℕ) → FetchError
  -- a rejected `fetch`, a body that cannot be read, or text that cannot be encoded
  other_error : FetchError

pub data Outcome {ℓ} (A : Type ℓ) : Type ℓ where
  returned : A → Outcome A
  thrown : FetchError → Outcome A

-- the requests made, the newest first
abbrev pub RequestLog : Type 0
RequestLog = List Text

abbrev pub Fetch : Type 0
Fetch = RequestLog → Text → Option Response

-- `response.ok`
abbrev pub is_ok : ℕ → Bool
is_ok status = leb 200 status && leb status 299

abbrev pub max_pull_file_pages : ℕ
max_pull_file_pages = 3

-- up to the next `>`, and what stands behind it
unfoldable pub span_link : Text → Option (Text × Text)
span_link [] = none
span_link (c ∷ s) =
    let rest = span_link s in
    if c == b'>'
    then some ([], s)
    else elim rest [ some spanned ↦ some (c ∷ spanned.0, spanned.1) | none ↦ none ]

-- `\s*;\s*rel="next"`
unfoldable pub is_next : Text → Bool
unfolding drop_while is_space starts_with
is_next s =
    let tail = drop_while is_space s in
    starts_with tail (text ";")
    && starts_with (drop_while is_space (drop 1 tail)) (text "rel=\"next\"")

abbrev pub checked_link : Option (Text × Text) → Option Text
checked_link none = none
checked_link (some (link, tail)) = if not (is_empty link) && is_next tail then some link else none

-- `/<([^>]+)>\s*;\s*rel="next"/` at the start
unfoldable pub next_link_at : Text → Option Text
unfolding span_link is_next
next_link_at [] = none
next_link_at (c ∷ s) = if c == b'<' then checked_link (span_link s) else none

abbrev pub first_of {ℓ} : {A : Type ℓ} → Option A → Option A → Option A
first_of none other = other
first_of (some a) other = some a

-- the same anywhere
unfoldable pub next_link : Text → Option Text
unfolding next_link_at
next_link [] = none
next_link (c ∷ s) = first_of (next_link_at (c ∷ s)) (next_link s)

unfoldable pub next_of_parts : List Text → Option Text
unfolding next_link
next_of_parts [] = none
next_of_parts (part ∷ parts) = first_of (next_link part) (next_of_parts parts)

unfoldable pub next_page_url : Option Text → Option Text
unfolding split next_of_parts
next_page_url none = none
next_page_url (some link_header) =
    if is_empty link_header then none else next_of_parts (split b',' link_header)

abbrev pub is_text : Option Text → Text → Bool
is_text none s = false
is_text (some t) s = text_eq t s

-- the truth value of a header
abbrev pub is_given : Option Text → Bool
is_given none = false
is_given (some s) = not (is_empty s)

unfoldable pub error_for_api_response : Response → GithubApiError
unfolding text_eq
error_for_api_response r =
    if r.status == 429 || (r.status == 403 && is_text r.rate_limit_remaining (text "0"))
    then record { status = r.status; retryable = false }
    else if r.status == 403 && is_given r.retry_after
    then record { status = r.status; retryable = false }
    else if r.status == 403 || r.status == 404
    then record { status = r.status; retryable = false }
    else record { status = r.status; retryable = true }
