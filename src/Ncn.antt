-- ===== src/Ncn.antt =====
-- frontend/src/lib/ncnApi.ts: the client of the verifier service: what went wrong, and when to retry.
-- An error is what the code can tell of it; messages and hosts are left out. What `fetch`, the timer
-- and the caller's signal do in each attempt is the argument.
use solana_governance.Common.{
  ℕ, zero, suc, ◌+◌, ◌*◌, ◌^◌, Bool, true, false, not, ◌&&◌, ◌||◌, Option, none, some, List, [],
  ◌∷◌, ltb, leb, ◌==◌, min, if◌then◌else◌,
}
use solana_governance.Common.Text.{Text, text, includes, lower_text}
pub mod Failures
pub mod Retries
pub mod Lossless

pub data NcnApiResource : Type 0 where
  snapshot_meta voter_summary vote_account_proof stake_account_proof : NcnApiResource

-- `NcnApiHttpError`, `NcnApiNetworkError`, a `TypeError` with its message, and any other value
pub data ErrorValue : Type 0 where
  http_error : (status : ℕ) → Option NcnApiResource → ErrorValue
  network_error : ErrorValue
  type_error : Text → ErrorValue
  other_error : ErrorValue

pub data NcnFailureKind : Type 0 where
  network upstream request : NcnFailureKind

abbrev pub contains_any : Text → List Text → Bool
contains_any s [] = false
contains_any s (p ∷ ps) = includes s p || contains_any s ps

abbrev pub failure_messages : List Text
failure_messages =
    text "load failed"
    ∷ text "failed to fetch"
    ∷ text "fetch failed"
    ∷ text "networkerror"
    ∷ text "network request failed"
    ∷ []

unfoldable pub is_network_failure : ErrorValue → Bool
is_network_failure network_error = true
is_network_failure (type_error message) = contains_any (lower_text message) failure_messages
is_network_failure _ = false

-- the statuses below 500 of `UPSTREAM_STATUSES`
abbrev pub is_upstream_status : ℕ → Bool
is_upstream_status status = status == 403 || status == 408 || status == 429

abbrev pub classify_status : ErrorValue → Option NcnFailureKind
classify_status (http_error status resource) =
    if leb 500 status || is_upstream_status status then some upstream else some request
classify_status _ = none

unfoldable pub classify_ncn_failure : ErrorValue → Option NcnFailureKind
classify_ncn_failure error =
    if is_network_failure error then some network else classify_status error

abbrev pub is_request : Option NcnFailureKind → Bool
is_request (some request) = true
is_request _ = false

-- `network` or `upstream`
abbrev pub is_transient : Option NcnFailureKind → Bool
is_transient (some network) = true
is_transient (some upstream) = true
is_transient _ = false

unfoldable pub is_permanent_ncn_failure : ErrorValue → Bool
unfolding classify_ncn_failure
is_permanent_ncn_failure error = is_request (classify_ncn_failure error)

abbrev pub is_proof_resource : Option NcnApiResource → Bool
is_proof_resource (some vote_account_proof) = true
is_proof_resource (some stake_account_proof) = true
is_proof_resource _ = false

unfoldable pub is_ncn_proof_not_found : ErrorValue → Bool
is_ncn_proof_not_found (http_error status resource) = status == 404 && is_proof_resource resource
is_ncn_proof_not_found _ = false

pub data Answer {ℓ} (T : Type ℓ) : Type ℓ where
  value : T → Answer T
  thrown : ErrorValue → Answer T

-- what an attempt meets: a rejected `fetch`, a status that is not ok, or a body that is read and
-- parsed, or fails to be
pub data Response {ℓ} (T : Type ℓ) : Type ℓ where
  rejected : ErrorValue → Response T
  refused : (status : ℕ) → Response T
  answered : Answer T → Response T

pub record Attempt {ℓ} (T : Type ℓ) : Type ℓ where
  pub response : Response T
  -- whether the attempt's own timer has fired when it fails
  pub timed_out : Bool
  -- whether the caller's signal is aborted when it fails, and when the wait after it ends
  pub aborted : Bool
  pub aborted_wait : Bool

module _ {ℓ} {T : Type ℓ} where
  -- the body of the `try`
  abbrev pub tried : Option NcnApiResource → Response T → Answer T
  tried resource (rejected error) = thrown error
  tried resource (refused status) = thrown (http_error status resource)
  tried resource (answered answer) = answer

  -- the `catch`
  abbrev pub named : Attempt T → Answer T → Answer T
  named a (value v) = value v
  named a (thrown error) =
      if a.aborted
      then thrown error
      else if a.timed_out
      then thrown network_error
      else if is_network_failure error
      then thrown network_error
      else thrown error

  unfoldable pub fetch_ncn_json_once : Option NcnApiResource → Attempt T → Answer T
  unfolding is_network_failure
  fetch_ncn_json_once resource a = named a (tried resource a.response)

  -- The loop, with the answer and the number of attempts made; it has one round more than the retries
  -- allow. An abort during the wait throws the abort error.
  unfoldable pub retry_loop :
      ℕ → ℕ → Option NcnApiResource → (ℕ → Attempt T) → ℕ → Option (Answer T × ℕ)
  retry_loop zero max_retries resource attempt retry_number = none
  retry_loop (suc fuel) max_retries resource attempt retry_number =
      let next = retry_loop fuel max_retries resource attempt (retry_number + 1) in
      let a = attempt retry_number in
      elim (fetch_ncn_json_once resource a) [
        | value v ↦ some (value v, retry_number + 1)
        | thrown error ↦
            if not (ltb retry_number max_retries && is_transient (classify_ncn_failure error))
              || a.aborted
            then some (thrown error, retry_number + 1)
            else if a.aborted_wait
            then some (thrown other_error, retry_number + 1)
            else next
      ]

  unfoldable pub fetch_ncn_json :
      ℕ → Option NcnApiResource → (ℕ → Attempt T) → Option (Answer T × ℕ)
  unfolding retry_loop
  fetch_ncn_json max_retries resource attempt =
      retry_loop (suc max_retries) max_retries resource attempt 0

abbrev pub default_max_retries : ℕ
default_max_retries = 3

abbrev pub max_retry_delay_ms : ℕ
max_retry_delay_ms = 8000

abbrev pub retry_jitter_ms : ℕ
retry_jitter_ms = 250

-- without the random part, which is at least 0 and less than `retry_jitter_ms`
unfoldable pub base_retry_delay_ms : ℕ → ℕ
base_retry_delay_ms retry_number = min (1000 * 2 ^ retry_number) max_retry_delay_ms
