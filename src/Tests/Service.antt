-- ===== src/Tests/Service.antt =====
-- frontend/src/lib/ncnApi.ts at attempts of which the third is answered.
use solana_governance.Common.{
  ℕ, ◌+◌, ◌≤◌, ◌<◌, ◌≡◌, refl, false, Option, some, arith, ◌==◌, if◌then◌else◌,
}
use solana_governance.Ncn.{
  NcnApiResource, vote_account_proof, http_error, Answer, value, Response, refused, answered,
  Attempt, is_network_failure, classify_ncn_failure, is_network_failure, fetch_ncn_json_once,
  fetch_ncn_json, retry_loop,
}
use solana_governance.Common.Text.{Text, text, starts_with, is_space}
use solana_governance.Common.{[], ◌∷◌}
use solana_governance.Ncn.Lossless.{
  normalized, quote_integers, match_integer, key_length, integer_length,
}
use solana_governance.Ncn.Retries.{Retried, Settles, fetch_ncn_json-total, fetch_ncn_json-Settles}

abbrev response : ℕ → Response ℕ
response n = if n == 2 then answered (value 7) else refused 503

abbrev attempt : ℕ → Attempt ℕ
attempt n = record {
  response = response n;
  timed_out = false;
  aborted = false;
  aborted_wait = false;
}

abbrev proof : Option NcnApiResource
proof = some vote_account_proof

first-Retried : (j : ℕ) → j < 2 → Retried proof (attempt j)
unfolding fetch_ncn_json_once classify_ncn_failure is_network_failure
first-Retried j h = (http_error 503 proof, ground arith, refl, refl, refl)

fetch_ncn_json-total_example :
    (r : Answer ℕ × ℕ) × (fetch_ncn_json 3 proof attempt ≡ some r) × (0 < r.1) × (r.1 ≤ 3 + 1)
fetch_ncn_json-total_example = fetch_ncn_json-total 3 proof attempt

third-Settles : Settles proof 3 2 (attempt 2) (fetch_ncn_json_once proof (attempt 2))
unfolding fetch_ncn_json_once
third-Settles = tt

fetch_ncn_json-Settles_example :
    fetch_ncn_json 3 proof attempt ≡ some (fetch_ncn_json_once proof (attempt 2), 3)
fetch_ncn_json-Settles_example =
    fetch_ncn_json-Settles 3 proof attempt 2 (omega arith) first-Retried third-Settles

fetched : fetch_ncn_json 3 proof attempt ≡ some (value 7, 3)
unfolding fetch_ncn_json retry_loop fetch_ncn_json_once classify_ncn_failure is_network_failure
fetched = refl

abbrev body : Text
body = text "{\"stake\": 9007199254740993,\"epoch\":7}"

-- the stake is a text, the epoch a number
stake_in_quotes :
    normalized (text "stake" ∷ []) body ≡ text "{\"stake\": \"9007199254740993\",\"epoch\":7}"
unfolding normalized quote_integers match_integer key_length integer_length starts_with is_space
stake_in_quotes = refl
