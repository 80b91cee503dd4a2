-- ===== src/Ncn/Failures.antt =====
-- The kinds of failure of frontend/src/lib/ncnApi.ts.
use solana_governance.Common.{
  ℕ, ◌≡◌, ◌≤◌, ◌<◌, ◌↔◌, refl, ◌⊎◌, inl, inr, true, false, Option, arith,
}
use solana_governance.Ncn.{
  ErrorValue, http_error, network_error, type_error, other_error, is_network_failure,
  classify_ncn_failure, is_permanent_ncn_failure, is_ncn_proof_not_found, is_transient,
  is_upstream_status, NcnApiResource,
}

-- An error is permanent exactly if it is an answer with a status below 500 other than 403, 408 and
-- 429, and transient exactly if it is a network failure or an answer with another status; a proof
-- that is not found is permanent.
pub classify_ncn_failure-split :
    (error : ErrorValue)
    → ((is_permanent_ncn_failure error ≡ true) ↔ (
        (status : ℕ) × (resource : Option NcnApiResource) × (error ≡ http_error status resource)
        × (status < 500)
        × (is_upstream_status status ≡ false)))
      × ((is_transient (classify_ncn_failure error) ≡ true) ↔ (
          (is_network_failure error ≡ true)
          ⊎ ((status : ℕ) × (resource : Option NcnApiResource) × (error
                ≡ http_error status resource)
              × ((500 ≤ status) ⊎ (is_upstream_status status ≡ true)))))
      × ((is_ncn_proof_not_found error ≡ false) ⊎ (is_permanent_ncn_failure error ≡ true))
unfolding classify_ncn_failure is_permanent_ncn_failure is_ncn_proof_not_found is_network_failure
classify_ncn_failure-split (http_error status resource) = (
  (λ h. (status, resource, refl, ground arith, ground arith), λ h. ground arith),
  (λ h. inr (status, resource, refl, ground arith), λ h. ground arith),
  ground arith,
)
classify_ncn_failure-split network_error =
    ((λ h. absurd (cc), λ h. absurd (cc)), (λ h. inl refl, λ h. refl), inl refl)
classify_ncn_failure-split (type_error message) = (
  (λ h. absurd (ground arith), λ h. absurd (ground arith)),
  (λ h. inl (ground arith), λ h. ground arith),
  inl refl,
)
classify_ncn_failure-split other_error =
    ((λ h. absurd (cc), λ h. absurd (cc)), (λ h. absurd (cc), λ h. absurd (ground arith)), inl refl)
