-- ===== src/Ncn/Retries.antt =====
-- The retries of frontend/src/lib/ncnApi.ts.
use solana_governance.Common.{
  ℕ, zero, suc, ◌+◌, ◌≡◌, ◌≤◌, ◌<◌, refl, ◌⊎◌, inl, inr, true, false, Option, some, arith,
  Bool-cases, ==_iff, ◌==◌, sym, ap, ◌∙◌, not, ◌&&◌, ◌||◌, ltb,
}
use mathlib.Core.Path.{subst}
use solana_governance.Ncn.{
  other_error, ErrorValue, classify_ncn_failure, is_transient, Attempt, Answer, value, thrown,
  fetch_ncn_json_once, NcnApiResource, retry_loop, fetch_ncn_json,
}

module _ {T : Type 0} (resource : Option NcnApiResource) where
  -- the attempt fails in a way that is retried, and nothing aborts it or the wait
  abbrev pub Retried : Attempt T → Type 0
  Retried a =
      (error : ErrorValue) × (fetch_ncn_json_once resource a ≡ thrown error)
      × (is_transient (classify_ncn_failure error) ≡ true)
      × (a.aborted ≡ false)
      × (a.aborted_wait ≡ false)

  -- the outcome of an attempt is final: a value, an error that is not retried, or an abort
  abbrev pub Settles : ℕ → ℕ → Attempt T → Answer T → Type 0
  Settles max_retries retry_number a (value v) = Unit
  Settles max_retries retry_number a (thrown error) =
      (is_transient (classify_ncn_failure error) ≡ false)
      ⊎ (max_retries ≤ retry_number)
      ⊎ (a.aborted ≡ true)

  Answer-cases :
      (a : Answer T) → ((v : T) × (a ≡ value v)) ⊎ ((error : ErrorValue) × (a ≡ thrown error))
  Answer-cases (value v) = inl (v, refl)
  Answer-cases (thrown error) = inr (error, refl)

  module _ (max_retries : ℕ) (attempt : ℕ → Attempt T) where
    -- one round: a retried failure goes on, and any other outcome is final
    retry_loop_again :
        (fuel n : ℕ)
        → n < max_retries
        → Retried (attempt n)
        → retry_loop (suc fuel) max_retries resource attempt n
          ≡ retry_loop fuel max_retries resource attempt (n + 1)
    unfolding retry_loop
    retry_loop_again fuel n l r = ground arith

    retry_loop_ends :
        (fuel n : ℕ)
        → Settles max_retries n (attempt n) (fetch_ncn_json_once resource (attempt n))
        → retry_loop (suc fuel) max_retries resource attempt n
          ≡ some (fetch_ncn_json_once resource (attempt n), suc n)
    unfolding retry_loop
    retry_loop_ends fuel n s = elim (Answer-cases (fetch_ncn_json_once resource (attempt n))) [
      | inl (v, e) ↦ ground arith
      | inr (x, e) ↦ let s' = subst (Settles max_retries n (attempt n)) e s in ground arith
    ]

    -- a round that is not the last was retried
    round :
        (fuel n : ℕ)
        → ((r : Answer T × ℕ) × (retry_loop (suc fuel) max_retries resource attempt n ≡ some r)
            × (r.1 ≡ suc n)
            × ((v : T) → r.0 ≡ value v → fetch_ncn_json_once resource (attempt n) ≡ value v))
          ⊎ ((n < max_retries) × Retried (attempt n))
    unfolding retry_loop
    round fuel n = elim (Answer-cases (fetch_ncn_json_once resource (attempt n))) [
      | inl (v, e) ↦ inl ((value v, suc n), ground arith, refl, λ w h. ground arith)
      | inr (x, e) ↦
          elim (Bool-cases (
            not (ltb n max_retries && is_transient (classify_ncn_failure x))
            || (attempt n).aborted)) [
              | inl stop ↦ inl ((thrown x, suc n), ground arith, refl, λ w h. absurd (cc))
              | inr go ↦ elim (Bool-cases (attempt n).aborted_wait) [
                | inl w ↦ inl ((thrown other_error, suc n), ground arith, refl, λ w h. absurd (cc))
                | inr w ↦ inr (ground arith, (x, e, ground arith, ground arith, w))
              ]
            ]
    ]

  retry_loop-total :
      (fuel max_retries : ℕ) (attempt : ℕ → Attempt T) (n : ℕ)
      → n ≤ max_retries
      → max_retries < n + fuel
      → (r : Answer T × ℕ) × (retry_loop fuel max_retries resource attempt n ≡ some r)
        × (n < r.1)
        × (r.1 ≤ max_retries + 1)
  unfolding retry_loop
  retry_loop-total zero max_retries attempt n h k = absurd (omega arith)
  retry_loop-total (suc fuel) max_retries attempt n h k = elim (round max_retries attempt fuel n) [
    | inl (r, e, last, v) ↦ (r, e, omega arith, omega arith)
    | inr (l, retried) ↦
        let later = retry_loop-total fuel max_retries attempt (n + 1) (omega arith) (omega arith) in
        (
          later.0,
          retry_loop_again max_retries attempt fuel n l retried ∙ later.1,
          omega arith,
          later.3,
        )
  ]

  retry_loop-Settles :
      (fuel max_retries : ℕ) (attempt : ℕ → Attempt T) (n k : ℕ)
      → n ≤ k
      → k ≤ max_retries
      → k < n + fuel
      → ((j : ℕ) → n ≤ j → j < k → Retried (attempt j))
      → Settles max_retries k (attempt k) (fetch_ncn_json_once resource (attempt k))
      → retry_loop fuel max_retries resource attempt n
        ≡ some (fetch_ncn_json_once resource (attempt k), suc k)
  unfolding retry_loop
  retry_loop-Settles zero max_retries attempt n k h l f r s = absurd (omega arith)
  retry_loop-Settles (suc fuel) max_retries attempt n k h l f r s = elim (Bool-cases (n == k)) [
    | inl here ↦
        subst
          (λ i.
            Settles max_retries i (attempt i) (fetch_ncn_json_once resource (attempt i))
            → retry_loop (suc fuel) max_retries resource attempt n
              ≡ some (fetch_ncn_json_once resource (attempt i), suc i))
          ((==_iff n k).0 here) (retry_loop_ends max_retries attempt fuel n) s
    | inr later ↦
        retry_loop_again max_retries attempt fuel n (ground arith)
          (r n (ground arith) (ground arith))
        ∙ retry_loop-Settles fuel max_retries attempt (n + 1) k (ground arith) l (ground arith)
            (λ j p q. r j (omega arith) q) s
  ]

  retry_loop-value :
      (fuel max_retries : ℕ) (attempt : ℕ → Attempt T) (n k : ℕ) (v : T)
      → retry_loop fuel max_retries resource attempt n ≡ some (value v, suc k)
      → (n ≤ k)
        × (fetch_ncn_json_once resource (attempt k) ≡ value v)
        × ((j : ℕ) → n ≤ j → j < k → Retried (attempt j))
  unfolding retry_loop
  retry_loop-value zero max_retries attempt n k v h = cc
  retry_loop-value (suc fuel) max_retries attempt n k v h =
      elim (round max_retries attempt fuel n) [
        | inl (r, e, last, w) ↦
            let pair : ◌≡◌ {A = Answer T × ℕ} r (value v, suc k) = ground arith in
            let same : n ≡ k = omega (arith, last, ap (λ (p : Answer T × ℕ). p.1) pair) in
            (
              omega arith,
              subst (λ i. fetch_ncn_json_once resource (attempt i) ≡ value v) same
                  (w v (ap (λ (p : Answer T × ℕ). p.0) pair)),
              λ j p q. absurd (omega arith),
            )
        | inr (l, retried) ↦
            let later =
              retry_loop-value fuel max_retries attempt (n + 1) k v
                (sym (retry_loop_again max_retries attempt fuel n l retried) ∙ h) in
            (
              omega arith,
              later.1,
              λ j p q. elim (Bool-cases (j == n)) [
                | inl here ↦ subst (λ i. Retried (attempt i)) (sym ((==_iff j n).0 here)) retried
                | inr after ↦ later.2 j (ground arith) q
              ],
            )
      ]

-- A fetch ends, after at least one attempt and at most one more than the retries allowed.
pub fetch_ncn_json-total :
    {T : Type 0} (max_retries : ℕ) (resource : Option NcnApiResource) (attempt : ℕ → Attempt T)
    → (r : Answer T × ℕ) × (fetch_ncn_json max_retries resource attempt ≡ some r)
      × (0 < r.1)
      × (r.1 ≤ max_retries + 1)
unfolding fetch_ncn_json
fetch_ncn_json-total max_retries resource attempt =
    retry_loop-total resource (suc max_retries) max_retries attempt 0 (omega arith) (omega arith)

-- If the first `k` attempts fail in a way that is retried, with no abort, and the next one is a value,
-- an error that is not retried, an error with no retry left, or an aborted one, then its outcome is
-- the result, after `k + 1` attempts.
pub fetch_ncn_json-Settles :
    {T : Type 0} (max_retries : ℕ) (resource : Option NcnApiResource) (attempt : ℕ → Attempt T)
    (k : ℕ)
    → k ≤ max_retries
    → ((j : ℕ) → j < k → Retried resource (attempt j))
    → Settles resource max_retries k (attempt k) (fetch_ncn_json_once resource (attempt k))
    → fetch_ncn_json max_retries resource attempt
      ≡ some (fetch_ncn_json_once resource (attempt k), suc k)
unfolding fetch_ncn_json
fetch_ncn_json-Settles max_retries resource attempt k h r s =
    retry_loop-Settles resource (suc max_retries) max_retries attempt 0 k (omega arith) h
      (omega arith) (λ j p q. r j q) s

-- A value is the one of the last attempt, and every attempt before it failed in a way that is retried,
-- with no abort.
pub fetch_ncn_json-value :
    {T : Type 0} (max_retries : ℕ) (resource : Option NcnApiResource) (attempt : ℕ → Attempt T)
    (k : ℕ) (v : T)
    → fetch_ncn_json max_retries resource attempt ≡ some (value v, suc k)
    → (fetch_ncn_json_once resource (attempt k) ≡ value v)
      × ((j : ℕ) → j < k → Retried resource (attempt j))
unfolding fetch_ncn_json
fetch_ncn_json-value max_retries resource attempt k v h =
    let found = retry_loop-value resource (suc max_retries) max_retries attempt 0 k v h in
    (found.1, λ j p. found.2 j (omega arith) p)
