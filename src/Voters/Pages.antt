-- ===== src/Voters/Pages.antt =====
-- The pages of frontend/src/components/TopVoters.tsx show all rows.
use native.Mathlib.Nat.{mod-lt, div-add-mod'}
use solana_governance.Common.{
  ℕ, zero, suc, ◌+◌, ◌-◌, ◌*◌, ◌/◌, ◌≤◌, ◌≡◌, refl, sym, ap, ◌∙◌, List, [], ◌∷◌, ◌++◌, length,
  arith,
}
use solana_governance.Voters.{slice_from, slice_to, page_rows, total_pages}

module _ {A : Type 0} where
  -- pages `first + 1` to `first + count`, one behind the other
  abbrev pub pages : (items_per_page first count : ℕ) → List A → List A
  pages n first zero xs = []
  pages n first (suc count) xs = page_rows n (suc first) xs ++ pages n (suc first) count xs

  slice_from_nil : (n : ℕ) → slice_from {A = A} n [] ≡ []
  slice_from_nil zero = refl
  slice_from_nil (suc n) = refl

  slice_to_nil : (n : ℕ) → slice_to {A = A} n [] ≡ []
  slice_to_nil zero = refl
  slice_to_nil (suc n) = refl

  slice_from-more : (m n : ℕ) (xs : List A) → slice_from n (slice_from m xs) ≡ slice_from (m + n) xs
  slice_from-more zero n xs = let same : n ≡ 0 + n = omega arith in ap (λ k. slice_from k xs) same
  slice_from-more (suc m) n [] = slice_from_nil n ∙ sym (slice_from_nil (suc m + n))
  slice_from-more (suc m) n (x ∷ xs) =
      let moved : suc m + n ≡ suc (m + n) = omega arith in rw moved (slice_from-more m n xs)

  slice_to-append :
      (m n : ℕ) (xs : List A) → slice_to m xs ++ slice_to n (slice_from m xs) ≡ slice_to (m + n) xs
  slice_to-append zero n xs = let same : n ≡ 0 + n = omega arith in ap (λ k. slice_to k xs) same
  slice_to-append (suc m) n [] = slice_to_nil n ∙ sym (slice_to_nil (suc m + n))
  slice_to-append (suc m) n (x ∷ xs) =
      let moved : suc m + n ≡ suc (m + n) = omega arith in
      rw moved (ap (λ ys. x ∷ ys) (slice_to-append m n xs))

  slice_to-all : (m : ℕ) (xs : List A) → length xs ≤ m → slice_to m xs ≡ xs
  slice_to-all zero [] h = refl
  slice_to-all zero (x ∷ xs) h = absurd (omega (arith, h))
  slice_to-all (suc m) [] h = refl
  slice_to-all (suc m) (x ∷ xs) h = ap (λ ys. x ∷ ys) (slice_to-all m xs (omega (arith, h)))

  pages-slice :
      (n first count : ℕ) (xs : List A)
      → pages n first count xs ≡ slice_to (count * n) (slice_from (first * n) xs)
  unfolding page_rows
  pages-slice n first zero xs =
      let none_left : 0 ≡ 0 * n = omega arith in
      ap (λ k. slice_to k (slice_from (first * n) xs)) none_left
  pages-slice n first (suc count) xs =
      let behind = slice_from (first * n) xs in
      let pred : suc first - 1 ≡ first = omega arith in
      let next : suc first * n ≡ first * n + n = omega arith in
      let more : suc count * n ≡ n + count * n = omega arith in
      rw (pred, more)
        (ap (λ ys. slice_to n behind ++ ys)
            (pages-slice n (suc first) count xs
              ∙ ap (λ k. slice_to (count * n) (slice_from k xs)) next
              ∙ ap (slice_to (count * n)) (sym (slice_from-more (first * n) n xs)))
          ∙ slice_to-append n (count * n) behind)

enough_pages : (l n : ℕ) → 1 ≤ n → l ≤ ((l + (n - 1)) / n) * n
enough_pages l n h = omega (arith, div-add-mod' (l + (n - 1)) n, mod-lt (l + (n - 1)) h, h)

-- The pages from the first to the last, one behind the other, are all the rows in their order, with at
-- least one row on a page.
pub pages-all :
    {A : Type 0}
    → (items_per_page : ℕ) (xs : List A) → 1 ≤ items_per_page
    → pages items_per_page 0 (total_pages items_per_page xs) xs ≡ xs
unfolding total_pages
pages-all n xs h =
    let none_before : 0 * n ≡ 0 = omega arith in
    pages-slice n 0 (total_pages n xs) xs
    ∙ ap (λ k. slice_to (total_pages n xs * n) (slice_from k xs)) none_before
    ∙ slice_to-all (total_pages n xs * n) xs (enough_pages (length xs) n h)
