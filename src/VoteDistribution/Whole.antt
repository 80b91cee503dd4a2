-- ===== src/VoteDistribution/Whole.antt =====
-- Splits of whole percentages, on which the doubles of frontend/src/hooks/useVoteDistribution.ts are
-- exact, and the same loop on natural numbers.
use solana_governance.Common.{
  ℕ, ◌+◌, ◌-◌, ◌≤◌, ◌<◌, ◌≡◌, refl, sym, ap, ◌∙◌, Bool, true, false, List, [], ◌∷◌, min, leb,
  if◌then◌else◌, arith,
}
use solana_governance.Common.Double.{precision, integer}
use solana_governance.Common.Double.Exact.{
  plus-integers, minus-integer, leb-integer, integer-zero, small, min-integer,
}
use solana_governance.VoteDistribution.{
  VoteOption, for, against, abstain, VoteDistribution, total, share, with_share, same, take_excess,
  adjust_distribution, vote_options,
}

pub record Percentages : Type 0 where
  pub for_percent : ℕ
  pub against_percent : ℕ
  pub abstain_percent : ℕ

abbrev pub sum : Percentages → ℕ
sum p = p.for_percent + p.against_percent + p.abstain_percent

abbrev pub doubles : Percentages → VoteDistribution
doubles p = record {
  for_share = integer p.for_percent;
  against_share = integer p.against_percent;
  abstain_share = integer p.abstain_percent;
}

abbrev pub percentage : VoteOption → Percentages → ℕ
percentage for p = p.for_percent
percentage against p = p.against_percent
percentage abstain p = p.abstain_percent

abbrev pub with_percentage : VoteOption → ℕ → Percentages → Percentages
with_percentage for v p = record p { for_percent = v }
with_percentage against v p = record p { against_percent = v }
with_percentage abstain v p = record p { abstain_percent = v }

unfoldable pub taken : VoteOption → List VoteOption → Percentages → ℕ → Percentages
taken option [] p excess = p
taken option (current ∷ others) p excess =
    let reduction = min (percentage current p) excess in
    let reduced = with_percentage current (percentage current p - reduction) p in
    let skip = taken option others p excess in
    let next = taken option others reduced (excess - reduction) in
    if same current option
    then skip
    else if leb (percentage current p) 0
    then skip
    else if leb (excess - reduction) 0
    then reduced
    else next

share-doubles :
    (option : VoteOption) (p : Percentages)
    → share option (doubles p) ≡ integer (percentage option p)
share-doubles for p = refl
share-doubles against p = refl
share-doubles abstain p = refl

pub with_share-doubles :
    (option : VoteOption) (v : ℕ) (p : Percentages)
    → with_share option (integer v) (doubles p) ≡ doubles (with_percentage option v p)
with_share-doubles for v p = refl
with_share-doubles against v p = refl
with_share-doubles abstain v p = refl

leb-nothing : (n : ℕ) → leb (integer n) 0 ≡ leb n 0
leb-nothing n = ap (λ z. leb (integer n) z) (sym integer-zero) ∙ leb-integer n 0

chosen :
    (a b c : Bool) (x y z : Percentages)
    → (if a then doubles x else if b then doubles x else if c then doubles y else doubles z)
      ≡ doubles (if a then x else if b then x else if c then y else z)
chosen true b c x y z = refl
chosen false true c x y z = refl
chosen false false true x y z = refl
chosen false false false x y z = refl

abbrev IsExact : Percentages → Type 0
IsExact p = sum p < precision

below : (option : VoteOption) (p : Percentages) → IsExact p → percentage option p < precision
below for p h = omega arith
below against p h = omega arith
below abstain p h = omega arith

reduced-IsExact :
    (option : VoteOption) (v : ℕ) (p : Percentages)
    → IsExact p
    → v ≤ percentage option p
    → IsExact (with_percentage option v p)
reduced-IsExact for v p h l = omega arith
reduced-IsExact against v p h l = omega arith
reduced-IsExact abstain v p h l = omega arith

take_excess-doubles :
    (option : VoteOption) (options : List VoteOption) (p : Percentages) (excess : ℕ)
    → IsExact p
    → excess < precision
    → take_excess option options (doubles p) (integer excess)
      ≡ doubles (taken option options p excess)
unfolding take_excess taken
take_excess-doubles option [] p excess h k = refl
take_excess-doubles option (current ∷ others) p excess h k =
    let s = percentage current p in
    let r = min s excess in
    rw
      (
        share-doubles current p,
        min-integer s excess,
        minus-integer s r (below current p h),
        minus-integer excess r k,
        with_share-doubles current (s - r) p,
        leb-nothing s,
        leb-nothing (excess - r),
        take_excess-doubles option others p excess h k,
        take_excess-doubles option others (with_percentage current (s - r) p) (excess - r)
            (reduced-IsExact current (s - r) p h (omega arith)) (omega arith),
      )
      (chosen (same current option) (leb s 0) (leb (excess - r) 0) _ _ _)

-- the same on natural numbers
unfoldable pub adjusted_percentages : Percentages → VoteOption → ℕ → Percentages
adjusted_percentages previous option next =
    let p = with_percentage option next previous in
    if leb (sum p) 100 then p else taken option vote_options p (sum p - 100)

pub total-doubles : (p : Percentages) → sum p < precision → total (doubles p) ≡ integer (sum p)
total-doubles p h = plus-integers p.for_percent p.against_percent p.abstain_percent h

-- a split of whole percentages, adjusted to one, is what the natural numbers give
pub adjust_distribution-doubles :
    (p : Percentages) (option : VoteOption) (v : ℕ)
    → sum p ≤ 100
    → v ≤ 100
    → adjust_distribution (doubles p) option (integer v) ≡ doubles (adjusted_percentages p option v)
unfolding adjust_distribution adjusted_percentages
adjust_distribution-doubles p option v h k =
    let q = with_percentage option v p in
    let b = small (sum q) (with-le option v p h k) in
    rw
      (
        with_share-doubles option v p,
        total-doubles q b,
        leb-integer (sum q) 100,
        minus-integer (sum q) 100 b,
        take_excess-doubles option vote_options q (sum q - 100) b (omega arith),
      )
      (either (leb (sum q) 100) q _)
  where
    with-le :
        (o : VoteOption) (v : ℕ) (p : Percentages)
        → sum p ≤ 100
        → v ≤ 100
        → sum (with_percentage o v p) ≤ 1000000
    with-le for v p h k = omega arith
    with-le against v p h k = omega arith
    with-le abstain v p h k = omega arith

    either :
        (a : Bool) (x y : Percentages)
        → (if a then doubles x else doubles y) ≡ doubles (if a then x else y)
    either true x y = refl
    either false x y = refl
