-- ===== src/Common/Double/Exact.antt =====
-- Where the operations on doubles are exact.
use Prim.Native.Nat.{ℕ, zero, suc, ◌+◌, ◌-◌, ◌*◌, ◌/◌, ◌%◌, ◌^◌, ◌≤◌, ◌<◌, ◌∣◌, min}
use native.Mathlib.Nat.{
  dvd_trans, dvd-mul_right, dvd-mul_left, mul-one, mul_assoc, mul_comm, pow-suc, add-mul,
  div-mul_cancel, mod-eq-zero_of_dvd, mul-lt-mul_of_pos_right, mul-le-mul_right, mul-div_cancel,
  mul-sub, mul_right_comm, eq_of_mul-eq-mul_right,
}
use mathlib.Core.Path.{◌≡◌, refl, sym, ap, subst, ◌∙◌}
use mathlib.Core.Logic.{◌⊎◌, inl, inr}
use mathlib.Core.Bool.{true, false}
use native.Mathlib.Omega.{arith}
use solana_governance.Common.Tests.{ltb, leb, ◌==◌, Bool-cases, lt→ltb}
use solana_governance.Common.Double.{
  one, precision, integer, spacing_from, spacing, nearest, round, plus, minus, times, truncated,
}

spacing_from-divides :
    (rounds j p n : ℕ) → (p * 2 ^ j) ∣ n → n < precision * (p * 2 ^ j) → spacing_from rounds p n ∣ n
unfolding spacing_from
spacing_from-divides zero j p n d h = dvd_trans p (dvd-mul_right p (2 ^ j)) d
spacing_from-divides (suc rounds) zero p n d h =
    rw (lt→ltb n (precision * p) (subst (λ q. n < precision * q) (mul-one p) h))
      (subst (λ q. q ∣ n) (mul-one p) d)
spacing_from-divides (suc rounds) (suc j) p n d h =
    let same : p * 2 ^ suc j ≡ p * 2 * 2 ^ j =
      ap (λ q. p * q) (pow-suc 2 j ∙ mul_comm (2 ^ j) 2) ∙ sym (mul_assoc p 2 (2 ^ j)) in
    elim (Bool-cases (ltb n (precision * p))) [
      | inl l ↦ rw l (dvd_trans p (dvd-mul_right p (2 ^ suc j)) d)
      | inr g ↦ rw g (
          spacing_from-divides rounds j (p * 2) n (subst (λ q. q ∣ n) same d)
            (subst (λ q. n < precision * q) same h))
    ]

nearest-divided : (p q : ℕ) → 0 < p → nearest p q 0 ≡ q * p
nearest-divided p q h = ground arith

spaced : (p n : ℕ) → 0 < p → p ∣ n → nearest p (n / p) (n % p) ≡ n
spaced p n h d = rw (mod-eq-zero_of_dvd p d) (nearest-divided p (n / p) h ∙ div-mul_cancel p d)

spacing_from-positive : (rounds p n : ℕ) → 0 < p → 0 < spacing_from rounds p n
unfolding spacing_from
spacing_from-positive zero p n h = h
spacing_from-positive (suc rounds) p n h =
    ground (arith, spacing_from-positive rounds (p * 2) n (omega arith))

one-positive : 0 < one
unfolding one
one-positive = omega arith

one-power : 1 * 2 ^ 1074 ≡ one
unfolding one
one-power = refl

-- An integer below the precision is a double.
round-integer : (k : ℕ) → k < precision → round (integer k) ≡ integer k
unfolding round spacing integer
round-integer k h =
    spaced (spacing (k * one)) (k * one) (spacing_from-positive 2045 1 (k * one) (omega arith)) (
      spacing_from-divides 2045 1074 1 (k * one)
        (subst (λ u. u ∣ (k * one)) (sym one-power) (dvd-mul_left one k))
        (subst (λ u. (k * one) < precision * u) (sym one-power)
          (mul-lt-mul_of_pos_right h one-positive)))

sub_mul : (a b c : ℕ) → (a - b) * c ≡ a * c - b * c
sub_mul a b c =
    mul_comm (a - b) c
    ∙ mul-sub c a b
    ∙ ap (λ x. x - c * b) (mul_comm c a)
    ∙ ap (λ y. a * c - y) (mul_comm c b)

pub plus-integer : (a b : ℕ) → a + b < precision → plus (integer a) (integer b) ≡ integer (a + b)
unfolding plus integer
plus-integer a b h = ap round (sym (add-mul a b one)) ∙ round-integer (a + b) h

pub plus-integers :
    (a b c : ℕ)
    → a + b + c < precision
    → plus (plus (integer a) (integer b)) (integer c) ≡ integer (a + b + c)
plus-integers a b c h =
    ap (λ x. plus x (integer c)) (plus-integer a b (omega arith)) ∙ plus-integer (a + b) c h

pub minus-integer : (a b : ℕ) → a < precision → minus (integer a) (integer b) ≡ integer (a - b)
unfolding minus integer
minus-integer a b h = ap round (sym (sub_mul a b one)) ∙ round-integer (a - b) (omega arith)

pub times-integer : (a n : ℕ) → a * n < precision → times (integer a) n ≡ integer (a * n)
unfolding times integer
times-integer a n h = ap round (mul_right_comm a one n) ∙ round-integer (a * n) h

pub truncated-integer : (a : ℕ) → truncated (integer a) ≡ a
unfolding truncated integer
truncated-integer a = mul-div_cancel a one-positive

pub leb-integer : (a b : ℕ) → leb (integer a) (integer b) ≡ leb a b
unfolding integer
leb-integer a b = elim (le-or-lt a b) [
  | inl l ↦ le_leb (a * one) (b * one) (mul-le-mul_right one l) ∙ sym (le_leb a b l)
  | inr g ↦ gt_leb (a * one) (b * one) (mul-lt-mul_of_pos_right g one-positive) ∙ sym (gt_leb a b g)
]
  where
    le-or-lt : (a b : ℕ) → (a ≤ b) ⊎ (b < a)
    le-or-lt a b = omega arith

    le_leb : (a b : ℕ) → a ≤ b → leb a b ≡ true
    le_leb a b h = ground arith

    gt_leb : (a b : ℕ) → b < a → leb a b ≡ false
    gt_leb a b h = ground arith

pub integer-injective : (a b : ℕ) → integer a ≡ integer b → a ≡ b
unfolding integer
integer-injective a b h = eq_of_mul-eq-mul_right one one-positive a b h

pub ==-integer : (a b : ℕ) → (integer a == integer b) ≡ (a == b)
==-integer a b = ground (arith, integer-injective a b)

pub min-integer : (a b : ℕ) → min (integer a) (integer b) ≡ integer (min a b)
unfolding integer
min-integer a b =
    ground (arith, mul-le-mul_right {m = a} {n = b} one, mul-le-mul_right {m = b} {n = a} one)

pub small : (n : ℕ) → n ≤ 1000000 → n < precision
unfolding precision
small n h = omega arith

pub integer-zero : integer 0 ≡ 0
unfolding integer one
integer-zero = refl
