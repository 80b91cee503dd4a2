-- ===== src/Common/Double.antt =====
-- The numbers of TypeScript that are not negative: doubles, which IEEE 754 rounds to the nearest
-- one, and to the even one of two. A double is a multiple of 2 ^ -1074, and that multiple is what is kept
-- here, so every one up to the largest is exact. Overflow is not modelled.
use Prim.Native.Nat.{ℕ, zero, suc, ◌+◌, ◌-◌, ◌*◌, ◌/◌, ◌%◌, ◌^◌, ◌≤◌, ◌<◌, min}
use mathlib.Core.Path.{◌≡◌, refl, sym, ap, ◌∙◌}
use native.Mathlib.Omega.{arith}
use solana_governance.Common.Tests.{ltb, leb, ◌==◌, if◌then◌else◌}
pub mod Exact

abbrev pub Double : Type 0
Double = ℕ

-- the number one
unfoldable pub one : Double
one = 2 ^ 1074

-- how many of them a significand tells apart
unfoldable pub precision : ℕ
precision = 2 ^ 53

unfoldable pub integer : ℕ → Double
integer n = n * one

-- the least of `p`, `2 p`, ... of which `n` has less than `precision`
unfoldable pub spacing_from : ℕ → ℕ → ℕ → ℕ
spacing_from zero p n = p
spacing_from (suc rounds) p n =
    let rest = spacing_from rounds (p * 2) n in if ltb n (precision * p) then p else rest

-- the largest double has 2098 binary digits
unfoldable pub spacing : ℕ → ℕ
unfolding spacing_from
spacing n = spacing_from 2045 1 n

abbrev pub nearest : (p quotient remainder : ℕ) → ℕ
nearest p q r =
    if ltb (2 * r) p
    then q * p
    else if ltb p (2 * r)
    then (q + 1) * p
    else if q % 2 == 0
    then q * p
    else (q + 1) * p

unfoldable pub round : ℕ → Double
unfolding spacing
round n = nearest (spacing n) (n / spacing n) (n % spacing n)

unfoldable pub plus : Double → Double → Double
unfolding round
plus x y = round (x + y)

-- of a number that is not greater
unfoldable pub minus : Double → Double → Double
unfolding round
minus x y = round (x - y)

unfoldable pub times : Double → ℕ → Double
unfolding round
times x n = round (x * n)

-- `new BN(number)` drops the fraction
unfoldable pub truncated : Double → ℕ
truncated x = x / one
