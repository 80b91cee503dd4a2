-- ===== src/Common/Ratio.antt =====
-- The non-negative `number` values that the sources divide: exact fractions. The sources divide by
-- a constant or by what they have tested to be positive, so a denominator is positive.
use Prim.Native.Nat.{ℕ, ◌+◌, ◌-◌, ◌*◌, ◌≤◌, ◌<◌}
use mathlib.Core.Bool.{Bool}
use solana_governance.Common.Tests.{leb, ltb, if◌then◌else◌}

pub record Ratio : Type 0 where
  pub num : ℕ
  pub den : ℕ

abbrev pub of_ℕ : ℕ → Ratio
of_ℕ n = record { num = n; den = 1 }

-- `n / d`
abbrev pub div : ℕ → ℕ → Ratio
div n d = record { num = n; den = d }

-- `n * r` and `r * n`
abbrev pub scale : Ratio → ℕ → Ratio
scale r n = record { num = n * r.num; den = r.den }

-- `r / n`
abbrev pub div_by : Ratio → ℕ → Ratio
div_by r n = record { num = r.num; den = n * r.den }

-- `r / s`, where `s` is positive
abbrev pub quot : Ratio → Ratio → Ratio
quot r s = record { num = r.num * s.den; den = r.den * s.num }

-- `r + s`
abbrev pub add : Ratio → Ratio → Ratio
add r s = record { num = r.num * s.den + s.num * r.den; den = r.den * s.den }

-- `Math.max(0, r - s)`
abbrev pub monus : Ratio → Ratio → Ratio
monus r s = record { num = r.num * s.den - s.num * r.den; den = r.den * s.den }

-- `r <= s`, as a test and as a statement
abbrev pub ratio_leb : Ratio → Ratio → Bool
ratio_leb r s = leb (r.num * s.den) (s.num * r.den)

abbrev pub ratio_ltb : Ratio → Ratio → Bool
ratio_ltb r s = ltb (r.num * s.den) (s.num * r.den)

abbrev pub ratio_max : Ratio → Ratio → Ratio
ratio_max r s = if ratio_leb r s then s else r

abbrev pub RatioLe : Ratio → Ratio → Type 0
RatioLe r s = r.num * s.den ≤ s.num * r.den

abbrev pub RatioEq : Ratio → Ratio → Type 0
RatioEq r s = (RatioLe r s) × (RatioLe s r)

abbrev pub IsProper : Ratio → Type 0
IsProper r = 0 < r.den
