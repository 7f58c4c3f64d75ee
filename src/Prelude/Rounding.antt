-- ===== src/Prelude/Rounding.antt =====
-- `round(x, digits)` of a ratio of counts, as an exact fraction: the nearest integer, and of two
-- equally near the even one. A Python float lies within one unit in the last place of the ratio, so
-- the two can differ only where the ratio is a tie.
use Prim.Native.Nat.{ℕ, ◌+◌, ◌*◌, ◌/◌, ◌%◌, ◌≤◌, ◌<◌}
use native.Mathlib.Omega.{arith}
use datarecon_ai_community_e.Prelude.Tests.{ltb, ◌==◌, if◌then◌else◌}

unfoldable pub round_ratio : ℕ → ℕ → ℕ
round_ratio n d =
    let twice = 2 * (n % d) in
    if ltb twice d
    then n / d
    else if ltb d twice
    then n / d + 1
    else if n / d % 2 == 0
    then n / d
    else n / d + 1

-- The rounded ratio is within a half of the ratio.
pub round_ratio_near :
    (n d : ℕ)
    → 0 < d
    → (2 * n ≤ 2 * (round_ratio n d * d) + d) × (2 * (round_ratio n d * d) ≤ 2 * n + d)
unfolding round_ratio
round_ratio_near n d h = grind arith
