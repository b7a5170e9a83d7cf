-- ===== src/Geom/Float.antt =====
-- The comparisons of f64 on bit patterns: the sign is bit 63, and without it a pattern above that
-- of the infinity is a NaN, which compares with nothing. The two zeros have one rank.
use shpx.Prelude.{ℕ, ◌+◌, ◌-◌, ◌%◌, ◌^◌, Bool, not, ltb, ◌&&◌, if◌then◌else◌}
use shpx.Geom.Types.{F64}

abbrev pub infinity : F64
infinity = 0x7ff0_0000_0000_0000

abbrev pub neg_infinity : F64
neg_infinity = 0xfff0_0000_0000_0000

abbrev pub magnitude : F64 → ℕ
magnitude x = x % 2 ^ 63

abbrev pub is_nan : F64 → Bool
is_nan x = ltb infinity (magnitude x)

unfoldable pub is_finite : F64 → Bool
is_finite x = ltb (magnitude x) infinity

-- Numbers that are no NaN are ordered as their ranks.
abbrev pub rank : F64 → ℕ
rank x = if ltb x (2 ^ 63) then 2 ^ 63 + magnitude x else 2 ^ 63 - magnitude x

-- `x < y`
unfoldable pub f64_lt : F64 → F64 → Bool
f64_lt x y = not (is_nan x) && not (is_nan y) && ltb (rank x) (rank y)
