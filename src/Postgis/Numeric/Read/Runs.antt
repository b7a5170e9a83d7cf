-- ===== src/Postgis/Numeric/Read/Runs.antt =====
-- Concrete numerics that are read, and the theorem at one.
use shpx.Prelude.{◌^◌, ◌-◌, ◌≡◌, refl, arith, [], ◌∷◌, ok, err}
use shpx.Prelude.Int.{pos}
use shpx.Postgis.Numeric.{from_i128_scale, write_payload}
use shpx.Postgis.Numeric.Wire.{from_sql, payload_too_short, payload_truncated}
use shpx.Postgis.Numeric.Read.{to_i128_with_scale, accumulator_overflow, exponent_overflow}
use shpx.Postgis.Numeric.Read.Decimal.{as_i128, from_sql-from_i128_scale}

-- 12345.6789, to two digits behind the point
read_truncated :
    to_i128_with_scale
      (record { digits = 1 ∷ 2345 ∷ 6789 ∷ []; weight = 1; sign = 0; dscale = 4 })
      2
    ≡ ok (pos 1234567)
unfolding to_i128_with_scale
read_truncated = refl

-- 10000, whose low digit is left out
read_trimmed :
    to_i128_with_scale (record { digits = 1 ∷ []; weight = 1; sign = 0; dscale = 0 }) 0
    ≡ ok (pos 10000)
unfolding to_i128_with_scale
read_trimmed = refl

-- The lowest i128 does not come back.
lowest_refused : to_i128_with_scale (from_i128_scale (2 ^ 127) 0) 0 ≡ err accumulator_overflow
unfolding to_i128_with_scale from_i128_scale
lowest_refused = refl

-- 10 ^ -40 to no digit behind the point is an error, where 10 ^ -4 is 0.
small_refused :
    to_i128_with_scale (record { digits = 1 ∷ []; weight = 65526; sign = 0; dscale = 40 }) 0
    ≡ err exponent_overflow
unfolding to_i128_with_scale
small_refused = refl

-- The sign 0xd000, as PostgreSQL sends an infinity, is read as a sign of a number with no digits.
infinity_is_0 :
    to_i128_with_scale (record { digits = []; weight = 0; sign = 0xd000; dscale = 0 }) 0
    ≡ ok (pos 0)
unfolding to_i128_with_scale
infinity_is_0 = refl

no_header : from_sql (0 ∷ 1 ∷ []) ≡ err payload_too_short
unfolding from_sql
no_header = refl

no_digit : from_sql (0 ∷ 1 ∷ 0 ∷ 0 ∷ 0 ∷ 0 ∷ 0 ∷ 0 ∷ 0 ∷ []) ≡ err payload_truncated
unfolding from_sql
no_digit = refl

from_sql-from_i128_scale_example :
    let n = from_i128_scale (2 ^ 128 - 123456789) 3 in
    (from_sql (write_payload n []) ≡ ok n)
    × (to_i128_with_scale n 3 ≡ ok (as_i128 (2 ^ 128 - 123456789)))
from_sql-from_i128_scale_example =
    from_sql-from_i128_scale (2 ^ 128 - 123456789) 3 (omega arith) (λ e. omega (arith, e))
      (omega arith)
