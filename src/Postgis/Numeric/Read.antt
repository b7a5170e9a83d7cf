-- ===== src/Postgis/Numeric/Read.antt =====
-- crates/shpx-driver-postgis/src/copy_binary.rs: a PostgreSQL numeric as the i128 of a Decimal128. A
-- weight and the digits are 16-bit patterns. An exponent is moved by 4 * (2 ^ 15 + 2 ^ 16), so that
-- none of fewer than 2 ^ 16 digits is below 0.
pub mod Back
pub mod RoundTrip
pub mod Decimal
mod Runs
use shpx.Prelude.{
  ℕ, zero, suc, ◌+◌, ◌-◌, ◌*◌, ◌/◌, ◌%◌, ◌^◌, List, [], ◌∷◌, Option, none, some, Bool, true, false,
  Result, ok, err, ltb, ◌==◌, if◌then◌else◌,
}
use shpx.Prelude.Outcome.{◌>>=◌}
use shpx.Prelude.Int.{ℤ, pos, negsuc, times, sub_ℕ, plus}
use shpx.Postgis.Numeric.{PgNumeric, numeric_neg}

abbrev pub numeric_nan : ℕ
numeric_nan = 0xc000

pub data NumericError : Type 0 where
  is_nan exponent_overflow accumulator_overflow : NumericError

-- The exponent 0.
abbrev pub origin : ℕ
origin = 393216

-- `(i32::from(self.weight) - idx) * 4 + s`
abbrev pub exponent : ℕ → ℕ → ℕ → ℕ
exponent weight idx s = 4 * ((weight + 32768) % 65536 + 65536 - idx) + s

-- `i128::from(d)`
abbrev pub digit : ℕ → ℤ
digit d = if ltb d 32768 then pos d else negsuc (65535 - d)

abbrev in_i128 : ℤ → Bool
in_i128 (pos n) = ltb n (2 ^ 127)
in_i128 (negsuc n) = ltb n (2 ^ 127)

abbrev pub checked : ℤ → Result NumericError ℤ
checked n = if in_i128 n then ok n else err accumulator_overflow

-- `10i128.checked_pow(p)`
unfoldable pub checked_pow : ℕ → Result NumericError ℕ
checked_pow p = if ltb p 39 then ok (10 ^ p) else err exponent_overflow

-- `acc * 10 ^ p`
unfoldable pub shifted : ℤ → ℕ → Result NumericError ℤ
unfolding checked_pow
shifted acc p = do pow ← checked_pow p; checked (times acc pow)

-- The shift by an exponent above 0, where there is one.
unfoldable pub shift_to_0 : ℤ → Option ℕ → Result NumericError ℤ
unfolding shifted
shift_to_0 acc none = ok acc
shift_to_0 acc (some e) = if ltb origin e then shifted acc (e - origin) else ok acc

-- `i128::from(d) / div`, which rounds to 0.
abbrev pub truncated : ℤ → ℕ → ℤ
truncated (pos n) div = pos (n / div)
truncated (negsuc n) div = sub_ℕ 0 (suc n / div)

-- The first digit with an exponent below 0, which ends the loop.
unfoldable pub take_fraction : ℤ → Option ℕ → ℕ → ℕ → Result NumericError ℤ
unfolding shift_to_0 checked_pow
take_fraction acc prev_e d e = do
  acc' ← shift_to_0 acc prev_e
  div ← checked_pow (origin - e)
  checked (plus acc' (truncated (digit d) div))

unfoldable pub aligned : ℤ → Option ℕ → ℕ → Result NumericError ℤ
unfolding shifted
aligned acc none e = ok acc
aligned acc (some pe) e = shifted acc (pe - e)

-- The loop over the digits from the index `i` on, and the shift behind it.
unfoldable pub accumulate : ℕ → ℕ → List ℕ → ℕ → ℤ → Option ℕ → Result NumericError ℤ
unfolding take_fraction shift_to_0 aligned
accumulate weight s [] i acc prev_e = shift_to_0 acc prev_e
accumulate weight s (d ∷ digits) i acc prev_e =
    let e = exponent weight i s in
    let next = do
      acc' ← aligned acc prev_e e
      acc'' ← checked (plus acc' (digit d))
      accumulate weight s digits (suc i) acc'' (some e)
    in if ltb e origin then take_fraction acc prev_e d e else next

-- `checked_neg`
abbrev negated : ℤ → ℤ
negated (pos n) = sub_ℕ 0 n
negated (negsuc n) = pos (suc n)

abbrev pub signed : ℕ → ℤ → Result NumericError ℤ
signed sign acc = if sign == numeric_neg then checked (negated acc) else ok acc

unfoldable pub to_i128_with_scale : PgNumeric → ℕ → Result NumericError ℤ
unfolding accumulate
to_i128_with_scale n target_scale =
    let value = do acc ← accumulate n.weight target_scale n.digits 0 (pos 0) none; signed n.sign acc
    in if n.sign == numeric_nan then err is_nan else value
