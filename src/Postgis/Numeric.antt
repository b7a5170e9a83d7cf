-- ===== src/Postgis/Numeric.antt =====
-- crates/shpx-driver-postgis/src/copy_binary.rs: Decimal128 as a PostgreSQL numeric.
-- An i128 is its 128-bit pattern and an i16 its 16-bit pattern.
pub mod Value
pub mod Read
pub mod Wire
mod Runs
use shpx.Prelude.{
  ℕ, zero, suc, ◌+◌, ◌-◌, ◌*◌, ◌/◌, ◌%◌, ◌^◌, List, [], ◌∷◌, ◌++◌, reverse, ltb, ◌==◌,
  if◌then◌else◌, length, false,
}
use shpx.Geom.Bytes.{to_bytes}

abbrev pub numeric_pos : ℕ
numeric_pos = 0

abbrev pub numeric_neg : ℕ
numeric_neg = 0x4000

abbrev pub nbase : ℕ
nbase = 10000

pub record PgNumeric : Type 0 where
  pub digits : List ℕ
  pub weight : ℕ
  pub sign : ℕ
  pub dscale : ℕ

-- `while n > 0 { digits.push(n % nbase); n /= nbase }`, the low digit first.
unfoldable pub push_digits : ℕ → ℕ → List ℕ
push_digits zero n = []
push_digits (suc rounds) n =
    let more = push_digits rounds (n / nbase) in if n == 0 then [] else (n % nbase) ∷ more

-- A u128 has at most ten digits to the base 10000.
abbrev pub max_rounds : ℕ
max_rounds = 10

abbrev pub pad_low_of : ℕ → ℕ
pad_low_of r = if r == 0 then 0 else 4 - r

-- The digits before `digits.reverse()`.
unfoldable pub low_first : ℕ → ℕ → List ℕ
unfolding push_digits
low_first abs r =
    let pad_low = pad_low_of r in
    if ltb 0 pad_low
    then (abs % 10 ^ r * 10 ^ pad_low) ∷ push_digits max_rounds (abs / 10 ^ r)
    else push_digits max_rounds abs

-- `while digits.last() == Some(&0) { digits.pop(); }`, where the last digit is first.
unfoldable pub trim_low : List ℕ → List ℕ
trim_low [] = []
trim_low (d ∷ ds) = let rest = trim_low ds in if d == 0 then rest else d ∷ ds

-- The pattern of the i16 `-(s + pad_low) / 4 + len - 1`.
abbrev pub weight_of : ℕ → ℕ → ℕ → ℕ
weight_of s pad_low len = (len + 65535 - (s + pad_low) / 4) % 65536

abbrev pub or_zero : List ℕ → ℕ → ℕ
or_zero [] weight = 0
or_zero (d ∷ ds) weight = weight

unfoldable pub from_u128_scale : ℕ → ℕ → ℕ → ℕ → PgNumeric
unfolding low_first trim_low
from_u128_scale abs scale sign dscale =
    let r = scale % 4 in
    let pushed = low_first abs r in
    let digits = trim_low pushed in
    record {
      digits = reverse digits;
      weight = or_zero digits (weight_of scale (pad_low_of r) (length pushed));
      sign = sign;
      dscale = dscale;
    }

-- `value < 0` is bit 127, and `unsigned_abs` negates.
unfoldable pub from_i128_scale : ℕ → ℕ → PgNumeric
unfolding from_u128_scale
from_i128_scale value scale =
    if value == 0
    then record { digits = []; weight = 0; sign = numeric_pos; dscale = scale }
    else if ltb value (2 ^ 127)
    then from_u128_scale value scale numeric_pos scale
    else from_u128_scale (2 ^ 128 - value) scale numeric_neg scale

-- `for d in &self.digits { out.put_i16(*d) }`
unfoldable pub put_digits : List ℕ → List ℕ → List ℕ
unfolding to_bytes
put_digits [] out = out
put_digits (d ∷ ds) out = put_digits ds (out ++ to_bytes false 2 d)

unfoldable pub write_payload : PgNumeric → List ℕ → List ℕ
unfolding to_bytes put_digits
write_payload n out =
    let out = out ++ to_bytes false 2 (length n.digits) in
    let out = out ++ to_bytes false 2 n.weight in
    let out = out ++ to_bytes false 2 n.sign in
    let out = out ++ to_bytes false 2 n.dscale in put_digits n.digits out
