-- ===== src/Postgis/Numeric/Read/Decimal.antt =====
-- A Decimal128 that is sent as a numeric and read again.
use shpx.Prelude.{
  ℕ, zero, suc, ◌-◌, ◌%◌, ◌^◌, ◌<◌, ◌≡◌, ◌≢◌, refl, sym, ap, ◌∙◌, subst, arith, List, [], ◌∷◌,
  reverse, true, false, ok, ltb, ◌==◌, if◌then◌else◌, length, All, Bool-cases, inl, inr,
}
use shpx.Prelude.Outcome.{◌>>=◌}
use shpx.Prelude.Int.{ℤ, pos, negsuc, sub_ℕ}
use shpx.Geom.Bytes.{length-reverse}
use shpx.Postgis.Numeric.{
  low_first, trim_low, pad_low_of, weight_of, or_zero, from_u128_scale, from_i128_scale,
  write_payload, numeric_pos, numeric_neg,
}
use shpx.Postgis.Numeric.Value.{
  IsDigit, length-low_first, length-trim_low, low_first-All, trim_low-All,
}
use shpx.Postgis.Numeric.Read.{checked, signed, to_i128_with_scale}
use shpx.Postgis.Numeric.Wire.{IsWire, IsWord, from_sql, from_sql-write_payload}
use shpx.Postgis.Numeric.Read.RoundTrip.{All-reverse, digits_read}

read_pos :
    (abs s : ℕ)
    → 0 < abs
    → abs < 2 ^ 127
    → s < 256
    → to_i128_with_scale (from_u128_scale abs s numeric_pos s) s ≡ ok (pos abs)
unfolding to_i128_with_scale from_u128_scale
read_pos abs s h below byte =
    ap (λ r. r >>= signed numeric_pos) (digits_read abs s numeric_pos h below byte)

checked-neg : (n : ℕ) → suc n < 2 ^ 127 → checked (sub_ℕ 0 (suc n)) ≡ ok (negsuc (suc n - 1))
checked-neg n h =
    let is_neg : ltb 0 (suc n) ≡ true = ground arith in
    let same : suc n - 0 - 1 ≡ suc n - 1 = omega arith in
    let fits : ltb (suc n - 1) (2 ^ 127) ≡ true = ground arith in rw (is_neg, same, fits) refl

read_neg :
    (abs s : ℕ)
    → 0 < abs
    → abs < 2 ^ 127
    → s < 256
    → to_i128_with_scale (from_u128_scale abs s numeric_neg s) s ≡ ok (negsuc (abs - 1))
unfolding to_i128_with_scale from_u128_scale
read_neg zero s h below byte = absurd (omega arith)
read_neg (suc abs) s h below byte =
    ap (λ r. r >>= signed numeric_neg) (digits_read (suc abs) s numeric_neg h below byte)
    ∙ checked-neg abs below

from_pos : (v s : ℕ) → 0 < v → v < 2 ^ 127 → from_i128_scale v s ≡ from_u128_scale v s numeric_pos s
unfolding from_i128_scale
from_pos v s h below =
    let some_value : v == 0 ≡ false = ground arith in
    let positive : ltb v (2 ^ 127) ≡ true = ground arith in rw (some_value, positive) refl

from_neg :
    (v s : ℕ) → 2 ^ 127 < v → from_i128_scale v s ≡ from_u128_scale (2 ^ 128 - v) s numeric_neg s
unfolding from_i128_scale
from_neg v s above =
    let some_value : v == 0 ≡ false = ground arith in
    let negative : ltb v (2 ^ 127) ≡ false = ground arith in rw (some_value, negative) refl

-- The i128 of a 128-bit pattern.
abbrev pub as_i128 : ℕ → ℤ
as_i128 v = if ltb v (2 ^ 127) then pos v else negsuc (2 ^ 128 - v - 1)

read_some :
    (value scale : ℕ)
    → 0 < value
    → value < 2 ^ 128
    → value ≢ 2 ^ 127
    → scale < 256
    → to_i128_with_scale (from_i128_scale value scale) scale ≡ ok (as_i128 value)
read_some value scale h bits not_lowest byte = elim (Bool-cases (ltb value (2 ^ 127))) [
  | inl t ↦
      ap (λ n. to_i128_with_scale n scale) (from_pos value scale h (ground arith))
      ∙ read_pos value scale h (ground arith) byte
      ∙ rw t refl
  | inr f ↦
      let above : 2 ^ 127 < value = ground arith in
      ap (λ n. to_i128_with_scale n scale) (from_neg value scale above)
      ∙ read_neg (2 ^ 128 - value) scale (omega arith) (omega arith) byte
      ∙ rw f refl
]

to_i128_with_scale-from_i128_scale :
    (value scale : ℕ)
    → value < 2 ^ 128
    → value ≢ 2 ^ 127
    → scale < 256
    → to_i128_with_scale (from_i128_scale value scale) scale ≡ ok (as_i128 value)
unfolding to_i128_with_scale from_i128_scale
to_i128_with_scale-from_i128_scale zero scale bits not_lowest byte = refl
to_i128_with_scale-from_i128_scale (suc value) scale bits not_lowest byte =
    read_some (suc value) scale (omega arith) bits not_lowest byte

digits-IsWord : (ds : List ℕ) → All IsDigit ds → All IsWord ds
digits-IsWord [] h = tt
digits-IsWord (d ∷ ds) h = (omega (arith, h.0), digits-IsWord ds h.1)

weight-lt : (ds : List ℕ) (s pad len : ℕ) → or_zero ds (weight_of s pad len) < 2 ^ 16
weight-lt [] s pad len = omega arith
weight-lt (d ∷ ds) s pad len = omega arith

from_u128_scale-IsWire :
    (abs s sign : ℕ) → s < 256 → sign < 2 ^ 16 → IsWire (from_u128_scale abs s sign s)
unfolding from_u128_scale
from_u128_scale-IsWire abs s sign byte word =
    let r : s % 4 < 4 = omega arith in
    let low = low_first abs (s % 4) in
    (
      omega
          (arith, length-reverse (trim_low low), length-trim_low low, length-low_first abs (s % 4)),
      digits-IsWord (reverse (trim_low low))
          (All-reverse (trim_low low) (trim_low-All low (low_first-All abs (s % 4) r))),
      weight-lt (trim_low low) s (pad_low_of (s % 4)) (length low),
      word,
      omega arith,
    )

from_i128_scale-IsWire : (v s : ℕ) → v ≢ 2 ^ 127 → s < 256 → IsWire (from_i128_scale v s)
unfolding from_i128_scale
from_i128_scale-IsWire zero s not_lowest byte =
    (omega arith, tt, omega arith, omega arith, omega arith)
from_i128_scale-IsWire (suc v) s not_lowest byte = elim (Bool-cases (ltb (suc v) (2 ^ 127))) [
  | inl t ↦
      subst IsWire (sym (from_pos (suc v) s (omega arith) (ground arith)))
        (from_u128_scale-IsWire (suc v) s numeric_pos byte (omega arith))
  | inr f ↦
      subst IsWire (sym (from_neg (suc v) s (ground arith)))
        (from_u128_scale-IsWire (2 ^ 128 - suc v) s numeric_neg byte (omega arith))
]

-- For an i128 other than the lowest one and every scale of a byte: from_sql reads the payload that
-- write_payload writes for from_i128_scale as the same numeric, and to_i128_with_scale of it, to the
-- same scale, is the i128.
pub from_sql-from_i128_scale :
    (value scale : ℕ)
    → value < 2 ^ 128
    → value ≢ 2 ^ 127
    → scale < 256
    → let n = from_i128_scale value scale in
      (from_sql (write_payload n []) ≡ ok n) × (to_i128_with_scale n scale ≡ ok (as_i128 value))
from_sql-from_i128_scale value scale bits not_lowest byte = (
  from_sql-write_payload (from_i128_scale value scale)
      (from_i128_scale-IsWire value scale not_lowest byte),
  to_i128_with_scale-from_i128_scale value scale bits not_lowest byte,
)
