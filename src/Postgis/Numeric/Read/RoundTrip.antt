-- ===== src/Postgis/Numeric/Read/RoundTrip.antt =====
-- `to_i128_with_scale` behind `from_i128_scale`.
use shpx.Prelude.{
  ℕ, zero, suc, ◌+◌, ◌-◌, ◌*◌, ◌/◌, ◌%◌, ◌^◌, ◌<◌, ◌≤◌, ◌≡◌, refl, sym, ap, ◌∙◌, subst, arith, List,
  [], ◌∷◌, ◌++◌, reverse, append-nil, none, some, true, ok, ltb, length, length-append, All,
  All-append, Bool-cases, inl, inr,
}
use mathlib.Core.List.{reverse-append}
use native.Mathlib.Nat.{mul-div_cancel}
use shpx.Prelude.Int.{pos}
use shpx.Geom.Bytes.{length-reverse}
use shpx.Postgis.Numeric.{
  nbase, low_first, trim_low, pad_low_of, weight_of, or_zero, from_u128_scale,
}
use shpx.Postgis.Numeric.Value.{
  pad_low_of-whole, number_of, IsDigit, trim_low-number, low_first-number, length-low_first,
  low_first-All, trim_low-All,
}
use shpx.Postgis.Numeric.Read.{origin, exponent, shift_to_0, take_fraction, accumulate}
use shpx.Postgis.Numeric.Read.Back.{
  horner, horner-reverse, accumulate-front, ten_pos, trimmed, shift_to_0-trimmed, exponent-first,
  accumulate-first, take_fraction-sum, take_fraction-alone,
}

pub All-reverse : (xs : List ℕ) → All IsDigit xs → All IsDigit (reverse xs)
All-reverse [] h = tt
All-reverse (x ∷ xs) h =
    rw (reverse-append (x ∷ []) xs)
      (All-append IsDigit (reverse xs) (x ∷ []) (All-reverse xs h.1) (h.0, tt))

number-le : (n d pad abs : ℕ) → pad < 4 → d + nbase * n ≡ abs * 10 ^ pad → n ≤ abs
number-le n d zero abs small e = omega (arith, e)
number-le n d (suc zero) abs small e = omega (arith, e)
number-le n d (suc (suc zero)) abs small e = omega (arith, e)
number-le n d (suc (suc (suc zero))) abs small e = omega (arith, e)
number-le n d (suc (suc (suc (suc pad)))) abs small e = absurd (omega arith)

module _ (abs w s pad k : ℕ) (below : abs < 2 ^ 127) where
  -- No digit is behind the scale.
  whole-read :
      (low : List ℕ)
      → pad ≤ 4 * k
      → 0 < number_of low
      → 0 < length low
      → exponent w 0 s + 4 + pad ≡ origin + 4 * (k + length low)
      → k + length low ≤ 11
      → All IsDigit low
      → number_of low * nbase ^ k ≡ abs * 10 ^ pad
      → accumulate w s (reverse low) 0 (pos 0) none ≡ ok (pos abs)
  unfolding accumulate
  whole-read low room some_value some_digit at few digits e =
      let len = length-reverse low in
      let is_abs = trimmed (number_of low) k pad abs room e in
      let small : number_of low < 2 ^ 127 = grind (arith, ten_pos (4 * k - pad)) in
      accumulate-first w s (reverse low) (omega arith) (omega arith)
      ∙ ap (λ ds. accumulate w s ds 0 (pos 0) (some (exponent w 0 s + 4)))
          (sym (append-nil (reverse low)))
      ∙ accumulate-front w s (reverse low) [] 0 0 (exponent w 0 s + 4) refl (omega arith)
          (omega arith) (All-reverse low digits)
          (subst (λ n. n < 2 ^ 127) (sym (horner-reverse low)) small)
      ∙ ap (λ n. shift_to_0 (pos n) (some (exponent w 0 s + 4 - 4 * length (reverse low))))
          (horner-reverse low)
      ∙ ap (λ n. shift_to_0 (pos (number_of low)) (some n))
          (let e' : exponent w 0 s + 4 - 4 * length (reverse low) ≡ origin + 4 * k - pad =
              omega arith in
            e')
      ∙ shift_to_0-trimmed (number_of low) k pad abs room some_value below e

  -- The low digit is behind the scale in part, and nothing was trimmed.
  part-read :
      (d : ℕ) (low : List ℕ)
      → 0 < pad
      → pad < 4
      → exponent w 0 s + 4 + pad ≡ origin + 4 * suc (length low)
      → suc (length low) ≤ 11
      → All IsDigit (d ∷ low)
      → d + nbase * number_of low ≡ abs * 10 ^ pad
      → accumulate w s (reverse (d ∷ low)) 0 (pos 0) none ≡ ok (pos abs)
  unfolding accumulate
  part-read d [] behind small at few digits e =
      let here : ltb (exponent w 0 s) origin ≡ true = ground arith in
      let place : exponent w 0 s ≡ origin - pad = omega arith in
      rw here (
        ap (take_fraction (pos 0) none d) place
        ∙ take_fraction-alone d pad abs behind small digits.0 (omega arith) below)
  part-read d (h ∷ low) behind small at few digits e =
      let len = length-reverse (h ∷ low) in
      let last : exponent w (0 + length (reverse (h ∷ low))) s ≡ origin - pad = omega arith in
      let before : exponent w 0 s + 4 - 4 * length (reverse (h ∷ low)) ≡ origin + (4 - pad) =
        omega arith in
      let here : ltb (exponent w (0 + length (reverse (h ∷ low))) s) origin ≡ true = ground arith in
      let value = horner-reverse (h ∷ low) in
      let fits : horner 0 (reverse (h ∷ low)) < 2 ^ 127 =
        omega (arith, value, number-le (number_of (h ∷ low)) d pad abs small e) in
      rw (reverse-append (d ∷ []) (h ∷ low)) (
        accumulate-first w s (reverse (h ∷ low) ++ d ∷ [])
          (omega (arith, length-append (reverse (h ∷ low)) (d ∷ []))) (omega arith)
        ∙ accumulate-front w s (reverse (h ∷ low)) (d ∷ []) 0 0 (exponent w 0 s + 4) refl
            (omega arith) (omega arith) (All-reverse (h ∷ low) digits.1) fits
        ∙ rw (here, value, before, last)
            (take_fraction-sum (number_of (h ∷ low)) d pad abs behind small digits.0 e below))

zero_over : (n : ℕ) → 0 / n ≡ 0
zero_over zero = omega arith
zero_over (suc n) = omega arith

-- The number is not 0, so it has digits.
some_number :
    (low : List ℕ) (k pad abs : ℕ)
    → 0 < abs
    → number_of low * nbase ^ k ≡ abs * 10 ^ pad
    → 0 < number_of low
some_number low k pad abs h e = elim (Bool-cases (ltb 0 (number_of low))) [
  | inl t ↦ ground arith
  | inr f ↦
      let none_there : number_of low ≡ 0 = ground arith in
      let zero_is : 0 ≡ abs * 10 ^ pad =
        (let e' : 0 ≡ 0 * nbase ^ k = omega arith in e')
        ∙ ap (λ (n : ℕ). n * nbase ^ k) (sym none_there)
        ∙ e in
      let zero_abs : 0 / 10 ^ pad ≡ abs =
        ap (λ (n : ℕ). n / 10 ^ pad) zero_is ∙ mul-div_cancel abs (ten_pos pad) in
      absurd (omega (arith, zero_over (10 ^ pad)))
]

mul_one : (n : ℕ) → n * nbase ^ 0 ≡ n
mul_one n = omega arith

low_read :
    (low : List ℕ) (abs s pad k : ℕ)
    → 0 < abs
    → abs < 2 ^ 127
    → s < 256
    → pad < 4
    → (s + pad) % 4 ≡ 0
    → k + length low ≤ 11
    → All IsDigit low
    → number_of low * nbase ^ k ≡ abs * 10 ^ pad
    → accumulate (or_zero low (weight_of s pad (k + length low))) s (reverse low) 0 (pos 0) none
      ≡ ok (pos abs)
low_read [] abs s pad k h below byte small whole few digits e =
    absurd (omega (arith, some_number [] k pad abs h e))
low_read (d ∷ low) abs s zero zero h below byte small whole few digits e =
    whole-read abs (weight_of s 0 (0 + length (d ∷ low))) s 0 0 below (d ∷ low) (omega arith)
      (some_number (d ∷ low) 0 0 abs h e) (omega arith)
      (exponent-first s 0 (0 + length (d ∷ low)) byte small whole (omega arith) few) few digits e
low_read (d ∷ low) abs s (suc pad) zero h below byte small whole few digits e =
    part-read abs (weight_of s (suc pad) (0 + length (d ∷ low))) s (suc pad) 0 below d low
      (omega arith) small
      (exponent-first s (suc pad) (0 + length (d ∷ low)) byte small whole (omega arith) few
        ∙ omega arith)
      (omega arith) digits (sym (mul_one (number_of (d ∷ low))) ∙ e)
low_read (d ∷ low) abs s pad (suc k) h below byte small whole few digits e =
    whole-read abs (weight_of s pad (suc k + length (d ∷ low))) s pad (suc k) below (d ∷ low)
      (omega arith) (some_number (d ∷ low) (suc k) pad abs h e) (omega arith)
      (exponent-first s pad (suc k + length (d ∷ low)) byte small whole (omega arith) few) few
      digits e

-- What `from_u128_scale` makes is read as the value, but for its sign.
pub digits_read :
    (abs s sign : ℕ)
    → 0 < abs
    → abs < 2 ^ 127
    → s < 256
    → let n = from_u128_scale abs s sign s in
      accumulate n.weight s n.digits 0 (pos 0) none ≡ ok (pos abs)
unfolding from_u128_scale
digits_read abs s sign h below byte =
    let r : s % 4 < 4 = omega arith in
    let low = low_first abs (s % 4) in
    let (k, len, num) = trim_low-number low in
    let (small, whole) = pad_low_of-whole s in
    ap
      (λ n.
        accumulate (or_zero (trim_low low) (weight_of s (pad_low_of (s % 4)) n)) s
          (reverse (trim_low low)) 0 (pos 0) none)
      len
    ∙ low_read (trim_low low) abs s (pad_low_of (s % 4)) k h below byte small whole
        (omega (arith, len, length-low_first abs (s % 4)))
        (trim_low-All low (low_first-All abs (s % 4) r))
        (sym num ∙ low_first-number abs (s % 4) (omega arith) r)
