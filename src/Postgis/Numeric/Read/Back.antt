-- ===== src/Postgis/Numeric/Read/Back.antt =====
-- The numeric of a Decimal128 is read as the Decimal128.
use shpx.Prelude.{
  ℕ, zero, suc, ◌+◌, ◌-◌, ◌*◌, ◌/◌, ◌%◌, ◌^◌, ◌<◌, ◌≤◌, ◌≡◌, refl, sym, ap, ◌∙◌, subst, arith, List,
  [], ◌∷◌, ◌++◌, reverse, none, some, true, false, ok, ltb, length, All, Bool-cases, inl, inr,
}
use mathlib.Core.List.{reverse-append}
use native.Mathlib.Nat.{pow-suc, mul_assoc, mul-div_cancel}
use shpx.Prelude.Int.{ℤ, pos, plus}
use shpx.Postgis.Numeric.{nbase, weight_of}
use shpx.Postgis.Numeric.Value.{ten_add, ten_fours, number_of, IsDigit}
use shpx.Postgis.Numeric.Read.{
  origin, exponent, digit, checked, checked_pow, shifted, shift_to_0, take_fraction, aligned,
  accumulate,
}

-- The digits from the high one on, behind `acc`.
abbrev pub horner : ℕ → List ℕ → ℕ
horner acc [] = acc
horner acc (d ∷ ds) = horner (acc * nbase + d) ds

pub horner-append : (acc : ℕ) (xs ys : List ℕ) → horner acc (xs ++ ys) ≡ horner (horner acc xs) ys
horner-append acc [] ys = refl
horner-append acc (x ∷ xs) ys = horner-append (acc * nbase + x) xs ys

pub horner-reverse : (low : List ℕ) → horner 0 (reverse low) ≡ number_of low
horner-reverse [] = refl
horner-reverse (d ∷ low) =
    rw (reverse-append (d ∷ []) low)
      (horner-append 0 (reverse low) (d ∷ []) ∙ omega (arith, horner-reverse low))

horner-ge : (acc : ℕ) (ds : List ℕ) → acc ≤ horner acc ds
horner-ge acc [] = omega arith
horner-ge acc (d ∷ ds) = omega (arith, horner-ge (acc * nbase + d) ds)

checked-pos : (n : ℕ) → n < 2 ^ 127 → checked (pos n) ≡ ok (pos n)
checked-pos n h = ground arith

shifted-pos : (n p : ℕ) → p < 39 → n * 10 ^ p < 2 ^ 127 → shifted (pos n) p ≡ ok (pos (n * 10 ^ p))
unfolding shifted checked_pow
shifted-pos n p small h =
    rw (let e : ltb p 39 ≡ true = ground arith in e) (checked-pos (n * 10 ^ p) h)

placed :
    (weight s : ℕ) (tail : List ℕ) (acc : ℤ) {i i' e e' : ℕ}
    → i ≡ i'
    → e ≡ e'
    → accumulate weight s tail i acc (some e) ≡ accumulate weight s tail i' acc (some e')
placed weight s tail acc p q = rw (p, q) refl

-- The loop over digits whose exponents are not below 0.
pub accumulate-front :
    (weight s : ℕ) (ds tail : List ℕ) (i acc pe : ℕ)
    → exponent weight i s + 4 ≡ pe
    → origin + 4 * length ds ≤ pe
    → i + length ds ≤ 65536
    → All IsDigit ds
    → horner acc ds < 2 ^ 127
    → accumulate weight s (ds ++ tail) i (pos acc) (some pe)
      ≡ accumulate weight s tail (i + length ds) (pos (horner acc ds)) (some (pe - 4 * length ds))
unfolding accumulate aligned
accumulate-front weight s [] tail i acc pe at room few h small =
    ap (λ n. accumulate weight s tail n (pos acc) (some pe)) (let e : i ≡ i + 0 = omega arith in e)
    ∙ ap (λ n. accumulate weight s tail (i + 0) (pos acc) (some n))
        (let e : pe ≡ pe - 4 * 0 = omega arith in e)
accumulate-front weight s (d ∷ ds) tail i acc pe at room few h small =
    let below : acc * nbase + d < 2 ^ 127 = omega (arith, horner-ge (acc * nbase + d) ds) in
    let e = exponent weight i s in
    let here : ltb e origin ≡ false = ground arith in
    let four : pe - e ≡ 4 = omega arith in
    let is_pos : digit d ≡ pos d = ground arith in
    rw
      (
        here,
        four,
        shifted-pos acc 4 (omega arith) (omega arith),
        is_pos,
        checked-pos (acc * nbase + d) below,
      )
      (accumulate-front weight s ds tail (suc i) (acc * nbase + d) e (omega arith) (omega arith)
          (omega arith) h.1 small
        ∙ placed weight s tail _ (omega arith) (omega arith))

pub ten_pos : (p : ℕ) → 0 < 10 ^ p
ten_pos zero = omega arith
ten_pos (suc p) = omega (arith, pow-suc 10 p, ten_pos p)

ten_ge : (j : ℕ) → 2 ^ 127 ≤ 10 ^ (39 + j)
ten_ge zero = omega arith
ten_ge (suc j) =
    subst (λ n. 2 ^ 127 ≤ 10 ^ n) (let e : suc (39 + j) ≡ 39 + suc j = omega arith in e)
      (omega (arith, pow-suc 10 (39 + j), ten_ge j))

ten_below : (n f : ℕ) → 0 < n → n * 10 ^ f < 2 ^ 127 → f < 39
ten_below n f h small = elim (Bool-cases (ltb f 39)) [
  | inl t ↦ ground arith
  | inr t ↦
      let ge =
        subst (λ x. 2 ^ 127 ≤ 10 ^ x) (let e : 39 + (f - 39) ≡ f = ground arith in e)
          (ten_ge (f - 39)) in
      absurd (grind arith)
]

-- What is left of the zeros that were trimmed.
pub trimmed :
    (n k pad abs : ℕ) → pad ≤ 4 * k → n * nbase ^ k ≡ abs * 10 ^ pad → n * 10 ^ (4 * k - pad) ≡ abs
trimmed n k pad abs room e =
    sym (mul-div_cancel (n * 10 ^ (4 * k - pad)) (ten_pos pad))
    ∙ ap (λ (t : ℕ). t / 10 ^ pad)
        (mul_assoc n (10 ^ (4 * k - pad)) (10 ^ pad)
          ∙ ap (λ (t : ℕ). n * t)
              (sym (ten_add (4 * k - pad) pad)
                ∙ ap (λ m. 10 ^ m) (let e' : 4 * k - pad + pad ≡ 4 * k = omega arith in e')
                ∙ sym (ten_fours k))
          ∙ e)
    ∙ mul-div_cancel abs (ten_pos pad)

shift_to_0-above :
    (n f : ℕ)
    → f < 39
    → n * 10 ^ f < 2 ^ 127
    → shift_to_0 (pos n) (some (origin + f)) ≡ ok (pos (n * 10 ^ f))
unfolding shift_to_0
shift_to_0-above n zero h small = ap (λ m. ok (pos m)) (let e : n ≡ n * 10 ^ 0 = omega arith in e)
shift_to_0-above n (suc f) h small =
    let above : ltb origin (origin + suc f) ≡ true = ground arith in
    let same : origin + suc f - origin ≡ suc f = omega arith in
    rw (above, same) (shifted-pos n (suc f) h small)

pub shift_to_0-trimmed :
    (n k pad abs : ℕ)
    → pad ≤ 4 * k
    → 0 < n
    → abs < 2 ^ 127
    → n * nbase ^ k ≡ abs * 10 ^ pad
    → shift_to_0 (pos n) (some (origin + 4 * k - pad)) ≡ ok (pos abs)
shift_to_0-trimmed n k pad abs room h below e =
    let is_abs = trimmed n k pad abs room e in
    ap (λ m. shift_to_0 (pos n) (some m))
      (let e' : origin + 4 * k - pad ≡ origin + (4 * k - pad) = omega arith in e')
    ∙ shift_to_0-above n (4 * k - pad) (ten_below n (4 * k - pad) h (omega arith)) (omega arith)
    ∙ ap (λ m. ok (pos m)) is_abs

-- The exponent of the first of `m` digits, zeros that were trimmed included.
pub exponent-first :
    (s pad m : ℕ)
    → s < 256
    → pad < 4
    → (s + pad) % 4 ≡ 0
    → 0 < m
    → m ≤ 11
    → exponent (weight_of s pad m) 0 s + 4 + pad ≡ origin + 4 * m
exponent-first s pad m hs hp whole h few = omega arith

-- The first digit: nothing is shifted.
pub accumulate-first :
    (weight s : ℕ) (ds : List ℕ)
    → 0 < length ds
    → origin ≤ exponent weight 0 s
    → accumulate weight s ds 0 (pos 0) none
      ≡ accumulate weight s ds 0 (pos 0) (some (exponent weight 0 s + 4))
unfolding accumulate aligned
accumulate-first weight s [] some_digit h = absurd (omega arith)
accumulate-first weight s (d ∷ ds) some_digit h =
    let here : ltb (exponent weight 0 s) origin ≡ false = ground arith in
    let four : exponent weight 0 s + 4 - exponent weight 0 s ≡ 4 = omega arith in
    rw (here, four) refl

-- The last digit, of which `pad` decimal digits are behind the scale.
fraction_sum :
    (n d pad abs : ℕ)
    → 0 < pad
    → pad < 4
    → d + nbase * n ≡ abs * 10 ^ pad
    → n * 10 ^ (4 - pad) + d / 10 ^ pad ≡ abs
fraction_sum n d zero abs h small e = absurd (omega arith)
fraction_sum n d (suc zero) abs h small e = omega (arith, e)
fraction_sum n d (suc (suc zero)) abs h small e = omega (arith, e)
fraction_sum n d (suc (suc (suc zero))) abs h small e = omega (arith, e)
fraction_sum n d (suc (suc (suc (suc pad)))) abs h small e = absurd (omega arith)

added : (n q abs : ℕ) → n + q ≡ abs → abs < 2 ^ 127 → checked (plus (pos n) (pos q)) ≡ ok (pos abs)
added n q abs e h = ap (λ m. checked (pos m)) e ∙ checked-pos abs h

pub take_fraction-sum :
    (n d pad abs : ℕ)
    → 0 < pad
    → pad < 4
    → IsDigit d
    → d + nbase * n ≡ abs * 10 ^ pad
    → abs < 2 ^ 127
    → take_fraction (pos n) (some (origin + (4 - pad))) d (origin - pad) ≡ ok (pos abs)
unfolding take_fraction checked_pow
take_fraction-sum n d pad abs h small is_digit e below =
    let sum = fraction_sum n d pad abs h small e in
    let is_pos : digit d ≡ pos d = ground arith in
    let back : origin - (origin - pad) ≡ pad = omega arith in
    let fits : ltb pad 39 ≡ true = ground arith in
    rw (shift_to_0-above n (4 - pad) (omega arith) (omega arith), back, fits, is_pos)
      (added (n * 10 ^ (4 - pad)) (d / 10 ^ pad) abs sum below)

pub take_fraction-alone :
    (d pad abs : ℕ)
    → 0 < pad
    → pad < 4
    → IsDigit d
    → d ≡ abs * 10 ^ pad
    → abs < 2 ^ 127
    → take_fraction (pos 0) none d (origin - pad) ≡ ok (pos abs)
unfolding take_fraction shift_to_0 checked_pow
take_fraction-alone d pad abs h small is_digit e below =
    let is_pos : digit d ≡ pos d = ground arith in
    let back : origin - (origin - pad) ≡ pad = omega arith in
    let fits : ltb pad 39 ≡ true = ground arith in
    rw (back, fits, is_pos)
      (added 0 (d / 10 ^ pad) abs
        (let e' : 0 + d / 10 ^ pad ≡ d / 10 ^ pad = omega arith in
          e' ∙ ap (λ m. m / 10 ^ pad) e ∙ mul-div_cancel abs (ten_pos pad))
        below)
