-- ===== src/Postgis/Numeric/Value.antt =====
-- The number that a PgNumeric stands for.
use shpx.Prelude.{
  ℕ, zero, suc, ◌+◌, ◌*◌, ◌/◌, ◌%◌, ◌^◌, ◌<◌, ◌≤◌, ◌≡◌, refl, sym, ◌∙◌, ap, arith, List, [], ◌∷◌,
  reverse, ◌==◌, length, All, Bool-cases, inl, inr,
}
use native.Mathlib.Nat.{pow-suc, mul_assoc}
use shpx.Postgis.Numeric.{
  PgNumeric, nbase, push_digits, low_first, trim_low, pad_low_of, weight_of, or_zero,
  from_u128_scale,
}

-- Digits to the base 10000, the low one first.
abbrev pub number_of : List ℕ → ℕ
number_of [] = 0
number_of (d ∷ ds) = d + nbase * number_of ds

push_step : (rounds n : ℕ) → n < nbase ^ suc rounds → n / nbase < nbase ^ rounds
push_step rounds n h = omega (arith, pow-suc nbase rounds)

push_digits-number : (rounds n : ℕ) → n < nbase ^ rounds → number_of (push_digits rounds n) ≡ n
unfolding push_digits
push_digits-number zero n h = omega arith
push_digits-number (suc rounds) n h = elim (Bool-cases (n == 0)) [
  | inl t ↦ rw t (ground arith)
  | inr f ↦ rw f (rw (push_digits-number rounds (n / nbase) (push_step rounds n h)) (omega arith))
]

zero_dropped : (k d v w : ℕ) → d ≡ 0 → v ≡ w * nbase ^ k → d + nbase * v ≡ w * nbase ^ suc k
zero_dropped k d v w z e = rw (z, e, pow-suc nbase k) (grind arith)

-- Trimming takes zeros off the low end.
pub trim_low-number :
    (ds : List ℕ)
    → (k : ℕ) × (length ds ≡ k + length (trim_low ds))
      × (number_of ds ≡ number_of (trim_low ds) * nbase ^ k)
unfolding trim_low
trim_low-number [] = (0, refl, omega arith)
trim_low-number (d ∷ ds) = elim (Bool-cases (d == 0)) [
  | inl t ↦
      let (k, len, num) = trim_low-number ds in
      rw t (suc k, omega arith, zero_dropped k d _ _ (ground arith) num)
  | inr f ↦ rw f (0, omega arith, omega arith)
]

pub low_first-number :
    (abs r : ℕ) → abs < 2 ^ 128 → r < 4 → number_of (low_first abs r) ≡ abs * 10 ^ pad_low_of r
unfolding low_first
low_first-number abs zero h small = push_digits-number 10 abs (omega arith) ∙ omega arith
low_first-number abs (suc zero) h small =
    omega (arith, push_digits-number 10 (abs / 10) (omega arith))
low_first-number abs (suc (suc zero)) h small =
    omega (arith, push_digits-number 10 (abs / 100) (omega arith))
low_first-number abs (suc (suc (suc zero))) h small =
    omega (arith, push_digits-number 10 (abs / 1000) (omega arith))
low_first-number abs (suc (suc (suc (suc n)))) h small = absurd (omega arith)

pub ten_add : (m p : ℕ) → 10 ^ (m + p) ≡ 10 ^ m * 10 ^ p
ten_add m zero = ap (λ n. 10 ^ n) (let e : m + 0 ≡ m = omega arith in e) ∙ omega arith
ten_add m (suc p) =
    ap (λ n. 10 ^ n) (let e : m + suc p ≡ suc (m + p) = omega arith in e)
    ∙ rw (pow-suc 10 (m + p), pow-suc 10 p, ten_add m p) (mul_assoc (10 ^ m) (10 ^ p) 10)

pub ten_fours : (k : ℕ) → nbase ^ k ≡ 10 ^ (4 * k)
ten_fours zero = refl
ten_fours (suc k) =
    pow-suc nbase k
    ∙ ap (λ (t : ℕ). t * nbase) (ten_fours k)
    ∙ sym (ap (λ n. 10 ^ n) (let e : 4 * suc k ≡ 4 * k + 4 = omega arith in e) ∙ ten_add (4 * k) 4)

length-push_digits : (rounds n : ℕ) → length (push_digits rounds n) ≤ rounds
unfolding push_digits
length-push_digits zero n = omega arith
length-push_digits (suc rounds) n = ground (arith, length-push_digits rounds (n / 10000))

pub length-low_first : (abs r : ℕ) → length (low_first abs r) ≤ 11
unfolding low_first
length-low_first abs r =
    ground (arith, length-push_digits 10 abs, length-push_digits 10 (abs / 10 ^ r))

pub length-trim_low : (ds : List ℕ) → length (trim_low ds) ≤ length ds
unfolding trim_low
length-trim_low [] = omega arith
length-trim_low (d ∷ ds) = ground (arith, length-trim_low ds)

-- A digit to the base 10000.
abbrev pub IsDigit : ℕ → Type 0
IsDigit d = d < nbase

push_digits-All : (rounds n : ℕ) → All IsDigit (push_digits rounds n)
unfolding push_digits
push_digits-All zero n = tt
push_digits-All (suc rounds) n = elim (Bool-cases (n == 0)) [
  | inl t ↦ rw t tt
  | inr f ↦ rw f (omega arith, push_digits-All rounds (n / nbase))
]

pub low_first-All : (abs r : ℕ) → r < 4 → All IsDigit (low_first abs r)
unfolding low_first
low_first-All abs zero small = push_digits-All 10 abs
low_first-All abs (suc zero) small = (omega arith, push_digits-All 10 (abs / 10))
low_first-All abs (suc (suc zero)) small = (omega arith, push_digits-All 10 (abs / 100))
low_first-All abs (suc (suc (suc zero))) small = (omega arith, push_digits-All 10 (abs / 1000))
low_first-All abs (suc (suc (suc (suc n)))) small = absurd (omega arith)

pub trim_low-All : (ds : List ℕ) → All IsDigit ds → All IsDigit (trim_low ds)
unfolding trim_low
trim_low-All [] h = tt
trim_low-All (d ∷ ds) h = elim (Bool-cases (d == 0)) [
  | inl t ↦ rw t (trim_low-All ds h.1)
  | inr f ↦ rw f h
]

-- The numeric is `abs / 10 ^ scale`: with its digits, which are below 10000, as one number, and with
-- 10000 ^ weight as the place of the first of them. A weight is a 16-bit pattern and is moved by
-- 32768 here; `number / 10 ^ v * 10 ^ u` says the same of the number without negative exponents.
abbrev pub IsNumeric : ℕ → ℕ → PgNumeric → Type 0
IsNumeric abs scale n =
    (low : List ℕ) × (u : ℕ) × (v : ℕ) × (n.digits ≡ reverse low)
    × All IsDigit low
    × (number_of low * 10 ^ u ≡ abs * 10 ^ v)
    × (4 * ((n.weight + 32768) % 65536) + scale + v ≡ 4 * (length low + 32767) + u)

or_zero-some :
    (low : List ℕ) (k m w : ℕ)
    → 0 < m
    → number_of low * nbase ^ k ≡ m
    → (or_zero low w ≡ w) × (0 < length low)
or_zero-some [] k m w h e = absurd (omega (arith, e))
or_zero-some (d ∷ ds) k m w h e = (refl, omega arith)

pad_pos : (abs r : ℕ) → 0 < abs → r < 4 → 0 < abs * 10 ^ pad_low_of r
pad_pos abs zero h small = omega arith
pad_pos abs (suc zero) h small = omega arith
pad_pos abs (suc (suc zero)) h small = omega arith
pad_pos abs (suc (suc (suc zero))) h small = omega arith
pad_pos abs (suc (suc (suc (suc n)))) h small = absurd (omega arith)

pub pad_low_of-whole : (s : ℕ) → (pad_low_of (s % 4) < 4) × ((s + pad_low_of (s % 4)) % 4 ≡ 0)
pad_low_of-whole s = elim (Bool-cases (s % 4 == 0)) [
  | inl t ↦ rw t (omega arith, ground arith)
  | inr f ↦ rw f (ground arith, ground arith)
]

place_of_first :
    (scale pad len m k w : ℕ)
    → scale < 256
    → pad < 4
    → (scale + pad) % 4 ≡ 0
    → 0 < m
    → len ≤ 11
    → len ≡ k + m
    → w ≡ weight_of scale pad len
    → 4 * ((w + 32768) % 65536) + scale + pad ≡ 4 * (m + 32767) + 4 * k
place_of_first scale pad len m k w byte small whole some_digit few e at = omega (arith, e, at)

-- `from_u128_scale` of a u128 above 0 and the scale of a u8 makes the numeric of `abs / 10 ^ scale`
-- with the sign and the dscale that it is given.
pub from_u128_scale-IsNumeric :
    (abs scale sign dscale : ℕ)
    → 0 < abs
    → abs < 2 ^ 128
    → scale < 256
    → let n = from_u128_scale abs scale sign dscale in
      IsNumeric abs scale n × (n.sign ≡ sign) × (n.dscale ≡ dscale)
unfolding from_u128_scale
from_u128_scale-IsNumeric abs scale sign dscale h bits byte =
    let r : scale % 4 < 4 = omega arith in
    let pushed = low_first abs (scale % 4) in
    let (k, len, num) = trim_low-number pushed in
    let value = sym num ∙ low_first-number abs (scale % 4) bits r in
    let (same, some_digit) =
      or_zero-some (trim_low pushed) k _ _ (pad_pos abs (scale % 4) h r) value in
    let (small, whole) = pad_low_of-whole scale in
    (
      (
        trim_low pushed,
        4 * k,
        pad_low_of (scale % 4),
        refl,
        trim_low-All pushed (low_first-All abs (scale % 4) r),
        ap (λ (t : ℕ). number_of (trim_low pushed) * t) (sym (ten_fours k)) ∙ value,
        place_of_first scale (pad_low_of (scale % 4)) (length pushed) (length (trim_low pushed)) k _
            byte small whole some_digit (length-low_first abs (scale % 4)) len same,
      ),
      refl,
      refl,
    )
