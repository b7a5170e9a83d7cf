-- ===== src/Csv/Writer/Decimal.antt =====
-- The text of a Decimal128.
use shpx.Prelude.{
  Text, ℕ, zero, suc, ◌+◌, ◌-◌, ◌*◌, ◌/◌, ◌%◌, ◌^◌, ◌<◌, ◌≤◌, ◌≡◌, refl, sym, ap, ◌∙◌, subst, arith,
  [], ◌∷◌, ◌++◌, append_assoc, append-nil, Bool-cases, inl, inr, ltb, length, length-append,
  length-drop, length-take, take, drop, take-append-drop, All, All-append,
}
use native.Mathlib.Nat.{pow-suc}
use shpx.Prelude.Int.{ℤ, pos, abs}
use shpx.Shp.Names.{decimal}
use shpx.Csv.Writer.{to_string, push_zeros, with_point, sign_of, format_decimal128}

abbrev pub IsDigit : ℕ → Type 0
IsDigit b = (48 ≤ b) × (b < 58)

-- The number that digits stand for, behind those that make `acc`.
abbrev pub number : ℕ → Text → ℕ
number acc [] = acc
number acc (b ∷ t) = number (10 * acc + (b - 48)) t

number-append : (acc : ℕ) (s t : Text) → number acc (s ++ t) ≡ number (number acc s) t
number-append acc [] t = refl
number-append acc (b ∷ s) t = number-append (10 * acc + (b - 48)) s t

decimal-number : (digits n : ℕ) → n < 10 ^ digits → number 0 (decimal digits n) ≡ n
unfolding decimal
decimal-number zero n h = omega arith
decimal-number (suc digits) n h = elim (Bool-cases (ltb n 10)) [
  | inl t ↦ rw t (ground arith)
  | inr f ↦ rw f (
      number-append 0 (decimal digits (n / 10)) ((48 + n % 10) ∷ [])
      ∙ rw (decimal-number digits (n / 10) (omega (arith, pow-suc 10 digits))) (omega arith))
]

decimal-All : (digits n : ℕ) → All IsDigit (decimal digits n)
unfolding decimal
decimal-All zero n = tt
decimal-All (suc digits) n = elim (Bool-cases (ltb n 10)) [
  | inl t ↦ rw t ((omega arith, omega arith), tt)
  | inr f ↦ rw f (
      All-append IsDigit (decimal digits (n / 10)) _ (decimal-All digits (n / 10))
        ((omega arith, omega arith), tt))
]

abbrev zeros : ℕ → Text
zeros zero = []
zeros (suc n) = 48 ∷ zeros n

push_zeros-append : (n : ℕ) (out : Text) → push_zeros n out ≡ out ++ zeros n
unfolding push_zeros
push_zeros-append zero out = sym (append-nil out)
push_zeros-append (suc n) out =
    push_zeros-append n (out ++ 48 ∷ []) ∙ append_assoc out (48 ∷ []) (zeros n)

zeros-All : (n : ℕ) → All IsDigit (zeros n)
zeros-All zero = tt
zeros-All (suc n) = ((omega arith, omega arith), zeros-All n)

zeros-number : (n : ℕ) (t : Text) → number 0 (zeros n ++ t) ≡ number 0 t
zeros-number zero t = refl
zeros-number (suc n) t = zeros-number n t

length-zeros : (n : ℕ) → length (zeros n) ≡ n
length-zeros zero = refl
length-zeros (suc n) = ap suc (length-zeros n)

-- A sign, digits, a point and `s` digits, which together stand for `n`.
abbrev pub IsPointed : Text → ℕ → ℕ → Text → Type 0
IsPointed sign n s t =
    (whole : Text) × (frac : Text) × (t ≡ sign ++ (whole ++ 46 ∷ frac))
    × (length frac ≡ s)
    × (0 < length whole)
    × All IsDigit (whole ++ frac)
    × (number 0 (whole ++ frac) ≡ n)

with_point-IsPointed :
    (sign abs : Text) (s : ℕ)
    → All IsDigit abs
    → IsPointed sign (number 0 abs) s (with_point sign abs s)
unfolding with_point
with_point-IsPointed sign abs s digits = elim (Bool-cases (ltb s (length abs))) [
  | inl long ↦ rw long (
    take (length abs - s) abs,
    drop (length abs - s) abs,
    append_assoc (sign ++ take (length abs - s) abs) (46 ∷ []) (drop (length abs - s) abs)
        ∙ append_assoc sign (take (length abs - s) abs) (46 ∷ drop (length abs - s) abs),
    length-drop (length abs - s) abs ∙ ground arith,
    ground (arith, length-take (length abs - s) abs),
    rw (take-append-drop (length abs - s) abs) digits,
    rw (take-append-drop (length abs - s) abs),
  )
  | inr short ↦ rw short (
    48 ∷ [],
    zeros (s - length abs) ++ abs,
    rw (push_zeros-append (s - length abs) (sign ++ 48 ∷ 46 ∷ [])) (
        append_assoc (sign ++ 48 ∷ 46 ∷ []) (zeros (s - length abs)) abs
        ∙ append_assoc sign (48 ∷ 46 ∷ []) _),
    length-append (zeros (s - length abs)) abs ∙ ground (arith, length-zeros (s - length abs)),
    omega arith,
    (
      (omega arith, omega arith),
      All-append IsDigit (zeros (s - length abs)) abs (zeros-All (s - length abs)) digits,
    ),
    zeros-number (s - length abs) abs,
  )
]

-- With a scale above 0 a decimal below 10 ^ 39, as every i128 is, is written as its sign, one digit or
-- more, a point, and as many digits as the scale is, which together stand for its absolute value.
pub format_decimal128-IsPointed :
    (value : ℤ) (s : ℕ)
    → abs value < 10 ^ 39
    → IsPointed (sign_of value) (abs value) (suc s) (format_decimal128 value (pos (suc s)))
unfolding format_decimal128 to_string
format_decimal128-IsPointed value s h =
    subst (λ n. IsPointed (sign_of value) n (suc s) (format_decimal128 value (pos (suc s))))
      (decimal-number 39 (abs value) h)
      (with_point-IsPointed (sign_of value) (decimal 39 (abs value)) (suc s)
        (decimal-All 39 (abs value)))
