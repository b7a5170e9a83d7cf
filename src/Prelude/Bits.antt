-- ===== src/Prelude/Bits.antt =====
-- `&` and `|` on words as arithmetic: both work on the two halves of a word apart.
use Prim.Native.Nat.{
  ℕ, zero, suc, ◌+◌, ◌-◌, ◌*◌, ◌/◌, ◌%◌, ◌^◌, ◌≤◌, ◌<◌, min, max, bit_and, bit_or, digits,
  bit_and-bitwise, bit_or-bitwise,
}
use mathlib.Core.Path.{◌≡◌, refl, ap}
use mathlib.Core.Bool.{Bool, true, ◌&&◌}
use shpx.Prelude.Tests.{◌==◌}
use native.Mathlib.Omega.{arith}
use native.Mathlib.Nat.{pow-suc, one-le-pow}

-- Two counts of digits that both suffice give one result.
module _ (rest : ℕ → ℕ) (op : ℕ → ℕ → ℕ) where
  enough_digits : (m n a b : ℕ) → a ≤ m → a ≤ n → digits rest op m a b ≡ digits rest op n a b
  enough_digits m zero zero b h k = at_zero m
    where
      at_zero : (j : ℕ) → digits rest op j 0 b ≡ rest b
      at_zero zero = refl
      at_zero (suc j) = refl
  enough_digits zero (suc n) zero b h k = refl
  enough_digits (suc m) (suc n) zero b h k = refl
  enough_digits m zero (suc a) b h k = absurd (omega arith)
  enough_digits zero (suc n) (suc a) b h k = absurd (omega arith)
  enough_digits (suc m) (suc n) (suc a) b h k =
      ap (λ (t : ℕ). t * 2 + op (suc a % 2) (b % 2))
        (enough_digits m n (suc a / 2) (b / 2) (omega arith) (omega arith))

-- The lowest digit apart.
pub bit_and_step : (a b : ℕ) → bit_and a b ≡ bit_and (a / 2) (b / 2) * 2 + min (a % 2) (b % 2)
bit_and_step zero b = omega (arith, bit_and-bitwise 0 b, bit_and-bitwise 0 (b / 2))
bit_and_step (suc a) b = omega (
  arith,
  bit_and-bitwise (suc a) b,
  bit_and-bitwise (suc a / 2) (b / 2),
  enough_digits (λ _. 0) min a (suc a / 2) (suc a / 2) (b / 2) (omega arith) (omega arith),
)

pub bit_or_step : (a b : ℕ) → bit_or a b ≡ bit_or (a / 2) (b / 2) * 2 + max (a % 2) (b % 2)
bit_or_step zero b = omega (arith, bit_or-bitwise 0 b, bit_or-bitwise 0 (b / 2))
bit_or_step (suc a) b = omega (
  arith,
  bit_or-bitwise (suc a) b,
  bit_or-bitwise (suc a / 2) (b / 2),
  enough_digits (λ y. y) max a (suc a / 2) (suc a / 2) (b / 2) (omega arith) (omega arith),
)

mul_double : (q k : ℕ) → q * 2 ^ suc k ≡ q * 2 ^ k * 2
mul_double q k = omega (arith, ap (λ (t : ℕ). q * t) (pow-suc 2 k))

-- The high parts and the low `k` bits apart.
pub bit_and_halves :
    (k q m r s : ℕ)
    → r < 2 ^ k
    → s < 2 ^ k
    → bit_and (q * 2 ^ k + r) (m * 2 ^ k + s) ≡ bit_and q m * 2 ^ k + bit_and r s
bit_and_halves zero q m r s hr hs = ground (arith, bit_and_step 0 0)
bit_and_halves (suc k) q m r s hr hs = ground (
  arith,
  pow-suc 2 k,
  mul_double q k,
  mul_double m k,
  mul_double (bit_and q m) k,
  bit_and_step (q * 2 ^ suc k + r) (m * 2 ^ suc k + s),
  bit_and_step r s,
  bit_and_halves k q m (r / 2) (s / 2) (omega (arith, pow-suc 2 k)) (omega (arith, pow-suc 2 k)),
)

pub bit_or_halves :
    (k q m r s : ℕ)
    → r < 2 ^ k
    → s < 2 ^ k
    → bit_or (q * 2 ^ k + r) (m * 2 ^ k + s) ≡ bit_or q m * 2 ^ k + bit_or r s
bit_or_halves zero q m r s hr hs = ground (arith, bit_or_step 0 0)
bit_or_halves (suc k) q m r s hr hs = ground (
  arith,
  pow-suc 2 k,
  mul_double q k,
  mul_double m k,
  mul_double (bit_or q m) k,
  bit_or_step (q * 2 ^ suc k + r) (m * 2 ^ suc k + s),
  bit_or_step r s,
  bit_or_halves k q m (r / 2) (s / 2) (omega (arith, pow-suc 2 k)) (omega (arith, pow-suc 2 k)),
)

-- A mask of ones keeps a number that fits it, and zero adds nothing.
pub bit_and_ones : (k r : ℕ) → r < 2 ^ k → bit_and r (2 ^ k - 1) ≡ r
bit_and_ones zero r h = let e : r ≡ 0 = omega arith in rw e refl
bit_and_ones (suc k) r h = ground (
  arith,
  pow-suc 2 k,
  one-le-pow k 2,
  bit_and_step r (2 ^ suc k - 1),
  bit_and_ones k (r / 2) (omega (arith, pow-suc 2 k)),
)

pub bit_and-zero : (k r : ℕ) → r < 2 ^ k → bit_and r 0 ≡ 0
bit_and-zero zero r h = let e : r ≡ 0 = omega arith in rw e refl
bit_and-zero (suc k) r h =
    omega
      (arith, pow-suc 2 k, bit_and_step r 0, bit_and-zero k (r / 2) (omega (arith, pow-suc 2 k)))

pub bit_or-zero : (k r : ℕ) → r < 2 ^ k → bit_or r 0 ≡ r
bit_or-zero zero r h = let e : r ≡ 0 = omega arith in rw e refl
bit_or-zero (suc k) r h =
    omega (arith, pow-suc 2 k, bit_or_step r 0, bit_or-zero k (r / 2) (omega (arith, pow-suc 2 k)))

-- A law of the bits of a small word holds if it holds at each word.
unfoldable pub agree_below : (ℕ → ℕ) → (ℕ → ℕ) → ℕ → Bool
agree_below f g zero = true
agree_below f g (suc n) = f n == g n && agree_below f g n

pub agree_below→eq : (f g : ℕ → ℕ) (n : ℕ) → agree_below f g n ≡ true → (i : ℕ) → i < n → f i ≡ g i
unfolding agree_below
agree_below→eq f g zero e i h = absurd (omega arith)
agree_below→eq f g (suc n) e i h = ground (arith, agree_below→eq f g n (ground arith) i)
