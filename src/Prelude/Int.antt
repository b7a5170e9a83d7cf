-- ===== src/Prelude/Int.antt =====
-- Signed integers, and how Display writes them.
use shpx.Prelude.Texts.{Text}
use Prim.Native.Nat.{ℕ, zero, suc, ◌+◌, ◌-◌, ◌*◌}
use shpx.Prelude.Tests.{ltb, if◌then◌else◌}
use mathlib.Core.List.{◌∷◌}

-- `negsuc n` is -(n + 1).
pub data ℤ : Type 0 where
  pos : ℕ → ℤ
  negsuc : ℕ → ℤ

-- `unsigned_abs`
abbrev pub abs : ℤ → ℕ
abs (pos n) = n
abs (negsuc n) = suc n

-- `to_string`, where `show` writes a natural number.
abbrev pub show_int : (ℕ → Text) → ℤ → Text
show_int show (pos n) = show n
show_int show (negsuc n) = 45 ∷ show (suc n)

-- `x * k` and `x + y`
abbrev pub times : ℤ → ℕ → ℤ
times (pos n) k = pos (n * k)
times (negsuc n) zero = pos 0
times (negsuc n) (suc k) = negsuc (suc n * suc k - 1)

abbrev pub sub_ℕ : ℕ → ℕ → ℤ
sub_ℕ a b = if ltb a b then negsuc (b - a - 1) else pos (a - b)

abbrev pub plus : ℤ → ℤ → ℤ
plus (pos a) (pos b) = pos (a + b)
plus (pos a) (negsuc b) = sub_ℕ a (suc b)
plus (negsuc a) (pos b) = sub_ℕ b (suc a)
plus (negsuc a) (negsuc b) = negsuc (suc (a + b))
