-- ===== src/Geom/Ewkb/Flags.antt =====
-- The flags of the type word as arithmetic: the SRID flag is bit 29, Z and M are bits 31 and 30.
use Prim.Native.Nat.{bit_and, bit_or}
use shpx.Prelude.{ℕ, ◌+◌, ◌-◌, ◌*◌, ◌/◌, ◌%◌, ◌^◌, ◌<◌, ◌≡◌, refl, ◌∙◌, ap, arith}
use shpx.Prelude.Bits.{
  bit_and_halves, bit_or_halves, bit_and_ones, bit_and-zero, bit_or-zero, agree_below,
  agree_below→eq,
}
use shpx.Geom.Ewkb.{srid_flag, z_flag, m_flag, not_srid_flag}

-- The three flag bits, and the 29 bits below them.
module _ (ty : ℕ) (word : ty < 2 ^ 32) where
  split : ty ≡ ty / 2 ^ 29 * 2 ^ 29 + ty % 2 ^ 29
  split = omega arith

  and_flags :
      (m s : ℕ)
      → s < 2 ^ 29
      → bit_and ty (m * 2 ^ 29 + s) ≡ bit_and (ty / 2 ^ 29) m * 2 ^ 29 + bit_and (ty % 2 ^ 29) s
  and_flags m s h =
      ap (λ t. bit_and t (m * 2 ^ 29 + s)) split
      ∙ bit_and_halves 29 (ty / 2 ^ 29) m (ty % 2 ^ 29) s (omega arith) h

  pub bit_and-srid_flag : bit_and ty srid_flag ≡ ty / 2 ^ 29 % 2 * 2 ^ 29
  unfolding agree_below
  bit_and-srid_flag = omega (
    arith,
    and_flags 1 0 (omega arith),
    bit_and-zero 29 (ty % 2 ^ 29) (omega arith),
    agree_below→eq (λ q. bit_and q 1) (λ q. q % 2) 8 refl (ty / 2 ^ 29) (omega arith),
  )

  pub bit_and-zm_flags : bit_and ty (bit_or z_flag m_flag) ≡ ty / 2 ^ 30 * 2 ^ 30
  unfolding agree_below
  bit_and-zm_flags = omega (
    arith,
    and_flags 6 0 (omega arith),
    bit_and-zero 29 (ty % 2 ^ 29) (omega arith),
    agree_below→eq (λ q. bit_and q 6) (λ q. q / 2 * 2) 8 refl (ty / 2 ^ 29) (omega arith),
  )

  pub bit_and-not_srid_flag : bit_and ty not_srid_flag ≡ ty - ty / 2 ^ 29 % 2 * 2 ^ 29
  unfolding agree_below
  bit_and-not_srid_flag = omega (
    arith,
    and_flags 6 (2 ^ 29 - 1) (omega arith),
    bit_and_ones 29 (ty % 2 ^ 29) (omega arith),
    agree_below→eq (λ q. bit_and q 6) (λ q. q / 2 * 2) 8 refl (ty / 2 ^ 29) (omega arith),
  )

  pub bit_or-srid_flag : bit_or ty srid_flag ≡ ty + (1 - ty / 2 ^ 29 % 2) * 2 ^ 29
  unfolding agree_below
  bit_or-srid_flag = omega (
    arith,
    ap (λ t. bit_or t srid_flag) split,
    bit_or_halves 29 (ty / 2 ^ 29) 1 (ty % 2 ^ 29) 0 (omega arith) (omega arith),
    bit_or-zero 29 (ty % 2 ^ 29) (omega arith),
    agree_below→eq (λ q. bit_or q 1) (λ q. q + (1 - q % 2)) 8 refl (ty / 2 ^ 29) (omega arith),
  )
