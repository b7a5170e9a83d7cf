-- ===== src/Rdb/Uri/Decoded.antt =====
-- Percent encoding, and that decoding undoes it.
use Prim.Native.Nat.{bit_or}
use shpx.Prelude.{
  ℕ, ◌+◌, ◌*◌, ◌/◌, ◌%◌, ◌<◌, ◌≡◌, refl, ◌∙◌, ap, arith, List, [], ◌∷◌, some, ltb, if◌then◌else◌,
  All, Text,
}
use shpx.Prelude.Bits.{agree_below, agree_below→eq}
use shpx.Geom.Bytes.{IsByte}
use shpx.Rdb.Uri.{hex_val, percent_bytes, percent_decode}

-- An upper-case hexadecimal digit.
unfoldable pub hex_digit : ℕ → ℕ
hex_digit n = if ltb n 10 then 48 + n else 55 + n

-- Every byte as `%XX`.
unfoldable pub percent_encode : List ℕ → Text
unfolding hex_digit
percent_encode [] = []
percent_encode (b ∷ bs) = 37 ∷ hex_digit (b / 16) ∷ hex_digit (b % 16) ∷ percent_encode bs

hex_val-hex_digit : (n : ℕ) → n < 16 → hex_val (hex_digit n) ≡ some n
unfolding hex_val hex_digit
hex_val-hex_digit n h = ground arith

halves_joined : (b : ℕ) → b < 256 → bit_or ((b / 16) * 16 % 256) (b % 16) ≡ b
unfolding agree_below
halves_joined = agree_below→eq (λ b. bit_or ((b / 16) * 16 % 256) (b % 16)) (λ b. b) 256 refl

percent_bytes-percent_encode :
    (bs : List ℕ) → All IsByte bs → percent_bytes (percent_encode bs) ≡ bs
unfolding percent_bytes percent_encode
percent_bytes-percent_encode [] h = refl
percent_bytes-percent_encode (b ∷ bs) (hb, hbs) =
    rw
      (
        hex_val-hex_digit (b / 16) (omega arith),
        hex_val-hex_digit (b % 16) (omega arith),
        halves_joined b hb,
        percent_bytes-percent_encode bs hbs,
      )
      refl

-- Decoding the percent encoding of bytes that the UTF-8 conversion keeps gives these bytes.
pub percent_decode-percent_encode :
    (lossy : List ℕ → Text) (bs : List ℕ)
    → All IsByte bs
    → lossy bs ≡ bs
    → percent_decode lossy (percent_encode bs) ≡ bs
unfolding percent_decode
percent_decode-percent_encode lossy bs h utf8 = ap lossy (percent_bytes-percent_encode bs h) ∙ utf8
