-- ===== src/Geom/Wkb/Runs.antt =====
-- Concrete runs of the WKB codec, and its theorems at concrete geometries.
use shpx.Prelude.{ℕ, ◌≡◌, ◌≢◌, refl, arith, List, [], ◌∷◌, true, false, ok, err, Ensures, length}
use shpx.Geom.Types.{
  F64, Coord, Geom, IsGeom, point, multi_polygon, bad_byte_order, truncated, count_short,
  out_of_fuel,
}
use shpx.Geom.Wkb.Encode.{estimate_size, encode}
use shpx.Geom.Wkb.Encode.Written.{Fits, Exceeds, encode-Ensures}
use shpx.Geom.Wkb.Decode.{decode}
use shpx.Geom.Wkb.Layout.{layout}
use shpx.Geom.Wkb.RoundTrip.{decode-layout}
use shpx.Geom.Wkb.Accepts.{decode-Ensures}
use shpx.Geom.Wkb.Canonical.{decode-encode, encode-decode}

-- 1.0 and -2.25 as bit patterns.
abbrev one : F64
one = 0x3ff0_0000_0000_0000

abbrev minus_two_and_a_quarter : F64
minus_two_and_a_quarter = 0xc002_0000_0000_0000

abbrev square : List Coord
square = (0, 0) ∷ (one, 0) ∷ (one, one) ∷ (0, 0) ∷ []

abbrev two_polygons : Geom
two_polygons = multi_polygon ((square ∷ []) ∷ (square ∷ square ∷ []) ∷ [])

abbrev big_endian_point : List ℕ
big_endian_point =
    0 ∷ 0 ∷ 0 ∷ 0 ∷ 1 ∷ 0x3f ∷ 0xf0 ∷ 0 ∷ 0 ∷ 0 ∷ 0 ∷ 0 ∷ 0 ∷ 0xc0 ∷ 0x02 ∷ 0 ∷ 0 ∷ 0 ∷ 0 ∷ 0 ∷ 0
    ∷ []

encode_point :
    encode (point one 0)
    ≡ ok (
        1 ∷ 1 ∷ 0 ∷ 0 ∷ 0 ∷ 0 ∷ 0 ∷ 0 ∷ 0 ∷ 0 ∷ 0 ∷ 0xf0 ∷ 0x3f ∷ 0 ∷ 0 ∷ 0 ∷ 0 ∷ 0 ∷ 0 ∷ 0 ∷ 0
        ∷ [])
unfolding encode
encode_point = refl

decode_big_endian : decode big_endian_point ≡ ok (point one minus_two_and_a_quarter)
unfolding decode
decode_big_endian = refl

decode_bad_order : decode (2 ∷ 1 ∷ 0 ∷ 0 ∷ 0 ∷ []) ≡ err (bad_byte_order 2)
unfolding decode
decode_bad_order = refl

decode_short : decode (1 ∷ 1 ∷ 0 ∷ []) ≡ err (truncated 1 4)
unfolding decode
decode_short = refl

-- A count of 2 ^ 32 - 1 points is refused before any is read.
decode_huge_count :
    decode (1 ∷ 2 ∷ 0 ∷ 0 ∷ 0 ∷ 0xff ∷ 0xff ∷ 0xff ∷ 0xff ∷ [])
    ≡ err (count_short 0xffff_ffff 0xf_ffff_fff0 0)
unfolding decode
decode_huge_count = refl

decode-encode_example :
    (bytes : List ℕ) × (encode two_polygons ≡ ok bytes)
    × (length bytes ≡ estimate_size two_polygons)
    × (decode bytes ≡ ok two_polygons)
unfolding estimate_size
decode-encode_example = decode-encode two_polygons (omega arith) (omega arith)

encode-decode_example :
    (bytes' : List ℕ) × (encode (point one minus_two_and_a_quarter) ≡ ok bytes')
    × (length bytes' ≡ length big_endian_point)
    × (decode bytes' ≡ ok (point one minus_two_and_a_quarter))
encode-decode_example =
    encode-decode big_endian_point (point one minus_two_and_a_quarter) (omega arith) (omega arith)
      decode_big_endian

decode-layout_example : decode (layout false two_polygons) ≡ ok two_polygons
unfolding estimate_size
decode-layout_example = decode-layout false two_polygons (omega arith) (omega arith)

decode-Ensures_example :
    Ensures
      (λ g. IsGeom g × (estimate_size g ≡ length big_endian_point))
      (λ e. e ≢ out_of_fuel)
      (decode big_endian_point)
decode-Ensures_example = decode-Ensures big_endian_point (omega arith)

encode-Ensures_example :
    Ensures
      (λ out. Fits two_polygons × (out ≡ layout true two_polygons))
      (λ e. (Fits two_polygons → ⊥) × Exceeds e)
      (encode two_polygons)
encode-Ensures_example = encode-Ensures two_polygons
