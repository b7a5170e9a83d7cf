-- ===== src/Geom/Ewkb/Runs.antt =====
-- Concrete runs of the EWKB codec, and its theorems at concrete inputs.
use shpx.Prelude.{ℕ, ◌+◌, ◌≡◌, ◌↔◌, refl, arith, List, [], ◌∷◌, none, some, false, ok, err, length}
use shpx.Geom.Types.{point, already_srid, zm_unsupported}
use shpx.Geom.Bytes.{from_bytes, to_bytes}
use shpx.Geom.Wkb.Encode.{estimate_size}
use shpx.Geom.Wkb.Layout.{layout}
use shpx.Geom.Ewkb.{encode_with_srid, strip_srid, decode}
use shpx.Geom.Ewkb.RoundTrip.{
  encode_with_srid-iff-strip_srid, encode_with_srid_twice, decode-encode_with_srid,
}

abbrev header_only : List ℕ
header_only = 1 ∷ 1 ∷ 0 ∷ 0 ∷ 0 ∷ 7 ∷ []

-- SRID 4326.
abbrev with_srid : List ℕ
with_srid = 1 ∷ 1 ∷ 0 ∷ 0 ∷ 0x20 ∷ 0xe6 ∷ 0x10 ∷ 0 ∷ 0 ∷ 7 ∷ []

encode_4326 : encode_with_srid header_only 4326 ≡ ok with_srid
unfolding encode_with_srid from_bytes to_bytes
encode_4326 = refl

-- The pattern of the SRID -1.
strip_minus_one :
    strip_srid (0 ∷ 0x20 ∷ 0 ∷ 0 ∷ 1 ∷ 0xff ∷ 0xff ∷ 0xff ∷ 0xff ∷ [])
    ≡ ok (0 ∷ 0 ∷ 0 ∷ 0 ∷ 1 ∷ [], some 0xffff_ffff)
unfolding strip_srid from_bytes to_bytes
strip_minus_one = refl

encode_z : encode_with_srid (1 ∷ 1 ∷ 0 ∷ 0 ∷ 0x80 ∷ []) 4326 ≡ err zm_unsupported
unfolding encode_with_srid from_bytes to_bytes
encode_z = refl

strip_plain : strip_srid header_only ≡ ok (header_only, none)
unfolding strip_srid from_bytes to_bytes
strip_plain = refl

encode_with_srid-iff-strip_srid_example :
    (encode_with_srid header_only 4326 ≡ ok with_srid)
    ↔ (strip_srid with_srid ≡ ok (header_only, some 4326))
encode_with_srid-iff-strip_srid_example =
    encode_with_srid-iff-strip_srid header_only with_srid 4326 (omega arith) (omega arith)
      (omega arith)

encode_with_srid_twice_example : encode_with_srid with_srid 3857 ≡ err already_srid
encode_with_srid_twice_example =
    encode_with_srid_twice header_only with_srid 4326 3857 (omega arith) encode_4326

decode-encode_with_srid_example :
    (ewkb : List ℕ) × (encode_with_srid (layout false (point 3 4)) 3857 ≡ ok ewkb)
    × (length ewkb ≡ estimate_size (point 3 4) + 4)
    × (decode ewkb ≡ ok (point 3 4, some 3857))
unfolding estimate_size
decode-encode_with_srid_example =
    decode-encode_with_srid false (point 3 4) 3857 (omega arith) (omega arith) (omega arith)
