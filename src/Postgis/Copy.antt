-- ===== src/Postgis/Copy.antt =====
-- crates/shpx-driver-postgis/src/copy_binary.rs: the fields of a COPY row. An i32 length is written
-- with four bytes; the source panics on a payload that is too long for it, which is `none` here.
pub mod Fields
pub mod Row
mod Runs
use shpx.Prelude.{
  ℕ, ◌+◌, ◌*◌, ◌^◌, List, [], ◌∷◌, ◌++◌, Option, none, some, Result, ok, err, false, ltb,
  if◌then◌else◌, length,
}
use shpx.Geom.Types.{Fault}
use shpx.Geom.Bytes.{to_bytes}
use shpx.Geom.Ewkb.{encode_with_srid}
use shpx.Postgis.Numeric.{PgNumeric, write_payload}

abbrev pub copy_header : List ℕ
copy_header =
    80 ∷ 71 ∷ 67 ∷ 79 ∷ 80 ∷ 89 ∷ 10 ∷ 0xff ∷ 13 ∷ 10 ∷ 0 ∷ 0 ∷ 0 ∷ 0 ∷ 0 ∷ 0 ∷ 0 ∷ 0 ∷ 0 ∷ []

abbrev pub copy_trailer : List ℕ
copy_trailer = 0xff ∷ 0xff ∷ []

unfoldable pub write_copy_header : List ℕ → List ℕ
write_copy_header out = out ++ copy_header

unfoldable pub write_copy_trailer : List ℕ → List ℕ
write_copy_trailer out = out ++ copy_trailer

-- `out.put_i32(-1)`
unfoldable pub encode_null : List ℕ → List ℕ
unfolding to_bytes
encode_null out = out ++ to_bytes false 4 0xffff_ffff

unfoldable pub put_field : List ℕ → List ℕ → Option (List ℕ)
unfolding to_bytes
put_field out payload =
    if ltb (length payload) (2 ^ 31)
    then some ((out ++ to_bytes false 4 (length payload)) ++ payload)
    else none

unfoldable pub put_field_pgnumeric : List ℕ → PgNumeric → List ℕ
unfolding to_bytes write_payload
put_field_pgnumeric out n = write_payload n (out ++ to_bytes false 4 (8 + 2 * length n.digits))

-- The geometry of a row: null, or its WKB.
unfoldable pub encode_geometry : Option (List ℕ) → ℕ → List ℕ → Result Fault (Option (List ℕ))
unfolding encode_null encode_with_srid put_field
encode_geometry none srid out = ok (some (encode_null out))
encode_geometry (some wkb) srid out = elim (encode_with_srid wkb srid) [
  | ok ewkb_bytes ↦ ok (put_field out ewkb_bytes)
  | err e ↦ err e
]
