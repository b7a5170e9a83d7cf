-- ===== src/Postgis/Copy/Fields.antt =====
-- How long the numeric fields of a COPY row are.
use shpx.Prelude.{ℕ, ◌+◌, ◌*◌, ◌≡◌, ◌∙◌, arith, List, ◌++◌, false, length, length-append}
use shpx.Geom.Bytes.{to_bytes, length-to_bytes}
use shpx.Postgis.Numeric.{PgNumeric, write_payload}
use shpx.Postgis.Numeric.Wire.{put_digits-length}
use shpx.Postgis.Copy.{put_field_pgnumeric}

two_more : (out : List ℕ) (v : ℕ) → length (out ++ to_bytes false 2 v) ≡ length out + 2
two_more out v = omega (arith, length-append out (to_bytes false 2 v), length-to_bytes false 2 v)

-- The length that a numeric field announces is that of the payload behind it.
pub put_field_pgnumeric-length :
    (out : List ℕ) (n : PgNumeric)
    → length (put_field_pgnumeric out n) ≡ length out + 4 + (8 + 2 * length n.digits)
unfolding put_field_pgnumeric write_payload
put_field_pgnumeric-length out n =
    put_digits-length n.digits _
    ∙ rw (two_more, two_more, two_more, two_more)
        (omega (
          arith,
          length-append out (to_bytes false 4 (8 + 2 * length n.digits)),
          length-to_bytes false 4 (8 + 2 * length n.digits),
        ))
