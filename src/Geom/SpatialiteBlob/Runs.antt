-- ===== src/Geom/SpatialiteBlob/Runs.antt =====
-- Concrete blobs, and the theorems at them.
use shpx.Prelude.{ℕ, ◌≡◌, ◌+◌, refl, arith, List, [], ◌∷◌, ok, err, Ensures, length}
use shpx.Geom.Types.{Geom, point, line_string, multi_point, empty_geometry}
use shpx.Geom.Wkb
use shpx.Geom.SpatialiteBlob.Encode.{compute_mbr, encode}
use shpx.Geom.SpatialiteBlob.Decode.{decode}
use shpx.Geom.SpatialiteBlob.Mbr.{IsMbr, IsBoxless, compute_mbr-Ensures}
use shpx.Geom.SpatialiteBlob.RoundTrip.{decode-encode_spatialite}

-- 1.0, -2.0 and a NaN
abbrev one : ℕ
one = 0x3ff0_0000_0000_0000

abbrev minus_two : ℕ
minus_two = 0xc000_0000_0000_0000

abbrev nan : ℕ
nan = 0x7ff8_0000_0000_0000

abbrev segment : Geom
segment = line_string ((one, minus_two) ∷ (minus_two, 0) ∷ [])

abbrev point_wkb : List ℕ
point_wkb =
    1 ∷ 1 ∷ 0 ∷ 0 ∷ 0 ∷ 0 ∷ 0 ∷ 0 ∷ 0 ∷ 0 ∷ 0 ∷ 0xf0 ∷ 0x3f ∷ 0 ∷ 0 ∷ 0 ∷ 0 ∷ 0 ∷ 0 ∷ 0 ∷ 0xc0 ∷ []

abbrev x_bytes : List ℕ → List ℕ
x_bytes rest = 0 ∷ 0 ∷ 0 ∷ 0 ∷ 0 ∷ 0 ∷ 0xf0 ∷ 0x3f ∷ rest

abbrev y_bytes : List ℕ → List ℕ
y_bytes rest = 0 ∷ 0 ∷ 0 ∷ 0 ∷ 0 ∷ 0 ∷ 0 ∷ 0xc0 ∷ rest

abbrev point_blob : List ℕ
point_blob =
    0
    ∷ 1
    ∷ 0xe6
    ∷ 0x10
    ∷ 0
    ∷ 0
    ∷ x_bytes (y_bytes (x_bytes (y_bytes (0x7c ∷ 1 ∷ 0 ∷ 0 ∷ 0 ∷ x_bytes (y_bytes (0xfe ∷ []))))))

compute_mbr-segment : compute_mbr segment ≡ ok (minus_two, minus_two, one, 0)
unfolding compute_mbr
compute_mbr-segment = refl

-- A coordinate that is a NaN is passed over, unless nothing else is there.
compute_mbr-nan : compute_mbr (multi_point ((nan, one) ∷ (one, one) ∷ [])) ≡ ok (one, one, one, one)
unfolding compute_mbr
compute_mbr-nan = refl

only_nan_fails : compute_mbr (point nan one) ≡ err empty_geometry
unfolding compute_mbr
only_nan_fails = refl

encode-point_wkb : encode 4326 point_wkb ≡ ok point_blob
unfolding encode
encode-point_wkb = refl

compute_mbr-Ensures_example :
    Ensures (IsMbr segment) (λ e. (e ≡ empty_geometry) × IsBoxless segment) (compute_mbr segment)
compute_mbr-Ensures_example = compute_mbr-Ensures segment

decode-encode_spatialite_example :
    (g : Geom) × (wkb' : List ℕ) × (Wkb.Decode.decode point_wkb ≡ ok g)
    × (Wkb.Encode.encode g ≡ ok wkb')
    × (length point_blob ≡ 39 + length point_wkb)
    × (decode point_blob ≡ ok (4326, wkb'))
decode-encode_spatialite_example =
    decode-encode_spatialite 4326 point_wkb point_blob (omega arith) (omega arith) (omega arith)
      encode-point_wkb
