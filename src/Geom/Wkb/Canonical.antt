-- ===== src/Geom/Wkb/Canonical.antt =====
-- `encode` and `decode` together.
use shpx.Prelude.{
  ℕ, ◌^◌, ◌<◌, ◌≡◌, refl, ◌∙◌, arith, List, [], ◌∷◌, true, ok, err, Result, Ensures, Ensures-ok,
  Ensures-err, length, All,
}
use shpx.Geom.Types.{
  Coord, Geom, Fault, IsPoints, IsRings, IsGeom, point, line_string, polygon, multi_point,
  multi_line_string, multi_polygon,
}
use shpx.Geom.Bytes.{IsByte}
use shpx.Geom.Wkb.Encode.{estimate_size, encode}
use shpx.Geom.Wkb.Encode.Written.{Fits, FitsPoints, FitsRings, Exceeds, encode-Ensures}
use shpx.Geom.Wkb.Decode.{decode}
use shpx.Geom.Wkb.Layout.{layout, length-layout}
use shpx.Geom.Wkb.RoundTrip.{decode-layout}
use shpx.Geom.Wkb.Accepts.{decode-Ensures}

All-map :
    {A : Type 0} (P Q : A → Type 0) (xs : List A) → ((x : A) → P x → Q x) → All P xs → All Q xs
All-map P Q [] k h = tt
All-map P Q (x ∷ xs) k h = (k x h.0, All-map P Q xs k h.1)

rings-Fits : (rings : List (List Coord)) → IsRings rings → FitsRings rings
rings-Fits rings (n, all) = (n, All-map IsPoints FitsPoints rings (λ r h. h.0) all)

pub IsGeom-Fits : (g : Geom) → IsGeom g → Fits g
IsGeom-Fits (point x y) h = tt
IsGeom-Fits (line_string pts) h = h.0
IsGeom-Fits (polygon rings) h = rings-Fits rings h
IsGeom-Fits (multi_point pts) h = h.0
IsGeom-Fits (multi_line_string lines) h = rings-Fits lines h
IsGeom-Fits (multi_polygon polys) (n, all) = (n, All-map IsRings FitsRings polys rings-Fits all)

written :
    (g : Geom) (r : Result Fault (List ℕ))
    → Fits g
    → Ensures (λ out. Fits g × (out ≡ layout true g)) (λ e. (Fits g → ⊥) × Exceeds e) r
    → r ≡ ok (layout true g)
written g (ok out) f e = let (f', out_eq) = Ensures-ok e refl in rw out_eq
written g (err x) f e = absurd ((Ensures-err e refl).0 f)

pub encode-layout : (g : Geom) → Fits g → encode g ≡ ok (layout true g)
encode-layout g f = written g (encode g) f (encode-Ensures g)

-- Every geometry that WKB can represent is encoded, to as many bytes as `estimate_size` reserves,
-- and decoding these gives the geometry.
pub decode-encode :
    (g : Geom)
    → IsGeom g
    → estimate_size g < 2 ^ 64
    → (bytes : List ℕ) × (encode g ≡ ok bytes)
      × (length bytes ≡ estimate_size g)
      × (decode bytes ≡ ok g)
decode-encode g h small = (
  layout true g,
  encode-layout g (IsGeom-Fits g h),
  length-layout true g,
  decode-layout true g h small,
)

-- What `decode` accepts, in whatever byte orders, `encode` writes again, in as many bytes, and
-- these decode to the same geometry.
pub encode-decode :
    (bytes : List ℕ) (g : Geom)
    → All IsByte bytes
    → length bytes < 2 ^ 64
    → decode bytes ≡ ok g
    → (bytes' : List ℕ) × (encode g ≡ ok bytes')
      × (length bytes' ≡ length bytes)
      × (decode bytes' ≡ ok g)
encode-decode bytes g all small e =
    let (h, size) = Ensures-ok (decode-Ensures bytes all) e in
    let (out, enc, len, dec) = decode-encode g h (omega arith) in (out, enc, len ∙ size, dec)
