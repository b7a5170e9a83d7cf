-- ===== src/Geom/SpatialiteBlob/Size.antt =====
-- What `encode` makes of a WKB, and how long it is.
use shpx.Prelude.{
  ℕ, ◌+◌, ◌≡◌, refl, ap, arith, List, [], ◌∷◌, ◌++◌, append_assoc, Bool, true, length,
  length-append, Result, ok, err, Ensures-ok, Ensures-err,
}
use shpx.Prelude.Outcome.{◌>>=◌}
use shpx.Geom.Types.{
  Coord, Geom, Fault, point, line_string, polygon, multi_point, multi_line_string, multi_polygon,
}
use shpx.Geom.Bytes.{to_bytes, length-to_bytes}
use shpx.Geom.Wkb
use shpx.Geom.Wkb.Encode.{sum_map, ring_size, line_size, polygon_size}
use shpx.Geom.Wkb.Encode.Written.{Fits, Writes}
use shpx.Geom.Wkb.Layout.{
  coord_bytes, ring_bytes, length-coord_bytes, length-ring_bytes, length-counted_bytes,
  sum_map-const,
}
use shpx.Geom.SpatialiteBlob.Encode.{
  Mbr, compute_mbr, write_inner, write_blob_header, encode, estimate_size, gaia_blob_end,
}
use shpx.Geom.SpatialiteBlob.Format.{
  rings_bytes, entity_bytes, payload, inner_layout, blob_layout, inner-Writes,
}

Writes-ok :
    {F : Type 0} (buf bs : List ℕ) (r : Result Fault (List ℕ))
    → F
    → Writes F buf bs r
    → r ≡ ok (buf ++ bs)
Writes-ok buf bs (ok out) f h = ap ok ((Ensures-ok h refl).1)
Writes-ok buf bs (err e) f h = absurd ((Ensures-err h refl).0 f)

header-blob_layout :
    (srid : ℕ) (m : Mbr) (g : Geom)
    → (write_blob_header srid m ++ inner_layout true g) ++ gaia_blob_end ∷ []
      ≡ blob_layout true srid m g
unfolding write_blob_header blob_layout to_bytes
header-blob_layout srid (a, b, c, d) g = simp append_assoc

-- `encode` fails where `compute_mbr` does, and otherwise writes the format.
pub encode-blob_layout_lem :
    (srid : ℕ) (wkb : List ℕ) (g : Geom)
    → Wkb.Decode.decode wkb ≡ ok g
    → Fits g
    → encode srid wkb ≡ (compute_mbr g >>= λ m. ok (blob_layout true srid m g))
unfolding encode
encode-blob_layout_lem srid wkb g e f = rw e (go (compute_mbr g))
  where
    go :
        (r : Result Fault Mbr)
        → (r >>= λ m.
            write_inner g (write_blob_header srid m) >>= λ buf. ok (buf ++ gaia_blob_end ∷ []))
          ≡ (r >>= λ m. ok (blob_layout true srid m g))
    go (err x) = refl
    go (ok m) =
        rw
          (Writes-ok (write_blob_header srid m) (inner_layout true g)
            (write_inner g (write_blob_header srid m)) f
            (inner-Writes g (write_blob_header srid m)))
          (ap ok (header-blob_layout srid m g))

module _ (little : Bool) where
  pub length-rings_bytes :
      (rings : List (List Coord)) → length (rings_bytes little rings) ≡ 4 + sum_map ring_size rings
  unfolding rings_bytes
  length-rings_bytes rings =
      length-counted_bytes little (ring_bytes little) ring_size rings (length-ring_bytes little)

  pub length-entity_bytes :
      {A : Type 0} (ty : ℕ) (f : A → List ℕ) (x : A)
      → length (entity_bytes little ty f x) ≡ 5 + length (f x)
  unfolding entity_bytes
  length-entity_bytes ty f x =
      omega (arith, length-append (to_bytes little 4 ty) (f x), length-to_bytes little 4 ty)

  length-payload : (g : Geom) → 44 + length ((payload little g).1) ≡ estimate_size g
  unfolding payload estimate_size
  length-payload (point x y) = omega (arith, length-coord_bytes little (x, y))
  length-payload (line_string pts) = omega (arith, length-ring_bytes little pts)
  length-payload (polygon rings) = omega (arith, length-rings_bytes rings)
  length-payload (multi_point pts) = omega (
    arith,
    length-counted_bytes little (entity_bytes little 1 (coord_bytes little)) (λ _. 21) pts
        (λ c.
          omega (arith, length-entity_bytes 1 (coord_bytes little) c, length-coord_bytes little c)),
    sum_map-const 21 pts,
  )
  length-payload (multi_line_string lines) = omega (
    arith,
    length-counted_bytes little (entity_bytes little 2 (ring_bytes little)) line_size lines (λ l.
        omega (arith, length-entity_bytes 2 (ring_bytes little) l, length-ring_bytes little l)),
  )
  length-payload (multi_polygon polys) = omega (
    arith,
    length-counted_bytes little (entity_bytes little 3 (rings_bytes little)) polygon_size polys
        (λ p. omega (arith, length-entity_bytes 3 (rings_bytes little) p, length-rings_bytes p)),
  )

  number_before : (k v : ℕ) (xs : List ℕ) → length (to_bytes little k v ++ xs) ≡ k + length xs
  number_before k v xs =
      omega (arith, length-append (to_bytes little k v) xs, length-to_bytes little k v)

  -- The blob is as long as `estimate_size` says.
  pub length-blob_layout_size :
      (srid : ℕ) (m : Mbr) (g : Geom) → length (blob_layout little srid m g) ≡ estimate_size g
  unfolding blob_layout inner_layout
  length-blob_layout_size srid (a, b, c, d) g =
      rw
        (
          number_before,
          number_before,
          number_before,
          number_before,
          number_before,
          length-append (to_bytes little 4 ((payload little g).0) ++ (payload little g).1)
              (gaia_blob_end ∷ []),
          number_before,
        )
        (omega (arith, length-payload g))

-- A blob is 39 bytes longer than the WKB.
pub estimate_size-wkb : (g : Geom) → estimate_size g ≡ 39 + Wkb.Encode.estimate_size g
unfolding estimate_size Wkb.Encode.estimate_size
estimate_size-wkb (point x y) = refl
estimate_size-wkb _ = omega arith
