-- ===== src/Geom/SpatialiteBlob/Format.antt =====
-- The blob as a format, in either byte order, and that `encode` writes it.
use shpx.Prelude.{
  ℕ, ◌≡◌, refl, ◌∙◌, List, [], ◌∷◌, ◌++◌, append_assoc, Bool, true, if◌then◌else◌, length, Result,
  ok, Ensures-map, holds,
}
use shpx.Prelude.Outcome.{◌>>=◌}
use shpx.Geom.Types.{
  Coord, Geom, Fault, point, line_string, polygon, multi_point, multi_line_string, multi_polygon,
}
use shpx.Geom.Bytes.{to_bytes, to_le_bytes}
use shpx.Geom.Wkb.Encode.{
  write_u32, write_xy, write_count, write_all, write_ring, ty_point, ty_linestring, ty_polygon,
  ty_multipoint, ty_multilinestring, ty_multipolygon,
}
use shpx.Geom.Wkb.Encode.Written.{
  Fits, FitsPoints, FitsRings, Writes, IsCounted-Writes, write_ring-Writes, xy-bytes, All-Unit,
}
use shpx.Geom.Wkb.Layout.{coord_bytes, counted_bytes, ring_bytes}
use shpx.Geom.SpatialiteBlob.Encode.{
  Mbr, write_entity, write_rings, write_inner, gaia_blob_start, gaia_mbr_end, gaia_blob_end,
  gaia_mark_entity, endian_be, endian_le,
}

unfoldable pub rings_bytes : Bool → List (List Coord) → List ℕ
rings_bytes little = counted_bytes little (ring_bytes little)

-- A member of a collection.
unfoldable pub entity_bytes : {A : Type 0} → Bool → ℕ → (A → List ℕ) → A → List ℕ
entity_bytes little ty f x = gaia_mark_entity ∷ (to_bytes little 4 ty ++ f x)

unfoldable pub payload : Bool → Geom → ℕ × List ℕ
unfolding rings_bytes
payload little (point x y) = (ty_point, coord_bytes little (x, y))
payload little (line_string pts) = (ty_linestring, ring_bytes little pts)
payload little (polygon rings) = (ty_polygon, rings_bytes little rings)
payload little (multi_point pts) =
    (ty_multipoint, counted_bytes little (entity_bytes little ty_point (coord_bytes little)) pts)
payload little (multi_line_string lines) = (
  ty_multilinestring,
  counted_bytes little (entity_bytes little ty_linestring (ring_bytes little)) lines,
)
payload little (multi_polygon polys) = (
  ty_multipolygon,
  counted_bytes little (entity_bytes little ty_polygon (rings_bytes little)) polys,
)

unfoldable pub inner_layout : Bool → Geom → List ℕ
unfolding payload
inner_layout little g = to_bytes little 4 ((payload little g).0) ++ (payload little g).1

unfoldable pub blob_layout : Bool → ℕ → Mbr → Geom → List ℕ
unfolding inner_layout
blob_layout little srid (min_x, min_y, max_x, max_y) g =
    gaia_blob_start
    ∷ (if little then endian_le else endian_be)
    ∷ (to_bytes little 4 srid
        ++ (to_bytes little 8 min_x
            ++ (to_bytes little 8 min_y
                ++ (to_bytes little 8 max_x
                    ++ (to_bytes little 8 max_y
                        ++ (gaia_mbr_end ∷ (inner_layout little g ++ gaia_blob_end ∷ [])))))))

-- What a write does after a fixed prefix.
behind :
    {F : Type 0} (k : List ℕ → Result Fault (List ℕ)) (buf buf' pre ys : List ℕ)
    → buf' ≡ buf ++ pre
    → Writes F (buf ++ pre) ys (k (buf ++ pre))
    → Writes F buf (pre ++ ys) (k buf')
behind k buf buf' pre ys e h =
    rw e (Ensures-map h (λ out (f, e'). (f, e' ∙ append_assoc buf _ ys)) (λ e' q. q))

write_u32-bytes : (buf : List ℕ) (v : ℕ) → write_u32 buf v ≡ buf ++ to_bytes true 4 v
unfolding write_u32 to_bytes
write_u32-bytes buf v = refl

write_entity-bytes :
    (buf : List ℕ) (ty : ℕ) → write_entity buf ty ≡ buf ++ (gaia_mark_entity ∷ to_bytes true 4 ty)
unfolding write_entity write_u32 to_bytes
write_entity-bytes buf ty = append_assoc buf (gaia_mark_entity ∷ []) (to_le_bytes 4 ty)

xy-Writes :
    (c : Coord) (buf : List ℕ)
    → Writes (Unit {0}) buf (coord_bytes true c) (ok (write_xy buf (c.0) (c.1)))
xy-Writes (x, y) buf = holds (tt, xy-bytes buf x y)

rings-Writes :
    (rings : List (List Coord)) (buf : List ℕ)
    → Writes (FitsRings rings) buf (rings_bytes true rings) (write_rings rings buf)
unfolding write_rings rings_bytes
rings-Writes = IsCounted-Writes FitsPoints write_ring (ring_bytes true) write_ring-Writes

entity-Writes :
    {A : Type 0} (F : A → Type 0) (write : A → List ℕ → Result Fault (List ℕ)) (f : A → List ℕ)
    (ty : ℕ)
    → ((x : A) (buf : List ℕ) → Writes (F x) buf (f x) (write x buf))
    → (x : A) (buf : List ℕ)
    → Writes (F x) buf (entity_bytes true ty f x) (write x (write_entity buf ty))
unfolding entity_bytes
entity-Writes F write f ty step x buf =
    behind (write x) buf _ _ (f x) (write_entity-bytes buf ty) (step x _)

pub inner-Writes :
    (g : Geom) (buf : List ℕ) → Writes (Fits g) buf (inner_layout true g) (write_inner g buf)
unfolding write_inner inner_layout
inner-Writes (point x y) buf =
    behind (λ b. ok (write_xy b x y)) buf _ _ _ (write_u32-bytes buf ty_point) (xy-Writes (x, y) _)
inner-Writes (line_string pts) buf =
    behind (write_ring pts) buf _ _ _ (write_u32-bytes buf ty_linestring) (write_ring-Writes pts _)
inner-Writes (polygon rings) buf =
    behind (write_rings rings) buf _ _ _ (write_u32-bytes buf ty_polygon) (rings-Writes rings _)
inner-Writes (multi_point pts) buf =
    Ensures-map
      (behind
        (λ b.
          write_count b (length pts)
          >>= write_all (λ c b'. ok (write_xy (write_entity b' ty_point) (c.0) (c.1))) pts)
        buf _ _ _ (write_u32-bytes buf ty_multipoint)
        (IsCounted-Writes (λ _. Unit {0}) _ _
          (entity-Writes (λ _. Unit {0}) (λ c b. ok (write_xy b (c.0) (c.1))) (coord_bytes true)
            ty_point xy-Writes)
          pts _))
      (λ out (f, e). (f.0, e)) (λ e (no_fit, big). ((λ f. no_fit (f, All-Unit pts)), big))
inner-Writes (multi_line_string lines) buf =
    behind
      (λ b.
        write_count b (length lines)
        >>= write_all (λ l b'. write_ring l (write_entity b' ty_linestring)) lines)
      buf _ _ _ (write_u32-bytes buf ty_multilinestring)
      (IsCounted-Writes FitsPoints _ _
        (entity-Writes FitsPoints write_ring (ring_bytes true) ty_linestring write_ring-Writes)
        lines _)
inner-Writes (multi_polygon polys) buf =
    behind
      (λ b.
        write_count b (length polys)
        >>= write_all (λ p b'. write_rings p (write_entity b' ty_polygon)) polys)
      buf _ _ _ (write_u32-bytes buf ty_multipolygon)
      (IsCounted-Writes FitsRings _ _
        (entity-Writes FitsRings write_rings (rings_bytes true) ty_polygon rings-Writes) polys _)
