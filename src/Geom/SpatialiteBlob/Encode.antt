-- ===== src/Geom/SpatialiteBlob/Encode.antt =====
-- `spatialite_blob::encode`: a WKB as a blob with a SRID and a bounding box.
-- write_u32_le, write_xy and write_count_le have the bodies of write_u32, write_xy and write_count
-- in wkb.rs, whose models stand for both; an i32 is its 32-bit pattern.
use shpx.Prelude.{
  ℕ, ◌+◌, ◌*◌, List, [], ◌∷◌, ◌++◌, Result, ok, err, not, ◌||◌, if◌then◌else◌, length,
}
use shpx.Prelude.Outcome.{◌>>=◌}
use shpx.Geom.Types.{
  F64, Coord, Geom, Fault, point, line_string, polygon, multi_point, multi_line_string,
  multi_polygon, empty_geometry,
}
use shpx.Geom.Bytes.{to_le_bytes}
use shpx.Geom.Float.{infinity, neg_infinity, is_finite, f64_lt}
use shpx.Geom.Walk.{for_each_coord}
use shpx.Geom.Wkb
use shpx.Geom.Wkb.Encode.{
  ty_point, ty_linestring, ty_polygon, ty_multipoint, ty_multilinestring, ty_multipolygon, sum_map,
  write_u32, write_xy, write_count, write_points, write_all, write_ring, ring_size, line_size,
  polygon_size,
}
use shpx.Geom.Wkb.Decode.{read_many, read_pts, read_ring}

abbrev pub gaia_blob_start : ℕ
gaia_blob_start = 0x00

abbrev pub gaia_mbr_end : ℕ
gaia_mbr_end = 0x7c

abbrev pub gaia_blob_end : ℕ
gaia_blob_end = 0xfe

abbrev pub gaia_mark_entity : ℕ
gaia_mark_entity = 0x69

abbrev pub endian_be : ℕ
endian_be = 0

abbrev pub endian_le : ℕ
endian_le = 1

abbrev pub ty_geometrycollection : ℕ
ty_geometrycollection = 7

-- (min_x, min_y, max_x, max_y)
abbrev pub Mbr : Type 0
Mbr = F64 × F64 × F64 × F64

-- The closure of `compute_mbr`.
unfoldable pub grow : Coord → Mbr → Mbr
unfolding f64_lt
grow (x, y) (min_x, min_y, max_x, max_y) = (
  if f64_lt x min_x then x else min_x,
  if f64_lt y min_y then y else min_y,
  if f64_lt max_x x then x else max_x,
  if f64_lt max_y y then y else max_y,
)

unfoldable pub check_mbr : Mbr → Result Fault Mbr
unfolding is_finite
check_mbr (min_x, min_y, max_x, max_y) =
    if not (is_finite min_x)
      || (not (is_finite min_y) || (not (is_finite max_x) || not (is_finite max_y)))
    then err empty_geometry
    else ok (min_x, min_y, max_x, max_y)

unfoldable pub compute_mbr : Geom → Result Fault Mbr
unfolding grow check_mbr for_each_coord
compute_mbr g = check_mbr (for_each_coord grow g (infinity, infinity, neg_infinity, neg_infinity))

unfoldable pub estimate_size : Geom → ℕ
estimate_size (point _ _) = 39 + 4 + 16 + 1
estimate_size (line_string pts) = 39 + 4 + (4 + length pts * 16) + 1
estimate_size (polygon rings) = 39 + 4 + (4 + sum_map ring_size rings) + 1
estimate_size (multi_point pts) = 39 + 4 + (4 + length pts * (1 + 4 + 16)) + 1
estimate_size (multi_line_string lines) = 39 + 4 + (4 + sum_map line_size lines) + 1
estimate_size (multi_polygon polys) = 39 + 4 + (4 + sum_map polygon_size polys) + 1

-- The marker and the type before each member of a collection.
unfoldable pub write_entity : List ℕ → ℕ → List ℕ
unfolding write_u32
write_entity buf ty = write_u32 (buf ++ gaia_mark_entity ∷ []) ty

-- The count and the rings of a polygon.
unfoldable pub write_rings : List (List Coord) → List ℕ → Result Fault (List ℕ)
unfolding write_count write_all write_ring
write_rings rings buf = do
  counted ← write_count buf (length rings)
  write_all write_ring rings counted

unfoldable pub write_inner : Geom → List ℕ → Result Fault (List ℕ)
unfolding write_u32 write_xy write_count write_points write_all write_ring write_entity write_rings
write_inner (point x y) buf = ok (write_xy (write_u32 buf ty_point) x y)
write_inner (line_string pts) buf = write_ring pts (write_u32 buf ty_linestring)
write_inner (polygon rings) buf = write_rings rings (write_u32 buf ty_polygon)
write_inner (multi_point pts) buf = do
  counted ← write_count (write_u32 buf ty_multipoint) (length pts)
  write_all (λ c b. ok (write_xy (write_entity b ty_point) (c.0) (c.1))) pts counted
write_inner (multi_line_string lines) buf = do
  counted ← write_count (write_u32 buf ty_multilinestring) (length lines)
  write_all (λ l b. write_ring l (write_entity b ty_linestring)) lines counted
write_inner (multi_polygon polys) buf = do
  counted ← write_count (write_u32 buf ty_multipolygon) (length polys)
  write_all (λ p b. write_rings p (write_entity b ty_polygon)) polys counted

unfoldable pub write_blob_header : ℕ → Mbr → List ℕ
unfolding to_le_bytes
write_blob_header srid (min_x, min_y, max_x, max_y) =
    let buf = gaia_blob_start ∷ endian_le ∷ [] in
    let buf = buf ++ to_le_bytes 4 srid in
    let buf = buf ++ to_le_bytes 8 min_x in
    let buf = buf ++ to_le_bytes 8 min_y in
    let buf = buf ++ to_le_bytes 8 max_x in
    let buf = buf ++ to_le_bytes 8 max_y in buf ++ gaia_mbr_end ∷ []

unfoldable pub encode : ℕ → List ℕ → Result Fault (List ℕ)
unfolding compute_mbr write_blob_header write_inner Wkb.Decode.decode
encode srid wkb = do
  geom ← Wkb.Decode.decode wkb
  mbr ← compute_mbr geom
  buf ← write_inner geom (write_blob_header srid mbr)
  ok (buf ++ gaia_blob_end ∷ [])
