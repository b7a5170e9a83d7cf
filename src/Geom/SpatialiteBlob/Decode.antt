-- ===== src/Geom/SpatialiteBlob/Decode.antt =====
-- `spatialite_blob::decode`: a blob as a SRID and a WKB.
-- The file's own cursor and read_pts have the bodies of those in wkb.rs, whose models stand for
-- both.
use shpx.Prelude.{
  ℕ, ◌+◌, List, Result, ok, err, Bool, true, false, not, ltb, ◌==◌, ◌-◌, if◌then◌else◌, length,
  take, drop,
}
use shpx.Geom.Types.{
  Coord, Geom, Fault, point, line_string, polygon, multi_point, multi_line_string, multi_polygon,
  too_short, bad_start, bad_endian, bad_mbr_end, bad_end, bad_entity, bad_child_type,
  collection_unsupported, unsupported_type, trailing,
}
use shpx.Geom.Bytes.{from_bytes}
use shpx.Geom.Cursor.{
  Cursor, Reader, pure, fail, ◌>>=◌, ◌>>◌, ensure_remaining_for, take_byte, read_u32, read_f64,
  read_coord,
}
use shpx.Geom.Wkb
use shpx.Geom.Wkb.Encode.{
  ty_point, ty_linestring, ty_polygon, ty_multipoint, ty_multilinestring, ty_multipolygon, sum_map,
  write_u32, write_xy, write_count, write_points, write_all, write_ring, ring_size, line_size,
  polygon_size,
}
use shpx.Geom.Wkb.Decode.{read_many, read_ring}
use shpx.Geom.GpkgBlob.{byte_at}
use shpx.Geom.SpatialiteBlob.Encode.{
  gaia_blob_start, gaia_mbr_end, gaia_blob_end, gaia_mark_entity, endian_be, endian_le,
  ty_geometrycollection,
}

unfoldable pub expect_entity_marker : Reader (Unit {0})
unfolding take_byte
expect_entity_marker = do
  m ← take_byte
  if m == gaia_mark_entity then pure tt else fail (bad_entity m)

-- A member of a collection: the marker, the expected type, the payload.
unfoldable pub read_entity : {A : Type 0} → Bool → ℕ → Reader A → Reader A
unfolding expect_entity_marker read_u32
read_entity little ty payload = do
  expect_entity_marker
  sub ← read_u32 little
  if sub == ty then payload else fail (bad_child_type sub)

unfoldable pub read_rings : Bool → Reader (List (List Coord))
unfolding read_u32 ensure_remaining_for read_many read_ring
read_rings little = do
  nrings ← read_u32 little
  ensure_remaining_for nrings 4
  read_many (read_ring little) nrings

unfoldable pub read_entities : {A : Type 0} → Bool → ℕ → ℕ → Reader A → Reader (List A)
unfolding read_u32 ensure_remaining_for read_many read_entity
read_entities little size ty payload = do
  n ← read_u32 little
  ensure_remaining_for n size
  read_many (read_entity little ty payload) n

unfoldable pub read_payload : Bool → ℕ → Reader Geom
unfolding read_f64 read_ring read_rings read_coord read_entities
read_payload little ty =
    if ty == ty_point
    then (do x ← read_f64 little; y ← read_f64 little; pure (point x y))
    else if ty == ty_linestring
    then (do pts ← read_ring little; pure (line_string pts))
    else if ty == ty_polygon
    then (do rings ← read_rings little; pure (polygon rings))
    else if ty == ty_multipoint
    then (do pts ← read_entities little 21 ty_point (read_coord little); pure (multi_point pts))
    else if ty == ty_multilinestring
    then (do
      lines ← read_entities little 9 ty_linestring (read_ring little)
      pure (multi_line_string lines))
    else if ty == ty_multipolygon
    then (do
      polys ← read_entities little 9 ty_polygon (read_rings little)
      pure (multi_polygon polys))
    else if ty == ty_geometrycollection
    then fail collection_unsupported
    else fail (unsupported_type ty)

unfoldable pub read_inner : Bool → Reader Geom
unfolding read_u32 read_payload
read_inner little = do ty ← read_u32 little; read_payload little ty

-- The geometry and the end marker.
unfoldable pub read_body : Bool → Reader Geom
unfolding read_inner take_byte
read_body little = do
  geom ← read_inner little
  end ← take_byte
  if end == gaia_blob_end then pure geom else fail (bad_end end)

-- `Ok((srid, wkb_bytes))`, where the encoder gave the bytes
abbrev pub with_srid : ℕ → Result Fault (List ℕ) → Result Fault (ℕ × List ℕ)
with_srid srid (ok wkb_bytes) = ok (srid, wkb_bytes)
with_srid srid (err e) = err e

unfoldable pub finish : ℕ → Result Fault (Geom × Cursor) → Result Fault (ℕ × List ℕ)
unfolding Wkb.Encode.encode
finish srid (err e) = err e
finish srid (ok (geom, c)) =
    if c.pos == length c.bytes
    then with_srid srid (Wkb.Encode.encode geom)
    else err (trailing (length c.bytes - c.pos))

-- `decode` behind the match on the endian byte.
unfoldable pub decode_endian : Bool → List ℕ → Result Fault (ℕ × List ℕ)
unfolding from_bytes read_body finish
decode_endian little blob =
    let srid = from_bytes little (take 4 (drop 2 blob)) in
    if not (byte_at blob 38 == gaia_mbr_end)
    then err (bad_mbr_end (byte_at blob 38))
    else finish srid (read_body little (record { bytes = blob; pos = 39 }))

unfoldable pub decode : List ℕ → Result Fault (ℕ × List ℕ)
unfolding decode_endian
decode blob =
    if ltb (length blob) (39 + 4 + 1)
    then err (too_short (length blob))
    else if not (byte_at blob 0 == gaia_blob_start)
    then err (bad_start (byte_at blob 0))
    else if byte_at blob 1 == endian_le
    then decode_endian true blob
    else if byte_at blob 1 == endian_be
    then decode_endian false blob
    else err (bad_endian (byte_at blob 1))
