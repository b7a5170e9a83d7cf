-- ===== src/Geom/Wkb/Decode.antt =====
-- `wkb::decode`: WKB of either byte order as a geometry. `read_geom` calls itself for the members
-- of a collection; a call reads nine bytes before the next, so the input's length bounds the depth.
use shpx.Prelude.{
  ℕ, zero, suc, ◌+◌, ◌-◌, List, [], ◌∷◌, Result, ok, err, Bool, true, false, ◌==◌, if◌then◌else◌,
  length,
}
use shpx.Geom.Types.{
  Coord, Geom, Fault, point, line_string, polygon, multi_point, multi_line_string, multi_polygon,
  bad_byte_order, bad_child, unsupported_type, out_of_fuel, trailing,
}
use shpx.Geom.Cursor.{
  Cursor, Reader, pure, fail, ◌>>=◌, ◌>>◌, ensure_remaining_for, take_byte, read_u32, read_f64,
  read_coord,
}
use shpx.Geom.Wkb.Encode.{
  ty_point, ty_linestring, ty_polygon, ty_multipoint, ty_multilinestring, ty_multipolygon,
  byte_order_le, byte_order_be, header_size, count_size, sub_header_size, coord_size,
}

-- `for _ in 0..n { out.push(read()?) }`
unfoldable pub read_many : {A : Type 0} → Reader A → ℕ → Reader (List A)
read_many read zero = pure []
read_many read (suc n) = do a ← read; rest ← read_many read n; pure (a ∷ rest)

unfoldable pub read_pts : ℕ → Bool → Reader (List Coord)
unfolding ensure_remaining_for read_many read_coord
read_pts n little = do ensure_remaining_for n coord_size; read_many (read_coord little) n

-- One round of the loop over the rings.
unfoldable pub read_ring : Bool → Reader (List Coord)
unfolding read_u32 read_pts
read_ring little = do np ← read_u32 little; read_pts np little

unfoldable pub as_point : Geom → Reader Coord
as_point (point x y) = pure (x, y)
as_point g = fail (bad_child g)

unfoldable pub as_line_string : Geom → Reader (List Coord)
as_line_string (line_string pts) = pure pts
as_line_string g = fail (bad_child g)

unfoldable pub as_polygon : Geom → Reader (List (List Coord))
as_polygon (polygon rings) = pure rings
as_polygon g = fail (bad_child g)

-- `child` is the recursive call of `read_geom`.
unfoldable pub read_members :
    {A : Type 0} → Reader Geom → (Geom → Reader A) → ℕ → Bool → Reader (List A)
unfolding read_u32 ensure_remaining_for read_many
read_members child as_member size little = do
  n ← read_u32 little
  ensure_remaining_for n size
  read_many (child >>= as_member) n

unfoldable pub read_typed : Reader Geom → Bool → ℕ → Reader Geom
unfolding read_f64 read_u32 read_pts read_ring read_members as_point as_line_string as_polygon
read_typed child little ty =
    if ty == ty_point
    then (do x ← read_f64 little; y ← read_f64 little; pure (point x y))
    else if ty == ty_linestring
    then (do n ← read_u32 little; pts ← read_pts n little; pure (line_string pts))
    else if ty == ty_polygon
    then (do
      nrings ← read_u32 little
      ensure_remaining_for nrings count_size
      rings ← read_many (read_ring little) nrings
      pure (polygon rings))
    else if ty == ty_multipoint
    then (do
      pts ← read_members child as_point (header_size + coord_size) little
      pure (multi_point pts))
    else if ty == ty_multilinestring
    then (do
      lines ← read_members child as_line_string sub_header_size little
      pure (multi_line_string lines))
    else if ty == ty_multipolygon
    then (do
      polys ← read_members child as_polygon sub_header_size little
      pure (multi_polygon polys))
    else fail (unsupported_type ty)

-- `match order { BYTE_ORDER_LE => true, BYTE_ORDER_BE => false, other => return Err(..) }`
unfoldable pub byte_order : ℕ → Reader Bool
byte_order order =
    if order == byte_order_le
    then pure true
    else if order == byte_order_be
    then pure false
    else fail (bad_byte_order order)

unfoldable pub read_geom : ℕ → Reader Geom
unfolding take_byte byte_order read_u32 read_typed
read_geom zero c = err out_of_fuel
read_geom (suc fuel) c =
    (do
      order ← take_byte
      little ← byte_order order
      ty ← read_u32 little
      read_typed (read_geom fuel) little ty)
      c

unfoldable pub finish : Result Fault (Geom × Cursor) → Result Fault Geom
finish (ok (g, c)) =
    if c.pos == length c.bytes then ok g else err (trailing (length c.bytes - c.pos))
finish (err e) = err e

unfoldable pub decode : List ℕ → Result Fault Geom
unfolding read_geom finish
decode bytes = finish (read_geom (suc (length bytes)) (record { bytes = bytes; pos = 0 }))
