-- ===== src/Geom/Wkt/Decode.antt =====
-- `wkt::decode`. A loop over a list reads a byte at least in every round, so what is left of the
-- text bounds its rounds.
use shpx.Prelude.{
  Text, eq_text, ℕ, zero, suc, ◌-◌, List, [], ◌∷◌, Option, Result, ok, err, leb, ◌==◌,
  if◌then◌else◌, length,
}
use shpx.Geom.Types.{
  Coord, F64, Geom, Fault, Place, point, line_string, polygon, multi_point, multi_line_string,
  multi_polygon, in_coordinates, in_rings, in_multi_point, in_multi_line_string, in_multi_polygon,
  unsupported_keyword, trailing_characters, out_of_fuel,
}
use shpx.Geom.Cursor.{Cursor, Reader, pure, fail, ◌>>=◌, ◌>>◌}
use shpx.Geom.Wkt.Encode.{
  point_keyword, linestring_keyword, polygon_keyword, multipoint_keyword, multilinestring_keyword,
  multipolygon_keyword,
}
use shpx.Geom.Wkt.Tokens.{
  skip_ws, peek, advance, holds_of, expect, read_ident, reject_empty, separator, read_xy,
}

-- `loop { items.push(read()?); match separator { ',' => continue, ')' => break } }`
unfoldable pub parse_items : {A : Type 0} → Place → Reader A → ℕ → Reader (List A)
unfolding separator
parse_items place read zero = fail out_of_fuel
parse_items place read (suc fuel) =
    let rest = parse_items place read fuel in
    do
      item ← read
      last ← separator place
      if last then pure (item ∷ []) else (rest >>= λ items. pure (item ∷ items))

unfoldable pub parse_list : {A : Type 0} → Place → Reader A → Reader (List A)
unfolding expect parse_items
parse_list place read = expect 40 >> λ c. parse_items place read (suc (length c.bytes - c.pos)) c

module _ (parse : Text → Option F64) where
  unfoldable pub parse_pts_list : Reader (List Coord)
  unfolding parse_list read_xy
  parse_pts_list = parse_list in_coordinates (read_xy parse)

  unfoldable pub parse_rings : Reader (List (List Coord))
  unfolding parse_list parse_pts_list
  parse_rings = parse_list in_rings parse_pts_list

  unfoldable pub parse_point : Reader Geom
  unfolding reject_empty expect read_xy
  parse_point = do reject_empty; expect 40; c ← read_xy parse; expect 41; pure (point (c.0) (c.1))

  unfoldable pub parse_linestring : Reader Geom
  unfolding reject_empty parse_pts_list
  parse_linestring = do reject_empty; pts ← parse_pts_list; pure (line_string pts)

  unfoldable pub parse_polygon : Reader Geom
  unfolding reject_empty parse_rings
  parse_polygon = do reject_empty; rings ← parse_rings; pure (polygon rings)

  -- A member of a MULTIPOINT, in brackets or not.
  unfoldable pub parse_member : Reader Coord
  unfolding skip_ws peek read_xy expect
  parse_member c =
      if holds_of (λ b. b == 40) (peek (skip_ws c))
      then (read_xy parse >>= λ xy. expect 41 >> pure xy) (advance (skip_ws c) 1)
      else read_xy parse (skip_ws c)

  unfoldable pub parse_multipoint : Reader Geom
  unfolding reject_empty parse_list parse_member
  parse_multipoint = do
    reject_empty
    pts ← parse_list in_multi_point parse_member
    pure (multi_point pts)

  unfoldable pub parse_multilinestring : Reader Geom
  unfolding reject_empty parse_list parse_pts_list
  parse_multilinestring = do
    reject_empty
    lines ← parse_list in_multi_line_string parse_pts_list
    pure (multi_line_string lines)

  unfoldable pub parse_multipolygon : Reader Geom
  unfolding reject_empty parse_list parse_rings
  parse_multipolygon = do
    reject_empty
    polys ← parse_list in_multi_polygon parse_rings
    pure (multi_polygon polys)

  -- `match kw.as_str()`
  unfoldable pub parse_keyword : Text → Reader Geom
  unfolding parse_point parse_linestring parse_polygon parse_multipoint parse_multilinestring
      parse_multipolygon
  parse_keyword kw =
      if eq_text kw point_keyword
      then parse_point
      else if eq_text kw linestring_keyword
      then parse_linestring
      else if eq_text kw polygon_keyword
      then parse_polygon
      else if eq_text kw multipoint_keyword
      then parse_multipoint
      else if eq_text kw multilinestring_keyword
      then parse_multilinestring
      else if eq_text kw multipolygon_keyword
      then parse_multipolygon
      else fail (unsupported_keyword kw)

  unfoldable pub parse_geom : Reader Geom
  unfolding read_ident parse_keyword
  parse_geom = read_ident >>= parse_keyword

  unfoldable pub finish : Result Fault (Geom × Cursor) → Result Fault Geom
  unfolding skip_ws
  finish (ok (g, c)) =
      if leb (length c.bytes) ((skip_ws c).pos)
      then ok g
      else err (trailing_characters ((skip_ws c).pos))
  finish (err e) = err e

  unfoldable pub decode : Text → Result Fault Geom
  unfolding skip_ws parse_geom finish
  decode s = finish (parse_geom (skip_ws (record { bytes = s; pos = 0 })))
