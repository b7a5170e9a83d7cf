-- ===== src/Geom/Wkb/Encode.antt =====
-- `wkb::encode`: a geometry as little-endian WKB, appended to a buffer.
pub mod Written
use shpx.Prelude.{
  ℕ, ◌+◌, ◌*◌, ◌^◌, List, [], ◌∷◌, ◌++◌, Result, ok, err, ltb, if◌then◌else◌, length,
}
use shpx.Prelude.Outcome.{◌>>=◌}
use shpx.Geom.Types.{
  F64, Coord, Geom, Fault, point, line_string, polygon, multi_point, multi_line_string,
  multi_polygon, count_exceeds,
}
use shpx.Geom.Bytes.{to_le_bytes}

abbrev pub ty_point : ℕ
ty_point = 1

abbrev pub ty_linestring : ℕ
ty_linestring = 2

abbrev pub ty_polygon : ℕ
ty_polygon = 3

abbrev pub ty_multipoint : ℕ
ty_multipoint = 4

abbrev pub ty_multilinestring : ℕ
ty_multilinestring = 5

abbrev pub ty_multipolygon : ℕ
ty_multipolygon = 6

abbrev pub byte_order_le : ℕ
byte_order_le = 1

abbrev pub byte_order_be : ℕ
byte_order_be = 0

abbrev pub header_size : ℕ
header_size = 5

abbrev pub count_size : ℕ
count_size = 4

abbrev pub sub_header_size : ℕ
sub_header_size = header_size + count_size

abbrev pub coord_size : ℕ
coord_size = 16

abbrev Buffer : Type 0
Buffer = List ℕ

-- `xs.iter().map(size).sum()`
abbrev pub sum_map : {A : Type 0} → (A → ℕ) → List A → ℕ
sum_map size [] = 0
sum_map size (x ∷ xs) = size x + sum_map size xs

abbrev pub ring_size : List Coord → ℕ
ring_size r = count_size + length r * coord_size

abbrev pub line_size : List Coord → ℕ
line_size l = sub_header_size + length l * coord_size

abbrev pub polygon_size : List (List Coord) → ℕ
polygon_size p = sub_header_size + sum_map ring_size p

unfoldable pub estimate_size : Geom → ℕ
estimate_size (point _ _) = header_size + coord_size
estimate_size (line_string pts) = header_size + count_size + length pts * coord_size
estimate_size (polygon rings) = header_size + count_size + sum_map ring_size rings
estimate_size (multi_point pts) = header_size + count_size + length pts * (header_size + coord_size)
estimate_size (multi_line_string lines) = header_size + count_size + sum_map line_size lines
estimate_size (multi_polygon polys) = header_size + count_size + sum_map polygon_size polys

unfoldable pub write_u32 : Buffer → ℕ → Buffer
unfolding to_le_bytes
write_u32 buf v = buf ++ to_le_bytes 4 v

unfoldable pub write_header : Buffer → ℕ → Buffer
unfolding write_u32
write_header buf ty = write_u32 (buf ++ byte_order_le ∷ []) ty

unfoldable pub write_xy : Buffer → F64 → F64 → Buffer
unfolding to_le_bytes
write_xy buf x y = (buf ++ to_le_bytes 8 x) ++ to_le_bytes 8 y

-- A count above `u32::MAX` is refused.
unfoldable pub write_count : Buffer → ℕ → Result Fault Buffer
unfolding write_u32
write_count buf n = if ltb n (2 ^ 32) then ok (write_u32 buf n) else err (count_exceeds n)

-- `for (x, y) in pts { write_xy(buf, *x, *y) }`
unfoldable pub write_points : Buffer → List Coord → Buffer
unfolding write_xy
write_points buf [] = buf
write_points buf ((x, y) ∷ pts) = write_points (write_xy buf x y) pts

-- `for x in xs { write(x, buf)?; }`
unfoldable pub write_all :
    {A : Type 0} → (A → Buffer → Result Fault Buffer) → List A → Buffer → Result Fault Buffer
write_all write [] buf = ok buf
write_all write (x ∷ xs) buf = write x buf >>= write_all write xs

unfoldable pub encode_point_into : Coord → Buffer → Buffer
unfolding write_header write_xy
encode_point_into (x, y) buf = write_xy (write_header buf ty_point) x y

unfoldable pub encode_linestring_into : List Coord → Buffer → Result Fault Buffer
unfolding write_header write_count write_points
encode_linestring_into pts buf = do
  counted ← write_count (write_header buf ty_linestring) (length pts)
  ok (write_points counted pts)

-- The body of the loop over the rings.
unfoldable pub write_ring : List Coord → Buffer → Result Fault Buffer
unfolding write_count write_points
write_ring ring buf = do counted ← write_count buf (length ring); ok (write_points counted ring)

unfoldable pub encode_polygon_into : List (List Coord) → Buffer → Result Fault Buffer
unfolding write_header write_count write_all write_ring
encode_polygon_into rings buf = do
  counted ← write_count (write_header buf ty_polygon) (length rings)
  write_all write_ring rings counted

unfoldable pub encode_into : Geom → Buffer → Result Fault Buffer
unfolding encode_point_into encode_linestring_into encode_polygon_into
encode_into (point x y) buf = ok (encode_point_into (x, y) buf)
encode_into (line_string pts) buf = encode_linestring_into pts buf
encode_into (polygon rings) buf = encode_polygon_into rings buf
encode_into (multi_point pts) buf = do
  counted ← write_count (write_header buf ty_multipoint) (length pts)
  write_all (λ c b. ok (encode_point_into c b)) pts counted
encode_into (multi_line_string lines) buf = do
  counted ← write_count (write_header buf ty_multilinestring) (length lines)
  write_all encode_linestring_into lines counted
encode_into (multi_polygon polys) buf = do
  counted ← write_count (write_header buf ty_multipolygon) (length polys)
  write_all encode_polygon_into polys counted

unfoldable pub encode : Geom → Result Fault Buffer
unfolding encode_into
encode g = encode_into g []
