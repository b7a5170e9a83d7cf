-- ===== src/Geojson/GeomConvert.antt =====
-- crates/shpx-driver-geojson/src/geom_convert.rs. `X` are the members of a collection and the foreign
-- members of a geometry, at which the conversion does not look.
pub mod Inverse
mod Runs
use shpx.Prelude.{
  ℕ, List, [], ◌∷◌, map, Option, none, some, Result, ok, err, leb, if◌then◌else◌, length,
}
use shpx.Prelude.Outcome.{◌>>=◌}
use shpx.Geom.Types.{Coord, F64, Geom}
use shpx.Geom.Types as Types

abbrev pub Position : Type 0
Position = List F64

-- `geojson::Value` of the geojson crate, as its data.
pub data Value (X : Type 0) : Type 0 where
  point : Position → Value X
  line_string : List Position → Value X
  polygon : List (List Position) → Value X
  multi_point : List Position → Value X
  multi_line_string : List (List Position) → Value X
  multi_polygon : List (List (List Position)) → Value X
  geometry_collection : X → Value X

pub record Geometry (X : Type 0) : Type 0 where
  pub bbox : Option (List F64)
  pub value : Value X
  pub foreign_members : Option X

pub data PositionError : Type 0 where
  collection_refused : PositionError
  dimensions_refused : ℕ → PositionError
  invalid_position : ℕ → PositionError

unfoldable pub xy_from_pos : Position → Result PositionError Coord
xy_from_pos [] = err (invalid_position 0)
xy_from_pos (x ∷ []) = err (invalid_position 1)
xy_from_pos (x ∷ y ∷ []) = ok (x, y)
xy_from_pos (x ∷ y ∷ z ∷ pos) =
    if leb (length (x ∷ y ∷ z ∷ pos)) 4
    then err (dimensions_refused (length (x ∷ y ∷ z ∷ pos)))
    else err (invalid_position (length (x ∷ y ∷ z ∷ pos)))

-- `xs.iter().map(f).collect::<Result<Vec<_>>>()`
unfoldable pub collect : {E A B : Type 0} → (A → Result E B) → List A → Result E (List B)
collect f [] = ok []
collect f (x ∷ xs) = do y ← f x; ys ← collect f xs; ok (y ∷ ys)

unfoldable pub xy_vec : List Position → Result PositionError (List Coord)
unfolding xy_from_pos collect
xy_vec = collect xy_from_pos

unfoldable pub xy_rings : List (List Position) → Result PositionError (List (List Coord))
unfolding xy_vec collect
xy_rings = collect xy_vec

unfoldable pub value_to_geom : {X : Type 0} → Value X → Result PositionError Geom
unfolding xy_from_pos xy_vec xy_rings collect
value_to_geom (point pos) = do c ← xy_from_pos pos; ok (Types.point (c.0) (c.1))
value_to_geom (line_string positions) = do pts ← xy_vec positions; ok (Types.line_string pts)
value_to_geom (polygon rings) = do rs ← xy_rings rings; ok (Types.polygon rs)
value_to_geom (multi_point positions) = do pts ← xy_vec positions; ok (Types.multi_point pts)
value_to_geom (multi_line_string lines) = do
  ls ← collect xy_vec lines
  ok (Types.multi_line_string ls)
value_to_geom (multi_polygon polys) = do ps ← collect xy_rings polys; ok (Types.multi_polygon ps)
value_to_geom (geometry_collection members) = err collection_refused

unfoldable pub geometry_to_geom : {X : Type 0} → Geometry X → Result PositionError Geom
unfolding value_to_geom
geometry_to_geom g = value_to_geom g.value

unfoldable pub xy_to_pos : Coord → Position
xy_to_pos (x, y) = x ∷ y ∷ []

unfoldable pub rings_to_pos : List (List Coord) → List (List Position)
unfolding xy_to_pos
rings_to_pos = map (map xy_to_pos)

unfoldable pub geom_to_value : {X : Type 0} → Geom → Value X
unfolding xy_to_pos rings_to_pos
geom_to_value (Types.point x y) = point (x ∷ y ∷ [])
geom_to_value (Types.line_string pts) = line_string (map xy_to_pos pts)
geom_to_value (Types.polygon rings) = polygon (rings_to_pos rings)
geom_to_value (Types.multi_point pts) = multi_point (map xy_to_pos pts)
geom_to_value (Types.multi_line_string lines) = multi_line_string (map (map xy_to_pos) lines)
geom_to_value (Types.multi_polygon polys) = multi_polygon (map rings_to_pos polys)

-- `GjGeometry::new(value)`
unfoldable pub geom_to_geometry : {X : Type 0} → Geom → Geometry X
unfolding geom_to_value
geom_to_geometry g = record { bbox = none; value = geom_to_value g; foreign_members = none }
