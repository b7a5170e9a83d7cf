-- ===== src/Shp/Geometry.antt =====
-- crates/shpx-driver-shp/src/geometry.rs: shapes as geometries and back. The shapefile crate is a
-- parameter: its points, polylines, polygons and multipoints with the axes that they have, and what
-- the source calls of them.
pub mod Back
pub mod Fits
mod Runs
use shpx.Prelude.{ℕ, List, [], ◌∷◌, ◌++◌, map, Option, none, some, Result, ok, err}
use shpx.Prelude.Outcome.{◌>>=◌}
use shpx.Geom.Types.{Coord, Geom}
use shpx.Core.Schema.{GeometryType}
use shpx.Shp.Loss.{OnLoss}
use shpx.Shp.Loss

pub data Axes : Type 0 where
  xy m z : Axes

pub data ShapeType : Type 0 where
  null_shape point point_m point_z polyline polyline_m polyline_z polygon polygon_m polygon_z :
      ShapeType
  multipoint multipoint_m multipoint_z multipatch : ShapeType

-- The crate's ring of a polygon.
pub data PolygonRing (P : Type 0) : Type 0 where
  outer : List P → PolygonRing P
  inner : List P → PolygonRing P

pub record Shapefile : Type 1 where
  pub Point : Axes → Type 0
  pub Polyline : Axes → Type 0
  pub Polygon : Axes → Type 0
  pub Multipoint : Axes → Type 0
  -- HasXY
  pub xy_of : (a : Axes) → Point a → Coord
  pub parts : (a : Axes) → Polyline a → List (List (Point a))
  -- The points of each ring.
  pub rings : (a : Axes) → Polygon a → List (List (Point a))
  pub points : (a : Axes) → Multipoint a → List (Point a)
  pub new_point : Coord → Point xy
  pub new_polyline : List (Point xy) → Polyline xy
  pub with_parts : List (List (Point xy)) → Polyline xy
  pub with_rings : List (PolygonRing (Point xy)) → Polygon xy
  pub new_multipoint : List (Point xy) → Multipoint xy

-- The driver's errors here: a kind of loss on the geometry, Multipatch, a column of mixed shapes, a
-- row that does not fit the column.
pub data LossKind : Type 0 where
  z_on_shp m_on_shp : LossKind

pub data ShapeError : Type 0 where
  on_loss : LossKind → ShapeError
  multipatch_unsupported : ShapeError
  mixed_shapes : GeometryType → ShapeError
  mismatch : Geom → ShapeType → ShapeError

unfoldable pub shape_type_to_geometry_type : ShapeType → GeometryType
shape_type_to_geometry_type ShapeType.point = GeometryType.point
shape_type_to_geometry_type ShapeType.point_m = GeometryType.point
shape_type_to_geometry_type ShapeType.point_z = GeometryType.point
shape_type_to_geometry_type ShapeType.multipoint = GeometryType.multi_point
shape_type_to_geometry_type ShapeType.multipoint_m = GeometryType.multi_point
shape_type_to_geometry_type ShapeType.multipoint_z = GeometryType.multi_point
shape_type_to_geometry_type ShapeType.polyline = GeometryType.multi_line_string
shape_type_to_geometry_type ShapeType.polyline_m = GeometryType.multi_line_string
shape_type_to_geometry_type ShapeType.polyline_z = GeometryType.multi_line_string
shape_type_to_geometry_type ShapeType.polygon = GeometryType.multi_polygon
shape_type_to_geometry_type ShapeType.polygon_m = GeometryType.multi_polygon
shape_type_to_geometry_type ShapeType.polygon_z = GeometryType.multi_polygon
shape_type_to_geometry_type ShapeType.multipatch = GeometryType.geometry
shape_type_to_geometry_type ShapeType.null_shape = GeometryType.geometry

unfoldable pub decide_output_shape_type : GeometryType → Result ShapeError ShapeType
decide_output_shape_type GeometryType.point = ok ShapeType.point
decide_output_shape_type GeometryType.multi_point = ok ShapeType.multipoint
decide_output_shape_type GeometryType.line_string = ok ShapeType.polyline
decide_output_shape_type GeometryType.multi_line_string = ok ShapeType.polyline
decide_output_shape_type GeometryType.polygon = ok ShapeType.polygon
decide_output_shape_type GeometryType.multi_polygon = ok ShapeType.polygon
decide_output_shape_type GeometryType.geometry = err (mixed_shapes GeometryType.geometry)
decide_output_shape_type GeometryType.geometry_collection =
    err (mixed_shapes GeometryType.geometry_collection)

-- crates/shpx-driver-shp/src/util.rs, at the losses of a geometry. The field is always "geometry".
unfoldable pub apply_on_geometry_loss : LossKind → OnLoss → Result ShapeError (Unit {0})
apply_on_geometry_loss kind OnLoss.error = err (on_loss kind)
apply_on_geometry_loss kind OnLoss.warn = ok tt
apply_on_geometry_loss kind OnLoss.skip = ok tt

unfoldable pub drop_axis : LossKind → OnLoss → Geom → Result ShapeError (Option Geom)
unfolding apply_on_geometry_loss
drop_axis kind policy built = do applied ← apply_on_geometry_loss kind policy; ok (some built)

unfoldable pub linestring_or_multi : List (List Coord) → Geom
linestring_or_multi [] = Geom.multi_line_string []
linestring_or_multi (part ∷ []) = Geom.line_string part
linestring_or_multi (part ∷ part' ∷ parts) = Geom.multi_line_string (part ∷ part' ∷ parts)

unfoldable pub validate_geom_for_shape_type : Geom → ShapeType → Result ShapeError (Unit {0})
validate_geom_for_shape_type (Geom.point x y) ShapeType.point = ok tt
validate_geom_for_shape_type (Geom.multi_point pts) ShapeType.multipoint = ok tt
validate_geom_for_shape_type (Geom.line_string pts) ShapeType.polyline = ok tt
validate_geom_for_shape_type (Geom.multi_line_string parts) ShapeType.polyline = ok tt
validate_geom_for_shape_type (Geom.polygon rings) ShapeType.polygon = ok tt
validate_geom_for_shape_type (Geom.multi_polygon polys) ShapeType.polygon = ok tt
validate_geom_for_shape_type g st = err (mismatch g st)

-- `flat_map`
abbrev pub flat_map : {A B : Type 0} → (A → List B) → List A → List B
flat_map f [] = []
flat_map f (x ∷ xs) = f x ++ flat_map f xs

module _ (lib : Shapefile) where
  open lib use {
    Point, Polyline, Polygon, Multipoint, xy_of, parts, rings, points, new_point, new_polyline,
    with_parts, with_rings, new_multipoint,
  }

  -- The crate's enum.
  pub data Shape : Type 0 where
    null_shape multipatch : Shape
    point : Point xy → Shape
    point_m : Point m → Shape
    point_z : Point z → Shape
    polyline : Polyline xy → Shape
    polyline_m : Polyline m → Shape
    polyline_z : Polyline z → Shape
    polygon : Polygon xy → Shape
    polygon_m : Polygon m → Shape
    polygon_z : Polygon z → Shape
    multipoint : Multipoint xy → Shape
    multipoint_m : Multipoint m → Shape
    multipoint_z : Multipoint z → Shape

  unfoldable pub points_xy : (a : Axes) → List (Point a) → List Coord
  points_xy a pts = map (xy_of a) pts

  unfoldable pub parts_xy : (a : Axes) → List (List (Point a)) → List (List Coord)
  unfolding points_xy
  parts_xy a ps = map (points_xy a) ps

  unfoldable pub rings_xy : (a : Axes) → List (List (Point a)) → List (List Coord)
  unfolding points_xy
  rings_xy a rs = map (points_xy a) rs

  unfoldable pub shp_to_geom : Shape → OnLoss → Result ShapeError (Option Geom)
  unfolding linestring_or_multi points_xy parts_xy rings_xy drop_axis
  shp_to_geom null_shape policy = ok none
  shp_to_geom (point p) policy = ok (some (Geom.point (xy_of xy p).0 (xy_of xy p).1))
  shp_to_geom (polyline pl) policy = ok (some (linestring_or_multi (parts_xy xy (parts xy pl))))
  shp_to_geom (polygon pg) policy = ok (some (Geom.polygon (rings_xy xy (rings xy pg))))
  shp_to_geom (multipoint mp) policy = ok (some (Geom.multi_point (points_xy xy (points xy mp))))
  shp_to_geom (point_m p) policy =
      drop_axis m_on_shp policy (Geom.point (xy_of m p).0 (xy_of m p).1)
  shp_to_geom (polyline_m pl) policy =
      drop_axis m_on_shp policy (linestring_or_multi (parts_xy m (parts m pl)))
  shp_to_geom (polygon_m pg) policy =
      drop_axis m_on_shp policy (Geom.polygon (rings_xy m (rings m pg)))
  shp_to_geom (multipoint_m mp) policy =
      drop_axis m_on_shp policy (Geom.multi_point (points_xy m (points m mp)))
  shp_to_geom (point_z p) policy =
      drop_axis z_on_shp policy (Geom.point (xy_of z p).0 (xy_of z p).1)
  shp_to_geom (polyline_z pl) policy =
      drop_axis z_on_shp policy (linestring_or_multi (parts_xy z (parts z pl)))
  shp_to_geom (polygon_z pg) policy =
      drop_axis z_on_shp policy (Geom.polygon (rings_xy z (rings z pg)))
  shp_to_geom (multipoint_z mp) policy =
      drop_axis z_on_shp policy (Geom.multi_point (points_xy z (points z mp)))
  shp_to_geom multipatch policy = err multipatch_unsupported

  unfoldable pub to_points : List Coord → List (Point xy)
  to_points pts = map new_point pts

  -- `enumerate`, where only the ring with index 0 is the outer one.
  unfoldable pub rings_to_polygon_rings : List (List Coord) → List (PolygonRing (Point xy))
  unfolding to_points
  rings_to_polygon_rings [] = []
  rings_to_polygon_rings (ring ∷ rest) =
      outer (to_points ring) ∷ map (λ (r : List Coord). inner (to_points r)) rest

  -- The crate panics on a part of fewer than two points, which is not modelled.
  unfoldable pub geom_to_shp : Geom → Shape
  unfolding to_points rings_to_polygon_rings
  geom_to_shp (Geom.point x y) = point (new_point (x, y))
  geom_to_shp (Geom.line_string pts) = polyline (new_polyline (to_points pts))
  geom_to_shp (Geom.polygon rs) = polygon (with_rings (rings_to_polygon_rings rs))
  geom_to_shp (Geom.multi_point pts) = multipoint (new_multipoint (to_points pts))
  geom_to_shp (Geom.multi_line_string ps) = polyline (with_parts (map to_points ps))
  geom_to_shp (Geom.multi_polygon polys) =
      polygon (with_rings (flat_map rings_to_polygon_rings polys))
