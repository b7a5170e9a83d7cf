-- ===== src/Shp/Geometry/Runs.antt =====
-- Concrete shapes, and the theorems at them.
use shpx.Prelude.{◌≡◌, refl, arith, List, [], ◌∷◌, map, some, ok, err}
use shpx.Geom.Types.{Coord, Geom}
use shpx.Core.Schema.{GeometryType}
use shpx.Shp.Loss.{OnLoss}
use shpx.Shp.Geometry.{
  Shapefile, Shape, on_loss, z_on_shp, mixed_shapes, shp_to_geom, geom_to_shp,
  rings_to_polygon_rings, decide_output_shape_type,
}
use shpx.Shp.Geometry.Back.{ring_points, merged, Documented, shp_to_geom-geom_to_shp}
use shpx.Shp.Geometry.Fits.{Fits, shp_to_geom-Fits}

-- A crate that keeps what it is given.
abbrev plain : Shapefile
plain = record {
  Point = λ a. Coord;
  Polyline = λ a. List (List Coord);
  Polygon = λ a. List (List Coord);
  Multipoint = λ a. List Coord;
  xy_of = λ a c. c;
  parts = λ a ps. ps;
  rings = λ a rs. rs;
  points = λ a ps. ps;
  new_point = λ c. c;
  new_polyline = λ pts. pts ∷ [];
  with_parts = λ ps. ps;
  with_rings = λ rs. map ring_points rs;
  new_multipoint = λ pts. pts;
}

plain-Documented : Documented plain (λ r. Unit {0})
plain-Documented = record {
  xy_of-new_point = λ c. refl;
  parts-new_polyline = λ pts two. refl;
  parts-with_parts = λ ps some_part two. refl;
  points-new_multipoint = λ pts some_point. refl;
  rings-with_rings = λ rs some_ring h. refl;
}

abbrev islands : Geom
islands =
    Geom.multi_polygon ((((0, 0) ∷ (1, 1) ∷ []) ∷ ((2, 2) ∷ []) ∷ []) ∷ (((5, 5) ∷ []) ∷ []) ∷ [])

axes_refused : shp_to_geom plain (Shape.point_z (3, 4)) OnLoss.error ≡ err (on_loss z_on_shp)
unfolding shp_to_geom
axes_refused = refl

axes_skipped : shp_to_geom plain (Shape.point_m (3, 4)) OnLoss.skip ≡ ok (some (Geom.point 3 4))
unfolding shp_to_geom
axes_skipped = refl

no_mixed_column :
    decide_output_shape_type GeometryType.geometry ≡ err (mixed_shapes GeometryType.geometry)
unfolding decide_output_shape_type
no_mixed_column = refl

-- The outer ring of the second polygon is the third ring of the one that is read.
islands_joined :
    merged islands ≡ Geom.polygon (((0, 0) ∷ (1, 1) ∷ []) ∷ ((2, 2) ∷ []) ∷ ((5, 5) ∷ []) ∷ [])
islands_joined = refl

shp_to_geom-geom_to_shp_example :
    shp_to_geom plain (geom_to_shp plain islands) OnLoss.error ≡ ok (some (merged islands))
unfolding rings_to_polygon_rings
shp_to_geom-geom_to_shp_example =
    shp_to_geom-geom_to_shp plain plain-Documented islands OnLoss.error
      (omega arith, (tt, (tt, (tt, tt))))

one_part :
    shp_to_geom plain (Shape.polyline_m (((1, 2) ∷ []) ∷ [])) OnLoss.warn
    ≡ ok (some (Geom.line_string ((1, 2) ∷ [])))
unfolding shp_to_geom
one_part = refl

shp_to_geom-Fits_example :
    Fits plain (Shape.polyline_m (((1, 2) ∷ []) ∷ [])) (Geom.line_string ((1, 2) ∷ []))
shp_to_geom-Fits_example =
    shp_to_geom-Fits plain (Shape.polyline_m (((1, 2) ∷ []) ∷ [])) OnLoss.warn
      (Geom.line_string ((1, 2) ∷ [])) one_part
