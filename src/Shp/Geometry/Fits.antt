-- ===== src/Shp/Geometry/Fits.antt =====
-- What is read of a Shapefile fits the shapes of one that is written of it.
use shpx.Prelude.{◌≡◌, refl, subst, List, [], ◌∷◌, some, Option, Result, ok}
use shpx.Geom.Types.{Coord, Geom}
use shpx.Shp.Loss.{OnLoss}
use shpx.Shp.Geometry.{
  ShapeType, Shapefile, Shape, LossKind, ShapeError, drop_axis, apply_on_geometry_loss,
  linestring_or_multi, validate_geom_for_shape_type, shape_type_to_geometry_type,
  decide_output_shape_type, shp_to_geom,
}

-- The type that the crate gives of a shape.
abbrev pub type_of : {lib : Shapefile} → Shape lib → ShapeType
type_of {lib} Shape.null_shape = ShapeType.null_shape
type_of {lib} Shape.multipatch = ShapeType.multipatch
type_of {lib} (Shape.point p) = ShapeType.point
type_of {lib} (Shape.point_m p) = ShapeType.point_m
type_of {lib} (Shape.point_z p) = ShapeType.point_z
type_of {lib} (Shape.polyline p) = ShapeType.polyline
type_of {lib} (Shape.polyline_m p) = ShapeType.polyline_m
type_of {lib} (Shape.polyline_z p) = ShapeType.polyline_z
type_of {lib} (Shape.polygon p) = ShapeType.polygon
type_of {lib} (Shape.polygon_m p) = ShapeType.polygon_m
type_of {lib} (Shape.polygon_z p) = ShapeType.polygon_z
type_of {lib} (Shape.multipoint p) = ShapeType.multipoint
type_of {lib} (Shape.multipoint_m p) = ShapeType.multipoint_m
type_of {lib} (Shape.multipoint_z p) = ShapeType.multipoint_z

module _ (lib : Shapefile) where
  -- The shape type that the writer decides on for the reader's column.
  abbrev pub Fits : Shape lib → Geom → Type 0
  Fits s g =
      (st : ShapeType) × (decide_output_shape_type (shape_type_to_geometry_type (type_of s))
        ≡ ok st)
      × (validate_geom_for_shape_type g st ≡ ok tt)

  lines_fit :
      (ps : List (List Coord))
      → validate_geom_for_shape_type (linestring_or_multi ps) ShapeType.polyline ≡ ok tt
  unfolding validate_geom_for_shape_type linestring_or_multi
  lines_fit [] = refl
  lines_fit (p ∷ []) = refl
  lines_fit (p ∷ p' ∷ ps) = refl

  dropped :
      (P : Geom → Type 0) (kind : LossKind) (policy : OnLoss) (built g : Geom)
      → drop_axis kind policy built ≡ ok (some g)
      → P built
      → P g
  unfolding drop_axis apply_on_geometry_loss
  dropped P kind OnLoss.error built g e p = cc
  dropped P kind OnLoss.warn built g e p = subst P (cc) p
  dropped P kind OnLoss.skip built g e p = subst P (cc) p

  kept :
      (P : Geom → Type 0) (built g : Geom)
      → ◌≡◌ {A = Result ShapeError (Option Geom)} (ok (some built)) (ok (some g))
      → P built
      → P g
  kept P built g e p = subst P (cc) p

  -- A geometry that is read of a shape fits the shape type that the writer decides on for the
  -- geometry type of the shape's type, whatever the policy on the axes.
  pub shp_to_geom-Fits :
      (s : Shape lib) (policy : OnLoss) (g : Geom)
      → shp_to_geom lib s policy ≡ ok (some g)
      → Fits s g
  unfolding shp_to_geom decide_output_shape_type shape_type_to_geometry_type
      validate_geom_for_shape_type
  shp_to_geom-Fits Shape.null_shape policy g e = cc
  shp_to_geom-Fits Shape.multipatch policy g e = cc
  shp_to_geom-Fits (Shape.point p) policy g e =
      kept (Fits (Shape.point p)) _ g e (ShapeType.point, refl, refl)
  shp_to_geom-Fits (Shape.point_m p) policy g e =
      dropped (Fits (Shape.point_m p)) _ policy _ g e (ShapeType.point, refl, refl)
  shp_to_geom-Fits (Shape.point_z p) policy g e =
      dropped (Fits (Shape.point_z p)) _ policy _ g e (ShapeType.point, refl, refl)
  shp_to_geom-Fits (Shape.polyline p) policy g e =
      kept (Fits (Shape.polyline p)) _ g e (ShapeType.polyline, refl, lines_fit _)
  shp_to_geom-Fits (Shape.polyline_m p) policy g e =
      dropped (Fits (Shape.polyline_m p)) _ policy _ g e (ShapeType.polyline, refl, lines_fit _)
  shp_to_geom-Fits (Shape.polyline_z p) policy g e =
      dropped (Fits (Shape.polyline_z p)) _ policy _ g e (ShapeType.polyline, refl, lines_fit _)
  shp_to_geom-Fits (Shape.polygon p) policy g e =
      kept (Fits (Shape.polygon p)) _ g e (ShapeType.polygon, refl, refl)
  shp_to_geom-Fits (Shape.polygon_m p) policy g e =
      dropped (Fits (Shape.polygon_m p)) _ policy _ g e (ShapeType.polygon, refl, refl)
  shp_to_geom-Fits (Shape.polygon_z p) policy g e =
      dropped (Fits (Shape.polygon_z p)) _ policy _ g e (ShapeType.polygon, refl, refl)
  shp_to_geom-Fits (Shape.multipoint p) policy g e =
      kept (Fits (Shape.multipoint p)) _ g e (ShapeType.multipoint, refl, refl)
  shp_to_geom-Fits (Shape.multipoint_m p) policy g e =
      dropped (Fits (Shape.multipoint_m p)) _ policy _ g e (ShapeType.multipoint, refl, refl)
  shp_to_geom-Fits (Shape.multipoint_z p) policy g e =
      dropped (Fits (Shape.multipoint_z p)) _ policy _ g e (ShapeType.multipoint, refl, refl)
