-- ===== src/Shp/Geometry/Back.antt =====
-- What comes back of a geometry that is written as a shape, and when it fits the column.
use shpx.Prelude.{
  suc, ◌<◌, ◌≤◌, arith, length, ◌≡◌, refl, ap, ◌∙◌, List, [], ◌∷◌, map, some, ok, All,
}
use mathlib.Core.List.{map-append}
use shpx.Geom.Types.{Coord, Geom}
use shpx.Shp.Loss.{OnLoss}
use shpx.Shp.Geometry.{
  PolygonRing, outer, inner, Shapefile, xy, linestring_or_multi, points_xy, parts_xy, rings_xy,
  shp_to_geom, to_points, rings_to_polygon_rings, geom_to_shp, flat_map,
}

-- The geometry that the six kinds of shape leave of a geometry: one part is a line string, and the
-- rings of all polygons are one polygon.
abbrev pub merged : Geom → Geom
merged (Geom.point x y) = Geom.point x y
merged (Geom.line_string pts) = Geom.line_string pts
merged (Geom.polygon rings) = Geom.polygon rings
merged (Geom.multi_point pts) = Geom.multi_point pts
merged (Geom.multi_line_string []) = Geom.multi_line_string []
merged (Geom.multi_line_string (part ∷ [])) = Geom.line_string part
merged (Geom.multi_line_string (part ∷ part' ∷ parts)) =
    Geom.multi_line_string (part ∷ part' ∷ parts)
merged (Geom.multi_polygon polys) = Geom.polygon (flat_map (λ rings. rings) polys)

abbrev pub ring_points : {P : Type 0} → PolygonRing P → List P
ring_points (outer pts) = pts
ring_points (inner pts) = pts

linestring_or_multi-merged :
    (ps : List (List Coord)) → linestring_or_multi ps ≡ merged (Geom.multi_line_string ps)
unfolding linestring_or_multi
linestring_or_multi-merged [] = refl
linestring_or_multi-merged (p ∷ []) = refl
linestring_or_multi-merged (p ∷ p' ∷ ps) = refl

-- A part of a polyline, of two points or more.
abbrev pub IsPart : {P : Type 0} → List P → Type 0
IsPart pts = 2 ≤ length pts

module _ (lib : Shapefile) where
  open lib use {
    Point, Polyline, Polygon, Multipoint, xy_of, parts, rings, points, new_point, new_polyline,
    with_parts, with_rings, new_multipoint,
  }

  -- What the crate documents of its constructors and accessors: a polyline keeps its parts, where
  -- there are some and each has two points or more (it panics on a shorter part), a multipoint its
  -- points, where there are some, and a polygon its rings, where there are some and they are closed
  -- and in the order of the format, as `Normal`.
  pub record Documented (Normal : PolygonRing (Point xy) → Type 0) : Type 0 where
    pub xy_of-new_point : (c : Coord) → xy_of xy (new_point c) ≡ c
    pub parts-new_polyline :
        (pts : List (Point xy)) → 2 ≤ length pts → parts xy (new_polyline pts) ≡ pts ∷ []
    pub parts-with_parts :
        (ps : List (List (Point xy)))
        → 0 < length ps
        → All IsPart ps
        → parts xy (with_parts ps) ≡ ps
    pub points-new_multipoint :
        (pts : List (Point xy)) → 0 < length pts → points xy (new_multipoint pts) ≡ pts
    pub rings-with_rings :
        (rs : List (PolygonRing (Point xy)))
        → 0 < length rs
        → All Normal rs
        → rings xy (with_rings rs) ≡ map ring_points rs

  -- The geometries that the crate takes as they are.
  abbrev pub IsNormal : (PolygonRing (Point xy) → Type 0) → Geom → Type 0
  IsNormal Normal (Geom.point x y) = Unit {0}
  IsNormal Normal (Geom.line_string pts) = 2 ≤ length pts
  IsNormal Normal (Geom.polygon rs) =
      (0 < length (rings_to_polygon_rings lib rs)) × All Normal (rings_to_polygon_rings lib rs)
  IsNormal Normal (Geom.multi_point pts) = 0 < length pts
  IsNormal Normal (Geom.multi_line_string ps) = (0 < length ps) × All IsPart ps
  IsNormal Normal (Geom.multi_polygon polys) =
      (0 < length (flat_map (rings_to_polygon_rings lib) polys))
      × All Normal (flat_map (rings_to_polygon_rings lib) polys)

  length-to_points : (pts : List Coord) → length (to_points lib pts) ≡ length pts
  unfolding to_points
  length-to_points [] = refl
  length-to_points (c ∷ pts) = ap suc (length-to_points pts)

  to_points-IsPart : (ps : List (List Coord)) → All IsPart ps → All IsPart (map (to_points lib) ps)
  to_points-IsPart [] h = tt
  to_points-IsPart (pts ∷ ps) h =
      (omega (arith, h.0, length-to_points pts), to_points-IsPart ps h.1)

  length-map : (ps : List (List Coord)) → length (map (to_points lib) ps) ≡ length ps
  length-map [] = refl
  length-map (pts ∷ ps) = ap suc (length-map ps)

  module _ {Normal : PolygonRing (Point xy) → Type 0} (doc : Documented Normal) where
    points_back : (pts : List Coord) → points_xy lib xy (to_points lib pts) ≡ pts
    unfolding points_xy to_points
    points_back [] = refl
    points_back (c ∷ pts) = rw (doc.xy_of-new_point c, points_back pts)

    parts_back : (ps : List (List Coord)) → parts_xy lib xy (map (to_points lib) ps) ≡ ps
    unfolding parts_xy
    parts_back [] = refl
    parts_back (pts ∷ ps) = rw (points_back pts, parts_back ps)

    inners_back :
        (rs : List (List Coord))
        → map
            (points_xy lib xy)
            (map ring_points (map (λ (r : List Coord). inner (to_points lib r)) rs))
          ≡ rs
    inners_back [] = refl
    inners_back (r ∷ rs) = rw (points_back r, inners_back rs)

    rings_back :
        (rs : List (List Coord))
        → map (points_xy lib xy) (map ring_points (rings_to_polygon_rings lib rs)) ≡ rs
    unfolding rings_to_polygon_rings
    rings_back [] = refl
    rings_back (r ∷ rs) = rw (points_back r, inners_back rs)

    polys_back :
        (polys : List (List (List Coord)))
        → map (points_xy lib xy) (map ring_points (flat_map (rings_to_polygon_rings lib) polys))
          ≡ flat_map (λ rings. rings) polys
    polys_back [] = refl
    polys_back (rs ∷ polys) =
        ap (map (points_xy lib xy)) (
          map-append ring_points (rings_to_polygon_rings lib rs)
            (flat_map (rings_to_polygon_rings lib) polys))
        ∙ map-append (points_xy lib xy) (map ring_points (rings_to_polygon_rings lib rs)) _
        ∙ rw (rings_back rs, polys_back polys)

    -- Where the crate keeps points, parts of two points or more, and normal rings: whatever the
    -- policy, the shape of a geometry of such parts and rings is read as the geometry, but one part
    -- alone as a line string, and several polygons as one polygon with the rings of all.
    pub shp_to_geom-geom_to_shp :
        (g : Geom) (policy : OnLoss)
        → IsNormal Normal g
        → shp_to_geom lib (geom_to_shp lib g) policy ≡ ok (some (merged g))
    unfolding shp_to_geom geom_to_shp rings_xy
    shp_to_geom-geom_to_shp (Geom.point x y) policy h = rw (doc.xy_of-new_point (x, y))
    shp_to_geom-geom_to_shp (Geom.line_string pts) policy h = rw (
      doc.parts-new_polyline (to_points lib pts) (omega (arith, h, length-to_points pts)),
      points_back pts,
      linestring_or_multi-merged (pts ∷ []),
    )
    shp_to_geom-geom_to_shp (Geom.polygon rs) policy h =
        rw (doc.rings-with_rings (rings_to_polygon_rings lib rs) h.0 h.1, rings_back rs)
    shp_to_geom-geom_to_shp (Geom.multi_point pts) policy h = rw (
      doc.points-new_multipoint (to_points lib pts) (omega (arith, h, length-to_points pts)),
      points_back pts,
    )
    shp_to_geom-geom_to_shp (Geom.multi_line_string ps) policy h = rw (
      doc.parts-with_parts (map (to_points lib) ps) (omega (arith, h.0, length-map ps))
          (to_points-IsPart ps h.1),
      parts_back ps,
      linestring_or_multi-merged ps,
    )
    shp_to_geom-geom_to_shp (Geom.multi_polygon polys) policy h = rw (
      doc.rings-with_rings (flat_map (rings_to_polygon_rings lib) polys) h.0 h.1,
      polys_back polys,
    )
