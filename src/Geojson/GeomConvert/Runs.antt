-- ===== src/Geojson/GeomConvert/Runs.antt =====
-- Conversions of concrete geometries.
use shpx.Prelude.{ℕ, ◌≡◌, ◌↔◌, refl, [], ◌∷◌, none, ok, err}
use shpx.Geom.Types as Types
use shpx.Geojson.GeomConvert.{
  Geometry, polygon, multi_point, geometry_to_geom, geom_to_geometry, dimensions_refused,
}
use shpx.Geojson.GeomConvert.Inverse.{geometry_to_geom-iff-geom_to_geometry}

abbrev triangle : Geometry ℕ
triangle = record {
  bbox = none;
  value = polygon (((1 ∷ 2 ∷ []) ∷ (3 ∷ 4 ∷ []) ∷ (1 ∷ 2 ∷ []) ∷ []) ∷ []);
  foreign_members = none;
}

abbrev ring : Types.Geom
ring = Types.polygon (((1, 2) ∷ (3, 4) ∷ (1, 2) ∷ []) ∷ [])

geometry_to_geom-iff-geom_to_geometry_example :
    (geometry_to_geom triangle ≡ ok ring) ↔ (triangle.value ≡ (geom_to_geometry {X = ℕ} ring).value)
geometry_to_geom-iff-geom_to_geometry_example = geometry_to_geom-iff-geom_to_geometry triangle ring

triangle_read : geometry_to_geom triangle ≡ ok ring
unfolding geometry_to_geom
triangle_read = refl

with_height :
    geometry_to_geom (record triangle { value = multi_point ((1 ∷ 2 ∷ 3 ∷ []) ∷ []) })
    ≡ err (dimensions_refused 3)
unfolding geometry_to_geom
with_height = refl
