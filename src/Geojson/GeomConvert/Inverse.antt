-- ===== src/Geojson/GeomConvert/Inverse.antt =====
-- The two conversions against each other.
use shpx.Prelude.{
  ℕ, ◌≡◌, ◌↔◌, refl, ap, ◌∙◌, List, [], ◌∷◌, map, Result, ok, err, Bool, true, false, leb,
  if◌then◌else◌, length,
}
use shpx.Prelude.Outcome.{◌>>=◌, >>=-eq-ok}
use shpx.Geom.Types.{Coord, F64, Geom}
use shpx.Geom.Types as Types
use shpx.Geojson.GeomConvert.{
  Position, Value, Geometry, PositionError, point, line_string, polygon, multi_point,
  multi_line_string, multi_polygon, geometry_collection, dimensions_refused, invalid_position,
  xy_from_pos, collect, xy_vec, xy_rings, value_to_geom, geometry_to_geom, xy_to_pos, rings_to_pos,
  geom_to_value, geom_to_geometry,
}

-- `f` succeeds exactly on what `g` makes, and gives back what it was made of.
abbrev Inverts : {E A B : Type 0} → (A → Result E B) → (B → A) → Type 0
Inverts {A} {B} f g = ((x : A) (y : B) → f x ≡ ok y → x ≡ g y) × ((y : B) → f (g y) ≡ ok y)

module _ {E A B : Type 0} (f : A → Result E B) (g : B → A) (inv : Inverts f g) where
  collect-only : (xs : List A) (ys : List B) → collect f xs ≡ ok ys → xs ≡ map g ys
  unfolding collect
  collect-only [] ys e = ap (map g) (let same : [] ≡ ys = cc in same)
  collect-only (x ∷ xs) ys e =
      let (z, e1, e') = >>=-eq-ok (f x) _ e in
      let (zs, e2, e'') = >>=-eq-ok (collect f xs) _ e' in
      ap (λ q. q ∷ xs) (inv.0 x z e1)
      ∙ ap (λ q. g z ∷ q) (collect-only xs zs e2)
      ∙ ap (map g) (let same : z ∷ zs ≡ ys = cc in same)

  collect-map : (ys : List B) → collect f (map g ys) ≡ ok ys
  unfolding collect
  collect-map [] = refl
  collect-map (y ∷ ys) = rw (inv.1 y, collect-map ys) refl

  collect-Inverts : Inverts (collect f) (map g)
  collect-Inverts = (collect-only, collect-map)

xy_from_pos-only : (pos : Position) (c : Coord) → xy_from_pos pos ≡ ok c → pos ≡ xy_to_pos c
unfolding xy_from_pos xy_to_pos
xy_from_pos-only [] c e = cc
xy_from_pos-only (x ∷ []) c e = cc
xy_from_pos-only (x ∷ y ∷ []) c e = ap xy_to_pos (let same : (x, y) ≡ c = cc in same)
xy_from_pos-only (x ∷ y ∷ z ∷ pos) c e = refused (leb (length (x ∷ y ∷ z ∷ pos)) 4) _ e
  where
    refused :
        (b : Bool) (n : ℕ)
        → (let r : Result PositionError Coord =
              (if b then err (dimensions_refused n) else err (invalid_position n)) in
            r)
          ≡ ok c
        → x ∷ y ∷ z ∷ pos ≡ xy_to_pos c
    refused true n e = cc
    refused false n e = cc

xy_from_pos-Inverts : Inverts xy_from_pos xy_to_pos
unfolding xy_from_pos xy_to_pos
xy_from_pos-Inverts = (xy_from_pos-only, λ c. refl)

xy_vec-Inverts : Inverts xy_vec (map xy_to_pos)
unfolding xy_vec
xy_vec-Inverts = collect-Inverts xy_from_pos xy_to_pos xy_from_pos-Inverts

xy_rings-Inverts : Inverts xy_rings rings_to_pos
unfolding xy_rings rings_to_pos
xy_rings-Inverts = collect-Inverts xy_vec (map xy_to_pos) xy_vec-Inverts

-- A conversion of the list inside a value.
member-only :
    {E A B C : Type 0} (f : A → Result E B) (g : B → A) (make : B → C) (x : A) (c : C)
    → Inverts f g
    → (f x >>= λ y. ok (make y)) ≡ ok c
    → (y : B) × (x ≡ g y) × (make y ≡ c)
member-only f g make x c inv e =
    let (y, e1, e2) = >>=-eq-ok (f x) _ e in (y, inv.0 x y e1, (let same : make y ≡ c = cc in same))

value_to_geom-back :
    (X : Type 0) (geom : Geom) → value_to_geom (geom_to_value {X = X} geom) ≡ ok geom
unfolding value_to_geom geom_to_value xy_to_pos
value_to_geom-back X (Types.point x y) =
    ap (λ r. r >>= λ c. ok (Types.point (c.0) (c.1))) (xy_from_pos-Inverts.1 (x, y))
value_to_geom-back X (Types.line_string pts) =
    ap (λ r. r >>= λ ps. ok (Types.line_string ps)) (xy_vec-Inverts.1 pts)
value_to_geom-back X (Types.polygon rings) =
    ap (λ r. r >>= λ rs. ok (Types.polygon rs)) (xy_rings-Inverts.1 rings)
value_to_geom-back X (Types.multi_point pts) =
    ap (λ r. r >>= λ ps. ok (Types.multi_point ps)) (xy_vec-Inverts.1 pts)
value_to_geom-back X (Types.multi_line_string lines) =
    ap (λ r. r >>= λ ls. ok (Types.multi_line_string ls))
      (collect-map xy_vec (map xy_to_pos) xy_vec-Inverts lines)
value_to_geom-back X (Types.multi_polygon polys) =
    ap (λ r. r >>= λ ps. ok (Types.multi_polygon ps))
      (collect-map xy_rings rings_to_pos xy_rings-Inverts polys)

module _ {X : Type 0} where
  made :
      {A B : Type 0} (f : A → Result PositionError B) (g : B → A) (make : B → Geom)
      (value : A → Value X) (x : A) (geom : Geom)
      → Inverts f g
      → ((y : B) → value (g y) ≡ geom_to_value (make y))
      → (f x >>= λ y. ok (make y)) ≡ ok geom
      → value x ≡ geom_to_value geom
  made f g make value x geom inv k e =
      let (y, at, same) = member-only f g make x geom inv e in
      ap value at ∙ k y ∙ ap geom_to_value same

  value_to_geom-only :
      (v : Value X) (geom : Geom) → value_to_geom v ≡ ok geom → v ≡ geom_to_value geom
  unfolding value_to_geom geom_to_value xy_to_pos
  value_to_geom-only (point pos) geom e =
      made xy_from_pos xy_to_pos (λ c. Types.point (c.0) (c.1)) point pos geom xy_from_pos-Inverts
        (λ c. refl) e
  value_to_geom-only (line_string positions) geom e =
      made xy_vec (map xy_to_pos) Types.line_string line_string positions geom xy_vec-Inverts
        (λ c. refl) e
  value_to_geom-only (polygon rings) geom e =
      made xy_rings rings_to_pos Types.polygon polygon rings geom xy_rings-Inverts (λ c. refl) e
  value_to_geom-only (multi_point positions) geom e =
      made xy_vec (map xy_to_pos) Types.multi_point multi_point positions geom xy_vec-Inverts
        (λ c. refl) e
  value_to_geom-only (multi_line_string lines) geom e =
      made (collect xy_vec) (map (map xy_to_pos)) Types.multi_line_string multi_line_string lines
        geom (collect-Inverts xy_vec (map xy_to_pos) xy_vec-Inverts) (λ c. refl) e
  value_to_geom-only (multi_polygon polys) geom e =
      made (collect xy_rings) (map rings_to_pos) Types.multi_polygon multi_polygon polys geom
        (collect-Inverts xy_rings rings_to_pos xy_rings-Inverts) (λ c. refl) e
  value_to_geom-only (geometry_collection members) geom e = cc

  -- A GeoJSON geometry is converted to geom exactly where its value is that of geom_to_geometry of
  -- geom.
  pub geometry_to_geom-iff-geom_to_geometry :
      (g : Geometry X) (geom : Geom)
      → (geometry_to_geom g ≡ ok geom) ↔ (g.value ≡ (geom_to_geometry {X = X} geom).value)
  unfolding geometry_to_geom geom_to_geometry
  geometry_to_geom-iff-geom_to_geometry g geom =
      (value_to_geom-only g.value geom, λ e. ap value_to_geom e ∙ value_to_geom-back X geom)
