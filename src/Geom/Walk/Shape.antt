-- ===== src/Geom/Walk/Shape.antt =====
-- A walk keeps the shape of the geometry, also where it fails.
use shpx.Prelude.{ℕ, ◌+◌, ◌≡◌, refl, arith, List, [], ◌∷◌, none, some, length}
use shpx.Geom.Types.{
  Coord, Geom, point, line_string, polygon, multi_point, multi_line_string, multi_polygon,
}
use shpx.Geom.Wkb.Encode.{estimate_size, sum_map, ring_size, line_size, polygon_size}
use shpx.Geom.Wkb.Layout.{sum_map-const}
use shpx.Geom.Walk.{Walked, walk_each, walk_pts, try_for_each_coord_mut, and_rest}

module _ {A S E : Type 0} (f : A → S → Walked A S E) (size : A → ℕ)
    (keep : (x : A) (s : S) → size ((f x s).0) ≡ size x) where
  rest-size :
      (r : Walked A S E) (x : A) (xs : List A)
      → size (r.0) ≡ size x
      → ((s : S) → sum_map size ((walk_each f xs s).0) ≡ sum_map size xs)
      → sum_map size ((and_rest r xs (walk_each f xs)).0) ≡ size x + sum_map size xs
  rest-size (x', s', some e) x xs h ih = omega arith
  rest-size (x', s', none) x xs h ih = omega (arith, ih s')

  walk_each-size : (xs : List A) (s : S) → sum_map size ((walk_each f xs s).0) ≡ sum_map size xs
  unfolding walk_each
  walk_each-size [] s = refl
  walk_each-size (x ∷ xs) s = rest-size (f x s) x xs (keep x s) (λ t. walk_each-size xs t)

-- The number of the items, whatever the inner walk does.
pub length-walk_each :
    {A S E : Type 0} (f : A → S → Walked A S E) (xs : List A) (s : S)
    → length ((walk_each f xs s).0) ≡ length xs
length-walk_each f xs s = omega (
  arith,
  walk_each-size f (λ _. 1) (λ _ _. refl) xs s,
  sum_map-const 1 xs,
  sum_map-const 1 ((walk_each f xs s).0),
)

module _ {S E : Type 0} (f : Coord → S → Walked Coord S E) where
  ring-size : (r : List Coord) (s : S) → ring_size ((walk_pts f r s).0) ≡ ring_size r
  unfolding walk_pts
  ring-size r s = omega (arith, length-walk_each f r s)

  line-size : (r : List Coord) (s : S) → line_size ((walk_pts f r s).0) ≡ line_size r
  unfolding walk_pts
  line-size r s = omega (arith, length-walk_each f r s)

  polygon-size :
      (p : List (List Coord)) (s : S)
      → polygon_size ((walk_each (walk_pts f) p s).0) ≡ polygon_size p
  polygon-size p s = omega (arith, walk_each-size (walk_pts f) ring_size ring-size p s)

  -- A walk that changes coordinates, whether it fails or not, keeps the geometry's WKB size.
  pub estimate_size-walk :
      (g : Geom) (s : S) → estimate_size ((try_for_each_coord_mut f g s).0) ≡ estimate_size g
  unfolding try_for_each_coord_mut estimate_size
  estimate_size-walk (point x y) s = refl
  estimate_size-walk (line_string pts) s = omega (arith, length-walk_each f pts s)
  estimate_size-walk (polygon rings) s =
      omega (arith, walk_each-size (walk_pts f) ring_size ring-size rings s)
  estimate_size-walk (multi_point pts) s = omega (arith, length-walk_each f pts s)
  estimate_size-walk (multi_line_string lines) s =
      omega (arith, walk_each-size (walk_pts f) line_size line-size lines s)
  estimate_size-walk (multi_polygon polys) s =
      omega (arith, walk_each-size (walk_each (walk_pts f)) polygon_size polygon-size polys s)
