-- ===== src/Geom/Walk/Runs.antt =====
-- Concrete walks, and the theorems at them.
use shpx.Prelude.{ℕ, ◌+◌, ◌≡◌, refl, List, [], ◌∷◌, none, some, ◌==◌, if◌then◌else◌}
use shpx.Geom.Types.{Coord, Geom, multi_polygon}
use shpx.Geom.Walk.{Walked, walk_each, within, try_for_each_coord_mut, for_each_coord}
use shpx.Geom.Walk.Flat.{coords, walk-coords}

abbrev four_points : Geom
four_points =
    multi_polygon ((((1, 0) ∷ (2, 0) ∷ []) ∷ []) ∷ ((((3, 0) ∷ []) ∷ ((4, 0) ∷ []) ∷ [])) ∷ [])

-- Counts the coordinates, moves them, and fails at the third.
abbrev move : Coord → ℕ → Walked Coord ℕ ℕ
move c n = ((c.0 + 10, c.1), n + 1, if n == 2 then some n else none)

abbrev note : Coord → List ℕ → List ℕ
note c xs = c.0 ∷ xs

visit_order : for_each_coord note four_points [] ≡ 4 ∷ 3 ∷ 2 ∷ 1 ∷ []
unfolding for_each_coord
visit_order = refl

move_stops : try_for_each_coord_mut move four_points 0 ≡ (
  multi_polygon ((((11, 0) ∷ (12, 0) ∷ []) ∷ []) ∷ ((((13, 0) ∷ []) ∷ ((4, 0) ∷ []) ∷ [])) ∷ []),
  3,
  some 2,
)
unfolding try_for_each_coord_mut
move_stops = refl

walk-coords_example :
    within coords (try_for_each_coord_mut move four_points 0)
    ≡ walk_each move (coords four_points) 0
walk-coords_example = walk-coords move four_points 0
