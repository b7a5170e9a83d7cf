-- ===== src/Geom/Walk.antt =====
-- crates/shpx-geom/src/geom_walk.rs: the coordinates of a geometry in the order of the WKB.
-- A closure with state `S` is a function that takes and returns it. A failed walk leaves the
-- coordinates that it has passed changed, so the geometry comes back with the error.
pub mod Flat
pub mod Shape
mod Runs
use shpx.Prelude.{List, [], ◌∷◌, ◌++◌, Option, none, some}
use shpx.Geom.Types.{
  Coord, Geom, point, line_string, polygon, multi_point, multi_line_string, multi_polygon,
}

-- What a walk leaves: the changed items, the closure's state, and the error that stopped it.
abbrev pub Walked : Type 0 → Type 0 → Type 0 → Type 0
Walked A S E = A × S × Option E

-- The result of a walk, as a part of the geometry around it.
abbrev pub within : {A B S E : Type 0} → (A → B) → Walked A S E → Walked B S E
within make (a, s, e) = (make a, s, e)

-- The walk over an item and, unless that failed, over those behind it.
abbrev pub and_rest :
    {A S E : Type 0} → Walked A S E → List A → (S → Walked (List A) S E) → Walked (List A) S E
and_rest (x', s', some e) xs more = (x' ∷ xs, s', some e)
and_rest (x', s', none) xs more = within (λ xs'. x' ∷ xs') (more s')

-- `for x in xs { walk(x)?; }`
unfoldable pub walk_each :
    {A S E : Type 0} → (A → S → Walked A S E) → List A → S → Walked (List A) S E
walk_each walk [] s = ([], s, none)
walk_each walk (x ∷ xs) s = and_rest (walk x s) xs (walk_each walk xs)

unfoldable pub walk_pts :
    {S E : Type 0} → (Coord → S → Walked Coord S E) → List Coord → S → Walked (List Coord) S E
unfolding walk_each
walk_pts f = walk_each f

unfoldable pub walk : {S E : Type 0} → (Coord → S → Walked Coord S E) → Geom → S → Walked Geom S E
unfolding walk_pts walk_each
walk f (point x y) s = within (λ c. point c.0 c.1) (f (x, y) s)
walk f (line_string pts) s = within line_string (walk_pts f pts s)
walk f (multi_point pts) s = within multi_point (walk_pts f pts s)
walk f (polygon rings) s = within polygon (walk_each (walk_pts f) rings s)
walk f (multi_line_string lines) s = within multi_line_string (walk_each (walk_pts f) lines s)
walk f (multi_polygon polys) s = within multi_polygon (walk_each (walk_each (walk_pts f)) polys s)

unfoldable pub try_for_each_coord_mut :
    {S E : Type 0} → (Coord → S → Walked Coord S E) → Geom → S → Walked Geom S E
unfolding walk
try_for_each_coord_mut f g s = walk f g s

-- The closure wrapped so that it never fails; the result is dropped.
unfoldable pub for_each_coord_mut : {S : Type 0} → (Coord → S → Coord × S) → Geom → S → Geom × S
unfolding try_for_each_coord_mut
for_each_coord_mut f g s =
    let r =
      try_for_each_coord_mut {E = Unit {0}} (λ c t. let (c', t') = f c t in (c', t', none)) g s in
    (r.0, r.1)

-- `for &c in pts { f(c) }`
unfoldable pub visit_each : {A S : Type 0} → (A → S → S) → List A → S → S
visit_each f [] s = s
visit_each f (x ∷ xs) s = visit_each f xs (f x s)

unfoldable pub walk_ref : {S : Type 0} → (Coord → S → S) → Geom → S → S
unfolding visit_each
walk_ref f (point x y) s = f (x, y) s
walk_ref f (line_string pts) s = visit_each f pts s
walk_ref f (multi_point pts) s = visit_each f pts s
walk_ref f (polygon rings) s = visit_each (visit_each f) rings s
walk_ref f (multi_line_string lines) s = visit_each (visit_each f) lines s
walk_ref f (multi_polygon polys) s = visit_each (visit_each (visit_each f)) polys s

unfoldable pub for_each_coord : {S : Type 0} → (Coord → S → S) → Geom → S → S
unfolding walk_ref
for_each_coord f g s = walk_ref f g s
