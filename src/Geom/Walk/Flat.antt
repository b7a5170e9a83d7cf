-- ===== src/Geom/Walk/Flat.antt =====
-- The walks over a geometry are those over the list of its coordinates.
use shpx.Prelude.{◌≡◌, refl, sym, ◌∙◌, ap, List, [], ◌∷◌, ◌++◌, none, some}
use mathlib.Core.Path.{fun_ext}
use shpx.Geom.Types.{
  Coord, Geom, point, line_string, polygon, multi_point, multi_line_string, multi_polygon,
}
use shpx.Geom.Walk.{
  Walked, walk_each, within, try_for_each_coord_mut, visit_each, for_each_coord, and_rest,
}

abbrev pub join : {A : Type 0} → List (List A) → List A
join [] = []
join (xs ∷ xss) = xs ++ join xss

-- The coordinates in the order of the WKB.
unfoldable pub coords : Geom → List Coord
coords (point x y) = (x, y) ∷ []
coords (line_string pts) = pts
coords (polygon rings) = join rings
coords (multi_point pts) = pts
coords (multi_line_string lines) = join lines
coords (multi_polygon polys) = join (join polys)

module _ {A S : Type 0} (f : A → S → S) where
  visit_each-append :
      (xs ys : List A) (s : S) → visit_each f (xs ++ ys) s ≡ visit_each f ys (visit_each f xs s)
  unfolding visit_each
  visit_each-append [] ys s = refl
  visit_each-append (x ∷ xs) ys s = visit_each-append xs ys (f x s)

  visit_each-join :
      (xss : List (List A)) (s : S) → visit_each f (join xss) s ≡ visit_each (visit_each f) xss s
  unfolding visit_each
  visit_each-join [] s = refl
  visit_each-join (xs ∷ xss) s =
      visit_each-append xs (join xss) s ∙ visit_each-join xss (visit_each f xs s)

-- The read-only walk visits each coordinate once, in the order of the WKB.
pub for_each_coord-coords :
    {S : Type 0} (f : Coord → S → S) (g : Geom) (s : S)
    → for_each_coord f g s ≡ visit_each f (coords g) s
unfolding for_each_coord coords visit_each
for_each_coord-coords f (point x y) s = refl
for_each_coord-coords f (line_string pts) s = refl
for_each_coord-coords f (polygon rings) s = sym (visit_each-join f rings s)
for_each_coord-coords f (multi_point pts) s = refl
for_each_coord-coords f (multi_line_string lines) s = sym (visit_each-join f lines s)
for_each_coord-coords f (multi_polygon polys) s =
    sym (visit_each-join f (join polys) s ∙ visit_each-join (visit_each f) polys s)

-- A walk over the first of two lists and, unless it failed, over the second.
abbrev and_more :
    {A S E : Type 0}
    → Walked (List A) S E
    → List A
    → (S → Walked (List A) S E)
    → Walked (List A) S E
and_more (xs', s', some e) ys more = (xs' ++ ys, s', some e)
and_more (xs', s', none) ys more = within (λ ys'. xs' ++ ys') (more s')

module _ {A S E : Type 0} (f : A → S → Walked A S E) where
  and_rest-more :
      (r : Walked A S E) (xs ys : List A)
      → and_rest r (xs ++ ys) (λ s. and_more (walk_each f xs s) ys (walk_each f ys))
        ≡ and_more (and_rest r xs (walk_each f xs)) ys (walk_each f ys)
  and_rest-more (x', s', some e) xs ys = refl
  and_rest-more (x', s', none) xs ys = go (walk_each f xs s')
    where
      go :
          (r : Walked (List A) S E)
          → within (λ zs. x' ∷ zs) (and_more r ys (walk_each f ys))
            ≡ and_more (within (λ zs. x' ∷ zs) r) ys (walk_each f ys)
      go (xs', s'', some e) = refl
      go (xs', s'', none) = refl

  walk_each-append :
      (xs ys : List A) (s : S)
      → walk_each f (xs ++ ys) s ≡ and_more (walk_each f xs s) ys (walk_each f ys)
  unfolding walk_each
  walk_each-append [] ys s = refl
  walk_each-append (x ∷ xs) ys s =
      ap (and_rest (f x s) (xs ++ ys)) (fun_ext (λ t. walk_each-append xs ys t))
      ∙ and_rest-more (f x s) xs ys

  -- A walk over lists of lists is the walk over the joined list.
  walk_each-join :
      (xss : List (List A)) (s : S)
      → walk_each f (join xss) s ≡ within join (walk_each (walk_each f) xss s)
  unfolding walk_each
  walk_each-join [] s = refl
  walk_each-join (xs ∷ xss) s =
      walk_each-append xs (join xss) s
      ∙ ap (and_more (walk_each f xs s) (join xss)) (fun_ext (λ t. walk_each-join xss t))
      ∙ go (walk_each f xs s)
    where
      go :
          (r : Walked (List A) S E)
          → and_more r (join xss) (λ t. within join (walk_each (walk_each f) xss t))
            ≡ within join (and_rest r xss (walk_each (walk_each f) xss))
      go (xs', s', some e) = refl
      go (xs', s', none) = refl

-- What becomes of the coordinates, the closure's state and the error in a walk that may change and
-- fail is what the same walk does to the list of the coordinates: each is passed once, in the order
-- of the WKB, and the first failure stops it.
pub walk-coords :
    {S E : Type 0} (f : Coord → S → Walked Coord S E) (g : Geom) (s : S)
    → within coords (try_for_each_coord_mut f g s) ≡ walk_each f (coords g) s
unfolding try_for_each_coord_mut coords
walk-coords f (point x y) s = go (f (x, y) s)
  where
    go : (r : _) → within coords (within (λ c. point c.0 c.1) r) ≡ and_rest r [] (walk_each f [])
    go (c, s', some e) = refl
    go (c, s', none) = refl
walk-coords f (line_string pts) s = refl
walk-coords f (polygon rings) s = sym (walk_each-join f rings s)
walk-coords f (multi_point pts) s = refl
walk-coords f (multi_line_string lines) s = sym (walk_each-join f lines s)
walk-coords f (multi_polygon polys) s =
    sym (walk_each-join f (join polys) s ∙ ap (within join) (walk_each-join (walk_each f) polys s))
