-- ===== src/Geom/Reproject/Moved.antt =====
-- What `transform_geom_with_proj` makes of a geometry, point by point.
use shpx.Prelude.{◌≡◌, refl, ◌⊎◌, inl, inr, List, [], ◌∷◌, none, some, Result, ok, err}
use shpx.Geom.Types.{
  Coord, Geom, point, line_string, polygon, multi_point, multi_line_string, multi_polygon,
}
use shpx.Geom.Walk.{Walked, within, and_rest, walk_each, walk_pts, walk, try_for_each_coord_mut}
use shpx.Geom.Reproject.{ReprojectError, transform, converted, convert_coord}

-- The lists have the same length, and their items are related in pairs.
abbrev pub Each : {A : Type 0} → (A → A → Type 0) → List A → List A → Type 0
Each R [] [] = Unit {0}
Each R (x ∷ xs) (y ∷ ys) = R x y × Each R xs ys
Each R _ _ = ⊥

-- An item fails, and those before it are related to others.
abbrev pub First : {A : Type 0} → (A → A → Type 0) → (A → Type 0) → List A → Type 0
First R Q [] = ⊥
First {A} R Q (x ∷ xs) = Q x ⊎ (((y : A) × R x y) × First R Q xs)

-- What a walk leaves: a changed item without an error, or an error.
abbrev pub Outcome : {A S E : Type 0} → (A → Type 0) → (E → Type 0) → Walked A S E → Type 0
Outcome P Q (x, s, none) = P x
Outcome P Q (x, s, some e) = Q e

module _ {A S E : Type 0} (R : A → A → Type 0) (Q : A → E → Type 0) (f : A → S → Walked A S E)
    (each : (x : A) (s : S) → Outcome (R x) (Q x) (f x s)) where
  abbrev OfAll : List A → Walked (List A) S E → Type 0
  OfAll xs = Outcome (Each R xs) (λ e. First R (λ x. Q x e) xs)

  behind :
      (x y : A) (xs : List A) (r : Walked (List A) S E)
      → R x y
      → OfAll xs r
      → OfAll (x ∷ xs) (within (λ ys. y ∷ ys) r)
  behind x y xs (ys, s, none) h hs = (h, hs)
  behind x y xs (ys, s, some e) h hs = inr ((y, h), hs)

  rest-Outcome :
      (x : A) (xs : List A) (r : Walked A S E)
      → Outcome (R x) (Q x) r
      → ((s : S) → OfAll xs (walk_each f xs s))
      → OfAll (x ∷ xs) (and_rest r xs (walk_each f xs))
  rest-Outcome x xs (y, s, none) h ih = behind x y xs (walk_each f xs s) h (ih s)
  rest-Outcome x xs (y, s, some e) h ih = inl h

  walk_each-Outcome : (xs : List A) (s : S) → OfAll xs (walk_each f xs s)
  unfolding walk_each
  walk_each-Outcome [] s = tt
  walk_each-Outcome (x ∷ xs) s =
      rest-Outcome x xs (f x s) (each x s) (λ s'. walk_each-Outcome xs s')

module _ {D P : Type 0} (convert : P → Coord → Result D Coord) (proj : P) where
  -- proj gives the point `c'` for `c`.
  abbrev pub MovesTo : Coord → Coord → Type 0
  MovesTo c c' = convert proj c ≡ ok c'

  -- The geometries are of one kind and shape, and proj gives each point of the second for the point
  -- of the first at its place.
  abbrev pub IsMoved : Geom → Geom → Type 0
  IsMoved (point x y) (point x' y') = MovesTo (x, y) (x', y')
  IsMoved (line_string pts) (line_string pts') = Each MovesTo pts pts'
  IsMoved (polygon rings) (polygon rings') = Each (Each MovesTo) rings rings'
  IsMoved (multi_point pts) (multi_point pts') = Each MovesTo pts pts'
  IsMoved (multi_line_string lines) (multi_line_string lines') = Each (Each MovesTo) lines lines'
  IsMoved (multi_polygon polys) (multi_polygon polys') = Each (Each (Each MovesTo)) polys polys'
  IsMoved _ _ = ⊥

  -- proj refuses the point, with the error in `e`.
  abbrev pub Refuses : ReprojectError D → Coord → Type 0
  Refuses e c = (d : D) × (convert proj c ≡ err d) × (e ≡ transform d)

  -- proj refuses a point of the geometry and takes those before it.
  abbrev pub IsStopped : ReprojectError D → Geom → Type 0
  IsStopped e (point x y) = Refuses e (x, y)
  IsStopped e (line_string pts) = First MovesTo (Refuses e) pts
  IsStopped e (polygon rings) = First (Each MovesTo) (First MovesTo (Refuses e)) rings
  IsStopped e (multi_point pts) = First MovesTo (Refuses e) pts
  IsStopped e (multi_line_string lines) = First (Each MovesTo) (First MovesTo (Refuses e)) lines
  IsStopped e (multi_polygon polys) =
      First (Each (Each MovesTo)) (First (Each MovesTo) (First MovesTo (Refuses e))) polys

  converted-Outcome :
      (c : Coord) (r : Result D Coord)
      → convert proj c ≡ r
      → Outcome (MovesTo c) (λ e. Refuses e c) (converted c r)
  converted-Outcome c (ok c') h = h
  converted-Outcome c (err d) h = (d, h, refl)

  point-Outcome :
      (c : Coord) (u : Unit {0})
      → Outcome (MovesTo c) (λ e. Refuses e c) (convert_coord convert proj c u)
  unfolding convert_coord
  point-Outcome c u = converted-Outcome c (convert proj c) refl

  pts-Outcome :
      (pts : List Coord) (u : Unit {0})
      → Outcome
          (Each MovesTo pts)
          (λ e. First MovesTo (Refuses e) pts)
          (walk_pts (convert_coord convert proj) pts u)
  unfolding walk_pts
  pts-Outcome pts u =
      walk_each-Outcome MovesTo (λ c e. Refuses e c) (convert_coord convert proj) point-Outcome pts
        u

  rings-Outcome :
      (rings : List (List Coord)) (u : Unit {0})
      → Outcome
          (Each (Each MovesTo) rings)
          (λ e. First (Each MovesTo) (First MovesTo (Refuses e)) rings)
          (walk_each (walk_pts (convert_coord convert proj)) rings u)
  rings-Outcome rings u =
      walk_each-Outcome (Each MovesTo) (λ pts e. First MovesTo (Refuses e) pts)
        (walk_pts (convert_coord convert proj)) pts-Outcome rings u

  abbrev step : Coord → Unit {0} → Walked Coord (Unit {0}) (ReprojectError D)
  step = convert_coord convert proj

  within-Outcome :
      {A : Type 0} (g : Geom) (make : A → Geom) (R : A → Type 0)
      (r : Walked A (Unit {0}) (ReprojectError D))
      → ((x : A) → R x → IsMoved g (make x))
      → Outcome R (λ e. IsStopped e g) r
      → Outcome (IsMoved g) (λ e. IsStopped e g) (within make r)
  within-Outcome g make R (x, s, none) k h = k x h
  within-Outcome g make R (x, s, some e) k h = h

  -- The walk moves all points, or it stops at the first that proj refuses.
  pub walk-Outcome :
      (g : Geom) (u : Unit {0})
      → Outcome (IsMoved g) (λ e. IsStopped e g) (try_for_each_coord_mut step g u)
  unfolding try_for_each_coord_mut walk
  walk-Outcome (point x y) u =
      within-Outcome (point x y) (λ (c : Coord). point (c.0) (c.1)) (MovesTo (x, y)) (step (x, y) u)
        (λ c h. h) (point-Outcome (x, y) u)
  walk-Outcome (line_string pts) u =
      within-Outcome (line_string pts) line_string (Each MovesTo pts) (walk_pts step pts u)
        (λ c h. h) (pts-Outcome pts u)
  walk-Outcome (polygon rings) u =
      within-Outcome (polygon rings) polygon (Each (Each MovesTo) rings)
        (walk_each (walk_pts step) rings u) (λ c h. h) (rings-Outcome rings u)
  walk-Outcome (multi_point pts) u =
      within-Outcome (multi_point pts) multi_point (Each MovesTo pts) (walk_pts step pts u)
        (λ c h. h) (pts-Outcome pts u)
  walk-Outcome (multi_line_string lines) u =
      within-Outcome (multi_line_string lines) multi_line_string (Each (Each MovesTo) lines)
        (walk_each (walk_pts step) lines u) (λ c h. h) (rings-Outcome lines u)
  walk-Outcome (multi_polygon polys) u =
      within-Outcome (multi_polygon polys) multi_polygon (Each (Each (Each MovesTo)) polys)
        (walk_each (walk_each (walk_pts step)) polys u) (λ c h. h)
        (walk_each-Outcome (Each (Each MovesTo))
          (λ rings e. First (Each MovesTo) (First MovesTo (Refuses e)) rings)
          (walk_each (walk_pts step)) rings-Outcome polys u)
