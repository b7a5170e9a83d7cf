-- ===== src/Geom/Reproject/Kept.antt =====
-- What a reprojection makes of the WKB of a geometry.
use shpx.Prelude.{
  ℕ, ◌^◌, ◌<◌, ◌≡◌, ◌≢◌, ◌⊎◌, inl, inr, refl, sym, subst, arith, List, [], ◌∷◌, none, some, Result,
  ok, err, Ensures, holds, fails, length, All,
}
use shpx.Prelude.Outcome.{◌>>=◌}
use shpx.Geom.Types.{
  Coord, Geom, Fault, out_of_fuel, IsCoord, IsCounted, IsGeom, point, line_string, polygon,
  multi_point, multi_line_string, multi_polygon,
}
use shpx.Geom.Bytes.{IsByte}
use shpx.Geom.Walk.{Walked, and_rest, walk_each, walk_pts, walk, try_for_each_coord_mut}
use shpx.Geom.Walk.Shape.{length-walk_each, estimate_size-walk}
use shpx.Geom.Wkb.Encode.{encode, estimate_size}
use shpx.Geom.Wkb.Decode.{decode}
use shpx.Geom.Wkb.Accepts.{decode-Ensures}
use shpx.Geom.Wkb.Canonical.{decode-encode}
use shpx.Geom.Reproject.Moved.{Outcome, IsMoved, IsStopped, walk-Outcome}
use shpx.Geom.Reproject.{
  ReprojectError, geometry, of_fault, converted, convert_coord, walk_result,
  transform_geom_with_proj, transform_value,
}

module _ {S E : Type 0} where
  -- A walk that keeps a property of the items keeps it of the list.
  Keeps : {A : Type 0} → (A → Type 0) → (A → S → Walked A S E) → Type 0
  Keeps P f = (x : _) (s : S) → P x → P ((f x s).0)

  and_rest-All :
      {A : Type 0} (P : A → Type 0) (r : Walked A S E) (xs : List A)
      (rest : S → Walked (List A) S E)
      → P (r.0)
      → All P xs
      → ((s : S) → All P ((rest s).0))
      → All P ((and_rest r xs rest).0)
  and_rest-All P (x, s, some e) xs rest h hs k = (h, hs)
  and_rest-All P (x, s, none) xs rest h hs k = (h, k s)

  walk_each-All :
      {A : Type 0} (P : A → Type 0) (f : A → S → Walked A S E)
      → ((x : A) (s : S) → P x → P ((f x s).0))
      → (xs : List A) (s : S) → All P xs
      → All P ((walk_each f xs s).0)
  unfolding walk_each
  walk_each-All P f keeps [] s h = tt
  walk_each-All P f keeps (x ∷ xs) s (hx, hs) =
      and_rest-All P (f x s) xs (walk_each f xs) (keeps x s hx) hs
        (λ s'. walk_each-All P f keeps xs s' hs)

  walk_each-IsCounted :
      {A : Type 0} (P : A → Type 0) (f : A → S → Walked A S E)
      → ((x : A) (s : S) → P x → P ((f x s).0))
      → (xs : List A) (s : S) → IsCounted P xs
      → IsCounted P ((walk_each f xs s).0)
  walk_each-IsCounted P f keeps xs s (few, h) =
      (omega (arith, length-walk_each f xs s), walk_each-All P f keeps xs s h)

  -- A walk whose closure leaves coordinates of f64 patterns leaves a geometry that WKB can represent.
  walk-IsGeom :
      (f : Coord → S → Walked Coord S E)
      → ((c : Coord) (s : S) → IsCoord c → IsCoord ((f c s).0))
      → (g : Geom) (s : S) → IsGeom g
      → IsGeom ((try_for_each_coord_mut f g s).0)
  unfolding try_for_each_coord_mut walk walk_pts
  walk-IsGeom f keeps (point x y) s h = keeps (x, y) s h
  walk-IsGeom f keeps (line_string pts) s h = walk_each-IsCounted _ f keeps pts s h
  walk-IsGeom f keeps (polygon rings) s h =
      walk_each-IsCounted _ (walk_pts f) (walk_each-IsCounted _ f keeps) rings s h
  walk-IsGeom f keeps (multi_point pts) s h = walk_each-IsCounted _ f keeps pts s h
  walk-IsGeom f keeps (multi_line_string lines) s h =
      walk_each-IsCounted _ (walk_pts f) (walk_each-IsCounted _ f keeps) lines s h
  walk-IsGeom f keeps (multi_polygon polys) s h =
      walk_each-IsCounted _ (walk_each (walk_pts f))
        (walk_each-IsCounted _ (walk_pts f) (walk_each-IsCounted _ f keeps)) polys s h

module _ {D P : Type 0} (convert : P → Coord → Result D Coord) (proj : P) where
  -- What a value becomes.
  abbrev pub IsReprojected : List ℕ → List ℕ → Type 0
  IsReprojected bytes out =
      (g : Geom) × (g' : Geom) × (decode bytes ≡ ok g)
      × IsMoved convert proj g g'
      × (decode out ≡ ok g')
      × (length out ≡ length bytes)

  abbrev pub IsRefused : List ℕ → ReprojectError D → Type 0
  IsRefused bytes e =
      ((f : Fault) × (decode bytes ≡ err f) × (e ≡ geometry f))
      ⊎ ((g : Geom) × (decode bytes ≡ ok g) × IsStopped convert proj e g)

module _ {D P : Type 0} (convert : P → Coord → Result D Coord)
    (patterns : (proj : P) (c c' : Coord) → convert proj c ≡ ok c' → IsCoord c') (proj : P) where
  abbrev Walk : Geom → Walked Geom (Unit {0}) (ReprojectError D)
  Walk g = try_for_each_coord_mut (convert_coord convert proj) g tt

  converted-IsCoord :
      (c : Coord) (r : Result D Coord)
      → ((c' : Coord) → r ≡ ok c' → IsCoord c')
      → IsCoord c
      → IsCoord ((converted c r).0)
  converted-IsCoord c (ok c') k h = k c' refl
  converted-IsCoord c (err e) k h = h

  convert_coord-IsCoord :
      (c : Coord) (u : Unit {0}) → IsCoord c → IsCoord ((convert_coord convert proj c u).0)
  unfolding convert_coord
  convert_coord-IsCoord c u h = converted-IsCoord c (convert proj c) (patterns proj c) h

  sent :
      (bytes : List ℕ) (g g' : Geom) (out : List ℕ)
      → decode bytes ≡ ok g
      → IsMoved convert proj g g'
      → estimate_size g' ≡ length bytes
      → encode g' ≡ ok out
      → length out ≡ estimate_size g'
      → decode out ≡ ok g'
      → Ensures
          (IsReprojected convert proj bytes)
          (IsRefused convert proj bytes)
          (of_fault (encode g'))
  sent bytes g g' out d t size e len back =
      subst
        (λ r.
          Ensures (IsReprojected convert proj bytes) (IsRefused convert proj bytes) (of_fault r))
        (sym e) (holds (g, g', d, t, back, omega arith))

  encoded :
      (bytes : List ℕ) (g g' : Geom)
      → decode bytes ≡ ok g
      → IsMoved convert proj g g'
      → IsGeom g'
      → estimate_size g' ≡ length bytes
      → length bytes < 2 ^ 64
      → Ensures
          (IsReprojected convert proj bytes)
          (IsRefused convert proj bytes)
          (of_fault (encode g'))
  encoded bytes g g' d t h size small =
      let (out, e, len, back) = decode-encode g' h (omega arith) in
      sent bytes g g' out d t size e len back

  after_walk :
      (bytes : List ℕ) (g : Geom) (r : Walked Geom (Unit {0}) (ReprojectError D))
      → decode bytes ≡ ok g
      → Outcome (IsMoved convert proj g) (λ e. IsStopped convert proj e g) r
      → IsGeom (r.0)
      → estimate_size (r.0) ≡ length bytes
      → length bytes < 2 ^ 64
      → Ensures
          (IsReprojected convert proj bytes)
          (IsRefused convert proj bytes)
          (walk_result r >>= (λ g'. of_fault (encode g')))
  after_walk bytes g (g', u, none) d t h size small = encoded bytes g g' d t h size small
  after_walk bytes g (g', u, some e) d t h size small = fails (inr (g, d, t))

  after_decode :
      (bytes : List ℕ) (r : Result Fault Geom)
      → decode bytes ≡ r
      → Ensures (λ g. IsGeom g × (estimate_size g ≡ length bytes)) (λ e. e ≢ out_of_fuel) r
      → length bytes < 2 ^ 64
      → Ensures (IsReprojected convert proj bytes) (IsRefused convert proj bytes) (
          of_fault r
          >>= (λ g. transform_geom_with_proj convert proj g >>= (λ g'. of_fault (encode g'))))
  unfolding transform_geom_with_proj
  after_decode bytes (ok g) d (holds (h, size)) small =
      after_walk bytes g (Walk g) d (walk-Outcome convert proj g tt)
        (walk-IsGeom (convert_coord convert proj) convert_coord-IsCoord g tt h)
        (omega (arith, estimate_size-walk (convert_coord convert proj) g tt)) small
  after_decode bytes (err f) d (fails _) small = fails (inl (f, d, refl))

  -- Where proj gives pairs of f64 patterns, a value of bytes shorter than 2^64 is either refused,
  -- because it is no WKB or because proj refuses a point of its geometry, with proj's error, or it
  -- becomes WKB of the same length, which decodes to a geometry of the same shape that has, in the
  -- place of each point of the value's geometry, the point that proj gives for it.
  pub transform_value-Ensures :
      (bytes : List ℕ)
      → All IsByte bytes
      → length bytes < 2 ^ 64
      → Ensures
          (IsReprojected convert proj bytes)
          (IsRefused convert proj bytes)
          (transform_value convert proj bytes)
  unfolding transform_value
  transform_value-Ensures bytes all small =
      after_decode bytes (decode bytes) refl (decode-Ensures bytes all) small
