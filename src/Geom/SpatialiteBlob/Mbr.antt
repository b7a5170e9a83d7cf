-- ===== src/Geom/SpatialiteBlob/Mbr.antt =====
-- What `compute_mbr` computes.
use shpx.Prelude.{
  ◌≡◌, refl, sym, ◌∙◌, ap, subst, arith, List, [], ◌∷◌, Bool, true, false, not, ◌||◌, if◌then◌else◌,
  Bool-cases, All, ◌⊎◌, inl, inr, ok, err, Ensures, Ensures-map, holds, fails,
}
use shpx.Geom.Types.{F64, Coord, Geom, empty_geometry}
use shpx.Geom.Float.{infinity, neg_infinity, is_finite, f64_lt}
use shpx.Geom.Walk.{visit_each}
use shpx.Geom.Walk.Flat.{coords, for_each_coord-coords}
use shpx.Geom.SpatialiteBlob.Encode.{Mbr, grow, check_mbr, compute_mbr}
use shpx.Geom.SpatialiteBlob.Extreme.{
  Any, Irreflexive, Transitive, f64_lt-Irreflexive, f64_lt-Transitive, f64_gt-Transitive, f64_gt,
  pick, best, best-Any, best-All,
}

-- The four folds of `grow`.
grow-best :
    (cs : List Coord) (m : Mbr)
    → visit_each grow cs m ≡ (
      best f64_lt (λ c. c.0) cs (m.0),
      best f64_lt (λ c. c.1) cs (m.1),
      best f64_gt (λ c. c.0) cs (m.2),
      best f64_gt (λ c. c.1) cs (m.3),
    )
unfolding visit_each grow best pick
grow-best [] m = refl
grow-best ((x, y) ∷ cs) (a, b, c, d) = grow-best cs (grow (x, y) (a, b, c, d))

-- A side of the box: finite, a coordinate of the geometry, and none is beyond it.
abbrev pub Side : (F64 → F64 → Bool) → (Coord → F64) → List Coord → F64 → Type 0
Side lt key cs m =
    (is_finite m ≡ true) × Any (λ c. key c ≡ m) cs × All (λ c. lt (key c) m ≡ false) cs

abbrev pub IsMbr : Geom → Mbr → Type 0
IsMbr g (min_x, min_y, max_x, max_y) =
    Side f64_lt (λ c. c.0) (coords g) min_x
    × Side f64_lt (λ c. c.1) (coords g) min_y
    × Side f64_gt (λ c. c.0) (coords g) max_x
    × Side f64_gt (λ c. c.1) (coords g) max_y

abbrev NotFinite : (Coord → F64) → List Coord → Type 0
NotFinite key cs = Any (λ c. is_finite (key c) ≡ false) cs

-- One side, from a start that every finite number is before.
module _ (lt : F64 → F64 → Bool) (irrefl : Irreflexive lt) (trans : Transitive lt)
    (key : Coord → F64) (start : F64) (unbounded : is_finite start ≡ false)
    (before : (x : F64) → is_finite x ≡ true → lt x start ≡ true) where
  best-Side :
      (cs : List Coord)
      → is_finite (best lt key cs start) ≡ true
      → Side lt key cs (best lt key cs start)
  best-Side cs fin = (
    fin,
    elim (best-Any lt key cs start) [ inl e ↦ let f = ap is_finite e in cc | inr a ↦ a ],
    best-All lt key irrefl trans cs start,
  )

  Any-transport :
      (m : F64) (cs : List Coord) → is_finite m ≡ false → Any (λ c. key c ≡ m) cs → NotFinite key cs
  Any-transport m [] f a = absurd a
  Any-transport m (c ∷ cs) f (inl e) = inl (ap is_finite e ∙ f)
  Any-transport m (c ∷ cs) f (inr a) = inr (Any-transport m cs f a)

  stuck_start :
      (cs : List Coord) (m : F64)
      → m ≡ start
      → All (λ c. lt (key c) m ≡ false) cs
      → (cs ≡ []) ⊎ NotFinite key cs
  stuck_start [] m e h = inl refl
  stuck_start (c ∷ cs) m e h = inr (
      inl (elim (Bool-cases (is_finite (key c))) [
        | inl t ↦ let b = before (key c) t in let k = h.0 in cc
        | inr f ↦ f
      ]))

  best-NotFinite :
      (cs : List Coord) → is_finite (best lt key cs start) ≡ false → (cs ≡ []) ⊎ NotFinite key cs
  best-NotFinite cs f = elim (best-Any lt key cs start) [
    | inl e ↦ stuck_start cs _ e (best-All lt key irrefl trans cs start)
    | inr a ↦ inr (Any-transport _ cs f a)
  ]

before_infinity : (x : F64) → is_finite x ≡ true → f64_lt x infinity ≡ true
unfolding is_finite f64_lt
before_infinity x h = ground arith

after_neg_infinity : (x : F64) → is_finite x ≡ true → f64_gt x neg_infinity ≡ true
unfolding is_finite f64_lt
after_neg_infinity x h = ground arith

-- Why a geometry has no bounding box: it has no coordinate, or one that is not finite.
abbrev pub IsBoxless : Geom → Type 0
IsBoxless g = (coords g ≡ []) ⊎ (NotFinite (λ c. c.0) (coords g) ⊎ NotFinite (λ c. c.1) (coords g))

four_checks :
    {P Q : Type 0} (m : Mbr) (a b c d : Bool)
    → (a ≡ true → b ≡ true → c ≡ true → d ≡ true → P)
    → (a ≡ false → Q)
    → (b ≡ false → Q)
    → (c ≡ false → Q)
    → (d ≡ false → Q)
    → Ensures {A = Mbr}
        (λ m'. (m' ≡ m) × P)
        (λ e. (e ≡ empty_geometry) × Q)
        (if not a || (not b || (not c || not d)) then err empty_geometry else ok m)
four_checks m true true true true p qa qb qc qd = holds (refl, p refl refl refl refl)
four_checks m false b c d p qa qb qc qd = fails (refl, qa refl)
four_checks m true false c d p qa qb qc qd = fails (refl, qb refl)
four_checks m true true false d p qa qb qc qd = fails (refl, qc refl)
four_checks m true true true false p qa qb qc qd = fails (refl, qd refl)

no_x_box : (g : Geom) → (coords g ≡ []) ⊎ NotFinite (λ c. c.0) (coords g) → IsBoxless g
no_x_box g (inl e) = inl e
no_x_box g (inr a) = inr (inl a)

no_y_box : (g : Geom) → (coords g ≡ []) ⊎ NotFinite (λ c. c.1) (coords g) → IsBoxless g
no_y_box g (inl e) = inl e
no_y_box g (inr a) = inr (inr a)

folded-Ensures :
    (g : Geom)
    → Ensures
        (IsMbr g)
        (λ e. (e ≡ empty_geometry) × IsBoxless g)
        (check_mbr (
          best f64_lt (λ c. c.0) (coords g) infinity,
          best f64_lt (λ c. c.1) (coords g) infinity,
          best f64_gt (λ c. c.0) (coords g) neg_infinity,
          best f64_gt (λ c. c.1) (coords g) neg_infinity,
        ))
unfolding check_mbr
folded-Ensures g =
    Ensures-map
      (four_checks _ (is_finite _) (is_finite _) (is_finite _) (is_finite _)
        (λ a b c d. (min_x.0 a, min_y.0 b, max_x.0 c, max_y.0 d)) (λ f. no_x_box g (min_x.1 f))
        (λ f. no_y_box g (min_y.1 f)) (λ f. no_x_box g (max_x.1 f)) (λ f. no_y_box g (max_y.1 f)))
      (λ m (e, h). subst (IsMbr g) (sym e) h) (λ e q. q)
  where
    cs : List Coord
    cs = coords g

    Sides : (F64 → F64 → Bool) → (Coord → F64) → F64 → Type 0
    Sides lt key start =
        (is_finite (best lt key cs start) ≡ true → Side lt key cs (best lt key cs start))
        × (is_finite (best lt key cs start) ≡ false → (cs ≡ []) ⊎ NotFinite key cs)

    low : (key : Coord → F64) → Sides f64_lt key infinity
    low key = (
      best-Side f64_lt f64_lt-Irreflexive f64_lt-Transitive key infinity refl before_infinity cs,
      best-NotFinite f64_lt f64_lt-Irreflexive f64_lt-Transitive key infinity refl before_infinity
          cs,
    )

    high : (key : Coord → F64) → Sides f64_gt key neg_infinity
    high key = (
      best-Side f64_gt f64_lt-Irreflexive f64_gt-Transitive key neg_infinity refl after_neg_infinity
          cs,
      best-NotFinite f64_gt f64_lt-Irreflexive f64_gt-Transitive key neg_infinity refl
          after_neg_infinity cs,
    )

    min_x : Sides f64_lt (λ c. c.0) infinity
    min_x = low (λ c. c.0)

    min_y : Sides f64_lt (λ c. c.1) infinity
    min_y = low (λ c. c.1)

    max_x : Sides f64_gt (λ c. c.0) neg_infinity
    max_x = high (λ c. c.0)

    max_y : Sides f64_gt (λ c. c.1) neg_infinity
    max_y = high (λ c. c.1)

-- `compute_mbr` returns four finite numbers that are each a coordinate of the geometry and that no
-- coordinate is beyond, or fails with the error of an empty geometry, and then the geometry has no
-- coordinate or one that is not finite.
pub compute_mbr-Ensures :
    (g : Geom) → Ensures (IsMbr g) (λ e. (e ≡ empty_geometry) × IsBoxless g) (compute_mbr g)
unfolding compute_mbr
compute_mbr-Ensures g =
    subst (λ m. Ensures (IsMbr g) (λ e. (e ≡ empty_geometry) × IsBoxless g) (check_mbr m))
      (sym (for_each_coord-coords grow g _ ∙ grow-best (coords g) _)) (folded-Ensures g)
