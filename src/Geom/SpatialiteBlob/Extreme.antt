-- ===== src/Geom/SpatialiteBlob/Extreme.antt =====
-- The least key of a list under an order such as `<` or `>` on f64, as a fold with a start finds it.
use shpx.Prelude.{
  ℕ, ◌≡◌, refl, sym, ◌∙◌, arith, List, [], ◌∷◌, Bool, true, false, not, ltb, ◌&&◌, if◌then◌else◌,
  Bool-cases, All, ◌⊎◌, inl, inr,
}
use shpx.Geom.Types.{F64}
use shpx.Geom.Float.{f64_lt, is_nan, rank}

abbrev pub Any : {A : Type 0} → (A → Type 0) → List A → Type 0
Any P [] = ⊥
Any P (x ∷ xs) = P x ⊎ Any P xs

abbrev pub Irreflexive : (F64 → F64 → Bool) → Type 0
Irreflexive lt = (x : F64) → lt x x ≡ false

abbrev pub Transitive : (F64 → F64 → Bool) → Type 0
Transitive lt = (x y z : F64) → lt x y ≡ true → lt y z ≡ true → lt x z ≡ true

guarded-false : (a : Bool) (m : ℕ) → (a && a && ltb m m) ≡ false
guarded-false a m = ground arith

guarded-true :
    (a b c : Bool) (m n k : ℕ)
    → (a && b && ltb m n) ≡ true
    → (b && c && ltb n k) ≡ true
    → (a && c && ltb m k) ≡ true
guarded-true a b c m n k h h' = ground arith

pub f64_lt-Irreflexive : Irreflexive f64_lt
unfolding f64_lt
f64_lt-Irreflexive x = guarded-false (not (is_nan x)) (rank x)

pub f64_lt-Transitive : Transitive f64_lt
unfolding f64_lt
f64_lt-Transitive x y z =
    guarded-true (not (is_nan x)) (not (is_nan y)) (not (is_nan z)) (rank x) (rank y) (rank z)

-- `>`
abbrev pub f64_gt : F64 → F64 → Bool
f64_gt x y = f64_lt y x

pub f64_gt-Transitive : Transitive f64_gt
f64_gt-Transitive x y z h h' = f64_lt-Transitive z y x h' h

-- The least of the keys under `lt`, and of a start.
module _ {A : Type 0} (lt : F64 → F64 → Bool) (key : A → F64) where
  unfoldable pub pick : F64 → F64 → F64
  pick k m = if lt k m then k else m

  pick-cases : (k m : F64) → (pick k m ≡ k) ⊎ (pick k m ≡ m)
  unfolding pick
  pick-cases k m = elim (Bool-cases (lt k m)) [ inl t ↦ inl (rw t refl) | inr f ↦ inr (rw f refl) ]

  unfoldable pub best : List A → F64 → F64
  unfolding pick
  best [] m = m
  best (x ∷ xs) m = best xs (pick (key x) m)

  pub best-Any : (xs : List A) (m : F64) → (best xs m ≡ m) ⊎ Any (λ x. key x ≡ best xs m) xs
  unfolding best
  best-Any [] m = inl refl
  best-Any (x ∷ xs) m = elim (best-Any xs (pick (key x) m)) [
    | inr a ↦ inr (inr a)
    | inl e ↦ elim (pick-cases (key x) m) [ inl p ↦ inr (inl (sym (e ∙ p))) | inr p ↦ inl (e ∙ p) ]
  ]

  module _ (irrefl : Irreflexive lt) (trans : Transitive lt) where
    best-below : (xs : List A) (m : F64) → (best xs m ≡ m) ⊎ (lt (best xs m) m ≡ true)
    unfolding best
    best-below [] m = inl refl
    best-below (x ∷ xs) m = elim (Bool-cases (lt (key x) m)) [
      | inl t ↦ rw t (elim (best-below xs (key x)) [
        | inl e ↦ inr (rw (e, t) refl)
        | inr l ↦ inr (trans _ _ _ l t)
      ])
      | inr f ↦ rw f (best-below xs m)
    ]

    not_below : (k b m : F64) → (b ≡ m) ⊎ (lt b m ≡ true) → lt k m ≡ false → lt k b ≡ false
    not_below k b m (inl e) h = rw e h
    not_below k b m (inr l) h = elim (Bool-cases (lt k b)) [
      | inl t ↦ let kept = trans k b m t l in cc
      | inr f ↦ f
    ]

    picked : (k m : F64) → lt k (pick k m) ≡ false
    unfolding pick
    picked k m = elim (Bool-cases (lt k m)) [ inl t ↦ rw t (irrefl k) | inr f ↦ rw (f, f) refl ]

    pub best-All : (xs : List A) (m : F64) → All (λ x. lt (key x) (best xs m) ≡ false) xs
    unfolding best
    best-All [] m = tt
    best-All (x ∷ xs) m =
        (not_below (key x) _ _ (best-below xs _) (picked (key x) m), best-All xs _)
