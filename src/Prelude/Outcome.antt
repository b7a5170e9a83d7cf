-- ===== src/Prelude/Outcome.antt =====
-- Rust's `Result<A, E>`, and postconditions on it.
use mathlib.Core.Path.{◌≡◌, refl, subst}
use mathlib.Core.Bool.{Bool, true, false}
use shpx.Prelude.Tests.{if◌then◌else◌}

pub data Result (E A : Type 0) : Type 0 where
  ok : A → Result E A
  err : E → Result E A

-- A postcondition: `P` of a value, `Q` of an error.
pub data Ensures {E A : Type 0} (P : A → Type 0) (Q : E → Type 0) : Result E A → Type 0 where
  holds : {a : A} → P a → Ensures P Q (ok a)
  fails : {e : E} → Q e → Ensures P Q (err e)

module _ {E A : Type 0} {P : A → Type 0} {Q : E → Type 0} where
  pub Ensures-ok : {r : Result E A} {a : A} → Ensures P Q r → r ≡ ok a → P a
  Ensures-ok (holds h) e = subst P (cc) h
  Ensures-ok (fails h) e = cc

  pub Ensures-err : {r : Result E A} {x : E} → Ensures P Q r → r ≡ err x → Q x
  Ensures-err (holds h) e = cc
  Ensures-err (fails h) e = subst Q (cc) h

infixl 5 ◌>>=◌
abbrev pub ◌>>=◌ : {E A B : Type 0} → Result E A → (A → Result E B) → Result E B
ok a >>= f = f a
err e >>= f = err e

module _ {E A B : Type 0} {P : A → Type 0} {Q : E → Type 0} {P' : B → Type 0}
    {Q' : E → Type 0} where
  pub Ensures-bind :
      {m : Result E A} {f : A → Result E B}
      → Ensures P Q m
      → ((a : A) → P a → Ensures P' Q' (f a))
      → ((e : E) → Q e → Q' e)
      → Ensures P' Q' (m >>= f)
  Ensures-bind (holds {a} h) k l = k a h
  Ensures-bind (fails {e} h) k l = fails (l e h)

module _ {E A : Type 0} {P P' : A → Type 0} {Q Q' : E → Type 0} where
  pub Ensures-map :
      {r : Result E A}
      → Ensures P Q r
      → ((a : A) → P a → P' a)
      → ((e : E) → Q e → Q' e)
      → Ensures P' Q' r
  Ensures-map (holds {a} h) k l = holds (k a h)
  Ensures-map (fails {e} h) k l = fails (l e h)

module _ {E A B : Type 0} where
  -- A bind that succeeds: so did its first part.
  pub >>=-eq-ok :
      (m : Result E A) (f : A → Result E B) {b : B}
      → (m >>= f) ≡ ok b
      → (a : A) × (m ≡ ok a) × (f a ≡ ok b)
  >>=-eq-ok (ok a) f e = (a, refl, e)
  >>=-eq-ok (err x) f e = cc

pub Ensures-if :
    {E A : Type 0} (P : A → Type 0) (Q : E → Type 0) (b : Bool) (x y : Result E A)
    → (b ≡ true → Ensures P Q x)
    → (b ≡ false → Ensures P Q y)
    → Ensures P Q (if b then x else y)
Ensures-if P Q true x y hx hy = hx refl
Ensures-if P Q false x y hx hy = hy refl
