-- ===== src/Geom/Wkt/Ends.antt =====
-- Readers that fail with an error of the program or move the cursor forward.
use shpx.Prelude.{
  Text, ℕ, ◌≤◌, ◌≡◌, ◌≢◌, refl, ◌∙◌, arith, Option, none, some, Result, ok, err, Bool, true, false,
  ◌==◌, if◌then◌else◌, Ensures, holds, fails, Ensures-map, Ensures-ok, Ensures-err,
}
use shpx.Geom.Types.{F64, Fault, out_of_fuel}
use shpx.Geom.Cursor.{Cursor, Reader, pure, fail, and_then, ◌>>=◌}
use shpx.Geom.Wkt.Tokens.{
  advance, peek, skip_while, skip_one, holds_of, is_sign, is_number_byte, is_exponent, skip_ws,
  expect, expect_next, read_ident, ident_between, is_keyword, keyword_at, consume_keyword,
  empty_keyword, refuse_if, reject_empty, exponent_end, number_end, number_between, parsed,
  read_number, read_xy,
}

-- The cursor `c'` is not before `c`, in the same text.
abbrev pub Follows : Cursor → Cursor → Type 0
Follows c c' = (c.pos ≤ c'.pos) × (c'.bytes ≡ c.bytes)

pub Follows-trans : (a b c : Cursor) → Follows a b → Follows b c → Follows a c
Follows-trans a b c (h, e) (k, e') = (omega arith, e' ∙ e)

abbrev pub Moved : {A : Type 0} → (A → Type 0) → Cursor → A × Cursor → Type 0
Moved R c (a, c') = R a × Follows c c'

abbrev pub IsError : Fault → Type 0
IsError e = e ≢ out_of_fuel

-- From any cursor `p` fails with an error of the program or gives a result with `R`.
abbrev pub Ends : {A : Type 0} → Reader A → (A → Type 0) → Type 0
Ends p R = (c : Cursor) → Ensures (Moved R c) IsError (p c)

-- The same of a call at a cursor behind `c`.
pub Moved-from :
    {A : Type 0} (R : A → Type 0) (c c' : Cursor) (r : Result Fault (A × Cursor))
    → Follows c c'
    → Ensures (Moved R c') IsError r
    → Ensures (Moved R c) IsError r
Moved-from R c c' r f h =
    Ensures-map h (λ (a, d) (k, f'). (k, Follows-trans c c' d f f')) (λ e k. k)

module _ {A B : Type 0} (R : A → Type 0) (S : B → Type 0) where
  pub bind-from :
      (c : Cursor) (r : Result Fault (A × Cursor)) (f : A → Reader B)
      → Ensures (Moved R c) IsError r
      → ((a : A) → R a → Ends (f a) S)
      → Ensures (Moved S c) IsError (and_then r f)
  bind-from c (ok (a, c')) f h k =
      let (r, fo) = Ensures-ok h refl in Moved-from S c c' _ fo (k a r c')
  bind-from c (err e) f h k = fails (Ensures-err h refl)

  pub Ends-bind :
      (p : Reader A) (f : A → Reader B)
      → Ends p R
      → ((a : A) → R a → Ends (f a) S)
      → Ends (p >>= f) S
  Ends-bind p f h k c = bind-from c (p c) f (h c) k

pub Ends-pure : {A : Type 0} (R : A → Type 0) (a : A) → R a → Ends (pure a) R
Ends-pure R a r c = holds (r, (omega arith, refl))

pub Ends-map :
    {A B : Type 0} (R : A → Type 0) (S : B → Type 0) (p : Reader A) (f : A → B)
    → Ends p R
    → ((a : A) → R a → S (f a))
    → Ends (p >>= λ a. pure (f a)) S
Ends-map R S p f h k = Ends-bind R S p _ h (λ a r. Ends-pure S (f a) (k a r))

abbrev pub Nothing : Unit {0} → Type 0
Nothing u = Unit {0}

pub Follows-skip_while : (p : ℕ → Bool) (c : Cursor) → Follows c (skip_while p c)
unfolding skip_while
Follows-skip_while p c = (omega arith, refl)

pub Follows-skip_ws : (c : Cursor) → Follows c (skip_ws c)
unfolding skip_ws
Follows-skip_ws c = Follows-skip_while _ c

pub Follows-if : (b : Bool) (c d : Cursor) → Follows c d → Follows c (if b then d else c)
Follows-if true c d h = h
Follows-if false c d h = (omega arith, refl)

pub Follows-advance : (c : Cursor) (n : ℕ) → Follows c (advance c n)
Follows-advance c n = (omega arith, refl)

pub Follows-skip_one : (p : ℕ → Bool) (c : Cursor) → Follows c (skip_one p c)
unfolding skip_one
Follows-skip_one p c = Follows-if _ c (advance c 1) (Follows-advance c 1)

pub Follows-number_end : (c : Cursor) → Follows c (number_end c)
unfolding number_end exponent_end
Follows-number_end c = Follows-trans c (skip_one is_sign c) _ (Follows-skip_one is_sign c) (
    Follows-trans (skip_one is_sign c) digits _
      (Follows-skip_while is_number_byte (skip_one is_sign c))
      (Follows-if (holds_of is_exponent (peek digits)) digits _ (
        Follows-trans digits (advance digits 1) _ (Follows-advance digits 1) (
          Follows-trans (advance digits 1) (skip_one is_sign (advance digits 1)) _
            (Follows-skip_one is_sign (advance digits 1))
            (Follows-skip_while _ (skip_one is_sign (advance digits 1)))))))
  where
    digits : Cursor
    digits = skip_while is_number_byte (skip_one is_sign c)

pub Ends-fail : {A : Type 0} (R : A → Type 0) (e : Fault) → IsError e → Ends (fail e) R
Ends-fail R e h c = fails h

-- Where the end of a result in the text is known.
pub Moved-ok :
    {A : Type 0} (R : A → Type 0) (c d : Cursor) (a : A)
    → R a
    → Follows c d
    → Ensures (Moved R c) IsError (ok (a, d))
Moved-ok R c d a r f = holds (r, f)

pub Moved-if :
    {A : Type 0} (R : A → Type 0) (c : Cursor) (b : Bool) (x y : Result Fault (A × Cursor))
    → Ensures (Moved R c) IsError x
    → Ensures (Moved R c) IsError y
    → Ensures (Moved R c) IsError (if b then x else y)
Moved-if R c true x y hx hy = hx
Moved-if R c false x y hx hy = hy

pub Ends-if :
    {A : Type 0} (R : A → Type 0) (b : Bool) (p q : Reader A)
    → Ends p R
    → Ends q R
    → Ends (if b then p else q) R
Ends-if R true p q hp hq = hp
Ends-if R false p q hp hq = hq

expect_next-Moved :
    (k : ℕ) (c : Cursor) (o : Option ℕ) → Ensures (Moved Nothing c) IsError (expect_next k c o)
unfolding expect_next
expect_next-Moved k c none = fails (λ e. cc)
expect_next-Moved k c (some b) =
    Moved-if Nothing c (b == k) _ _ (holds (tt, Follows-advance c 1)) (fails (λ e. cc))

pub Ends-expect : (k : ℕ) → Ends (expect k) Nothing
unfolding expect
Ends-expect k c =
    Moved-from Nothing c (skip_ws c) _ (Follows-skip_ws c)
      (expect_next-Moved k (skip_ws c) (peek (skip_ws c)))

pub Ends-read_ident : Ends read_ident (λ kw. Unit {0})
unfolding read_ident ident_between
Ends-read_ident c =
    Moved-from (λ kw. Unit {0}) c (skip_ws c) _ (Follows-skip_ws c)
      (Moved-if (λ kw. Unit {0}) (skip_ws c) _ _ _ (fails (λ e. cc))
        (holds (tt, Follows-skip_while _ (skip_ws c))))

refuse_if-Moved :
    (c : Cursor) (r : Bool × Cursor)
    → Follows c (r.1)
    → Ensures (Moved Nothing c) IsError (refuse_if r)
unfolding refuse_if
refuse_if-Moved c (true, d) f = fails (λ e. cc)
refuse_if-Moved c (false, d) f = holds (tt, f)

keyword_moved :
    (b : Bool) (d : Cursor)
    → Follows d (let r : Bool × Cursor = if b then (true, advance d 5) else (false, d) in r.1)
keyword_moved true d = Follows-advance d 5
keyword_moved false d = (omega arith, refl)

pub Ends-reject_empty : Ends reject_empty Nothing
unfolding reject_empty consume_keyword keyword_at
Ends-reject_empty c = refuse_if-Moved c (keyword_at empty_keyword (skip_ws c)) (
    Follows-trans c (skip_ws c) _ (Follows-skip_ws c)
      (keyword_moved (is_keyword empty_keyword (skip_ws c)) (skip_ws c)))

module _ (parse : Text → Option F64) (P : F64 → Type 0)
    (sound : (t : Text) (v : F64) → parse t ≡ some v → P v) where
  parsed-Moved :
      (raw : Text) (c d : Cursor) (o : Option F64)
      → parse raw ≡ o
      → Follows c d
      → Ensures (Moved P c) IsError (parsed parse raw c.pos d o)
  unfolding parsed
  parsed-Moved raw c d none e f = fails (λ e. cc)
  parsed-Moved raw c d (some v) e f = holds (sound raw v e, f)

  Ends-read_number : Ends (read_number parse) P
  unfolding read_number number_between
  Ends-read_number c = Moved-from P c (skip_ws c) _ (Follows-skip_ws c) (
      Moved-if P (skip_ws c) _ _ _ (fails (λ e. cc)) (
        parsed-Moved _ (skip_ws c) (number_end (skip_ws c)) _ refl
          (Follows-number_end (skip_ws c))))

  pub Ends-read_xy : Ends (read_xy parse) (λ xy. P (xy.0) × P (xy.1))
  unfolding read_xy
  Ends-read_xy =
      Ends-bind P (λ xy. P (xy.0) × P (xy.1)) (read_number parse) _ Ends-read_number
        (λ x hx.
          Ends-map P (λ xy. P (xy.0) × P (xy.1)) (read_number parse) (λ y. (x, y)) Ends-read_number
            (λ y hy. (hx, hy)))
