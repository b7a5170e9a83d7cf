-- ===== src/Geom/Wkt/Parses.antt =====
-- Complete reads of a text: what a reader makes of input that begins with a given text.
use shpx.Prelude.{
  Text, ℕ, ◌+◌, ◌≡◌, refl, sym, ap, ◌∙◌, arith, [], ◌∷◌, ◌++◌, append_assoc, ok, Bool, true, false,
  some, length, take, drop, length-append, drop-append, drop-drop, All, if◌then◌else◌, ltb, not,
  eq_text, to_ascii_lowercase, is_ascii_alphabetic, ==_iff,
}
use shpx.Geom.Types.{Place}
use shpx.Geom.Cursor.{Cursor, Reader, pure, and_then, ◌>>=◌}
use shpx.Geom.Wkt.Tokens.{
  rest_of, advance, head, peek, run, skip_while, holds_of, is_space, skip_ws, expect, separator,
  reject_empty, consume_keyword, is_keyword, empty_keyword, expect_next, separator_next, keyword_at,
  refuse_if,
}

-- No byte that `p` takes is next.
abbrev pub Stops : (ℕ → Bool) → Text → Type 0
Stops p rest = holds_of p (head rest) ≡ false

abbrev pub Anything : Text → Type 0
Anything rest = Unit {0}

-- `p` reads `a` off the text `xs`, whatever follows it with `Q`, and moves behind it.
abbrev pub Parses : {A : Type 0} → Reader A → (Text → Type 0) → Text → A → Type 0
Parses p Q xs a =
    (c : Cursor) (rest : Text)
    → rest_of c ≡ xs ++ rest
    → Q rest
    → p c ≡ ok (a, advance c (length xs))

pub rest_of-advance :
    (c : Cursor) (xs rest : Text) → rest_of c ≡ xs ++ rest → rest_of (advance c (length xs)) ≡ rest
rest_of-advance c xs rest e =
    sym (drop-drop (length xs) c.pos c.bytes) ∙ ap (drop (length xs)) e ∙ drop-append xs rest

advance-zero : (c : Cursor) → advance c 0 ≡ c
advance-zero c = ap (λ n. record c { pos = n }) (omega arith)

pub Parses-pure : {A : Type 0} (Q : Text → Type 0) (a : A) → Parses (pure a) Q [] a
Parses-pure Q a c rest e q = ap (λ c'. ok (a, c')) (sym (advance-zero c))

pub Parses-bind :
    {A B : Type 0} (p : Reader A) (f : A → Reader B) (P Q : Text → Type 0) (xs ys : Text) (a : A)
    (b : B)
    → Parses p P xs a
    → Parses (f a) Q ys b
    → ((rest : Text) → Q rest → P (ys ++ rest))
    → Parses (p >>= f) Q (xs ++ ys) b
Parses-bind p f P Q xs ys a b hp hf next c rest e q =
    let here = e ∙ append_assoc xs ys rest in
    ap (λ r. and_then r f) (hp c (ys ++ rest) here (next rest q))
    ∙ hf (advance c (length xs)) rest (rest_of-advance c xs (ys ++ rest) here) q
    ∙ ap (λ n. ok (b, record c { pos = n })) (omega (arith, length-append xs ys))

-- A read of nothing, then a read.
pub Parses-first :
    {A B : Type 0} (p : Reader A) (f : A → Reader B) (Q : Text → Type 0) (ys : Text) (a : A) (b : B)
    → ((c : Cursor) (rest : Text) → rest_of c ≡ ys ++ rest → p c ≡ ok (a, c))
    → Parses (f a) Q ys b
    → Parses (p >>= f) Q ys b
Parses-first p f Q ys a b hp hf c rest e q = ap (λ r. and_then r f) (hp c rest e) ∙ hf c rest e q

pub Parses-map :
    {A B : Type 0} (p : Reader A) (f : A → B) (Q : Text → Type 0) (xs : Text) (a : A)
    → Parses p Q xs a
    → Parses (p >>= λ x. pure (f x)) Q xs (f a)
Parses-map p f Q xs a hp c rest e q = ap (λ r. and_then r (λ x. pure (f x))) (hp c rest e q)

pub run-Stops : (p : ℕ → Bool) (rest : Text) → Stops p rest → run p rest ≡ 0
unfolding run
run-Stops p [] h = refl
run-Stops p (b ∷ rest) h = rw h refl

pub run-append :
    (p : ℕ → Bool) (xs rest : Text)
    → All (λ b. p b ≡ true) xs
    → Stops p rest
    → run p (xs ++ rest) ≡ length xs
unfolding run
run-append p [] rest h s = run-Stops p rest s
run-append p (x ∷ xs) rest (hx, hs) s = rw (hx, run-append p xs rest hs s) refl

pub skip_while-append :
    (p : ℕ → Bool) (c : Cursor) (xs rest : Text)
    → rest_of c ≡ xs ++ rest
    → All (λ b. p b ≡ true) xs
    → Stops p rest
    → skip_while p c ≡ advance c (length xs)
unfolding skip_while
skip_while-append p c xs rest e h s = ap (advance c) (ap (run p) e ∙ run-append p xs rest h s)

pub skip_ws-Stops :
    (c : Cursor) (rest : Text) → rest_of c ≡ rest → Stops is_space rest → skip_ws c ≡ c
unfolding skip_ws skip_while
skip_ws-Stops c rest e s =
    ap (advance c) (ap (run is_space) e ∙ run-Stops is_space rest s) ∙ advance-zero c

pub Parses-expect : (k : ℕ) → is_space k ≡ false → Parses (expect k) Anything (k ∷ []) tt
unfolding expect peek expect_next
Parses-expect k s c rest e q =
    ap (λ c'. expect_next k c' (peek c')) (skip_ws-Stops c (k ∷ rest) e s)
    ∙ ap (λ b. expect_next k c (head b)) e
    ∙ rw ((==_iff k k).1 refl) refl

Parses-separator :
    (place : Place) (b : ℕ) (last : Bool)
    → is_space b ≡ false
    → ((c : Cursor) → separator_next place c (some b) ≡ ok (last, advance c 1))
    → Parses (separator place) Anything (b ∷ []) last
unfolding separator peek separator_next
Parses-separator place b last s h c rest e q =
    ap (λ c'. separator_next place c' (peek c')) (skip_ws-Stops c (b ∷ rest) e s)
    ∙ ap (λ t. separator_next place c (head t)) e
    ∙ h c

pub Parses-comma : (place : Place) → Parses (separator place) Anything (44 ∷ []) false
unfolding separator_next
Parses-comma place = Parses-separator place 44 false refl (λ c. refl)

pub Parses-close : (place : Place) → Parses (separator place) Anything (41 ∷ []) true
unfolding separator_next
Parses-close place = Parses-separator place 41 true refl (λ c. refl)

if-same : {A : Type 0} (b : Bool) (x : A) → (if b then x else x) ≡ x
if-same true x = refl
if-same false x = refl

-- An opening bracket is not EMPTY.
bracket_is_no_keyword :
    (c : Cursor) (rest : Text) → rest_of c ≡ 40 ∷ rest → is_keyword empty_keyword c ≡ false
unfolding is_keyword
bracket_is_no_keyword c rest e =
    ap
      (λ t.
        if ltb (length c.bytes) (c.pos + 5)
        then false
        else if not (eq_text (to_ascii_lowercase (take 5 t)) (to_ascii_lowercase empty_keyword))
        then false
        else not (holds_of is_ascii_alphabetic (head (rest_of (advance c 5)))))
      e
    ∙ if-same (ltb (length c.bytes) (c.pos + 5)) false

pub reject_empty-bracket :
    (c : Cursor) (rest : Text) → rest_of c ≡ 40 ∷ rest → reject_empty c ≡ ok (tt, c)
unfolding reject_empty consume_keyword keyword_at refuse_if
reject_empty-bracket c rest e =
    ap (λ c'. refuse_if (keyword_at empty_keyword c')) (skip_ws-Stops c (40 ∷ rest) e refl)
    ∙ ap (λ b. refuse_if (if b then (true, advance c 5) else (false, c)))
        (bracket_is_no_keyword c rest e)
