-- ===== src/Geom/Wkt/Lists.antt =====
-- Lists, keywords and the brackets behind them in a text.
use shpx.Prelude.{
  Text, is_ascii_alphabetic, to_ascii_uppercase, ℕ, zero, suc, ◌+◌, ◌-◌, ◌<◌, ◌≡◌, refl, sym, ap,
  ◌∙◌, arith, List, [], ◌∷◌, ◌++◌, length, length-append, length-drop, take-append, take, All, Bool,
  true, false, if◌then◌else◌, ok, err, Option, Bool-cases, inl, inr, ◌==◌,
}
use shpx.Geom.Types.{F64, Geom, Place, expected_keyword}
use shpx.Geom.Cursor.{Cursor, Reader, ◌>>=◌}
use shpx.Geom.Wkt.Tokens.{
  rest_of, advance, skip_while, is_space, expect, read_ident, ident_between, reject_empty,
  separator,
}
use shpx.Geom.Wkt.Decode.{parse_items, parse_list, parse_keyword, parse_geom}
use shpx.Geom.Wkt.Layout.{tail_text, items_text, list_text, Members, length-tail_text}
use shpx.Geom.Wkt.Parses.{
  Stops, Anything, Parses, Parses-pure, Parses-bind, Parses-first, Parses-map, Parses-expect,
  Parses-comma, Parses-close, reject_empty-bracket, skip_ws-Stops, skip_while-append,
}

-- What may follow a member of a list.
abbrev pub FollowsMember : (Text → Type 0) → Type 0
FollowsMember Q = (rest : Text) → Q (44 ∷ rest) × Q (41 ∷ rest)

module _ {A : Type 0} (place : Place) (read : Reader A) (f : A → Text) (P : A → Type 0)
    (Q : Text → Type 0) (follows : FollowsMember Q)
    (step : (x : A) → P x → Parses read Q (f x) x) where
  Parses-items :
      (fuel : ℕ) (x : A) (xs : List A)
      → length xs < fuel
      → P x
      → All P xs
      → Parses (parse_items place read fuel) Anything (f x ++ tail_text f xs) (x ∷ xs)
  unfolding parse_items tail_text
  Parses-items zero x xs h hx hs = absurd (omega arith)
  Parses-items (suc fuel) x [] h hx hs =
      Parses-bind read _ Q Anything (f x) (41 ∷ []) x (x ∷ []) (step x hx)
        (Parses-bind (separator place) _ Anything Anything (41 ∷ []) [] true (x ∷ [])
          (Parses-close place) (Parses-pure Anything (x ∷ [])) (λ rest q. tt))
        (λ rest q. (follows rest).1)
  Parses-items (suc fuel) x (y ∷ ys) h hx (hy, hs) =
      Parses-bind read _ Q Anything (f x) (44 ∷ f y ++ tail_text f ys) x (x ∷ y ∷ ys) (step x hx)
        (Parses-bind (separator place) _ Anything Anything (44 ∷ []) (f y ++ tail_text f ys) false
          (x ∷ y ∷ ys) (Parses-comma place)
          (Parses-map (parse_items place read fuel) (λ items. x ∷ items) Anything _ (y ∷ ys)
            (Parses-items fuel y ys (omega arith) hy hs))
          (λ rest q. tt))
        (λ rest q. (follows _).0)

  pub Parses-list :
      (xs : List A) → Members P xs → Parses (parse_list place read) Anything (list_text f xs) xs
  unfolding parse_list items_text
  Parses-list [] (pos, hs) = absurd (omega arith)
  Parses-list (x ∷ xs) (pos, (hx, hs)) =
      Parses-bind (expect 40) _ Anything Anything (40 ∷ []) (f x ++ tail_text f xs) tt (x ∷ xs)
        (Parses-expect 40 refl)
        (λ c rest e q.
          Parses-items (suc (length c.bytes - c.pos)) x xs (enough c rest e) hx hs c rest e q)
        (λ rest q. tt)
    where
      enough :
          (c : Cursor) (rest : Text)
          → rest_of c ≡ (f x ++ tail_text f xs) ++ rest
          → length xs < suc (length c.bytes - c.pos)
      enough c rest e = omega (
        arith,
        ap length e,
        length-drop c.pos c.bytes,
        length-append (f x ++ tail_text f xs) rest,
        length-append (f x) (tail_text f xs),
        length-tail_text f xs,
      )

-- `reject_empty` before an opening bracket.
pub Parses-behind_empty :
    {B : Type 0} (p : Reader B) (t : Text) (b : B)
    → Parses p Anything (40 ∷ t) b
    → Parses (reject_empty >>= λ _. p) Anything (40 ∷ t) b
Parses-behind_empty p t b h =
    Parses-first reject_empty (λ _. p) Anything (40 ∷ t) tt b
      (λ c rest e. reject_empty-bracket c (t ++ rest) e) h

abbrev every : (ℕ → Bool) → Text → Bool
every p [] = true
every p (b ∷ bs) = if p b then every p bs else false

every-All : (p : ℕ → Bool) (t : Text) → every p t ≡ true → All (λ b. p b ≡ true) t
every-All p [] h = tt
every-All p (b ∷ bs) h = elim (Bool-cases (p b)) [
  | inl e ↦ (e, every-All p bs (rw (ap (λ q. if q then every p bs else false) (sym e)) h))
  | inr e ↦ cc
]

module _ (kw : Text) (upper : to_ascii_uppercase kw ≡ kw)
    (letters : every is_ascii_alphabetic kw ≡ true) (pos : 0 < length kw)
    (no_space : (rest : Text) → Stops is_space (kw ++ rest)) where
  ident_read :
      (c : Cursor) (rest : Text)
      → rest_of c ≡ kw ++ rest
      → ident_between c (advance c (length kw)) ≡ ok (kw, advance c (length kw))
  unfolding ident_between
  ident_read c rest e =
      ap
        (λ b.
          if b
          then err (expected_keyword c.pos)
          else ok (
            to_ascii_uppercase (take (c.pos + length kw - c.pos) (rest_of c)),
            advance c (length kw),
          ))
        (let e : (c.pos + length kw == c.pos) ≡ false = ground arith in e)
      ∙ ap (λ t. ok (to_ascii_uppercase t, advance c (length kw)))
          (ap (λ k. take k (rest_of c))
              (let e : c.pos + length kw - c.pos ≡ length kw = omega arith in e)
            ∙ ap (take (length kw)) e
            ∙ take-append kw rest)
      ∙ ap (λ t. ok (t, advance c (length kw))) upper

  Parses-ident : Parses read_ident (Stops is_ascii_alphabetic) kw kw
  unfolding read_ident
  Parses-ident c rest e s =
      ap (λ c'. ident_between c' (skip_while is_ascii_alphabetic c'))
        (skip_ws-Stops c (kw ++ rest) e (no_space rest))
      ∙ ap (ident_between c) (
          skip_while-append is_ascii_alphabetic c kw rest e
            (every-All is_ascii_alphabetic kw letters) s)
      ∙ ident_read c rest e

  pub Parses-kind :
      (parse : Text → Option F64) (t : Text) (g : Geom)
      → Parses (parse_keyword parse kw) Anything (40 ∷ t) g
      → Parses (parse_geom parse) Anything (kw ++ 40 ∷ t) g
  unfolding parse_geom
  Parses-kind parse t g h =
      Parses-bind read_ident (parse_keyword parse) (Stops is_ascii_alphabetic) Anything kw (40 ∷ t)
        kw g Parses-ident h (λ rest q. refl)
