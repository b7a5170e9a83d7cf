-- ===== src/Geom/Wkt/Numbers.antt =====
-- Numbers and points in a text.
use shpx.Prelude.{
  Text, is_ascii_digit, ◌⊎◌, inl, inr, ℕ, ◌+◌, ◌-◌, ◌<◌, ◌≡◌, refl, sym, ap, ◌∙◌, subst, arith, [],
  ◌∷◌, ◌++◌, ok, err, Bool, true, false, Option, some, length, take, take-append, All, ◌==◌,
  if◌then◌else◌,
}
use shpx.Geom.Types.{Coord, F64, IsF64, expected_number}
use shpx.Geom.Float.{is_finite}
use shpx.Geom.Cursor.{Cursor}
use shpx.Geom.Wkt.Tokens.{
  rest_of, advance, head, peek, skip_while, holds_of, skip_one, is_space, is_sign, is_number_byte,
  is_exponent, skip_ws, exponent_end, number_end, number_between, parsed, read_number, read_xy,
}
use shpx.Geom.Wkt.Parses.{
  Stops, Parses, Parses-bind, Parses-map, rest_of-advance, skip_while-append, skip_ws-Stops,
}

-- What `Display` writes for a finite f64: perhaps a minus, then digits with perhaps a point.
abbrev pub IsDecimal : Text → Type 0
IsDecimal t =
    (digits : Text) × All (λ b. is_number_byte b ≡ true) digits
    × (0 < length digits)
    × ((t ≡ digits) ⊎ (t ≡ 45 ∷ digits))

-- The byte behind a number does not continue it.
abbrev pub EndsNumber : Text → Type 0
EndsNumber rest = Stops is_number_byte rest × Stops is_exponent rest

-- A finite f64.
abbrev pub IsNumber : F64 → Type 0
IsNumber x = IsF64 x × (is_finite x ≡ true)

module _ (show : F64 → Text) (parse : Text → Option F64) where
  -- `Display` of a finite f64 is a decimal that `str::parse` takes back to the same f64.
  abbrev pub IsDisplay : Type 0
  IsDisplay = (x : F64) → IsNumber x → IsDecimal (show x) × (parse (show x) ≡ some x)

abbrev pub IsFinite : Coord → Type 0
IsFinite c = IsNumber (c.0) × IsNumber (c.1)

-- The two numbers of a point.
abbrev pub xy_text : (F64 → Text) → Coord → Text
xy_text show c = show (c.0) ++ 32 ∷ show (c.1)

number_byte_is_no_space : (b : ℕ) → is_number_byte b ≡ true → is_space b ≡ false
number_byte_is_no_space b h = ground arith

number_byte_is_no_sign : (b : ℕ) → is_number_byte b ≡ true → is_sign b ≡ false
number_byte_is_no_sign b h = ground arith

skip_one-Stops :
    (p : ℕ → Bool) (c : Cursor) (rest : Text) → rest_of c ≡ rest → Stops p rest → skip_one p c ≡ c
unfolding skip_one peek
skip_one-Stops p c rest e s =
    ap (λ b. if b then advance c 1 else c) (ap (λ t. holds_of p (head t)) e ∙ s)

skip_one-taken :
    (p : ℕ → Bool) (c : Cursor) (b : ℕ) (rest : Text)
    → rest_of c ≡ b ∷ rest
    → p b ≡ true
    → skip_one p c ≡ advance c 1
unfolding skip_one peek
skip_one-taken p c b rest e s =
    ap (λ b. if b then advance c 1 else c) (ap (λ t. holds_of p (head t)) e ∙ s)

exponent_end-Stops :
    (c : Cursor) (rest : Text) → rest_of c ≡ rest → Stops is_exponent rest → exponent_end c ≡ c
unfolding exponent_end peek
exponent_end-Stops c rest e s =
    ap (λ b. if b then skip_while is_ascii_digit (skip_one is_sign (advance c 1)) else c)
      (ap (λ t. holds_of is_exponent (head t)) e ∙ s)

Stops-head :
    (p q : ℕ → Bool) (xs rest : Text)
    → 0 < length xs
    → All (λ b. p b ≡ true) xs
    → ((b : ℕ) → p b ≡ true → q b ≡ false)
    → Stops q (xs ++ rest)
Stops-head p q [] rest pos h k = absurd (omega arith)
Stops-head p q (x ∷ xs) rest pos (hx, hs) k = k x hx

digits_end :
    (c : Cursor) (digits rest : Text)
    → rest_of c ≡ digits ++ rest
    → All (λ b. is_number_byte b ≡ true) digits
    → EndsNumber rest
    → exponent_end (skip_while is_number_byte c) ≡ advance c (length digits)
digits_end c digits rest e h (s, s') =
    ap exponent_end (skip_while-append is_number_byte c digits rest e h s)
    ∙ exponent_end-Stops (advance c (length digits)) rest (rest_of-advance c digits rest e) s'

number_end-decimal :
    (c : Cursor) (t rest : Text)
    → rest_of c ≡ t ++ rest
    → IsDecimal t
    → EndsNumber rest
    → number_end c ≡ advance c (length t)
unfolding number_end
number_end-decimal c t rest e (digits, h, pos, inl same) s =
    ap (λ c'. exponent_end (skip_while is_number_byte c'))
      (skip_one-Stops is_sign c (digits ++ rest) at
        (Stops-head is_number_byte is_sign digits rest pos h number_byte_is_no_sign))
    ∙ digits_end c digits rest at h s
    ∙ ap (λ u. advance c (length u)) (sym same)
  where
    at : rest_of c ≡ digits ++ rest
    at = e ∙ ap (λ u. u ++ rest) same
number_end-decimal c t rest e (digits, h, pos, inr same) s =
    ap (λ c'. exponent_end (skip_while is_number_byte c'))
      (skip_one-taken is_sign c 45 (digits ++ rest) at refl)
    ∙ digits_end (advance c 1) digits rest (rest_of-advance c (45 ∷ []) (digits ++ rest) at) h s
    ∙ ap (λ n. record c { pos = n }) (omega (arith, ap length same))
  where
    at : rest_of c ≡ 45 ∷ digits ++ rest
    at = e ∙ ap (λ u. u ++ rest) same

decimal_is_no_space : (t rest : Text) → IsDecimal t → Stops is_space (t ++ rest)
decimal_is_no_space t rest (digits, h, pos, inl same) =
    subst (λ u. Stops is_space (u ++ rest)) (sym same)
      (Stops-head is_number_byte is_space digits rest pos h number_byte_is_no_space)
decimal_is_no_space t rest (digits, h, pos, inr same) =
    subst (λ u. Stops is_space (u ++ rest)) (sym same) refl

decimal-length : (t : Text) → IsDecimal t → 0 < length t
decimal-length t (digits, h, pos, inl same) = omega (arith, ap length same)
decimal-length t (digits, h, pos, inr same) = omega (arith, ap length same)

module _ (show : F64 → Text) (parse : Text → Option F64) (display : IsDisplay show parse) where
  -- The number between two positions.
  number_between-show :
      (x : F64) (c : Cursor) (rest : Text)
      → rest_of c ≡ show x ++ rest
      → IsNumber x
      → number_between parse c (advance c (length (show x))) ≡ ok (x, advance c (length (show x)))
  unfolding number_between parsed
  number_between-show x c rest e fin =
      ap
        (λ b.
          if b
          then err (expected_number c.pos)
          else parsed parse (take (c.pos + n - c.pos) (rest_of c)) c.pos (advance c n)
              (parse (take (c.pos + n - c.pos) (rest_of c))))
        not_empty
      ∙ ap (λ u. parsed parse u c.pos (advance c n) (parse u)) raw
      ∙ ap (parsed parse (show x) c.pos (advance c n)) (display x fin).1
    where
      n : ℕ
      n = length (show x)

      not_empty : (c.pos + n == c.pos) ≡ false
      not_empty = ground (arith, decimal-length (show x) (display x fin).0)

      raw : take (c.pos + n - c.pos) (rest_of c) ≡ show x
      raw =
          ap (λ k. take k (rest_of c)) (let e : c.pos + n - c.pos ≡ n = omega arith in e)
          ∙ ap (take n) e
          ∙ take-append (show x) rest

  -- From behind the white space.
  number_at :
      (x : F64) (c : Cursor) (rest : Text)
      → rest_of c ≡ show x ++ rest
      → IsNumber x
      → EndsNumber rest
      → number_between parse c (number_end c) ≡ ok (x, advance c (length (show x)))
  number_at x c rest e fin s =
      ap (number_between parse c) (number_end-decimal c (show x) rest e (display x fin).0 s)
      ∙ number_between-show x c rest e fin

  Parses-number : (x : F64) → IsNumber x → Parses (read_number parse) EndsNumber (show x) x
  unfolding read_number
  Parses-number x fin c rest e s =
      ap (λ c'. number_between parse c' (number_end c'))
        (skip_ws-Stops c (show x ++ rest) e (decimal_is_no_space (show x) rest (display x fin).0))
      ∙ number_at x c rest e fin s

  -- Behind a space.
  Parses-next_number :
      (x : F64) → IsNumber x → Parses (read_number parse) EndsNumber (32 ∷ show x) x
  unfolding read_number skip_ws
  Parses-next_number x fin c rest e s =
      ap (λ c'. number_between parse c' (number_end c'))
        (skip_while-append is_space c (32 ∷ []) (show x ++ rest) e (refl, tt)
          (decimal_is_no_space (show x) rest (display x fin).0))
      ∙ number_at x (advance c 1) rest (rest_of-advance c (32 ∷ []) (show x ++ rest) e) fin s
      ∙ ap (λ n. ok (x, record c { pos = n })) (omega arith)

  pub Parses-xy : (c : Coord) → IsFinite c → Parses (read_xy parse) EndsNumber (xy_text show c) c
  unfolding read_xy
  Parses-xy (x, y) (hx, hy) =
      Parses-bind (read_number parse) _ EndsNumber EndsNumber (show x) (32 ∷ show y) x _
        (Parses-number x hx)
        (Parses-map (read_number parse) (λ y'. (x, y')) EndsNumber (32 ∷ show y) y
          (Parses-next_number y hy))
        (λ rest q. (refl, refl))
