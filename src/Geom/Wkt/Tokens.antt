-- ===== src/Geom/Wkt/Tokens.antt =====
-- The parser of wkt.rs: its position and its tokens. What it reads as UTF-8 is ASCII, so
-- `str::from_utf8` does not fail.
use shpx.Prelude.{
  Text, eq_text, to_ascii_lowercase, to_ascii_uppercase, is_ascii_alphabetic, is_ascii_digit, ℕ,
  suc, ◌+◌, ◌-◌, [], ◌∷◌, Option, none, some, Bool, true, false, Result, ok, err, ltb, ◌==◌, ◌||◌,
  if◌then◌else◌, length, take, drop, not,
}
use shpx.Geom.Types.{
  Coord, F64, Fault, Place, expected_byte, expected_keyword, expected_number, expected_separator,
  invalid_number, unexpected_eof, empty_unsupported,
}
use shpx.Geom.Cursor.{Cursor, Reader, pure, ◌>>=◌}

abbrev pub rest_of : Cursor → Text
rest_of c = drop c.pos c.bytes

abbrev pub advance : Cursor → ℕ → Cursor
advance c n = record c { pos = c.pos + n }

abbrev pub head : Text → Option ℕ
head [] = none
head (b ∷ bs) = some b

unfoldable pub peek : Cursor → Option ℕ
peek c = head (rest_of c)

-- `while let Some(b) = self.peek() { if p(b) { self.pos += 1 } else { break } }`
unfoldable pub run : (ℕ → Bool) → Text → ℕ
run p [] = 0
run p (b ∷ bs) = let more = run p bs in if p b then suc more else 0

unfoldable pub skip_while : (ℕ → Bool) → Cursor → Cursor
unfolding run
skip_while p c = advance c (run p (rest_of c))

-- `if matches!(self.peek(), Some(b) if p(b)) { self.pos += 1 }`
abbrev pub holds_of : (ℕ → Bool) → Option ℕ → Bool
holds_of p none = false
holds_of p (some b) = p b

unfoldable pub skip_one : (ℕ → Bool) → Cursor → Cursor
unfolding peek
skip_one p c = if holds_of p (peek c) then advance c 1 else c

abbrev pub is_space : ℕ → Bool
is_space b = b == 32 || (b == 9 || (b == 10 || b == 13))

abbrev pub is_sign : ℕ → Bool
is_sign b = b == 43 || b == 45

abbrev pub is_number_byte : ℕ → Bool
is_number_byte b = is_ascii_digit b || b == 46

abbrev pub is_exponent : ℕ → Bool
is_exponent b = b == 101 || b == 69

unfoldable pub skip_ws : Cursor → Cursor
unfolding skip_while
skip_ws = skip_while is_space

unfoldable pub expect_next : ℕ → Cursor → Option ℕ → Result Fault (Unit {0} × Cursor)
expect_next k c (some b) =
    if b == k then ok (tt, advance c 1) else err (expected_byte k c.pos (some b))
expect_next k c none = err (expected_byte k c.pos none)

unfoldable pub expect : ℕ → Reader (Unit {0})
unfolding skip_ws peek expect_next
expect k c = expect_next k (skip_ws c) (peek (skip_ws c))

unfoldable pub ident_between : Cursor → Cursor → Result Fault (Text × Cursor)
ident_between c end =
    if end.pos == c.pos
    then err (expected_keyword c.pos)
    else ok (to_ascii_uppercase (take (end.pos - c.pos) (rest_of c)), end)

unfoldable pub read_ident : Reader Text
unfolding skip_ws skip_while ident_between
read_ident c = ident_between (skip_ws c) (skip_while is_ascii_alphabetic (skip_ws c))

-- The end of the number that begins at a position: sign, digits and points, exponent.
unfoldable pub exponent_end : Cursor → Cursor
unfolding peek skip_one skip_while
exponent_end c =
    if holds_of is_exponent (peek c)
    then skip_while is_ascii_digit (skip_one is_sign (advance c 1))
    else c

unfoldable pub number_end : Cursor → Cursor
unfolding skip_one skip_while exponent_end
number_end c = exponent_end (skip_while is_number_byte (skip_one is_sign c))

-- Whether the text at the cursor is the keyword, in whatever case, and no letter follows it.
unfoldable pub is_keyword : Text → Cursor → Bool
is_keyword kw c =
    if ltb (length c.bytes) (c.pos + length kw)
    then false
    else if not
        (eq_text (to_ascii_lowercase (take (length kw) (rest_of c))) (to_ascii_lowercase kw))
    then false
    else not (holds_of is_ascii_alphabetic (head (rest_of (advance c (length kw)))))

unfoldable pub keyword_at : Text → Cursor → Bool × Cursor
unfolding is_keyword
keyword_at kw c = if is_keyword kw c then (true, advance c (length kw)) else (false, c)

unfoldable pub consume_keyword : Text → Cursor → Bool × Cursor
unfolding skip_ws keyword_at
consume_keyword kw c = keyword_at kw (skip_ws c)

abbrev pub empty_keyword : Text
empty_keyword = 69 ∷ 77 ∷ 80 ∷ 84 ∷ 89 ∷ []

unfoldable pub refuse_if : Bool × Cursor → Result Fault (Unit {0} × Cursor)
refuse_if (true, c) = err empty_unsupported
refuse_if (false, c) = ok (tt, c)

unfoldable pub reject_empty : Reader (Unit {0})
unfolding consume_keyword refuse_if
reject_empty c = refuse_if (consume_keyword empty_keyword c)

unfoldable pub separator_next : Place → Cursor → Option ℕ → Result Fault (Bool × Cursor)
separator_next place c (some b) =
    if b == 44
    then ok (false, advance c 1)
    else if b == 41
    then ok (true, advance c 1)
    else err (expected_separator c.pos b)
separator_next place c none = err (unexpected_eof place)

-- What follows a member of a list: whether the list ends there.
unfoldable pub separator : Place → Reader Bool
unfolding skip_ws peek separator_next
separator place c = separator_next place (skip_ws c) (peek (skip_ws c))

module _ (parse : Text → Option F64) where
  unfoldable pub parsed : Text → ℕ → Cursor → Option F64 → Result Fault (F64 × Cursor)
  parsed raw start end (some v) = ok (v, end)
  parsed raw start end none = err (invalid_number raw start)

  unfoldable pub number_between : Cursor → Cursor → Result Fault (F64 × Cursor)
  unfolding parsed
  number_between c end =
      let raw = take (end.pos - c.pos) (rest_of c) in
      if end.pos == c.pos then err (expected_number c.pos) else parsed raw c.pos end (parse raw)

  unfoldable pub read_number : Reader F64
  unfolding skip_ws number_end number_between
  read_number c = number_between (skip_ws c) (number_end (skip_ws c))

  unfoldable pub read_xy : Reader Coord
  unfolding read_number
  read_xy = do x ← read_number; y ← read_number; pure (x, y)
