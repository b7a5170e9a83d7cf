-- ===== src/Geom/Cursor/Defs.antt =====
-- The cursor and its reads. A `usize` has 64 bits.
use shpx.Prelude.{
  ℕ, ◌+◌, ◌-◌, ◌*◌, ◌^◌, List, [], ◌∷◌, ok, err, Result, Bool, ltb, if◌then◌else◌, length, take,
  drop,
}
use shpx.Geom.Types.{Coord, F64, Fault, count_overflow, count_short, cursor_overflow, truncated}
use shpx.Geom.Bytes.{from_bytes}

pub record Cursor : Type 0 where
  pub bytes : List ℕ
  pub pos : ℕ

-- A method of `&mut Cursor` that may fail: the cursor after it comes back with the result.
abbrev pub Reader : Type 0 → Type 0
Reader A = Cursor → Result Fault (A × Cursor)

abbrev pub pure : {A : Type 0} → A → Reader A
pure a c = ok (a, c)

abbrev pub fail : {A : Type 0} → Fault → Reader A
fail e c = err e

abbrev pub and_then :
    {A B : Type 0} → Result Fault (A × Cursor) → (A → Reader B) → Result Fault (B × Cursor)
and_then (ok (a, c)) f = f a c
and_then (err e) f = err e

infixl 5 ◌>>=◌ ◌>>◌
abbrev pub ◌>>=◌ : {A B : Type 0} → Reader A → (A → Reader B) → Reader B
◌>>=◌ m f c = and_then (m c) f

abbrev pub ◌>>◌ : {B : Type 0} → Reader (Unit {0}) → Reader B → Reader B
m >> k = m >>= λ _. k

-- A `usize` result that has wrapped is refused by `checked_add` and `checked_mul`.
abbrev usize_mod : ℕ
usize_mod = 2 ^ 64

unfoldable pub remaining : Cursor → ℕ
remaining c = length c.bytes - c.pos

unfoldable pub ensure_remaining_for : ℕ → ℕ → Reader (Unit {0})
unfolding remaining
ensure_remaining_for count per_item c =
    let needed = count * per_item in
    if ltb needed usize_mod
    then (if ltb (remaining c) needed
        then err (count_short count needed (remaining c))
        else ok (tt, c))
    else err (count_overflow count per_item)

unfoldable pub take_bytes : ℕ → Reader (List ℕ)
take_bytes n c =
    let end = c.pos + n in
    if ltb end usize_mod
    then (if ltb (length c.bytes) end
        then err (truncated c.pos n)
        else ok (take n (drop c.pos c.bytes), record c { pos = end }))
    else err cursor_overflow

abbrev pub first_byte : List ℕ → ℕ
first_byte [] = 0
first_byte (b ∷ bs) = b

-- `take(1)?[0]`
unfoldable pub take_byte : Reader ℕ
unfolding take_bytes
take_byte = do s ← take_bytes 1; pure (first_byte s)

unfoldable pub read_u32 : Bool → Reader ℕ
unfolding take_bytes from_bytes
read_u32 little = do s ← take_bytes 4; pure (from_bytes little s)

unfoldable pub read_f64 : Bool → Reader F64
unfolding take_bytes from_bytes
read_f64 little = do s ← take_bytes 8; pure (from_bytes little s)

-- One round of the loop in `read_pts`.
unfoldable pub read_coord : Bool → Reader Coord
unfolding read_f64
read_coord little = do x ← read_f64 little; y ← read_f64 little; pure (x, y)
