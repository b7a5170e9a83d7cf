-- ===== src/Shp/Names.antt =====
-- crates/shpx-driver-shp/src/dbf_schema.rs: `pick_dbf_name`, and `truncate_at_char_boundary` of
-- util.rs. The set of the used names is a list.
pub mod Picked
mod Runs
use shpx.Prelude.{
  Text, eq_text, ℕ, zero, suc, ◌+◌, ◌-◌, ◌/◌, ◌%◌, ◌≤◌, ◌≡◌, refl, arith, List, [], ◌∷◌, ◌++◌, Bool,
  true, false, Result, ok, err, ltb, leb, ◌==◌, ◌&&◌, ◌||◌, not, if◌then◌else◌, length, take, drop,
  Ensures, holds, fails, Ensures-if, Ensures-bind, Bool-cases, inl, inr, length-append,
}
use shpx.Prelude.Outcome.{◌>>=◌}
use shpx.Shp.Loss.{OnLoss, LossKind, PlanError, apply_on_loss, dbf_name_truncation, no_unique_name}

abbrev pub dbf_name_max_bytes : ℕ
dbf_name_max_bytes = 10

-- `used.contains(name)`
unfoldable pub contains : List Text → Text → Bool
contains [] name = false
contains (u ∷ used) name = eq_text u name || contains used name

-- Whether the bytes from some index on begin with a character, or are none.
abbrev pub begins_char : Text → Bool
begins_char [] = true
begins_char (b ∷ bs) = ltb b 128 || leb 192 b

-- `while end > 0 && !s.is_char_boundary(end) { end -= 1 }`
unfoldable pub boundary_at_most : Text → ℕ → ℕ
boundary_at_most s zero = zero
boundary_at_most s (suc end) =
    let lower = boundary_at_most s end in if begins_char (drop (suc end) s) then suc end else lower

unfoldable pub truncate_at_char_boundary : Text → ℕ → Text
unfolding boundary_at_most
truncate_at_char_boundary s max_bytes =
    if leb (length s) max_bytes then s else take (boundary_at_most s max_bytes) s

-- `n.to_string()` of a number below `10 ^ digits`.
unfoldable pub decimal : ℕ → ℕ → Text
decimal zero n = []
decimal (suc digits) n =
    let last = (48 + n % 10) ∷ [] in
    let front = decimal digits (n / 10) in if ltb n 10 then last else front ++ last

unfoldable pub to_string : ℕ → Text
unfolding decimal
to_string = decimal 4

unfoldable pub candidate : Text → ℕ → Text
unfolding truncate_at_char_boundary to_string
candidate base n =
    let suffix = to_string n in
    truncate_at_char_boundary base (dbf_name_max_bytes - length suffix) ++ suffix

-- The loop over `n`, of which `rounds` are left.
unfoldable pub pick_numbered : Text → Text → List Text → ℕ → ℕ → Result PlanError Text
unfolding candidate contains
pick_numbered original base used zero n = err (no_unique_name original)
pick_numbered original base used (suc rounds) n =
    let next = pick_numbered original base used rounds (n + 1) in
    if not (contains used (candidate base n)) then ok (candidate base n) else next

-- From the truncation on.
unfoldable pub pick_truncated : Text → List Text → Result PlanError Text
unfolding truncate_at_char_boundary pick_numbered contains
pick_truncated original used =
    let base = truncate_at_char_boundary original dbf_name_max_bytes in
    if not (contains used base) then ok base else pick_numbered original base used 9999 1

unfoldable pub pick_dbf_name : Text → List Text → OnLoss → Result PlanError Text
unfolding contains apply_on_loss pick_truncated
pick_dbf_name original used on_loss =
    if leb (length original) dbf_name_max_bytes && not (contains used original)
    then ok original
    else if ltb dbf_name_max_bytes (length original)
    then (apply_on_loss dbf_name_truncation original on_loss >>= λ _. pick_truncated original used)
    else pick_truncated original used
