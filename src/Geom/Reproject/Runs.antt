-- ===== src/Geom/Reproject/Runs.antt =====
-- Concrete transformations, and the theorem at one.
use shpx.Prelude.{
  ℕ, ◌+◌, ◌%◌, ◌^◌, ◌≡◌, refl, subst, arith, List, [], ◌∷◌, none, some, Bool, true, false, Result,
  ok, err, Ensures, ◌==◌,
}
use shpx.Geom.Types.{Coord, IsCoord, bad_byte_order}
use shpx.Geom.Reproject.{
  Column, geometry, transform, not_binary, binary, other, transform_value, transform_column,
  transform_batch, parse_target_crs, empty_target, is_identity,
}
use shpx.Geom.Reproject.Kept.{IsReprojected, IsRefused, transform_value-Ensures}

abbrev moved : Bool → ℕ → Coord → Result ℕ Coord
moved true by c = err 7
moved false by c = ok ((c.0 + by) % 2 ^ 64, c.1 % 2 ^ 64)

-- Moves x, and refuses x = 9.
abbrev convert : ℕ → Coord → Result ℕ Coord
convert by c = moved (c.0 == 9) by c

moved-IsCoord : (b : Bool) (by : ℕ) (c c' : Coord) → moved b by c ≡ ok c' → IsCoord c'
moved-IsCoord true by c c' e = cc
moved-IsCoord false by c c' e = subst (λ r. kept r) e (omega arith, omega arith)
  where
    kept : Result ℕ Coord → Type 0
    kept (ok c) = IsCoord c
    kept (err e) = IsCoord c

abbrev point_at : ℕ → List ℕ
point_at x = 1 ∷ 1 ∷ 0 ∷ 0 ∷ 0 ∷ x ∷ 0 ∷ 0 ∷ 0 ∷ 0 ∷ 0 ∷ 0 ∷ 0 ∷ 5 ∷ 0 ∷ 0 ∷ 0 ∷ 0 ∷ 0 ∷ 0 ∷ 0 ∷ []

column_moves :
    transform_column convert 3 (some (point_at 1) ∷ none ∷ some (point_at 2) ∷ [])
    ≡ ok (some (point_at 4) ∷ none ∷ some (point_at 5) ∷ [])
unfolding transform_column
column_moves = refl

column_fails :
    transform_column convert 3 (some (point_at 1) ∷ some (point_at 9) ∷ some [] ∷ [])
    ≡ err (transform 7)
unfolding transform_column
column_fails = refl

value_refused : transform_value convert 3 (2 ∷ 1 ∷ []) ≡ err (geometry (bad_byte_order 2))
unfolding transform_value
value_refused = refl

target_empty : parse_target_crs {D = ℕ} (λ t. t) (λ t. none) [] ≡ err empty_target
unfolding parse_target_crs
target_empty = refl

same_spec : is_identity (record { src_spec = 69 ∷ 80 ∷ []; dst_spec = 69 ∷ 80 ∷ [] }) ≡ true
unfolding is_identity
same_spec = refl

other_column :
    transform_batch {C = ℕ} {B = List (Column ℕ)}
      (λ s d. ok 3)
      convert
      (λ columns. ok columns)
      (record { src_spec = []; dst_spec = [] })
      (other 0 ∷ binary [] ∷ [])
      0
    ≡ err (not_binary 0)
unfolding transform_batch
other_column = refl

geometry_column :
    transform_batch {C = ℕ} {B = List (Column ℕ)}
      (λ s d. ok 3)
      convert
      (λ columns. ok columns)
      (record { src_spec = []; dst_spec = [] })
      (other 0 ∷ binary (some (point_at 1) ∷ []) ∷ [])
      1
    ≡ ok (other 0 ∷ binary (some (point_at 4) ∷ []) ∷ [])
unfolding transform_batch
geometry_column = refl

transform_value-Ensures_example :
    Ensures
      (IsReprojected convert 3 (point_at 1))
      (IsRefused convert 3 (point_at 1))
      (transform_value convert 3 (point_at 1))
transform_value-Ensures_example =
    transform_value-Ensures convert (λ by c c' e. moved-IsCoord (c.0 == 9) by c c' e) 3 (point_at 1)
      (omega arith) (omega arith)
