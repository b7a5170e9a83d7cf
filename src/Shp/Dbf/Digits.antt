-- ===== src/Shp/Dbf/Digits.antt =====
-- The lengths and decimals of the planned fields.
use shpx.Prelude.{
  Text, ℕ, ◌-◌, ◌≤◌, ◌<◌, arith, Option, none, some, Result, ok, min, leb, Ensures, holds, fails,
  Ensures-bind, Bool-cases, inl, inr,
}
use shpx.Prelude.Outcome.{◌>>=◌}
use shpx.Shp.Loss.{OnLoss, PlanError, apply_on_loss, error, warn, skip, decimal_precision_on_dbf}
use shpx.Shp.Dbf.{
  DataType, Field, DbfFieldKind, FieldMapping, plan, skip_column, character, numeric, float,
  logical, date, boolean, date32, date64, decimal128, timestamp, binary, large_binary,
  fixed_size_binary, other_type, scale_of, dbf_numeric_max_precision, map_decimal, map_timestamp,
  map_binary, map_other, map_type, map_arrow_to_dbf,
}

-- A decimal whose scale is at most its precision.
abbrev pub IsScaled : DataType → Type 0
IsScaled (decimal128 p s) = scale_of s ≤ p
IsScaled _ = Unit {0}

-- The field has room for its decimals, the point aside, within the limits of DBF.
abbrev pub FitsDbf : DbfFieldKind → Type 0
FitsDbf (character length) = length ≤ 254
FitsDbf (numeric length decimals) = (decimals < length) × (length ≤ 20)
FitsDbf (float length decimals) = (decimals < length) × (length ≤ 20)
FitsDbf logical = Unit {0}
FitsDbf date = Unit {0}

abbrev pub MapsFitting : FieldMapping → Type 0
MapsFitting (plan kind) = FitsDbf kind
MapsFitting skip_column = Unit {0}

abbrev Fitting : Result PlanError FieldMapping → Type 0
Fitting = Ensures MapsFitting (λ _. Unit {0})

map_decimal-Ensures :
    (p s : ℕ) (name : Text) (mode : OnLoss)
    → scale_of s ≤ p
    → Ensures FitsDbf (λ _. Unit {0}) (map_decimal p s name mode)
unfolding map_decimal apply_on_loss
map_decimal-Ensures p s name mode h = elim (Bool-cases (leb p dbf_numeric_max_precision)) [
  | inl t ↦ rw t (holds (ground arith, ground arith))
  | inr f ↦ rw f (by_mode mode)
]
  where
    by_mode :
        (m : OnLoss)
        → Ensures FitsDbf
            (λ _. Unit {0})
            (do
              _ ← apply_on_loss decimal_precision_on_dbf name m
              ok (
                  numeric dbf_numeric_max_precision
                    (min (scale_of s) (dbf_numeric_max_precision - 1))))
    by_mode error = fails tt
    by_mode warn = holds (ground arith, omega arith)
    by_mode skip = holds (ground arith, omega arith)

map_timestamp-Fitting :
    (tz : Option Text) (name : Text) (mode : OnLoss) → Fitting (map_timestamp tz name mode)
unfolding map_timestamp apply_on_loss
map_timestamp-Fitting none name error = fails tt
map_timestamp-Fitting none name warn = holds tt
map_timestamp-Fitting none name skip = holds tt
map_timestamp-Fitting (some tz) name error = fails tt
map_timestamp-Fitting (some tz) name warn = holds tt
map_timestamp-Fitting (some tz) name skip = holds tt

map_binary-Fitting : (name : Text) (mode : OnLoss) → Fitting (map_binary name mode)
unfolding map_binary apply_on_loss
map_binary-Fitting name error = fails tt
map_binary-Fitting name warn = holds tt
map_binary-Fitting name skip = holds tt

map_other-Fitting : (name : Text) (mode : OnLoss) → Fitting (map_other name mode)
unfolding map_other
map_other-Fitting name error = fails tt
map_other-Fitting name warn = holds tt
map_other-Fitting name skip = holds tt

map_type-Fitting :
    (t : DataType) (name : Text) (mode : OnLoss) → IsScaled t → Fitting (map_type t name mode)
unfolding map_type
map_type-Fitting (decimal128 p s) name mode h =
    Ensures-bind (map_decimal-Ensures p s name mode h) (λ k fits. holds fits) (λ e q. q)
map_type-Fitting (timestamp tz) name mode h = map_timestamp-Fitting tz name mode
map_type-Fitting binary name mode h = map_binary-Fitting name mode
map_type-Fitting large_binary name mode h = map_binary-Fitting name mode
map_type-Fitting fixed_size_binary name mode h = map_binary-Fitting name mode
map_type-Fitting (other_type t) name mode h = map_other-Fitting name mode
map_type-Fitting boolean name mode h = holds tt
map_type-Fitting date32 name mode h = holds tt
map_type-Fitting date64 name mode h = holds tt
map_type-Fitting _ name mode h = holds (omega arith)

-- A column whose type is no decimal of a scale above its precision gets a field that has more digits
-- than decimals and at most 20, or at most 254 characters.
pub map_arrow_to_dbf-MapsFitting :
    (field : Field) (mode : OnLoss)
    → IsScaled field.data_type
    → Ensures MapsFitting (λ _. Unit {0}) (map_arrow_to_dbf field mode)
unfolding map_arrow_to_dbf
map_arrow_to_dbf-MapsFitting field mode h = map_type-Fitting field.data_type field.name mode h
