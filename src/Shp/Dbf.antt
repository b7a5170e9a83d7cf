-- ===== src/Shp/Dbf.antt =====
-- crates/shpx-driver-shp/src/dbf_schema.rs: the plan that maps Arrow columns to DBF fields.
-- `DataType` of the arrow library has a constructor for each type that the match names, and one for
-- all others. A u8 and an i8 are their 8-bit patterns.
pub mod Planned
pub mod Digits
mod Runs
use shpx.Prelude.{
  Text, ℕ, ◌+◌, ◌-◌, ◌≡◌, List, [], ◌∷◌, Option, none, some, Bool, true, false, Result, ok, err,
  leb, ltb, ◌==◌, min, not, if◌then◌else◌,
}
use shpx.Prelude.Outcome.{◌>>=◌}
use shpx.Shp.Loss.{
  OnLoss, PlanError, apply_on_loss, error, warn, skip, timestamp_tz_on_dbf,
  timestamp_truncate_on_dbf, binary_on_shp, decimal_precision_on_dbf, unsupported_type,
}
use shpx.Shp.Names.{pick_dbf_name}

pub data DataType : Type 0 where
  utf8 large_utf8 boolean int8 int16 int32 int64 uint8 uint16 uint32 : DataType
  float16 float32 float64 date32 date64 binary large_binary fixed_size_binary : DataType
  decimal128 : ℕ → ℕ → DataType
  timestamp : Option Text → DataType
  other_type : ℕ → DataType

-- The parts of an Arrow `Field` that the plan reads.
pub record Field : Type 0 where
  pub name : Text
  pub data_type : DataType

pub data DbfFieldKind : Type 0 where
  character : ℕ → DbfFieldKind
  numeric : ℕ → ℕ → DbfFieldKind
  float : ℕ → ℕ → DbfFieldKind
  logical date : DbfFieldKind

pub record DbfFieldPlan : Type 0 where
  pub input_index : ℕ
  pub plan_type : DataType
  pub source_name : Text
  pub dbf_name : Text
  pub field_type : DbfFieldKind

pub record DbfWritePlan : Type 0 where
  pub fields : List DbfFieldPlan
  pub skipped : List Text

pub data FieldMapping : Type 0 where
  plan : DbfFieldKind → FieldMapping
  skip_column : FieldMapping

abbrev pub dbf_character_default_len : ℕ
dbf_character_default_len = 254

abbrev pub dbf_numeric_max_precision : ℕ
dbf_numeric_max_precision = 18

-- `u8::try_from(s.max(0)).unwrap_or(0)`
abbrev pub scale_of : ℕ → ℕ
scale_of s = if ltb s 128 then s else 0

unfoldable pub map_decimal : ℕ → ℕ → Text → OnLoss → Result PlanError DbfFieldKind
unfolding apply_on_loss
map_decimal p s field on_loss =
    let scale = scale_of s in
    if leb p dbf_numeric_max_precision then ok (numeric (min (p + 1) 20) scale) else do
      _ ← apply_on_loss decimal_precision_on_dbf field on_loss
      ok (numeric dbf_numeric_max_precision (min scale (dbf_numeric_max_precision - 1)))

unfoldable pub map_timestamp : Option Text → Text → OnLoss → Result PlanError FieldMapping
unfolding apply_on_loss
map_timestamp none name on_loss = do
  go_on ← apply_on_loss timestamp_truncate_on_dbf name on_loss
  ok (if go_on then plan date else skip_column)
map_timestamp (some tz) name on_loss = do
  zoned ← apply_on_loss timestamp_tz_on_dbf name on_loss
  if zoned
      then (do
        go_on ← apply_on_loss timestamp_truncate_on_dbf name on_loss
        ok (if go_on then plan date else skip_column))
      else ok skip_column

-- Under `Warn` a binary column is skipped all the same.
unfoldable pub map_binary : Text → OnLoss → Result PlanError FieldMapping
unfolding apply_on_loss
map_binary name on_loss = do _ ← apply_on_loss binary_on_shp name on_loss; ok skip_column

unfoldable pub map_other : Text → OnLoss → Result PlanError FieldMapping
map_other name error = err (unsupported_type name)
map_other name warn = ok skip_column
map_other name skip = ok skip_column

abbrev pub planned : DbfFieldKind → Result PlanError FieldMapping
planned kind = ok (plan kind)

unfoldable pub map_type : DataType → Text → OnLoss → Result PlanError FieldMapping
unfolding map_decimal map_timestamp map_binary map_other
map_type utf8 name on_loss = planned (character dbf_character_default_len)
map_type large_utf8 name on_loss = planned (character dbf_character_default_len)
map_type boolean name on_loss = planned logical
map_type int8 name on_loss = planned (numeric 11 0)
map_type int16 name on_loss = planned (numeric 11 0)
map_type int32 name on_loss = planned (numeric 11 0)
map_type uint8 name on_loss = planned (numeric 11 0)
map_type uint16 name on_loss = planned (numeric 11 0)
map_type int64 name on_loss = planned (numeric 18 0)
map_type uint32 name on_loss = planned (numeric 18 0)
map_type float16 name on_loss = planned (float 19 6)
map_type float32 name on_loss = planned (float 19 6)
map_type float64 name on_loss = planned (float 19 6)
map_type (decimal128 p s) name on_loss = map_decimal p s name on_loss >>= planned
map_type date32 name on_loss = planned date
map_type date64 name on_loss = planned date
map_type (timestamp tz) name on_loss = map_timestamp tz name on_loss
map_type binary name on_loss = map_binary name on_loss
map_type large_binary name on_loss = map_binary name on_loss
map_type fixed_size_binary name on_loss = map_binary name on_loss
map_type (other_type t) name on_loss = map_other name on_loss

unfoldable pub map_arrow_to_dbf : Field → OnLoss → Result PlanError FieldMapping
unfolding map_type
map_arrow_to_dbf field on_loss = map_type field.data_type field.name on_loss

-- `Some(idx) == geometry_field_index`
abbrev pub is_geometry : ℕ → Option ℕ → Bool
is_geometry idx none = false
is_geometry idx (some g) = idx == g

abbrev pub push_field : DbfFieldPlan → DbfWritePlan → DbfWritePlan
push_field p rest = record { fields = p ∷ rest.fields; skipped = rest.skipped }

abbrev pub push_skipped : Text → DbfWritePlan → DbfWritePlan
push_skipped name rest = record { fields = rest.fields; skipped = name ∷ rest.skipped }

-- A round of the loop: `rest` is the loop over the columns behind, given the used names.
unfoldable pub plan_column :
    Field
    → ℕ
    → List Text
    → OnLoss
    → (List Text → Result PlanError DbfWritePlan)
    → FieldMapping
    → Result PlanError DbfWritePlan
unfolding pick_dbf_name
plan_column field idx used on_loss rest skip_column = do
  done ← rest used
  ok (push_skipped field.name done)
plan_column field idx used on_loss rest (plan kind) = do
  dbf_name ← pick_dbf_name field.name used on_loss
  done ← rest (dbf_name ∷ used)
  ok (
      push_field
        (record {
          input_index = idx;
          plan_type = field.data_type;
          source_name = field.name;
          dbf_name = dbf_name;
          field_type = kind;
        })
        done)

-- The loop over the columns from `idx` on; what it pushes comes before what the rest pushes.
unfoldable pub plan_columns :
    Option ℕ → OnLoss → List Field → ℕ → List Text → Result PlanError DbfWritePlan
unfolding map_arrow_to_dbf plan_column
plan_columns geometry on_loss [] idx used = ok (record { fields = []; skipped = [] })
plan_columns geometry on_loss (field ∷ rest) idx used =
    let more = λ (names : List Text). plan_columns geometry on_loss rest (idx + 1) names in
    if is_geometry idx geometry
    then more used
    else (map_arrow_to_dbf field on_loss >>= plan_column field idx used on_loss more)

unfoldable pub plan_dbf_writer_schema :
    List Field → Option ℕ → OnLoss → Result PlanError DbfWritePlan
unfolding plan_columns
plan_dbf_writer_schema schema geometry_field_index on_loss =
    plan_columns geometry_field_index on_loss schema 0 []
