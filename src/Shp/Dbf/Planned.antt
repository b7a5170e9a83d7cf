-- ===== src/Shp/Dbf/Planned.antt =====
-- What a plan says about the columns.
use shpx.Prelude.{
  Text, ℕ, ◌+◌, ◌<◌, ◌≡◌, ◌≢◌, List, [], ◌∷◌, Option, none, some, true, false, Result, Ensures,
}
use shpx.Shp.Loss.{
  OnLoss, PlanError, error, on_loss, unsupported_type, decimal_precision_on_dbf,
  timestamp_tz_on_dbf, timestamp_truncate_on_dbf, binary_on_shp,
}
use shpx.Prelude.Outcome.{◌>>=◌}
use shpx.Shp.Names.Picked.{IsFree, PickFault}
use shpx.Shp.Dbf.{
  DataType, Field, DbfFieldPlan, DbfWritePlan, FieldMapping, plan, skip_column, binary,
  large_binary, fixed_size_binary, decimal128, timestamp, other_type, dbf_numeric_max_precision,
  is_geometry,
}

-- The types that a plan may leave out.
abbrev pub MaySkip : DataType → Type 0
MaySkip (timestamp tz) = Unit {0}
MaySkip binary = Unit {0}
MaySkip large_binary = Unit {0}
MaySkip fixed_size_binary = Unit {0}
MaySkip (other_type t) = Unit {0}
MaySkip _ = ⊥

-- The columns from `idx` on, beside names that are used, with the fields and the skipped columns of
-- a plan: each column is the geometry's, or has one field of its index, type and name and of a name
-- of at most 10 bytes that is not used, or is skipped, which its type must allow and strictness rules
-- out.
pub data Plans (geometry : Option ℕ) (mode : OnLoss)
    : ℕ → List Text → List Field → List DbfFieldPlan → List Text → Type 0 where
  all_done : {idx : ℕ} {used : List Text} → Plans geometry mode idx used [] [] []
  left_out :
      {idx : ℕ} {used : List Text} {f : Field} {fs : List Field} {ps : List DbfFieldPlan}
      {ss : List Text}
      → is_geometry idx geometry ≡ true
      → Plans geometry mode (idx + 1) used fs ps ss
      → Plans geometry mode idx used (f ∷ fs) ps ss
  has_field :
      {idx : ℕ} {used : List Text} {f : Field} {fs : List Field} {p : DbfFieldPlan}
      {ps : List DbfFieldPlan} {ss : List Text}
      → is_geometry idx geometry ≡ false
      → p.input_index ≡ idx
      → p.plan_type ≡ f.data_type
      → p.source_name ≡ f.name
      → IsFree used p.dbf_name
      → Plans geometry mode (idx + 1) (p.dbf_name ∷ used) fs ps ss
      → Plans geometry mode idx used (f ∷ fs) (p ∷ ps) ss
  is_skipped :
      {idx : ℕ} {used : List Text} {f : Field} {fs : List Field} {ps : List DbfFieldPlan}
      {ss : List Text}
      → is_geometry idx geometry ≡ false
      → mode ≢ error
      → MaySkip f.data_type
      → Plans geometry mode (idx + 1) used fs ps ss
      → Plans geometry mode idx used (f ∷ fs) ps (f.name ∷ ss)

-- Why strictness refuses a column.
abbrev pub IsLoss : DataType → Text → PlanError → Type 0
IsLoss (decimal128 p s) name e =
    (dbf_numeric_max_precision < p) × (e ≡ on_loss decimal_precision_on_dbf name)
IsLoss (timestamp none) name e = e ≡ on_loss timestamp_truncate_on_dbf name
IsLoss (timestamp (some tz)) name e = e ≡ on_loss timestamp_tz_on_dbf name
IsLoss binary name e = e ≡ on_loss binary_on_shp name
IsLoss large_binary name e = e ≡ on_loss binary_on_shp name
IsLoss fixed_size_binary name e = e ≡ on_loss binary_on_shp name
IsLoss (other_type t) name e = e ≡ unsupported_type name
IsLoss _ name e = ⊥

-- How the columns from `idx` on fail: behind columns that are planned, strictness refuses the type
-- or the name of one, or all names for one are used.
pub data Fails (geometry : Option ℕ) (mode : OnLoss)
    : ℕ → List Text → List Field → PlanError → Type 0 where
  lossy_type :
      {idx : ℕ} {used : List Text} {f : Field} {fs : List Field} {e : PlanError}
      → is_geometry idx geometry ≡ false
      → mode ≡ error
      → IsLoss f.data_type f.name e
      → Fails geometry mode idx used (f ∷ fs) e
  no_name :
      {idx : ℕ} {used : List Text} {f : Field} {fs : List Field} {e : PlanError}
      → is_geometry idx geometry ≡ false
      → PickFault used f.name mode e
      → Fails geometry mode idx used (f ∷ fs) e
  behind_geometry :
      {idx : ℕ} {used : List Text} {f : Field} {fs : List Field} {e : PlanError}
      → is_geometry idx geometry ≡ true
      → Fails geometry mode (idx + 1) used fs e
      → Fails geometry mode idx used (f ∷ fs) e
  behind_field :
      {idx : ℕ} {used : List Text} {f : Field} {fs : List Field} {e : PlanError} {name : Text}
      → is_geometry idx geometry ≡ false
      → IsFree used name
      → Fails geometry mode (idx + 1) (name ∷ used) fs e
      → Fails geometry mode idx used (f ∷ fs) e
  behind_skipped :
      {idx : ℕ} {used : List Text} {f : Field} {fs : List Field} {e : PlanError}
      → is_geometry idx geometry ≡ false
      → mode ≢ error
      → MaySkip f.data_type
      → Fails geometry mode (idx + 1) used fs e
      → Fails geometry mode idx used (f ∷ fs) e

abbrev SkipsGently : OnLoss → DataType → FieldMapping → Type 0
SkipsGently mode t (plan kind) = Unit {0}
SkipsGently mode t skip_column = (mode ≢ error) × MaySkip t

abbrev Maps : OnLoss → DataType → Text → Result PlanError FieldMapping → Type 0
Maps mode t name = Ensures (SkipsGently mode t) (λ e. (mode ≡ error) × IsLoss t name e)

abbrev PlansOk : Option ℕ → OnLoss → ℕ → List Text → List Field → DbfWritePlan → Type 0
PlansOk geometry mode idx used fs done = Plans geometry mode idx used fs done.fields done.skipped
