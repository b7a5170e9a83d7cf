-- ===== src/Shp/Loss.antt =====
-- crates/shpx-driver-shp/src/util.rs: what a lossy conversion does under the user's policy.
use shpx.Prelude.{Text, Bool, true, false, Result, ok, err}

pub data OnLoss : Type 0 where
  error warn skip : OnLoss

-- The constants of `loss_kind` that the DBF plan uses.
pub data LossKind : Type 0 where
  dbf_name_truncation decimal_precision_on_dbf timestamp_tz_on_dbf : LossKind
  timestamp_truncate_on_dbf binary_on_shp : LossKind

-- The errors of the DBF plan, with the column that they name.
pub data PlanError : Type 0 where
  on_loss : LossKind → Text → PlanError
  unsupported_type : Text → PlanError
  no_unique_name : Text → PlanError

-- The warning that `Warn` logs is left out.
unfoldable pub apply_on_loss : LossKind → Text → OnLoss → Result PlanError Bool
apply_on_loss kind field error = err (on_loss kind field)
apply_on_loss kind field warn = ok true
apply_on_loss kind field skip = ok false
