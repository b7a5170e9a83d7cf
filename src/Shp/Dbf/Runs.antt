-- ===== src/Shp/Dbf/Runs.antt =====
-- Concrete schemas, and the theorems at them.
use shpx.Prelude.{◌≡◌, refl, arith, List, [], ◌∷◌, some, none, ok, err, Ensures}
use shpx.Shp.Loss.{on_loss, binary_on_shp, error, warn, skip}
use shpx.Shp.Dbf.{
  Field, DbfFieldPlan, int32, binary, decimal128, numeric, map_arrow_to_dbf, plan_dbf_writer_schema,
}
use shpx.Shp.Dbf.Digits.{MapsFitting, map_arrow_to_dbf-MapsFitting}

-- Columns "a", "g" and "b"
abbrev three_columns : List Field
three_columns =
    record { name = 97 ∷ []; data_type = int32 }
    ∷ record { name = 103 ∷ []; data_type = binary }
    ∷ record { name = 98 ∷ []; data_type = decimal128 20 4 }
    ∷ []

abbrev plan_a : DbfFieldPlan
plan_a = record {
  input_index = 0;
  plan_type = int32;
  source_name = 97 ∷ [];
  dbf_name = 97 ∷ [];
  field_type = numeric 11 0;
}

abbrev plan_b : DbfFieldPlan
plan_b = record {
  input_index = 2;
  plan_type = decimal128 20 4;
  source_name = 98 ∷ [];
  dbf_name = 98 ∷ [];
  field_type = numeric 18 4;
}

with_geometry :
    plan_dbf_writer_schema three_columns (some 1) warn
    ≡ ok (record { fields = plan_a ∷ plan_b ∷ []; skipped = [] })
unfolding plan_dbf_writer_schema
with_geometry = refl

binary_strict :
    plan_dbf_writer_schema three_columns none error ≡ err (on_loss binary_on_shp (103 ∷ []))
unfolding plan_dbf_writer_schema
binary_strict = refl

-- Under `Skip` a binary column is skipped, and a decimal of too high a precision is not.
decimal_kept :
    plan_dbf_writer_schema three_columns none skip
    ≡ ok (record { fields = plan_a ∷ plan_b ∷ []; skipped = (103 ∷ []) ∷ [] })
unfolding plan_dbf_writer_schema
decimal_kept = refl

map_arrow_to_dbf-MapsFitting_example :
    Ensures MapsFitting
      (λ _. Unit {0})
      (map_arrow_to_dbf (record { name = 98 ∷ []; data_type = decimal128 20 4 }) skip)
map_arrow_to_dbf-MapsFitting_example =
    map_arrow_to_dbf-MapsFitting (record { name = 98 ∷ []; data_type = decimal128 20 4 }) skip
      (omega arith)
