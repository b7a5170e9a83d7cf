-- ===== src/Csv/Writer/Runs.antt =====
-- Concrete tables, and the theorems at them.
use shpx.Prelude.{
  Text, codes, ℕ, ◌≡◌, refl, arith, List, [], ◌∷◌, map, Option, none, some, true, ok, err, length,
  All,
}
use shpx.Prelude.Outcome.{◌>>=◌}
use shpx.Prelude.Int.{pos, negsuc}
use shpx.Core.Schema.{Field, GeometryType}
use shpx.Geom.Types.{point}
use shpx.Geom.Wkt.Runs.{show, parse, shown, number}
use shpx.Shp.Loss.{OnLoss}
use shpx.Csv.Options.{on_loss, binary_on_csv, resolve_bom, bom_invalid, row_length}
use shpx.Csv.Reader.{Cell, pick_geometry_column, wkt_keyword_to_type, read_rows, next}
use shpx.Geom.Wkb.Encode.{encode, estimate_size}
use shpx.Csv.Writer.{
  DataType, Value, Chrono, decimal128, integer, binary, int, bytes, format_decimal128, sign_of,
  split_with_div, offset_seconds, plan_skipped_columns, header_of, write_rows, arrow_value_to_csv,
}
use shpx.Csv.Writer.Decimal.{IsPointed, format_decimal128-IsPointed}
use shpx.Csv.Writer.Table.{kept, StoredAt, read_back}
use shpx.Csv.Writer.Rows.{keep, each, read_rows-write_rows}

hundredths : format_decimal128 (negsuc 4) (pos 2) ≡ codes "-0.05"
unfolding format_decimal128
hundredths = refl

whole_part : format_decimal128 (pos 12345) (pos 3) ≡ codes "12.345"
unfolding format_decimal128
whole_part = refl

before_epoch : split_with_div (negsuc 0) 1000 1000000 ≡ (negsuc 0, 999000000)
unfolding split_with_div
before_epoch = refl

offset_west : offset_seconds (codes "-08:30") ≡ some (negsuc 30599)
unfolding offset_seconds
offset_west = refl

-- `parse::<i32>` takes a sign.
offset_signed : offset_seconds (codes "+-1:+5") ≡ some (negsuc 3299)
unfolding offset_seconds
offset_signed = refl

format_decimal128-IsPointed_example :
    IsPointed (sign_of (negsuc 4)) 5 2 (format_decimal128 (negsuc 4) (pos 2))
format_decimal128-IsPointed_example = format_decimal128-IsPointed (negsuc 4) 1 (omega arith)

picked_by_order :
    pick_geometry_column {D = ℕ} (codes "WKT" ∷ codes "id" ∷ codes "Geom" ∷ []) none ≡ ok 2
unfolding pick_geometry_column
picked_by_order = refl

-- `trim_start` is not needed here.
keyword_read : wkt_keyword_to_type (λ t. t) (codes "MultiPoint(1 2)") ≡ GeometryType.multi_point
unfolding wkt_keyword_to_type
keyword_read = refl

short_row :
    next {D = ℕ} parse 2 0 (some (ok ([] ∷ codes "a" ∷ []) ∷ ok (codes "b" ∷ []) ∷ []))
    ≡ (some (err (row_length 1 2)), none)
unfolding next
short_row = refl

bad_bom :
    resolve_bom {D = ℕ} (record {
      delimiter = none;
      has_header = none;
      geometry_column = none;
      bom = some (codes "Yes");
    })
    ≡ err (bom_invalid (codes "yes"))
unfolding resolve_bom
bad_bom = refl

abbrev plain_field : Text → DataType ℕ → Field (DataType ℕ)
plain_field name t = record { name = name; data_type = t; nullable = true; metadata = [] }

-- A geometry between an integer and a decimal, behind a column that is left out.
abbrev fields : List (Field (DataType ℕ))
fields =
    plain_field (codes "raw") binary
    ∷ plain_field (codes "id") integer
    ∷ plain_field (codes "geom") binary
    ∷ plain_field (codes "cost") (decimal128 (pos 2))
    ∷ []

raw_refused :
    plan_skipped_columns {D = ℕ} fields 0 (some 2) OnLoss.error
    ≡ err (on_loss binary_on_csv (codes "raw"))
unfolding plan_skipped_columns
raw_refused = refl

raw_skipped : plan_skipped_columns {D = ℕ} fields 0 (some 2) OnLoss.skip ≡ ok (0 ∷ [])
unfolding plan_skipped_columns
raw_skipped = refl

-- POINT of 3 and 1.
abbrev stored_point : List ℕ
stored_point =
    1 ∷ 1 ∷ 0 ∷ 0 ∷ 0 ∷ 3 ∷ 0 ∷ 0 ∷ 0 ∷ 0 ∷ 0 ∷ 0 ∷ 0 ∷ 1 ∷ 0 ∷ 0 ∷ 0 ∷ 0 ∷ 0 ∷ 0 ∷ 0 ∷ []

abbrev rows : List (List (Option Value))
rows =
    (some (bytes []) ∷ some (int (pos 7)) ∷ some (bytes stored_point) ∷ some (int (pos 150)) ∷ [])
    ∷ (none ∷ none ∷ none ∷ some (int (negsuc 0)) ∷ [])
    ∷ []

abbrev no_chrono : Chrono
no_chrono = record {
  DateTime = Unit {0};
  Offset = Unit {0};
  from_days = λ d. tt;
  from_timestamp_millis = λ n. none;
  from_timestamp = λ s n. none;
  utc_timestamp_opt = λ s n. none;
  east_opt = λ s. none;
  timestamp_opt = λ o s n. none;
  format = λ d f. f;
}

abbrev float_text : DataType ℕ → ℕ → Text
float_text t x = show x

rows_stored : All (StoredAt 2) rows
unfolding encode estimate_size
rows_stored = (
  (
    point 3 1,
    (number 3 (omega arith), number 1 (omega arith)),
    (omega arith, omega arith),
    omega arith,
    refl,
  ),
  (tt, tt),
)

cells_due :
    each (read_back {D = ℕ} no_chrono show float_text (0 ∷ []) 2 0 fields) rows
    ≡ ok (
        (Cell.text (codes "7") ∷ Cell.bytes stored_point ∷ Cell.text (codes "1.50") ∷ [])
        ∷ (Cell.text [] ∷ Cell.null ∷ Cell.text (codes "-0.01") ∷ [])
        ∷ [])
unfolding read_back arrow_value_to_csv
cells_due = refl

read_rows-write_rows_example :
    (do
      out ← write_rows {D = ℕ} no_chrono show float_text keep (0 ∷ []) (some 2) fields rows []
      read_rows parse (length (header_of (0 ∷ []) 0 fields)) (kept (0 ∷ []) 0 2) 5 (map ok out))
    ≡ (do
      cells ← each (read_back {D = ℕ} no_chrono show float_text (0 ∷ []) 2 0 fields) rows
      ok (cells, []))
read_rows-write_rows_example =
    read_rows-write_rows no_chrono show float_text parse shown (0 ∷ []) 2 refl fields rows 5
      (omega arith) rows_stored
