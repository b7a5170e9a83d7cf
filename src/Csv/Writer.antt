-- ===== src/Csv/Writer.antt =====
-- crates/shpx-driver-csv/src/writer.rs. The csv crate is a state `W` that takes records, chrono a
-- record of what is called of it, and `show` and `show_float` are Display of the floats. An i8 to
-- i128 is an integer. A batch is its rows. The directory and the encoding of the file are left out.
pub mod Decimal
pub mod Table
pub mod Back
pub mod Rows
mod Runs
use shpx.Prelude.{
  Text, codes, is_one_of, eq_text, is_ascii_digit, ℕ, zero, suc, ◌+◌, ◌-◌, ◌*◌, ◌/◌, ◌%◌, List, [],
  ◌∷◌, ◌++◌, Option, none, some, Bool, true, false, Result, ok, err, ltb, ◌==◌, ◌||◌, if◌then◌else◌,
  length, take, drop,
}
use shpx.Prelude.Outcome.{◌>>=◌}
use shpx.Prelude.Int.{ℤ, pos, negsuc, abs, show_int, times, sub_ℕ, plus}
use shpx.Core.Schema.{Field}
use shpx.Geom.Types.{F64, Fault}
use shpx.Geom.Wkb.Decode.{decode}
use shpx.Geom.Wkt.Encode.{encode}
use shpx.Shp.Loss.{OnLoss}
use shpx.Shp.Names.{decimal}
use shpx.Csv.Options.{
  CsvError, raised, geometry, on_loss, binary_on_csv, structured_on_csv, LossKind,
  structured_unsupported, value_unsupported, after_finish, BomPolicy,
}
use shpx.Csv.Reader.{of_fault}

pub data TimeUnit : Type 0 where
  second millisecond microsecond nanosecond : TimeUnit

-- The types that the source tells apart; `O` are all others.
pub data DataType (O : Type 0) : Type 0 where
  utf8 large_utf8 boolean integer float16 float32 float64 date32 date64 binary large_binary :
      DataType O
  decimal128 : ℤ → DataType O
  timestamp : TimeUnit → Option Text → DataType O
  list large_list struct map : DataType O
  other : O → DataType O

-- A value that is not null. A float is its pattern.
pub data Value : Type 0 where
  text : Text → Value
  bool : Bool → Value
  int : ℤ → Value
  float : ℕ → Value
  bytes : List ℕ → Value

pub record Chrono : Type 1 where
  pub DateTime : Type 0
  pub Offset : Type 0
  -- The day of a Date32, and that of a Date64.
  pub from_days : ℤ → DateTime
  pub from_timestamp_millis : ℤ → Option DateTime
  pub from_timestamp : ℤ → ℕ → Option DateTime
  pub utc_timestamp_opt : ℤ → ℕ → Option DateTime
  pub east_opt : ℤ → Option Offset
  pub timestamp_opt : Offset → ℤ → ℕ → Option DateTime
  pub format : DateTime → Text → Text

-- `to_string` of a u128.
unfoldable pub to_string : ℕ → Text
unfolding decimal
to_string = decimal 39

unfoldable pub push_zeros : ℕ → Text → Text
push_zeros zero out = out
push_zeros (suc n) out = push_zeros n (out ++ 48 ∷ [])

-- The text of `abs` with `s` digits behind the point, behind what is written of the sign.
unfoldable pub with_point : Text → Text → ℕ → Text
unfolding push_zeros
with_point out abs s =
    if ltb s (length abs)
    then ((out ++ take (length abs - s) abs) ++ 46 ∷ []) ++ drop (length abs - s) abs
    else push_zeros (s - length abs) (out ++ 48 ∷ 46 ∷ []) ++ abs

abbrev pub sign_of : ℤ → Text
sign_of (pos n) = []
sign_of (negsuc n) = 45 ∷ []

unfoldable pub format_decimal128 : ℤ → ℤ → Text
unfolding to_string with_point
format_decimal128 value (negsuc s) = show_int to_string value
format_decimal128 value (pos zero) = show_int to_string value
format_decimal128 value (pos (suc s)) = with_point (sign_of value) (to_string (abs value)) (suc s)

-- `div_euclid` and `rem_euclid` by a positive number, the rest as nanoseconds.
unfoldable pub split_with_div : ℤ → ℕ → ℕ → ℤ × ℕ
split_with_div (pos n) factor sub_to_nanos = (pos (n / factor), n % factor * sub_to_nanos)
split_with_div (negsuc n) factor sub_to_nanos =
    (negsuc (n / factor), (factor - 1 - n % factor) * sub_to_nanos)

-- Two bytes as `parse::<i32>` reads them: two digits, or a plus and a digit, or a minus and a digit.
unfoldable pub parse_two : ℕ → ℕ → Option ℤ
parse_two a b =
    if is_ascii_digit b
    then (if is_ascii_digit a
        then some (pos (10 * (a - 48) + (b - 48)))
        else if a == 43
        then some (pos (b - 48))
        else if a == 45
        then some (if b == 48 then pos 0 else negsuc (b - 49))
        else none)
    else none

abbrev negated : ℤ → ℤ
negated (pos n) = sub_ℕ 0 n
negated (negsuc n) = pos (suc n)

abbrev signed : ℕ → ℤ → Option ℤ
signed sign n = if sign == 43 then some n else if sign == 45 then some (negated n) else none

-- The seconds of `+09:00` or `-08:30`, before `FixedOffset::east_opt`.
unfoldable pub offset_seconds : Text → Option ℤ
unfolding parse_two
offset_seconds (sign ∷ h1 ∷ h2 ∷ colon ∷ m1 ∷ m2 ∷ []) = elim (parse_two h1 h2) [
  | none ↦ none
  | some h ↦ elim (parse_two m1 m2) [
    | none ↦ none
    | some m ↦ if colon == 58 then signed sign (plus (times h 3600) (times m 60)) else none
  ]
]
offset_seconds tz = none

abbrev frac_format : TimeUnit → Text
frac_format second = []
frac_format millisecond = codes "%.3f"
frac_format microsecond = codes "%.6f"
frac_format nanosecond = codes "%.9f"

abbrev split_raw : TimeUnit → ℤ → ℤ × ℕ
split_raw second raw = (raw, 0)
split_raw millisecond raw = split_with_div raw 1000 1000000
split_raw microsecond raw = split_with_div raw 1000000 1000
split_raw nanosecond raw = split_with_div raw 1000000000 1

-- `apply_on_loss` of util.rs; the warning is left out.
unfoldable pub apply_on_loss : {D : Type 0} → LossKind → Text → OnLoss → Result (CsvError D) Bool
apply_on_loss kind field OnLoss.error = err (on_loss kind field)
apply_on_loss kind field OnLoss.warn = ok true
apply_on_loss kind field OnLoss.skip = ok false

abbrev pub contains : List ℕ → ℕ → Bool
contains [] i = false
contains (x ∷ xs) i = x == i || contains xs i

-- `Some(i) == geom_index`
abbrev pub is_index : Option ℕ → ℕ → Bool
is_index none i = false
is_index (some g) i = g == i

unfoldable pub should_write_bom : BomPolicy → Bool → Bool
should_write_bom BomPolicy.auto is_utf_8 = is_utf_8
should_write_bom BomPolicy.always is_utf_8 = is_utf_8
should_write_bom BomPolicy.never is_utf_8 = false

-- The names of the columns that are written.
unfoldable pub header_of : {O : Type 0} → List ℕ → ℕ → List (Field (DataType O)) → List Text
header_of skipped i [] = []
header_of skipped i (f ∷ fields) =
    let rest = header_of skipped (suc i) fields in
    if contains skipped i then rest else f.name ∷ rest

module _ {D O : Type 0} where
  -- Whether a column is left out.
  unfoldable pub skips : Field (DataType O) → OnLoss → DataType O → Result (CsvError D) Bool
  unfolding apply_on_loss
  skips f policy binary = do
    keep ← apply_on_loss binary_on_csv f.name policy
    ok (if keep then false else true)
  skips f policy large_binary = do
    keep ← apply_on_loss binary_on_csv f.name policy
    ok (if keep then false else true)
  skips f policy list = do
    keep ← apply_on_loss structured_on_csv f.name policy
    if keep then err (structured_unsupported f.name) else ok true
  skips f policy large_list = do
    keep ← apply_on_loss structured_on_csv f.name policy
    if keep then err (structured_unsupported f.name) else ok true
  skips f policy struct = do
    keep ← apply_on_loss structured_on_csv f.name policy
    if keep then err (structured_unsupported f.name) else ok true
  skips f policy map = do
    keep ← apply_on_loss structured_on_csv f.name policy
    if keep then err (structured_unsupported f.name) else ok true
  skips f policy t = ok false

  unfoldable pub plan_skipped_columns :
      List (Field (DataType O)) → ℕ → Option ℕ → OnLoss → Result (CsvError D) (List ℕ)
  unfolding skips
  plan_skipped_columns [] i geom_index policy = ok []
  plan_skipped_columns (f ∷ fields) i geom_index policy = do
    skip ← if is_index geom_index i then ok false else skips f policy f.data_type
    skipped ← plan_skipped_columns fields (suc i) geom_index policy
    ok (if skip then i ∷ skipped else skipped)

  module _ (chrono : Chrono) (show : F64 → Text) (show_float : DataType O → ℕ → Text) where
    open chrono use {
      DateTime, Offset, from_days, from_timestamp_millis, from_timestamp, utc_timestamp_opt,
      east_opt, timestamp_opt, format,
    }

    abbrev formatted : Text → Option DateTime → Text → Text → Result (CsvError D) Text
    formatted field none fmt suffix = err (value_unsupported field)
    formatted field (some dt) fmt suffix = ok (format dt fmt ++ suffix)

    unfoldable pub format_timestamp : ℤ → TimeUnit → Option Text → Text → Result (CsvError D) Text
    unfolding split_with_div offset_seconds
    format_timestamp raw unit tz field =
        let (secs, nanos) = split_raw unit raw in
        let body_format = codes "%Y-%m-%dT%H:%M:%S" ++ frac_format unit in
        elim tz [
          | none ↦ formatted field (from_timestamp secs nanos) body_format []
          | some name ↦
              if is_one_of (codes "UTC" ∷ codes "Z" ∷ codes "+00:00" ∷ codes "-00:00" ∷ []) name
              then formatted field (utc_timestamp_opt secs nanos) body_format (codes "Z")
              else elim (offset_seconds name) [
                | none ↦ err (value_unsupported field)
                | some seconds ↦ elim (east_opt seconds) [
                  | none ↦ err (value_unsupported field)
                  | some offset ↦
                      formatted field (timestamp_opt offset secs nanos) (body_format ++ codes "%:z")
                        []
                ]
              ]
        ]

    -- A value whose array is not of the column's type is refused here; the source panics.
    unfoldable pub value_to_csv : Text → DataType O → Value → Result (CsvError D) Text
    unfolding format_decimal128 format_timestamp
    value_to_csv name utf8 (text t) = ok t
    value_to_csv name large_utf8 (text t) = ok t
    value_to_csv name boolean (bool b) = ok (if b then codes "true" else codes "false")
    value_to_csv name integer (int n) = ok (show_int to_string n)
    value_to_csv name float16 (float x) = ok (show_float float16 x)
    value_to_csv name float32 (float x) = ok (show_float float32 x)
    value_to_csv name float64 (float x) = ok (show_float float64 x)
    value_to_csv name (decimal128 scale) (int n) = ok (format_decimal128 n scale)
    value_to_csv name date32 (int n) = ok (format (from_days n) (codes "%Y-%m-%d"))
    value_to_csv name date64 (int n) =
        formatted name (from_timestamp_millis n) (codes "%Y-%m-%d") []
    value_to_csv name (timestamp unit tz) (int n) = format_timestamp n unit tz name
    value_to_csv name binary v = ok []
    value_to_csv name large_binary v = ok []
    value_to_csv name t v = err (value_unsupported name)

    unfoldable pub arrow_value_to_csv : Field (DataType O) → Option Value → Result (CsvError D) Text
    unfolding value_to_csv
    arrow_value_to_csv field none = ok []
    arrow_value_to_csv field (some v) = value_to_csv field.name field.data_type v

    unfoldable pub geometry_to_csv : Text → Option Value → Result (CsvError D) Text
    geometry_to_csv name none = ok []
    geometry_to_csv name (some (bytes wkb)) = do g ← of_fault (decode wkb); of_fault (encode show g)
    geometry_to_csv name (some v) = err (value_unsupported name)

    -- The loop over the columns of a row, from the column `i` on.
    unfoldable pub record_of :
        List ℕ
        → Option ℕ
        → ℕ
        → List (Field (DataType O))
        → List (Option Value)
        → Result (CsvError D) (List Text)
    unfolding arrow_value_to_csv geometry_to_csv
    record_of skipped geom_index i [] cells = ok []
    record_of skipped geom_index i (f ∷ fields) [] = err (value_unsupported f.name)
    record_of skipped geom_index i (f ∷ fields) (cell ∷ cells) =
        let rest = record_of skipped geom_index (suc i) fields cells in
        let written = do
          value ←
              if is_index geom_index i
              then geometry_to_csv f.name cell
              else arrow_value_to_csv f cell
          values ← rest
          ok (value ∷ values)
        in if contains skipped i then rest else written

    module _ {W : Type 0} (write_record : List Text → W → Result D W) where
      abbrev recorded : Result D W → Result (CsvError D) W
      recorded (ok w) = ok w
      recorded (err e) = err (raised e)

      -- `CsvWriter`: the crate's writer until `finish`.
      unfoldable pub write_rows :
          List ℕ
          → Option ℕ
          → List (Field (DataType O))
          → List (List (Option Value))
          → W
          → Result (CsvError D) W
      unfolding record_of
      write_rows skipped geom_index fields [] w = ok w
      write_rows skipped geom_index fields (row ∷ rows) w = do
        record_text ← record_of skipped geom_index 0 fields row
        w' ← recorded (write_record record_text w)
        write_rows skipped geom_index fields rows w'

      unfoldable pub write_batch :
          List ℕ
          → Option ℕ
          → List (Field (DataType O))
          → List (List (Option Value))
          → Option W
          → Result (CsvError D) W
      unfolding write_rows
      write_batch skipped geom_index fields rows none = err after_finish
      write_batch skipped geom_index fields rows (some w) =
          write_rows skipped geom_index fields rows w

      -- What `open` does with the schema and the crate's writer, behind the mark of the byte order.
      unfoldable pub write_header :
          List (Field (DataType O)) → Option ℕ → OnLoss → W → Result (CsvError D) (List ℕ × W)
      unfolding plan_skipped_columns header_of
      write_header fields geom_index policy w = do
        skipped ← plan_skipped_columns fields 0 geom_index policy
        w' ← recorded (write_record (header_of skipped 0 fields) w)
        ok (skipped, w')
