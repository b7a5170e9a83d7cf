-- ===== src/Postgis/Copy/Row.antt =====
-- crates/shpx-driver-postgis/src/copy_binary.rs: the rows of COPY. An i32 to i128 is its pattern, and
-- so is a float. A row of a batch is its values; where an array is not of its field's type the source
-- panics, and so it does on a field that an i32 cannot count.
pub mod Framed
pub mod Encoded
pub mod Written
mod Runs
use shpx.Prelude.{
  Text, ℕ, zero, suc, ◌+◌, ◌-◌, ◌*◌, ◌/◌, ◌%◌, ◌^◌, List, [], ◌∷◌, ◌++◌, Option, none, some, Bool,
  true, false, Result, ok, err, ltb, leb, ◌==◌, ◌&&◌, if◌then◌else◌, length,
}
use shpx.Prelude.Outcome.{◌>>=◌}
use shpx.Geom.Types.{Fault}
use shpx.Geom.Bytes.{to_bytes}
use shpx.Postgis.Numeric.{from_i128_scale}
use shpx.Postgis.Copy.{encode_null, put_field, put_field_pgnumeric, encode_geometry}

pub data TimeUnit : Type 0 where
  second millisecond microsecond nanosecond : TimeUnit

-- The types that the encoder takes; `O` are all others. The scale of a decimal is an i8.
pub data DataType (O : Type 0) : Type 0 where
  boolean int16 int32 int64 float32 float64 utf8 large_utf8 binary large_binary date32 : DataType O
  timestamp : TimeUnit → DataType O
  decimal128 : ℕ → DataType O
  other : O → DataType O

pub data Value : Type 0 where
  bool : Bool → Value
  bits : ℕ → Value
  bytes : List ℕ → Value

pub data CopyError : Type 0 where
  field_count_exceeded : ℕ → CopyError
  date_overflow : Text → CopyError
  timestamp_overflow : Text → CopyError
  scale_unsupported : Text → ℕ → CopyError
  unsupported : Text → CopyError
  geometry : Fault → CopyError
  panicked : CopyError

pub record Field (O : Type 0) : Type 0 where
  pub name : Text
  pub data_type : DataType O

pub record BulkRowEncoder (O : Type 0) : Type 0 where
  pub schema : List (Field O)
  pub field_order : List ℕ
  pub geom_index : ℕ
  pub srid : ℕ

unfoldable pub new : {O : Type 0} → List (Field O) → List ℕ → ℕ → ℕ → BulkRowEncoder O
new schema attr_indices geom_index srid = record {
  schema = schema;
  field_order = attr_indices ++ geom_index ∷ [];
  geom_index = geom_index;
  srid = srid;
}

abbrev pub pg_epoch_days_from_unix : ℕ
pg_epoch_days_from_unix = 10957

abbrev pub pg_epoch_micros_from_unix : ℕ
pg_epoch_micros_from_unix = 946684800000000

-- `checked_sub(k)` of the pattern of a signed number, where `half` is half of the patterns.
unfoldable pub checked_sub : ℕ → ℕ → ℕ → Option ℕ
checked_sub half k v =
    if leb half v && ltb v (half + k) then none else some ((v + (2 * half - k)) % (2 * half))

-- `checked_mul(k)` of an i64 by a positive number.
unfoldable pub checked_mul : ℕ → ℕ → Option ℕ
checked_mul k v =
    if ltb v (2 ^ 63)
    then (if ltb (v * k) (2 ^ 63) then some (v * k) else none)
    else if leb ((2 ^ 64 - v) * k) (2 ^ 63)
    then some (2 ^ 64 - (2 ^ 64 - v) * k)
    else none

-- `v / 1_000`, which rounds to 0.
unfoldable pub div_1000 : ℕ → ℕ
div_1000 v = if ltb v (2 ^ 63) then v / 1000 else (2 ^ 64 - (2 ^ 64 - v) / 1000) % 2 ^ 64

unfoldable pub ts_to_unix_micros : TimeUnit → ℕ → Option ℕ
unfolding checked_mul div_1000
ts_to_unix_micros second v = checked_mul 1000000 v
ts_to_unix_micros millisecond v = checked_mul 1000 v
ts_to_unix_micros microsecond v = some v
ts_to_unix_micros nanosecond v = some (div_1000 v)

unfoldable pub put_field_i16 : List ℕ → ℕ → List ℕ
unfolding to_bytes
put_field_i16 out v = (out ++ to_bytes false 4 2) ++ to_bytes false 2 v

unfoldable pub put_field_i32 : List ℕ → ℕ → List ℕ
unfolding to_bytes
put_field_i32 out v = (out ++ to_bytes false 4 4) ++ to_bytes false 4 v

unfoldable pub put_field_i64 : List ℕ → ℕ → List ℕ
unfolding to_bytes
put_field_i64 out v = (out ++ to_bytes false 4 8) ++ to_bytes false 8 v

-- `expect`, and `ok_or_else`
abbrev pub or_err : {A : Type 0} → CopyError → Option A → Result CopyError A
or_err e none = err e
or_err e (some a) = ok a

unfoldable pub encode_value :
    {O : Type 0} → Text → DataType O → Value → List ℕ → Result CopyError (List ℕ)
unfolding put_field put_field_i16 put_field_i32 put_field_i64 checked_sub ts_to_unix_micros
    put_field_pgnumeric
encode_value name boolean (bool v) out = or_err panicked (put_field out ((if v then 1 else 0) ∷ []))
encode_value name int16 (bits v) out = ok (put_field_i16 out v)
encode_value name int32 (bits v) out = ok (put_field_i32 out v)
encode_value name int64 (bits v) out = ok (put_field_i64 out v)
encode_value name float32 (bits v) out = or_err panicked (put_field out (to_bytes false 4 v))
encode_value name float64 (bits v) out = or_err panicked (put_field out (to_bytes false 8 v))
encode_value name utf8 (bytes s) out = or_err panicked (put_field out s)
encode_value name large_utf8 (bytes s) out = or_err panicked (put_field out s)
encode_value name binary (bytes b) out = or_err panicked (put_field out b)
encode_value name large_binary (bytes b) out = or_err panicked (put_field out b)
encode_value name date32 (bits days_unix) out = do
  pg_days ← or_err (date_overflow name) (checked_sub (2 ^ 31) pg_epoch_days_from_unix days_unix)
  ok (put_field_i32 out pg_days)
encode_value name (timestamp unit) (bits v) out = do
  micros_unix ← or_err (timestamp_overflow name) (ts_to_unix_micros unit v)
  pg_micros ←
      or_err (timestamp_overflow name) (checked_sub (2 ^ 63) pg_epoch_micros_from_unix micros_unix)
  ok (put_field_i64 out pg_micros)
encode_value name (decimal128 scale) (bits v) out =
    if ltb scale 128
    then ok (put_field_pgnumeric out (from_i128_scale v scale))
    else err (scale_unsupported name scale)
encode_value name (other t) v out = err (unsupported name)
encode_value name t v out = err panicked

unfoldable pub encode_field :
    {O : Type 0} → Field O → Option Value → List ℕ → Result CopyError (List ℕ)
unfolding encode_null encode_value
encode_field field none out = ok (encode_null out)
encode_field field (some v) out = encode_value field.name field.data_type v out

abbrev pub get_elem? : {A : Type 0} → List A → ℕ → Option A
get_elem? [] i = none
get_elem? (x ∷ xs) zero = some x
get_elem? (x ∷ xs) (suc i) = get_elem? xs i

-- `as_binary` of the geometry's column.
abbrev pub as_binary : Option Value → Result CopyError (Option (List ℕ))
as_binary none = ok none
as_binary (some (bytes b)) = ok (some b)
as_binary (some v) = err panicked

abbrev pub of_geometry : Result Fault (Option (List ℕ)) → Result CopyError (List ℕ)
of_geometry (ok o) = or_err panicked o
of_geometry (err e) = err (geometry e)

module _ {O : Type 0} (e : BulkRowEncoder O) where
  -- The body of the loop over `field_order`.
  unfoldable pub encode_at : List (Option Value) → ℕ → List ℕ → Result CopyError (List ℕ)
  unfolding encode_geometry encode_field
  encode_at row idx out = do
    cell ← or_err panicked (get_elem? row idx)
    if idx == e.geom_index
        then (do wkb ← as_binary cell; of_geometry (encode_geometry wkb e.srid out))
        else (do field ← or_err panicked (get_elem? e.schema idx); encode_field field cell out)

  unfoldable pub encode_fields : List (Option Value) → List ℕ → List ℕ → Result CopyError (List ℕ)
  unfolding encode_at
  encode_fields row [] out = ok out
  encode_fields row (idx ∷ order) out = do
    out' ← encode_at row idx out
    encode_fields row order out'

  unfoldable pub encode_row : List (Option Value) → List ℕ → Result CopyError (List ℕ)
  unfolding encode_fields to_bytes
  encode_row row out =
      let rest = encode_fields row e.field_order (out ++ to_bytes false 2 (length e.field_order)) in
      if ltb (length e.field_order) (2 ^ 15)
      then rest
      else err (field_count_exceeded (length e.field_order))
