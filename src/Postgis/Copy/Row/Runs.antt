-- ===== src/Postgis/Copy/Row/Runs.antt =====
-- Concrete rows, and the theorem at one.
use shpx.Prelude.{
  codes, ℕ, ◌^◌, ◌-◌, ◌≤◌, ◌≡◌, ◌⊎◌, refl, List, [], ◌∷◌, ◌++◌, Option, none, some, ok, err,
  Ensures, length,
}
use shpx.Postgis.Copy.Row.{
  DataType, Value, date_overflow, timestamp_overflow, scale_unsupported, Field, BulkRowEncoder,
  boolean, int16, date32, timestamp, decimal128, second, nanosecond, bits, new, encode_value,
  encode_row, ts_to_unix_micros,
}
use shpx.Geom.Bytes.{from_bytes}
use shpx.Postgis.Copy.Row.Framed.{read_tuple}
use shpx.Postgis.Copy.Row.Written.{AreFieldsOf, Refused, encode_row-Ensures}

abbrev column : List ℕ → DataType ℕ → Field ℕ
column name t = record { name = name; data_type = t }

-- A geometry before a number and a day, which COPY takes behind them.
abbrev encoder : BulkRowEncoder ℕ
encoder =
    new
      (column (codes "geom") boolean ∷ column (codes "n") int16 ∷ column (codes "day") date32 ∷ [])
      (1 ∷ 2 ∷ []) 0 4326

-- 1970-01-01.
abbrev row : List (Option Value)
row = none ∷ some (bits 258) ∷ some (bits 0) ∷ []

row_written :
    encode_row encoder row []
    ≡ ok (
        0 ∷ 3 ∷ 0 ∷ 0 ∷ 0 ∷ 2 ∷ 1 ∷ 2 ∷ 0 ∷ 0 ∷ 0 ∷ 4 ∷ 0xff ∷ 0xff ∷ 0xd5 ∷ 0x33 ∷ 0xff ∷ 0xff
        ∷ 0xff ∷ 0xff ∷ [])
unfolding encode_row new
row_written = refl

row_read :
    read_tuple (0 ∷ 2 ∷ 0xff ∷ 0xff ∷ 0xff ∷ 0xff ∷ 0 ∷ 0 ∷ 0 ∷ 1 ∷ 7 ∷ 9 ∷ [])
    ≡ some (none ∷ some (7 ∷ []) ∷ [], 9 ∷ [])
unfolding read_tuple from_bytes
row_read = refl

-- i32::MIN days.
first_day_overflows :
    encode_value {O = ℕ} (codes "d") date32 (bits (2 ^ 31)) [] ≡ err (date_overflow (codes "d"))
unfolding encode_value
first_day_overflows = refl

seconds_overflow :
    encode_value {O = ℕ} (codes "t") (timestamp second) (bits (2 ^ 62)) []
    ≡ err (timestamp_overflow (codes "t"))
unfolding encode_value
seconds_overflow = refl

-- -1500 nanoseconds are -1 microsecond.
towards_zero : ts_to_unix_micros nanosecond (2 ^ 64 - 1500) ≡ some (2 ^ 64 - 1)
unfolding ts_to_unix_micros
towards_zero = refl

negative_scale :
    encode_value {O = ℕ} (codes "c") (decimal128 254) (bits 5) []
    ≡ err (scale_unsupported (codes "c") 254)
unfolding encode_value
negative_scale = refl

encode_row-Ensures_example :
    Ensures
      (λ out'.
        (t : List ℕ) × (ps : List (Option (List ℕ))) × (out' ≡ (5 ∷ []) ++ t)
        × ((rest : List ℕ) → read_tuple (t ++ rest) ≡ some (ps, rest))
        × AreFieldsOf encoder row encoder.field_order ps)
      (λ x. (2 ^ 15 ≤ length encoder.field_order) ⊎ Refused encoder row encoder.field_order)
      (encode_row encoder row (5 ∷ []))
encode_row-Ensures_example = encode_row-Ensures encoder row (5 ∷ [])
