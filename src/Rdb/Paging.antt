-- ===== src/Rdb/Paging.antt =====
-- crates/shpx-rdb-common/src/streaming.rs: batches of rows from a SQLite statement.
-- The connection with its prepared statement is a parameter: the number of its columns, and the rows
-- that it gives for its two bound values. An i64 is its value plus 2 ^ 63, so it orders as a number.
pub mod Table
pub mod Keyset
pub mod Offset
mod Runs
use shpx.Prelude.{
  ℕ, zero, suc, ◌+◌, ◌-◌, ◌^◌, List, [], ◌∷◌, ◌++◌, Option, none, some, Bool, true, false, Result,
  ok, err, ltb, ◌==◌, min, if◌then◌else◌, length,
}
use shpx.Prelude.Outcome.{◌>>=◌}

-- A row of a result set: `get::<Value>` and `get::<i64>` of a column.
pub record Row (V E : Type 0) : Type 0 where
  pub get : ℕ → Result E V
  pub get_i64 : ℕ → Result E ℕ

-- The statement: `prepare_cached` with `column_count`, and `query`, whose rows come one at a time.
pub record Statement (V E : Type 0) : Type 0 where
  pub column_count : Result E ℕ
  pub query : ℕ → ℕ → Result E (List (Result E (Row V E)))

pub data PagingError (E : Type 0) : Type 0 where
  driver : E → PagingError E
  batch_size_exceeds : ℕ → PagingError E
  no_rowid_column : PagingError E

abbrev pub RowBatch : Type 0 → Type 0
RowBatch V = List (List V)

-- The values of an i64, moved by 2 ^ 63.
abbrev pub i64_zero : ℕ
i64_zero = 2 ^ 63

abbrev pub i64_max : ℕ
i64_max = 2 ^ 64 - 1

-- `map_err(|e| Error::driver(self.driver_name, e))?`
abbrev pub lift : {E A : Type 0} → Result E A → Result (PagingError E) A
lift (ok a) = ok a
lift (err e) = err (driver e)

module _ {V E : Type 0} where
  -- `for i in i..i + n { values.push(row.get(i)?) }`
  unfoldable pub read_values : Row V E → ℕ → ℕ → Result (PagingError E) (List V)
  read_values row zero i = ok []
  read_values row (suc n) i = do
    v ← lift (row.get i)
    rest ← read_values row n (i + 1)
    ok (v ∷ rest)

  -- The loop over the rows, with the rowid in the last column: the values, and the last rowid.
  unfoldable pub read_keyed :
      List (Result E (Row V E)) → ℕ → ℕ → Result (PagingError E) (RowBatch V × ℕ)
  unfolding read_values
  read_keyed [] attr_cols last_rowid = ok ([], last_rowid)
  read_keyed (next ∷ rows) attr_cols last_rowid = do
    row ← lift next
    values ← read_values row attr_cols 0
    rowid ← lift (row.get_i64 attr_cols)
    rest ← read_keyed rows attr_cols rowid
    ok (values ∷ rest.0, rest.1)

  -- The loop over the rows, all of whose columns are values.
  unfoldable pub read_plain : List (Result E (Row V E)) → ℕ → Result (PagingError E) (RowBatch V)
  unfolding read_values
  read_plain [] n_cols = ok []
  read_plain (next ∷ rows) n_cols = do
    row ← lift next
    values ← read_values row n_cols 0
    rest ← read_plain rows n_cols
    ok (values ∷ rest)

-- The fields of `KeysetRowsIter` that change, with the batch size.
pub record KeysetRowsIter : Type 0 where
  pub last_rowid : ℕ
  pub batch_size : ℕ
  pub done : Bool

pub record OffsetRowsIter : Type 0 where
  pub offset : ℕ
  pub size : ℕ
  pub finished : Bool

unfoldable pub new_keyset : ℕ → KeysetRowsIter
new_keyset batch_size = record { last_rowid = i64_zero; batch_size = batch_size; done = false }

unfoldable pub new_offset : ℕ → OffsetRowsIter
new_offset batch_size = record { offset = i64_zero; size = batch_size; finished = false }

module _ {V E : Type 0} (conn : Statement V E) where
  -- What a batch that was read makes of the iterator.
  unfoldable pub keyset_read :
      KeysetRowsIter
      → RowBatch V × ℕ
      → Result (PagingError E) (Option (RowBatch V)) × KeysetRowsIter
  keyset_read s (out, last) = if length out == 0 then (ok none, record s { done = true }) else (
    ok (some out),
    record s { done = if ltb (length out) s.batch_size then true else s.done; last_rowid = last },
  )

  -- The rows of one batch, read in full.
  unfoldable pub keyset_rows : KeysetRowsIter → ℕ → Result (PagingError E) (RowBatch V × ℕ)
  unfolding read_keyed
  keyset_rows s limit = do
    n_cols ← lift conn.column_count
    if ltb n_cols 1 then err no_rowid_column else (do
      rows ← lift (conn.query s.last_rowid limit)
      read_keyed rows (n_cols - 1) s.last_rowid)

  -- The end of `execute_batch`, and that an error ends the iterator.
  unfoldable pub keyset_settle :
      KeysetRowsIter
      → Result (PagingError E) (RowBatch V × ℕ)
      → Result (PagingError E) (Option (RowBatch V)) × KeysetRowsIter
  unfolding keyset_read
  keyset_settle s (ok batch) = keyset_read s batch
  keyset_settle s (err e) = (err e, record s { done = true })

  unfoldable pub keyset_batch :
      KeysetRowsIter → ℕ → Result (PagingError E) (Option (RowBatch V)) × KeysetRowsIter
  unfolding keyset_rows keyset_settle
  keyset_batch s limit = keyset_settle s (keyset_rows s limit)

  unfoldable pub next_keyset :
      KeysetRowsIter → Result (PagingError E) (Option (RowBatch V)) × KeysetRowsIter
  unfolding keyset_batch
  next_keyset s =
      if s.done
      then (ok none, s)
      else if ltb s.batch_size (2 ^ 63)
      then keyset_batch s (s.batch_size + i64_zero)
      else (err (batch_size_exceeds s.batch_size), s)

  unfoldable pub offset_read :
      OffsetRowsIter → RowBatch V → Result (PagingError E) (Option (RowBatch V)) × OffsetRowsIter
  offset_read s out = if length out == 0 then (ok none, record s { finished = true }) else (
    ok (some out),
    record s {
      finished = if ltb (length out) s.size then true else s.finished;
      offset = min (s.offset + length out) i64_max;
    },
  )

  unfoldable pub offset_rows : OffsetRowsIter → ℕ → Result (PagingError E) (RowBatch V)
  unfolding read_plain
  offset_rows s limit = do
    n_cols ← lift conn.column_count
    rows ← lift (conn.query limit s.offset)
    read_plain rows n_cols

  -- The same for `OffsetRowsIter`.
  unfoldable pub offset_settle :
      OffsetRowsIter
      → Result (PagingError E) (RowBatch V)
      → Result (PagingError E) (Option (RowBatch V)) × OffsetRowsIter
  unfolding offset_read
  offset_settle s (ok batch) = offset_read s batch
  offset_settle s (err e) = (err e, record s { finished = true })

  unfoldable pub offset_batch :
      OffsetRowsIter → ℕ → Result (PagingError E) (Option (RowBatch V)) × OffsetRowsIter
  unfolding offset_rows offset_settle
  offset_batch s limit = offset_settle s (offset_rows s limit)

  unfoldable pub next_offset :
      OffsetRowsIter → Result (PagingError E) (Option (RowBatch V)) × OffsetRowsIter
  unfolding offset_batch
  next_offset s =
      if s.finished
      then (ok none, s)
      else if ltb s.size (2 ^ 63)
      then offset_batch s (s.size + i64_zero)
      else (err (batch_size_exceeds s.size), s)
