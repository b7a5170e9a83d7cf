-- ===== src/Rdb/Paging/Runs.antt =====
-- Runs of the iterators over a table of four rows.
use shpx.Prelude.{
  ℕ, ◌+◌, ◌-◌, ◌^◌, ◌≡◌, refl, ap, arith, List, [], ◌∷◌, map, some, ok, err, take, drop,
}
use shpx.Rdb.Paging.{Statement, i64_zero, batch_size_exceeds, new_keyset, new_offset, next_keyset}
use shpx.Rdb.Paging.Table.{Record, after, keyed_row, plain_row}
use shpx.Rdb.Paging.Keyset.{IsKeysetQuery, IsTable, Drains, new_keyset-Drains}
use shpx.Rdb.Paging.Offset.{IsOffsetQuery, OffsetDrains, new_offset-OffsetDrains}

abbrev no_column : ℕ
no_column = 7

-- Rows of the rowids -1, 2, 3 and 9 with one column.
abbrev table : List (Record ℕ)
table =
    (i64_zero - 1, 40 ∷ [])
    ∷ (i64_zero + 2, 41 ∷ [])
    ∷ (i64_zero + 3, 42 ∷ [])
    ∷ (i64_zero + 9, 43 ∷ [])
    ∷ []

abbrev conn : Statement ℕ ℕ
conn = record {
  column_count = ok 2;
  query = λ last limit.
      ok (map (λ r. ok (keyed_row no_column r)) (take (limit - i64_zero) (after last table)));
}

conn-IsKeysetQuery : IsKeysetQuery no_column conn 1 table
conn-IsKeysetQuery = (
  refl,
  λ last limit.
      ap (λ k. ok (map (λ r. ok (keyed_row no_column r)) (take k (after last table))))
        (omega arith),
)

table-IsTable : IsTable no_column conn 1 table
table-IsTable = (
  (
    (omega arith, (omega arith, (omega arith, tt))),
    ((omega arith, (omega arith, tt)), ((omega arith, tt), (tt, tt))),
  ),
  (refl, (refl, (refl, (refl, tt)))),
)

new_keyset-Drains_example : Drains no_column conn 1 table (new_keyset 2)
new_keyset-Drains_example =
    new_keyset-Drains no_column conn 1 table 2 (omega arith) (omega arith) conn-IsKeysetQuery
      table-IsTable

abbrev rows : List (List ℕ)
rows = (40 ∷ []) ∷ (41 ∷ []) ∷ (42 ∷ []) ∷ []

abbrev plain_conn : Statement ℕ ℕ
plain_conn = record {
  column_count = ok 1;
  query = λ limit offset. ok (
      map (λ r. ok (plain_row no_column r))
        (take (limit - i64_zero) (drop (offset - i64_zero) rows)));
}

plain_conn-IsOffsetQuery : IsOffsetQuery no_column plain_conn 1 rows
plain_conn-IsOffsetQuery = (
  refl,
  λ limit offset.
      rw
        (
          let e : limit + i64_zero - i64_zero ≡ limit = omega arith in e,
          let e : offset + i64_zero - i64_zero ≡ offset = omega arith in e,
        )
        refl,
  (refl, (refl, (refl, tt))),
)

new_offset-OffsetDrains_example : OffsetDrains no_column plain_conn 1 rows (new_offset 2) 0
new_offset-OffsetDrains_example =
    new_offset-OffsetDrains no_column plain_conn 1 rows 2 (omega arith) (omega arith)
      plain_conn-IsOffsetQuery (omega arith)

-- The first batch: the row of the rowid -1 is not in it.
first_batch : (next_keyset conn (new_keyset 2)).0 ≡ ok (some ((41 ∷ []) ∷ (42 ∷ []) ∷ []))
unfolding next_keyset new_keyset after
first_batch = refl

-- A batch size that no i64 holds is refused each time.
too_large : (next_keyset conn (new_keyset (2 ^ 63))).0 ≡ err (batch_size_exceeds (2 ^ 63))
unfolding next_keyset new_keyset
too_large = refl
