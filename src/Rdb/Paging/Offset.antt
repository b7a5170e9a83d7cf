-- ===== src/Rdb/Paging/Offset.antt =====
-- Draining an `OffsetRowsIter`.
use shpx.Prelude.{
  ℕ, zero, suc, ◌+◌, ◌^◌, ◌≤◌, ◌<◌, ◌≡◌, refl, sym, ◌∙◌, ap, arith, List, [], ◌∷◌, ◌++◌, map,
  append-nil, none, some, Bool, true, false, ok, ltb, ◌==◌, min, length, take, drop, All, All-take,
  All-drop, Bool-cases, inl, inr, length-drop, drop-drop, take-append-drop,
}
use shpx.Rdb.Paging.{
  Statement, RowBatch, OffsetRowsIter, i64_zero, i64_max, new_offset, offset_rows, offset_read,
  offset_settle, offset_batch, next_offset,
}
use shpx.Rdb.Paging.Table.{
  join, Yields, Yields-ends, Yields-more, take-none, take-short, length-take-length, length-take-le,
  plain_row, read_plain-rows,
}

module _ {V E : Type 0} (missing : E) (conn : Statement V E) (n : ℕ) (rows : List (List V)) where
  -- The statement gives the same rows, of `n` columns, each time, from an offset and up to a limit.
  abbrev pub IsOffsetQuery : Type 0
  IsOffsetQuery =
      (conn.column_count ≡ ok n)
      × ((limit offset : ℕ)
          → conn.query (limit + i64_zero) (offset + i64_zero)
            ≡ ok (map (λ r. ok (plain_row missing r)) (take limit (drop offset rows))))
      × All (λ r. length r ≡ n) rows

  abbrev pub OffsetDrains : OffsetRowsIter → ℕ → Type 0
  OffsetDrains s offset =
      (bs : List (RowBatch V)) × Yields (next_offset conn) s bs
      × (join bs ≡ drop offset rows)
      × All (λ b. length b ≤ s.size) bs

  next-offset_read :
      (s : OffsetRowsIter) (offset : ℕ)
      → IsOffsetQuery
      → s.offset ≡ offset + i64_zero
      → s.finished ≡ false
      → s.size < 2 ^ 63
      → next_offset conn s ≡ offset_read conn s (take s.size (drop offset rows))
  unfolding next_offset offset_batch offset_rows
  next-offset_read s offset q at d small = opened s d small ∙ ap (offset_settle conn s) (page s at)
    where
      opened :
          (s' : OffsetRowsIter)
          → s'.finished ≡ false
          → s'.size < 2 ^ 63
          → next_offset conn s' ≡ offset_batch conn s' (s'.size + i64_zero)
      opened s' d' small' = rw (d', let e : ltb s'.size (2 ^ 63) ≡ true = ground arith in e) refl

      page :
          (s' : OffsetRowsIter)
          → s'.offset ≡ offset + i64_zero
          → offset_rows conn s' (s'.size + i64_zero) ≡ ok (take s'.size (drop offset rows))
      page s' at' =
          rw (q.0, at', q.1 s'.size offset)
            (read_plain-rows missing n _ (All-take _ s'.size _ (All-drop _ offset rows (q.2))))

  read-empty :
      (s : OffsetRowsIter) (b : RowBatch V)
      → (length b == 0) ≡ true
      → offset_read conn s b ≡ (ok none, record s { finished = true })
  unfolding offset_read
  read-empty s b e = rw e refl

  abbrev moved : OffsetRowsIter → RowBatch V → Bool → OffsetRowsIter
  moved s b f = record s { finished = f; offset = min (s.offset + length b) i64_max }

  read-last :
      (s : OffsetRowsIter) (b : RowBatch V)
      → (length b == 0) ≡ false
      → ltb (length b) s.size ≡ true
      → offset_read conn s b ≡ (ok (some b), moved s b true)
  unfolding offset_read
  read-last s b e l = rw (e, l) refl

  read-more :
      (s : OffsetRowsIter) (b : RowBatch V)
      → (length b == 0) ≡ false
      → ltb (length b) s.size ≡ false
      → offset_read conn s b ≡ (ok (some b), moved s b s.finished)
  unfolding offset_read
  read-more s b e l = rw (e, l) refl

  next-finished : (s : OffsetRowsIter) → s.finished ≡ true → next_offset conn s ≡ (ok none, s)
  unfolding next_offset
  next-finished s e = rw e refl

  drain :
      (fuel : ℕ) (s : OffsetRowsIter) (offset : ℕ)
      → IsOffsetQuery
      → length rows < 2 ^ 62
      → offset ≤ length rows
      → s.offset ≡ offset + i64_zero
      → s.finished ≡ false
      → 0 < s.size
      → s.size < 2 ^ 63
      → length (drop offset rows) < fuel
      → OffsetDrains s offset
  drain zero s offset q few within at d pos small h = absurd (omega arith)
  drain (suc fuel) s offset q few within at d pos small h = elim (Bool-cases (length page == 0)) [
    | inl e ↦ ([], Yields-ends (next_offset conn) (step ∙ read-empty s page e), sym (nothing e), tt)
    | inr e ↦ elim (Bool-cases (ltb (length page) s.size)) [
      | inl l ↦ (
        page ∷ [],
        Yields-more (next_offset conn) (step ∙ read-last s page e l)
            (Yields-ends (next_offset conn) (next-finished (moved s page true) refl)),
        append-nil page ∙ take-short s.size xs (ground arith),
        (ground arith, tt),
      )
      | inr l ↦
          let (bs, y, j, a) =
            drain fuel (moved s page s.finished) (offset + length page) q few (inside l) (next_at l)
              d pos small (shorter e l) in
          (
            page ∷ bs,
            Yields-more (next_offset conn) (step ∙ read-more s page e l) y,
            ap (λ r. page ++ r) (j ∙ behind l) ∙ take-append-drop s.size xs,
            (length-take-le s.size xs, a),
          )
    ]
  ]
    where
      xs : List (List V)
      xs = drop offset rows

      page : List (List V)
      page = take s.size xs

      step : next_offset conn s ≡ offset_read conn s page
      step = next-offset_read s offset q at d small

      nothing : (length page == 0) ≡ true → xs ≡ []
      nothing e = take-none s.size xs pos (ground arith)

      full : ltb (length page) s.size ≡ false → length page ≡ s.size
      full l = ground (arith, length-take-le s.size xs)

      inside : ltb (length page) s.size ≡ false → offset + length page ≤ length rows
      inside l = omega (arith, length-take-length s.size xs, length-drop offset rows)

      next_at :
          ltb (length page) s.size ≡ false
          → min (s.offset + length page) i64_max ≡ offset + length page + i64_zero
      next_at l = omega (arith, at, inside l)

      behind : ltb (length page) s.size ≡ false → drop (offset + length page) rows ≡ drop s.size xs
      behind l = rw (full l) (sym (drop-drop s.size offset rows))

      shorter :
          (length page == 0) ≡ false
          → ltb (length page) s.size ≡ false
          → length (drop (offset + length page) rows) < fuel
      shorter e l =
          ground (arith, length-drop (offset + length page) rows, length-drop offset rows, inside l)

  -- Drained until the first `None`, the iterator gives every row once, in the order of the query, in
  -- batches of at most `batch_size`.
  pub new_offset-OffsetDrains :
      (batch_size : ℕ)
      → 0 < batch_size
      → batch_size < 2 ^ 63
      → IsOffsetQuery
      → length rows < 2 ^ 62
      → OffsetDrains (new_offset batch_size) 0
  unfolding new_offset
  new_offset-OffsetDrains batch_size pos small q few =
      drain (suc (length rows)) (record { offset = i64_zero; size = batch_size; finished = false })
        0 q few (omega arith) (omega arith) refl pos small (omega arith)
