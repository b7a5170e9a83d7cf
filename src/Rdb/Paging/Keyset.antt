-- ===== src/Rdb/Paging/Keyset.antt =====
-- Draining a `KeysetRowsIter`.
use shpx.Prelude.{
  ℕ, zero, suc, ◌+◌, ◌-◌, ◌^◌, ◌≤◌, ◌<◌, ◌≡◌, refl, sym, ◌∙◌, ap, arith, List, [], ◌∷◌, ◌++◌, map,
  append-nil, none, some, true, false, ok, ltb, ◌==◌, length, take, drop, All, All-take, Bool-cases,
  inl, inr, length-drop, take-append-drop,
}
use shpx.Rdb.Paging.{
  Statement, RowBatch, KeysetRowsIter, i64_zero, new_keyset, keyset_rows, keyset_read,
  keyset_settle, keyset_batch, next_keyset,
}
use shpx.Rdb.Paging.Table.{
  join, Yields, Record, IsSorted, after, last_of, cells, after-page, Yields-ends, Yields-more,
  take-none, take-short, length-take_pos, length-take-le, length-cells, cells-append, keyed_row,
  read_keyed-rows,
}

module _ {V E : Type 0} (missing : E) (conn : Statement V E) (n : ℕ) (table : List (Record V)) where
  -- The statement selects the table's `n` columns and its rowid, behind a rowid and up to a limit.
  abbrev pub IsKeysetQuery : Type 0
  IsKeysetQuery =
      (conn.column_count ≡ ok (n + 1))
      × ((last limit : ℕ)
          → conn.query last (limit + i64_zero)
            ≡ ok (map (λ r. ok (keyed_row missing r)) (take limit (after last table))))

  abbrev pub IsTable : Type 0
  IsTable = IsSorted table × All (λ r. length (r.1) ≡ n) table

  after-All :
      (P : Record V → Type 0) (last : ℕ) (t : List (Record V)) → All P t → All P (after last t)
  unfolding after
  after-All P last [] h = tt
  after-All P last (r ∷ t) (hr, hs) = elim (Bool-cases (ltb last (r.0))) [
    | inl e ↦ rw e (hr, after-All P last t hs)
    | inr e ↦ rw e (after-All P last t hs)
  ]

  page-rows :
      (s : KeysetRowsIter)
      → IsKeysetQuery
      → IsTable
      → (let page = take s.batch_size (after s.last_rowid table) in
          keyset_rows conn s (s.batch_size + i64_zero) ≡ ok (cells page, last_of s.last_rowid page))
  unfolding keyset_rows
  page-rows s (columns, query) (sorted, width) =
      rw
        (
          columns,
          let e : ltb (n + 1) 1 ≡ false = ground arith in e,
          query s.last_rowid s.batch_size,
        )
        (rw (let e : n + 1 - 1 ≡ n = omega arith in e) (
          read_keyed-rows missing n s.last_rowid _
            (All-take _ s.batch_size _ (after-All _ s.last_rowid table width))))

  -- The batches from a state: the rows behind its rowid, in order, at most `batch_size` at a time.
  abbrev pub Drains : KeysetRowsIter → Type 0
  Drains s =
      (bs : List (RowBatch V)) × Yields (next_keyset conn) s bs
      × (join bs ≡ cells (after s.last_rowid table))
      × All (λ b. length b ≤ s.batch_size) bs

  batch-keyset_read :
      (s : KeysetRowsIter) (limit : ℕ) (b : RowBatch V × ℕ)
      → keyset_rows conn s limit ≡ ok b
      → keyset_batch conn s limit ≡ keyset_read conn s b
  unfolding keyset_batch keyset_settle
  batch-keyset_read s limit b e = ap (keyset_settle conn s) e

  next-keyset_batch :
      (s : KeysetRowsIter)
      → s.done ≡ false
      → s.batch_size < 2 ^ 63
      → next_keyset conn s ≡ keyset_batch conn s (s.batch_size + i64_zero)
  unfolding next_keyset
  next-keyset_batch s d small =
      rw (d, let e : ltb s.batch_size (2 ^ 63) ≡ true = ground arith in e) refl

  read-empty :
      (s : KeysetRowsIter) (b : RowBatch V × ℕ)
      → (length (b.0) == 0) ≡ true
      → keyset_read conn s b ≡ (ok none, record s { done = true })
  unfolding keyset_read
  read-empty s b e = rw e refl

  read-last :
      (s : KeysetRowsIter) (b : RowBatch V × ℕ)
      → (length (b.0) == 0) ≡ false
      → ltb (length (b.0)) s.batch_size ≡ true
      → keyset_read conn s b ≡ (ok (some (b.0)), record s { done = true; last_rowid = b.1 })
  unfolding keyset_read
  read-last s b e l = rw (e, l) refl

  read-more :
      (s : KeysetRowsIter) (b : RowBatch V × ℕ)
      → (length (b.0) == 0) ≡ false
      → ltb (length (b.0)) s.batch_size ≡ false
      → keyset_read conn s b ≡ (ok (some (b.0)), record s { done = s.done; last_rowid = b.1 })
  unfolding keyset_read
  read-more s b e l = rw (e, l) refl

  next-done : (s : KeysetRowsIter) → s.done ≡ true → next_keyset conn s ≡ (ok none, s)
  unfolding next_keyset
  next-done s e = rw e refl

  drain :
      (fuel : ℕ) (s : KeysetRowsIter)
      → IsKeysetQuery
      → IsTable
      → s.done ≡ false
      → 0 < s.batch_size
      → s.batch_size < 2 ^ 63
      → length (after s.last_rowid table) < fuel
      → Drains s
  drain zero s q t d pos small h = absurd (omega arith)
  drain (suc fuel) s q t d pos small h = elim (Bool-cases (length (cells page) == 0)) [
    | inl e ↦ (
      [],
      Yields-ends (next_keyset conn) (step ∙ read-empty s b e),
      ap cells (sym (nothing e)),
      tt,
    )
    | inr e ↦ elim (Bool-cases (ltb (length (cells page)) s.batch_size)) [
      | inl l ↦ (
        cells page ∷ [],
        Yields-more (next_keyset conn) (step ∙ read-last s b e l) (
            Yields-ends (next_keyset conn)
              (next-done (record s { done = true; last_rowid = b.1 }) refl)),
        append-nil (cells page) ∙ ap cells (all_of l),
        (ground arith, tt),
      )
      | inr l ↦
          let (bs, y, j, a) =
            drain fuel (record s { done = s.done; last_rowid = b.1 }) q t d pos small (shorter e) in
          (
            cells page ∷ bs,
            Yields-more (next_keyset conn) (step ∙ read-more s b e l) y,
            ap (λ q. cells page ++ q) (j ∙ ap cells behind)
                ∙ sym (cells-append page (drop s.batch_size xs))
                ∙ ap cells (take-append-drop s.batch_size xs),
            (omega (arith, length-cells page, length-take-le s.batch_size xs), a),
          )
    ]
  ]
    where
      xs : List (Record V)
      xs = after s.last_rowid table

      page : List (Record V)
      page = take s.batch_size xs

      b : RowBatch V × ℕ
      b = (cells page, last_of s.last_rowid page)

      step : next_keyset conn s ≡ keyset_read conn s b
      step = next-keyset_batch s d small ∙ batch-keyset_read s _ b (page-rows s q t)

      nothing : (length (cells page) == 0) ≡ true → xs ≡ []
      nothing e = take-none s.batch_size xs pos (ground (arith, length-cells page))

      all_of : ltb (length (cells page)) s.batch_size ≡ true → page ≡ xs
      all_of l = take-short s.batch_size xs (ground (arith, length-cells page))

      behind : after (b.1) table ≡ drop s.batch_size xs
      behind = after-page s.batch_size s.last_rowid table (t.0)

      shorter : (length (cells page) == 0) ≡ false → length (after (b.1) table) < fuel
      shorter e = omega (
        arith,
        ap length behind,
        length-drop s.batch_size xs,
        length-take_pos s.batch_size xs (ground (arith, length-cells page)),
      )

  -- Drained until the first `None`, the iterator gives the rows of a positive rowid, in the order of
  -- their rowids, each once, in batches of at most `batch_size`.
  pub new_keyset-Drains :
      (batch_size : ℕ)
      → 0 < batch_size
      → batch_size < 2 ^ 63
      → IsKeysetQuery
      → IsTable
      → Drains (new_keyset batch_size)
  unfolding new_keyset
  new_keyset-Drains batch_size pos small q t =
      drain (suc (length (after i64_zero table)))
        (record { last_rowid = i64_zero; batch_size = batch_size; done = false }) q t refl pos small
        (omega arith)
