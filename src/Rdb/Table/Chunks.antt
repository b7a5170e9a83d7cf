-- ===== src/Rdb/Table/Chunks.antt =====
-- The rows of an insert.
use shpx.Prelude.{ℕ, ◌+◌, ◌-◌, ◌*◌, ◌/◌, ◌≤◌, ◌<◌, max, ◌≡◌, arith}
use native.Mathlib.Nat.{le-div_iff_mul-le, div-mul-le_self, div-lt_iff_lt-mul}
use shpx.Rdb.Table.{multirow_chunk_rows}

-- Where one row's parameters fit beside the margin, the rows of a chunk fit, and one more would not.
pub multirow_chunk_rows-fits :
    (params_per_row max_params safety_margin : ℕ)
    → 0 < params_per_row
    → params_per_row + safety_margin ≤ max_params
    → (0 < multirow_chunk_rows params_per_row max_params safety_margin)
      × (multirow_chunk_rows params_per_row max_params safety_margin * params_per_row
            + safety_margin
          ≤ max_params)
      × (max_params
          < (multirow_chunk_rows params_per_row max_params safety_margin + 1) * params_per_row
            + safety_margin)
unfolding multirow_chunk_rows
multirow_chunk_rows-fits p m s pos fits = rw (one_or_more, room) (first_row, rows_fit, next_row)
  where
    one_or_more : max p 1 ≡ p
    one_or_more = omega arith

    first_row : 0 < (m - s) / p
    first_row = (le-div_iff_mul-le pos).1 (omega arith)

    room : max ((m - s) / p) 1 ≡ (m - s) / p
    room = omega (arith, first_row)

    rows_fit : (m - s) / p * p + s ≤ m
    rows_fit = omega (arith, div-mul-le_self (m - s) p)

    next_row : m < ((m - s) / p + 1) * p + s
    next_row = omega (
      arith,
      (div-lt_iff_lt-mul pos).0 (let e : (m - s) / p < (m - s) / p + 1 = omega arith in e),
    )
