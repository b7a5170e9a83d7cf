-- ===== src/Rdb/Table/Runs.antt =====
-- Concrete tables and chunks, and the theorems at them.
use shpx.Prelude.{◌≡◌, refl, [], ◌∷◌, some, err, true}
use shpx.Rdb.Table.{
  split_qualified, resolve_table_name, multirow_chunk_rows, validate_overwrite_compat, empty_table,
  overwrite_never, never,
}

split_three :
    split_qualified (97 ∷ 46 ∷ 98 ∷ 46 ∷ 99 ∷ []) (112 ∷ []) ≡ (97 ∷ [], 98 ∷ 46 ∷ 99 ∷ [])
unfolding split_qualified
split_three = refl

split_plain : split_qualified (97 ∷ []) (112 ∷ []) ≡ (112 ∷ [], 97 ∷ [])
unfolding split_qualified
split_plain = refl

chunk_of_eight : multirow_chunk_rows 8 2100 16 ≡ 260
unfolding multirow_chunk_rows
chunk_of_eight = refl

chunk_of_none : multirow_chunk_rows 0 2100 16 ≡ 2084
unfolding multirow_chunk_rows
chunk_of_none = refl

resolve_empty : resolve_table_name (some []) (some (97 ∷ [])) ≡ err empty_table
unfolding resolve_table_name
resolve_empty = refl

never_overwritten : validate_overwrite_compat true never ≡ err overwrite_never
unfolding validate_overwrite_compat
never_overwritten = refl
