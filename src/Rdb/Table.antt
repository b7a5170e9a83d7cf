-- ===== src/Rdb/Table.antt =====
-- crates/shpx-rdb-common/src/table.rs, multirow.rs and opts.rs: table names, rows of an insert, and
-- checks of the options. The environment variable of `resolve_table_name` is an argument.
pub mod Chunks
mod Runs
use shpx.Prelude.{
  Text, ℕ, ◌+◌, ◌-◌, ◌*◌, ◌/◌, List, [], ◌∷◌, Option, none, some, Bool, true, false, Result, ok,
  err, max, if◌then◌else◌,
}
use shpx.Rdb.Uri.{split_once}

unfoldable pub split_qualified : Text → Text → Text × Text
unfolding split_once
split_qualified s default_schema = elim (split_once 46 s) [
  | none ↦ (default_schema, s)
  | some p ↦ p
]

pub data TableError : Type 0 where
  empty_table table_required overwrite_never : TableError

unfoldable pub resolve_table_name : Option Text → Option Text → Result TableError Text
resolve_table_name (some []) variable = err empty_table
resolve_table_name (some (b ∷ t)) variable = ok (b ∷ t)
resolve_table_name none (some (b ∷ v)) = ok (b ∷ v)
resolve_table_name none (some []) = err table_required
resolve_table_name none none = err table_required

unfoldable pub multirow_chunk_rows : ℕ → ℕ → ℕ → ℕ
multirow_chunk_rows params_per_row max_params_per_rpc safety_margin =
    let usable = max_params_per_rpc - safety_margin in max (usable / max params_per_row 1) 1

pub data CreateTable : Type 0 where
  if_not_exists always never : CreateTable

unfoldable pub validate_overwrite_compat : Bool → CreateTable → Result TableError (Unit {0})
validate_overwrite_compat true never = err overwrite_never
validate_overwrite_compat true if_not_exists = ok tt
validate_overwrite_compat true always = ok tt
validate_overwrite_compat false create_table = ok tt
