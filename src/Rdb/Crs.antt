-- ===== src/Rdb/Crs.antt =====
-- crates/shpx-rdb-common/src/crs.rs, and validate_user_query of opts.rs. `trim` is the one of `str`.
mod Runs
use shpx.Prelude.{
  Text, to_ascii_lowercase, eq_text, ℕ, ◌^◌, List, [], ◌∷◌, Option, none, some, Bool, true, false,
  Result, ok, err, ltb, ◌==◌, ◌||◌, if◌then◌else◌,
}
use shpx.Core.Crs.{Crs, epsg_code}

unfoldable pub merge_crs : Option Crs → Option Crs → Option Crs
merge_crs (some crs_arg) meta = some crs_arg
merge_crs none meta = meta

pub data CrsError : Type 0 where
  code_too_large : ℕ → CrsError

-- `i32::try_from(code)`
abbrev srid_of : ℕ → Result CrsError (Option ℕ)
srid_of code = if ltb code (2 ^ 31) then ok (some code) else err (code_too_large code)

unfoldable pub resolve_epsg_srid : Option Crs → Result CrsError (Option ℕ)
unfolding epsg_code
resolve_epsg_srid none = ok none
resolve_epsg_srid (some crs) = elim (epsg_code crs) [ none ↦ ok none | some code ↦ srid_of code ]

pub data QueryError : Type 0 where
  query_empty query_semicolon : QueryError

abbrev has_semicolon : Text → Bool
has_semicolon [] = false
has_semicolon (b ∷ rest) = b == 59 || has_semicolon rest

unfoldable pub validate_user_query : (Text → Text) → Text → Result QueryError (Unit {0})
validate_user_query trim q = elim (trim q) [
  | [] ↦ err query_empty
  | ◌∷◌ b rest ↦ if has_semicolon (b ∷ rest) then err query_semicolon else ok tt
]
