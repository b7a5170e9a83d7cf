-- ===== src/Core/Crs.antt =====
-- crates/shpx-core/src/crs.rs. The WKT and PROJJSON texts of a Crs are carried along. `trim` is the
-- one of `str`, and `parse_u32` its `parse::<u32>`.
use shpx.Prelude.{
  Text, to_ascii_lowercase, eq_text, ℕ, [], ◌∷◌, ◌++◌, Option, none, some, if◌then◌else◌, length,
  take, drop,
}

pub data WktFlavor : Type 0 where
  v1 v2 : WktFlavor

pub record Crs : Type 0 where
  pub authority : Option (Text × ℕ)
  pub wkt : Option Text
  pub wkt_flavor : WktFlavor
  pub projjson : Option Text

abbrev pub epsg : Text
epsg = 69 ∷ 80 ∷ 83 ∷ 71 ∷ []

unfoldable pub from_epsg : ℕ → Crs
from_epsg code = record {
  authority = some (epsg, code);
  wkt = none;
  wkt_flavor = v2;
  projjson = none;
}

unfoldable pub epsg_code : Crs → Option ℕ
epsg_code crs = elim crs.authority [
  | none ↦ none
  | some a ↦
      if eq_text (to_ascii_lowercase (a.0)) (to_ascii_lowercase epsg) then some (a.1) else none
]

-- `s.strip_prefix(prefix)`
abbrev strip_prefix : Text → Text → Option Text
strip_prefix prefix s =
    if eq_text (take (length prefix) s) prefix then some (drop (length prefix) s) else none

abbrev or_else : {A : Type 0} → Option A → Option A → Option A
or_else (some a) o = some a
or_else none o = o

unfoldable pub parse_epsg : (Text → Text) → (Text → Option ℕ) → Text → Option Crs
unfolding from_epsg
parse_epsg trim parse_u32 raw =
    let s = trim raw in
    elim (or_else (strip_prefix (epsg ++ 58 ∷ []) s)
      (strip_prefix (to_ascii_lowercase epsg ++ 58 ∷ []) s)) [
        | none ↦ none
        | some rest ↦ elim (parse_u32 rest) [ none ↦ none | some code ↦ some (from_epsg code) ]
      ]
