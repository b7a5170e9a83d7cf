-- ===== src/Rdb/Crs/Runs.antt =====
-- Concrete reference systems and queries.
use shpx.Prelude.{◌^◌, ◌≡◌, refl, [], ◌∷◌, some, ok, err}
use shpx.Core.Crs.{from_epsg}
use shpx.Rdb.Crs.{resolve_epsg_srid, validate_user_query, code_too_large, query_semicolon}

resolve_wgs84 : resolve_epsg_srid (some (from_epsg 4326)) ≡ ok (some 4326)
unfolding resolve_epsg_srid from_epsg
resolve_wgs84 = refl

resolve_too_large : resolve_epsg_srid (some (from_epsg (2 ^ 31))) ≡ err (code_too_large (2 ^ 31))
unfolding resolve_epsg_srid from_epsg
resolve_too_large = refl

two_statements : validate_user_query (λ s. s) (97 ∷ 59 ∷ 98 ∷ []) ≡ err query_semicolon
unfolding validate_user_query
two_statements = refl
