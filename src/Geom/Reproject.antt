-- ===== src/Geom/Reproject.antt =====
-- crates/shpx-geom/src/reproject.rs. The proj library is a parameter: a handle `P` for two texts, and
-- what it makes of a point. The cache of handles only saves their construction. A batch is its
-- columns, of which one may be a BinaryArray; `try_new` is RecordBatch::try_new.
pub mod Moved
pub mod Kept
mod Runs
use shpx.Prelude.{
  Text, eq_text, ℕ, zero, suc, List, [], ◌∷◌, ◌++◌, Option, none, some, Bool, true, false, Result,
  ok, err, ◌==◌, if◌then◌else◌,
}
use shpx.Prelude.Outcome.{◌>>=◌}
use shpx.Core.Crs.{Crs, v2, epsg, epsg_code, parse_epsg}
use shpx.Shp.Names.{decimal}
use shpx.Geom.Types.{Coord, Geom, Fault}
use shpx.Geom.Walk.{Walked, try_for_each_coord_mut}
use shpx.Geom.Wkb.Encode.{encode}
use shpx.Geom.Wkb.Decode.{decode}

pub data Role : Type 0 where
  source target : Role

-- `D` are the errors of proj and arrow.
pub data ReprojectError (D : Type 0) : Type 0 where
  pipeline : D → ReprojectError D
  transform : D → ReprojectError D
  geometry : Fault → ReprojectError D
  no_spec : Role → ReprojectError D
  empty_target : ReprojectError D
  no_column : ℕ → ReprojectError D
  not_binary : ℕ → ReprojectError D
  batch_refused : D → ReprojectError D

pub record Reprojector : Type 0 where
  pub src_spec : Text
  pub dst_spec : Text

-- A column: a BinaryArray with its nulls, or any other.
pub data Column (C : Type 0) : Type 0 where
  binary : List (Option (List ℕ)) → Column C
  other : C → Column C

-- `format!("EPSG:{code}")` of a u32.
unfoldable pub epsg_spec : ℕ → Text
unfolding decimal
epsg_spec code = epsg ++ 58 ∷ decimal 10 code

module _ {D : Type 0} where
  unfoldable pub crs_to_proj_spec : Crs → Role → Result (ReprojectError D) Text
  unfolding epsg_code epsg_spec
  crs_to_proj_spec c role = elim (epsg_code c) [
    | some code ↦ ok (epsg_spec code)
    | none ↦ elim c.wkt [
      | some w ↦ ok w
      | none ↦ elim c.projjson [ some j ↦ ok j | none ↦ err (no_spec role) ]
    ]
  ]

  unfoldable pub parse_target_crs :
      (Text → Text) → (Text → Option ℕ) → Text → Result (ReprojectError D) Crs
  unfolding parse_epsg
  parse_target_crs trim parse_u32 raw = elim (trim raw) [
    | [] ↦ err empty_target
    | b ∷ rest ↦ elim (parse_epsg trim parse_u32 (b ∷ rest)) [
      | some c ↦ ok c
      | none ↦
          if b == 123
          then ok
              (record { authority = none; wkt = none; wkt_flavor = v2; projjson = some (b ∷ rest) })
          else ok
              (record { authority = none; wkt = some (b ∷ rest); wkt_flavor = v2; projjson = none })
    ]
  ]

  -- `wkb::decode(..)?` and `wkb::encode(..)?`
  abbrev pub of_fault : {A : Type 0} → Result Fault A → Result (ReprojectError D) A
  of_fault (ok a) = ok a
  of_fault (err e) = err (geometry e)

  module _ {P : Type 0} (new_known_crs : Text → Text → Result D P) where
    unfoldable pub with_proj :
        {A : Type 0} → Text → Text → (P → Result (ReprojectError D) A) → Result (ReprojectError D) A
    with_proj src_spec dst_spec f = elim (new_known_crs src_spec dst_spec) [
      | ok proj ↦ f proj
      | err e ↦ err (pipeline e)
    ]

    unfoldable pub new : Crs → Crs → Result (ReprojectError D) Reprojector
    unfolding crs_to_proj_spec with_proj
    new src dst = do
      src_spec ← crs_to_proj_spec src source
      dst_spec ← crs_to_proj_spec dst target
      checked ← with_proj src_spec dst_spec (λ proj. ok tt)
      ok (record { src_spec = src_spec; dst_spec = dst_spec })

  abbrev pub converted : Coord → Result D Coord → Walked Coord (Unit {0}) (ReprojectError D)
  converted c (ok c') = (c', tt, none)
  converted c (err e) = (c, tt, some (transform e))

  abbrev pub walk_result :
      Walked Geom (Unit {0}) (ReprojectError D) → Result (ReprojectError D) Geom
  walk_result (g, u, none) = ok g
  walk_result (g, u, some e) = err e

  module _ {P : Type 0} (convert : P → Coord → Result D Coord) where
    -- The closure of `transform_geom_with_proj`.
    unfoldable pub convert_coord : P → Coord → Unit {0} → Walked Coord (Unit {0}) (ReprojectError D)
    convert_coord proj c u = converted c (convert proj c)

    unfoldable pub transform_geom_with_proj : P → Geom → Result (ReprojectError D) Geom
    unfolding try_for_each_coord_mut convert_coord
    transform_geom_with_proj proj g = walk_result (try_for_each_coord_mut (convert_coord proj) g tt)

    -- One value of a column.
    unfoldable pub transform_value : P → List ℕ → Result (ReprojectError D) (List ℕ)
    unfolding decode encode transform_geom_with_proj
    transform_value proj bytes = do
      g ← of_fault (decode bytes)
      g' ← transform_geom_with_proj proj g
      of_fault (encode g')

    -- The loop over the rows.
    unfoldable pub transform_column :
        P → List (Option (List ℕ)) → Result (ReprojectError D) (List (Option (List ℕ)))
    unfolding transform_value
    transform_column proj [] = ok []
    transform_column proj (none ∷ rows) = do rest ← transform_column proj rows; ok (none ∷ rest)
    transform_column proj (some bytes ∷ rows) = do
      out ← transform_value proj bytes
      rest ← transform_column proj rows
      ok (some out ∷ rest)

unfoldable pub is_identity : Reprojector → Bool
is_identity r = eq_text r.src_spec r.dst_spec

abbrev column_at : {C : Type 0} → ℕ → List (Column C) → Option (Column C)
column_at i [] = none
column_at zero (c ∷ columns) = some c
column_at (suc i) (c ∷ columns) = column_at i columns

abbrev with_column : {C : Type 0} → ℕ → Column C → List (Column C) → List (Column C)
with_column i c [] = []
with_column zero c (c' ∷ columns) = c ∷ columns
with_column (suc i) c (c' ∷ columns) = c' ∷ with_column i c columns

module _ {D P C B : Type 0} (new_known_crs : Text → Text → Result D P)
    (convert : P → Coord → Result D Coord) (try_new : List (Column C) → Result D B) where
  abbrev made : Result D B → Result (ReprojectError D) B
  made (ok batch) = ok batch
  made (err e) = err (batch_refused e)

  -- `no_column` stands for the panic of `batch.column` on an index behind the last column.
  unfoldable pub transform_batch : Reprojector → List (Column C) → ℕ → Result (ReprojectError D) B
  unfolding with_proj transform_column
  transform_batch r columns geom_idx = elim (column_at geom_idx columns) [
    | none ↦ err (no_column geom_idx)
    | some (other c) ↦ err (not_binary geom_idx)
    | some (binary rows) ↦ with_proj new_known_crs r.src_spec r.dst_spec (λ proj. do
      out ← transform_column convert proj rows
      made (try_new (with_column geom_idx (binary out) columns)))
  ]
