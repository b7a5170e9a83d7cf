-- ===== src/Cli/Convert/Planned.antt =====
-- What `run` has found out when it opens the output.
use shpx.Prelude.{
  Text, ℕ, ◌≡◌, refl, subst, List, Option, none, some, Bool, true, false, Result, ok, if◌then◌else◌,
  Ensures-ok,
}
use shpx.Prelude.Outcome.{>>=-eq-ok}
use shpx.Core.Crs.{Crs}
use shpx.Core.Uri.{Uri, from_path}
use shpx.Core.Schema.{Schema, GeometryMeta, find_geometry_column}
use shpx.Core.Schema.Replaced.{replace_geometry_crs-Ensures}
use shpx.Cli.Driver.{Error, Driver, LayerReader, ReadOpts}
use shpx.Cli.Registry.{select_driver, driver_not_found}
use shpx.Cli.Convert.{
  InsertModeArg, auto_mode, bulk_mode, batch_mode, ConvertArgs, Batches, Tools, PipelineCtx,
}
use shpx.Cli.Convert.Plan.{
  ok_or, or_else, use_bulk, build_read_opts, target_of, reprojector_of, writer_schema_of,
  plan_output, plan,
}

-- The path follows `--insert-mode`, and is the bulk path only for a driver that supports it.
abbrev pub FollowsMode : InsertModeArg → Bool → Bool → Type 0
FollowsMode auto_mode supported bulk = bulk ≡ supported
FollowsMode bulk_mode supported bulk = (supported ≡ true) × (bulk ≡ true)
FollowsMode batch_mode supported bulk = bulk ≡ false

use_bulk-FollowsMode :
    {D : Type 0} (name : Text) (supported : Bool) (mode : InsertModeArg) (bulk : Bool)
    → use_bulk {D = D} name supported mode ≡ ok bulk
    → FollowsMode mode supported bulk
unfolding use_bulk
use_bulk-FollowsMode name supported auto_mode bulk e = cc
use_bulk-FollowsMode name true bulk_mode bulk e = (refl, cc)
use_bulk-FollowsMode name false bulk_mode bulk e = cc
use_bulk-FollowsMode name supported batch_mode bulk e = cc

ok_or-eq-ok : {D A : Type 0} (e : Error D) (o : Option A) (a : A) → ok_or e o ≡ ok a → o ≡ some a
ok_or-eq-ok e none a h = cc
ok_or-eq-ok e (some b) a h = cc

module _ {D B R : Type 0} (tools : Tools D B R) where
  -- A Reprojector is made from the source to the target, and left out where it is the identity.
  abbrev pub Reprojects : Crs → Crs → Option R → Type 0
  Reprojects src target none =
      (r : R) × (tools.new_reprojector src target ≡ ok r) × (tools.is_identity r ≡ true)
  Reprojects src target (some r) =
      (tools.new_reprojector src target ≡ ok r) × (tools.is_identity r ≡ false)

  module _ {T : Type 0} where
    abbrev HasTarget : Crs → Schema T → Schema T → Type 0
    HasTarget target schema schema' =
        (i : ℕ) (name : Text) (meta : GeometryMeta)
        → find_geometry_column tools.from_json schema ≡ ok (some (i, name, meta))
        → find_geometry_column tools.from_json schema'
          ≡ ok (some (i, name, record meta { crs = some target }))

    -- Without `--reproject` the output has the reader's CRS and schema. With it, the output's CRS and
    -- that of the geometry column in its schema are the target, and the reader has a CRS.
    abbrev pub Tagged : Option Crs → LayerReader D T B → Option Crs → Schema T → Option R → Type 0
    Tagged none reader crs schema r = (crs ≡ reader.crs) × (schema ≡ reader.schema) × (r ≡ none)
    Tagged (some target) reader crs schema r =
        (crs ≡ some target)
        × HasTarget target reader.schema schema
        × ((src : Crs) × (reader.crs ≡ some src) × Reprojects src target r)

  -- What serde reads of what it wrote.
  abbrev pub JsonBack : Type 0
  JsonBack = (m : GeometryMeta) (t : Text) → tools.to_json m ≡ ok t → tools.from_json t ≡ ok m

  reprojector_made :
      (src target : Crs) (r : R) (b : Bool) (o : Option R)
      → tools.is_identity r ≡ b
      → tools.new_reprojector src target ≡ ok r
      → (let made : Result (Error D) (Option R) = (if b then ok none else ok (some r)) in made)
        ≡ ok o
      → Reprojects src target o
  reprojector_made src target r true o i n e =
      subst (Reprojects src target) (let same : none ≡ o = cc in same) (r, n, i)
  reprojector_made src target r false o i n e =
      subst (Reprojects src target) (let same : some r ≡ o = cc in same) (n, i)

  module _ {T : Type 0} (json_back : JsonBack) where
    output-Tagged :
        (target : Option Crs) (reader : LayerReader D T B) (schema : Schema T) (r : Option R)
        → reprojector_of tools reader.crs target ≡ ok r
        → writer_schema_of tools reader.schema target (or_else target reader.crs) ≡ ok schema
        → Tagged target reader (or_else target reader.crs) schema r
    unfolding reprojector_of writer_schema_of
    output-Tagged none reader schema r e h =
        (refl, (let same : schema ≡ reader.schema = cc in same), (let same : r ≡ none = cc in same))
    output-Tagged (some target) reader schema r e h = (
      refl,
      (λ i name meta found.
          (Ensures-ok
            (replace_geometry_crs-Ensures tools.from_json tools.to_json json_back reader.schema
              (some target) i name meta found)
            h).0),
      of_source reader.crs refl e,
    )
      where
        of_source :
            (src : Option Crs)
            → reader.crs ≡ src
            → reprojector_of tools src (some target) ≡ ok r
            → (src' : Crs) × (reader.crs ≡ some src') × Reprojects src' target r
        of_source none at e = cc
        of_source (some src) at e =
            let (made, n, e') = >>=-eq-ok (tools.new_reprojector src target) _ e in
            (src, at, reprojector_made src target made (tools.is_identity made) r refl n e')

  module _ {S T : Type 0} where
    -- The drivers of the paths, the reader that the source's driver opened, and the output for it.
    abbrev pub IsOutput :
        ConvertArgs
        → Driver S D T B (Batches D B)
        → Uri
        → Option Crs
        → LayerReader D T B
        → Bool × PipelineCtx S D T B R
        → Type 0
    IsOutput args dst_driver dst_uri target reader (bulk, ctx) =
        (ctx.dst_driver ≡ dst_driver)
        × (ctx.dst_uri ≡ dst_uri)
        × (ctx.reader ≡ reader)
        × FollowsMode args.insert_mode dst_driver.capabilities.bulk_load bulk
        × Tagged target reader ctx.writer_crs ctx.writer_schema ctx.reprojector

    abbrev pub IsPlanned :
        List (Driver S D T B (Batches D B))
        → ConvertArgs
        → S
        → Bool × PipelineCtx S D T B R
        → Type 0
    IsPlanned drivers args s planned =
        (src_driver : Driver S D T B (Batches D B)) × (dst_driver : Driver S D T B (Batches D B))
        × (read_opts : ReadOpts) × (target : Option Crs) × (reader : LayerReader D T B)
        × (select_driver drivers (from_path tools.extension args.src) ≡ some src_driver)
        × (select_driver drivers (from_path tools.extension args.dst) ≡ some dst_driver)
        × (target_of tools args.reproject ≡ ok target)
        × (src_driver.open_read (from_path tools.extension args.src) read_opts s ≡ ok reader)
        × IsOutput args dst_driver (from_path tools.extension args.dst) target reader planned

    plan_output-IsOutput :
        JsonBack
        → (args : ConvertArgs) (dst_driver : Driver S D T B (Batches D B)) (dst_uri : Uri)
          (target : Option Crs) (reader : LayerReader D T B)
          (planned : Bool × PipelineCtx S D T B R)
        → plan_output tools args dst_driver dst_uri target reader ≡ ok planned
        → IsOutput args dst_driver dst_uri target reader planned
    unfolding plan_output
    plan_output-IsOutput json_back args dst_driver dst_uri target reader planned h =
        let (r, e1, h1) = >>=-eq-ok (reprojector_of tools reader.crs target) _ h in
        let (schema, e2, h2) =
          >>=-eq-ok (writer_schema_of tools reader.schema target (or_else target reader.crs)) _
            h1 in
        let (found, e3, h3) = >>=-eq-ok (find_geometry_column tools.from_json reader.schema) _ h2 in
        let (bulk, e4, h4) =
          >>=-eq-ok (use_bulk dst_driver.name dst_driver.capabilities.bulk_load args.insert_mode) _
            h3 in
        subst (IsOutput args dst_driver dst_uri target reader) (value h4) (
          refl,
          refl,
          refl,
          use_bulk-FollowsMode dst_driver.name dst_driver.capabilities.bulk_load args.insert_mode
              bulk e4,
          output-Tagged json_back target reader schema r e1 e2,
        )
      where
        value :
            {p q : Bool × PipelineCtx S D T B R}
            → (let r : Result (Error D) (Bool × PipelineCtx S D T B R) = ok p in r) ≡ ok q
            → p ≡ q
        value e = cc

    -- Where from_json takes back what to_json writes: when run opens its output, the drivers are those
    -- of the two paths, the source's driver has opened the reader, the path follows --insert-mode and is
    -- the bulk path only for a driver with bulk_load, and the output is `Tagged`.
    pub plan-IsPlanned :
        JsonBack
        → (drivers : List (Driver S D T B (Batches D B))) (args : ConvertArgs) (s : S)
          (planned : Bool × PipelineCtx S D T B R)
        → plan tools drivers args s ≡ ok planned
        → IsPlanned drivers args s planned
    unfolding plan
    plan-IsPlanned json_back drivers args s planned h =
        let (src_driver, e1, h1) =
          >>=-eq-ok (ok_or (driver_not_found src_uri) (select_driver drivers src_uri)) _ h in
        let (dst_driver, e2, h2) =
          >>=-eq-ok (ok_or (driver_not_found dst_uri) (select_driver drivers dst_uri)) _ h1 in
        let (read_opts, e3, h3) = >>=-eq-ok (build_read_opts tools args) _ h2 in
        let (target, e4, h4) = >>=-eq-ok (target_of tools args.reproject) _ h3 in
        let (reader, e5, h5) = >>=-eq-ok (src_driver.open_read src_uri read_opts s) _ h4 in
        (
          src_driver,
          dst_driver,
          read_opts,
          target,
          reader,
          ok_or-eq-ok _ _ src_driver e1,
          ok_or-eq-ok _ _ dst_driver e2,
          e4,
          e5,
          plan_output-IsOutput json_back args dst_driver dst_uri target reader planned h5,
        )
      where
        src_uri : Uri
        src_uri = from_path tools.extension args.src

        dst_uri : Uri
        dst_uri = from_path tools.extension args.dst
