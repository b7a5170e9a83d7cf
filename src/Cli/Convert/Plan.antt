-- ===== src/Cli/Convert/Plan.antt =====
-- `run`: what it finds out before it opens the output, and the output.
use shpx.Prelude.{
  Text, ℕ, List, [], ◌∷◌, Option, none, some, Bool, true, false, Result, ok, err, if◌then◌else◌,
}
use shpx.Prelude.Outcome.{◌>>=◌}
use shpx.Core.Crs.{Crs, parse_epsg}
use shpx.Core.Uri.{Uri, from_path}
use shpx.Core.Schema.{Schema, GeometryMeta, find_geometry_column, replace_geometry_crs}
use shpx.Cli.Driver.{
  Error, Action, Driver, LayerReader, ReadOpts, WriteOpts, invalid_src_crs, source_crs_required,
  bulk_unsupported,
}
use shpx.Cli.Registry.{select_driver, driver_not_found}
use shpx.Cli.Convert.{
  InsertModeArg, auto_mode, bulk_mode, batch_mode, ConvertArgs, BatchCounters, Batches, Tools,
  PipelineCtx,
}
use shpx.Cli.Convert.Paths.{run_bulk, run_batch}

-- `.ok_or_else(..)?`
abbrev pub ok_or : {E A : Type 0} → E → Option A → Result E A
ok_or e none = err e
ok_or e (some a) = ok a

abbrev pub or_else : {A : Type 0} → Option A → Option A → Option A
or_else (some a) o = some a
or_else none o = o

unfoldable pub build_write_opts : ConvertArgs → WriteOpts
build_write_opts args = record {
  encoding = args.encoding;
  on_loss = args.on_loss;
  overwrite = args.overwrite;
  batch_size_hint = args.batch_size;
  create_table = args.create_table;
  create_index = args.create_index;
}

unfoldable pub use_bulk : {D : Type 0} → Text → Bool → InsertModeArg → Result (Error D) Bool
use_bulk name bulk_supported auto_mode = ok bulk_supported
use_bulk name bulk_supported bulk_mode =
    if bulk_supported then ok true else err (bulk_unsupported name)
use_bulk name bulk_supported batch_mode = ok false

abbrev pub index_of : Option (ℕ × Text × GeometryMeta) → Option ℕ
index_of none = none
index_of (some (i, name, meta)) = some i

module _ {D B R : Type 0} (tools : Tools D B R) where
  unfoldable pub parse_src_crs : Option Text → Result (Error D) (Option Crs)
  unfolding parse_epsg
  parse_src_crs none = ok none
  parse_src_crs (some raw) = elim (parse_epsg tools.trim tools.parse_u32 raw) [
    | some crs ↦ ok (some crs)
    | none ↦ err (invalid_src_crs raw)
  ]

  unfoldable pub build_read_opts : ConvertArgs → Result (Error D) ReadOpts
  unfolding parse_src_crs
  build_read_opts args = do
    src_crs ← parse_src_crs args.src_crs
    ok (record {
      src_crs = src_crs;
      encoding = args.encoding;
      where_clause = args.where_clause;
      select = elim args.select [ [] ↦ none | column ∷ columns ↦ some args.select ];
      query = args.query;
    })

  -- `args.reproject.as_deref().map(parse_target_crs).transpose()?`
  unfoldable pub target_of : Option Text → Result (Error D) (Option Crs)
  target_of none = ok none
  target_of (some raw) = do crs ← tools.parse_target_crs raw; ok (some crs)

  unfoldable pub reprojector_of : Option Crs → Option Crs → Result (Error D) (Option R)
  reprojector_of src none = ok none
  reprojector_of none (some target) = err source_crs_required
  reprojector_of (some src) (some target) = do
    r ← tools.new_reprojector src target
    if tools.is_identity r then ok none else ok (some r)

  module _ {T : Type 0} where
    unfoldable pub writer_schema_of :
        Schema T → Option Crs → Option Crs → Result (Error D) (Schema T)
    unfolding replace_geometry_crs
    writer_schema_of schema none writer_crs = ok schema
    writer_schema_of schema (some target) writer_crs =
        replace_geometry_crs tools.from_json tools.to_json schema writer_crs

  module _ {S T : Type 0} where
    -- From the open reader on, until the output is opened.
    unfoldable pub plan_output :
        ConvertArgs
        → Driver S D T B (Batches D B)
        → Uri
        → Option Crs
        → LayerReader D T B
        → Result (Error D) (Bool × PipelineCtx S D T B R)
    unfolding reprojector_of writer_schema_of find_geometry_column use_bulk build_write_opts
    plan_output args dst_driver dst_uri target_crs reader = do
      reprojector ← reprojector_of reader.crs target_crs
      let writer_crs = or_else target_crs reader.crs
      writer_schema ← writer_schema_of reader.schema target_crs writer_crs
      found ← find_geometry_column tools.from_json reader.schema
      bulk ← use_bulk dst_driver.name dst_driver.capabilities.bulk_load args.insert_mode
      ok (
        bulk,
        record {
          dst_driver = dst_driver;
          dst_uri = dst_uri;
          writer_schema = writer_schema;
          writer_crs = writer_crs;
          write_opts = build_write_opts args;
          reader = reader;
          reprojector = reprojector;
          geom_idx = index_of found;
        },
      )

    unfoldable pub plan :
        List (Driver S D T B (Batches D B))
        → ConvertArgs
        → S
        → Result (Error D) (Bool × PipelineCtx S D T B R)
    unfolding from_path select_driver driver_not_found build_read_opts target_of plan_output
    plan drivers args s = do
      let src_uri = from_path tools.extension args.src
      let dst_uri = from_path tools.extension args.dst
      src_driver ← ok_or (driver_not_found src_uri) (select_driver drivers src_uri)
      dst_driver ← ok_or (driver_not_found dst_uri) (select_driver drivers dst_uri)
      read_opts ← build_read_opts args
      target_crs ← target_of args.reproject
      reader ← src_driver.open_read src_uri read_opts s
      plan_output args dst_driver dst_uri target_crs reader

    unfoldable pub run :
        List (Driver S D T B (Batches D B)) → ConvertArgs → Action S D BatchCounters
    unfolding plan run_bulk run_batch
    run drivers args s = elim (plan drivers args s) [
      | err e ↦ (err e, s)
      | ok planned ↦
          if planned.0 then run_bulk tools (planned.1) s else run_batch tools (planned.1) s
    ]
