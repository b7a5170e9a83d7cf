-- ===== src/Cli/Convert/Runs.antt =====
-- A conversion between two files of one driver. A batch of these runs is the number of its rows, and
-- the store the list of what was written, the last first.
use shpx.Prelude.{
  ℕ, zero, suc, ◌+◌, ◌≡◌, refl, List, [], ◌∷◌, Option, none, some, Bool, true, false, Result, ok,
  err, drop, length,
}
use shpx.Shp.Loss.{OnLoss}
use shpx.Shp.Loss as Loss
use shpx.Rdb.Table.{if_not_exists}
use shpx.Core.Schema.Runs.{wkt_crs, from_json, to_json, json_back, places, places_in}
use shpx.Cli.Driver.{
  Error, raised, Driver, Capabilities, fixed, index_auto, LayerReader, LayerWriter, BulkLoadWriter,
  Next,
}
use shpx.Cli.Convert.{ConvertArgs, auto_mode, Batches, Tools, PipelineCtx}
use shpx.Cli.Convert.Plan.{build_write_opts, plan, run}
use shpx.Cli.Convert.Paths.{then, counters_zero, run_batch, run_bulk, prepared, next_batch}
use shpx.Cli.Convert.Batch.{writes, totals_from, prepare_all, run_batch-writes}
use shpx.Cli.Convert.Bulk.{Pulls, ends, gives, unread, WritesEach, run_bulk-run_batch}
use shpx.Cli.Convert.Planned.{IsPlanned, plan-IsPlanned}

abbrev E : Type 0
E = Error (Unit {0})

abbrev Store : Type 0
Store = List ℕ

abbrev Iter : Type 0
Iter = Batches (Unit {0}) ℕ

abbrev writer : LayerWriter Store (Unit {0}) ℕ
writer = record { write_batch = λ b s. (ok tt, b ∷ s); finish = λ s. (ok tt, 0 ∷ s) }

abbrev Load : Type 0
Load = Iter → Store → Result E (Unit {0}) × Iter × Store

-- The loop of a bulk writer, of which some rounds are left.
abbrev drain_one : Load → Option (Result E ℕ) × Iter → Store → Result E (Unit {0}) × Iter × Store
drain_one rest (none, it) s = (ok tt, it, s)
drain_one rest (some (ok b), it) s = rest it (b ∷ s)
drain_one rest (some (err e), it) s = (err e, it, s)

abbrev drain : Next Iter (Unit {0}) ℕ → ℕ → Load
drain next zero it s = (err (raised tt), it, s)
drain next (suc n) it s = drain_one (drain next n) (next it) s

abbrev bulk : BulkLoadWriter Store (Unit {0}) ℕ Iter
bulk = record { layer = writer; bulk_write = λ next it s. drain next (suc (length it.left)) it s }

abbrev table : Capabilities
table = record {
  read = true;
  write = true;
  random_access = false;
  bulk_load = true;
  supports_blob = true;
  supports_decimal = true;
  supports_timestamp_tz = true;
  string_encoding = fixed [];
  max_decimal_precision = none;
}

abbrev FileDriver : Type 0
FileDriver = Driver Store (Unit {0}) (Unit {0}) ℕ Iter

abbrev reader : LayerReader (Unit {0}) (Unit {0}) ℕ
reader = record {
  schema = places;
  crs = some (wkt_crs (7 ∷ []));
  row_count_hint = none;
  batches = ok 3 ∷ ok 4 ∷ [];
}

-- The driver of the scheme x.
abbrev file_driver : FileDriver
file_driver = record {
  name = 120 ∷ [];
  supported_schemes = (120 ∷ []) ∷ [];
  capabilities = table;
  open_read = λ uri opts s. ok reader;
  open_write = λ uri schema crs opts s. (ok writer, s);
  open_bulk_write = λ uri schema crs opts s. (ok (some bulk), s);
}

-- A Reprojector adds 100 rows.
abbrev tools : Tools (Unit {0}) ℕ ℕ
tools = record {
  extension = λ path. some (drop 2 path);
  trim = λ t. t;
  parse_u32 = λ t. none;
  from_json = from_json (raised tt);
  to_json = to_json (raised tt);
  num_rows = λ b. b;
  parse_target_crs = λ t. ok (wkt_crs t);
  new_reprojector = λ src target. ok 100;
  is_identity = λ r. false;
  transform_batch = λ r b i. ok (r + b);
}

-- `convert a.x b.x --reproject 8`
abbrev args : ConvertArgs
args = record {
  src = 97 ∷ 46 ∷ 120 ∷ [];
  dst = 98 ∷ 46 ∷ 120 ∷ [];
  overwrite = false;
  create_table = if_not_exists;
  create_index = index_auto;
  on_loss = Loss.error;
  encoding = none;
  batch_size = none;
  src_crs = none;
  reproject = some (8 ∷ []);
  insert_mode = auto_mode;
  where_clause = none;
  select = [];
  query = none;
}

abbrev ctx : PipelineCtx Store (Unit {0}) (Unit {0}) ℕ ℕ
ctx = record {
  dst_driver = file_driver;
  dst_uri = record { scheme = 120 ∷ []; raw = 98 ∷ 46 ∷ 120 ∷ [] };
  writer_schema = places;
  writer_crs = some (wkt_crs (8 ∷ []));
  write_opts = build_write_opts args;
  reader = reader;
  reprojector = some 100;
  geom_idx = some 1;
}

both_prepared : prepare_all tools ctx ctx.reader.batches ≡ ok (103 ∷ 104 ∷ [])
unfolding prepared
both_prepared = refl

batch_run : run_batch tools ctx [] ≡ (ok (record { rows = 207; batches = 2 }), 0 ∷ 104 ∷ 103 ∷ [])
unfolding run_batch
batch_run = refl

run_batch-writes_example :
    run_batch tools ctx []
    ≡ then
        (ctx.dst_driver.open_write ctx.dst_uri ctx.writer_schema ctx.writer_crs ctx.write_opts [])
        (λ w s1. then (writes w (103 ∷ 104 ∷ []) s1) (λ u s2.
          then
            (w.finish s2)
            (λ u' s3. (ok (totals_from tools counters_zero (103 ∷ 104 ∷ [])), s3))))
run_batch-writes_example = run_batch-writes tools ctx (103 ∷ 104 ∷ []) both_prepared []

pulled :
    Pulls
      (next_batch tools ctx)
      (unread tools ctx)
      (103 ∷ 104 ∷ [])
      (record { left = []; counters = record { rows = 207; batches = 2 } })
unfolding next_batch
pulled = gives refl (gives refl (ends refl))

bulk_loaded :
    bulk.bulk_write (next_batch tools ctx) (unread tools ctx) []
    ≡ (ok tt, record { left = []; counters = record { rows = 207; batches = 2 } }, 104 ∷ 103 ∷ [])
unfolding next_batch
bulk_loaded = refl

run_bulk-run_batch_example :
    (run_bulk tools ctx [] ≡ (ok (record { rows = 207; batches = 2 }), 0 ∷ 104 ∷ 103 ∷ []))
    × WritesEach tools ctx (103 ∷ 104 ∷ []) [] (0 ∷ 104 ∷ 103 ∷ [])
run_bulk-run_batch_example =
    run_bulk-run_batch tools ctx [] (0 ∷ 104 ∷ 103 ∷ []) (record { rows = 207; batches = 2 })
      batch_run bulk [] (104 ∷ 103 ∷ []) (0 ∷ 104 ∷ 103 ∷ []) (103 ∷ 104 ∷ [])
      (record { left = []; counters = record { rows = 207; batches = 2 } }) refl bulk_loaded pulled
      refl

-- What the output is opened with: its schema has the target too.
abbrev planned : Bool × PipelineCtx Store (Unit {0}) (Unit {0}) ℕ ℕ
planned = (true, record ctx { writer_schema = places_in (8 ∷ []) })

conversion_planned : plan tools (file_driver ∷ []) args [] ≡ ok planned
unfolding plan
conversion_planned = refl

plan-IsPlanned_example : IsPlanned tools (file_driver ∷ []) args [] planned
plan-IsPlanned_example =
    plan-IsPlanned tools (json_back (raised tt)) (file_driver ∷ []) args [] planned
      conversion_planned

converted :
    run tools (file_driver ∷ []) args []
    ≡ (ok (record { rows = 207; batches = 2 }), 0 ∷ 104 ∷ 103 ∷ [])
unfolding run
converted = refl
