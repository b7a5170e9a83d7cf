-- ===== src/Cli/Convert.antt =====
-- crates/shpx-cli/src/commands/convert.rs, and the arguments of cli.rs. The progress bar, the
-- warnings and the log lines have no effect on the conversion: `run` returns the counters that the
-- last log line shows. The enums of cli.rs that map 1:1 onto those of the options are these.
pub mod Plan
pub mod Paths
pub mod Planned
pub mod Bulk
pub mod Batch
mod Runs
use shpx.Prelude.{Text, ℕ, List, Option, Bool, Result}
use shpx.Core.Crs.{Crs}
use shpx.Core.Schema.{Schema, GeometryMeta}
use shpx.Shp.Loss.{OnLoss}
use shpx.Rdb.Table.{CreateTable}
use shpx.Core.Uri.{Uri}
use shpx.Cli.Driver.{CreateIndex, WriteOpts, LayerReader, Driver, Error}

pub data InsertModeArg : Type 0 where
  auto_mode bulk_mode batch_mode : InsertModeArg

pub record ConvertArgs : Type 0 where
  pub src : Text
  pub dst : Text
  pub overwrite : Bool
  pub create_table : CreateTable
  pub create_index : CreateIndex
  pub on_loss : OnLoss
  pub encoding : Option Text
  pub batch_size : Option ℕ
  pub src_crs : Option Text
  pub reproject : Option Text
  pub insert_mode : InsertModeArg
  pub where_clause : Option Text
  pub select : List Text
  pub query : Option Text

pub record BatchCounters : Type 0 where
  pub rows : ℕ
  pub batches : ℕ

-- The iterator over the reader's batches that the bulk path passes on, with what its closure counts.
pub record Batches (D B : Type 0) : Type 0 where
  pub left : List (Result (Error D) B)
  pub counters : BatchCounters

-- What `run` calls in other crates: paths and numbers of std, the JSON of serde, record batches of
-- Arrow, and `parse_target_crs` and `Reprojector` of shpx-geom.
pub record Tools (D B R : Type 0) : Type 0 where
  pub extension : Text → Option Text
  pub trim : Text → Text
  pub parse_u32 : Text → Option ℕ
  pub from_json : Text → Result (Error D) GeometryMeta
  pub to_json : GeometryMeta → Result (Error D) Text
  pub num_rows : B → ℕ
  pub parse_target_crs : Text → Result (Error D) Crs
  pub new_reprojector : Crs → Crs → Result (Error D) R
  pub is_identity : R → Bool
  pub transform_batch : R → B → ℕ → Result (Error D) B

pub record PipelineCtx (S D T B R : Type 0) : Type 0 where
  pub dst_driver : Driver S D T B (Batches D B)
  pub dst_uri : Uri
  pub writer_schema : Schema T
  pub writer_crs : Option Crs
  pub write_opts : WriteOpts
  pub reader : LayerReader D T B
  pub reprojector : Option R
  pub geom_idx : Option ℕ
