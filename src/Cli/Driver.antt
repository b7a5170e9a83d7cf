-- ===== src/Cli/Driver.antt =====
-- crates/shpx-core/src/driver.rs, capabilities.rs and the options of opts.rs. A driver reads and
-- changes a store of the type `S`, the files and databases, in which a writer keeps its state too.
-- The batches of a reader are fixed when it is opened. `D` are the errors of the crates below,
-- `T` the types of columns, `B` the record batches and `I` the state of an iterator over them.
use shpx.Prelude.{Text, ℕ, List, Option, Bool, Result}
use shpx.Core.Uri.{Uri}
use shpx.Core.Crs.{Crs}
use shpx.Core.Schema.{Schema}
use shpx.Shp.Loss.{OnLoss}
use shpx.Rdb.Table.{CreateTable}

pub data Error (D : Type 0) : Type 0 where
  raised : D → Error D
  no_extension : Text → Error D
  no_driver : Text → Error D
  invalid_src_crs : Text → Error D
  source_crs_required : Error D
  bulk_unsupported : Text → Error D
  bulk_missing : Text → Error D

pub data StringEncoding : Type 0 where
  fixed : Text → StringEncoding
  configurable : List Text → StringEncoding

pub record Capabilities : Type 0 where
  pub read : Bool
  pub write : Bool
  pub random_access : Bool
  pub bulk_load : Bool
  pub supports_blob : Bool
  pub supports_decimal : Bool
  pub supports_timestamp_tz : Bool
  pub string_encoding : StringEncoding
  pub max_decimal_precision : Option ℕ

pub data CreateIndex : Type 0 where
  index_auto index_always index_never : CreateIndex

pub record ReadOpts : Type 0 where
  pub src_crs : Option Crs
  pub encoding : Option Text
  pub where_clause : Option Text
  pub select : Option (List Text)
  pub query : Option Text

pub record WriteOpts : Type 0 where
  pub encoding : Option Text
  pub on_loss : OnLoss
  pub overwrite : Bool
  pub batch_size_hint : Option ℕ
  pub create_table : CreateTable
  pub create_index : CreateIndex

-- A call that changes the store.
abbrev pub Action : Type 0 → Type 0 → Type 0 → Type 0
Action S D A = S → Result (Error D) A × S

pub record LayerReader (D T B : Type 0) : Type 0 where
  pub schema : Schema T
  pub crs : Option Crs
  pub row_count_hint : Option ℕ
  pub batches : List (Result (Error D) B)

pub record LayerWriter (S D B : Type 0) : Type 0 where
  pub write_batch : B → Action S D (Unit {0})
  pub finish : Action S D (Unit {0})

-- `&mut dyn Iterator<Item = Result<RecordBatch>>`: what `next` gives, and the state after it.
abbrev pub Next : Type 0 → Type 0 → Type 0 → Type 0
Next I D B = I → Option (Result (Error D) B) × I

pub record BulkLoadWriter (S D B I : Type 0) : Type 0 where
  pub layer : LayerWriter S D B
  pub bulk_write : Next I D B → I → S → Result (Error D) (Unit {0}) × I × S

pub record Driver (S D T B I : Type 0) : Type 0 where
  pub name : Text
  pub supported_schemes : List Text
  pub capabilities : Capabilities
  pub open_read : Uri → ReadOpts → S → Result (Error D) (LayerReader D T B)
  pub open_write : Uri → Schema T → Option Crs → WriteOpts → Action S D (LayerWriter S D B)
  pub open_bulk_write :
      Uri → Schema T → Option Crs → WriteOpts → Action S D (Option (BulkLoadWriter S D B I))
