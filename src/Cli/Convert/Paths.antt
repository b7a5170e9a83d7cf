-- ===== src/Cli/Convert/Paths.antt =====
-- `run_bulk` and `run_batch`: the two ways to the output.
use shpx.Prelude.{ℕ, ◌+◌, ◌%◌, ◌^◌, List, [], ◌∷◌, Option, none, some, Result, ok, err}
use shpx.Prelude.Outcome.{◌>>=◌}
use shpx.Cli.Driver.{Error, Action, LayerWriter, BulkLoadWriter, Next, bulk_missing}
use shpx.Cli.Convert.{BatchCounters, Batches, Tools, PipelineCtx}

-- `?` on a call that changes the store.
abbrev pub then :
    {S D A B : Type 0} → Result (Error D) A × S → (A → Action S D B) → Result (Error D) B × S
then (ok a, s) f = f a s
then (err e, s) f = (err e, s)

abbrev pub counters_zero : BatchCounters
counters_zero = record { rows = 0; batches = 0 }

-- The end of the bulk path behind the load.
unfoldable pub finish_bulk :
    {S D B : Type 0}
    → BulkLoadWriter S D B (Batches D B)
    → Result (Error D) (Unit {0}) × Batches D B × S
    → Result (Error D) BatchCounters × S
finish_bulk bulk (ok u, it, s) = then (bulk.layer.finish s) (λ u' s'. (ok it.counters, s'))
finish_bulk bulk (err e, it, s) = (err e, s)

module _ {D B R : Type 0} (tools : Tools D B R) where
  -- `counters.rows += ..; counters.batches += 1` on a u64.
  unfoldable pub count : B → BatchCounters → BatchCounters
  count batch c = record {
    rows = (c.rows + tools.num_rows batch) % 2 ^ 64;
    batches = (c.batches + 1) % 2 ^ 64;
  }

  unfoldable pub transformed : Option R → Option ℕ → B → Result (Error D) B
  transformed (some r) (some gi) batch = tools.transform_batch r batch gi
  transformed (some r) none batch = ok batch
  transformed none gi batch = ok batch

  unfoldable pub yielded :
      List (Result (Error D) B)
      → BatchCounters
      → Result (Error D) B
      → Option (Result (Error D) B) × Batches D B
  unfolding count
  yielded left c (ok batch) = (some (ok batch), record { left = left; counters = count batch c })
  yielded left c (err e) = (some (err e), record { left = left; counters = c })

  module _ {S : Type 0} where
    -- One round of the loop, with what the rounds behind it do.
    unfoldable pub write_one :
        LayerWriter S D B
        → (BatchCounters → Action S D BatchCounters)
        → Result (Error D) B
        → BatchCounters
        → Action S D BatchCounters
    unfolding count
    write_one w rest (ok batch) c s = then (w.write_batch batch s) (λ u s'. rest (count batch c) s')
    write_one w rest (err e) c s = (err e, s)

  module _ {S T : Type 0} where
    -- The batch that the loop or the closure takes from the reader, transformed.
    unfoldable pub prepared : PipelineCtx S D T B R → Result (Error D) B → Result (Error D) B
    unfolding transformed
    prepared ctx next = next >>= transformed ctx.reprojector ctx.geom_idx

    next_of :
        PipelineCtx S D T B R
        → List (Result (Error D) B)
        → BatchCounters
        → Option (Result (Error D) B) × Batches D B
    unfolding yielded prepared
    next_of ctx [] c = (none, record { left = []; counters = c })
    next_of ctx (next ∷ left) c = yielded left c (prepared ctx next)

    -- `next` of `reader.batches().map(..)`.
    unfoldable pub next_batch : PipelineCtx S D T B R → Next (Batches D B) D B
    unfolding next_of
    next_batch ctx it = next_of ctx it.left it.counters

    unfoldable pub load :
        PipelineCtx S D T B R
        → Option (BulkLoadWriter S D B (Batches D B))
        → Action S D BatchCounters
    unfolding next_batch finish_bulk
    load ctx none s = (err (bulk_missing (ctx.dst_driver.name)), s)
    load ctx (some bulk) s = finish_bulk bulk (
        bulk.bulk_write (next_batch ctx)
          (record { left = ctx.reader.batches; counters = counters_zero }) s)

    unfoldable pub run_bulk : PipelineCtx S D T B R → Action S D BatchCounters
    unfolding load
    run_bulk ctx s =
        then
          (ctx.dst_driver.open_bulk_write ctx.dst_uri ctx.writer_schema ctx.writer_crs
            ctx.write_opts s)
          (load ctx)

    unfoldable pub write_batches :
        PipelineCtx S D T B R
        → LayerWriter S D B
        → List (Result (Error D) B)
        → BatchCounters
        → Action S D BatchCounters
    unfolding write_one prepared
    write_batches ctx w [] c s = (ok c, s)
    write_batches ctx w (next ∷ left) c s =
        write_one w (write_batches ctx w left) (prepared ctx next) c s

    unfoldable pub write_all : PipelineCtx S D T B R → LayerWriter S D B → Action S D BatchCounters
    unfolding write_batches
    write_all ctx w s =
        then (write_batches ctx w ctx.reader.batches counters_zero s)
          (λ c s'. then (w.finish s') (λ u s''. (ok c, s'')))

    unfoldable pub run_batch : PipelineCtx S D T B R → Action S D BatchCounters
    unfolding write_all
    run_batch ctx s =
        then
          (ctx.dst_driver.open_write ctx.dst_uri ctx.writer_schema ctx.writer_crs ctx.write_opts s)
          (write_all ctx)
