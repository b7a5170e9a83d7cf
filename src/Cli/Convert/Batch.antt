-- ===== src/Cli/Convert/Batch.antt =====
-- What the row-wise path writes.
use shpx.Prelude.{
  ℕ, suc, ◌+◌, ◌%◌, ◌^◌, ◌≡◌, ◌≢◌, refl, sym, ap, ◌∙◌, subst, arith, List, [], ◌∷◌, Result, ok, err,
  length,
}
use shpx.Prelude.Outcome.{◌>>=◌, >>=-eq-ok}
use shpx.Cli.Driver.{Error, Action, LayerWriter}
use shpx.Cli.Convert.{BatchCounters, Tools, PipelineCtx}
use shpx.Cli.Convert.Paths.{
  then, counters_zero, count, prepared, write_one, write_batches, write_all, run_batch,
}

-- The batches are written one after the other, until the first error.
unfoldable pub writes : {S D B : Type 0} → LayerWriter S D B → List B → Action S D (Unit {0})
writes w [] s = (ok tt, s)
writes w (b ∷ bs) s = then (w.write_batch b s) (λ u s'. writes w bs s')

pub err-ne-ok :
    {S D A : Type 0} (x : Error D) (s s' : S) (a : A)
    → (let r : Result (Error D) A × S = (err x, s) in r) ≢ (ok a, s')
err-ne-ok {D} {A} x s s' a e = different (ap (λ q. q.0) e)
  where
    different : (let r : Result (Error D) A = err x in r) ≢ ok a
    different e = cc

-- A chain that succeeds: so did its first part.
pub then-eq-ok :
    {S D A B : Type 0} (r : Result (Error D) A × S) (f : A → Action S D B) {b : B} {s' : S}
    → then r f ≡ (ok b, s')
    → (a : A) × (s : S) × (r ≡ (ok a, s)) × (f a s ≡ (ok b, s'))
then-eq-ok (ok a, s) f e = (a, s, refl, e)
then-eq-ok (err x, s) f {b} {s'} e = absurd (err-ne-ok x s s' b e)

then_ext :
    {S D A B : Type 0} (r : Result (Error D) A × S) (f g : A → Action S D B)
    → ((a : A) (s : S) → f a s ≡ g a s)
    → then r f ≡ then r g
then_ext (ok a, s) f g h = h a s
then_ext (err x, s) f g h = refl

then_assoc :
    {S D A B C : Type 0} (r : Result (Error D) A × S) (f : A → Action S D B) (g : B → Action S D C)
    → then (then r f) g ≡ then r (λ a s. then (f a s) g)
then_assoc (ok a, s) f g = refl
then_assoc (err x, s) f g = refl

module _ {D B R : Type 0} (tools : Tools D B R) where
  abbrev sum_rows : List B → ℕ
  sum_rows [] = 0
  sum_rows (b ∷ bs) = tools.num_rows b + sum_rows bs

  -- The number of the batches and of their rows, as u64.
  abbrev pub totals_from : BatchCounters → List B → BatchCounters
  totals_from c bs = record {
    rows = (c.rows + sum_rows bs) % 2 ^ 64;
    batches = (c.batches + length bs) % 2 ^ 64;
  }

  wrap_twice : (c a n : ℕ) → ((c + a) % 2 ^ 64 + n) % 2 ^ 64 ≡ (c + (a + n)) % 2 ^ 64
  wrap_twice c a n = omega arith

  totals_from-count :
      (c : BatchCounters) (b : B) (bs : List B)
      → totals_from (count tools b c) bs ≡ totals_from c (b ∷ bs)
  unfolding count
  totals_from-count c b bs =
      ap (λ r. record { rows = r; batches = ((c.batches + 1) % 2 ^ 64 + length bs) % 2 ^ 64 })
        (wrap_twice c.rows (tools.num_rows b) (sum_rows bs))
      ∙ ap (λ n. record { rows = (c.rows + sum_rows (b ∷ bs)) % 2 ^ 64; batches = n })
          (wrap_twice c.batches 1 (length bs)
            ∙ ap (λ n. (c.batches + n) % 2 ^ 64)
                (let e : 1 + length bs ≡ suc (length bs) = omega arith in e))

  count-totals_from :
      (c : BatchCounters) (b : B)
      → count tools b (totals_from c []) ≡ totals_from (count tools b c) []
  unfolding count
  count-totals_from c b =
      ap (λ r. record { rows = r; batches = ((c.batches + 0) % 2 ^ 64 + 1) % 2 ^ 64 })
        (let e : ((c.rows + 0) % 2 ^ 64 + tools.num_rows b) % 2 ^ 64
              ≡ ((c.rows + tools.num_rows b) % 2 ^ 64 + 0) % 2 ^ 64 =
            omega arith in
          e)
      ∙ ap (λ n. record { rows = ((c.rows + tools.num_rows b) % 2 ^ 64 + 0) % 2 ^ 64; batches = n })
          (let e : ((c.batches + 0) % 2 ^ 64 + 1) % 2 ^ 64
                ≡ ((c.batches + 1) % 2 ^ 64 + 0) % 2 ^ 64 =
              omega arith in
            e)

  module _ {S T : Type 0} (ctx : PipelineCtx S D T B R) where
    -- All batches of the reader, transformed, or the first error.
    abbrev pub prepare_all : List (Result (Error D) B) → Result (Error D) (List B)
    prepare_all [] = ok []
    prepare_all (next ∷ left) = do b ← prepared tools ctx next; bs ← prepare_all left; ok (b ∷ bs)

    abbrev WritesFrom : LayerWriter S D B → List (Result (Error D) B) → List B → Type 0
    WritesFrom w left bs =
        (c : BatchCounters) (s : S)
        → write_batches tools ctx w left (totals_from c []) s
          ≡ then (writes w bs s) (λ u s'. (ok (totals_from c bs), s'))

    write_one-writes :
        (w : LayerWriter S D B) (left : List (Result (Error D) B)) (b : B) (bs : List B)
        → WritesFrom w left bs
        → (c : BatchCounters) (s : S)
        → write_one tools w (write_batches tools ctx w left) (ok b) (totals_from c []) s
          ≡ then (writes w (b ∷ bs) s) (λ u s'. (ok (totals_from c (b ∷ bs)), s'))
    unfolding write_one writes
    write_one-writes w left b bs ih c s =
        then_ext (w.write_batch b s) _ _ (λ u s'.
          ap (λ k. write_batches tools ctx w left k s') (count-totals_from c b)
          ∙ ih (count tools b c) s'
          ∙ ap (λ k. then (writes w bs s') (λ u s''. (ok k, s''))) (totals_from-count c b bs))
        ∙ sym (then_assoc (w.write_batch b s) (λ u s'. writes w bs s') _)

    write_batches-writes :
        (w : LayerWriter S D B) (left : List (Result (Error D) B)) (bs : List B)
        → prepare_all left ≡ ok bs
        → WritesFrom w left bs
    unfolding write_batches writes
    write_batches-writes w [] bs e c s =
        subst
          (λ xs.
            write_batches tools ctx w [] (totals_from c []) s
            ≡ then (writes w xs s) (λ u s'. (ok (totals_from c xs), s')))
          (let same : [] ≡ bs = cc in same) refl
    write_batches-writes w (next ∷ left) bs e c s =
        let (b, at, e') = >>=-eq-ok (prepared tools ctx next) _ e in
        let (rest, behind, same) = >>=-eq-ok (prepare_all left) _ e' in
        subst
          (λ xs.
            write_batches tools ctx w (next ∷ left) (totals_from c []) s
            ≡ then (writes w xs s) (λ u s'. (ok (totals_from c xs), s')))
          (let same' : b ∷ rest ≡ bs = cc in same')
          (ap (λ r. write_one tools w (write_batches tools ctx w left) r (totals_from c []) s) at
            ∙ write_one-writes w left b rest (write_batches-writes w left rest behind) c s)

    -- Where every batch of the reader is read and transformed: run_batch opens the output, writes the
    -- batches in order, finishes, and returns their number and that of their rows, or stops at the
    -- first of these that fails.
    pub run_batch-writes :
        (bs : List B)
        → prepare_all ctx.reader.batches ≡ ok bs
        → (s : S)
        → run_batch tools ctx s
          ≡ then
              (ctx.dst_driver.open_write ctx.dst_uri ctx.writer_schema ctx.writer_crs ctx.write_opts
                s)
              (λ w s1.
                then
                  (writes w bs s1)
                  (λ u s2. then (w.finish s2) (λ u' s3. (ok (totals_from counters_zero bs), s3))))
    unfolding run_batch write_all
    run_batch-writes bs e s = then_ext _ _ _ (λ w s1.
        ap (λ r. then r (λ c s'. then (w.finish s') (λ u s''. (ok c, s''))))
          (write_batches-writes w ctx.reader.batches bs e counters_zero s1)
        ∙ then_assoc (writes w bs s1) _ _)
