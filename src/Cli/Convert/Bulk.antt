-- ===== src/Cli/Convert/Bulk.antt =====
-- The bulk path against the row-wise path.
use shpx.Prelude.{
  ◌≡◌, ◌≢◌, refl, sym, subst, ap, ◌∙◌, List, [], ◌∷◌, Option, none, some, Result, ok, err,
}
use shpx.Cli.Driver.{Error, LayerWriter, BulkLoadWriter, Next}
use shpx.Cli.Convert.{BatchCounters, Batches, Tools, PipelineCtx}
use shpx.Cli.Convert.Paths.{
  then, counters_zero, count, prepared, write_one, yielded, next_batch, finish_bulk, load,
  write_batches, write_all, run_batch, run_bulk,
}
use shpx.Cli.Convert.Batch.{writes, then-eq-ok, err-ne-ok}

-- The iterator gives the batches and then None, and is in the last state then.
pub data Pulls {I D B : Type 0} (next : Next I D B) : I → List B → I → Type 0 where
  ends : {it it' : I} → next it ≡ (none, it') → Pulls next it [] it'
  gives :
      {it it' last : I} {b : B} {bs : List B}
      → next it ≡ (some (ok b), it')
      → Pulls next it' bs last
      → Pulls next it (b ∷ bs) last

module _ {I D B : Type 0} (next : Next I D B) where
  none-ne-gives :
      {it it' : I} {b : B}
      → (let r : Option (Result (Error D) B) × I = (none, it) in r) ≢ (some (ok b), it')
  none-ne-gives {it} {it'} {b} e = different (ap (λ q. q.0) e)
    where
      different : (let r : Option (Result (Error D) B) = none in r) ≢ some (ok b)
      different e = cc

  same_batch :
      (b b' : B) → (let r : Option (Result (Error D) B) = some (ok b) in r) ≡ some (ok b') → b ≡ b'
  same_batch b b' e = cc

  -- An iterator gives the same batches each time, and is in the same state then.
  Pulls-unique :
      {it last last' : I} {bs bs' : List B}
      → Pulls next it bs last
      → Pulls next it bs' last'
      → (bs ≡ bs') × (last ≡ last')
  Pulls-unique (ends e) (ends e') = (refl, ap (λ q. q.1) (sym e ∙ e'))
  Pulls-unique (ends e) (gives e' p') = absurd (none-ne-gives (sym e ∙ e'))
  Pulls-unique (gives e p) (ends e') = absurd (none-ne-gives (sym e' ∙ e))
  Pulls-unique (gives {b} {bs} e p) (gives {last = last'} {b = b'} {bs = bs'} e' p') =
      let (same, same_last) =
        Pulls-unique p
          (subst (λ i. Pulls next i bs' last') (sym (ap (λ q. q.1) (sym e ∙ e'))) p') in
      (
        ap (λ x. x ∷ bs) (same_batch b b' (ap (λ q. q.0) (sym e ∙ e'))) ∙ ap (λ xs. b' ∷ xs) same,
        same_last,
      )

module _ {S D T B R : Type 0} (tools : Tools D B R) (ctx : PipelineCtx S D T B R) where
  abbrev at : List (Result (Error D) B) → BatchCounters → Batches D B
  at left c = record { left = left; counters = c }

  -- What the rounds of the loop have written, and that the closure counts the same.
  abbrev Pulled : LayerWriter S D B → List (Result (Error D) B) → Type 0
  Pulled w left =
      (c c' : BatchCounters) (s s' : S)
      → write_batches tools ctx w left c s ≡ (ok c', s')
      → (bs : List B) × Pulls (next_batch tools ctx) (at left c) bs (at [] c')
        × (writes w bs s ≡ (ok tt, s'))

  write_one-Pulled :
      (w : LayerWriter S D B) (next : Result (Error D) B) (left : List (Result (Error D) B))
      (r : Result (Error D) B)
      → prepared tools ctx next ≡ r
      → Pulled w left
      → (c c' : BatchCounters) (s s' : S)
      → write_one tools w (write_batches tools ctx w left) r c s ≡ (ok c', s')
      → (bs : List B) × Pulls (next_batch tools ctx) (at (next ∷ left) c) bs (at [] c')
        × (writes w bs s ≡ (ok tt, s'))
  unfolding write_one writes next_batch yielded
  write_one-Pulled w next left (err x) e ih c c' s s' h = absurd (err-ne-ok x s s' c' h)
  write_one-Pulled w next left (ok b) e ih c c' s s' h =
      let (u, s1, written, rest) =
        then-eq-ok (w.write_batch b s) (λ u s1. write_batches tools ctx w left (count tools b c) s1)
          h in
      let (bs, pulls, wrote) = ih (count tools b c) c' s1 s' rest in
      (
        b ∷ bs,
        gives (ap (yielded tools left c) e) pulls,
        ap (λ r. then r (λ u s1. writes w bs s1)) written ∙ wrote,
      )

  same_counters :
      (c c' : BatchCounters) → (let r : Result (Error D) BatchCounters = ok c in r) ≡ ok c' → c ≡ c'
  same_counters c c' e = cc

  write_batches-Pulled : (w : LayerWriter S D B) (left : List (Result (Error D) B)) → Pulled w left
  unfolding write_batches writes next_batch
  write_batches-Pulled w [] c c' s s' h = (
    [],
    ends (ap (λ k. (none, at [] k)) (same_counters c c' (ap (λ q. q.0) h))),
    ap (λ t. (ok tt, t)) (ap (λ q. q.1) h),
  )
  write_batches-Pulled w (next ∷ left) c c' s s' h =
      write_one-Pulled w next left (prepared tools ctx next) refl (write_batches-Pulled w left) c c'
        s s' h

  -- The iterator that bulk_write is given.
  abbrev pub unread : Batches D B
  unread = record { left = ctx.reader.batches; counters = counters_zero }

  -- run_batch has opened a writer, written the batches one by one, and finished.
  abbrev pub WritesEach : List B → S → S → Type 0
  WritesEach bs s s' =
      (w : LayerWriter S D B) × (s1 : S) × (s2 : S) × (ctx.dst_driver.open_write ctx.dst_uri
          ctx.writer_schema ctx.writer_crs ctx.write_opts s
        ≡ (ok w, s1))
      × (writes w bs s1 ≡ (ok tt, s2))
      × (w.finish s2 ≡ (ok tt, s'))

  -- If run_batch succeeds and the output's driver opens a bulk writer, and if in this run its
  -- bulk_write takes the iterator to the end, of the batches `bs`, and succeeds as finish does: then
  -- run_bulk returns the counters that run_batch returns, and `bs` are the batches, transformed and
  -- in order, that run_batch writes one by one.
  pub run_bulk-run_batch :
      (s s' : S) (c : BatchCounters)
      → run_batch tools ctx s ≡ (ok c, s')
      → (bulk : BulkLoadWriter S D B (Batches D B)) (t1 t2 t3 : S) (bs : List B)
        (last : Batches D B)
      → ctx.dst_driver.open_bulk_write ctx.dst_uri ctx.writer_schema ctx.writer_crs ctx.write_opts s
        ≡ (ok (some bulk), t1)
      → bulk.bulk_write (next_batch tools ctx) unread t1 ≡ (ok tt, last, t2)
      → Pulls (next_batch tools ctx) unread bs last
      → bulk.layer.finish t2 ≡ (ok tt, t3)
      → (run_bulk tools ctx s ≡ (ok c, t3)) × WritesEach bs s s'
  unfolding run_batch run_bulk write_all load finish_bulk
  run_bulk-run_batch s s' c h bulk t1 t2 t3 bs last opened' loaded pulls finished' =
      let (w, s1, opened, h1) = then-eq-ok _ (write_all tools ctx) h in
      let (c2, s2, written, h2) =
        then-eq-ok (write_batches tools ctx w ctx.reader.batches counters_zero s1) _ h1 in
      let (u, s3, finished, h3) = then-eq-ok (w.finish s2) _ h2 in
      let (bs', pulls', wrote) =
        write_batches-Pulled w ctx.reader.batches counters_zero c2 s1 s2 written in
      let (same, same_last) = Pulls-unique (next_batch tools ctx) pulls' pulls in
      (
        ap (λ r. then r (load tools ctx)) opened'
            ∙ ap (finish_bulk bulk) loaded
            ∙ ap (λ r. then r (λ u s4. (ok last.counters, s4))) finished'
            ∙ ap (λ k. (ok k, t3))
                (ap (λ it. it.counters) (sym same_last) ∙ same_counters c2 c (ap (λ q. q.0) h3)),
        (
          w,
          s1,
          s2,
          opened,
          subst (λ xs. writes w xs s1 ≡ (ok tt, s2)) same wrote,
          finished ∙ ap (λ t. (ok tt, t)) (ap (λ q. q.1) h3),
        ),
      )
