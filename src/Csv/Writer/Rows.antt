-- ===== src/Csv/Writer/Rows.antt =====
-- A table through the writer and the reader, with a csv crate that gives back the records.
use shpx.Prelude.{
  Text, ℕ, zero, suc, ◌≤◌, ◌≡◌, inl, inr, refl, sym, ap, ◌∙◌, arith, List, [], ◌∷◌, ◌++◌, map,
  append_assoc, append-nil, Option, some, true, false, Result, ok, err, Ensures, holds, fails,
  Ensures-bind, Ensures-ok, ◌==◌, length, All, Bool-cases,
}
use shpx.Prelude.Outcome.{◌>>=◌}
use shpx.Core.Schema.{Field}
use shpx.Geom.Types.{F64}
use shpx.Geom.Wkt.Numbers.{IsDisplay}
use shpx.Csv.Options.{CsvError}
use shpx.Csv.Reader.{Cell, read_row, read_rows}
use shpx.Csv.Writer.{DataType, Value, Chrono, contains, record_of, write_rows, header_of}
use shpx.Csv.Writer.Table.{StoredAt, kept, Aligned, Aligned-skip, Aligned-keep, read_back}
use shpx.Csv.Writer.Back.{reads, value_back, row_back}

-- A writer of the csv crate that keeps the records.
abbrev pub keep : {D : Type 0} → List Text → List (List Text) → Result D (List (List Text))
keep record_text records = ok (records ++ record_text ∷ [])

abbrev pub each : {E A B : Type 0} → (A → Result E B) → List A → Result E (List B)
each f [] = ok []
each f (x ∷ xs) = do y ← f x; ys ← each f xs; ok (y ∷ ys)

-- A record of `n` values that is read, from the place `j` on.
abbrev IsReadable : (D : Type 0) → (Text → Option F64) → ℕ → ℕ → ℕ → List Text → Type 0
IsReadable D parse g' n j rec =
    (length rec ≡ n) × (out : List Cell) × (read_row {D = D} parse g' j rec ≡ ok out)

Ensures-of :
    {E A : Type 0} {P : A → Type 0} (r : Result E A)
    → ((a : A) → r ≡ ok a → P a)
    → Ensures P (λ e. Unit {0}) r
Ensures-of (ok a) h = holds (h a refl)
Ensures-of (err e) h = fails tt

module _ {D O : Type 0} (chrono : Chrono) (show : F64 → Text) (show_float : DataType O → ℕ → Text)
    (parse : Text → Option F64) (display : IsDisplay show parse) (skipped : List ℕ) (g : ℕ)
    (written : contains skipped g ≡ false) (fields : List (Field (DataType O))) where
  abbrev records : List (List (Option Value)) → Result (CsvError D) (List (List Text))
  records rows = each (record_of chrono show show_float skipped (some g) 0 fields) rows

  appended :
      (rest : Result (CsvError D) (List (List Text))) (w : List (List Text)) (r : List Text)
      → (rest >>= λ rs. ok ((w ++ r ∷ []) ++ rs))
        ≡ ((rest >>= λ rs. ok (r ∷ rs)) >>= λ rs. ok (w ++ rs))
  appended (ok rs) w r = ap ok (append_assoc w (r ∷ []) rs)
  appended (err e) w r = refl

  row_then :
      (row : Result (CsvError D) (List Text)) (rest : Result (CsvError D) (List (List Text)))
      (w : List (List Text)) (write : List (List Text) → Result (CsvError D) (List (List Text)))
      → ((w' : List (List Text)) → write w' ≡ (rest >>= λ rs. ok (w' ++ rs)))
      → (row >>= λ t. write (w ++ t ∷ []))
        ≡ ((row >>= λ t. rest >>= λ rs. ok (t ∷ rs)) >>= λ rs. ok (w ++ rs))
  row_then (ok t) rest w write ih = ih (w ++ t ∷ []) ∙ appended rest w t
  row_then (err e) rest w write ih = refl

  write_rows-records :
      (rows : List (List (Option Value))) (w : List (List Text))
      → write_rows chrono show show_float keep skipped (some g) fields rows w
        ≡ (records rows >>= λ rs. ok (w ++ rs))
  unfolding write_rows
  write_rows-records [] w = ap ok (sym (append-nil w))
  write_rows-records (row ∷ rows) w =
      row_then (record_of chrono show show_float skipped (some g) 0 fields row) (records rows) w
        (write_rows chrono show show_float keep skipped (some g) fields rows)
        (λ w'. write_rows-records rows w')

  IsReadable-cons :
      (n j : ℕ) (t : Text) (rec : List Text) (c : Cell)
      → reads {D = D} chrono show show_float parse display skipped g
          (kept skipped 0 g)
          written
          (j == kept skipped 0 g)
          t
        ≡ ok c
      → IsReadable D parse (kept skipped 0 g) n (suc j) rec
      → IsReadable D parse (kept skipped 0 g) (suc n) j (t ∷ rec)
  unfolding read_row
  IsReadable-cons n j t rec c e (len, out, k) = (ap suc len, c ∷ out, rw (e, k) refl)

  -- A record that is written has as many values as the header, and is read.
  record_of-IsReadable :
      (fs : List (Field (DataType O))) (cells : List (Option Value)) (i j : ℕ)
      → Aligned skipped g (kept skipped 0 g) cells i j
      → Ensures
          (IsReadable D parse (kept skipped 0 g) (length (header_of skipped i fs)) j)
          (λ e. Unit {0})
          (record_of {D = D} chrono show show_float skipped (some g) i fs cells)
  unfolding record_of header_of read_row
  record_of-IsReadable [] cells i j h = holds (refl, [], refl)
  record_of-IsReadable (f ∷ fs) [] i j h = fails tt
  record_of-IsReadable (f ∷ fs) (cell ∷ cells) i j h = elim (Bool-cases (contains skipped i)) [
    | inl out ↦ rw out (
        record_of-IsReadable fs cells (suc i) j
          (Aligned-skip skipped g (kept skipped 0 g) written cell cells i j out h))
    | inr inside ↦
        let (here, ahead) =
          Aligned-keep skipped g (kept skipped 0 g) written cell cells i j inside h in
        let (e, k) =
          value_back chrono show show_float parse display skipped g (kept skipped 0 g) written
            (g == i) (j == kept skipped 0 g) f cell here in
        rw inside (
          Ensures-bind (Ensures-of _ k)
            (λ t (c, rt).
              Ensures-bind (record_of-IsReadable fs cells (suc i) (suc j) ahead)
                (λ rec p. holds (IsReadable-cons _ j t rec c rt p)) (λ e u. u))
            (λ e u. u))
  ]

  abbrev due : List (List (Option Value)) → Result (CsvError D) (List (List Cell))
  due rows = each (read_back chrono show show_float skipped g 0 fields) rows

  read_all :
      ℕ → List (List Text) → Result (CsvError D) (List (List Cell) × List (Result D (List Text)))
  read_all left rs =
      read_rows parse (length (header_of skipped 0 fields)) (kept skipped 0 g) left (map ok rs)

  -- One row more, where the rows behind are read as they are due.
  row_more :
      (row : Result (CsvError D) (List Text)) (rest : Result (CsvError D) (List (List Text)))
      (rest' : Result (CsvError D) (List (List Cell))) (left : ℕ)
      → Ensures
          (IsReadable D parse (kept skipped 0 g) (length (header_of skipped 0 fields)) 0)
          (λ e. Unit {0})
          row
      → (rest >>= read_all left) ≡ (rest' >>= λ out. ok (out, []))
      → ((row >>= λ t. rest >>= λ rs. ok (t ∷ rs)) >>= read_all (suc left)) ≡ (
          ((row >>= read_row parse (kept skipped 0 g) 0) >>= λ cells.
          rest' >>= λ out. ok (cells ∷ out))
          >>= λ out. ok (out, []))
  unfolding read_all read_rows
  row_more (err e) rest rest' left h ih = refl
  row_more (ok t) (err e) (err e') left h ih = let (len, out, k) = Ensures-ok h refl in rw k ih
  row_more (ok t) (err e) (ok out) left h ih = cc
  row_more (ok t) (ok rs) (ok out') left h ih =
      let (len, out, k) = Ensures-ok h refl in
      let same : (length t == length (header_of skipped 0 fields)) ≡ true = ground arith in
      rw (same, k, ih) refl
  row_more (ok t) (ok rs) (err e') left h ih =
      let (len, out, k) = Ensures-ok h refl in
      let same : (length t == length (header_of skipped 0 fields)) ≡ true = ground arith in
      rw (same, k, ih) refl

  rows_back :
      (rows : List (List (Option Value))) (left : ℕ)
      → length rows ≤ left
      → All (StoredAt g) rows
      → (records rows >>= read_all left) ≡ (due rows >>= λ out. ok (out, []))
  unfolding read_all read_rows
  rows_back [] zero few h = refl
  rows_back [] (suc left) few h = refl
  rows_back (row ∷ rows) zero few h = absurd (omega arith)
  rows_back (row ∷ rows) (suc left) few h =
      let here : Aligned skipped g (kept skipped 0 g) row 0 0 =
        inl (g, omega arith, omega arith, h.0) in
      row_more (record_of chrono show show_float skipped (some g) 0 fields row) (records rows)
        (due rows) left (record_of-IsReadable fields row 0 0 here)
        (rows_back rows left (omega arith) h.1)
      ∙ rw
          (row_back chrono show show_float parse display skipped g (kept skipped 0 g) written fields
            row 0 0 here)
          refl

  -- Where Display writes every finite f64 as a decimal that `str::parse` takes back to it: a table of at
  -- most `left` rows with geometries as `wkb::encode` writes them, or null, that is written and read
  -- from the geometry's place in the header, gives the WKB of every geometry and the text of every
  -- other value of a column that is not left out, or the first error of such a text.
  pub read_rows-write_rows :
      (rows : List (List (Option Value))) (left : ℕ)
      → length rows ≤ left
      → All (StoredAt g) rows
      → (do
        out ← write_rows {D = D} chrono show show_float keep skipped (some g) fields rows []
        read_rows parse (length (header_of skipped 0 fields)) (kept skipped 0 g) left (map ok out))
        ≡ (do
          cells ← each (read_back chrono show show_float skipped g 0 fields) rows
          ok (cells, []))
  unfolding read_all
  read_rows-write_rows rows left few h =
      rw (write_rows-records rows []) (same (records rows) ∙ rows_back rows left few h)
    where
      same :
          (r : Result (CsvError D) (List (List Text)))
          → ((r >>= λ rs. ok ([] ++ rs)) >>= read_all left) ≡ (r >>= read_all left)
      same (ok rs) = refl
      same (err e) = refl
