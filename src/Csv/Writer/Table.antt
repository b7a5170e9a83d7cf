-- ===== src/Csv/Writer/Table.antt =====
-- What the reader makes of the records that the writer made of a table.
use shpx.Prelude.{
  Text, ℕ, zero, suc, ◌+◌, ◌<◌, ◌^◌, ◌≡◌, ◌⊎◌, inl, inr, refl, ap, ◌∙◌, arith, List, [], ◌∷◌,
  Option, none, some, Bool, true, false, Result, ok, err, ◌==◌, if◌then◌else◌,
}
use shpx.Prelude.Outcome.{◌>>=◌}
use shpx.Core.Schema.{Field}
use shpx.Geom.Types.{F64, Geom, IsGeom}
use shpx.Geom.Wkb.Encode.{encode, estimate_size}
use shpx.Geom.Wkt.Layout.{IsWkt}
use shpx.Csv.Options.{CsvError, value_unsupported}
use shpx.Csv.Reader.{Cell, null, text}
use shpx.Csv.Writer.{DataType, Value, Chrono, contains, arrow_value_to_csv}

-- The cell that the reader gives for a geometry, and for the text of any other value.
abbrev pub stored : Option Value → Cell
stored (some (Value.bytes b)) = Cell.bytes b
stored v = null

-- A geometry that both WKT and WKB can represent, as `wkb::encode` writes it, or null.
abbrev pub IsStored : Option Value → Type 0
IsStored none = Unit {0}
IsStored (some (Value.bytes b)) =
    (g : Geom) × IsWkt g × IsGeom g × (estimate_size g < 2 ^ 64) × (encode g ≡ ok b)
IsStored (some v) = ⊥

-- The geometry of a row, `k` columns on.
abbrev pub StoredAt : ℕ → List (Option Value) → Type 0
StoredAt k [] = Unit {0}
StoredAt zero (cell ∷ cells) = IsStored cell
StoredAt (suc k) (cell ∷ cells) = StoredAt k cells

-- How many of the `k` columns from `i` on are written.
abbrev pub kept : List ℕ → ℕ → ℕ → ℕ
kept skipped i zero = 0
kept skipped i (suc k) =
    let rest = kept skipped (suc i) k in if contains skipped i then rest else suc rest

-- A record whose first value is read by `R` and the others by `S`.
pub joined :
    {E A B : Type 0} (w : Result E A) (rest : Result E (List A)) (R : A → Result E B)
    (S F : List A → Result E (List B))
    → ((a : A) (values : List A) → F (a ∷ values) ≡ (R a >>= λ b. S values >>= λ bs. ok (b ∷ bs)))
    → ((a : A) → w ≡ ok a → (b : B) × (R a ≡ ok b))
    → ((w >>= λ a. rest >>= λ values. ok (a ∷ values)) >>= F)
      ≡ ((w >>= R) >>= λ b. (rest >>= S) >>= λ bs. ok (b ∷ bs))
joined (err e) rest R S F step k = refl
joined (ok a) (err e) R S F step k = let (b, h) = k a refl in rw h refl
joined (ok a) (ok values) R S F step k = step a values

-- The columns from `i` on and the values from `j` on: the geometry's column `g` and its place `g'`
-- in the record are both ahead, or both behind.
abbrev pub Aligned : List ℕ → ℕ → ℕ → List (Option Value) → ℕ → ℕ → Type 0
Aligned skipped g g' cells i j =
    ((k : ℕ) × (g ≡ i + k) × (g' ≡ j + kept skipped i k) × StoredAt k cells) ⊎ ((g < i) × (g' < j))

module _ (skipped : List ℕ) (g g' : ℕ) (written : contains skipped g ≡ false) where
  pub Aligned-skip :
      (cell : Option Value) (cells : List (Option Value)) (i j : ℕ)
      → contains skipped i ≡ true
      → Aligned skipped g g' (cell ∷ cells) i j
      → Aligned skipped g g' cells (suc i) j
  Aligned-skip cell cells i j out (inl (zero, e, e', h)) =
      let same : g ≡ i = omega arith in absurd (cc)
  Aligned-skip cell cells i j out (inl (suc k, e, e', h)) = inl (
    k,
    omega arith,
    e' ∙ ap (λ b. j + (if b then kept skipped (suc i) k else suc (kept skipped (suc i) k))) out,
    h,
  )
  Aligned-skip cell cells i j out (inr (h, h')) = inr (omega arith, h')

  pub Aligned-keep :
      (cell : Option Value) (cells : List (Option Value)) (i j : ℕ)
      → contains skipped i ≡ false
      → Aligned skipped g g' (cell ∷ cells) i j
      → (((g == i) ≡ true) × ((j == g') ≡ true) × IsStored cell
          ⊎ ((g == i) ≡ false) × ((j == g') ≡ false))
        × Aligned skipped g g' cells (suc i) (suc j)
  Aligned-keep cell cells i j inside (inl (zero, e, e', h)) =
      (inl (ground arith, ground arith, h), inr (omega arith, omega arith))
  Aligned-keep cell cells i j inside (inl (suc k, e, e', h)) =
      let e'' : g' ≡ j + suc (kept skipped (suc i) k) =
        e'
        ∙ ap (λ b. j + (if b then kept skipped (suc i) k else suc (kept skipped (suc i) k)))
            inside in
      (inr (ground arith, ground arith), inl (k, omega arith, omega arith, h))
  Aligned-keep cell cells i j inside (inr (h, h')) =
      (inr (ground arith, ground arith), inr (omega arith, omega arith))

-- What the reader is to give for a row: the geometry, and the text of every other value that is
-- written.
module _ {D O : Type 0} (chrono : Chrono) (show : F64 → Text) (show_float : DataType O → ℕ → Text)
    (skipped : List ℕ) (g : ℕ) where
  abbrev pub cell_of : Bool → Field (DataType O) → Option Value → Result (CsvError D) Cell
  cell_of true f cell = ok (stored cell)
  cell_of false f cell = do t ← arrow_value_to_csv chrono show show_float f cell; ok (text t)

  unfoldable pub read_back :
      ℕ → List (Field (DataType O)) → List (Option Value) → Result (CsvError D) (List Cell)
  read_back i [] cells = ok []
  read_back i (f ∷ fields) [] = err (value_unsupported f.name)
  read_back i (f ∷ fields) (cell ∷ cells) =
      let rest = read_back (suc i) fields cells in
      let both = do first ← cell_of (g == i) f cell; others ← rest; ok (first ∷ others)
      in if contains skipped i then rest else both
