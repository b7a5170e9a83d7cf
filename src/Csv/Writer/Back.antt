-- ===== src/Csv/Writer/Back.antt =====
-- The reader gives back the rows that the writer wrote.
use shpx.Prelude.{
  Text, ℕ, suc, ◌≡◌, ◌⊎◌, inl, inr, refl, ap, ◌∙◌, subst, List, [], ◌∷◌, Option, none, some, Bool,
  true, false, Result, ok, ◌==◌, if◌then◌else◌, Bool-cases,
}
use shpx.Prelude.Outcome.{◌>>=◌}
use shpx.Core.Schema.{Field}
use shpx.Geom.Types.{F64, Geom}
use shpx.Geom.Wkb.Encode.{encode}
use shpx.Geom.Wkb.Decode.{decode}
use shpx.Geom.Wkb.Canonical.{decode-encode}
use shpx.Geom.Wkt.Decode.{decode as decode_wkt}
use shpx.Geom.Wkt.Numbers.{IsDisplay}
use shpx.Geom.Wkt.RoundTrip.{decode-encode_wkt}
use shpx.Csv.Options.{CsvError}
use shpx.Csv.Reader.{Cell, null, text, read_geometry, read_row}
use shpx.Csv.Writer.{
  DataType, Value, Chrono, contains, arrow_value_to_csv, geometry_to_csv, record_of,
}
use shpx.Csv.Writer.Table.{
  stored, IsStored, joined, Aligned, Aligned-skip, Aligned-keep, cell_of, read_back,
}

module _ {D O : Type 0} (chrono : Chrono) (show : F64 → Text) (show_float : DataType O → ℕ → Text)
    (parse : Text → Option F64) (display : IsDisplay show parse) where
  text_stored :
      (t : Text) (geom : Geom) (b : List ℕ)
      → decode_wkt parse t ≡ ok geom
      → encode geom ≡ ok b
      → read_geometry {D = D} parse t ≡ ok (Cell.bytes b)
  unfolding read_geometry decode_wkt
  text_stored [] geom b e e' = cc
  text_stored (c ∷ t) geom b e e' = rw (e, e') refl

  null_back : read_geometry {D = D} parse [] ≡ ok null
  unfolding read_geometry
  null_back = refl

  geometry_back :
      (name : Text) (cell : Option Value)
      → IsStored cell
      → (t : Text) × (geometry_to_csv {D = D} chrono show show_float name cell ≡ ok t)
        × (read_geometry {D = D} parse t ≡ ok (stored cell))
  unfolding geometry_to_csv
  geometry_back name none h = ([], refl, null_back)
  geometry_back name (some (Value.bytes b)) (geom, wkt, good, small, e) =
      let (b', e', len, dec) = decode-encode geom good small in
      let same : b' ≡ b = cc in
      let back = subst (λ x. decode x ≡ ok geom) same dec in
      let (t, et, pt) = decode-encode_wkt show parse display geom wkt in
      (t, rw (back, et) refl, text_stored t geom b pt e)
  geometry_back name (some (Value.text t)) h = absurd h
  geometry_back name (some (Value.bool t)) h = absurd h
  geometry_back name (some (Value.int t)) h = absurd h
  geometry_back name (some (Value.float t)) h = absurd h

  module _ (skipped : List ℕ) (g g' : ℕ) (written : contains skipped g ≡ false) where
    abbrev pub value_of : Bool → Field (DataType O) → Option Value → Result (CsvError D) Text
    value_of b f cell =
        if b
        then geometry_to_csv chrono show show_float f.name cell
        else arrow_value_to_csv chrono show show_float f cell

    abbrev pub reads : Bool → Text → Result (CsvError D) Cell
    reads b t = if b then read_geometry parse t else ok (text t)

    -- The value of a column is read as the cell that is due, whichever of the two it is.
    pub value_back :
        (b b' : Bool) (f : Field (DataType O)) (cell : Option Value)
        → (b ≡ true) × (b' ≡ true) × IsStored cell ⊎ (b ≡ false) × (b' ≡ false)
        → ((value_of b f cell >>= reads b') ≡ cell_of chrono show show_float skipped g b f cell)
          × ((t : Text) → value_of b f cell ≡ ok t → (c : Cell) × (reads b' t ≡ ok c))
    value_back true true f cell (inl (e, e', h)) =
        let (t, w, r) = geometry_back f.name cell h in
        (
          rw w r,
          λ t' k. (stored cell, ap (read_geometry parse) (let same : t' ≡ t = cc in same) ∙ r),
        )
    value_back true false f cell (inl (e, e', h)) = cc
    value_back false b' f cell (inl (e, e', h)) = cc
    value_back true b' f cell (inr (e, e')) = cc
    value_back false true f cell (inr (e, e')) = cc
    value_back false false f cell (inr (e, e')) = (refl, λ t k. (text t, refl))

    -- A row is read as it is due, and a row that is not written fails as it is due.
    pub row_back :
        (fields : List (Field (DataType O))) (cells : List (Option Value)) (i j : ℕ)
        → Aligned skipped g g' cells i j
        → (record_of {D = D} chrono show show_float skipped (some g) i fields cells
            >>= read_row parse g' j)
          ≡ read_back chrono show show_float skipped g i fields cells
    unfolding record_of read_row read_back
    row_back [] cells i j h = refl
    row_back (f ∷ fields) [] i j h = refl
    row_back (f ∷ fields) (cell ∷ cells) i j h = elim (Bool-cases (contains skipped i)) [
      | inl out ↦
          rw out (
            row_back fields cells (suc i) j
              (Aligned-skip skipped g g' written cell cells i j out h))
      | inr inside ↦
          let (here, ahead) = Aligned-keep skipped g g' written cell cells i j inside h in
          let (e, k) = value_back (g == i) (j == g') f cell here in
          rw inside (
            joined (value_of (g == i) f cell)
              (record_of {D = D} chrono show show_float skipped (some g) (suc i) fields cells)
              (reads (j == g')) (read_row parse g' (suc j)) (read_row parse g' j) (λ a values. refl)
              k
            ∙ rw (e, row_back fields cells (suc i) (suc j) ahead) refl)
    ]
