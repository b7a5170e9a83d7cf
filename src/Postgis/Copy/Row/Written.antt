-- ===== src/Postgis/Copy/Row/Written.antt =====
-- A row of COPY: as many fields as columns, each that of its column.
use shpx.Prelude.{
  ℕ, suc, ◌^◌, ◌≤◌, ◌⊎◌, ◌≡◌, inl, inr, refl, sym, ap, ◌∙◌, subst, arith, List, [], ◌∷◌, ◌++◌,
  append_assoc, append-nil, All, Option, none, some, Bool, true, false, Result, Ensures, holds,
  fails, Ensures-bind, Ensures-map, ltb, ◌==◌, if◌then◌else◌, length, Bool-cases,
}
use shpx.Prelude.Outcome.{◌>>=◌}
use shpx.Geom.Bytes.{to_bytes}
use shpx.Postgis.Copy.Row.{
  Value, CopyError, panicked, Field, BulkRowEncoder, or_err, encode_field, get_elem?, as_binary,
  of_geometry, encode_at, encode_fields, encode_row,
}
use shpx.Postgis.Copy.{encode_geometry}
use shpx.Postgis.Copy.Row.Framed.{
  field_bytes, fields_bytes, tuple_bytes, read_tuple, IsShort, read_tuple-tuple_bytes,
}
use shpx.Postgis.Copy.Row.Encoded.{
  IsPayload, IsGeometry, Refuses, Writes, encode_field-Writes, of_geometry-Writes,
}

module _ {O : Type 0} (e : BulkRowEncoder O) (row : List (Option Value)) where
  abbrev IsCell : Bool → ℕ → Option Value → Option (List ℕ) → Type 0
  IsCell true idx cell p = IsGeometry e.srid cell p
  IsCell false idx cell p =
      (f : Field O) × (get_elem? e.schema idx ≡ some f) × IsPayload f.data_type cell p

  -- The field of the column `idx`.
  abbrev pub IsFieldOf : ℕ → Option (List ℕ) → Type 0
  IsFieldOf idx p =
      (cell : Option Value) × (get_elem? row idx ≡ some cell)
      × IsCell (idx == e.geom_index) idx cell p

  abbrev pub AreFieldsOf : List ℕ → List (Option (List ℕ)) → Type 0
  AreFieldsOf [] [] = Unit {0}
  AreFieldsOf [] (p ∷ ps) = ⊥
  AreFieldsOf (idx ∷ order) [] = ⊥
  AreFieldsOf (idx ∷ order) (p ∷ ps) = IsFieldOf idx p × AreFieldsOf order ps

  -- Some column of the order has no field.
  abbrev pub Refused : List ℕ → Type 0
  Refused [] = ⊥
  Refused (idx ∷ order) = Refuses (IsFieldOf idx) ⊎ Refused order

  length-AreFieldsOf :
      (order : List ℕ) (ps : List (Option (List ℕ)))
      → AreFieldsOf order ps
      → length ps ≡ length order
  length-AreFieldsOf [] [] h = refl
  length-AreFieldsOf [] (p ∷ ps) h = absurd h
  length-AreFieldsOf (idx ∷ order) [] h = absurd h
  length-AreFieldsOf (idx ∷ order) (p ∷ ps) h = ap suc (length-AreFieldsOf order ps h.1)

  abbrev step : Bool → ℕ → Option Value → List ℕ → Result CopyError (List ℕ)
  step b idx cell out =
      if b
      then (do wkb ← as_binary cell; of_geometry (encode_geometry wkb e.srid out))
      else (do f ← or_err panicked (get_elem? e.schema idx); encode_field f cell out)

  attribute-Writes :
      (idx : ℕ) (cell : Option Value) (out : List ℕ) (field : Option (Field O))
      → get_elem? e.schema idx ≡ field
      → Writes (IsCell false idx cell) out (or_err panicked field >>= λ f. encode_field f cell out)
  attribute-Writes idx cell out none k = fails (λ p short (f, k', h). cc)
  attribute-Writes idx cell out (some f) k =
      Ensures-map (encode_field-Writes f cell out)
        (λ out' (p, w, short, h). (p, w, short, (f, k, h)))
        (λ x refused p short (f', k', h).
          let same : f' ≡ f = cc in
          refused p short (subst (λ (y : Field O). IsPayload y.data_type cell p) same h))

  step-Writes :
      (b : Bool) (idx : ℕ) (cell : Option Value) (out : List ℕ)
      → Writes (IsCell b idx cell) out (step b idx cell out)
  step-Writes true idx cell out = of_geometry-Writes e.srid cell out
  step-Writes false idx cell out = attribute-Writes idx cell out (get_elem? e.schema idx) refl

  cell-Writes :
      (idx : ℕ) (out : List ℕ) (cell : Option (Option Value))
      → get_elem? row idx ≡ cell
      → Writes
          (IsFieldOf idx)
          out
          (or_err panicked cell >>= λ c. step (idx == e.geom_index) idx c out)
  cell-Writes idx out none k = fails (λ p short (c, k', h). cc)
  cell-Writes idx out (some c) k =
      Ensures-map (step-Writes (idx == e.geom_index) idx c out)
        (λ out' (p, w, short, h). (p, w, short, (c, k, h)))
        (λ x refused p short (c', k', h).
          let same : c' ≡ c = cc in
          refused p short (subst (λ y. IsCell (idx == e.geom_index) idx y p) same h))

  encode_fields-Writes :
      (order : List ℕ) (out : List ℕ)
      → Ensures
          (λ out'.
            (ps : List (Option (List ℕ))) × (out' ≡ out ++ fields_bytes ps)
            × All IsShort ps
            × AreFieldsOf order ps)
          (λ x. Refused order)
          (encode_fields e row order out)
  unfolding encode_fields encode_at fields_bytes
  encode_fields-Writes [] out = holds ([], sym (append-nil out), tt, tt)
  encode_fields-Writes (idx ∷ order) out =
      Ensures-bind (cell-Writes idx out (get_elem? row idx) refl)
        (λ out1 (p, w, short, h).
          Ensures-map (encode_fields-Writes order out1)
            (λ out2 (ps, w', shorts, hs). (
              p ∷ ps,
              w'
                  ∙ ap (λ t. t ++ fields_bytes ps) w
                  ∙ append_assoc out (field_bytes p) (fields_bytes ps),
              (short, shorts),
              (h, hs),
            ))
            (λ x r. inr r))
        (λ x r. inl r)

  -- What is appended for a row is read by the format's reader, with anything behind it, as one field
  -- for each column of the order: null for a null, EWKB with the SRID for the geometry, and otherwise
  -- the value's bytes by the type of its column. Encoding fails only where the order has 2 ^ 15 columns
  -- or more, or a column has no such field below 2 ^ 31 bytes.
  pub encode_row-Ensures :
      (out : List ℕ)
      → Ensures
          (λ out'.
            (t : List ℕ) × (ps : List (Option (List ℕ))) × (out' ≡ out ++ t)
            × ((rest : List ℕ) → read_tuple (t ++ rest) ≡ some (ps, rest))
            × AreFieldsOf e.field_order ps)
          (λ x. (2 ^ 15 ≤ length e.field_order) ⊎ Refused e.field_order)
          (encode_row e row out)
  unfolding encode_row tuple_bytes
  encode_row-Ensures out = elim (Bool-cases (ltb (length e.field_order) (2 ^ 15))) [
    | inr f ↦ rw f (fails (inl (ground arith)))
    | inl t ↦ rw t (
        Ensures-map
          (encode_fields-Writes e.field_order (out ++ to_bytes false 2 (length e.field_order)))
          (λ out' (ps, w, shorts, hs).
            let same = length-AreFieldsOf e.field_order ps hs in
            (
              tuple_bytes ps,
              ps,
              w
                  ∙ append_assoc out (to_bytes false 2 (length e.field_order)) (fields_bytes ps)
                  ∙ ap (λ n. out ++ (to_bytes false 2 n ++ fields_bytes ps)) (sym same),
              λ rest. read_tuple-tuple_bytes ps rest (ground arith) shorts,
              hs,
            ))
          (λ x r. inr r))
  ]
