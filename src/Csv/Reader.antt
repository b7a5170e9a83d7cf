-- ===== src/Csv/Reader.antt =====
-- crates/shpx-driver-csv/src/reader.rs. The csv crate is a parameter: the header of a text and its
-- records for a delimiter, of which each may fail. A batch is its rows: what the builder of each
-- column takes of a record. `show` and `parse` are Display and parse of an f64.
use shpx.Prelude.{
  Text, codes, eq_text, to_ascii_lowercase, to_ascii_uppercase, is_ascii_alphabetic, ℕ, zero, suc,
  List, [], ◌∷◌, Option, none, some, Bool, true, Result, ok, err, ◌==◌, if◌then◌else◌, length, take,
  drop,
}
use shpx.Prelude.Outcome.{◌>>=◌}
use shpx.Core.Crs.{Crs}
use shpx.Core.Schema.{Field, Schema, GeometryMeta, GeometryType, wkb, planar, geometry_meta_key}
use shpx.Geom.Types.{F64, Fault}
use shpx.Geom.Wkb.Encode.{encode}
use shpx.Geom.Wkt.Decode.{decode}
use shpx.Geom.Wkt.Tokens.{run}
use shpx.Csv.Options.{
  CsvError, raised, header_required, column_missing, no_geometry_column, row_length, geometry,
  ResolvedReadOpts,
}

abbrev pub read_batch_size : ℕ
read_batch_size = 65536

abbrev pub geom_name_candidates : List Text
geom_name_candidates = codes "geometry" ∷ codes "geom" ∷ codes "wkt" ∷ codes "the_geom" ∷ []

-- The types of the reader's columns.
pub data ColumnType : Type 0 where
  binary utf8 : ColumnType

-- What the builder of a column takes of a record.
pub data Cell : Type 0 where
  null : Cell
  bytes : List ℕ → Cell
  text : Text → Cell

-- `position`
abbrev pub position : {A : Type 0} → (A → Bool) → List A → Option ℕ
position p [] = none
position p (x ∷ xs) =
    if p x then some 0 else elim (position p xs) [ some i ↦ some (suc i) | none ↦ none ]

abbrev eq_ignore_ascii_case : Text → Text → Bool
eq_ignore_ascii_case a b = eq_text (to_ascii_lowercase a) (to_ascii_lowercase b)

-- `as u8 as char` of the letters in front, in upper case.
abbrev keyword_of : Text → Text
keyword_of trimmed = to_ascii_uppercase (take (run is_ascii_alphabetic trimmed) trimmed)

unfoldable pub wkt_keyword_to_type : (Text → Text) → Text → GeometryType
unfolding run
wkt_keyword_to_type trim_start s =
    let upper = keyword_of (trim_start s) in
    if eq_text upper (codes "POINT")
    then GeometryType.point
    else if eq_text upper (codes "LINESTRING")
    then GeometryType.line_string
    else if eq_text upper (codes "POLYGON")
    then GeometryType.polygon
    else if eq_text upper (codes "MULTIPOINT")
    then GeometryType.multi_point
    else if eq_text upper (codes "MULTILINESTRING")
    then GeometryType.multi_line_string
    else if eq_text upper (codes "MULTIPOLYGON")
    then GeometryType.multi_polygon
    else GeometryType.geometry

-- `encoding == UTF_8`: a byte order mark is taken off. Any other encoding decodes all bytes.
unfoldable pub open_decoded_reader :
    {C : Type 0} → (C → Bool) → (C → List ℕ → Text) → C → List ℕ → Text
open_decoded_reader is_utf_8 decode_all encoding raw =
    if is_utf_8 encoding
    then (if eq_text (take 3 raw) (0xef ∷ 0xbb ∷ 0xbf ∷ []) then drop 3 raw else raw)
    else decode_all encoding raw

-- The records that are left, until the end or an error.
abbrev pub BatchIter : Type 0 → Type 0
BatchIter D = Option (List (Result D (List Text)))

module _ {D : Type 0} where
  -- The candidates one by one, each over the whole header.
  unfoldable pub pick_candidate : List Text → List Text → Result (CsvError D) ℕ
  pick_candidate header [] = err no_geometry_column
  pick_candidate header (cand ∷ rest) =
      let others = pick_candidate header rest in
      elim (position (eq_ignore_ascii_case cand) header) [ some pos ↦ ok pos | none ↦ others ]

  unfoldable pub pick_geometry_column : List Text → Option Text → Result (CsvError D) ℕ
  unfolding pick_candidate
  pick_geometry_column header none = pick_candidate header geom_name_candidates
  pick_geometry_column header (some name) = elim (position (eq_text name) header) [
    | some pos ↦ ok pos
    | none ↦ err (column_missing name)
  ]

  -- The loop over the records that looks for the first geometry.
  unfoldable pub sniff_type :
      (Text → Text) → ℕ → List (Result D (List Text)) → Result (CsvError D) GeometryType
  unfolding wkt_keyword_to_type
  sniff_type trim_start geom_index [] = ok GeometryType.geometry
  sniff_type trim_start geom_index (err e ∷ rows) = err (raised e)
  sniff_type trim_start geom_index (ok row ∷ rows) =
      let rest = sniff_type trim_start geom_index rows in
      elim (take 1 (drop geom_index row)) [
        | [] ↦ rest
        | value ∷ _ ↦ elim value [ [] ↦ rest | b ∷ t ↦ ok (wkt_keyword_to_type trim_start (b ∷ t)) ]
      ]

  abbrev of_crate : {A : Type 0} → Result D A → Result (CsvError D) A
  of_crate (ok a) = ok a
  of_crate (err e) = err (raised e)

  unfoldable pub sniff_pass :
      {C : Type 0}
      → (Text → Text)
      → Result D (List Text)
      → List (Result D (List Text))
      → ResolvedReadOpts C
      → Result (CsvError D) (List Text × ℕ × GeometryType)
  unfolding pick_geometry_column sniff_type
  sniff_pass trim_start headers records resolved =
      let with_header = do
        header_names ← of_crate headers
        geom_index ← pick_geometry_column header_names resolved.geometry_column
        geom_type ← sniff_type trim_start geom_index records
        ok (header_names, geom_index, geom_type)
      in if resolved.has_header then with_header else err header_required

  unfoldable pub build_fields :
      Result (CsvError D) Text → ℕ → ℕ → List Text → Result (CsvError D) (List (Field ColumnType))
  build_fields json geom_index i [] = ok []
  build_fields json geom_index i (name ∷ header) = do
    first ←
        if i == geom_index
        then (do
          meta ← json
          ok (record {
            name = name;
            data_type = binary;
            nullable = true;
            metadata = (geometry_meta_key, meta) ∷ [];
          }))
        else ok (record { name = name; data_type = utf8; nullable = true; metadata = [] })
    rest ← build_fields json geom_index (suc i) header
    ok (first ∷ rest)

  unfoldable pub build_schema :
      (GeometryMeta → Result (CsvError D) Text)
      → List Text
      → ℕ
      → GeometryType
      → Option Crs
      → Result (CsvError D) (Schema ColumnType)
  unfolding build_fields
  build_schema to_json header geom_index geom_type crs = do
    fields ←
        build_fields
          (to_json
            (record { encoding = wkb; geometry_type = geom_type; crs = crs; edges = planar }))
          geom_index 0 header
    ok (record { fields = fields; metadata = [] })

  abbrev pub of_fault : {A : Type 0} → Result Fault A → Result (CsvError D) A
  of_fault (ok a) = ok a
  of_fault (err e) = err (geometry e)

  module _ (parse : Text → Option F64) where
    -- A value of the geometry column.
    unfoldable pub read_geometry : Text → Result (CsvError D) Cell
    unfolding decode encode
    read_geometry [] = ok null
    read_geometry (b ∷ value) = do
      g ← of_fault (decode parse (b ∷ value))
      out ← of_fault (encode g)
      ok (bytes out)

    -- The loop over the values of a record, from the column `i` on.
    unfoldable pub read_row : ℕ → ℕ → List Text → Result (CsvError D) (List Cell)
    unfolding read_geometry
    read_row geom_index i [] = ok []
    read_row geom_index i (value ∷ values) = do
      cell ← if i == geom_index then read_geometry value else ok (text value)
      rest ← read_row geom_index (suc i) values
      ok (cell ∷ rest)

    -- The loop over the records, for as many rows as are left of the batch, and the records behind.
    unfoldable pub read_rows :
        ℕ
        → ℕ
        → ℕ
        → List (Result D (List Text))
        → Result (CsvError D) (List (List Cell) × List (Result D (List Text)))
    unfolding read_row
    read_rows n_cols geom_index zero records = ok ([], records)
    read_rows n_cols geom_index (suc left) [] = ok ([], [])
    read_rows n_cols geom_index (suc left) (err e ∷ records) = err (raised e)
    read_rows n_cols geom_index (suc left) (ok row ∷ records) =
        let one = do
          cells ← read_row geom_index 0 row
          (rows, behind) ← read_rows n_cols geom_index left records
          ok (cells ∷ rows, behind)
        in if length row == n_cols then one else err (row_length (length row) n_cols)

    abbrev batch_of :
        Result (CsvError D) (List (List Cell) × List (Result D (List Text)))
        → Option (Result (CsvError D) (List (List Cell))) × BatchIter D
    batch_of (err e) = (some (err e), none)
    batch_of (ok ([], behind)) = (none, none)
    batch_of (ok (row ∷ rows, behind)) = (some (ok (row ∷ rows)), some behind)

    -- `next` and `next_batch`.
    unfoldable pub next :
        ℕ → ℕ → BatchIter D → Option (Result (CsvError D) (List (List Cell))) × BatchIter D
    unfolding read_rows
    next n_cols geom_index none = (none, none)
    next n_cols geom_index (some records) =
        batch_of (read_rows n_cols geom_index read_batch_size records)
