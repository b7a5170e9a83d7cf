-- ===== src/Core/Schema.antt =====
-- crates/shpx-core/src/schema.rs: the geometry column of an Arrow schema, marked in the metadata of
-- its field. The types of the columns are a parameter, and so is the JSON of serde.
pub mod Replaced
pub mod Runs
use shpx.Prelude.{
  Text, eq_text, ℕ, zero, suc, List, [], ◌∷◌, Option, none, some, Bool, Result, ok, err,
  if◌then◌else◌,
}
use shpx.Prelude.Outcome.{◌>>=◌}
use shpx.Core.Crs.{Crs}

pub data GeometryEncoding : Type 0 where
  wkb : GeometryEncoding

pub data GeometryType : Type 0 where
  geometry point line_string polygon multi_point multi_line_string multi_polygon : GeometryType
  geometry_collection : GeometryType

pub data Edges : Type 0 where
  planar spherical : Edges

pub record GeometryMeta : Type 0 where
  pub encoding : GeometryEncoding
  pub geometry_type : GeometryType
  pub crs : Option Crs
  pub edges : Edges

-- A `HashMap<String, String>`.
abbrev pub Metadata : Type 0
Metadata = List (Text × Text)

pub record Field (T : Type 0) : Type 0 where
  pub name : Text
  pub data_type : T
  pub nullable : Bool
  pub metadata : Metadata

pub record Schema (T : Type 0) : Type 0 where
  pub fields : List (Field T)
  pub metadata : Metadata

-- `"shpx:geometry"`
abbrev pub geometry_meta_key : Text
geometry_meta_key = 115 ∷ 104 ∷ 112 ∷ 120 ∷ 58 ∷ 103 ∷ 101 ∷ 111 ∷ 109 ∷ 101 ∷ 116 ∷ 114 ∷ 121 ∷ []

abbrev pub lookup : Text → Metadata → Option Text
lookup key [] = none
lookup key (entry ∷ m) = if eq_text key (entry.0) then some (entry.1) else lookup key m

abbrev pub insert : Text → Text → Metadata → Metadata
insert key value [] = (key, value) ∷ []
insert key value (entry ∷ m) =
    if eq_text key (entry.0) then (key, value) ∷ m else entry ∷ insert key value m

module _ {T E : Type 0} (from_json : Text → Result E GeometryMeta) where
  -- What the metadata of the field `i` says, and otherwise the result for the fields behind it.
  unfoldable pub column_or :
      Option Text
      → Field T
      → ℕ
      → Result E (Option (ℕ × Text × GeometryMeta))
      → Result E (Option (ℕ × Text × GeometryMeta))
  column_or (some json) f i rest = do meta ← from_json json; ok (some (i, f.name, meta))
  column_or none f i rest = rest

  -- The loop over the fields, the first of which has the index `i`.
  unfoldable pub find_from : List (Field T) → ℕ → Result E (Option (ℕ × Text × GeometryMeta))
  unfolding column_or
  find_from [] i = ok none
  find_from (f ∷ fields) i =
      column_or (lookup geometry_meta_key f.metadata) f i (find_from fields (suc i))

  unfoldable pub find_geometry_column : Schema T → Result E (Option (ℕ × Text × GeometryMeta))
  unfolding find_from
  find_geometry_column schema = find_from schema.fields 0

  unfoldable pub require_geometry_column : E → Schema T → Result E (ℕ × Text × GeometryMeta)
  unfolding find_geometry_column
  require_geometry_column no_column schema = do
    found ← find_geometry_column schema
    elim found [ some column ↦ ok column | none ↦ err no_column ]

-- `fields[idx] = f(fields[idx])`
abbrev pub update : {T : Type 0} → (Field T → Field T) → ℕ → List (Field T) → List (Field T)
update f i [] = []
update f zero (x ∷ fields) = f x ∷ fields
update f (suc i) (x ∷ fields) = x ∷ update f i fields

abbrev pub with_geometry_meta : {T : Type 0} → Text → Field T → Field T
with_geometry_meta json f = record f { metadata = insert geometry_meta_key json f.metadata }

module _ {T E : Type 0} (from_json : Text → Result E GeometryMeta)
    (to_json : GeometryMeta → Result E Text) where
  unfoldable pub replaced :
      Schema T → Option Crs → Option (ℕ × Text × GeometryMeta) → Result E (Schema T)
  replaced schema new_crs none = ok schema
  replaced schema new_crs (some (idx, name, meta)) = do
    json ← to_json (record meta { crs = new_crs })
    ok (record schema { fields = update (with_geometry_meta json) idx schema.fields })

  unfoldable pub replace_geometry_crs : Schema T → Option Crs → Result E (Schema T)
  unfolding find_geometry_column replaced
  replace_geometry_crs schema new_crs = do
    found ← find_geometry_column from_json schema
    replaced schema new_crs found
