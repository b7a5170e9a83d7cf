-- ===== src/Geom/Types.antt =====
-- crates/shpx-geom/src/wkb.rs: the geometry type, and the errors of the codecs.
-- An f64 is its 64-bit pattern, a number below 2 ^ 64: the codecs only move the pattern.
use shpx.Prelude.{Text, ℕ, ◌<◌, ◌^◌, List, Option, All, length}

abbrev pub F64 : Type 0
F64 = ℕ

abbrev pub Coord : Type 0
Coord = F64 × F64

pub data Geom : Type 0 where
  point : F64 → F64 → Geom
  line_string : List Coord → Geom
  polygon : List (List Coord) → Geom
  multi_point : List Coord → Geom
  multi_line_string : List (List Coord) → Geom
  multi_polygon : List (List (List Coord)) → Geom

-- The list of a WKT text that its end cut short.
pub data Place : Type 0 where
  in_coordinates : Place
  in_rings : Place
  in_multi_point : Place
  in_multi_line_string : Place
  in_multi_polygon : Place

-- The messages of `Error::Geometry`, one constructor for each `format!` of the sources.
-- `out_of_fuel` is no error of the program: a recursion of the model met its bound.
pub data Fault : Type 0 where
  count_exceeds : ℕ → Fault
  trailing : ℕ → Fault
  bad_byte_order : ℕ → Fault
  unsupported_type : ℕ → Fault
  bad_child : Geom → Fault
  count_overflow : ℕ → ℕ → Fault
  count_short : ℕ → ℕ → ℕ → Fault
  cursor_overflow : Fault
  truncated : ℕ → ℕ → Fault
  too_short : ℕ → Fault
  already_srid : Fault
  zm_unsupported : Fault
  srid_truncated : Fault
  bad_magic : ℕ → ℕ → Fault
  bad_version : ℕ → Fault
  bad_envelope : ℕ → Fault
  envelope_truncated : ℕ → ℕ → Fault
  bad_start : ℕ → Fault
  bad_endian : ℕ → Fault
  bad_mbr_end : ℕ → Fault
  bad_end : ℕ → Fault
  bad_entity : ℕ → Fault
  bad_child_type : ℕ → Fault
  collection_unsupported : Fault
  empty_geometry : Fault
  expected_byte : ℕ → ℕ → Option ℕ → Fault
  expected_keyword : ℕ → Fault
  expected_number : ℕ → Fault
  invalid_number : Text → ℕ → Fault
  empty_unsupported : Fault
  unsupported_keyword : Text → Fault
  expected_separator : ℕ → ℕ → Fault
  unexpected_eof : Place → Fault
  trailing_characters : ℕ → Fault
  out_of_fuel : Fault

abbrev pub IsF64 : F64 → Type 0
IsF64 v = v < 2 ^ 64

abbrev pub IsCoord : Coord → Type 0
IsCoord c = IsF64 c.0 × IsF64 c.1

-- A list whose length a u32 count can hold, with a property of its members.
abbrev pub IsCounted : {A : Type 0} → (A → Type 0) → List A → Type 0
IsCounted P xs = (length xs < 2 ^ 32) × All P xs

abbrev pub IsPoints : List Coord → Type 0
IsPoints = IsCounted IsCoord

abbrev pub IsRings : List (List Coord) → Type 0
IsRings = IsCounted IsPoints

-- The geometries that the binary formats can represent.
abbrev pub IsGeom : Geom → Type 0
IsGeom (point x y) = IsCoord (x, y)
IsGeom (line_string pts) = IsPoints pts
IsGeom (polygon rings) = IsRings rings
IsGeom (multi_point pts) = IsPoints pts
IsGeom (multi_line_string lines) = IsRings lines
IsGeom (multi_polygon polys) = IsCounted IsRings polys
