-- ===== src/Core/Schema/Runs.antt =====
-- A schema of three columns. The texts of these runs hold the codes of a GeometryMeta.
use shpx.Prelude.{
  Text, ℕ, ◌≡◌, refl, ◌∙◌, ap, subst, List, [], ◌∷◌, Option, none, some, true, Result, ok, err,
  Ensures, ◌==◌, if◌then◌else◌,
}
use shpx.Prelude.Outcome.{◌>>=◌}
use shpx.Core.Crs.{Crs, WktFlavor, v1, v2}
use shpx.Core.Schema.{
  GeometryEncoding, wkb, GeometryType, geometry, point, line_string, polygon, multi_point,
  multi_line_string, multi_polygon, geometry_collection, Edges, planar, spherical, GeometryMeta,
  Field, Schema, geometry_meta_key, find_geometry_column, replace_geometry_crs,
}
use shpx.Core.Schema.Replaced.{HasCrs, replace_geometry_crs-Ensures}

abbrev type_code : GeometryType → ℕ
type_code geometry = 0
type_code point = 1
type_code line_string = 2
type_code polygon = 3
type_code multi_point = 4
type_code multi_line_string = 5
type_code multi_polygon = 6
type_code geometry_collection = 7

abbrev type_of : ℕ → GeometryType
type_of n =
    if n == 1
    then point
    else if n == 2
    then line_string
    else if n == 3
    then polygon
    else if n == 4
    then multi_point
    else if n == 5
    then multi_line_string
    else if n == 6
    then multi_polygon
    else if n == 7
    then geometry_collection
    else geometry

type_of-type_code : (k : GeometryType) → type_of (type_code k) ≡ k
type_of-type_code geometry = refl
type_of-type_code point = refl
type_of-type_code line_string = refl
type_of-type_code polygon = refl
type_of-type_code multi_point = refl
type_of-type_code multi_line_string = refl
type_of-type_code multi_polygon = refl
type_of-type_code geometry_collection = refl

abbrev edges_code : Edges → ℕ
edges_code planar = 0
edges_code spherical = 1

abbrev edges_of : ℕ → Edges
edges_of n = if n == 1 then spherical else planar

edges_of-edges_code : (e : Edges) → edges_of (edges_code e) ≡ e
edges_of-edges_code planar = refl
edges_of-edges_code spherical = refl

abbrev pub meta_of : GeometryType → Option Crs → Edges → GeometryMeta
meta_of k c e = record { encoding = wkb; geometry_type = k; crs = c; edges = e }

-- A Crs with a text of WKT2 alone.
abbrev pub wkt_crs : Text → Crs
wkt_crs t = record { authority = none; wkt = some t; wkt_flavor = v2; projjson = none }

module _ {E : Type 0} (refused : E) where
  abbrev pub from_json : Text → Result E GeometryMeta
  from_json [] = err refused
  from_json (k ∷ []) = err refused
  from_json (k ∷ e ∷ []) = ok (meta_of (type_of k) none (edges_of e))
  from_json (k ∷ e ∷ mark ∷ t) = ok (meta_of (type_of k) (some (wkt_crs t)) (edges_of e))

  abbrev crs_text : Option (Text × ℕ) → Option Text → WktFlavor → Option Text → Result E Text
  crs_text (some a) w f p = err refused
  crs_text none none f p = err refused
  crs_text none (some t) v1 p = err refused
  crs_text none (some t) v2 (some q) = err refused
  crs_text none (some t) v2 none = ok t

  abbrev to_json_of : GeometryType → Option Crs → Edges → Result E Text
  to_json_of k none e = ok (type_code k ∷ edges_code e ∷ [])
  to_json_of k (some c) e = crs_text c.authority c.wkt c.wkt_flavor c.projjson >>= λ t.
      ok (type_code k ∷ edges_code e ∷ 0 ∷ t)

  -- A meta has a text if its CRS is none or a `wkt_crs`.
  abbrev pub to_json : GeometryMeta → Result E Text
  to_json m = to_json_of m.geometry_type m.crs m.edges

  codes_back :
      (k : GeometryType) (c : Option Crs) (e : Edges)
      → (let r : Result E GeometryMeta =
            ok (meta_of (type_of (type_code k)) c (edges_of (edges_code e))) in
          r)
        ≡ ok (meta_of k c e)
  codes_back k c e =
      ap (λ k'. ok (meta_of k' c (edges_of (edges_code e)))) (type_of-type_code k)
      ∙ ap (λ e'. ok (meta_of k c e')) (edges_of-edges_code e)

  crs_back :
      (k : GeometryType) (a : Option (Text × ℕ)) (w : Option Text) (f : WktFlavor) (p : Option Text)
      (e : Edges) (t : Text)
      → (crs_text a w f p >>= λ u. ok (type_code k ∷ edges_code e ∷ 0 ∷ u)) ≡ ok t
      → from_json t
        ≡ ok (meta_of k (some (record { authority = a; wkt = w; wkt_flavor = f; projjson = p })) e)
  crs_back k (some a) w f p e t h = cc
  crs_back k none none f p e t h = cc
  crs_back k none (some u) v1 p e t h = cc
  crs_back k none (some u) v2 (some q) e t h = cc
  crs_back k none (some u) v2 none e t h =
      subst (λ x. from_json x ≡ ok (meta_of k (some (wkt_crs u)) e))
        (let same : type_code k ∷ edges_code e ∷ 0 ∷ u ≡ t = cc in same)
        (codes_back k (some (wkt_crs u)) e)

  json_back_of :
      (n : GeometryEncoding) (k : GeometryType) (c : Option Crs) (e : Edges) (t : Text)
      → to_json_of k c e ≡ ok t
      → from_json t ≡ ok (record { encoding = n; geometry_type = k; crs = c; edges = e })
  json_back_of wkb k none e t h =
      subst (λ u. from_json u ≡ ok (meta_of k none e))
        (let same : type_code k ∷ edges_code e ∷ [] ≡ t = cc in same) (codes_back k none e)
  json_back_of wkb k (some c) e t h = crs_back k c.authority c.wkt c.wkt_flavor c.projjson e t h

  pub json_back : (m : GeometryMeta) (t : Text) → to_json m ≡ ok t → from_json t ≡ ok m
  json_back m t h = json_back_of m.encoding m.geometry_type m.crs m.edges t h

abbrev column : Text → List (Text × Text) → Field (Unit {0})
column name metadata = record { name = name; data_type = tt; nullable = true; metadata = metadata }

-- The columns a, b and c, of which b has polygons, with a CRS of the text.
abbrev pub places_in : Text → Schema (Unit {0})
places_in t = record {
  fields =
      column (97 ∷ []) []
      ∷ column (98 ∷ []) ((geometry_meta_key, 3 ∷ 0 ∷ 0 ∷ t) ∷ [])
      ∷ column (99 ∷ []) []
      ∷ [];
  metadata = [];
}

abbrev pub places : Schema (Unit {0})
places = places_in (7 ∷ [])

abbrev old_meta : GeometryMeta
old_meta = meta_of polygon (some (wkt_crs (7 ∷ []))) planar

abbrev new_crs : Option Crs
new_crs = some (wkt_crs (8 ∷ []))

places_found : find_geometry_column (from_json tt) places ≡ ok (some (1, 98 ∷ [], old_meta))
unfolding find_geometry_column
places_found = refl

replace_geometry_crs-Ensures_example :
    Ensures
      (HasCrs (from_json tt) (to_json tt) places new_crs 1 (98 ∷ []) old_meta)
      (λ e. to_json tt (record old_meta { crs = new_crs }) ≡ err e)
      (replace_geometry_crs (from_json tt) (to_json tt) places new_crs)
replace_geometry_crs-Ensures_example =
    replace_geometry_crs-Ensures (from_json tt) (to_json tt) (json_back tt) places new_crs 1
      (98 ∷ []) old_meta places_found
