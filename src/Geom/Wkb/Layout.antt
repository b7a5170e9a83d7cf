-- ===== src/Geom/Wkb/Layout.antt =====
-- WKB as a format: the bytes of a geometry in a byte order, by concatenation.
use shpx.Prelude.{
  ℕ, ◌+◌, ◌*◌, ◌≤◌, ◌<◌, ◌≡◌, refl, ◌∙◌, arith, List, [], ◌∷◌, ◌++◌, Bool, if◌then◌else◌, length,
  length-append,
}
use shpx.Geom.Types.{
  Coord, Geom, point, line_string, polygon, multi_point, multi_line_string, multi_polygon,
}
use shpx.Geom.Bytes.{to_bytes, length-to_bytes}
use shpx.Geom.Wkb.Encode.{
  ty_point, ty_linestring, ty_polygon, ty_multipoint, ty_multilinestring, ty_multipolygon,
  byte_order_le, byte_order_be, header_size, coord_size, count_size, sum_map, estimate_size,
  ring_size, line_size, polygon_size,
}

abbrev pub concat_map : {A : Type 0} → (A → List ℕ) → List A → List ℕ
concat_map f [] = []
concat_map f (x ∷ xs) = f x ++ concat_map f xs

unfoldable pub header_bytes : Bool → ℕ → List ℕ
header_bytes little ty = (if little then byte_order_le else byte_order_be) ∷ to_bytes little 4 ty

unfoldable pub coord_bytes : Bool → Coord → List ℕ
coord_bytes little (x, y) = to_bytes little 8 x ++ to_bytes little 8 y

-- A u32 count and the members.
unfoldable pub counted_bytes : {A : Type 0} → Bool → (A → List ℕ) → List A → List ℕ
counted_bytes little f xs = to_bytes little 4 (length xs) ++ concat_map f xs

unfoldable pub ring_bytes : Bool → List Coord → List ℕ
unfolding counted_bytes coord_bytes
ring_bytes little = counted_bytes little (coord_bytes little)

unfoldable pub point_bytes : Bool → Coord → List ℕ
point_bytes little c = header_bytes little ty_point ++ coord_bytes little c

unfoldable pub line_bytes : Bool → List Coord → List ℕ
line_bytes little pts = header_bytes little ty_linestring ++ ring_bytes little pts

unfoldable pub polygon_bytes : Bool → List (List Coord) → List ℕ
polygon_bytes little rings =
    header_bytes little ty_polygon ++ counted_bytes little (ring_bytes little) rings

unfoldable pub layout : Bool → Geom → List ℕ
layout little (point x y) = point_bytes little (x, y)
layout little (line_string pts) = line_bytes little pts
layout little (polygon rings) = polygon_bytes little rings
layout little (multi_point pts) =
    header_bytes little ty_multipoint ++ counted_bytes little (point_bytes little) pts
layout little (multi_line_string lines) =
    header_bytes little ty_multilinestring ++ counted_bytes little (line_bytes little) lines
layout little (multi_polygon polys) =
    header_bytes little ty_multipolygon ++ counted_bytes little (polygon_bytes little) polys

module _ (little : Bool) where
  pub length-header_bytes : (ty : ℕ) → length (header_bytes little ty) ≡ header_size
  unfolding header_bytes
  length-header_bytes ty = omega (arith, length-to_bytes little 4 ty)

  pub length-coord_bytes : (c : Coord) → length (coord_bytes little c) ≡ coord_size
  unfolding coord_bytes
  length-coord_bytes (x, y) = omega (
    arith,
    length-append (to_bytes little 8 x) (to_bytes little 8 y),
    length-to_bytes little 8 x,
    length-to_bytes little 8 y,
  )

length-concat_map :
    {A : Type 0} (f : A → List ℕ) (size : A → ℕ) (xs : List A)
    → ((x : A) → length (f x) ≡ size x)
    → length (concat_map f xs) ≡ sum_map size xs
length-concat_map f size [] h = refl
length-concat_map f size (x ∷ xs) h =
    omega (arith, length-append (f x) (concat_map f xs), h x, length-concat_map f size xs h)

pub sum_map-const : {A : Type 0} (k : ℕ) (xs : List A) → sum_map (λ _. k) xs ≡ length xs * k
sum_map-const k [] = omega arith
sum_map-const k (x ∷ xs) = omega (arith, sum_map-const k xs)

-- Members of at least `k` bytes: what the checks before the allocations count on.
pub concat_map-ge :
    {A : Type 0} (f : A → List ℕ) (k : ℕ) (xs : List A)
    → ((x : A) → k ≤ length (f x))
    → length xs * k ≤ length (concat_map f xs)
concat_map-ge f k [] h = omega arith
concat_map-ge f k (x ∷ xs) h =
    omega (arith, length-append (f x) (concat_map f xs), h x, concat_map-ge f k xs h)

module _ (little : Bool) where
  pub length-counted_bytes :
      {A : Type 0} (f : A → List ℕ) (size : A → ℕ) (xs : List A)
      → ((x : A) → length (f x) ≡ size x)
      → length (counted_bytes little f xs) ≡ count_size + sum_map size xs
  unfolding counted_bytes
  length-counted_bytes f size xs h = omega (
    arith,
    length-append (to_bytes little 4 (length xs)) (concat_map f xs),
    length-to_bytes little 4 (length xs),
    length-concat_map f size xs h,
  )

  length-counted_const :
      {A : Type 0} (f : A → List ℕ) (k : ℕ) (xs : List A)
      → ((x : A) → length (f x) ≡ k)
      → length (counted_bytes little f xs) ≡ count_size + length xs * k
  length-counted_const f k xs h =
      omega (arith, length-counted_bytes f (λ _. k) xs h, sum_map-const k xs)

  pub length-ring_bytes : (pts : List Coord) → length (ring_bytes little pts) ≡ ring_size pts
  unfolding ring_bytes
  length-ring_bytes pts =
      length-counted_const (coord_bytes little) coord_size pts (length-coord_bytes little)

  with_header :
      (ty n : ℕ) (xs : List ℕ)
      → length xs ≡ n
      → length (header_bytes little ty ++ xs) ≡ header_size + n
  with_header ty n xs h =
      omega (arith, length-append (header_bytes little ty) xs, length-header_bytes little ty)

  pub length-point_bytes : (c : Coord) → length (point_bytes little c) ≡ header_size + coord_size
  unfolding point_bytes
  length-point_bytes c = with_header ty_point coord_size _ (length-coord_bytes little c)

  pub length-line_bytes :
      (pts : List Coord) → length (line_bytes little pts) ≡ header_size + ring_size pts
  unfolding line_bytes
  length-line_bytes pts = with_header ty_linestring _ _ (length-ring_bytes pts)

  pub length-polygon_bytes :
      (rings : List (List Coord))
      → length (polygon_bytes little rings) ≡ header_size + (count_size + sum_map ring_size rings)
  unfolding polygon_bytes
  length-polygon_bytes rings =
      with_header ty_polygon _ _
        (length-counted_bytes (ring_bytes little) ring_size rings length-ring_bytes)

  length-line_size : (pts : List Coord) → length (line_bytes little pts) ≡ line_size pts
  length-line_size pts = length-line_bytes pts ∙ omega arith

  length-polygon_size :
      (rings : List (List Coord)) → length (polygon_bytes little rings) ≡ polygon_size rings
  length-polygon_size rings = length-polygon_bytes rings ∙ omega arith

  -- The format's size of a geometry is `estimate_size`, in either byte order.
  pub length-layout : (g : Geom) → length (layout little g) ≡ estimate_size g
  unfolding layout estimate_size
  length-layout (point x y) = length-point_bytes (x, y)
  length-layout (line_string pts) = length-line_bytes pts ∙ omega arith
  length-layout (polygon rings) = length-polygon_bytes rings ∙ omega arith
  length-layout (multi_point pts) =
      with_header ty_multipoint _ _
        (length-counted_const (point_bytes little) _ pts length-point_bytes)
      ∙ omega arith
  length-layout (multi_line_string lines) =
      with_header ty_multilinestring _ _
        (length-counted_bytes (line_bytes little) line_size lines length-line_size)
      ∙ omega arith
  length-layout (multi_polygon polys) =
      with_header ty_multipolygon _ _
        (length-counted_bytes (polygon_bytes little) polygon_size polys length-polygon_size)
      ∙ omega arith

  -- Every layout is a header with one of the six types, and a body.
  pub layout-header :
      (g : Geom)
      → (ty : ℕ) × (body : List ℕ) × (ty < 7) × (layout little g ≡ header_bytes little ty ++ body)
  unfolding layout point_bytes line_bytes polygon_bytes
  layout-header (point x y) = (1, _, omega arith, refl)
  layout-header (line_string pts) = (2, _, omega arith, refl)
  layout-header (polygon rings) = (3, _, omega arith, refl)
  layout-header (multi_point pts) = (4, _, omega arith, refl)
  layout-header (multi_line_string lines) = (5, _, omega arith, refl)
  layout-header (multi_polygon polys) = (6, _, omega arith, refl)
