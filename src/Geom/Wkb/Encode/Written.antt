-- ===== src/Geom/Wkb/Encode/Written.antt =====
-- What `encode` writes: the format of `Layout`, or nothing, if a count is too large for a u32.
use shpx.Prelude.{
  ℕ, ◌^◌, ◌≤◌, ◌<◌, ◌≡◌, refl, sym, ◌∙◌, arith, List, [], ◌∷◌, ◌++◌, append_assoc, append-nil, true,
  Result, ok, Ensures, holds, fails, Ensures-bind, Ensures-map, length, All, ltb, Bool-cases, inl,
  inr,
}
use shpx.Prelude.Outcome.{◌>>=◌}
use shpx.Geom.Types.{
  Coord, Geom, Fault, IsCounted, point, line_string, polygon, multi_point, multi_line_string,
  multi_polygon, count_exceeds,
}
use shpx.Geom.Bytes.{to_le_bytes, to_bytes}
use shpx.Geom.Wkb.Encode.{
  write_header, write_xy, write_count, write_points, write_all, write_ring, encode_point_into,
  encode_linestring_into, encode_polygon_into, encode_into, encode, ty_multipoint,
  ty_multilinestring, ty_multipolygon, ty_point, ty_linestring, ty_polygon,
}
use shpx.Geom.Wkb.Layout.{
  concat_map, header_bytes, coord_bytes, counted_bytes, ring_bytes, point_bytes, line_bytes,
  polygon_bytes, layout,
}

-- The counts of a geometry fit a u32.
abbrev pub FitsPoints : List Coord → Type 0
FitsPoints pts = length pts < 2 ^ 32

abbrev pub FitsRings : List (List Coord) → Type 0
FitsRings = IsCounted FitsPoints

abbrev pub Fits : Geom → Type 0
Fits (point x y) = Unit {0}
Fits (line_string pts) = FitsPoints pts
Fits (polygon rings) = FitsRings rings
Fits (multi_point pts) = FitsPoints pts
Fits (multi_line_string lines) = FitsRings lines
Fits (multi_polygon polys) = IsCounted FitsRings polys

abbrev pub Exceeds : Fault → Type 0
Exceeds e = (n : ℕ) × (e ≡ count_exceeds n) × (2 ^ 32 ≤ n)

-- A write behind `buf`: it appends `bs` where `F` holds, and refuses a count where it does not.
abbrev pub Writes : Type 0 → List ℕ → List ℕ → Result Fault (List ℕ) → Type 0
Writes F buf bs = Ensures (λ out. F × (out ≡ buf ++ bs)) (λ e. (F → ⊥) × Exceeds e)

write_header-bytes : (buf : List ℕ) (ty : ℕ) → write_header buf ty ≡ buf ++ header_bytes true ty
unfolding write_header header_bytes to_bytes
write_header-bytes buf ty = append_assoc buf (1 ∷ []) (to_le_bytes 4 ty)

write_points-bytes :
    (buf : List ℕ) (pts : List Coord)
    → write_points buf pts ≡ buf ++ concat_map (coord_bytes true) pts
unfolding write_points coord_bytes to_bytes
write_points-bytes buf [] = sym (append-nil buf)
write_points-bytes buf ((x, y) ∷ pts) =
    write_points-bytes (write_xy buf x y) pts ∙ simp append_assoc

write_count-Writes :
    (buf : List ℕ) (n : ℕ) → Writes (n < 2 ^ 32) buf (to_bytes true 4 n) (write_count buf n)
unfolding write_count to_bytes
write_count-Writes buf n = elim (Bool-cases (ltb n (2 ^ 32))) [
  | inl small ↦ rw small (holds (ground arith, refl))
  | inr large ↦ rw large (fails (ground arith, (n, refl, ground arith)))
]

Writes-bind :
    {F G : Type 0} (m : Result Fault (List ℕ)) (k : List ℕ → Result Fault (List ℕ))
    (buf xs ys : List ℕ)
    → Writes F buf xs m
    → Writes G (buf ++ xs) ys (k (buf ++ xs))
    → Writes (F × G) buf (xs ++ ys) (m >>= k)
Writes-bind m k buf xs ys h hk =
    Ensures-bind h
      (λ out (f, e). rw e (
        Ensures-map hk (λ out' (g, e'). ((f, g), e' ∙ append_assoc buf xs ys))
          (λ e' (no_fit, big). ((λ fg. no_fit fg.1), big))))
      (λ e (no_fit, big). ((λ fg. no_fit fg.0), big))

write_all-Writes :
    {A : Type 0} (F : A → Type 0) (write : A → List ℕ → Result Fault (List ℕ)) (f : A → List ℕ)
    → ((x : A) (buf : List ℕ) → Writes (F x) buf (f x) (write x buf))
    → (xs : List A) (buf : List ℕ)
    → Writes (All F xs) buf (concat_map f xs) (write_all write xs buf)
unfolding write_all
write_all-Writes F write f step [] buf = holds (tt, sym (append-nil buf))
write_all-Writes F write f step (x ∷ xs) buf =
    Writes-bind (write x buf) (write_all write xs) buf (f x) (concat_map f xs) (step x buf)
      (write_all-Writes F write f step xs (buf ++ f x))

-- A count and the members, one after the other.
pub IsCounted-Writes :
    {A : Type 0} (F : A → Type 0) (write : A → List ℕ → Result Fault (List ℕ)) (f : A → List ℕ)
    → ((x : A) (buf : List ℕ) → Writes (F x) buf (f x) (write x buf))
    → (xs : List A) (buf : List ℕ)
    → Writes
        (IsCounted F xs)
        buf
        (counted_bytes true f xs)
        (write_count buf (length xs) >>= write_all write xs)
unfolding counted_bytes
IsCounted-Writes F write f step xs buf =
    Writes-bind (write_count buf (length xs)) (write_all write xs) buf _ (concat_map f xs)
      (write_count-Writes buf (length xs)) (write_all-Writes F write f step xs _)

pub write_ring-Writes :
    (ring : List Coord) (buf : List ℕ)
    → Writes (FitsPoints ring) buf (ring_bytes true ring) (write_ring ring buf)
unfolding write_ring ring_bytes
write_ring-Writes ring buf =
    Ensures-bind (write_count-Writes buf (length ring))
      (λ out (f, e). holds (f, write_points-bytes out ring ∙ rw e (append_assoc buf _ _)))
      (λ e h. h)

-- A header, and what is written behind it.
headed :
    {F : Type 0} (k : List ℕ → Result Fault (List ℕ)) (buf : List ℕ) (ty : ℕ) (ys : List ℕ)
    → Writes F (buf ++ header_bytes true ty) ys (k (buf ++ header_bytes true ty))
    → Writes F buf (header_bytes true ty ++ ys) (k (write_header buf ty))
headed k buf ty ys h =
    rw (write_header-bytes buf ty)
      (Ensures-map h (λ out (f, e). (f, e ∙ append_assoc buf _ ys)) (λ e q. q))

pub xy-bytes : (buf : List ℕ) (x y : ℕ) → write_xy buf x y ≡ buf ++ coord_bytes true (x, y)
unfolding write_xy coord_bytes to_bytes
xy-bytes buf x y = append_assoc buf (to_le_bytes 8 x) (to_le_bytes 8 y)

point-Writes :
    (c : Coord) (buf : List ℕ)
    → Writes (Unit {0}) buf (point_bytes true c) (ok (encode_point_into c buf))
unfolding encode_point_into point_bytes
point-Writes (x, y) buf =
    headed (λ b. ok (write_xy b x y)) buf ty_point _
      (holds (tt, xy-bytes (buf ++ header_bytes true ty_point) x y))

line-Writes :
    (pts : List Coord) (buf : List ℕ)
    → Writes (FitsPoints pts) buf (line_bytes true pts) (encode_linestring_into pts buf)
unfolding encode_linestring_into line_bytes write_ring
line-Writes pts buf = headed (write_ring pts) buf ty_linestring _ (write_ring-Writes pts _)

polygon-Writes :
    (rings : List (List Coord)) (buf : List ℕ)
    → Writes (FitsRings rings) buf (polygon_bytes true rings) (encode_polygon_into rings buf)
unfolding encode_polygon_into polygon_bytes
polygon-Writes rings buf =
    headed (λ b. write_count b (length rings) >>= write_all write_ring rings) buf ty_polygon _
      (IsCounted-Writes FitsPoints write_ring (ring_bytes true) write_ring-Writes rings _)

pub All-Unit : {A : Type 0} (xs : List A) → All (λ _. Unit {0}) xs
All-Unit [] = tt
All-Unit (x ∷ xs) = (tt, All-Unit xs)

encode_into-Writes :
    (g : Geom) (buf : List ℕ) → Writes (Fits g) buf (layout true g) (encode_into g buf)
unfolding encode_into layout
encode_into-Writes (point x y) buf = point-Writes (x, y) buf
encode_into-Writes (line_string pts) buf = line-Writes pts buf
encode_into-Writes (polygon rings) buf = polygon-Writes rings buf
encode_into-Writes (multi_point pts) buf =
    Ensures-map
      (headed
        (λ b. write_count b (length pts) >>= write_all (λ c b. ok (encode_point_into c b)) pts) buf
        ty_multipoint _
        (IsCounted-Writes (λ _. Unit {0}) (λ c b. ok (encode_point_into c b)) (point_bytes true)
          point-Writes pts _))
      (λ out (f, e). (f.0, e)) (λ e (no_fit, big). ((λ f. no_fit (f, All-Unit pts)), big))
encode_into-Writes (multi_line_string lines) buf =
    headed (λ b. write_count b (length lines) >>= write_all encode_linestring_into lines) buf
      ty_multilinestring _
      (IsCounted-Writes FitsPoints encode_linestring_into (line_bytes true) line-Writes lines _)
encode_into-Writes (multi_polygon polys) buf =
    headed (λ b. write_count b (length polys) >>= write_all encode_polygon_into polys) buf
      ty_multipolygon _
      (IsCounted-Writes FitsRings encode_polygon_into (polygon_bytes true) polygon-Writes polys _)

-- `encode` writes the little-endian format of a geometry whose counts fit a u32, and refuses any
-- other with the error of a count above `u32::MAX`.
pub encode-Ensures :
    (g : Geom)
    → Ensures (λ out. Fits g × (out ≡ layout true g)) (λ e. (Fits g → ⊥) × Exceeds e) (encode g)
unfolding encode
encode-Ensures g = encode_into-Writes g []
