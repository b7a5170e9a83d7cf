-- ===== src/Geom/Wkb/RoundTrip.antt =====
-- `decode` reads the layout of every representable geometry, in either byte order.
use shpx.Prelude.{
  ℕ, suc, ◌+◌, ◌-◌, ◌^◌, ◌≤◌, ◌<◌, ◌≡◌, sym, ◌∙◌, ap, subst, arith, List, [], ◌∷◌, ◌++◌, append-nil,
  Bool, true, false, ok, if◌then◌else◌, length, All,
}
use shpx.Geom.Types.{
  Coord, Geom, IsCoord, IsPoints, IsRings, IsCounted, IsGeom, point, line_string, polygon,
  multi_point, multi_line_string, multi_polygon,
}
use shpx.Geom.Bytes.{to_bytes}
use shpx.Geom.Cursor.{
  Cursor, Reader, pure, ◌>>=◌, ensure_remaining_for, take_byte, read_u32, read_f64, read_coord,
}
use shpx.Geom.Cursor.Reads.{
  Reads, Reads-pure, Reads-bind, Reads-map, Reads-byte, Reads-u32, Reads-f64, ensure-Reads,
}
use shpx.Geom.Wkb.Encode.{
  estimate_size, ty_point, ty_linestring, ty_polygon, ty_multipoint, ty_multilinestring,
  ty_multipolygon, byte_order_le, byte_order_be,
}
use shpx.Geom.Wkb.Decode.{
  read_many, read_pts, read_ring, read_members, read_typed, byte_order, read_geom, finish, decode,
  as_point, as_line_string, as_polygon,
}
use shpx.Geom.Wkb.Layout.{
  concat_map, header_bytes, coord_bytes, counted_bytes, ring_bytes, point_bytes, line_bytes,
  polygon_bytes, layout, concat_map-ge, length-coord_bytes, length-ring_bytes, length-point_bytes,
  length-line_bytes, length-polygon_bytes, length-layout,
}

pub Reads-many :
    {A : Type 0} (P : A → Type 0) (read : Reader A) (f : A → List ℕ) (xs : List A)
    → ((x : A) → P x → Reads read (f x) x)
    → All P xs
    → Reads (read_many read (length xs)) (concat_map f xs) xs
unfolding read_many
Reads-many P read f [] step h = Reads-pure []
Reads-many P read f (x ∷ xs) step (hx, hxs) =
    Reads-bind read _ (f x) (concat_map f xs) x _ (step x hx) (
      Reads-map (read_many read (length xs)) (λ rest. x ∷ rest) _ xs
        (Reads-many P read f xs step hxs))

Reads-byte_order :
    (little : Bool) → Reads (byte_order (if little then byte_order_le else byte_order_be)) [] little
unfolding byte_order
Reads-byte_order true = Reads-pure true
Reads-byte_order false = Reads-pure false

module _ (little : Bool) where
  pub Reads-coord : (c : Coord) → IsCoord c → Reads (read_coord little) (coord_bytes little c) c
  unfolding read_coord coord_bytes
  Reads-coord (x, y) (hx, hy) =
      Reads-bind (read_f64 little) _ _ _ x _ (Reads-f64 little x hx)
        (Reads-map (read_f64 little) (λ y'. (x, y')) _ y (Reads-f64 little y hy))

  -- A count, the check that the members are there, and the members.
  pub Reads-counted :
      {A B : Type 0} (P : A → Type 0) (read : Reader A) (f : A → List ℕ) (size : ℕ)
      (make : List A → B) (xs : List A)
      → IsCounted P xs
      → ((x : A) → P x → Reads read (f x) x)
      → ((x : A) → size ≤ length (f x))
      → Reads
          (do
            n ← read_u32 little
            _ ← ensure_remaining_for n size
            ys ← read_many read n
            pure (make ys))
          (counted_bytes little f xs)
          (make xs)
  unfolding counted_bytes
  Reads-counted P read f size make xs (fits, all) step big =
      Reads-bind (read_u32 little) _ _ _ (length xs) _ (Reads-u32 little (length xs) fits) (
        ensure-Reads (length xs) size _ (concat_map f xs) _ (concat_map-ge f size xs big)
          (Reads-map (read_many read (length xs)) make _ xs (Reads-many P read f xs step all)))

  Reads-members :
      {A : Type 0} (P : A → Type 0) (child : Reader Geom) (as_member : Geom → Reader A)
      (f : A → List ℕ) (make : A → Geom) (size : ℕ) (xs : List A)
      → IsCounted P xs
      → ((x : A) → P x → Reads child (f x) (make x))
      → ((x : A) → Reads (as_member (make x)) [] x)
      → ((x : A) → size ≤ length (f x))
      → Reads (read_members child as_member size little) (counted_bytes little f xs) xs
  unfolding read_members counted_bytes
  Reads-members P child as_member f make size xs (fits, all) step inv big =
      Reads-bind (read_u32 little) _ _ _ (length xs) _ (Reads-u32 little (length xs) fits) (
        ensure-Reads (length xs) size _ (concat_map f xs) _ (concat_map-ge f size xs big)
          (Reads-many P (child >>= as_member) f xs member all))
    where
      member : (x : _) → P x → Reads (child >>= as_member) (f x) x
      member x hx =
          subst (λ bs. Reads (child >>= as_member) bs x) (append-nil (f x))
            (Reads-bind child as_member (f x) [] (make x) x (step x hx) (inv x))

  Reads-pts :
      (pts : List Coord)
      → IsPoints pts
      → Reads (read_pts (length pts) little) (concat_map (coord_bytes little) pts) pts
  unfolding read_pts
  Reads-pts pts (fits, all) =
      ensure-Reads (length pts) 16 _ _ pts
        (concat_map-ge (coord_bytes little) 16 pts
          (λ c. omega (arith, length-coord_bytes little c)))
        (Reads-many IsCoord (read_coord little) (coord_bytes little) pts Reads-coord all)

  pub Reads-ring :
      (pts : List Coord) → IsPoints pts → Reads (read_ring little) (ring_bytes little pts) pts
  unfolding read_ring ring_bytes
  Reads-ring pts h =
      Reads-bind (read_u32 little) (λ np. read_pts np little) _ _ (length pts) pts
        (Reads-u32 little (length pts) h.0) (Reads-pts pts h)

  -- The read of a geometry whose header names the type `ty`.
  with_header :
      (fuel ty : ℕ) (body : List ℕ) (g : Geom)
      → ty < 2 ^ 32
      → Reads (read_typed (read_geom fuel) little ty) body g
      → Reads (read_geom (suc fuel)) (header_bytes little ty ++ body) g
  unfolding read_geom header_bytes
  with_header fuel ty body g small h c rest =
      Reads-bind take_byte _ (order ∷ []) _ order g (Reads-byte order)
        (Reads-bind (byte_order order) _ [] _ little g (Reads-byte_order little) (
          Reads-bind (read_u32 little) _ (to_bytes little 4 ty) body ty g
            (Reads-u32 little ty small) h))
        c rest
    where
      order : ℕ
      order = if little then byte_order_le else byte_order_be

  pub Reads-point :
      (fuel : ℕ) (c : Coord)
      → IsCoord c
      → Reads (read_geom (suc fuel)) (point_bytes little c) (point c.0 c.1)
  unfolding point_bytes coord_bytes
  Reads-point fuel (x, y) (hx, hy) = with_header fuel ty_point _ _ (omega arith) (
      unfold read_typed in
      Reads-bind (read_f64 little) _ _ _ x _ (Reads-f64 little x hx)
        (Reads-map (read_f64 little) (λ y'. point x y') _ y (Reads-f64 little y hy)))

  pub Reads-line :
      (fuel : ℕ) (pts : List Coord)
      → IsPoints pts
      → Reads (read_geom (suc fuel)) (line_bytes little pts) (line_string pts)
  unfolding line_bytes ring_bytes
  Reads-line fuel pts h = with_header fuel ty_linestring _ _ (omega arith) (
      unfold read_typed in
      Reads-bind (read_u32 little) _ _ _ (length pts) _ (Reads-u32 little (length pts) h.0)
        (Reads-map (read_pts (length pts) little) line_string _ pts (Reads-pts pts h)))

  pub Reads-polygon :
      (fuel : ℕ) (rings : List (List Coord))
      → IsRings rings
      → Reads (read_geom (suc fuel)) (polygon_bytes little rings) (polygon rings)
  unfolding polygon_bytes
  Reads-polygon fuel rings h = with_header fuel ty_polygon _ _ (omega arith) (
      unfold read_typed in
      Reads-counted IsPoints (read_ring little) (ring_bytes little) 4 polygon rings h Reads-ring
        (λ r. omega (arith, length-ring_bytes little r)))

  -- A member of a collection is read by one more call.
  pub Reads-geom :
      (fuel : ℕ) (g : Geom) → IsGeom g → Reads (read_geom (suc (suc fuel))) (layout little g) g
  unfolding layout
  Reads-geom fuel (point x y) h = Reads-point (suc fuel) (x, y) h
  Reads-geom fuel (line_string pts) h = Reads-line (suc fuel) pts h
  Reads-geom fuel (polygon rings) h = Reads-polygon (suc fuel) rings h
  Reads-geom fuel (multi_point pts) h = with_header (suc fuel) ty_multipoint _ _ (omega arith) (
      unfold read_typed in
      Reads-map (read_members (read_geom (suc fuel)) as_point 21 little) multi_point _ pts (
        Reads-members IsCoord (read_geom (suc fuel)) as_point (point_bytes little)
          (λ c. point c.0 c.1) 21 pts h (Reads-point fuel) (λ c. Reads-pure c)
          (λ c. omega (arith, length-point_bytes little c))))
  Reads-geom fuel (multi_line_string lines) h =
      with_header (suc fuel) ty_multilinestring _ _ (omega arith) (
        unfold read_typed in
        Reads-map (read_members (read_geom (suc fuel)) as_line_string 9 little) multi_line_string _
          lines
          (Reads-members IsPoints (read_geom (suc fuel)) as_line_string (line_bytes little)
            line_string 9 lines h (Reads-line fuel) (λ l. Reads-pure l)
            (λ l. omega (arith, length-line_bytes little l))))
  Reads-geom fuel (multi_polygon polys) h =
      with_header (suc fuel) ty_multipolygon _ _ (omega arith) (
        unfold read_typed in
        Reads-map (read_members (read_geom (suc fuel)) as_polygon 9 little) multi_polygon _ polys (
          Reads-members IsRings (read_geom (suc fuel)) as_polygon (polygon_bytes little) polygon 9
            polys h (Reads-polygon fuel) (λ l. Reads-pure l)
            (λ l. omega (arith, length-polygon_bytes little l))))

estimate_size-pos : (g : Geom) → 0 < estimate_size g
unfolding estimate_size
estimate_size-pos (point x y) = omega arith
estimate_size-pos _ = omega arith

-- `decode` reads the WKB of every representable geometry, in either byte order.
pub decode-layout :
    (little : Bool) (g : Geom)
    → IsGeom g
    → estimate_size g < 2 ^ 64
    → decode (layout little g) ≡ ok g
unfolding decode finish
decode-layout little g h small =
    ap finish (
      ap (λ n. read_geom (suc n) start) (let e : len ≡ suc (len - 1) = omega (arith, long) in e)
      ∙ Reads-geom little (len - 1) g h start [] (sym (append-nil bytes)) short)
    ∙ finish-end
  where
    bytes : List ℕ
    bytes = layout little g

    len : ℕ
    len = length bytes

    start : Cursor
    start = record { bytes = bytes; pos = 0 }

    short : len < 2 ^ 64
    short = omega (arith, length-layout little g)

    long : 0 < len
    long = omega (arith, length-layout little g, estimate_size-pos g)

    finish-end : finish (ok (g, record { bytes = bytes; pos = 0 + len })) ≡ ok g
    finish-end = ground arith
