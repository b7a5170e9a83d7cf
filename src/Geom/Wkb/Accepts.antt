-- ===== src/Geom/Wkb/Accepts.antt =====
-- Whatever `decode` accepts is a representable geometry of exactly the input's size, and its
-- recursion never runs out of the model's fuel.
use shpx.Prelude.{
  ℕ, zero, suc, ◌+◌, ◌≡◌, ◌≢◌, refl, ap, arith, List, ◌==◌, ok, err, Bool, true, false, Bool-cases,
  inl, inr, Ensures, holds, fails, Ensures-ok, Ensures-err, Ensures-map, length, All, Result,
  if◌then◌else◌,
}
use shpx.Geom.Types.{
  Geom, Fault, IsCoord, IsPoints, IsRings, IsGeom, line_string, polygon, multi_point,
  multi_line_string, multi_polygon, bad_byte_order, unsupported_type, out_of_fuel,
}
use shpx.Geom.Bytes.{IsByte}
use shpx.Geom.Cursor.{Cursor, Reader, take_byte, read_u32, read_f64}
use shpx.Geom.Cursor.Spends.{
  Spent, Spends, Spends-pure, Spends-fail, Spends-bind, Spends-map, Spends-weaken, Spends-conv,
  Spends-take_byte, Spends-read_u32, Spends-read_f64,
}
use shpx.Geom.Wkb.Encode.{estimate_size, ring_size, line_size, polygon_size}
use shpx.Geom.Wkb.Layout.{sum_map-const}
use shpx.Geom.Wkb.Sound.{
  Spends-counted_pts, Spends-ring, Spends-counted, Spends-members, Spends-as_point,
  Spends-as_line_string, Spends-as_polygon,
}
use shpx.Geom.Wkb.Decode.{
  read_ring, read_members, read_typed, byte_order, read_geom, finish, decode, as_point,
  as_line_string, as_polygon,
}

Spends-if :
    {A : Type 0} (limit : ℕ) (b : Bool) (p q : Reader A) (R : A → ℕ → Type 0)
    → Spends limit p R
    → Spends limit q R
    → Spends limit (if b then p else q) R
Spends-if limit true p q R hp hq = hp
Spends-if limit false p q R hp hq = hq

module _ (limit : ℕ) (child : Reader Geom)
    (h : Spends limit child (λ g n. IsGeom g × (n ≡ estimate_size g))) where
  -- Behind a header of five bytes.
  Spends-typed :
      (little : Bool) (ty : ℕ)
      → Spends limit (read_typed child little ty) (λ g n. IsGeom g × (5 + n ≡ estimate_size g))
  unfolding read_typed estimate_size
  Spends-typed little ty =
      Spends-if limit (ty == 1) _ _ _
        (Spends-bind limit (read_f64 little) _ _ _ (Spends-read_f64 limit little) (λ x n hx.
          Spends-map _ (read_f64 little) _ _ _ (Spends-read_f64 _ little)
            (λ y m hy. ((hx.0, hy.0), omega arith))))
        (Spends-if limit (ty == 2) _ _ _
          (Spends-counted_pts little limit line_string _ (λ pts m v e. (v, omega arith)))
          (Spends-if limit (ty == 3) _ _ _
            (Spends-counted little IsPoints ring_size (read_ring little) 4 limit polygon _
              (Spends-ring little limit) (λ rings m v e. (v, omega arith)))
            (Spends-if limit (ty == 4) _ _ _
              (Spends-map limit (read_members child as_point 21 little) multi_point _ _
                (Spends-members little IsCoord (λ _. 21) child as_point 21 limit
                  (Spends-as_point limit child h))
                (λ pts m (v, e). (v, omega (arith, sum_map-const 21 pts))))
              (Spends-if limit (ty == 5) _ _ _
                (Spends-map limit (read_members child as_line_string 9 little) multi_line_string _ _
                  (Spends-members little IsPoints line_size child as_line_string 9 limit
                    (Spends-as_line_string limit child h))
                  (λ pts m (v, e). (v, omega arith)))
                (Spends-if limit (ty == 6) _ _ _
                  (Spends-map limit (read_members child as_polygon 9 little) multi_polygon _ _
                    (Spends-members little IsRings polygon_size child as_polygon 9 limit
                      (Spends-as_polygon limit child h))
                    (λ pts m (v, e). (v, omega arith)))
                  (Spends-fail limit (unsupported_type ty) _ (λ e. cc)))))))

Spends-byte_order : (limit order : ℕ) → Spends limit (byte_order order) (λ _ n. n ≡ 0)
unfolding byte_order
Spends-byte_order limit order = Spends-if limit (order == 1) _ _ _ (Spends-pure limit true _ refl) (
    Spends-if limit (order == 0) _ _ _ (Spends-pure limit false _ refl)
      (Spends-fail limit (bad_byte_order order) _ (λ e. cc)))

no_room : {A : Type 0} (p : Reader A) (R : A → ℕ → Type 0) → Spends 0 p R
no_room p R c v h = absurd (omega (arith, v.1))

-- With more fuel than bytes before the cursor.
pub Spends-read_geom :
    (fuel : ℕ) → Spends fuel (read_geom fuel) (λ g n. IsGeom g × (n ≡ estimate_size g))
unfolding read_geom
Spends-read_geom zero = no_room _ _
Spends-read_geom (suc fuel) =
    Spends-bind (suc fuel) take_byte _ _ _ (Spends-take_byte (suc fuel)) (λ order n hn.
      Spends-bind _ (byte_order order) _ _ _ (Spends-byte_order _ order) (λ little k hk.
        Spends-bind _ (read_u32 little) _ _ _ (Spends-read_u32 _ little) (λ ty m hm.
          Spends-conv _ _ _ _
            (Spends-typed _ (read_geom fuel)
              (Spends-weaken fuel _ _ _ (omega arith) (Spends-read_geom fuel)) little ty)
            (λ g j (v, e). (v, omega arith)))))

finish-Ensures :
    (start : Cursor) (r : Result Fault (Geom × Cursor))
    → Ensures (Spent start (λ g n. IsGeom g × (n ≡ estimate_size g))) (λ e. e ≢ out_of_fuel) r
    → Ensures
        (λ g. IsGeom g × (start.pos + estimate_size g ≡ length start.bytes))
        (λ e. e ≢ out_of_fuel)
        (finish r)
unfolding finish
finish-Ensures start (err x) e = fails (Ensures-err e refl)
finish-Ensures start (ok (g, c)) e =
    let (n, (v, size), same, at, in_range) = Ensures-ok e refl in
    elim (Bool-cases (c.pos == length c.bytes)) [
      | inl end ↦ rw end (holds (v, ground (arith, ap length same)))
      | inr more ↦ rw more (fails (λ x. cc))
    ]

-- On any bytes `decode` fails, for a reason of the program, or accepts a geometry that WKB can
-- represent and whose size in WKB is the number of the bytes.
pub decode-Ensures :
    (bytes : List ℕ)
    → All IsByte bytes
    → Ensures
        (λ g. IsGeom g × (estimate_size g ≡ length bytes))
        (λ e. e ≢ out_of_fuel)
        (decode bytes)
unfolding decode
decode-Ensures bytes all =
    Ensures-map (finish-Ensures start _ read) (λ g (v, e). (v, omega arith)) (λ e ne. ne)
  where
    start : Cursor
    start = record { bytes = bytes; pos = 0 }

    read :
        Ensures
          (Spent start (λ g n. IsGeom g × (n ≡ estimate_size g)))
          (λ e. e ≢ out_of_fuel)
          (read_geom (suc (length bytes)) start)
    read = Spends-read_geom (suc (length bytes)) start (all, omega arith) (omega arith)
