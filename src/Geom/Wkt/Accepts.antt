-- ===== src/Geom/Wkt/Accepts.antt =====
-- Whatever `wkt::decode` makes of a text: its loops end, and no list of its result is empty.
use shpx.Prelude.{
  Text, eq_text, ℕ, zero, suc, ◌+◌, ◌-◌, ◌≤◌, ◌<◌, ◌≡◌, refl, ap, ◌∙◌, arith, [], ◌∷◌, Option, none,
  some, Result, ok, err, Bool, true, false, leb, ◌==◌, if◌then◌else◌, length, length-drop, Ensures,
  holds, fails, Ensures-map, Ensures-ok, Ensures-err, Bool-cases, inl, inr,
}
use shpx.Geom.Types.{
  Coord, F64, Geom, Fault, Place, point, line_string, polygon, multi_point, multi_line_string,
  multi_polygon, in_coordinates, in_rings, in_multi_point, in_multi_line_string, in_multi_polygon,
  unsupported_keyword,
}
use shpx.Geom.Cursor.{Cursor, Reader, pure, and_then, ◌>>=◌}
use shpx.Geom.Wkt.Encode.{
  point_keyword, linestring_keyword, polygon_keyword, multipoint_keyword, multilinestring_keyword,
  multipolygon_keyword,
}
use shpx.Geom.Wkt.Tokens.{
  rest_of, advance, head, peek, skip_ws, expect, read_ident, reject_empty, separator,
  separator_next, read_xy,
}
use shpx.Geom.Wkt.Decode.{
  parse_items, parse_list, parse_pts_list, parse_rings, parse_point, parse_linestring,
  parse_polygon, parse_member, parse_multipoint, parse_multilinestring, parse_multipolygon,
  parse_keyword, parse_geom, finish, decode,
}
use shpx.Geom.Wkt.Layout.{Members}
use shpx.Geom.Wkt.Ends.{
  Follows, Follows-trans, Moved, IsError, Ends, Moved-from, bind-from, Ends-bind, Ends-pure,
  Ends-map, Ends-if, Ends-fail, Nothing, Follows-skip_ws, Follows-advance, Moved-if, Ends-expect,
  Ends-read_ident, Ends-reject_empty, Ends-read_xy,
}

-- A separator is inside the text, and the cursor behind it too.
abbrev Passed : Cursor → Bool × Cursor → Type 0
Passed c (last, c') = (c.pos < c'.pos) × (c'.pos ≤ length c.bytes) × (c'.bytes ≡ c.bytes)

head-some : (t : Text) (b : ℕ) → head t ≡ some b → 0 < length t
head-some [] b e = cc
head-some (x ∷ t) b e = omega arith

separator_next-Passed :
    (place : Place) (c : Cursor) (o : Option ℕ)
    → peek c ≡ o
    → Ensures (Passed c) IsError (separator_next place c o)
unfolding separator_next peek
separator_next-Passed place c none e = fails (λ e. cc)
separator_next-Passed place c (some b) e = elim (Bool-cases (b == 44)) [
  | inl h ↦ rw h (holds (omega arith, inside, refl))
  | inr h ↦ rw h (elim (Bool-cases (b == 41)) [
    | inl h' ↦ rw h' (holds (omega arith, inside, refl))
    | inr h' ↦ rw h' (fails (λ e. cc))
  ])
]
  where
    inside : c.pos + 1 ≤ length c.bytes
    inside = omega (arith, head-some (rest_of c) b e, length-drop c.pos c.bytes)

separator-Passed : (place : Place) (c : Cursor) → Ensures (Passed c) IsError (separator place c)
unfolding separator
separator-Passed place c =
    Ensures-map (separator_next-Passed place (skip_ws c) (peek (skip_ws c)) refl)
      (λ (last, d) (lt, le, e).
        let (mono, same) = Follows-skip_ws c in
        (omega arith, omega (arith, ap length same), e ∙ same))
      (λ e k. k)

module _ {A : Type 0} (place : Place) (read : Reader A) (R : A → Type 0) (h : Ends read R) where
  abbrev Round : ℕ → Type 0
  Round fuel =
      (c : Cursor)
      → length c.bytes - c.pos < fuel
      → Ensures (Moved (Members R) c) IsError (parse_items place read fuel c)

  Ends-items : (fuel : ℕ) → Round fuel
  unfolding parse_items
  Ends-items zero c small = absurd (omega arith)
  Ends-items (suc fuel) c small = behind_item (Ends-items fuel) (read c) (h c)
    where
      again :
          Round fuel
          → (item : A) (d e : Cursor) → R item
          → Follows c d
          → Passed d (false, e)
          → Ensures
              (Moved (Members R) c)
              IsError
              (and_then (parse_items place read fuel e) (λ items. pure (item ∷ items)))
      again ih item d e r f (lt, le, same) =
          Moved-from (Members R) c e _ (omega arith, same ∙ f.1)
            (bind-from (Members R) (Members R) e (parse_items place read fuel e) _
              (ih e (omega (arith, ap length same, ap length (f.1))))
              (λ items (pos, all). Ends-pure (Members R) (item ∷ items) (omega arith, (r, all))))

      next :
          Round fuel
          → (item : A) (d : Cursor) → R item
          → Follows c d
          → (s : Result Fault (Bool × Cursor)) → Ensures (Passed d) IsError s
          → Ensures (Moved (Members R) c) IsError (
              and_then s (λ last.
                if last
                then pure (item ∷ [])
                else (parse_items place read fuel >>= λ items. pure (item ∷ items))))
      next ih item d r f (ok (true, e)) p =
          let (lt, le, same) = Ensures-ok p refl in
          holds ((omega arith, (r, tt)), (omega arith, same ∙ f.1))
      next ih item d r f (ok (false, e)) p = again ih item d e r f (Ensures-ok p refl)
      next ih item d r f (err x) p = fails (Ensures-err p refl)

      behind_item :
          Round fuel
          → (m : Result Fault (A × Cursor)) → Ensures (Moved R c) IsError m
          → Ensures (Moved (Members R) c) IsError (
              and_then m (λ item. separator place >>= λ last.
              if last
              then pure (item ∷ [])
              else (parse_items place read fuel >>= λ items. pure (item ∷ items))))
      behind_item ih (ok (item, d)) m =
          let (r, f) = Ensures-ok m refl in
          next ih item d r f (separator place d) (separator-Passed place d)
      behind_item ih (err x) m = fails (Ensures-err m refl)

  Ends-list : Ends (parse_list place read) (Members R)
  unfolding parse_list
  Ends-list =
      Ends-bind Nothing (Members R) (expect 40) _ (Ends-expect 40)
        (λ u t c. Ends-items (suc (length c.bytes - c.pos)) c (omega arith))

-- A geometry whose coordinates have `P`, and none of whose lists is empty.
abbrev pub IsRead : (F64 → Type 0) → Geom → Type 0
IsRead P (point x y) = P x × P y
IsRead P (line_string pts) = Members (λ c. P (c.0) × P (c.1)) pts
IsRead P (polygon rings) = Members (Members (λ c. P (c.0) × P (c.1))) rings
IsRead P (multi_point pts) = Members (λ c. P (c.0) × P (c.1)) pts
IsRead P (multi_line_string lines) = Members (Members (λ c. P (c.0) × P (c.1))) lines
IsRead P (multi_polygon polys) = Members (Members (Members (λ c. P (c.0) × P (c.1)))) polys

module _ (parse : Text → Option F64) (P : F64 → Type 0)
    (sound : (t : Text) (v : F64) → parse t ≡ some v → P v) where
  abbrev HasXy : Coord → Type 0
  HasXy c = P (c.0) × P (c.1)

  Ends-pts : Ends (parse_pts_list parse) (Members HasXy)
  unfolding parse_pts_list
  Ends-pts = Ends-list in_coordinates (read_xy parse) HasXy (Ends-read_xy parse P sound)

  Ends-rings : Ends (parse_rings parse) (Members (Members HasXy))
  unfolding parse_rings
  Ends-rings = Ends-list in_rings (parse_pts_list parse) (Members HasXy) Ends-pts

  -- A point and the bracket that closes it.
  Ends-closed :
      {B : Type 0} (make : Coord → B) (S : B → Type 0)
      → ((c : Coord) → HasXy c → S (make c))
      → Ends (read_xy parse >>= λ xy. expect 41 >>= λ _. pure (make xy)) S
  Ends-closed make S k = Ends-bind HasXy S (read_xy parse) _ (Ends-read_xy parse P sound) (λ c r.
      Ends-bind Nothing S (expect 41) _ (Ends-expect 41) (λ u t. Ends-pure S (make c) (k c r)))

  Ends-member : Ends (parse_member parse) HasXy
  unfolding parse_member
  Ends-member c =
      Moved-if HasXy c _ _ _
        (Moved-from HasXy c (advance (skip_ws c) 1) _
          (Follows-trans c (skip_ws c) _ (Follows-skip_ws c) (Follows-advance (skip_ws c) 1))
          (Ends-closed (λ xy. xy) HasXy (λ c r. r) (advance (skip_ws c) 1)))
        (Moved-from HasXy c (skip_ws c) _ (Follows-skip_ws c)
          (Ends-read_xy parse P sound (skip_ws c)))

  behind_empty :
      {B : Type 0} (S : B → Type 0) (p : Reader B) → Ends p S → Ends (reject_empty >>= λ _. p) S
  behind_empty S p h = Ends-bind Nothing S reject_empty (λ _. p) Ends-reject_empty (λ u t. h)

  Ends-keyword : (kw : Text) → Ends (parse_keyword parse kw) (IsRead P)
  unfolding parse_keyword parse_point parse_linestring parse_polygon parse_multipoint
      parse_multilinestring parse_multipolygon
  Ends-keyword kw =
      Ends-if (IsRead P) (eq_text kw point_keyword) _ _
        (behind_empty (IsRead P) _ (
          Ends-bind Nothing (IsRead P) (expect 40) _ (Ends-expect 40)
            (λ u t. Ends-closed (λ c. point (c.0) (c.1)) (IsRead P) (λ c r. r))))
        (Ends-if (IsRead P) (eq_text kw linestring_keyword) _ _
          (behind_empty (IsRead P) _ (
            Ends-map (Members HasXy) (IsRead P) (parse_pts_list parse) line_string Ends-pts
              (λ pts r. r)))
          (Ends-if (IsRead P) (eq_text kw polygon_keyword) _ _
            (behind_empty (IsRead P) _ (
              Ends-map (Members (Members HasXy)) (IsRead P) (parse_rings parse) polygon Ends-rings
                (λ rings r. r)))
            (Ends-if (IsRead P) (eq_text kw multipoint_keyword) _ _
              (behind_empty (IsRead P) _ (
                Ends-map (Members HasXy) (IsRead P) _ multi_point
                  (Ends-list in_multi_point (parse_member parse) HasXy Ends-member) (λ pts r. r)))
              (Ends-if (IsRead P) (eq_text kw multilinestring_keyword) _ _
                (behind_empty (IsRead P) _ (
                  Ends-map (Members (Members HasXy)) (IsRead P) _ multi_line_string
                    (Ends-list in_multi_line_string (parse_pts_list parse) (Members HasXy) Ends-pts)
                    (λ lines r. r)))
                (Ends-if (IsRead P) (eq_text kw multipolygon_keyword) _ _
                  (behind_empty (IsRead P) _ (
                    Ends-map (Members (Members (Members HasXy))) (IsRead P) _ multi_polygon
                      (Ends-list in_multi_polygon (parse_rings parse) (Members (Members HasXy))
                        Ends-rings)
                      (λ polys r. r)))
                  (Ends-fail (IsRead P) (unsupported_keyword kw) (λ e. cc)))))))

  finish-Ensures :
      (c : Cursor) (r : Result Fault (Geom × Cursor))
      → Ensures (Moved (IsRead P) c) IsError r
      → Ensures (IsRead P) IsError (finish parse r)
  unfolding finish
  finish-Ensures c (ok (g, d)) h = elim (Bool-cases (leb (length d.bytes) ((skip_ws d).pos))) [
    | inl e ↦ rw e (holds ((Ensures-ok h refl).0))
    | inr e ↦ rw e (fails (λ e. cc))
  ]
  finish-Ensures c (err e) h = fails (Ensures-err h refl)

  -- On any text wkt::decode fails with an error of the program (the model's fuel never runs out), or
  -- returns a geometry none of whose lists is empty and whose coordinates have any property that
  -- every number parse gives has.
  pub decode-IsRead : (s : Text) → Ensures (IsRead P) IsError (decode parse s)
  unfolding decode parse_geom
  decode-IsRead s = finish-Ensures start _ (
      Ends-bind (λ kw. Unit {0}) (IsRead P) read_ident (parse_keyword parse) Ends-read_ident
        (λ kw t. Ends-keyword kw) start)
    where
      start : Cursor
      start = skip_ws (record { bytes = s; pos = 0 })
