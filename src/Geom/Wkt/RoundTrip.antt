-- ===== src/Geom/Wkt/RoundTrip.antt =====
-- `wkt::decode` reads what `wkt::encode` writes.
use shpx.Prelude.{
  Text, ◌+◌, ◌≡◌, refl, sym, ap, ◌∙◌, arith, List, [], ◌∷◌, ◌++◌, append-nil, length, true, leb,
  if◌then◌else◌, ok, err, Option, drop, ◌==◌,
}
use shpx.Geom.Types.{
  Coord, F64, Geom, point, line_string, polygon, multi_point, multi_line_string, multi_polygon,
  in_coordinates, in_rings, in_multi_point, in_multi_line_string, in_multi_polygon,
  trailing_characters,
}
use shpx.Geom.Cursor.{Cursor, pure, ◌>>=◌, ◌>>◌}
use shpx.Geom.Wkt.Encode.{
  point_keyword, linestring_keyword, polygon_keyword, multipoint_keyword, multilinestring_keyword,
  multipolygon_keyword, encode,
}
use shpx.Geom.Wkt.Tokens.{advance, head, peek, holds_of, is_space, expect, read_xy}
use shpx.Geom.Wkt.Decode.{
  parse_list, parse_pts_list, parse_rings, parse_point, parse_linestring, parse_polygon,
  parse_member, parse_multipoint, parse_multilinestring, parse_multipolygon, parse_keyword,
  parse_geom, finish, decode,
}
use shpx.Geom.Wkt.Numbers.{IsDisplay, IsFinite, EndsNumber, xy_text, Parses-xy}
use shpx.Geom.Wkt.Layout.{
  items_text, list_text, Members, IsWkt, pts_text, rings_text, member_text, layout,
  encode_into-layout,
}
use shpx.Geom.Wkt.Parses.{
  Stops, Anything, Parses, Parses-bind, Parses-map, Parses-expect, skip_ws-Stops, rest_of-advance,
}
use shpx.Geom.Wkt.Lists.{FollowsMember, Parses-list, Parses-behind_empty, Parses-kind}

drop-all : (t : Text) → drop (length t) t ≡ []
drop-all [] = refl
drop-all (b ∷ t) = drop-all t

module _ (show : F64 → Text) (parse : Text → Option F64) (display : IsDisplay show parse) where
  number_follows : FollowsMember EndsNumber
  number_follows rest = ((refl, refl), (refl, refl))

  Parses-pts :
      (pts : List Coord)
      → Members IsFinite pts
      → Parses (parse_pts_list parse) Anything (pts_text show pts) pts
  unfolding parse_pts_list
  Parses-pts =
      Parses-list in_coordinates (read_xy parse) (xy_text show) IsFinite EndsNumber number_follows
        (Parses-xy show parse display)

  Parses-rings :
      (rings : List (List Coord))
      → Members (Members IsFinite) rings
      → Parses (parse_rings parse) Anything (rings_text show rings) rings
  unfolding parse_rings
  Parses-rings =
      Parses-list in_rings (parse_pts_list parse) (pts_text show) (Members IsFinite) Anything
        (λ rest. (tt, tt)) Parses-pts

  -- A point and the bracket that closes it.
  Parses-closed :
      {B : Type 0} (make : Coord → B) (c : Coord)
      → IsFinite c
      → Parses
          (read_xy parse >>= λ xy. expect 41 >>= λ _. pure (make xy))
          Anything
          (xy_text show c ++ 41 ∷ [])
          (make c)
  Parses-closed make c fin =
      Parses-bind (read_xy parse) _ EndsNumber Anything (xy_text show c) (41 ∷ []) c (make c)
        (Parses-xy show parse display c fin)
        (Parses-map (expect 41) (λ _. make c) Anything (41 ∷ []) tt (Parses-expect 41 refl))
        (λ rest q. (refl, refl))

  Parses-member :
      (c : Coord) → IsFinite c → Parses (parse_member parse) Anything (member_text show c) c
  unfolding parse_member peek
  Parses-member c fin k rest e q =
      ap
        (λ k'.
          if holds_of (λ b. b == 40) (peek k')
          then (read_xy parse >>= λ xy. expect 41 >> pure xy) (advance k' 1)
          else read_xy parse k')
        (skip_ws-Stops k _ e refl)
      ∙ ap
          (λ t.
            if holds_of (λ b. b == 40) (head t)
            then (read_xy parse >>= λ xy. expect 41 >> pure xy) (advance k 1)
            else read_xy parse k)
          e
      ∙ Parses-closed (λ xy. xy) c fin (advance k 1) rest (rest_of-advance k (40 ∷ []) _ e) tt
      ∙ ap (λ n. ok (c, record k { pos = n })) (omega arith)

  Parses-geom : (g : Geom) → IsWkt g → Parses (parse_geom parse) Anything (layout show g) g
  unfolding layout
  Parses-geom (point x y) fin =
      Parses-kind point_keyword refl refl (omega arith) (λ rest. refl) parse
        (xy_text show (x, y) ++ 41 ∷ []) _
        (unfold parse_keyword parse_point in
          Parses-behind_empty _ (xy_text show (x, y) ++ 41 ∷ []) _ (
            Parses-bind (expect 40) _ Anything Anything (40 ∷ []) _ tt _ (Parses-expect 40 refl)
              (Parses-closed (λ xy. point (xy.0) (xy.1)) (x, y) fin) (λ rest q. tt)))
  Parses-geom (line_string pts) h =
      Parses-kind linestring_keyword refl refl (omega arith) (λ rest. refl) parse _ _
        (unfold parse_keyword parse_linestring in
          Parses-behind_empty _ (items_text (xy_text show) pts) _ (
            Parses-map (parse_pts_list parse) line_string Anything (pts_text show pts) pts
              (Parses-pts pts h)))
  Parses-geom (polygon rings) h =
      Parses-kind polygon_keyword refl refl (omega arith) (λ rest. refl) parse _ _
        (unfold parse_keyword parse_polygon in
          Parses-behind_empty _ (items_text (pts_text show) rings) _ (
            Parses-map (parse_rings parse) polygon Anything (rings_text show rings) rings
              (Parses-rings rings h)))
  Parses-geom (multi_point pts) h =
      Parses-kind multipoint_keyword refl refl (omega arith) (λ rest. refl) parse _ _
        (unfold parse_keyword parse_multipoint in
          Parses-behind_empty _ (items_text (member_text show) pts) _ (
            Parses-map (parse_list in_multi_point (parse_member parse)) multi_point Anything
              (list_text (member_text show) pts) pts
              (Parses-list in_multi_point (parse_member parse) (member_text show) IsFinite Anything
                (λ rest. (tt, tt)) Parses-member pts h)))
  Parses-geom (multi_line_string lines) h =
      Parses-kind multilinestring_keyword refl refl (omega arith) (λ rest. refl) parse _ _
        (unfold parse_keyword parse_multilinestring in
          Parses-behind_empty _ (items_text (pts_text show) lines) _ (
            Parses-map (parse_list in_multi_line_string (parse_pts_list parse)) multi_line_string
              Anything (rings_text show lines) lines
              (Parses-list in_multi_line_string (parse_pts_list parse) (pts_text show)
                (Members IsFinite) Anything (λ rest. (tt, tt)) Parses-pts lines h)))
  Parses-geom (multi_polygon polys) h =
      Parses-kind multipolygon_keyword refl refl (omega arith) (λ rest. refl) parse _ _
        (unfold parse_keyword parse_multipolygon in
          Parses-behind_empty _ (items_text (rings_text show) polys) _ (
            Parses-map (parse_list in_multi_polygon (parse_rings parse)) multi_polygon Anything
              (list_text (rings_text show) polys) polys
              (Parses-list in_multi_polygon (parse_rings parse) (rings_text show)
                (Members (Members IsFinite)) Anything (λ rest. (tt, tt)) Parses-rings polys h)))

  -- A keyword begins the text.
  layout-Stops : (g : Geom) → Stops is_space (layout show g)
  unfolding layout
  layout-Stops (point x y) = refl
  layout-Stops (line_string pts) = refl
  layout-Stops (polygon rings) = refl
  layout-Stops (multi_point pts) = refl
  layout-Stops (multi_line_string lines) = refl
  layout-Stops (multi_polygon polys) = refl

  all_read :
      (t : Text) (g : Geom) → finish parse (ok (g, record { bytes = t; pos = length t })) ≡ ok g
  unfolding finish
  all_read t g =
      ap (λ c. if leb (length t) (c.pos) then ok g else err (trailing_characters (c.pos)))
        (skip_ws-Stops (record { bytes = t; pos = length t }) [] (drop-all t) refl)
      ∙ rw (let e : leb (length t) (length t) ≡ true = ground arith in e) refl

  -- Where Display of a finite f64 is a decimal that parse takes back: decode gives back every
  -- geometry with finite coordinates and no empty list that encode writes.
  pub decode-encode_wkt :
      (g : Geom) → IsWkt g → (t : Text) × (encode show g ≡ ok t) × (decode parse t ≡ ok g)
  unfolding encode decode
  decode-encode_wkt g h = (
    t,
    ap ok (encode_into-layout show g []),
    ap (λ c. finish parse (parse_geom parse c)) (skip_ws-Stops start t refl (layout-Stops g))
        ∙ ap (finish parse) (Parses-geom g h start [] (sym (append-nil t)) tt)
        ∙ ap (λ n. finish parse (ok (g, record { bytes = t; pos = n })))
            (let e : 0 + length t ≡ length t = omega arith in e)
        ∙ all_read t g,
  )
    where
      t : Text
      t = layout show g

      start : Cursor
      start = record { bytes = t; pos = 0 }
