-- ===== src/Geom/Wkt/Encode.antt =====
-- `wkt::encode`.
use shpx.Prelude.{Text, ℕ, suc, List, [], ◌∷◌, ◌++◌, Result, ok, ltb, if◌then◌else◌}
use shpx.Geom.Types.{
  Coord, F64, Geom, Fault, point, line_string, polygon, multi_point, multi_line_string,
  multi_polygon,
}

abbrev pub point_keyword : Text
point_keyword = 80 ∷ 79 ∷ 73 ∷ 78 ∷ 84 ∷ []

abbrev pub linestring_keyword : Text
linestring_keyword = 76 ∷ 73 ∷ 78 ∷ 69 ∷ 83 ∷ 84 ∷ 82 ∷ 73 ∷ 78 ∷ 71 ∷ []

abbrev pub polygon_keyword : Text
polygon_keyword = 80 ∷ 79 ∷ 76 ∷ 89 ∷ 71 ∷ 79 ∷ 78 ∷ []

abbrev multi : Text → Text
multi t = 77 ∷ 85 ∷ 76 ∷ 84 ∷ 73 ∷ t

abbrev pub multipoint_keyword : Text
multipoint_keyword = multi point_keyword

abbrev pub multilinestring_keyword : Text
multilinestring_keyword = multi linestring_keyword

abbrev pub multipolygon_keyword : Text
multipolygon_keyword = multi polygon_keyword

-- `s.push(c)`
abbrev pub push : Text → ℕ → Text
push s c = s ++ c ∷ []

-- `for (i, x) in xs.iter().enumerate() { if i > 0 { s.push(',') } write(s, x) }`
unfoldable pub write_items : {A : Type 0} → (Text → A → Text) → List A → ℕ → Text → Text
write_items write [] i s = s
write_items write (x ∷ xs) i s =
    write_items write xs (suc i) (write (if ltb 0 i then push s 44 else s) x)

module _ (show : F64 → Text) where
  unfoldable pub write_xy : Text → Coord → Text
  write_xy s (x, y) = push (s ++ show x) 32 ++ show y

  unfoldable pub write_pts : Text → List Coord → Text
  unfolding write_items write_xy
  write_pts s pts = push (write_items write_xy pts 0 (push s 40)) 41

  unfoldable pub write_rings : Text → List (List Coord) → Text
  unfolding write_items write_pts
  write_rings s rings = push (write_items write_pts rings 0 (push s 40)) 41

  -- The body of the loop over the members of a MULTIPOINT.
  unfoldable pub write_member : Text → Coord → Text
  unfolding write_xy
  write_member s c = push (write_xy (push s 40) c) 41

  unfoldable pub encode_into : Geom → Text → Text
  unfolding write_items write_xy write_pts write_rings write_member
  encode_into (point x y) s = push (write_xy (push (s ++ point_keyword) 40) (x, y)) 41
  encode_into (line_string pts) s = write_pts (s ++ linestring_keyword) pts
  encode_into (polygon rings) s = write_rings (s ++ polygon_keyword) rings
  encode_into (multi_point pts) s =
      push (write_items write_member pts 0 (push (s ++ multipoint_keyword) 40)) 41
  encode_into (multi_line_string lines) s =
      push (write_items write_pts lines 0 (push (s ++ multilinestring_keyword) 40)) 41
  encode_into (multi_polygon polys) s =
      push (write_items write_rings polys 0 (push (s ++ multipolygon_keyword) 40)) 41

  unfoldable pub encode : Geom → Result Fault Text
  unfolding encode_into
  encode g = ok (encode_into g [])
