-- ===== src/Geom/Wkt/Layout.antt =====
-- WKT as a format: the text of a geometry, by concatenation.
use shpx.Prelude.{
  Text, ℕ, suc, ◌<◌, ◌≡◌, refl, ap, ◌∙◌, arith, List, [], ◌∷◌, ◌++◌, append_assoc, length,
  length-append, All, true, ltb, if◌then◌else◌,
}
use shpx.Geom.Types.{
  Coord, F64, Geom, point, line_string, polygon, multi_point, multi_line_string, multi_polygon,
}
use shpx.Geom.Wkt.Encode.{
  point_keyword, linestring_keyword, polygon_keyword, multipoint_keyword, multilinestring_keyword,
  multipolygon_keyword, push, write_items, write_xy, write_pts, write_rings, write_member,
  encode_into,
}
use shpx.Geom.Wkt.Numbers.{IsFinite, xy_text}

-- The rest of a list behind a member.
unfoldable pub tail_text : {A : Type 0} → (A → Text) → List A → Text
tail_text f [] = 41 ∷ []
tail_text f (x ∷ xs) = 44 ∷ f x ++ tail_text f xs

unfoldable pub items_text : {A : Type 0} → (A → Text) → List A → Text
unfolding tail_text
items_text f [] = 41 ∷ []
items_text f (x ∷ xs) = f x ++ tail_text f xs

abbrev pub list_text : {A : Type 0} → (A → Text) → List A → Text
list_text f xs = 40 ∷ items_text f xs

-- A list that has a member, and a property of the members.
abbrev pub Members : {A : Type 0} → (A → Type 0) → List A → Type 0
Members P xs = (0 < length xs) × All P xs

-- The geometries with finite coordinates and no empty list.
abbrev pub IsWkt : Geom → Type 0
IsWkt (point x y) = IsFinite (x, y)
IsWkt (line_string pts) = Members IsFinite pts
IsWkt (polygon rings) = Members (Members IsFinite) rings
IsWkt (multi_point pts) = Members IsFinite pts
IsWkt (multi_line_string lines) = Members (Members IsFinite) lines
IsWkt (multi_polygon polys) = Members (Members (Members IsFinite)) polys

pub length-tail_text :
    {A : Type 0} (f : A → Text) (xs : List A) → length xs < length (tail_text f xs)
unfolding tail_text
length-tail_text f [] = omega arith
length-tail_text f (x ∷ xs) =
    omega (arith, length-append (f x) (tail_text f xs), length-tail_text f xs)

write_items-tail :
    {A : Type 0} (write : Text → A → Text) (f : A → Text)
    → ((s : Text) (x : A) → write s x ≡ s ++ f x)
    → (xs : List A) (i : ℕ) (s : Text)
    → push (write_items write xs (suc i) s) 41 ≡ s ++ tail_text f xs
unfolding write_items tail_text
write_items-tail write f w [] i s = refl
write_items-tail write f w (x ∷ xs) i s =
    ap (λ b. push (write_items write xs (suc (suc i)) (write (if b then push s 44 else s) x)) 41)
      (let e : ltb 0 (suc i) ≡ true = ground arith in e)
    ∙ write_items-tail write f w xs (suc i) (write (push s 44) x)
    ∙ ap (λ t. t ++ tail_text f xs) (w (push s 44) x)
    ∙ append_assoc (push s 44) (f x) (tail_text f xs)
    ∙ append_assoc s (44 ∷ []) (f x ++ tail_text f xs)

pub write_items-list :
    {A : Type 0} (write : Text → A → Text) (f : A → Text)
    → ((s : Text) (x : A) → write s x ≡ s ++ f x)
    → (xs : List A) (s : Text) → push (write_items write xs 0 (push s 40)) 41 ≡ s ++ list_text f xs
unfolding write_items items_text
write_items-list write f w [] s = append_assoc s (40 ∷ []) (41 ∷ [])
write_items-list write f w (x ∷ xs) s =
    write_items-tail write f w xs 0 (write (push s 40) x)
    ∙ ap (λ t. t ++ tail_text f xs) (w (push s 40) x)
    ∙ append_assoc (push s 40) (f x) (tail_text f xs)
    ∙ append_assoc s (40 ∷ []) (f x ++ tail_text f xs)

module _ (show : F64 → Text) where
  abbrev pub pts_text : List Coord → Text
  pts_text = list_text (xy_text show)

  abbrev pub rings_text : List (List Coord) → Text
  rings_text = list_text pts_text

  abbrev pub member_text : Coord → Text
  member_text c = 40 ∷ xy_text show c ++ 41 ∷ []

  unfoldable pub layout : Geom → Text
  layout (point x y) = point_keyword ++ member_text (x, y)
  layout (line_string pts) = linestring_keyword ++ pts_text pts
  layout (polygon rings) = polygon_keyword ++ rings_text rings
  layout (multi_point pts) = multipoint_keyword ++ list_text member_text pts
  layout (multi_line_string lines) = multilinestring_keyword ++ rings_text lines
  layout (multi_polygon polys) = multipolygon_keyword ++ list_text rings_text polys

  write_xy-text : (s : Text) (c : Coord) → write_xy show s c ≡ s ++ xy_text show c
  unfolding write_xy
  write_xy-text s (x, y) =
      append_assoc (s ++ show x) (32 ∷ []) (show y) ∙ append_assoc s (show x) (32 ∷ show y)

  write_member-text : (s : Text) (c : Coord) → write_member show s c ≡ s ++ member_text c
  unfolding write_member
  write_member-text s c =
      ap (λ t. push t 41) (write_xy-text (push s 40) c)
      ∙ append_assoc (push s 40) (xy_text show c) (41 ∷ [])
      ∙ append_assoc s (40 ∷ []) (xy_text show c ++ 41 ∷ [])

  write_pts-text : (s : Text) (pts : List Coord) → write_pts show s pts ≡ s ++ pts_text pts
  unfolding write_pts
  write_pts-text s pts = write_items-list (write_xy show) (xy_text show) write_xy-text pts s

  write_rings-text :
      (s : Text) (rings : List (List Coord)) → write_rings show s rings ≡ s ++ rings_text rings
  unfolding write_rings
  write_rings-text s rings = write_items-list (write_pts show) pts_text write_pts-text rings s

  pub encode_into-layout : (g : Geom) (s : Text) → encode_into show g s ≡ s ++ layout g
  unfolding encode_into layout
  encode_into-layout (point x y) s =
      ap (λ t. push t 41) (write_xy-text (push (s ++ point_keyword) 40) (x, y))
      ∙ append_assoc (push (s ++ point_keyword) 40) (xy_text show (x, y)) (41 ∷ [])
      ∙ append_assoc (s ++ point_keyword) (40 ∷ []) (xy_text show (x, y) ++ 41 ∷ [])
      ∙ append_assoc s point_keyword (member_text (x, y))
  encode_into-layout (line_string pts) s =
      write_pts-text (s ++ linestring_keyword) pts
      ∙ append_assoc s linestring_keyword (pts_text pts)
  encode_into-layout (polygon rings) s =
      write_rings-text (s ++ polygon_keyword) rings
      ∙ append_assoc s polygon_keyword (rings_text rings)
  encode_into-layout (multi_point pts) s =
      write_items-list (write_member show) member_text write_member-text pts
        (s ++ multipoint_keyword)
      ∙ append_assoc s multipoint_keyword (list_text member_text pts)
  encode_into-layout (multi_line_string lines) s =
      write_items-list (write_pts show) pts_text write_pts-text lines (s ++ multilinestring_keyword)
      ∙ append_assoc s multilinestring_keyword (rings_text lines)
  encode_into-layout (multi_polygon polys) s =
      write_items-list (write_rings show) rings_text write_rings-text polys
        (s ++ multipolygon_keyword)
      ∙ append_assoc s multipolygon_keyword (list_text rings_text polys)
