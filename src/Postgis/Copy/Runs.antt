-- ===== src/Postgis/Copy/Runs.antt =====
-- Concrete fields.
use shpx.Prelude.{◌≡◌, refl, [], ◌∷◌, some, none, ok}
use shpx.Postgis.Copy.{put_field, encode_geometry}

field_of_two : put_field [] (7 ∷ 8 ∷ []) ≡ some (0 ∷ 0 ∷ 0 ∷ 2 ∷ 7 ∷ 8 ∷ [])
unfolding put_field
field_of_two = refl

null_geometry : encode_geometry none 4326 (1 ∷ []) ≡ ok (some (1 ∷ 0xff ∷ 0xff ∷ 0xff ∷ 0xff ∷ []))
unfolding encode_geometry
null_geometry = refl
