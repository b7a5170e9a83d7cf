-- ===== src/Shp/Names/Runs.antt =====
-- Concrete names, and the theorems at them.
use shpx.Prelude.{Text, ◌≡◌, refl, [], ◌∷◌, ok, err, Ensures}
use shpx.Shp.Loss.{on_loss, dbf_name_truncation, error, warn}
use shpx.Shp.Names.{truncate_at_char_boundary, to_string, pick_dbf_name}
use shpx.Shp.Names.Picked.{IsFree, PickFault, pick_dbf_name-Ensures}

-- Two characters of three bytes.
abbrev kana : Text
kana = 0xe3 ∷ 0x81 ∷ 0x82 ∷ 0xe3 ∷ 0x81 ∷ 0x84 ∷ []

-- "very_long_field_name_b" and its first ten bytes
abbrev long_name : Text
long_name =
    118 ∷ 101 ∷ 114 ∷ 121 ∷ 95 ∷ 108 ∷ 111 ∷ 110 ∷ 103 ∷ 95 ∷ 102 ∷ 105 ∷ 101 ∷ 108 ∷ 100 ∷ 95 ∷ 110
    ∷ 97 ∷ 109 ∷ 101 ∷ 95 ∷ 98 ∷ []

abbrev ten_bytes : Text
ten_bytes = 118 ∷ 101 ∷ 114 ∷ 121 ∷ 95 ∷ 108 ∷ 111 ∷ 110 ∷ 103 ∷ 95 ∷ []

truncate_kana : truncate_at_char_boundary kana 4 ≡ 0xe3 ∷ 0x81 ∷ 0x82 ∷ []
unfolding truncate_at_char_boundary
truncate_kana = refl

truncate_to_nothing : truncate_at_char_boundary kana 2 ≡ []
unfolding truncate_at_char_boundary
truncate_to_nothing = refl

to_string_1209 : to_string 1209 ≡ 49 ∷ 50 ∷ 48 ∷ 57 ∷ []
unfolding to_string
to_string_1209 = refl

-- The second of two long names gets a number in place of its last byte.
pick_second :
    pick_dbf_name long_name (ten_bytes ∷ []) warn
    ≡ ok (118 ∷ 101 ∷ 114 ∷ 121 ∷ 95 ∷ 108 ∷ 111 ∷ 110 ∷ 103 ∷ 49 ∷ [])
unfolding pick_dbf_name
pick_second = refl

pick_strict : pick_dbf_name long_name [] error ≡ err (on_loss dbf_name_truncation long_name)
unfolding pick_dbf_name
pick_strict = refl

pick_dbf_name-Ensures_example :
    Ensures
      (IsFree (ten_bytes ∷ []))
      (PickFault (ten_bytes ∷ []) long_name warn)
      (pick_dbf_name long_name (ten_bytes ∷ []) warn)
pick_dbf_name-Ensures_example = pick_dbf_name-Ensures long_name (ten_bytes ∷ []) warn
