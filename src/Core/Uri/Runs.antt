-- ===== src/Core/Uri/Runs.antt =====
-- Concrete paths and URLs, and the theorem at one.
use shpx.Prelude.{Text, ◌≡◌, refl, [], ◌∷◌, Option, some, none, ◌↔◌, false}
use shpx.Core.Uri.{pg, detect_url_scheme, from_path, is_url}
use shpx.Core.Uri.Schemes.{HasScheme, detect_url_scheme-iff-HasScheme}

-- "PG://h" and "C:\\x"
abbrev pg_url : Text
pg_url = 80 ∷ 71 ∷ 58 ∷ 47 ∷ 47 ∷ 104 ∷ []

abbrev drive_path : Text
drive_path = 67 ∷ 58 ∷ 92 ∷ 120 ∷ []

abbrev no_extension : Text → Option Text
no_extension raw = none

detect_pg : detect_url_scheme pg_url ≡ some pg
unfolding detect_url_scheme
detect_pg = refl

detect_drive : detect_url_scheme drive_path ≡ none
unfolding detect_url_scheme
detect_drive = refl

-- "postgres://" has the scheme "pg".
postgres_is_pg :
    (from_path no_extension
      (112 ∷ 111 ∷ 115 ∷ 116 ∷ 103 ∷ 114 ∷ 101 ∷ 115 ∷ 58 ∷ 47 ∷ 47 ∷ [])).scheme
    ≡ pg
unfolding from_path
postgres_is_pg = refl

drive_is_no_url : is_url (from_path no_extension drive_path) ≡ false
unfolding from_path is_url
drive_is_no_url = refl

detect_url_scheme-iff-HasScheme_example : (detect_url_scheme pg_url ≡ some pg) ↔ HasScheme pg_url pg
detect_url_scheme-iff-HasScheme_example = detect_url_scheme-iff-HasScheme pg_url pg
