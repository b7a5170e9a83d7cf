-- ===== src/Rdb/Uri/Runs.antt =====
-- Concrete URIs.
use shpx.Prelude.{Text, ℕ, ◌≡◌, refl, List, [], ◌∷◌, some}
use shpx.Rdb.Uri.{percent_bytes, query_get}

abbrev kept : List ℕ → Text
kept bs = bs

-- "a%20b", "a%ZZ" and "a%2"
decode_space : percent_bytes (97 ∷ 37 ∷ 50 ∷ 48 ∷ 98 ∷ []) ≡ 97 ∷ 32 ∷ 98 ∷ []
unfolding percent_bytes
decode_space = refl

decode_no_digits : percent_bytes (97 ∷ 37 ∷ 90 ∷ 90 ∷ []) ≡ 97 ∷ 37 ∷ 90 ∷ 90 ∷ []
unfolding percent_bytes
decode_no_digits = refl

decode_cut_short : percent_bytes (97 ∷ 37 ∷ 50 ∷ []) ≡ 97 ∷ 37 ∷ 50 ∷ []
unfolding percent_bytes
decode_cut_short = refl

-- "h?x&T=a+b&t=c" has the value "a b" for "t"
get_first :
    query_get kept
      (104 ∷ 63 ∷ 120 ∷ 38 ∷ 84 ∷ 61 ∷ 97 ∷ 43 ∷ 98 ∷ 38 ∷ 116 ∷ 61 ∷ 99 ∷ [])
      (116 ∷ [])
    ≡ some (97 ∷ 32 ∷ 98 ∷ [])
unfolding query_get
get_first = refl
