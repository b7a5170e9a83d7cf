-- ===== src/Rdb/Uri.antt =====
-- crates/shpx-rdb-common/src/uri.rs: percent decoding and query strings.
-- `String::from_utf8_lossy` at the end of `percent_decode` is the parameter `lossy`, which keeps
-- valid UTF-8.
pub mod Decoded
mod Runs
use Prim.Native.Nat.{bit_or}
use shpx.Prelude.{
  Text, eq_text, to_ascii_lowercase, ℕ, ◌+◌, ◌-◌, ◌*◌, ◌%◌, List, [], ◌∷◌, Option, none, some, Bool,
  true, false, leb, ◌==◌, ◌&&◌, if◌then◌else◌,
}

unfoldable pub hex_val : ℕ → Option ℕ
hex_val b =
    if leb 48 b && leb b 57
    then some (b - 48)
    else if leb 97 b && leb b 102
    then some (b - 97 + 10)
    else if leb 65 b && leb b 70
    then some (b - 65 + 10)
    else none

-- The bytes behind `b'%'`: both hexadecimal digits, or not.
abbrev pub escape_value : Option ℕ → Option ℕ → Option ℕ
escape_value (some h) (some l) = some (bit_or (h * 16 % 256) l)
escape_value _ _ = none

abbrev pub decoded_or : Option ℕ → List ℕ → List ℕ → List ℕ
decoded_or (some v) behind kept = v ∷ behind
decoded_or none behind kept = kept

-- The loop of `percent_decode` from index `i` on: the bytes that it pushes.
unfoldable pub percent_bytes : List ℕ → List ℕ
unfolding hex_val
percent_bytes [] = []
percent_bytes (b ∷ []) = (if b == 43 then 32 else b) ∷ []
percent_bytes (b ∷ c ∷ []) = let next = percent_bytes (c ∷ []) in (if b == 43 then 32 else b) ∷ next
percent_bytes (b ∷ c ∷ d ∷ rest) =
    let next = percent_bytes (c ∷ d ∷ rest) in
    let behind = percent_bytes rest in
    if b == 43
    then 32 ∷ next
    else if b == 37
    then decoded_or (escape_value (hex_val c) (hex_val d)) behind (b ∷ next)
    else b ∷ next

-- `s.split_once(sep)`
unfoldable pub split_once : ℕ → Text → Option (Text × Text)
split_once sep [] = none
split_once sep (b ∷ rest) =
    let later = split_once sep rest in
    if b == sep then some ([], rest) else elim later [ none ↦ none | some p ↦ some (b ∷ p.0, p.1) ]

-- `s.split(sep)`
unfoldable pub split_all : ℕ → Text → List Text
split_all sep [] = [] ∷ []
split_all sep (b ∷ rest) =
    let pieces = split_all sep rest in
    if b == sep
    then [] ∷ pieces
    else elim pieces [ [] ↦ (b ∷ []) ∷ [] | ◌∷◌ piece more ↦ (b ∷ piece) ∷ more ]

module _ (lossy : List ℕ → Text) where
  unfoldable pub percent_decode : Text → Text
  unfolding percent_bytes
  percent_decode s = lossy (percent_bytes s)

  -- `filter_map` over the pieces: those without `=` are dropped.
  unfoldable pub pairs_of : List Text → List (Text × Text)
  unfolding split_once percent_decode
  pairs_of [] = []
  pairs_of (piece ∷ more) = elim (split_once 61 piece) [
    | none ↦ pairs_of more
    | some p ↦ (to_ascii_lowercase (p.0), percent_decode (p.1)) ∷ pairs_of more
  ]

  unfoldable pub query_pairs : Text → List (Text × Text)
  unfolding split_all pairs_of
  query_pairs query = pairs_of (split_all 38 query)

  -- `find(|(k, _)| k == key).map(|(_, v)| v)`
  unfoldable pub find_key : Text → List (Text × Text) → Option Text
  find_key key [] = none
  find_key key ((k, v) ∷ more) =
      let later = find_key key more in if eq_text k key then some v else later

  unfoldable pub query_get : Text → Text → Option Text
  unfolding split_once query_pairs find_key
  query_get raw key = elim (split_once 63 raw) [
    | none ↦ none
    | some p ↦ find_key key (query_pairs (p.1))
  ]
