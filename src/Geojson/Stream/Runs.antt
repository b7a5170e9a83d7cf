-- ===== src/Geojson/Stream/Runs.antt =====
-- Runs of the streams. A feature of these runs is a number, written as so many ones in braces.
use shpx.Prelude.{
  Text, ℕ, zero, suc, ◌≡◌, ◌≢◌, refl, List, [], ◌∷◌, ◌++◌, map, Option, none, some, Result, ok, err,
  ◌==◌, if◌then◌else◌,
}
use shpx.Geojson.Stream.{
  Reader, FcFeatureStream, Gives, new, next_feature, bad_feature, next_ndjson, bad_line, io,
  at_line,
}
use shpx.Geojson.Stream.Fused.{after, next_feature-fused}
use shpx.Geojson.Stream.Collection.{bytes, IsFeatureText, Elements, elements, new-Gives}
use shpx.Geojson.Stream.Lines.{at, records, next_ndjson-Gives}

abbrev ones : ℕ → Text
ones zero = 125 ∷ []
ones (suc n) = 49 ∷ ones n

abbrev show : ℕ → Text
show n = 123 ∷ ones n

abbrev one_more : Option (Result ℕ ℕ) × Reader ℕ → Option (Result ℕ ℕ) × Reader ℕ
one_more (some (ok n), r) = (some (ok (suc n)), r)
one_more (some (err e), r) = (some (err e), r)
one_more (none, r) = (none, r)

abbrev read_ones : Reader ℕ → Option (Result ℕ ℕ) × Reader ℕ
read_ones [] = (some (err 1), [])
read_ones (err e ∷ r) = (some (err e), r)
read_ones (ok b ∷ r) =
    let rest = one_more (read_ones r) in if b == 49 then rest else (some (ok 0), r)

abbrev read_feature : Reader ℕ → Option (Result ℕ ℕ) × Reader ℕ
read_feature [] = (none, [])
read_feature (err e ∷ r) = (some (err e), r)
read_feature (ok b ∷ r) = let rest = read_ones r in if b == 123 then rest else (some (err b), r)

ones_read : (f : ℕ) (r : Reader ℕ) → read_ones (bytes (ones f) ++ r) ≡ (some (ok f), r)
ones_read zero r = refl
ones_read (suc f) r = rw (ones_read f r) refl

show-IsFeatureText : IsFeatureText read_feature show
show-IsFeatureText f = ((123, ones f, refl, refl, refl), ones_read f)

-- `{"a":[`, ` {1}`, ` ,{11}` and `]`, and what follows.
abbrev two : Elements ℕ
two = (32 ∷ [], 1) ∷ (32 ∷ [], 2) ∷ []

abbrev opening : Text
opening = 123 ∷ 34 ∷ 97 ∷ 34 ∷ 58 ∷ []

new-Gives_example :
    Gives
      (next_feature read_feature)
      (new (bytes opening ++ ok 91 ∷ elements read_feature show [] two (ok 125 ∷ [])))
      (map ok (1 ∷ 2 ∷ []))
new-Gives_example =
    new-Gives read_feature show show-IsFeatureText opening [] two (ok 125 ∷ [])
      (refl, (refl, (refl, (refl, (refl, tt))))) (tt, ((refl, tt), ((refl, tt), tt)))

abbrev no_features : FcFeatureStream ℕ
no_features = new (bytes opening)

never : (f : ℕ) → (next_feature read_feature no_features).0 ≢ some (ok f)
unfolding next_feature new
never f e = cc

next_feature-fused_example :
    (next_feature read_feature (after read_feature 2 ((next_feature read_feature no_features).1))).0
    ≡ none
next_feature-fused_example = next_feature-fused read_feature no_features never 2

-- `[` of another member is taken for the features: `{"a":[7],"features":[..` fails at the 7.
other_array_read :
    (next_feature read_feature (new (bytes (opening ++ 91 ∷ 55 ∷ 93 ∷ [])))).0
    ≡ some (err (bad_feature 55))
unfolding next_feature new
other_array_read = refl

abbrev parse_line : Text → Result ℕ Text
parse_line [] = err 0
parse_line (b ∷ t) = if b == 123 then ok t else err b

-- A comment, a feature, a line that is no feature, a read that fails, and a line behind it.
abbrev lines : List (Result ℕ Text)
lines = ok (35 ∷ []) ∷ ok (123 ∷ 49 ∷ []) ∷ ok (50 ∷ []) ∷ err 9 ∷ ok (123 ∷ []) ∷ []

next_ndjson-Gives_example :
    Gives
      (next_ndjson (λ t. t) parse_line)
      (at lines 0)
      (ok (49 ∷ []) ∷ err (bad_line 3 50) ∷ err (io 9) ∷ [])
unfolding at_line
next_ndjson-Gives_example = next_ndjson-Gives (λ t. t) parse_line lines 0

-- A byte order mark is taken off the second line too.
mark_inside :
    records (λ t. t) parse_line 0 (ok (123 ∷ []) ∷ ok (239 ∷ 187 ∷ 191 ∷ 123 ∷ 49 ∷ []) ∷ [])
    ≡ ok [] ∷ ok (49 ∷ []) ∷ []
unfolding at_line
mark_inside = refl
