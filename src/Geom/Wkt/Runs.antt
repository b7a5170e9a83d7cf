-- ===== src/Geom/Wkt/Runs.antt =====
-- Runs of the WKT codec. A number of these runs is written as one digit more than its pattern.
use shpx.Prelude.{
  Text, zero, suc, ◌-◌, ◌^◌, ◌<◌, ◌≡◌, refl, ap, ◌∙◌, arith, [], ◌∷◌, Option, none, some, Bool,
  true, false, subst, ok, err, Ensures, inl, length, All, ltb, if◌then◌else◌,
}
use shpx.Geom.Types.{
  F64, IsF64, Geom, line_string, polygon, multi_point, empty_unsupported, expected_number,
}
use shpx.Geom.Float.{is_finite}
use shpx.Geom.Wkt.Encode.{encode}
use shpx.Geom.Wkt.Tokens.{is_number_byte}
use shpx.Geom.Wkt.Decode.{decode}
use shpx.Geom.Wkt.Numbers.{IsDisplay, IsNumber}
use shpx.Geom.Wkt.RoundTrip.{decode-encode_wkt}
use shpx.Geom.Wkt.Ends.{IsError}
use shpx.Geom.Wkt.Accepts.{IsRead, decode-IsRead}

abbrev pub show : F64 → Text
show zero = 49 ∷ []
show (suc x) = 49 ∷ show x

abbrev pub parse : Text → Option F64
parse t = if ltb (length t) (2 ^ 64) then some (length t - 1) else none

length-show : (x : F64) → length (show x) ≡ suc x
length-show zero = refl
length-show (suc x) = ap suc (length-show x)

show-digits : (x : F64) → All (λ b. is_number_byte b ≡ true) (show x)
show-digits zero = (refl, tt)
show-digits (suc x) = (refl, show-digits x)

finite_below : (x : F64) → IsNumber x → suc x < 2 ^ 64
unfolding is_finite
finite_below x (h, e) = ground arith

pub shown : IsDisplay show parse
shown x h = (
  (show x, show-digits x, omega (arith, length-show x), inl refl),
  ap (λ n. if ltb n (2 ^ 64) then some (n - 1) else none) (length-show x)
      ∙ rw (let e : ltb (suc x) (2 ^ 64) ≡ true = ground (arith, finite_below x h) in e)
          (ap some (omega arith)),
)

if_some :
    (b : Bool) (n v : F64) → (if b then some n else none) ≡ some v → (b ≡ true → IsF64 n) → IsF64 v
if_some true n v e h = subst IsF64 (cc) (h refl)
if_some false n v e h = cc

parse-IsF64 : (t : Text) (v : F64) → parse t ≡ some v → IsF64 v
parse-IsF64 t v e = if_some (ltb (length t) (2 ^ 64)) (length t - 1) v e (λ h. ground arith)

abbrev two_rings : Geom
two_rings = polygon (((3, 1) ∷ (2, 0) ∷ []) ∷ ((5, 5) ∷ []) ∷ [])

pub number : (x : F64) → x < 100 → IsNumber x
unfolding is_finite
number x h = (omega arith, ground arith)

decode-encode_wkt_example :
    (t : Text) × (encode show two_rings ≡ ok t) × (decode parse t ≡ ok two_rings)
decode-encode_wkt_example = decode-encode_wkt show parse shown two_rings (
  omega arith,
  (
    (
      omega arith,
      (
        (number 3 (omega arith), number 1 (omega arith)),
        ((number 2 (omega arith), number 0 (omega arith)), tt),
      ),
    ),
    ((omega arith, ((number 5 (omega arith), number 5 (omega arith)), tt)), tt),
  ),
)

-- `MULTIPOINT(11 1, (1 111))`
abbrev mixed : Text
mixed =
    77 ∷ 85 ∷ 76 ∷ 84 ∷ 73 ∷ 80 ∷ 79 ∷ 73 ∷ 78 ∷ 84 ∷ 40 ∷ 49 ∷ 49 ∷ 32 ∷ 49 ∷ 44 ∷ 32 ∷ 40 ∷ 49
    ∷ 32 ∷ 49 ∷ 49 ∷ 49 ∷ 41 ∷ 41 ∷ []

decode-IsRead_example : Ensures (IsRead IsF64) IsError (decode parse mixed)
decode-IsRead_example = decode-IsRead parse IsF64 parse-IsF64 mixed

mixed_read : decode parse mixed ≡ ok (multi_point ((1, 0) ∷ (0, 2) ∷ []))
unfolding decode
mixed_read = refl

-- `point EMPTY`
empty_refused :
    decode parse (112 ∷ 111 ∷ 105 ∷ 110 ∷ 116 ∷ 32 ∷ 69 ∷ 77 ∷ 80 ∷ 84 ∷ 89 ∷ [])
    ≡ err empty_unsupported
unfolding decode
empty_refused = refl

-- A line string without points is written, and not read.
no_points_written :
    (t : Text) × (encode show (line_string []) ≡ ok t) × (decode parse t ≡ err (expected_number 11))
unfolding encode decode
no_points_written = (76 ∷ 73 ∷ 78 ∷ 69 ∷ 83 ∷ 84 ∷ 82 ∷ 73 ∷ 78 ∷ 71 ∷ 40 ∷ 41 ∷ [], refl, refl)
