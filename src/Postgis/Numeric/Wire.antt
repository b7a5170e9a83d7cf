-- ===== src/Postgis/Numeric/Wire.antt =====
-- crates/shpx-driver-postgis/src/copy_binary.rs: the bytes of a numeric, and how from_sql reads them.
use shpx.Prelude.{
  ℕ, zero, suc, ◌+◌, ◌*◌, ◌^◌, ◌<◌, ◌≡◌, refl, sym, ap, ◌∙◌, arith, List, [], ◌∷◌, ◌++◌,
  append_assoc, append-nil, All, Result, ok, err, false, ltb, if◌then◌else◌, length, length-append,
  take, drop, take-append, drop-append,
}
use shpx.Geom.Bytes.{to_bytes, from_bytes, length-to_bytes, from_bytes-to_bytes}
use shpx.Postgis.Numeric.{PgNumeric, put_digits, write_payload}

pub data PayloadError : Type 0 where
  payload_too_short payload_truncated : PayloadError

-- `u16::from_be_bytes([raw[off], raw[off + 1]])`
abbrev pub word_at : List ℕ → ℕ → ℕ
word_at raw off = from_bytes false (take 2 (drop off raw))

-- The loop over `0..ndigits`, from the index `i` on.
unfoldable pub read_digits : List ℕ → ℕ → ℕ → List ℕ
read_digits raw zero i = []
read_digits raw (suc n) i = word_at raw (8 + i * 2) ∷ read_digits raw n (suc i)

unfoldable pub from_sql : List ℕ → Result PayloadError PgNumeric
unfolding read_digits from_bytes
from_sql raw =
    let ndigits = word_at raw 0 in
    let value : PgNumeric = record {
      digits = read_digits raw ndigits 0;
      weight = word_at raw 2;
      sign = word_at raw 4;
      dscale = word_at raw 6;
    } in
    if ltb (length raw) 8
    then err payload_too_short
    else if ltb (length raw) (8 + ndigits * 2)
    then err payload_truncated
    else ok value

pub take_number :
    (k v : ℕ) (rest : List ℕ) → take k (to_bytes false k v ++ rest) ≡ to_bytes false k v
take_number k v rest =
    ap (λ n. take n (to_bytes false k v ++ rest)) (sym (length-to_bytes false k v))
    ∙ take-append (to_bytes false k v) rest

pub drop_number : (k v : ℕ) (rest : List ℕ) → drop k (to_bytes false k v ++ rest) ≡ rest
drop_number k v rest =
    ap (λ n. drop n (to_bytes false k v ++ rest)) (sym (length-to_bytes false k v))
    ∙ drop-append (to_bytes false k v) rest

pub put_digits-append : (ds out : List ℕ) → put_digits ds out ≡ out ++ put_digits ds []
unfolding put_digits
put_digits-append [] out = sym (append-nil out)
put_digits-append (d ∷ ds) out =
    put_digits-append ds (out ++ to_bytes false 2 d)
    ∙ append_assoc out (to_bytes false 2 d) (put_digits ds [])
    ∙ ap (λ t. out ++ t) (sym (put_digits-append ds (to_bytes false 2 d)))

pub put_digits-length : (ds out : List ℕ) → length (put_digits ds out) ≡ length out + 2 * length ds
unfolding put_digits
put_digits-length [] out = omega arith
put_digits-length (d ∷ ds) out = omega (
  arith,
  put_digits-length ds (out ++ to_bytes false 2 d),
  length-append out (to_bytes false 2 d),
  length-to_bytes false 2 d,
)

-- The word behind `front`.
word_here :
    (front rest : List ℕ) (v off : ℕ)
    → length front ≡ off
    → v < 2 ^ 16
    → word_at (front ++ (to_bytes false 2 v ++ rest)) off ≡ v
word_here front rest v off at small =
    ap (λ n. word_at (front ++ (to_bytes false 2 v ++ rest)) n) (sym at)
    ∙ ap (λ t. from_bytes false (take 2 t)) (drop-append front (to_bytes false 2 v ++ rest))
    ∙ ap (λ t. from_bytes false t) (take_number 2 v rest)
    ∙ from_bytes-to_bytes false 2 v small

abbrev pub IsWord : ℕ → Type 0
IsWord d = d < 2 ^ 16

read_digits-put_digits :
    (ds front : List ℕ) (i : ℕ)
    → length front ≡ 8 + i * 2
    → All IsWord ds
    → read_digits (put_digits ds front) (length ds) i ≡ ds
unfolding read_digits put_digits
read_digits-put_digits [] front i at words = refl
read_digits-put_digits (d ∷ ds) front i at words =
    let word = to_bytes false 2 d in
    let here =
      ap (λ t. word_at t (8 + i * 2))
        (put_digits-append ds (front ++ word) ∙ append_assoc front word (put_digits ds []))
      ∙ word_here front (put_digits ds []) d (8 + i * 2) at words.0 in
    let behind : length (front ++ word) ≡ 8 + suc i * 2 =
      omega (arith, at, length-append front word, length-to_bytes false 2 d) in
    rw (here, read_digits-put_digits ds (front ++ word) (suc i) behind words.1) refl

-- A numeric whose parts fit their fields.
abbrev pub IsWire : PgNumeric → Type 0
IsWire n =
    (length n.digits < 2 ^ 16)
    × All IsWord n.digits
    × (n.weight < 2 ^ 16)
    × (n.sign < 2 ^ 16)
    × (n.dscale < 2 ^ 16)

abbrev header_of : PgNumeric → List ℕ
header_of n =
    ((to_bytes false 2 (length n.digits) ++ to_bytes false 2 n.weight) ++ to_bytes false 2 n.sign)
    ++ to_bytes false 2 n.dscale

header_length :
    (a b c d : ℕ)
    → length
        (((to_bytes false 2 a ++ to_bytes false 2 b) ++ to_bytes false 2 c) ++ to_bytes false 2 d)
      ≡ 8
unfolding to_bytes
header_length a b c d = refl

-- The four words of a header.
header_words :
    (a b c d : ℕ) (rest : List ℕ)
    → a < 2 ^ 16
    → b < 2 ^ 16
    → c < 2 ^ 16
    → d < 2 ^ 16
    → let raw =
        (((to_bytes false 2 a ++ to_bytes false 2 b) ++ to_bytes false 2 c) ++ to_bytes false 2 d)
        ++ rest in
      (word_at raw 0 ≡ a) × (word_at raw 2 ≡ b) × (word_at raw 4 ≡ c) × (word_at raw 6 ≡ d)
unfolding to_bytes
header_words a b c d rest ha hb hc hd = (
  from_bytes-to_bytes false 2 a ha,
  from_bytes-to_bytes false 2 b hb,
  from_bytes-to_bytes false 2 c hc,
  from_bytes-to_bytes false 2 d hd,
)

payload_behind : (n : PgNumeric) → write_payload n [] ≡ put_digits n.digits (header_of n)
unfolding write_payload
payload_behind n = refl

from_sql-words :
    (raw : List ℕ) (n : PgNumeric)
    → length raw ≡ 8 + 2 * length n.digits
    → word_at raw 0 ≡ length n.digits
    → word_at raw 2 ≡ n.weight
    → word_at raw 4 ≡ n.sign
    → word_at raw 6 ≡ n.dscale
    → read_digits raw (length n.digits) 0 ≡ n.digits
    → from_sql raw ≡ ok n
unfolding from_sql
from_sql-words raw n len count weight sign dscale digits =
    let header : ltb (length raw) 8 ≡ false = ground arith in
    let room : ltb (length raw) (8 + length n.digits * 2) ≡ false = ground arith in
    rw (count, header, room, weight, sign, dscale, digits) refl

payload_words :
    (n : PgNumeric) (off v : ℕ)
    → word_at (header_of n ++ put_digits n.digits []) off ≡ v
    → word_at (write_payload n []) off ≡ v
payload_words n off v h =
    ap (λ t. word_at t off) (payload_behind n ∙ put_digits-append n.digits (header_of n)) ∙ h

-- `from_sql` takes back what write_payload writes.
pub from_sql-write_payload : (n : PgNumeric) → IsWire n → from_sql (write_payload n []) ≡ ok n
from_sql-write_payload n (few, words, hw, hs, hd) =
    let (a, b, c, d) =
      header_words (length n.digits) n.weight n.sign n.dscale (put_digits n.digits []) few hw hs
        hd in
    let header = header_length (length n.digits) n.weight n.sign n.dscale in
    from_sql-words (write_payload n []) n
      (ap length (payload_behind n)
        ∙ put_digits-length n.digits (header_of n)
        ∙ omega (arith, header))
      (payload_words n 0 _ a) (payload_words n 2 _ b) (payload_words n 4 _ c)
      (payload_words n 6 _ d)
      (ap (λ t. read_digits t (length n.digits) 0) (payload_behind n)
        ∙ read_digits-put_digits n.digits (header_of n) 0 header words)
