-- ===== src/Postgis/Copy/Row/Framed.antt =====
-- The format of a COPY row, apart from the encoder: a count, and the fields with their lengths.
use shpx.Prelude.{
  ℕ, zero, suc, ◌+◌, ◌*◌, ◌^◌, ◌<◌, ◌≡◌, refl, sym, ap, ◌∙◌, arith, List, [], ◌∷◌, ◌++◌,
  append_assoc, All, Option, none, some, true, false, ltb, leb, ◌==◌, if◌then◌else◌, length,
  length-append, take, drop, take-append, drop-append,
}
use shpx.Geom.Bytes.{to_bytes, from_bytes, length-to_bytes, from_bytes-to_bytes}
use shpx.Postgis.Numeric.{PgNumeric, put_digits, write_payload}
use shpx.Postgis.Numeric.Wire.{take_number, drop_number, put_digits-append}
use shpx.Postgis.Copy.{put_field_pgnumeric}
use shpx.Postgis.Copy.Fields.{put_field_pgnumeric-length}

abbrev pub null_length : ℕ
null_length = 0xffff_ffff

-- A field: null, or its length and its bytes.
unfoldable pub field_bytes : Option (List ℕ) → List ℕ
field_bytes none = to_bytes false 4 null_length
field_bytes (some b) = to_bytes false 4 (length b) ++ b

unfoldable pub fields_bytes : List (Option (List ℕ)) → List ℕ
fields_bytes [] = []
fields_bytes (p ∷ ps) = field_bytes p ++ fields_bytes ps

-- A reader of the format.
unfoldable pub read_field : List ℕ → Option (Option (List ℕ) × List ℕ)
read_field bs =
    let len = from_bytes false (take 4 bs) in
    let behind = drop 4 bs in
    if ltb (length bs) 4
    then none
    else if len == null_length
    then some (none, behind)
    else if leb len (length behind)
    then some (some (take len behind), drop len behind)
    else none

abbrev and_then : {A B : Type 0} → Option A → (A → Option B) → Option B
and_then none f = none
and_then (some a) f = f a

unfoldable pub read_fields : ℕ → List ℕ → Option (List (Option (List ℕ)) × List ℕ)
unfolding read_field
read_fields zero bs = some ([], bs)
read_fields (suc n) bs = and_then (read_field bs) (λ (one : Option (List ℕ) × List ℕ).
    and_then (read_fields n (one.1))
      (λ (more : List (Option (List ℕ)) × List ℕ). some ((one.0) ∷ (more.0), more.1)))

unfoldable pub read_tuple : List ℕ → Option (List (Option (List ℕ)) × List ℕ)
unfolding read_fields
read_tuple bs =
    if ltb (length bs) 2 then none else read_fields (from_bytes false (take 2 bs)) (drop 2 bs)

abbrev pub IsShort : Option (List ℕ) → Type 0
IsShort none = Unit {0}
IsShort (some b) = length b < 2 ^ 31

long_enough : (k v : ℕ) (rest : List ℕ) → ltb (length (to_bytes false k v ++ rest)) k ≡ false
long_enough k v rest =
    ground (arith, length-append (to_bytes false k v) rest, length-to_bytes false k v)

read_field-field_bytes :
    (p : Option (List ℕ)) (rest : List ℕ)
    → IsShort p
    → read_field (field_bytes p ++ rest) ≡ some (p, rest)
unfolding read_field field_bytes
read_field-field_bytes none rest h =
    rw
      (
        long_enough 4 null_length rest,
        take_number 4 null_length rest,
        drop_number 4 null_length rest,
        from_bytes-to_bytes false 4 null_length (omega arith),
      )
      refl
read_field-field_bytes (some b) rest h = rw (append_assoc (to_bytes false 4 (length b)) b rest) (
    rw
      (
        long_enough 4 (length b) (b ++ rest),
        take_number 4 (length b) (b ++ rest),
        drop_number 4 (length b) (b ++ rest),
        from_bytes-to_bytes false 4 (length b) (omega arith),
      )
      (rw (not_null, fits, take-append b rest, drop-append b rest) refl))
  where
    not_null : (length b == null_length) ≡ false
    not_null = ground arith

    fits : leb (length b) (length (b ++ rest)) ≡ true
    fits = ground (arith, length-append b rest)

read_fields-fields_bytes :
    (ps : List (Option (List ℕ))) (rest : List ℕ)
    → All IsShort ps
    → read_fields (length ps) (fields_bytes ps ++ rest) ≡ some (ps, rest)
unfolding read_fields fields_bytes
read_fields-fields_bytes [] rest h = refl
read_fields-fields_bytes (p ∷ ps) rest h =
    rw (append_assoc (field_bytes p) (fields_bytes ps) rest) (
      rw
        (
          read_field-field_bytes p (fields_bytes ps ++ rest) h.0,
          read_fields-fields_bytes ps rest h.1,
        )
        refl)

-- The count of a row and its fields.
unfoldable pub tuple_bytes : List (Option (List ℕ)) → List ℕ
tuple_bytes ps = to_bytes false 2 (length ps) ++ fields_bytes ps

pub read_tuple-tuple_bytes :
    (ps : List (Option (List ℕ))) (rest : List ℕ)
    → length ps < 2 ^ 15
    → All IsShort ps
    → read_tuple (tuple_bytes ps ++ rest) ≡ some (ps, rest)
unfolding read_tuple tuple_bytes
read_tuple-tuple_bytes ps rest few h =
    rw (append_assoc (to_bytes false 2 (length ps)) (fields_bytes ps) rest) (
      rw
        (
          long_enough 2 (length ps) (fields_bytes ps ++ rest),
          take_number 2 (length ps) (fields_bytes ps ++ rest),
          drop_number 2 (length ps) (fields_bytes ps ++ rest),
          from_bytes-to_bytes false 2 (length ps) (omega arith),
        )
        (read_fields-fields_bytes ps rest h))

-- What the encoder writes of a field is such a field.
pub fixed-field_bytes :
    (out : List ℕ) (k v : ℕ)
    → (out ++ to_bytes false 4 k) ++ to_bytes false k v
      ≡ out ++ field_bytes (some (to_bytes false k v))
unfolding field_bytes
fixed-field_bytes out k v =
    append_assoc out (to_bytes false 4 k) (to_bytes false k v)
    ∙ ap (λ n. out ++ (to_bytes false 4 n ++ to_bytes false k v)) (sym (length-to_bytes false k v))

header_moved :
    (out a b c d t : List ℕ)
    → ((((out ++ a) ++ b) ++ c) ++ d) ++ t ≡ out ++ ((((([] ++ a) ++ b) ++ c) ++ d) ++ t)
header_moved out a b c d t = simp append_assoc

pub write_payload-append :
    (n : PgNumeric) (out : List ℕ) → write_payload n out ≡ out ++ write_payload n []
unfolding write_payload
write_payload-append n out =
    put_digits-append n.digits _
    ∙ header_moved out (to_bytes false 2 (length n.digits)) (to_bytes false 2 n.weight)
        (to_bytes false 2 n.sign) (to_bytes false 2 n.dscale) (put_digits n.digits [])
    ∙ ap (λ t. out ++ t) (sym (put_digits-append n.digits _))

pub length-write_payload : (n : PgNumeric) → length (write_payload n []) ≡ 8 + 2 * length n.digits
unfolding put_field_pgnumeric
length-write_payload n =
    let len = to_bytes false 4 (8 + 2 * length n.digits) in
    omega (
      arith,
      put_field_pgnumeric-length [] n,
      ap length (write_payload-append n len),
      length-append len (write_payload n []),
      length-to_bytes false 4 (8 + 2 * length n.digits),
    )

pub numeric-field_bytes :
    (out : List ℕ) (n : PgNumeric)
    → put_field_pgnumeric out n ≡ out ++ field_bytes (some (write_payload n []))
unfolding field_bytes put_field_pgnumeric
numeric-field_bytes out n =
    write_payload-append n (out ++ to_bytes false 4 (8 + 2 * length n.digits))
    ∙ append_assoc out (to_bytes false 4 (8 + 2 * length n.digits)) (write_payload n [])
    ∙ ap (λ len. out ++ (to_bytes false 4 len ++ write_payload n [])) (sym (length-write_payload n))
