-- ===== src/Postgis/Copy/Row/Encoded.antt =====
-- What the encoder writes for a row.
use shpx.Prelude.{
  Text, ℕ, ◌+◌, ◌-◌, ◌%◌, ◌^◌, ◌<◌, ◌≤◌, ◌≡◌, inl, inr, refl, ap, ◌∙◌, subst, arith, List, [], ◌∷◌,
  ◌++◌, append_assoc, Option, none, some, Bool, true, false, Result, ok, err, Ensures, holds, fails,
  ltb, if◌then◌else◌, length, Bool-cases,
}
use shpx.Prelude.Outcome.{◌>>=◌}
use shpx.Geom.Types.{Fault}
use shpx.Geom.Bytes.{to_bytes, length-to_bytes, length-reverse}
use shpx.Geom.Ewkb.{encode_with_srid}
use shpx.Postgis.Numeric.{low_first, trim_low, from_u128_scale, from_i128_scale, write_payload}
use shpx.Postgis.Numeric.Value.{length-low_first, length-trim_low}
use shpx.Postgis.Copy.{put_field, put_field_pgnumeric, encode_null, encode_geometry}
use shpx.Postgis.Copy.Row.{
  TimeUnit, DataType, Value, CopyError, panicked, date_overflow, timestamp_overflow,
  scale_unsupported, Field, boolean, int16, int32, int64, float32, float64, utf8, large_utf8,
  binary, large_binary, date32, timestamp, decimal128, bool, bits, bytes, checked_sub,
  ts_to_unix_micros, pg_epoch_days_from_unix, pg_epoch_micros_from_unix, put_field_i16,
  put_field_i32, put_field_i64, or_err, encode_value, encode_field, as_binary, of_geometry,
}
use shpx.Postgis.Copy.Row.Framed.{
  field_bytes, IsShort, fixed-field_bytes, numeric-field_bytes, length-write_payload,
}

from_u128_scale-length :
    (abs scale sign dscale : ℕ) → length (from_u128_scale abs scale sign dscale).digits ≤ 11
unfolding from_u128_scale
from_u128_scale-length abs scale sign dscale = omega (
  arith,
  length-reverse (trim_low (low_first abs (scale % 4))),
  length-trim_low (low_first abs (scale % 4)),
  length-low_first abs (scale % 4),
)

-- A Decimal128 has at most eleven digits to the base 10000.
from_i128_scale-length : (v scale : ℕ) → length (from_i128_scale v scale).digits ≤ 11
unfolding from_i128_scale
from_i128_scale-length v scale = ground (
  arith,
  from_u128_scale-length v scale 0 scale,
  from_u128_scale-length (2 ^ 128 - v) scale 0x4000 scale,
)

-- The bytes of a value, by the type of its column: numbers from the high byte on, days and
-- microseconds counted from 2000-01-01, and a numeric.
abbrev pub Holds : {O : Type 0} → DataType O → Value → List ℕ → Type 0
Holds boolean (bool v) b = b ≡ (if v then 1 else 0) ∷ []
Holds int16 (bits v) b = b ≡ to_bytes false 2 v
Holds int32 (bits v) b = b ≡ to_bytes false 4 v
Holds int64 (bits v) b = b ≡ to_bytes false 8 v
Holds float32 (bits v) b = b ≡ to_bytes false 4 v
Holds float64 (bits v) b = b ≡ to_bytes false 8 v
Holds utf8 (bytes s) b = b ≡ s
Holds large_utf8 (bytes s) b = b ≡ s
Holds binary (bytes s) b = b ≡ s
Holds large_binary (bytes s) b = b ≡ s
Holds date32 (bits v) b =
    (days : ℕ) × (b ≡ to_bytes false 4 days)
    × ((days + pg_epoch_days_from_unix) % 2 ^ 32 ≡ v % 2 ^ 32)
    × (2 ^ 31 ≤ v → 2 ^ 31 + pg_epoch_days_from_unix ≤ v)
Holds (timestamp unit) (bits v) b =
    (unix : ℕ) × (micros : ℕ) × (ts_to_unix_micros unit v ≡ some unix)
    × (b ≡ to_bytes false 8 micros)
    × ((micros + pg_epoch_micros_from_unix) % 2 ^ 64 ≡ unix % 2 ^ 64)
    × (2 ^ 63 ≤ unix → 2 ^ 63 + pg_epoch_micros_from_unix ≤ unix)
Holds (decimal128 scale) (bits v) b =
    (scale < 128) × (b ≡ write_payload (from_i128_scale v scale) [])
Holds t v b = ⊥

-- The field of a value: null, or bytes that are fewer than 2 ^ 31.
abbrev pub IsPayload : {O : Type 0} → DataType O → Option Value → Option (List ℕ) → Type 0
IsPayload t none p = p ≡ none
IsPayload t (some v) p = (b : List ℕ) × (p ≡ some b) × Holds t v b

abbrev pub IsGeometry : ℕ → Option Value → Option (List ℕ) → Type 0
IsGeometry srid none p = p ≡ none
IsGeometry srid (some (bytes wkb)) p =
    (b : List ℕ) × (p ≡ some b) × (encode_with_srid wkb srid ≡ ok b)
IsGeometry srid (some v) p = ⊥

-- No field has the property `R`.
abbrev pub Refuses : (Option (List ℕ) → Type 0) → Type 0
Refuses R = (p : Option (List ℕ)) → IsShort p → R p → ⊥

-- A step that appends one field with the property `R`, or fails where there is none.
abbrev pub Writes : (Option (List ℕ) → Type 0) → List ℕ → Result CopyError (List ℕ) → Type 0
Writes R out r =
    Ensures (λ out'. (p : Option (List ℕ)) × (out' ≡ out ++ field_bytes p) × IsShort p × R p)
      (λ e. Refuses R) r

Writes-put_field :
    (R : Option (List ℕ) → Type 0) (out b : List ℕ)
    → R (some b)
    → ((p : Option (List ℕ)) → R p → p ≡ some b)
    → Writes R out (or_err panicked (put_field out b))
unfolding put_field field_bytes
Writes-put_field R out b h only = elim (Bool-cases (ltb (length b) (2 ^ 31))) [
  | inl t ↦ rw t (holds (some b, moved, ground arith, h))
  | inr f ↦ rw f (
      fails (λ p short r.
        let below = subst IsShort (only p r) short in
        let not_below : ltb (length b) (2 ^ 31) ≡ true = ground arith in cc))
]
  where
    moved : (out ++ to_bytes false 4 (length b)) ++ b ≡ out ++ field_bytes (some b)
    moved = append_assoc out (to_bytes false 4 (length b)) b

Writes-fixed :
    (R : Option (List ℕ) → Type 0) (out : List ℕ) (k v : ℕ)
    → k < 2 ^ 31
    → R (some (to_bytes false k v))
    → Writes R out (ok ((out ++ to_bytes false 4 k) ++ to_bytes false k v))
Writes-fixed R out k v small h = holds (
  some (to_bytes false k v),
  fixed-field_bytes out k v,
  omega (arith, length-to_bytes false k v),
  h,
)

days_back :
    (v d : ℕ)
    → checked_sub (2 ^ 31) pg_epoch_days_from_unix v ≡ some d
    → ((d + pg_epoch_days_from_unix) % 2 ^ 32 ≡ v % 2 ^ 32)
      × (2 ^ 31 ≤ v → 2 ^ 31 + pg_epoch_days_from_unix ≤ v)
unfolding checked_sub
days_back v d e = (ground arith, λ h. ground arith)

no_days :
    (v : ℕ)
    → checked_sub (2 ^ 31) pg_epoch_days_from_unix v ≡ none
    → (2 ^ 31 ≤ v → 2 ^ 31 + pg_epoch_days_from_unix ≤ v)
    → ⊥
unfolding checked_sub
no_days v e h = ground (arith, h)

micros_back :
    (v d : ℕ)
    → checked_sub (2 ^ 63) pg_epoch_micros_from_unix v ≡ some d
    → ((d + pg_epoch_micros_from_unix) % 2 ^ 64 ≡ v % 2 ^ 64)
      × (2 ^ 63 ≤ v → 2 ^ 63 + pg_epoch_micros_from_unix ≤ v)
unfolding checked_sub
micros_back v d e = (ground arith, λ h. ground arith)

no_micros :
    (v : ℕ)
    → checked_sub (2 ^ 63) pg_epoch_micros_from_unix v ≡ none
    → (2 ^ 63 ≤ v → 2 ^ 63 + pg_epoch_micros_from_unix ≤ v)
    → ⊥
unfolding checked_sub
no_micros v e h = ground (arith, h)

-- A number that is checked first.
Writes-checked :
    (R : Option (List ℕ) → Type 0) (out : List ℕ) (k : ℕ) (e : CopyError) (checked : Option ℕ)
    → k < 2 ^ 31
    → ((d : ℕ) → checked ≡ some d → R (some (to_bytes false k d)))
    → (checked ≡ none → Refuses R)
    → Writes R out
        (or_err e checked >>= λ d. ok ((out ++ to_bytes false 4 k) ++ to_bytes false k d))
Writes-checked R out k e none small h nothing = fails (nothing refl)
Writes-checked R out k e (some d) small h nothing = Writes-fixed R out k d small (h d refl)

Writes-time :
    (O : Type 0) (name : Text) (unit : TimeUnit) (v : ℕ) (out : List ℕ) (unix : Option ℕ)
    → ts_to_unix_micros unit v ≡ unix
    → Writes (IsPayload {O = O} (timestamp unit) (some (bits v))) out (
        or_err (timestamp_overflow name) unix >>= λ micros_unix.
        or_err
          (timestamp_overflow name)
          (checked_sub (2 ^ 63) pg_epoch_micros_from_unix micros_unix)
        >>= λ pg_micros. ok ((out ++ to_bytes false 4 8) ++ to_bytes false 8 pg_micros))
Writes-time O name unit v out none e =
    fails (λ p short (b, q, (unix, micros, k, r, mod_eq, range)). cc)
Writes-time O name unit v out (some unix) e =
    Writes-checked _ out 8 (timestamp_overflow name)
      (checked_sub (2 ^ 63) pg_epoch_micros_from_unix unix) (omega arith)
      (λ d k. (_, refl, (unix, d, e, refl, (micros_back unix d k).0, (micros_back unix d k).1)))
      (λ k p short (b, q, (unix', micros, k', r, mod_eq, range)).
        let same : unix' ≡ unix = cc in
        no_micros unix k
          (subst (λ u. 2 ^ 63 ≤ u → 2 ^ 63 + pg_epoch_micros_from_unix ≤ u) same range))

Writes-numeric :
    (O : Type 0) (name : Text) (scale v : ℕ) (out : List ℕ) (b : Bool)
    → ltb scale 128 ≡ b
    → Writes (IsPayload {O = O} (decimal128 scale) (some (bits v))) out (
        if b
        then ok (put_field_pgnumeric out (from_i128_scale v scale))
        else err (scale_unsupported name scale))
Writes-numeric O name scale v out false e = fails (λ p short (b, q, (small, r)). ground arith)
Writes-numeric O name scale v out true e = holds (
  some (write_payload (from_i128_scale v scale) []),
  numeric-field_bytes out (from_i128_scale v scale),
  omega (arith, length-write_payload (from_i128_scale v scale), from_i128_scale-length v scale),
  (_, refl, (ground arith, refl)),
)

encode_value-Writes :
    {O : Type 0} (name : Text) (t : DataType O) (v : Value) (out : List ℕ)
    → Writes (IsPayload t (some v)) out (encode_value name t v out)
unfolding encode_value put_field_i16 put_field_i32 put_field_i64
encode_value-Writes name boolean (bool v) out =
    Writes-put_field _ out _ (_, refl, refl) (λ p (b, e, e'). e ∙ ap some e')
encode_value-Writes name int16 (bits v) out = Writes-fixed _ out 2 v (omega arith) (_, refl, refl)
encode_value-Writes name int32 (bits v) out = Writes-fixed _ out 4 v (omega arith) (_, refl, refl)
encode_value-Writes name int64 (bits v) out = Writes-fixed _ out 8 v (omega arith) (_, refl, refl)
encode_value-Writes name float32 (bits v) out =
    Writes-put_field _ out _ (_, refl, refl) (λ p (b, e, e'). e ∙ ap some e')
encode_value-Writes name float64 (bits v) out =
    Writes-put_field _ out _ (_, refl, refl) (λ p (b, e, e'). e ∙ ap some e')
encode_value-Writes name utf8 (bytes s) out =
    Writes-put_field _ out _ (_, refl, refl) (λ p (b, e, e'). e ∙ ap some e')
encode_value-Writes name large_utf8 (bytes s) out =
    Writes-put_field _ out _ (_, refl, refl) (λ p (b, e, e'). e ∙ ap some e')
encode_value-Writes name binary (bytes s) out =
    Writes-put_field _ out _ (_, refl, refl) (λ p (b, e, e'). e ∙ ap some e')
encode_value-Writes name large_binary (bytes s) out =
    Writes-put_field _ out _ (_, refl, refl) (λ p (b, e, e'). e ∙ ap some e')
encode_value-Writes name date32 (bits v) out =
    Writes-checked _ out 4 (date_overflow name) (checked_sub (2 ^ 31) pg_epoch_days_from_unix v)
      (omega arith) (λ d k. (_, refl, (d, refl, (days_back v d k).0, (days_back v d k).1)))
      (λ k p short (b, q, (days, r, mod_eq, range)). no_days v k range)
encode_value-Writes {O} name (timestamp unit) (bits v) out =
    Writes-time O name unit v out (ts_to_unix_micros unit v) refl
encode_value-Writes {O} name (decimal128 scale) (bits v) out =
    Writes-numeric O name scale v out (ltb scale 128) refl
encode_value-Writes name t v out = fails (λ p short (b, e, h). h)

pub encode_field-Writes :
    {O : Type 0} (f : Field O) (cell : Option Value) (out : List ℕ)
    → Writes (IsPayload f.data_type cell) out (encode_field f cell out)
unfolding encode_field encode_null field_bytes
encode_field-Writes f none out = holds (none, refl, tt, refl)
encode_field-Writes f (some v) out = encode_value-Writes f.name f.data_type v out

Writes-ewkb :
    (srid : ℕ) (wkb : List ℕ) (out : List ℕ) (r : Result Fault (List ℕ))
    → encode_with_srid wkb srid ≡ r
    → Writes
        (IsGeometry srid (some (bytes wkb)))
        out
        (of_geometry (elim r [ ok ewkb_bytes ↦ ok (put_field out ewkb_bytes) | err e ↦ err e ]))
Writes-ewkb srid wkb out (err f) e = fails (λ p short (b, q, k). cc)
Writes-ewkb srid wkb out (ok b) e =
    Writes-put_field _ out b (b, refl, e)
      (λ p (b', q, k). let same : b' ≡ b = cc in q ∙ ap some same)

pub of_geometry-Writes :
    (srid : ℕ) (cell : Option Value) (out : List ℕ)
    → Writes
        (IsGeometry srid cell)
        out
        (as_binary cell >>= λ wkb. of_geometry (encode_geometry wkb srid out))
unfolding encode_geometry encode_null field_bytes
of_geometry-Writes srid none out = holds (none, refl, tt, refl)
of_geometry-Writes srid (some (bytes wkb)) out =
    Writes-ewkb srid wkb out (encode_with_srid wkb srid) refl
of_geometry-Writes srid (some (bool v)) out = fails (λ p short h. h)
of_geometry-Writes srid (some (bits v)) out = fails (λ p short h. h)
