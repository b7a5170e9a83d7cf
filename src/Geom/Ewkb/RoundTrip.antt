-- ===== src/Geom/Ewkb/RoundTrip.antt =====
-- Setting and removing the SRID are inverse to one another, and a decoded EWKB is its WKB.
use Prim.Native.Nat.{bit_and}
use shpx.Prelude.{
  ℕ, ◌+◌, ◌-◌, ◌/◌, ◌^◌, ◌≤◌, ◌<◌, ◌≡◌, refl, sym, ◌∙◌, ap, ◌↔◌, subst, arith, List, ◌++◌, Option,
  none, some, Result, ok, err, Bool, true, false, Bool-cases, inl, inr, ltb, if◌then◌else◌, length,
  take, drop, All, length-append, All-take, All-drop, length-take, length-drop, drop-drop,
}
use mathlib.Core.Path.{ap₂}
use shpx.Prelude.Outcome.{>>=-eq-ok}
use shpx.Geom.Types.{Geom, Fault, IsGeom, too_short, already_srid}
use shpx.Geom.Bytes.{IsByte, to_bytes, from_bytes, length-to_bytes, from_bytes-lt}
use shpx.Geom.Ewkb.{
  srid_flag, first, order_of, read_type, insert_srid, encode_with_srid, remove_srid, strip_srid,
  decode,
}
use shpx.Geom.Ewkb.Flags.{bit_and-srid_flag, bit_and-zm_flags}
use shpx.Geom.Wkb.Encode.{estimate_size, byte_order_le, byte_order_be}
use shpx.Geom.Wkb.Layout.{layout, header_bytes, length-layout, layout-header}
use shpx.Geom.Wkb.RoundTrip.{decode-layout}
use shpx.Geom.Ewkb.Frame.{
  frame, length-frame, read_type-frame, word-view, frame-read_type, read_type-lt, insert_srid-ok,
  remove_srid-ok,
}

ok-injective : {A : Type 0} {a b : A} → ◌≡◌ {A = Result Fault A} (ok a) (ok b) → a ≡ b
ok-injective e = cc

insert_srid-inv :
    (wkb ewkb : List ℕ) (srid : ℕ) (little : Bool)
    → read_type wkb little < 2 ^ 32
    → insert_srid wkb srid little ≡ ok ewkb
    → read_type wkb little < 2 ^ 29
unfolding insert_srid
insert_srid-inv wkb ewkb srid little word e = ground (
  arith,
  bit_and-srid_flag (read_type wkb little) word,
  bit_and-zm_flags (read_type wkb little) word,
)

-- An accepted WKB has the frame of a type word without flags.
encode_with_srid-inv :
    (wkb ewkb : List ℕ) (srid : ℕ)
    → encode_with_srid wkb srid ≡ ok ewkb
    → (5 ≤ length wkb)
      × ((little : Bool) × (order_of (first wkb) ≡ ok little)
          × (insert_srid wkb srid little ≡ ok ewkb))
unfolding encode_with_srid
encode_with_srid-inv wkb ewkb srid e = elim (Bool-cases (ltb (length wkb) 5)) [
  | inl short ↦ let e' : err (too_short (length wkb)) ≡ ok ewkb = rw short at e in cc
  | inr long ↦
      (ground arith, >>=-eq-ok (order_of (first wkb)) (insert_srid wkb srid) (rw long at e))
]

remove_srid-inv :
    (ewkb wkb : List ℕ) (srid : ℕ) (little : Bool)
    → read_type ewkb little < 2 ^ 32
    → remove_srid ewkb little ≡ ok (wkb, some srid)
    → (9 ≤ length ewkb) × (read_type ewkb little / 2 ^ 29 ≡ 1)
unfolding remove_srid
remove_srid-inv ewkb wkb srid little word e = ground (
  arith,
  bit_and-srid_flag (read_type ewkb little) word,
  bit_and-zm_flags (read_type ewkb little) word,
)

strip_srid-inv :
    (ewkb : List ℕ) (r : List ℕ × Option ℕ)
    → strip_srid ewkb ≡ ok r
    → (5 ≤ length ewkb)
      × ((little : Bool) × (order_of (first ewkb) ≡ ok little) × (remove_srid ewkb little ≡ ok r))
unfolding strip_srid
strip_srid-inv ewkb r e = elim (Bool-cases (ltb (length ewkb) 5)) [
  | inl short ↦ let e' : err (too_short (length ewkb)) ≡ ok r = rw short at e in cc
  | inr long ↦ (ground arith, >>=-eq-ok (order_of (first ewkb)) (remove_srid ewkb) (rw long at e))
]

-- On a frame the two operations are those of its type word.
module _ (order : ℕ) (little : Bool) (ty : ℕ) (rest : List ℕ)
    (known : order_of order ≡ ok little) where
  long_enough : ltb (length (frame order little ty rest)) 5 ≡ false
  long_enough = ground (arith, length-frame order little ty rest)

  encode_with_srid-frame :
      (srid : ℕ)
      → encode_with_srid (frame order little ty rest) srid
        ≡ insert_srid (frame order little ty rest) srid little
  unfolding encode_with_srid
  encode_with_srid-frame srid = rw (long_enough, known)

  strip_srid-frame :
      strip_srid (frame order little ty rest) ≡ remove_srid (frame order little ty rest) little
  unfolding strip_srid
  strip_srid-frame = rw (long_enough, known)

-- `ewkb` is `wkb` with a SRID: the format, by its parts.
abbrev pub SridAdded : List ℕ → ℕ → List ℕ → Type 0
SridAdded wkb srid ewkb =
    (order : ℕ) × (little : Bool) × (ty : ℕ) × (rest : List ℕ) × (order_of order ≡ ok little)
    × (ty < 2 ^ 29)
    × (wkb ≡ frame order little ty rest)
    × (ewkb ≡ frame order little (ty + 2 ^ 29) (to_bytes little 4 srid ++ rest))

encode_with_srid→SridAdded :
    (wkb ewkb : List ℕ) (srid : ℕ)
    → All IsByte wkb
    → encode_with_srid wkb srid ≡ ok ewkb
    → SridAdded wkb srid ewkb
encode_with_srid→SridAdded wkb ewkb srid all e =
    let (long, (little, known, inserted)) = encode_with_srid-inv wkb ewkb srid e in
    let plain = insert_srid-inv wkb ewkb srid little (read_type-lt wkb little all long) inserted in
    let view = frame-read_type wkb little all long in
    (
      first wkb,
      little,
      read_type wkb little,
      drop 5 wkb,
      known,
      plain,
      view,
      ok-injective (
          sym inserted
          ∙ ap (λ w. insert_srid w srid little) view
          ∙ insert_srid-ok (first wkb) little (read_type wkb little) (drop 5 wkb) srid plain),
    )

SridAdded→encode_with_srid :
    (wkb ewkb : List ℕ) (srid : ℕ) → SridAdded wkb srid ewkb → encode_with_srid wkb srid ≡ ok ewkb
SridAdded→encode_with_srid wkb ewkb srid (order, little, ty, rest, known, plain, from, to) =
    rw (from, to, encode_with_srid-frame order little ty rest known srid)
      (insert_srid-ok order little ty rest srid plain)

SridAdded→strip_srid :
    (wkb ewkb : List ℕ) (srid : ℕ)
    → srid < 2 ^ 32
    → SridAdded wkb srid ewkb
    → strip_srid ewkb ≡ ok (wkb, some srid)
SridAdded→strip_srid wkb ewkb srid h (order, little, ty, rest, known, plain, from, to) =
    rw (from, to)
      (strip_srid-frame order little (ty + 2 ^ 29) (to_bytes little 4 srid ++ rest) known
        ∙ remove_srid-ok order little ty rest srid plain h)

found-lt :
    (ewkb : List ℕ) (little : Bool)
    → All IsByte ewkb
    → 9 ≤ length ewkb
    → from_bytes little (take 4 (drop 5 ewkb)) < 2 ^ 32
found-lt ewkb little all h =
    let tail : List ℕ = drop 5 ewkb in
    subst (λ k. from_bytes little (take 4 tail) < 256 ^ k)
      (length-take 4 tail (omega (arith, length-drop 5 ewkb)))
      (from_bytes-lt little (take 4 tail) (All-take IsByte 4 tail (All-drop IsByte 5 ewkb all)))

strip_srid→SridAdded :
    (wkb ewkb : List ℕ) (srid : ℕ)
    → All IsByte ewkb
    → strip_srid ewkb ≡ ok (wkb, some srid)
    → SridAdded wkb srid ewkb
strip_srid→SridAdded wkb ewkb srid all e =
    let (long, (little, known, removed)) = strip_srid-inv ewkb (wkb, some srid) e in
    let word = read_type-lt ewkb little all long in
    let (longer, flags) = remove_srid-inv ewkb wkb srid little word removed in
    let base = read_type ewkb little - 2 ^ 29 in
    let found = from_bytes little (take 4 (drop 5 ewkb)) in
    let view : ewkb
        ≡ frame (first ewkb) little (base + 2 ^ 29) (to_bytes little 4 found ++ drop 9 ewkb) =
      frame-read_type ewkb little all long
      ∙ ap₂ (frame (first ewkb) little) (omega arith) (
          word-view (drop 5 ewkb) little (All-drop IsByte 5 ewkb all)
            (omega (arith, length-drop 5 ewkb))
          ∙ ap (λ t. to_bytes little 4 found ++ t) (drop-drop 4 5 ewkb)) in
    let result : ◌≡◌ {A = Result Fault (List ℕ × Option ℕ)} (ok (wkb, some srid))
        (ok (frame (first ewkb) little base (drop 9 ewkb), some found)) =
      sym removed
      ∙ ap (λ w. remove_srid w little) view
      ∙ remove_srid-ok (first ewkb) little base (drop 9 ewkb) found (omega arith)
          (found-lt ewkb little all longer) in
    let same : found ≡ srid = cc in
    let with_srid =
      view
      ∙ ap (λ t. frame (first ewkb) little (base + 2 ^ 29) (to_bytes little 4 t ++ drop 9 ewkb))
          same in
    (first ewkb, little, base, drop 9 ewkb, known, omega arith, cc, with_srid)

-- For bytes and an i32 pattern: putting a SRID into `wkb` gives `ewkb` exactly when taking the
-- SRID off `ewkb` gives `wkb` and that SRID.
pub encode_with_srid-iff-strip_srid :
    (wkb ewkb : List ℕ) (srid : ℕ)
    → All IsByte wkb
    → All IsByte ewkb
    → srid < 2 ^ 32
    → (encode_with_srid wkb srid ≡ ok ewkb) ↔ (strip_srid ewkb ≡ ok (wkb, some srid))
encode_with_srid-iff-strip_srid wkb ewkb srid all all' small = (
  λ e. SridAdded→strip_srid wkb ewkb srid small (encode_with_srid→SridAdded wkb ewkb srid all e),
  λ e. SridAdded→encode_with_srid wkb ewkb srid (strip_srid→SridAdded wkb ewkb srid all' e),
)

-- An EWKB takes no second SRID.
pub encode_with_srid_twice :
    (wkb ewkb : List ℕ) (srid srid' : ℕ)
    → All IsByte wkb
    → encode_with_srid wkb srid ≡ ok ewkb
    → encode_with_srid ewkb srid' ≡ err already_srid
unfolding insert_srid
encode_with_srid_twice wkb ewkb srid srid' all e =
    let (order, little, ty, rest, known, plain, from, to) =
      encode_with_srid→SridAdded wkb ewkb srid all e in
    let body : List ℕ = to_bytes little 4 srid ++ rest in
    let word : ty + 2 ^ 29 < 2 ^ 32 = omega arith in
    let has_srid : bit_and (ty + 2 ^ 29) srid_flag ≡ 2 ^ 29 =
      omega (arith, bit_and-srid_flag _ word) in
    rw (
      to,
      encode_with_srid-frame order little (ty + 2 ^ 29) body known srid',
      read_type-frame order little (ty + 2 ^ 29) body word,
      has_srid,
    )

unchanged :
    (bytes wkb : List ℕ) (little : Bool) → remove_srid bytes little ≡ ok (wkb, none) → wkb ≡ bytes
unfolding remove_srid
unchanged bytes wkb little e = ground arith

-- Without the SRID flag `strip_srid` returns its input.
strip_srid-none : (bytes wkb : List ℕ) → strip_srid bytes ≡ ok (wkb, none) → wkb ≡ bytes
strip_srid-none bytes wkb e =
    let (long, (little, known, removed)) = strip_srid-inv bytes (wkb, none) e in
    unchanged bytes wkb little removed

order_of-order :
    (little : Bool) → order_of (if little then byte_order_le else byte_order_be) ≡ ok little
unfolding order_of
order_of-order true = refl
order_of-order false = refl

layout-SridAdded :
    (little : Bool) (g : Geom) (srid : ℕ)
    → (ewkb : List ℕ) × SridAdded (layout little g) srid ewkb × (length ewkb ≡ estimate_size g + 4)
unfolding header_bytes
layout-SridAdded little g srid =
    let (ty, body, small, e) = layout-header little g in
    let order : ℕ = if little then byte_order_le else byte_order_be in
    let tail : List ℕ = to_bytes little 4 srid ++ body in
    (
      frame order little (ty + 2 ^ 29) tail,
      (order, little, ty, body, order_of-order little, omega arith, e, refl),
      omega (
        arith,
        length-frame order little (ty + 2 ^ 29) tail,
        length-append (to_bytes little 4 srid) body,
        length-to_bytes little 4 srid,
        length-layout little g,
        ap length e,
        length-frame order little ty body,
      ),
    )

-- A representable geometry in WKB of either byte order takes any SRID, and comes back with it.
pub decode-encode_with_srid :
    (little : Bool) (g : Geom) (srid : ℕ)
    → IsGeom g
    → estimate_size g < 2 ^ 64
    → srid < 2 ^ 32
    → (ewkb : List ℕ) × (encode_with_srid (layout little g) srid ≡ ok ewkb)
      × (length ewkb ≡ estimate_size g + 4)
      × (decode ewkb ≡ ok (g, some srid))
unfolding decode
decode-encode_with_srid little g srid h size small =
    let (ewkb, added, len) = layout-SridAdded little g srid in
    (
      ewkb,
      SridAdded→encode_with_srid (layout little g) ewkb srid added,
      len,
      rw (
        SridAdded→strip_srid (layout little g) ewkb srid small added,
        decode-layout little g h size,
      ),
    )
