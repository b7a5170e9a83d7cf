-- ===== src/Geom/Ewkb.antt =====
-- crates/shpx-geom/src/ewkb.rs: WKB with a SRID behind the type word, as PostGIS stores it.
-- An i32 is its 32-bit pattern, as an f64 is its 64-bit one.
pub mod Flags
pub mod Frame
pub mod RoundTrip
mod Runs
use Prim.Native.Nat.{bit_and, bit_or}
use shpx.Prelude.{
  ℕ, ◌+◌, ◌*◌, ◌-◌, List, [], ◌∷◌, ◌++◌, Option, none, some, Result, ok, err, Bool, true, false,
  not, ltb, ◌==◌, if◌then◌else◌, length, take, drop,
}
use shpx.Prelude.Outcome.{◌>>=◌}
use shpx.Geom.Types.{
  Geom, Fault, too_short, bad_byte_order, already_srid, zm_unsupported, srid_truncated,
}
use shpx.Geom.Bytes.{to_bytes, from_bytes}
use shpx.Geom.Wkb.Encode.{byte_order_le, byte_order_be}
use shpx.Geom.Wkb.Decode

abbrev pub srid_flag : ℕ
srid_flag = 0x2000_0000

abbrev pub z_flag : ℕ
z_flag = 0x8000_0000

abbrev pub m_flag : ℕ
m_flag = 0x4000_0000

-- `!SRID_FLAG`
abbrev pub not_srid_flag : ℕ
not_srid_flag = 0xdfff_ffff

abbrev pub first : List ℕ → ℕ
first [] = 0
first (b ∷ bs) = b

-- `match order { BYTE_ORDER_LE => true, BYTE_ORDER_BE => false, other => return Err(..) }`
unfoldable pub order_of : ℕ → Result Fault Bool
order_of order =
    if order == byte_order_le
    then ok true
    else if order == byte_order_be
    then ok false
    else err (bad_byte_order order)

unfoldable pub read_type : List ℕ → Bool → ℕ
read_type bytes little = from_bytes little (take 4 (drop 1 bytes))

-- `encode_with_srid` once the byte order is known.
unfoldable pub insert_srid : List ℕ → ℕ → Bool → Result Fault (List ℕ)
unfolding read_type
insert_srid wkb_bytes srid little =
    let ty = read_type wkb_bytes little in
    if not (bit_and ty srid_flag == 0)
    then err already_srid
    else if not (bit_and ty (bit_or z_flag m_flag) == 0)
    then err zm_unsupported
    else ok (
        first wkb_bytes
        ∷ (to_bytes little 4 (bit_or ty srid_flag) ++ (to_bytes little 4 srid ++ drop 5 wkb_bytes)))

unfoldable pub encode_with_srid : List ℕ → ℕ → Result Fault (List ℕ)
unfolding order_of insert_srid
encode_with_srid wkb_bytes srid =
    if ltb (length wkb_bytes) 5
    then err (too_short (length wkb_bytes))
    else (order_of (first wkb_bytes) >>= insert_srid wkb_bytes srid)

-- `strip_srid` once the byte order is known.
unfoldable pub remove_srid : List ℕ → Bool → Result Fault (List ℕ × Option ℕ)
unfolding read_type
remove_srid ewkb little =
    let ty = read_type ewkb little in
    if not (bit_and ty (bit_or z_flag m_flag) == 0)
    then err zm_unsupported
    else if bit_and ty srid_flag == 0
    then ok (ewkb, none)
    else if ltb (length ewkb) 9
    then err srid_truncated
    else let base_ty = bit_and ty not_srid_flag in
      let srid = from_bytes little (take 4 (drop 5 ewkb)) in
      ok (first ewkb ∷ (to_bytes little 4 base_ty ++ drop 9 ewkb), some srid)

unfoldable pub strip_srid : List ℕ → Result Fault (List ℕ × Option ℕ)
unfolding order_of remove_srid
strip_srid ewkb =
    if ltb (length ewkb) 5
    then err (too_short (length ewkb))
    else (order_of (first ewkb) >>= remove_srid ewkb)

unfoldable pub decode : List ℕ → Result Fault (Geom × Option ℕ)
unfolding strip_srid Decode.decode
decode ewkb = do (wkb_bytes, srid) ← strip_srid ewkb; g ← Decode.decode wkb_bytes; ok (g, srid)
