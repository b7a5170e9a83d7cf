-- ===== src/Geom/GpkgBlob.antt =====
-- crates/shpx-geom/src/gpkg_blob.rs: the GeoPackage header before a WKB payload.
-- An array `[f64; n]` is a list, whose length stands in `IsHeader`; an i32 is its 32-bit pattern.
pub mod Format
pub mod RoundTrip
pub mod Sound
mod Runs
use Prim.Native.Nat.{bit_and, bit_or}
use shpx.Prelude.{
  ℕ, zero, suc, ◌+◌, ◌*◌, ◌/◌, ◌%◌, ◌^◌, ◌<◌, ◌≡◌, List, [], ◌∷◌, ◌++◌, Result, ok, err, Bool, true,
  false, not, ltb, ◌==◌, ◌&&◌, ◌||◌, if◌then◌else◌, length, take, drop, All,
}
use shpx.Prelude.Outcome.{◌>>=◌}
use shpx.Geom.Types.{
  F64, IsF64, Fault, too_short, bad_magic, bad_version, bad_envelope, envelope_truncated,
}
use shpx.Geom.Bytes.{to_le_bytes, from_bytes}

-- MAGIC
abbrev pub magic_0 : ℕ
magic_0 = 0x47

abbrev pub magic_1 : ℕ
magic_1 = 0x50

abbrev pub version : ℕ
version = 0

abbrev flag_endian_le : ℕ
flag_endian_le = 0b0000_0001

abbrev flag_empty : ℕ
flag_empty = 0b0001_0000

abbrev flag_binary_extended : ℕ
flag_binary_extended = 0b0010_0000

abbrev flag_envelope_mask : ℕ
flag_envelope_mask = 0b0000_1110

pub data Envelope : Type 0 where
  no_envelope : Envelope
  xy : List F64 → Envelope
  xyz : List F64 → Envelope
  xym : List F64 → Envelope
  xyzm : List F64 → Envelope

pub data BinaryType : Type 0 where
  standard_type extended_type : BinaryType

pub record GpkgBlobHeader : Type 0 where
  pub srs_id : ℕ
  pub envelope : Envelope
  pub empty : Bool
  pub binary_type : BinaryType

unfoldable pub standard : ℕ → GpkgBlobHeader
standard srs_id = record {
  srs_id = srs_id;
  envelope = no_envelope;
  empty = false;
  binary_type = standard_type;
}

unfoldable pub type_code : Envelope → ℕ
type_code no_envelope = 0
type_code (xy _) = 1
type_code (xyz _) = 2
type_code (xym _) = 3
type_code (xyzm _) = 4

unfoldable pub envelope_byte_len : ℕ → ℕ
envelope_byte_len env_type =
    if env_type == 1
    then 32
    else if env_type == 2 || env_type == 3
    then 48
    else if env_type == 4
    then 64
    else 0

unfoldable pub byte_len : Envelope → ℕ
unfolding type_code envelope_byte_len
byte_len e = envelope_byte_len (type_code e)

unfoldable pub as_slice : Envelope → List F64
as_slice no_envelope = []
as_slice (xy a) = a
as_slice (xyz a) = a
as_slice (xym a) = a
as_slice (xyzm a) = a

-- `for v in slice { buf.extend_from_slice(&v.to_le_bytes()) }`
unfoldable pub write_f64s : List F64 → List ℕ → List ℕ
write_f64s [] buf = buf
write_f64s (v ∷ vs) buf = write_f64s vs (buf ++ to_le_bytes 8 v)

unfoldable pub write_envelope_le : Envelope → List ℕ → List ℕ
unfolding as_slice write_f64s
write_envelope_le env buf = write_f64s (as_slice env) buf

is_extended : BinaryType → Bool
is_extended standard_type = false
is_extended extended_type = true

-- A u8, so the shift drops what passes 8 bits.
unfoldable pub build_flags : GpkgBlobHeader → ℕ
unfolding type_code is_extended
build_flags header =
    let f =
      bit_or flag_endian_le (bit_and (type_code header.envelope * 2 % 256) flag_envelope_mask) in
    let f = if header.empty then bit_or f flag_empty else f in
    if is_extended header.binary_type then bit_or f flag_binary_extended else f

unfoldable pub encode : GpkgBlobHeader → List ℕ → List ℕ
unfolding build_flags write_envelope_le to_le_bytes
encode header wkb =
    let buf = magic_0 ∷ magic_1 ∷ version ∷ build_flags header ∷ [] in
    let buf = buf ++ to_le_bytes 4 header.srs_id in write_envelope_le header.envelope buf ++ wkb

-- `blob[i]`, where the length was checked.
abbrev pub byte_at : List ℕ → ℕ → ℕ
byte_at [] i = 0
byte_at (b ∷ bs) zero = b
byte_at (b ∷ bs) (suc i) = byte_at bs i

-- Round `i` of the loop reads the eight bytes from `8 * i` on; `n` rounds are left.
unfoldable pub read_f64s : List ℕ → Bool → ℕ → ℕ → List F64
unfolding from_bytes
read_f64s slice little zero i = []
read_f64s slice little (suc n) i =
    from_bytes little (take 8 (drop (i * 8) slice)) ∷ read_f64s slice little n (i + 1)

unfoldable pub read_f64_array : List ℕ → ℕ → Bool → Result Fault (List F64)
unfolding read_f64s
read_f64_array slice n little =
    if ltb (length slice) (n * 8)
    then err (envelope_truncated (n * 8) (length slice))
    else ok (read_f64s slice little n 0)

-- The type was checked to be at most 4; the source has `unreachable!` beyond.
unfoldable pub read_envelope : List ℕ → ℕ → Bool → Result Fault Envelope
unfolding read_f64_array
read_envelope slice env_type little =
    if env_type == 0
    then ok no_envelope
    else if env_type == 1
    then (read_f64_array slice 4 little >>= λ a. ok (xy a))
    else if env_type == 2
    then (read_f64_array slice 6 little >>= λ a. ok (xyz a))
    else if env_type == 3
    then (read_f64_array slice 6 little >>= λ a. ok (xym a))
    else (read_f64_array slice 8 little >>= λ a. ok (xyzm a))

-- The flags byte, taken apart.
unfoldable pub flags_little : ℕ → Bool
flags_little flags = not (bit_and flags flag_endian_le == 0)

unfoldable pub flags_env_type : ℕ → ℕ
flags_env_type flags = bit_and flags flag_envelope_mask / 2

unfoldable pub flags_empty : ℕ → Bool
flags_empty flags = not (bit_and flags flag_empty == 0)

unfoldable pub flags_binary_type : ℕ → BinaryType
flags_binary_type flags =
    if not (bit_and flags flag_binary_extended == 0) then extended_type else standard_type

-- `decode` from the srs_id on.
unfoldable pub decode_body : List ℕ → ℕ → Result Fault (GpkgBlobHeader × List ℕ)
unfolding from_bytes envelope_byte_len read_envelope flags_little flags_env_type flags_empty
    flags_binary_type
decode_body blob flags =
    let little = flags_little flags in
    let env_type = flags_env_type flags in
    let header_end = 8 + envelope_byte_len env_type in
    if ltb 4 env_type
    then err (bad_envelope env_type)
    else if ltb (length blob) header_end
    then err (envelope_truncated header_end (length blob))
    else (read_envelope (take (envelope_byte_len env_type) (drop 8 blob)) env_type little
        >>= λ envelope. ok (
          record {
            srs_id = from_bytes little (take 4 (drop 4 blob));
            envelope = envelope;
            empty = flags_empty flags;
            binary_type = flags_binary_type flags;
          },
          drop header_end blob,
        ))

unfoldable pub decode : List ℕ → Result Fault (GpkgBlobHeader × List ℕ)
unfolding decode_body
decode blob =
    if ltb (length blob) 8
    then err (too_short (length blob))
    else if not (byte_at blob 0 == magic_0 && byte_at blob 1 == magic_1)
    then err (bad_magic (byte_at blob 0) (byte_at blob 1))
    else if not (byte_at blob 2 == version)
    then err (bad_version (byte_at blob 2))
    else decode_body blob (byte_at blob 3)

-- An array of the length that its type gives it.
abbrev pub IsArray : ℕ → List F64 → Type 0
IsArray n a = (length a ≡ n) × All IsF64 a

abbrev pub IsEnvelope : Envelope → Type 0
IsEnvelope no_envelope = Unit {0}
IsEnvelope (xy a) = IsArray 4 a
IsEnvelope (xyz a) = IsArray 6 a
IsEnvelope (xym a) = IsArray 6 a
IsEnvelope (xyzm a) = IsArray 8 a

abbrev pub IsHeader : GpkgBlobHeader → Type 0
IsHeader h = (h.srs_id < 2 ^ 32) × IsEnvelope h.envelope
