-- ===== src/Geom/GpkgBlob/Format.antt =====
-- The blob as a format, in either byte order of its header, and that `encode` writes it.
use shpx.Prelude.{
  ℕ, ◌+◌, ◌*◌, ◌≡◌, refl, sym, ◌∙◌, arith, List, [], ◌∷◌, ◌++◌, append_assoc, append-nil, Bool,
  true, false, if◌then◌else◌, length, length-append,
}
use shpx.Geom.Types.{F64}
use shpx.Geom.Bytes.{to_bytes, to_le_bytes, length-to_bytes}
use shpx.Geom.Wkb.Layout.{concat_map}
use shpx.Geom.GpkgBlob.{
  Envelope, no_envelope, xy, xyz, xym, xyzm, BinaryType, standard_type, extended_type,
  GpkgBlobHeader, type_code, byte_len, as_slice, write_f64s, write_envelope_le, build_flags, encode,
  magic_0, magic_1, version, IsEnvelope, flags_little, flags_env_type, flags_empty,
  flags_binary_type,
}

-- The envelope type in bits 1 to 3, the two flags in bits 4 and 5.
abbrev extended_bit : BinaryType → ℕ
extended_bit standard_type = 0
extended_bit extended_type = 32

unfoldable pub flag_bits : Bool → GpkgBlobHeader → ℕ
unfolding type_code
flag_bits little h =
    (if little then 1 else 0)
    + 2 * type_code h.envelope
    + (if h.empty then 16 else 0)
    + extended_bit h.binary_type

unfoldable pub envelope_bytes : Bool → Envelope → List ℕ
unfolding as_slice
envelope_bytes little e = concat_map (to_bytes little 8) (as_slice e)

unfoldable pub blob_layout : Bool → GpkgBlobHeader → List ℕ → List ℕ
blob_layout little h wkb =
    magic_0
    ∷ magic_1
    ∷ version
    ∷ flag_bits little h
    ∷ (to_bytes little 4 h.srs_id ++ (envelope_bytes little h.envelope ++ wkb))

abbrev pub header_of : ℕ → Bool → BinaryType → Envelope → GpkgBlobHeader
header_of s empty b e = record { srs_id = s; envelope = e; empty = empty; binary_type = b }

flags_table :
    (s : ℕ) (empty : Bool) (b : BinaryType) (e : Envelope)
    → build_flags (header_of s empty b e) ≡ flag_bits true (header_of s empty b e)
unfolding build_flags flag_bits
flags_table s true standard_type = elim [ no_envelope ↦ refl | _ ↦ refl ]
flags_table s true extended_type = elim [ no_envelope ↦ refl | _ ↦ refl ]
flags_table s false standard_type = elim [ no_envelope ↦ refl | _ ↦ refl ]
flags_table s false extended_type = elim [ no_envelope ↦ refl | _ ↦ refl ]

abbrev pub TakenApart : Bool → ℕ → Bool → BinaryType → Envelope → Type 0
TakenApart little s empty b e =
    let f = flag_bits little (header_of s empty b e) in
    (flags_little f ≡ little)
    × (flags_env_type f ≡ type_code e)
    × (flags_empty f ≡ empty)
    × (flags_binary_type f ≡ b)

-- Taking the flags byte apart gives back the fields, in each of the 40 combinations.
pub flag_bits-fields :
    (little : Bool) (s : ℕ) (empty : Bool) (b : BinaryType) (e : Envelope)
    → TakenApart little s empty b e
unfolding flag_bits flags_little flags_env_type flags_empty flags_binary_type
flag_bits-fields true s true standard_type = elim [
  | no_envelope ↦ (refl, refl, refl, refl)
  | _ ↦ (refl, refl, refl, refl)
]
flag_bits-fields true s true extended_type = elim [
  | no_envelope ↦ (refl, refl, refl, refl)
  | _ ↦ (refl, refl, refl, refl)
]
flag_bits-fields true s false standard_type = elim [
  | no_envelope ↦ (refl, refl, refl, refl)
  | _ ↦ (refl, refl, refl, refl)
]
flag_bits-fields true s false extended_type = elim [
  | no_envelope ↦ (refl, refl, refl, refl)
  | _ ↦ (refl, refl, refl, refl)
]
flag_bits-fields false s true standard_type = elim [
  | no_envelope ↦ (refl, refl, refl, refl)
  | _ ↦ (refl, refl, refl, refl)
]
flag_bits-fields false s true extended_type = elim [
  | no_envelope ↦ (refl, refl, refl, refl)
  | _ ↦ (refl, refl, refl, refl)
]
flag_bits-fields false s false standard_type = elim [
  | no_envelope ↦ (refl, refl, refl, refl)
  | _ ↦ (refl, refl, refl, refl)
]
flag_bits-fields false s false extended_type = elim [
  | no_envelope ↦ (refl, refl, refl, refl)
  | _ ↦ (refl, refl, refl, refl)
]

write_f64s-bytes :
    (vs : List F64) (buf : List ℕ) → write_f64s vs buf ≡ buf ++ concat_map (to_bytes true 8) vs
unfolding write_f64s to_bytes
write_f64s-bytes [] buf = sym (append-nil buf)
write_f64s-bytes (v ∷ vs) buf = write_f64s-bytes vs (buf ++ to_le_bytes 8 v) ∙ simp append_assoc

-- `encode` writes the little-endian format.
pub encode-blob_layout : (h : GpkgBlobHeader) (wkb : List ℕ) → encode h wkb ≡ blob_layout true h wkb
unfolding encode blob_layout write_envelope_le envelope_bytes
encode-blob_layout h wkb =
    rw (flags_table h.srs_id h.empty h.binary_type h.envelope, write_f64s-bytes)
      (unfold to_bytes in simp append_assoc)

pub length-f64s :
    (little : Bool) (vs : List F64) → length (concat_map (to_bytes little 8) vs) ≡ length vs * 8
length-f64s little [] = omega arith
length-f64s little (v ∷ vs) = omega (
  arith,
  length-append (to_bytes little 8 v) (concat_map (to_bytes little 8) vs),
  length-to_bytes little 8 v,
  length-f64s little vs,
)

pub length-envelope_bytes :
    (little : Bool) (e : Envelope) → IsEnvelope e → length (envelope_bytes little e) ≡ byte_len e
unfolding envelope_bytes byte_len
length-envelope_bytes little no_envelope h = refl
length-envelope_bytes little (xy a) (n, _) = omega (arith, length-f64s little a)
length-envelope_bytes little (xyz a) (n, _) = omega (arith, length-f64s little a)
length-envelope_bytes little (xym a) (n, _) = omega (arith, length-f64s little a)
length-envelope_bytes little (xyzm a) (n, _) = omega (arith, length-f64s little a)

pub length-blob_layout :
    (little : Bool) (h : GpkgBlobHeader) (wkb : List ℕ)
    → IsEnvelope h.envelope
    → length (blob_layout little h wkb) ≡ 8 + byte_len h.envelope + length wkb
unfolding blob_layout
length-blob_layout little h wkb v = omega (
  arith,
  length-append (to_bytes little 4 h.srs_id) (envelope_bytes little h.envelope ++ wkb),
  length-to_bytes little 4 h.srs_id,
  length-append (envelope_bytes little h.envelope) wkb,
  length-envelope_bytes little h.envelope v,
)
