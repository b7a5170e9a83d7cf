-- ===== src/Geom/GpkgBlob/Runs.antt =====
-- Concrete runs of the GeoPackage blob codec, and its theorems at concrete blobs.
use shpx.Prelude.{ℕ, ◌≡◌, refl, arith, List, [], ◌∷◌, true, false, ok, err, Ensures, length}
use shpx.Geom.Types.{too_short, bad_envelope}
use shpx.Geom.GpkgBlob.{
  no_envelope, xy, standard_type, extended_type, GpkgBlobHeader, standard, encode, decode,
}
use shpx.Geom.GpkgBlob.RoundTrip.{decode-encode_header}
use shpx.Geom.GpkgBlob.Sound.{Behind, decode-Behind, encode-decode_header}

abbrev boxed : GpkgBlobHeader
boxed = record {
  srs_id = 3857;
  envelope = xy (1 ∷ 2 ∷ 3 ∷ 4 ∷ []);
  empty = true;
  binary_type = extended_type;
}

abbrev plain_header : GpkgBlobHeader
plain_header = record {
  srs_id = 4326;
  envelope = no_envelope;
  empty = false;
  binary_type = standard_type;
}

abbrev plain_blob : List ℕ
plain_blob = 0x47 ∷ 0x50 ∷ 0 ∷ 1 ∷ 0xe6 ∷ 0x10 ∷ 0 ∷ 0 ∷ 9 ∷ 9 ∷ []

encode-standard : encode (standard 4326) (9 ∷ 9 ∷ []) ≡ plain_blob
unfolding encode standard
encode-standard = refl

decode_plain : decode plain_blob ≡ ok (plain_header, 9 ∷ 9 ∷ [])
unfolding decode
decode_plain = refl

decode_short : decode (0x47 ∷ 0x50 ∷ []) ≡ err (too_short 2)
unfolding decode
decode_short = refl

decode_envelope_5 : decode (0x47 ∷ 0x50 ∷ 0 ∷ 0b1011 ∷ 0 ∷ 0 ∷ 0 ∷ 0 ∷ []) ≡ err (bad_envelope 5)
unfolding decode
decode_envelope_5 = refl

decode-encode_header_example : decode (encode boxed (9 ∷ [])) ≡ ok (boxed, 9 ∷ [])
decode-encode_header_example = decode-encode_header boxed (9 ∷ []) (omega arith)

decode-Behind_example : Ensures (Behind plain_blob) (λ _. Unit {0}) (decode plain_blob)
decode-Behind_example = decode-Behind plain_blob (omega arith)

encode-decode_header_example :
    (length (encode plain_header (9 ∷ 9 ∷ [])) ≡ length plain_blob)
    × (decode (encode plain_header (9 ∷ 9 ∷ [])) ≡ ok (plain_header, 9 ∷ 9 ∷ []))
encode-decode_header_example =
    encode-decode_header plain_blob plain_header (9 ∷ 9 ∷ []) (omega arith) decode_plain
