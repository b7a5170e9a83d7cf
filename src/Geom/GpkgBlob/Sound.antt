-- ===== src/Geom/GpkgBlob/Sound.antt =====
-- Whatever `decode` accepts is a header with arrays of the right lengths, and the bytes behind it.
use shpx.Prelude.{
  ℕ, zero, suc, ◌+◌, ◌*◌, ◌^◌, ◌≤◌, ◌<◌, ◌≡◌, refl, ◌∙◌, ap, subst, arith, List, Bool, true, ok,
  not, ◌==◌, ◌&&◌, ltb, length, All, take, drop, All-take, All-drop, length-take, length-drop,
  Ensures, holds, fails, Ensures-ok, Ensures-bind, Ensures-if,
}
use shpx.Prelude.Outcome.{◌>>=◌}
use shpx.Geom.Types.{F64, IsF64}
use shpx.Geom.Bytes.{IsByte, from_bytes, from_bytes-lt}
use shpx.Geom.GpkgBlob.{
  Envelope, xy, xyz, xym, xyzm, GpkgBlobHeader, type_code, envelope_byte_len, byte_len, byte_at,
  encode, decode, decode_body, read_f64s, read_f64_array, read_envelope, IsEnvelope, IsHeader,
  IsArray, flags_little, flags_env_type,
}
use shpx.Geom.GpkgBlob.Format.{encode-blob_layout, length-blob_layout}
use shpx.Geom.GpkgBlob.RoundTrip.{decode-encode_header}

-- A number read from at most eight bytes is an f64.
window-IsF64 :
    (little : Bool) (slice : List ℕ) (i : ℕ)
    → All IsByte slice
    → i + 8 ≤ length slice
    → IsF64 (from_bytes little (take 8 (drop i slice)))
window-IsF64 little slice i all h =
    subst (λ k. from_bytes little (take 8 (drop i slice)) < 256 ^ k)
      (length-take 8 (drop i slice) (omega (arith, length-drop i slice)))
      (from_bytes-lt little (take 8 (drop i slice))
        (All-take IsByte 8 _ (All-drop IsByte i slice all)))

read_f64s-IsArray :
    (slice : List ℕ) (little : Bool) (n i : ℕ)
    → All IsByte slice
    → (i + n) * 8 ≤ length slice
    → IsArray n (read_f64s slice little n i)
unfolding read_f64s
read_f64s-IsArray slice little zero i all h = (refl, tt)
read_f64s-IsArray slice little (suc n) i all h =
    let (len, rest) = read_f64s-IsArray slice little n (i + 1) all (omega arith) in
    (omega arith, (window-IsF64 little slice (i * 8) all (omega arith), rest))

read_f64_array-Ensures :
    (slice : List ℕ) (n : ℕ) (little : Bool)
    → All IsByte slice
    → Ensures (IsArray n) (λ _. Unit {0}) (read_f64_array slice n little)
unfolding read_f64_array
read_f64_array-Ensures slice n little all =
    Ensures-if _ _ (ltb (length slice) (n * 8)) _ _ (λ _. fails tt)
      (λ e. holds (read_f64s-IsArray slice little n 0 all (ground arith)))

-- The envelope read has the type asked for.
read_envelope-Ensures :
    (slice : List ℕ) (t : ℕ) (little : Bool)
    → All IsByte slice
    → t ≤ 4
    → Ensures (λ e. IsEnvelope e × (type_code e ≡ t)) (λ _. Unit {0}) (read_envelope slice t little)
unfolding read_envelope type_code
read_envelope-Ensures slice t little all h =
    Ensures-if _ _ (t == 0) _ _ (λ e. holds (tt, ground arith))
      (λ n0.
        Ensures-if _ _ (t == 1) _ _ (λ e. array 4 xy (λ a v. (v, ground arith)))
          (λ n1.
            Ensures-if _ _ (t == 2) _ _ (λ e. array 6 xyz (λ a v. (v, ground arith)))
              (λ n2.
                Ensures-if _ _ (t == 3) _ _ (λ e. array 6 xym (λ a v. (v, ground arith)))
                  (λ n3. array 8 xyzm (λ a v. (v, ground arith))))))
  where
    array :
        (n : ℕ) (make : List F64 → Envelope)
        → ((a : List F64) → IsArray n a → IsEnvelope (make a) × (type_code (make a) ≡ t))
        → Ensures
            (λ e. IsEnvelope e × (type_code e ≡ t))
            (λ _. Unit {0})
            (read_f64_array slice n little >>= λ a. ok (make a))
    array n make k =
        Ensures-bind (read_f64_array-Ensures slice n little all) (λ a v. holds (k a v)) (λ _ u. u)

-- What a decoded header and payload have to do with the blob.
abbrev pub Behind : List ℕ → GpkgBlobHeader × List ℕ → Type 0
Behind blob (h, wkb) =
    IsHeader h
    × (8 + byte_len h.envelope ≤ length blob)
    × (wkb ≡ drop (8 + byte_len h.envelope) blob)

body-Behind :
    (blob : List ℕ) (flags : ℕ)
    → All IsByte blob
    → 8 ≤ length blob
    → Ensures (Behind blob) (λ _. Unit {0}) (decode_body blob flags)
unfolding decode_body byte_len
body-Behind blob flags all long =
    let t = flags_env_type flags in
    let n = envelope_byte_len t in
    Ensures-if _ _ (ltb 4 t) _ _ (λ _. fails tt)
      (λ small.
        Ensures-if _ _ (ltb (length blob) (8 + n)) _ _ (λ _. fails tt)
          (λ room.
            Ensures-bind
              (read_envelope-Ensures (take n (drop 8 blob)) t (flags_little flags)
                (All-take IsByte n _ (All-drop IsByte 8 blob all)) (ground arith))
              (λ e (v, code).
                holds ((srs (flags_little flags), v), rw code (ground arith), rw code refl))
              (λ _ u. u)))
  where
    srs : (little : Bool) → from_bytes little (take 4 (drop 4 blob)) < 2 ^ 32
    srs little =
        subst (λ k. from_bytes little (take 4 (drop 4 blob)) < 256 ^ k)
          (length-take 4 (drop 4 blob) (omega (arith, length-drop 4 blob)))
          (from_bytes-lt little _ (All-take IsByte 4 _ (All-drop IsByte 4 blob all)))

-- On any bytes `decode` fails, or yields a header of arrays of the right lengths and, as payload,
-- the bytes behind the header and its envelope.
pub decode-Behind :
    (blob : List ℕ) → All IsByte blob → Ensures (Behind blob) (λ _. Unit {0}) (decode blob)
unfolding decode
decode-Behind blob all =
    Ensures-if _ _ (ltb (length blob) 8) _ _ (λ _. fails tt)
      (λ long.
        Ensures-if _ _ (not (byte_at blob 0 == 0x47 && byte_at blob 1 == 0x50)) _ _ (λ _. fails tt)
          (λ _.
            Ensures-if _ _ (not (byte_at blob 2 == 0)) _ _ (λ _. fails tt)
              (λ _. body-Behind blob (byte_at blob 3) all (ground arith))))

-- A decoded blob written again has the same length, and decodes to the same header and payload.
pub encode-decode_header :
    (blob : List ℕ) (h : GpkgBlobHeader) (wkb : List ℕ)
    → All IsByte blob
    → decode blob ≡ ok (h, wkb)
    → (length (encode h wkb) ≡ length blob) × (decode (encode h wkb) ≡ ok (h, wkb))
encode-decode_header blob h wkb all e =
    let (v, room, back) = Ensures-ok (decode-Behind blob all) e in
    (
      ap length (encode-blob_layout h wkb)
          ∙ omega (
            arith,
            length-blob_layout true h wkb v.1,
            ap length back,
            length-drop (8 + byte_len h.envelope) blob,
          ),
      decode-encode_header h wkb v,
    )
