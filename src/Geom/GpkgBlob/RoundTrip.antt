-- ===== src/Geom/GpkgBlob/RoundTrip.antt =====
-- `decode` reads the format in either byte order, and so what `encode` wrote.
use shpx.Prelude.{
  ℕ, ◌+◌, ◌*◌, ◌≡◌, refl, sym, ◌∙◌, ap, arith, List, [], ◌∷◌, ◌++◌, append_assoc, append-nil, Bool,
  true, false, ok, ltb, length, All, take, drop, take-append, drop-append, drop-drop,
}
use shpx.Geom.Types.{F64, IsF64}
use shpx.Geom.Bytes.{to_bytes, from_bytes, length-to_bytes, from_bytes-to_bytes}
use shpx.Geom.Wkb.Layout.{concat_map}
use shpx.Geom.GpkgBlob.{
  Envelope, no_envelope, xy, xyz, xym, xyzm, GpkgBlobHeader, type_code, envelope_byte_len, byte_len,
  encode, decode, decode_body, read_f64s, read_f64_array, read_envelope, IsEnvelope, IsHeader,
}
use shpx.Geom.GpkgBlob.Format.{
  blob_layout, flag_bits, flag_bits-fields, envelope_bytes, encode-blob_layout,
  length-envelope_bytes, length-f64s, length-blob_layout,
}

-- A cut at the length of the first part.
take_at : (n : ℕ) (xs ys : List ℕ) → length xs ≡ n → take n (xs ++ ys) ≡ xs
take_at n xs ys e = ap (λ k. take k (xs ++ ys)) (sym e) ∙ take-append xs ys

drop_at : (n : ℕ) (xs ys : List ℕ) → length xs ≡ n → drop n (xs ++ ys) ≡ ys
drop_at n xs ys e = ap (λ k. drop k (xs ++ ys)) (sym e) ∙ drop-append xs ys

-- From round `i` on the loop reads the numbers that stand there.
read_f64s-f64s :
    (little : Bool) (vs : List F64) (slice rest : List ℕ) (i : ℕ)
    → All IsF64 vs
    → drop (i * 8) slice ≡ concat_map (to_bytes little 8) vs ++ rest
    → read_f64s slice little (length vs) i ≡ vs
unfolding read_f64s
read_f64s-f64s little [] slice rest i h e = refl
read_f64s-f64s little (v ∷ vs) slice rest i (hv, hvs) e =
    let head : List ℕ = to_bytes little 8 v in
    let more : List ℕ = concat_map (to_bytes little 8) vs ++ rest in
    let here : drop (i * 8) slice ≡ head ++ more =
      e ∙ append_assoc head (concat_map (to_bytes little 8) vs) rest in
    let number : from_bytes little (take 8 (drop (i * 8) slice)) ≡ v =
      ap (λ t. from_bytes little (take 8 t)) here
      ∙ ap (from_bytes little) (take_at 8 head more (length-to_bytes little 8 v))
      ∙ from_bytes-to_bytes little 8 v hv in
    let next : drop ((i + 1) * 8) slice ≡ more =
      ap (λ k. drop k slice) (omega arith)
      ∙ sym (drop-drop 8 (i * 8) slice)
      ∙ ap (drop 8) here
      ∙ drop_at 8 head more (length-to_bytes little 8 v) in
    rw (number, read_f64s-f64s little vs slice rest (i + 1) hvs next)

read_f64_array-f64s :
    (little : Bool) (n : ℕ) (vs : List F64)
    → length vs ≡ n
    → All IsF64 vs
    → read_f64_array (concat_map (to_bytes little 8) vs) n little ≡ ok vs
unfolding read_f64_array
read_f64_array-f64s little n vs e h =
    let bytes : List ℕ = concat_map (to_bytes little 8) vs in
    let enough : ltb (length bytes) (n * 8) ≡ false = ground (arith, length-f64s little vs) in
    rw enough (rw (← e) (ap ok (read_f64s-f64s little vs bytes [] 0 h (sym (append-nil bytes)))))

read_envelope-envelope_bytes :
    (little : Bool) (e : Envelope)
    → IsEnvelope e
    → read_envelope (envelope_bytes little e) (type_code e) little ≡ ok e
unfolding read_envelope envelope_bytes type_code
read_envelope-envelope_bytes little no_envelope h = refl
read_envelope-envelope_bytes little (xy a) (n, all) = rw (read_f64_array-f64s little 4 a n all)
read_envelope-envelope_bytes little (xyz a) (n, all) = rw (read_f64_array-f64s little 6 a n all)
read_envelope-envelope_bytes little (xym a) (n, all) = rw (read_f64_array-f64s little 6 a n all)
read_envelope-envelope_bytes little (xyzm a) (n, all) = rw (read_f64_array-f64s little 8 a n all)

type_code-le : (e : Envelope) → ltb 4 (type_code e) ≡ false
unfolding type_code
type_code-le no_envelope = refl
type_code-le _ = refl

module _ (little : Bool) (h : GpkgBlobHeader) (wkb : List ℕ) (v : IsHeader h) where
  srs : List ℕ
  srs = to_bytes little 4 h.srs_id

  env : List ℕ
  env = envelope_bytes little h.envelope

  after_flags : drop 8 (blob_layout little h wkb) ≡ env ++ wkb
  unfolding blob_layout env
  after_flags = drop_at 4 (to_bytes little 4 h.srs_id) _ (length-to_bytes little 4 h.srs_id)

  srs_field : from_bytes little (take 4 (drop 4 (blob_layout little h wkb))) ≡ h.srs_id
  unfolding blob_layout
  srs_field =
      ap (from_bytes little)
        (take_at 4 (to_bytes little 4 h.srs_id) _ (length-to_bytes little 4 h.srs_id))
      ∙ from_bytes-to_bytes little 4 h.srs_id v.0

  length-env : length env ≡ envelope_byte_len (type_code h.envelope)
  unfolding env byte_len
  length-env = length-envelope_bytes little h.envelope v.1

  env_field :
      take (envelope_byte_len (type_code h.envelope)) (drop 8 (blob_layout little h wkb)) ≡ env
  env_field =
      ap (take (envelope_byte_len (type_code h.envelope))) after_flags
      ∙ take_at (envelope_byte_len (type_code h.envelope)) env wkb length-env

  payload : drop (8 + envelope_byte_len (type_code h.envelope)) (blob_layout little h wkb) ≡ wkb
  payload =
      sym (drop-drop (envelope_byte_len (type_code h.envelope)) 8 (blob_layout little h wkb))
      ∙ ap (drop (envelope_byte_len (type_code h.envelope))) after_flags
      ∙ drop_at (envelope_byte_len (type_code h.envelope)) env wkb length-env

  room :
      ltb (length (blob_layout little h wkb)) (8 + envelope_byte_len (type_code h.envelope)) ≡ false
  unfolding byte_len
  room = ground (arith, length-blob_layout little h wkb v.1)

  body : decode_body (blob_layout little h wkb) (flag_bits little h) ≡ ok (h, wkb)
  unfolding decode_body env
  body =
      let (l, t, m, b) = flag_bits-fields little h.srs_id h.empty h.binary_type h.envelope in
      rw (
        l,
        t,
        m,
        b,
        type_code-le h.envelope,
        room,
        srs_field,
        env_field,
        payload,
        read_envelope-envelope_bytes little h.envelope v.1,
      )

  -- `decode` reads every header and payload off the format, in either byte order of the header.
  pub decode-blob_layout : decode (blob_layout little h wkb) ≡ ok (h, wkb)
  unfolding decode
  decode-blob_layout =
      let long : ltb (length (blob_layout little h wkb)) 8 ≡ false =
        ground (arith, length-blob_layout little h wkb v.1) in
      rw long (unfold blob_layout in body)

-- What `encode` writes for a header with arrays of the right lengths, `decode` takes apart again.
pub decode-encode_header :
    (h : GpkgBlobHeader) (wkb : List ℕ) → IsHeader h → decode (encode h wkb) ≡ ok (h, wkb)
decode-encode_header h wkb v = rw (encode-blob_layout h wkb) (decode-blob_layout true h wkb v)
