-- ===== src/Geom/Ewkb/Frame.antt =====
-- The parts of an EWKB: byte order, type word, SRID and the rest.
use Prim.Native.Nat.{bit_and, bit_or}
use shpx.Prelude.{
  ℕ, ◌+◌, ◌^◌, ◌≤◌, ◌<◌, ◌≡◌, sym, ◌∙◌, ap, subst, arith, List, [], ◌∷◌, ◌++◌, some, ok, Bool,
  false, ltb, length, take, drop, All, length-append, take-append, drop-append, take-append-drop,
  All-take, length-take, drop-drop,
}
use shpx.Geom.Bytes.{
  IsByte, to_bytes, from_bytes, length-to_bytes, from_bytes-to_bytes, to_bytes-from_bytes,
  from_bytes-lt,
}
use shpx.Geom.Ewkb.{
  srid_flag, z_flag, m_flag, not_srid_flag, first, read_type, insert_srid, remove_srid,
}
use shpx.Geom.Ewkb.Flags.{
  bit_and-srid_flag, bit_and-zm_flags, bit_and-not_srid_flag, bit_or-srid_flag,
}

-- A byte order, a type word in it, and what follows.
abbrev pub frame : ℕ → Bool → ℕ → List ℕ → List ℕ
frame order little ty rest = order ∷ (to_bytes little 4 ty ++ rest)

module _ (order : ℕ) (little : Bool) (ty : ℕ) (rest : List ℕ) where
  pub length-frame : length (frame order little ty rest) ≡ 5 + length rest
  length-frame =
      omega (arith, length-append (to_bytes little 4 ty) rest, length-to_bytes little 4 ty)

  pub drop-frame : drop 5 (frame order little ty rest) ≡ rest
  drop-frame =
      ap (λ k. drop k (to_bytes little 4 ty ++ rest)) (sym (length-to_bytes little 4 ty))
      ∙ drop-append (to_bytes little 4 ty) rest

  pub read_type-frame : ty < 2 ^ 32 → read_type (frame order little ty rest) little ≡ ty
  unfolding read_type
  read_type-frame word =
      ap (from_bytes little) (
        ap (λ k. take k (to_bytes little 4 ty ++ rest)) (sym (length-to_bytes little 4 ty))
        ∙ take-append (to_bytes little 4 ty) rest)
      ∙ from_bytes-to_bytes little 4 ty word

-- Four bytes and more begin with the bytes of the word that they hold.
pub word-view :
    (bs : List ℕ) (little : Bool)
    → All IsByte bs
    → 4 ≤ length bs
    → bs ≡ to_bytes little 4 (from_bytes little (take 4 bs)) ++ drop 4 bs
word-view bs little all h =
    sym (take-append-drop 4 bs)
    ∙ ap (λ t. t ++ drop 4 bs)
        (sym (to_bytes-from_bytes little (take 4 bs) (All-take IsByte 4 bs all))
          ∙ ap (λ k. to_bytes little k (from_bytes little (take 4 bs))) (length-take 4 bs h))

-- Bytes with room for a header are a frame of their own type word.
pub frame-read_type :
    (bytes : List ℕ) (little : Bool)
    → All IsByte bytes
    → 5 ≤ length bytes
    → bytes ≡ frame (first bytes) little (read_type bytes little) (drop 5 bytes)
unfolding read_type
frame-read_type [] little all h = absurd (omega arith)
frame-read_type (o ∷ bs) little (_, all) h = ap (λ t. o ∷ t) (word-view bs little all (omega arith))

pub read_type-lt :
    (bytes : List ℕ) (little : Bool)
    → All IsByte bytes
    → 5 ≤ length bytes
    → read_type bytes little < 2 ^ 32
unfolding read_type
read_type-lt [] little all h = absurd (omega arith)
read_type-lt (o ∷ bs) little (_, all) h =
    subst (λ k. from_bytes little (take 4 bs) < 256 ^ k) (length-take 4 bs (omega arith))
      (from_bytes-lt little (take 4 bs) (All-take IsByte 4 bs all))

-- The type word of a frame that takes a SRID has none of the three flags.
pub insert_srid-ok :
    (order : ℕ) (little : Bool) (ty : ℕ) (rest : List ℕ) (srid : ℕ)
    → ty < 2 ^ 29
    → insert_srid (frame order little ty rest) srid little
      ≡ ok (frame order little (ty + 2 ^ 29) (to_bytes little 4 srid ++ rest))
unfolding insert_srid
insert_srid-ok order little ty rest srid small =
    let no_srid : bit_and ty srid_flag ≡ 0 = omega (arith, bit_and-srid_flag ty (omega arith)) in
    let no_zm : bit_and ty (bit_or z_flag m_flag) ≡ 0 =
      omega (arith, bit_and-zm_flags ty (omega arith)) in
    let set : bit_or ty srid_flag ≡ ty + 2 ^ 29 =
      omega (arith, bit_or-srid_flag ty (omega arith)) in
    rw (
      read_type-frame order little ty rest (omega arith),
      no_srid,
      no_zm,
      set,
      drop-frame order little ty rest,
    )

-- The SRID field and what follows it.
pub srid_bytes :
    (order : ℕ) (little : Bool) (ty : ℕ) (rest : List ℕ) (srid : ℕ)
    → srid < 2 ^ 32
    → from_bytes little (take 4 (drop 5 (frame order little ty (to_bytes little 4 srid ++ rest))))
      ≡ srid
srid_bytes order little ty rest srid h =
    ap (λ t. from_bytes little (take 4 t))
      (drop-frame order little ty (to_bytes little 4 srid ++ rest))
    ∙ ap (from_bytes little) (
        ap (λ k. take k (to_bytes little 4 srid ++ rest)) (sym (length-to_bytes little 4 srid))
        ∙ take-append (to_bytes little 4 srid) rest)
    ∙ from_bytes-to_bytes little 4 srid h

pub after_srid :
    (order : ℕ) (little : Bool) (ty : ℕ) (rest : List ℕ) (srid : ℕ)
    → drop 9 (frame order little ty (to_bytes little 4 srid ++ rest)) ≡ rest
after_srid order little ty rest srid =
    sym (drop-drop 4 5 (frame order little ty (to_bytes little 4 srid ++ rest)))
    ∙ ap (drop 4) (drop-frame order little ty (to_bytes little 4 srid ++ rest))
    ∙ ap (λ k. drop k (to_bytes little 4 srid ++ rest)) (sym (length-to_bytes little 4 srid))
    ∙ drop-append (to_bytes little 4 srid) rest

pub remove_srid-ok :
    (order : ℕ) (little : Bool) (ty : ℕ) (rest : List ℕ) (srid : ℕ)
    → ty < 2 ^ 29
    → srid < 2 ^ 32
    → remove_srid (frame order little (ty + 2 ^ 29) (to_bytes little 4 srid ++ rest)) little
      ≡ ok (frame order little ty rest, some srid)
unfolding remove_srid
remove_srid-ok order little ty rest srid small hs =
    let body : List ℕ = to_bytes little 4 srid ++ rest in
    let word : ty + 2 ^ 29 < 2 ^ 32 = omega arith in
    let no_zm : bit_and (ty + 2 ^ 29) (bit_or z_flag m_flag) ≡ 0 =
      omega (arith, bit_and-zm_flags _ word) in
    let has_srid : bit_and (ty + 2 ^ 29) srid_flag ≡ 2 ^ 29 =
      omega (arith, bit_and-srid_flag _ word) in
    let clear : bit_and (ty + 2 ^ 29) not_srid_flag ≡ ty =
      omega (arith, bit_and-not_srid_flag _ word) in
    let long : ltb (length (frame order little (ty + 2 ^ 29) body)) 9 ≡ false = ground (
      arith,
      length-frame order little (ty + 2 ^ 29) body,
      length-append (to_bytes little 4 srid) rest,
      length-to_bytes little 4 srid,
    ) in
    rw (
      read_type-frame order little (ty + 2 ^ 29) body word,
      no_zm,
      has_srid,
      long,
      clear,
      srid_bytes order little (ty + 2 ^ 29) rest srid hs,
      after_srid order little (ty + 2 ^ 29) rest srid,
    )
