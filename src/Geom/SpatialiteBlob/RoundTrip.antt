-- ===== src/Geom/SpatialiteBlob/RoundTrip.antt =====
-- `decode` reads the format in either byte order, and what `encode` wrote.
use shpx.Prelude.{
  ℕ, ◌+◌, ◌^◌, ◌<◌, ◌≡◌, refl, sym, ◌∙◌, ap, arith, List, [], ◌∷◌, ◌++◌, append-nil, ltb,
  length-drop, Bool, true, false, if◌then◌else◌, length, take, drop, All, ok, Result, Ensures-ok,
  ◌==◌, ==_iff, ◌≤◌,
}
use shpx.Prelude.Outcome.{>>=-eq-ok}
use shpx.Geom.Types.{
  Coord, Geom, Fault, IsCoord, IsPoints, IsRings, IsCounted, IsGeom, point, line_string, polygon,
  multi_point, multi_line_string, multi_polygon, bad_child_type,
}
use shpx.Geom.Bytes.{IsByte, to_bytes, from_bytes-to_bytes, to_le_bytes, to_be_bytes}
use shpx.Geom.GpkgBlob.{byte_at}
use shpx.Geom.Cursor.{
  Cursor, Reader, fail, ensure_remaining_for, ◌>>=◌, take_byte, read_u32, read_f64, read_coord,
}
use shpx.Geom.Cursor.Reads.{
  Reads, Reads-pure, Reads-bind, Reads-map, Reads-byte, Reads-u32, Reads-f64, ensure-Reads,
}
use shpx.Geom.Wkb
use shpx.Geom.Wkb.Encode.{
  ty_point, ty_linestring, ty_polygon, ty_multipoint, ty_multilinestring, ty_multipolygon,
}
use shpx.Geom.Wkb.Decode.{read_many, read_ring}
use shpx.Geom.Wkb.Layout.{
  layout, coord_bytes, counted_bytes, ring_bytes, concat_map, concat_map-ge, length-coord_bytes,
  length-ring_bytes,
}
use shpx.Geom.Wkb.RoundTrip.{Reads-many, Reads-coord, Reads-ring}
use shpx.Geom.Wkb.Accepts.{decode-Ensures}
use shpx.Geom.Wkb.Canonical.{encode-layout, IsGeom-Fits}
use shpx.Geom.SpatialiteBlob.Encode.{
  Mbr, compute_mbr, encode, estimate_size, gaia_mark_entity, gaia_blob_end, gaia_mbr_end,
  gaia_blob_start, endian_le, endian_be,
}
use shpx.Geom.SpatialiteBlob.Decode.{
  expect_entity_marker, read_entity, read_rings, read_entities, read_payload, read_inner, read_body,
  finish, decode_endian, decode,
}
use shpx.Geom.SpatialiteBlob.Format.{rings_bytes, entity_bytes, payload, inner_layout, blob_layout}
use shpx.Geom.SpatialiteBlob.Size.{
  encode-blob_layout_lem, length-blob_layout_size, estimate_size-wkb, length-rings_bytes,
  length-entity_bytes,
}

Reads-marker : Reads expect_entity_marker (gaia_mark_entity ∷ []) tt
unfolding expect_entity_marker
Reads-marker =
    Reads-bind take_byte _ (gaia_mark_entity ∷ []) [] gaia_mark_entity tt
      (Reads-byte gaia_mark_entity) (Reads-pure tt)

module _ (little : Bool) where
  -- A count, the check that the members are there, and the members.
  Reads-list :
      {A : Type 0} (P : A → Type 0) (read : Reader A) (f : A → List ℕ) (size : ℕ) (xs : List A)
      → IsCounted P xs
      → ((x : A) → P x → Reads read (f x) x)
      → ((x : A) → size ≤ length (f x))
      → Reads
          (do n ← read_u32 little; _ ← ensure_remaining_for n size; read_many read n)
          (counted_bytes little f xs)
          xs
  unfolding counted_bytes
  Reads-list P read f size xs (fits, all) step big =
      Reads-bind (read_u32 little) _ _ _ (length xs) _ (Reads-u32 little (length xs) fits) (
        ensure-Reads (length xs) size _ (concat_map f xs) _ (concat_map-ge f size xs big)
          (Reads-many P read f xs step all))

  Reads-rings :
      (rings : List (List Coord))
      → IsRings rings
      → Reads (read_rings little) (rings_bytes little rings) rings
  unfolding read_rings rings_bytes
  Reads-rings rings h =
      Reads-list IsPoints (read_ring little) (ring_bytes little) 4 rings h (Reads-ring little)
        (λ r. omega (arith, length-ring_bytes little r))

  Reads-entity :
      {A : Type 0} (ty : ℕ) (read : Reader A) (f : A → List ℕ) (x : A)
      → ty < 7
      → Reads read (f x) x
      → Reads (read_entity little ty read) (entity_bytes little ty f x) x
  unfolding read_entity entity_bytes
  Reads-entity ty read f x small h =
      Reads-bind expect_entity_marker _ (gaia_mark_entity ∷ []) _ tt x Reads-marker (
        Reads-bind (read_u32 little) _ (to_bytes little 4 ty) (f x) ty x
          (Reads-u32 little ty (omega arith)) (go (ty == ty) ((==_iff ty ty).1 refl)))
    where
      go : (b : Bool) → b ≡ true → Reads (if b then read else fail (bad_child_type ty)) (f x) x
      go true e = h
      go false e = cc

  Reads-entities :
      {A : Type 0} (P : A → Type 0) (size ty : ℕ) (read : Reader A) (f : A → List ℕ) (xs : List A)
      → ty < 7
      → IsCounted P xs
      → ((x : A) → P x → Reads read (f x) x)
      → ((x : A) → size ≤ 5 + length (f x))
      → Reads
          (read_entities little size ty read)
          (counted_bytes little (entity_bytes little ty f) xs)
          xs
  unfolding read_entities
  Reads-entities P size ty read f xs small h step big =
      Reads-list P (read_entity little ty read) (entity_bytes little ty f) size xs h
        (λ x p. Reads-entity ty read f x small (step x p))
        (λ x. omega (arith, big x, length-entity_bytes little ty f x))

  Reads-payload :
      (g : Geom)
      → IsGeom g
      → Reads (read_payload little ((payload little g).0)) ((payload little g).1) g
  unfolding read_payload payload
  Reads-payload (point x y) (hx, hy) =
      unfold coord_bytes in
      Reads-bind (read_f64 little) _ _ _ x _ (Reads-f64 little x hx)
        (Reads-map (read_f64 little) (λ y'. point x y') _ y (Reads-f64 little y hy))
  Reads-payload (line_string pts) h =
      Reads-map (read_ring little) line_string _ pts (Reads-ring little pts h)
  Reads-payload (polygon rings) h =
      Reads-map (read_rings little) polygon _ rings (Reads-rings rings h)
  Reads-payload (multi_point pts) h =
      Reads-map (read_entities little 21 ty_point (read_coord little)) multi_point _ pts (
        Reads-entities IsCoord 21 ty_point (read_coord little) (coord_bytes little) pts
          (omega arith) h (Reads-coord little) (λ c. omega (arith, length-coord_bytes little c)))
  Reads-payload (multi_line_string lines) h =
      Reads-map (read_entities little 9 ty_linestring (read_ring little)) multi_line_string _ lines
        (Reads-entities IsPoints 9 ty_linestring (read_ring little) (ring_bytes little) lines
          (omega arith) h (Reads-ring little) (λ c. omega (arith, length-ring_bytes little c)))
  Reads-payload (multi_polygon polys) h =
      Reads-map (read_entities little 9 ty_polygon (read_rings little)) multi_polygon _ polys (
        Reads-entities IsRings 9 ty_polygon (read_rings little) (rings_bytes little) polys
          (omega arith) h Reads-rings (λ c. omega (arith, length-rings_bytes little c)))

  payload-type : (g : Geom) → (payload little g).0 < 7
  unfolding payload
  payload-type (point x y) = omega arith
  payload-type (line_string pts) = omega arith
  payload-type (polygon rings) = omega arith
  payload-type (multi_point pts) = omega arith
  payload-type (multi_line_string lines) = omega arith
  payload-type (multi_polygon polys) = omega arith

  Reads-body :
      (g : Geom)
      → IsGeom g
      → Reads (read_body little) (inner_layout little g ++ gaia_blob_end ∷ []) g
  unfolding read_body read_inner inner_layout
  Reads-body g h =
      Reads-bind (read_inner little) _ (inner_layout little g) (gaia_blob_end ∷ []) g g
        (Reads-bind (read_u32 little) _ _ _ _ g
          (Reads-u32 little ((payload little g).0) (omega (arith, payload-type g)))
          (Reads-payload g h))
        (Reads-bind take_byte _ (gaia_blob_end ∷ []) [] gaia_blob_end g (Reads-byte gaia_blob_end)
          (Reads-pure g))

-- The parts of a blob that `decode` looks at.
abbrev HasParts : Bool → ℕ → Mbr → Geom → Type 0
HasParts little srid m g =
    let blob = blob_layout little srid m g in
    (take 4 (drop 2 blob) ≡ to_bytes little 4 srid)
    × (byte_at blob 0 ≡ gaia_blob_start)
    × (byte_at blob 1 ≡ (if little then endian_le else endian_be))
    × (byte_at blob 38 ≡ gaia_mbr_end)
    × (drop 39 blob ≡ inner_layout little g ++ gaia_blob_end ∷ [])

blob_layout-HasParts : (little : Bool) (srid : ℕ) (m : Mbr) (g : Geom) → HasParts little srid m g
unfolding blob_layout to_bytes to_be_bytes to_le_bytes
blob_layout-HasParts true srid (a, b, c, d) g = (refl, refl, refl, refl, refl)
blob_layout-HasParts false srid (a, b, c, d) g = (refl, refl, refl, refl, refl)

-- The end of `decode`: nothing is left, and the geometry has a WKB.
finish-ok :
    (srid : ℕ) (g : Geom) (c : Cursor)
    → IsGeom g
    → c.pos ≡ length c.bytes
    → finish srid (ok (g, c)) ≡ ok (srid, layout true g)
unfolding finish
finish-ok srid g c h e =
    rw ((==_iff (c.pos) (length c.bytes)).1 e, encode-layout g (IsGeom-Fits g h)) refl

estimate_size-ge : (g : Geom) → 44 ≤ estimate_size g
unfolding estimate_size
estimate_size-ge (point x y) = omega arith
estimate_size-ge _ = omega arith

decode_endian-blob_layout :
    (little : Bool) (srid : ℕ) (m : Mbr) (g : Geom)
    → srid < 2 ^ 32
    → IsGeom g
    → estimate_size g < 2 ^ 64
    → decode_endian little (blob_layout little srid m g) ≡ ok (srid, layout true g)
unfolding decode_endian
decode_endian-blob_layout little srid m g hs h small =
    let (srid_at, start, endian, mbr_end, body_at) = blob_layout-HasParts little srid m g in
    rw (srid_at, mbr_end, from_bytes-to_bytes little 4 srid hs)
      (ap (finish srid) (
          Reads-body little g h (record { bytes = blob; pos = 39 }) []
            (body_at ∙ sym (append-nil _)) (omega (arith, size)))
        ∙ finish-ok srid g _ h
            (omega (arith, size, estimate_size-ge g, ap length body_at, length-drop 39 blob)))
  where
    blob : List ℕ
    blob = blob_layout little srid m g

    size : length blob ≡ estimate_size g
    size = length-blob_layout_size little srid m g

-- `decode` of the format's bytes, in either byte order and with any box, is the SRID and the WKB.
pub decode-spatialite_layout :
    (little : Bool) (srid : ℕ) (m : Mbr) (g : Geom)
    → srid < 2 ^ 32
    → IsGeom g
    → estimate_size g < 2 ^ 64
    → decode (blob_layout little srid m g) ≡ ok (srid, layout true g)
unfolding decode
decode-spatialite_layout little srid m g hs h small =
    by_order little srid m g (decode_endian-blob_layout little srid m g hs h small)
  where
    long :
        (l : Bool) (s : ℕ) (m' : Mbr) (g' : Geom) → ltb (length (blob_layout l s m' g')) 44 ≡ false
    long l s m' g' = ground (arith, length-blob_layout_size l s m' g', estimate_size-ge g')

    by_order :
        (l : Bool) (s : ℕ) (m' : Mbr) (g' : Geom) {r : Result Fault (ℕ × List ℕ)}
        → decode_endian l (blob_layout l s m' g') ≡ r
        → decode (blob_layout l s m' g') ≡ r
    by_order true s m' g' e =
        let (srid_at, start, endian, mbr_end, body_at) = blob_layout-HasParts true s m' g' in
        rw (long true s m' g', start, endian) e
    by_order false s m' g' e =
        let (srid_at, start, endian, mbr_end, body_at) = blob_layout-HasParts false s m' g' in
        rw (long false s m' g', start, endian) e

-- What `encode` makes of a WKB, `decode` takes apart to the SRID and the little-endian WKB of the
-- same geometry, and the blob is 39 bytes longer than the WKB.
pub decode-encode_spatialite :
    (srid : ℕ) (wkb : List ℕ) (blob : List ℕ)
    → srid < 2 ^ 32
    → All IsByte wkb
    → 39 + length wkb < 2 ^ 64
    → encode srid wkb ≡ ok blob
    → (g : Geom) × (wkb' : List ℕ) × (Wkb.Decode.decode wkb ≡ ok g)
      × (Wkb.Encode.encode g ≡ ok wkb')
      × (length blob ≡ 39 + length wkb)
      × (decode blob ≡ ok (srid, wkb'))
unfolding encode
decode-encode_spatialite srid wkb blob hs all small e =
    let (g, dec, _) = >>=-eq-ok (Wkb.Decode.decode wkb) _ e in
    let (h, size) = Ensures-ok (decode-Ensures wkb all) dec in
    let (m, _, e') =
      >>=-eq-ok (compute_mbr g) (λ m. ok (blob_layout true srid m g))
        (sym (encode-blob_layout_lem srid wkb g dec (IsGeom-Fits g h)) ∙ e) in
    let written : blob_layout true srid m g ≡ blob = cc in
    (
      g,
      layout true g,
      dec,
      encode-layout g (IsGeom-Fits g h),
      omega (
        arith,
        size,
        estimate_size-wkb g,
        length-blob_layout_size true srid m g,
        ap length written,
      ),
      ap decode (sym written)
          ∙ decode-spatialite_layout true srid m g hs h (omega (arith, size, estimate_size-wkb g)),
    )
