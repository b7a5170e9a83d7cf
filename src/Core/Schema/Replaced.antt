-- ===== src/Core/Schema/Replaced.antt =====
-- The geometry column of a schema whose CRS was replaced.
use shpx.Prelude.{
  Text, eq_text, ℕ, zero, suc, ◌-◌, ◌≤◌, ◌≡◌, ◌≢◌, refl, sym, ap, ◌∙◌, subst, arith, List, [], ◌∷◌,
  Option, none, some, Result, ok, err, true, false, if◌then◌else◌, ==_iff, Ensures, holds, fails,
  Bool-cases, inl, inr,
}
use shpx.Prelude.Outcome.{◌>>=◌, >>=-eq-ok}
use shpx.Core.Crs.{Crs}
use shpx.Core.Uri.Schemes.{eq_text-eq}
use shpx.Core.Schema.{
  GeometryMeta, Metadata, Field, Schema, geometry_meta_key, lookup, insert, find_from, column_or,
  find_geometry_column, update, with_geometry_meta, replaced, replace_geometry_crs,
}

eq_text_refl : (t : Text) → eq_text t t ≡ true
eq_text_refl [] = refl
eq_text_refl (b ∷ t) = rw ((==_iff b b).1 refl) (eq_text_refl t)

lookup-insert : (key value : Text) (m : Metadata) → lookup key (insert key value m) ≡ some value
lookup-insert key value [] = rw (eq_text_refl key) refl
lookup-insert key value (entry ∷ m) = elim (Bool-cases (eq_text key (entry.0))) [
  | inl e ↦ rw e (rw (eq_text_refl key) refl)
  | inr e ↦ rw (e, e) (lookup-insert key value m)
]

abbrev pub nth : {A : Type 0} → ℕ → List A → Option A
nth i [] = none
nth zero (x ∷ xs) = some x
nth (suc i) (x ∷ xs) = nth i xs

eq_text-ne : (s t : Text) → s ≢ t → eq_text s t ≡ false
eq_text-ne s t ne = elim (Bool-cases (eq_text s t)) [
  | inl e ↦ absurd (ne (eq_text-eq s t e))
  | inr e ↦ e
]

lookup-insert_other :
    (key value k : Text) (m : Metadata) → k ≢ key → lookup k (insert key value m) ≡ lookup k m
lookup-insert_other key value k [] ne = rw (eq_text-ne k key ne) refl
lookup-insert_other key value k (entry ∷ m) ne = elim (Bool-cases (eq_text key (entry.0))) [
  | inl t ↦
      let other : k ≢ entry.0 = λ e. ne (e ∙ sym (eq_text-eq key (entry.0) t)) in
      rw (t, eq_text-ne k key ne, eq_text-ne k (entry.0) other) refl
  | inr f ↦ rw f (
      ap (λ rest. if eq_text k (entry.0) then some (entry.1) else rest)
        (lookup-insert_other key value k m ne))
]

nth-update_same :
    {T : Type 0} (g : Field T → Field T) (i : ℕ) (xs : List (Field T)) (f : Field T)
    → nth i xs ≡ some f
    → nth i (update g i xs) ≡ some (g f)
nth-update_same g i [] f e = cc
nth-update_same g zero (x ∷ xs) f e = ap (λ y. some (g y)) (let same : x ≡ f = cc in same)
nth-update_same g (suc i) (x ∷ xs) f e = nth-update_same g i xs f e

nth-update :
    {T : Type 0} (f : Field T → Field T) (i j : ℕ) (xs : List (Field T))
    → j ≢ i
    → nth j (update f i xs) ≡ nth j xs
nth-update f i j [] ne = refl
nth-update f zero zero (x ∷ xs) ne = absurd (ne refl)
nth-update f zero (suc j) (x ∷ xs) ne = refl
nth-update f (suc i) zero (x ∷ xs) ne = refl
nth-update f (suc i) (suc j) (x ∷ xs) ne = nth-update f i j xs (λ e. ne (ap suc e))

abbrev Found : Type 0
Found = Option (ℕ × Text × GeometryMeta)

module _ {T E : Type 0} (from_json : Text → Result E GeometryMeta) where
  find_from-step :
      (f : Field T) (fields : List (Field T)) (i : ℕ) (o : Option Text)
      → lookup geometry_meta_key f.metadata ≡ o
      → find_from from_json (f ∷ fields) i
        ≡ column_or from_json o f i (find_from from_json fields (suc i))
  unfolding find_from
  find_from-step f fields i o e =
      ap (λ o'. column_or from_json o' f i (find_from from_json fields (suc i))) e

  no_fields :
      (fields : List (Field T)) (k i : ℕ) (name : Text) (meta : GeometryMeta)
      → fields ≡ []
      → find_from from_json fields k ≢ ok (some (i, name, meta))
  unfolding find_from
  no_fields [] k i name meta none_there e = cc
  no_fields (f ∷ fields) k i name meta none_there e = cc

  abbrev At : GeometryMeta → Text → List (Field T) → ℕ → ℕ → Text → Type 0
  At new json fields k i name =
      (k ≤ i)
      × (find_from from_json (update (with_geometry_meta json) (i - k) fields) k
          ≡ ok (some (i, name, new)))
      × ((f : Field T) × (nth (i - k) fields ≡ some f))

  module _ (json : Text) (new : GeometryMeta) (back : from_json json ≡ ok new) where
    head_found :
        (f : Field T) (fields : List (Field T)) (k i : ℕ) (name : Text) (meta m : GeometryMeta)
        → (let found : Result E Found = ok (some (k, f.name, m)) in found)
          ≡ ok (some (i, name, meta))
        → At new json (f ∷ fields) k i name
    unfolding column_or
    head_found f fields k i name meta m e =
        subst (λ j. At new json (f ∷ fields) k j name) (let e : k ≡ i = cc in e)
          (
            omega arith,
            rw (let e : k - k ≡ 0 = omega arith in e) (
                find_from-step (with_geometry_meta json f) fields k (some json)
                  (lookup-insert geometry_meta_key json f.metadata)
                ∙ ap (λ r. r >>= λ m'. ok (some (k, f.name, m'))) back
                ∙ ap (λ n. ok (some (k, n, new))) (let e : f.name ≡ name = cc in e)),
            (f, ap (λ n. nth n (f ∷ fields)) (let e : k - k ≡ 0 = omega arith in e)),
          )

    -- The first field with the key is `i`, and with the new metadata it still is.
    find_from-At :
        (fields : List (Field T)) (k i : ℕ) (name : Text) (meta : GeometryMeta)
        → find_from from_json fields k ≡ ok (some (i, name, meta))
        → At new json fields k i name
    unfolding column_or
    find_from-At [] k i name meta e = absurd (no_fields [] k i name meta refl e)
    find_from-At (f ∷ fields) k i name meta e =
        at_field (lookup geometry_meta_key f.metadata) refl
          (find_from-At fields (suc k) i name meta)
      where
        at_field :
            (o : Option Text)
            → lookup geometry_meta_key f.metadata ≡ o
            → (find_from from_json fields (suc k) ≡ ok (some (i, name, meta))
                → At new json fields (suc k) i name)
            → At new json (f ∷ fields) k i name
        at_field none none_here ih =
            let (le, there, some_field) = ih (sym (find_from-step f fields k none none_here) ∙ e) in
            (
              omega arith,
              ap (λ n. find_from from_json (update (with_geometry_meta json) n (f ∷ fields)) k)
                    (let e : i - k ≡ suc (i - suc k) = omega arith in e)
                  ∙ find_from-step f _ k none none_here
                  ∙ there,
              (
                some_field.0,
                ap (λ n. nth n (f ∷ fields)) (let e : i - k ≡ suc (i - suc k) = omega arith in e)
                    ∙ some_field.1,
              ),
            )
        at_field (some old) here ih =
            let (m, from, same) =
              >>=-eq-ok (from_json old) (λ m. ok (some (k, f.name, m)))
                (sym (find_from-step f fields k (some old) here) ∙ e) in
            head_found f fields k i name meta m same

  module _ (to_json : GeometryMeta → Result E Text) where
    -- A field but for the text of its geometry metadata.
    abbrev pub IsRewritten : Text → Field T → Field T → Type 0
    IsRewritten json f f' =
        (f'.name ≡ f.name)
        × (f'.data_type ≡ f.data_type)
        × (f'.nullable ≡ f.nullable)
        × (lookup geometry_meta_key f'.metadata ≡ some json)
        × ((key : Text) → key ≢ geometry_meta_key → lookup key f'.metadata ≡ lookup key f.metadata)

    rewritten : (json : Text) (f : Field T) → IsRewritten json f (with_geometry_meta json f)
    rewritten json f = (
      refl,
      refl,
      refl,
      lookup-insert geometry_meta_key json f.metadata,
      λ key ne. lookup-insert_other geometry_meta_key json key f.metadata ne,
    )

    -- The schema's geometry column `i` has the CRS `new_crs`, and all else is as it was.
    abbrev pub HasCrs : Schema T → Option Crs → ℕ → Text → GeometryMeta → Schema T → Type 0
    HasCrs schema new_crs i name meta schema' =
        (find_geometry_column from_json schema'
          ≡ ok (some (i, name, record meta { crs = new_crs })))
        × ((json : Text) × (f : Field T) × (f' : Field T) × (to_json (record meta { crs = new_crs })
              ≡ ok json)
            × (nth i schema.fields ≡ some f)
            × (nth i schema'.fields ≡ some f')
            × IsRewritten json f f')
        × ((j : ℕ) → j ≢ i → nth j schema'.fields ≡ nth j schema.fields)
        × (schema'.metadata ≡ schema.metadata)

    -- Where from_json takes back what to_json writes: for a schema whose geometry column is `i`,
    -- replace_geometry_crs gives a schema whose geometry column is `i`, with the new CRS and the rest
    -- of its GeometryMeta as it was; that field keeps its name, type, nullability and every other key
    -- of its metadata, and the other fields and the schema's metadata are those of the schema. Or it
    -- fails as to_json does.
    pub replace_geometry_crs-Ensures :
        ((m : GeometryMeta) (t : Text) → to_json m ≡ ok t → from_json t ≡ ok m)
        → (schema : Schema T) (new_crs : Option Crs) (i : ℕ) (name : Text) (meta : GeometryMeta)
        → find_geometry_column from_json schema ≡ ok (some (i, name, meta))
        → Ensures
            (HasCrs schema new_crs i name meta)
            (λ e. to_json (record meta { crs = new_crs }) ≡ err e)
            (replace_geometry_crs from_json to_json schema new_crs)
    unfolding replace_geometry_crs find_geometry_column replaced
    replace_geometry_crs-Ensures json_back schema new_crs i name meta e =
        subst (Ensures (HasCrs schema new_crs i name meta) (λ x. to_json new ≡ err x))
          (sym (ap (λ r. r >>= replaced from_json to_json schema new_crs) e))
          (written (to_json new) refl)
      where
        new : GeometryMeta
        new = record meta { crs = new_crs }

        written :
            (r : Result E Text)
            → to_json new ≡ r
            → Ensures
                (HasCrs schema new_crs i name meta)
                (λ x. to_json new ≡ err x)
                (r >>= λ json.
                  ok (record schema { fields = update (with_geometry_meta json) i schema.fields }))
        written (ok json) w =
            let (le, found, some_field) =
              find_from-At json new (json_back new json w) schema.fields 0 i name meta e in
            let here =
              ap (λ n. nth n schema.fields) (let e : i ≡ i - 0 = omega arith in e) ∙ some_field.1 in
            holds (
              ap (λ n. find_from from_json (update (with_geometry_meta json) n schema.fields) 0)
                    (let e : i ≡ i - 0 = omega arith in e)
                  ∙ found,
              (
                json,
                some_field.0,
                with_geometry_meta json (some_field.0),
                w,
                here,
                nth-update_same (with_geometry_meta json) i schema.fields (some_field.0) here,
                rewritten json (some_field.0),
              ),
              λ j ne. nth-update (with_geometry_meta json) i j schema.fields ne,
              refl,
            )
        written (err x) w = fails w
