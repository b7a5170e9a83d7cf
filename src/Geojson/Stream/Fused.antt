-- ===== src/Geojson/Stream/Fused.antt =====
-- A stream of features that has ended.
use shpx.Prelude.{
  ℕ, zero, suc, ◌≡◌, ◌≢◌, refl, sym, ap, ◌∙◌, subst, Option, none, some, Bool, true, false, Result,
  ok, err, ◌==◌, if◌then◌else◌,
}
use shpx.Geojson.Stream.{
  Reader, FcFeatureStream, FcState, before_features, first_element, during_features, ended, Item,
  stream, read_byte, find_array, peek_non_ws, next_non_ws, feature_read, read_one_feature,
  first_peeked, array_found, separated, next_in, next_of, next_feature,
}

module _ {E F : Type 0} (read_feature : Reader E → Option (Result E F) × Reader E) where
  -- The reader is given up, or the state is `Done`.
  abbrev IsOver : FcFeatureStream E → Type 0
  IsOver s = next_feature read_feature s ≡ (none, record { reader = none; state = s.state })

  ended-IsOver : (reader : Reader E) → IsOver (stream reader ended)
  unfolding next_feature next_of next_in
  ended-IsOver reader = refl

  given_up-IsOver : (state : FcState) → IsOver (record { reader = none; state = state })
  unfolding next_feature next_of
  given_up-IsOver state = refl

  -- A feature, or the end.
  abbrev IsSettled : Item E F × FcFeatureStream E → Type 0
  IsSettled (some (ok f), s) = Unit {0}
  IsSettled (some (err e), s) = IsOver s
  IsSettled (none, s) = IsOver s

  if-IsSettled :
      (b : Bool) (x y : Item E F × FcFeatureStream E)
      → IsSettled x
      → IsSettled y
      → IsSettled (if b then x else y)
  if-IsSettled true x y hx hy = hx
  if-IsSettled false x y hx hy = hy

  feature_read-IsSettled :
      (r : Option (Result E F) × Reader E) (state : FcState)
      → IsSettled (feature_read read_feature r state)
  unfolding feature_read
  feature_read-IsSettled (some (ok f), reader) state = tt
  feature_read-IsSettled (some (err e), reader) state = ended-IsOver reader
  feature_read-IsSettled (none, reader) state = ended-IsOver reader

  first_peeked-IsSettled :
      (r : Result E (Option ℕ) × Reader E) → IsSettled (first_peeked read_feature r)
  unfolding first_peeked read_one_feature
  first_peeked-IsSettled (ok (some b), reader) =
      if-IsSettled (b == 93) _ _ (ended-IsOver ((read_byte reader).1))
        (feature_read-IsSettled (read_feature reader) during_features)
  first_peeked-IsSettled (ok none, reader) = ended-IsOver reader
  first_peeked-IsSettled (err e, reader) = ended-IsOver reader

  array_found-IsSettled : (r : Result E Bool × Reader E) → IsSettled (array_found read_feature r)
  unfolding array_found
  array_found-IsSettled (ok true, reader) = first_peeked-IsSettled (peek_non_ws reader)
  array_found-IsSettled (ok false, reader) = ended-IsOver reader
  array_found-IsSettled (err e, reader) = ended-IsOver reader

  separated-IsSettled : (r : Result E (Option ℕ) × Reader E) → IsSettled (separated read_feature r)
  unfolding separated read_one_feature
  separated-IsSettled (ok (some b), reader) =
      if-IsSettled (b == 44) _ _ (feature_read-IsSettled (read_feature reader) during_features)
        (if-IsSettled (b == 93) _ _ (ended-IsOver reader) (ended-IsOver reader))
  separated-IsSettled (ok none, reader) = ended-IsOver reader
  separated-IsSettled (err e, reader) = ended-IsOver reader

  next_in-IsSettled :
      (reader : Reader E) (state : FcState) → IsSettled (next_in read_feature reader state)
  unfolding next_in
  next_in-IsSettled reader before_features = array_found-IsSettled (find_array reader)
  next_in-IsSettled reader first_element = first_peeked-IsSettled (peek_non_ws reader)
  next_in-IsSettled reader during_features = separated-IsSettled (next_non_ws reader)
  next_in-IsSettled reader ended = given_up-IsOver ended

  next_of-IsSettled :
      (s : FcFeatureStream E) (r : Option (Reader E))
      → s.reader ≡ r
      → IsSettled (next_of read_feature s r)
  unfolding next_of
  next_of-IsSettled s none e =
      ap (λ r. next_feature read_feature (record { reader = r; state = s.state })) e
      ∙ given_up-IsOver s.state
  next_of-IsSettled s (some reader) e = next_in-IsSettled reader s.state

  next_feature-IsSettled : (s : FcFeatureStream E) → IsSettled (next_feature read_feature s)
  unfolding next_feature
  next_feature-IsSettled s = next_of-IsSettled s s.reader refl

  -- The stream after so many calls of `next`.
  abbrev pub after : ℕ → FcFeatureStream E → FcFeatureStream E
  after zero s = s
  after (suc n) s = after n ((next_feature read_feature s).1)

  next_feature-after :
      (n : ℕ) (s : FcFeatureStream E) → IsOver s → (next_feature read_feature (after n s)).0 ≡ none
  next_feature-after zero s h = ap (λ q. q.0) h
  next_feature-after (suc n) s h =
      next_feature-after n ((next_feature read_feature s).1)
        (subst (λ t. IsOver t) (sym (ap (λ q. q.1) h)) (given_up-IsOver s.state))

  IsSettled-IsOver :
      (r : Item E F × FcFeatureStream E)
      → IsSettled r
      → ((f : F) → r.0 ≢ some (ok f))
      → IsOver (r.1)
  IsSettled-IsOver (some (ok f), s) h ne = absurd (ne f refl)
  IsSettled-IsOver (some (err e), s) h ne = h
  IsSettled-IsOver (none, s) h ne = h

  -- Once next gives None or an error, it gives None at every later call.
  pub next_feature-fused :
      (s : FcFeatureStream E)
      → ((f : F) → (next_feature read_feature s).0 ≢ some (ok f))
      → (n : ℕ) → (next_feature read_feature (after n ((next_feature read_feature s).1))).0 ≡ none
  next_feature-fused s ne n =
      next_feature-after n ((next_feature read_feature s).1)
        (IsSettled-IsOver (next_feature read_feature s) (next_feature-IsSettled s) ne)
