-- ===== src/Geojson/Stream/Collection.antt =====
-- The features of a FeatureCollection.
use shpx.Prelude.{
  Text, ℕ, ◌≡◌, refl, sym, ap, ◌∙◌, subst, List, [], ◌∷◌, ◌++◌, map, Option, none, some, true,
  false, Result, ok, ◌==◌, All,
}
use shpx.Geojson.Stream.{
  Reader, FcState, during_features, Gives, ends, more, is_ascii_whitespace, new, stream, read_byte,
  find_array, peek_non_ws, next_non_ws, feature_read, read_one_feature, first_peeked, array_found,
  separated, next_in, next_of, next_feature,
}

module _ {X S : Type 0} (next : S → Option X × S) where
  pub Gives-ends : {s s' : S} → next s ≡ (none, s') → Gives next s []
  Gives-ends e = ends (ap (λ r. r.0) e)

  pub Gives-more :
      {s s' : S} {x : X} {xs : List X}
      → next s ≡ (some x, s')
      → Gives next s' xs
      → Gives next s (x ∷ xs)
  Gives-more {xs} e g = more (ap (λ r. r.0) e) (subst (λ r. Gives next (r.1) xs) (sym e) g)

abbrev pub IsSpace : Text → Type 0
IsSpace t = All (λ b. is_ascii_whitespace b ≡ true) t

-- Features with the white space before each, or before the comma in front of it.
abbrev pub Elements : Type 0 → Type 0
Elements F = List (Text × F)

abbrev pub features : {F : Type 0} → Elements F → List F
features [] = []
features (e ∷ es) = e.1 ∷ features es

abbrev pub IsSpaced : {F : Type 0} → Text → Elements F → Type 0
IsSpaced end es = IsSpace end × All (λ e. IsSpace (e.0)) es

module _ {E : Type 0} where
  abbrev pub bytes : Text → Reader E
  bytes [] = []
  bytes (b ∷ t) = ok b ∷ bytes t

  peek_non_ws-space :
      (w : Text) (b : ℕ) (r : Reader E)
      → IsSpace w
      → is_ascii_whitespace b ≡ false
      → peek_non_ws (bytes w ++ ok b ∷ r) ≡ (ok (some b), ok b ∷ r)
  unfolding peek_non_ws
  peek_non_ws-space [] b r h k = rw k refl
  peek_non_ws-space (c ∷ w) b r (hc, h) k = rw hc (peek_non_ws-space w b r h k)

  next_non_ws-space :
      (w : Text) (b : ℕ) (r : Reader E)
      → IsSpace w
      → is_ascii_whitespace b ≡ false
      → next_non_ws (bytes w ++ ok b ∷ r) ≡ (ok (some b), r)
  unfolding next_non_ws
  next_non_ws-space [] b r h k = rw k refl
  next_non_ws-space (c ∷ w) b r (hc, h) k = rw hc (next_non_ws-space w b r h k)

  find_array-bracket :
      (t : Text) (r : Reader E)
      → All (λ b. (b == 91) ≡ false) t
      → find_array (bytes t ++ ok 91 ∷ r) ≡ (ok true, r)
  unfolding find_array
  find_array-bracket [] r h = refl
  find_array-bracket (c ∷ t) r (hc, h) = rw hc (find_array-bracket t r h)

module _ {E F : Type 0} (read_feature : Reader E → Option (Result E F) × Reader E)
    (show : F → Text) where
  -- A feature's text begins with a byte that is neither white space nor `]`, and `read_feature` reads
  -- the feature off it and no byte more.
  abbrev pub IsFeatureText : Type 0
  IsFeatureText =
      (f : F)
      → ((b : ℕ) × (t : Text) × (show f ≡ b ∷ t)
          × (is_ascii_whitespace b ≡ false)
          × ((b == 93) ≡ false))
        × ((r : Reader E) → read_feature (bytes (show f) ++ r) ≡ (some (ok f), r))

  abbrev pub elements_behind : Text → Elements F → Reader E → Reader E
  elements_behind end [] r = bytes end ++ ok 93 ∷ r
  elements_behind end (e ∷ es) r =
      bytes (e.0) ++ ok 44 ∷ (bytes (show (e.1)) ++ elements_behind end es r)

  abbrev pub elements : Text → Elements F → Reader E → Reader E
  elements end [] r = bytes end ++ ok 93 ∷ r
  elements end (e ∷ es) r = bytes (e.0) ++ (bytes (show (e.1)) ++ elements_behind end es r)

  module _ (text : IsFeatureText) where
    read_feature-show :
        (f : F) (r : Reader E) (state : FcState)
        → read_one_feature read_feature (bytes (show f) ++ r) state ≡ (some (ok f), stream r state)
    unfolding read_one_feature feature_read
    read_feature-show f r state = ap (λ q. feature_read read_feature q state) ((text f).1 r)

    Gives-behind :
        (end : Text) (es : Elements F) (r : Reader E)
        → IsSpaced end es
        → Gives
            (next_feature read_feature)
            (stream (elements_behind end es r) during_features)
            (map ok (features es))
    unfolding next_feature next_of next_in separated
    Gives-behind end [] r (h, hs) =
        Gives-ends (next_feature read_feature)
          (ap (separated read_feature) (next_non_ws-space end 93 r h refl))
    Gives-behind end (e ∷ es) r (h, (he, hs)) =
        Gives-more (next_feature read_feature)
          (ap (separated read_feature) (next_non_ws-space (e.0) 44 _ he refl)
            ∙ read_feature-show (e.1) (elements_behind end es r) during_features)
          (Gives-behind end es r (h, hs))

    first_read :
        (w : Text) (f : F) (r : Reader E)
        → IsSpace w
        → first_peeked read_feature (peek_non_ws (bytes w ++ (bytes (show f) ++ r)))
          ≡ (some (ok f), stream r during_features)
    unfolding first_peeked
    first_read w f r h =
        let (b, t, e, k, k') = (text f).0 in
        ap (λ u. first_peeked read_feature (peek_non_ws (bytes w ++ (bytes u ++ r)))) e
        ∙ ap (first_peeked read_feature) (peek_non_ws-space w b (bytes t ++ r) h k)
        ∙ rw k' refl
        ∙ ap (λ u. read_one_feature read_feature (bytes u ++ r) during_features) (sym e)
        ∙ read_feature-show f r during_features

    -- Where serde_json reads exactly the text of a feature, which begins with neither white space nor
    -- `]`: of bytes without a `[`, then `[`, features with white space and commas between them, and `]`,
    -- whatever follows, the new stream gives the features and then None.
    pub new-Gives :
        (head end : Text) (es : Elements F) (r : Reader E)
        → All (λ b. (b == 91) ≡ false) head
        → IsSpaced end es
        → Gives
            (next_feature read_feature)
            (new (bytes head ++ ok 91 ∷ elements end es r))
            (map ok (features es))
    unfolding new next_feature next_of next_in array_found first_peeked read_byte
    new-Gives head end [] r h (k, ks) = Gives-ends (next_feature read_feature) (
        ap (array_found read_feature) (find_array-bracket head _ h)
        ∙ ap (first_peeked read_feature) (peek_non_ws-space end 93 r k refl))
    new-Gives head end (e ∷ es) r h (k, (ke, ks)) =
        Gives-more (next_feature read_feature)
          (ap (array_found read_feature) (find_array-bracket head _ h)
            ∙ first_read (e.0) (e.1) (elements_behind end es r) ke)
          (Gives-behind end es r (k, ks))
