-- ===== src/Geojson/Stream.antt =====
-- crates/shpx-driver-geojson/src/stream.rs: features one by one. A reader is what is left of its
-- bytes, of which a read may fail. `read_feature` stands for the next value of serde_json's
-- `into_iter::<Feature>` on a reader, `from_str` for its `from_str::<Feature>`, and `trim` is the one of `str`.
pub mod Fused
pub mod Collection
pub mod Lines
mod Runs
use shpx.Prelude.{
  Text, ℕ, suc, ◌+◌, ◌≡◌, List, [], ◌∷◌, Option, none, some, Bool, true, false, Result, ok, err,
  leb, ◌==◌, ◌&&◌, ◌||◌, if◌then◌else◌,
}

-- The errors: of a read, of serde_json, and the messages of the stream.
pub data StreamError (E : Type 0) : Type 0 where
  io : E → StreamError E
  no_array : StreamError E
  eof_in_array : StreamError E
  missing_end : StreamError E
  expected_comma : ℕ → StreamError E
  bad_feature : E → StreamError E
  bad_line : ℕ → E → StreamError E

abbrev pub Reader : Type 0 → Type 0
Reader E = List (Result E ℕ)

pub data FcState : Type 0 where
  before_features first_element during_features ended : FcState

pub record FcFeatureStream (E : Type 0) : Type 0 where
  pub reader : Option (Reader E)
  pub state : FcState

-- What an iterator gives until its first `None`.
pub data Gives {X S : Type 0} (next : S → Option X × S) : S → List X → Type 0 where
  ends : {s : S} → (next s).0 ≡ none → Gives next s []
  more :
      {s : S} {x : X} {xs : List X}
      → (next s).0 ≡ some x
      → Gives next ((next s).1) xs
      → Gives next s (x ∷ xs)

-- `b.is_ascii_whitespace()`
abbrev pub is_ascii_whitespace : ℕ → Bool
is_ascii_whitespace b = b == 32 || (b == 9 || (b == 10 || (b == 12 || b == 13)))

-- `Option<Result<Feature>>`
abbrev pub Item : Type 0 → Type 0 → Type 0
Item E F = Option (Result (StreamError E) F)

module _ {E : Type 0} where
  unfoldable pub new : Reader E → FcFeatureStream E
  new reader = record { reader = some reader; state = before_features }

  unfoldable pub read_byte : Reader E → Result E (Option ℕ) × Reader E
  read_byte [] = (ok none, [])
  read_byte (ok b ∷ reader) = (ok (some b), reader)
  read_byte (err e ∷ reader) = (err e, reader)

  -- The loop of `next_non_ws`: white space is read, and what follows it too.
  unfoldable pub next_non_ws : Reader E → Result E (Option ℕ) × Reader E
  next_non_ws [] = (ok none, [])
  next_non_ws (ok b ∷ reader) =
      let rest = next_non_ws reader in if is_ascii_whitespace b then rest else (ok (some b), reader)
  next_non_ws (err e ∷ reader) = (err e, reader)

  -- What follows the white space is not read, unless its read fails.
  unfoldable pub peek_non_ws : Reader E → Result E (Option ℕ) × Reader E
  peek_non_ws [] = (ok none, [])
  peek_non_ws (ok b ∷ reader) =
      let rest = peek_non_ws reader in
      if is_ascii_whitespace b then rest else (ok (some b), ok b ∷ reader)
  peek_non_ws (err e ∷ reader) = (err e, reader)

  -- The loop of `BeforeFeatures`: whether a `[` was found.
  unfoldable pub find_array : Reader E → Result E Bool × Reader E
  find_array [] = (ok false, [])
  find_array (ok b ∷ reader) =
      let rest = find_array reader in if b == 91 then (ok true, reader) else rest
  find_array (err e ∷ reader) = (err e, reader)

  abbrev pub stream : Reader E → FcState → FcFeatureStream E
  stream reader state = record { reader = some reader; state = state }

  module _ {F : Type 0} (read_feature : Reader E → Option (Result E F) × Reader E) where
    unfoldable pub feature_read :
        Option (Result E F) × Reader E → FcState → Item E F × FcFeatureStream E
    feature_read (some (ok f), reader) state = (some (ok f), stream reader state)
    feature_read (some (err e), reader) state = (some (err (bad_feature e)), stream reader ended)
    feature_read (none, reader) state = (none, stream reader ended)

    unfoldable pub read_one_feature : Reader E → FcState → Item E F × FcFeatureStream E
    unfolding feature_read
    read_one_feature reader state = feature_read (read_feature reader) state

    unfoldable pub first_peeked : Result E (Option ℕ) × Reader E → Item E F × FcFeatureStream E
    unfolding read_byte read_one_feature
    first_peeked (ok (some b), reader) =
        if b == 93
        then (none, stream ((read_byte reader).1) ended)
        else read_one_feature reader during_features
    first_peeked (ok none, reader) = (some (err eof_in_array), stream reader ended)
    first_peeked (err e, reader) = (some (err (io e)), stream reader ended)

    unfoldable pub array_found : Result E Bool × Reader E → Item E F × FcFeatureStream E
    unfolding peek_non_ws first_peeked
    array_found (ok true, reader) = first_peeked (peek_non_ws reader)
    array_found (ok false, reader) = (some (err no_array), stream reader ended)
    array_found (err e, reader) = (some (err (io e)), stream reader ended)

    unfoldable pub separated : Result E (Option ℕ) × Reader E → Item E F × FcFeatureStream E
    unfolding read_one_feature
    separated (ok (some b), reader) =
        if b == 44
        then read_one_feature reader during_features
        else if b == 93
        then (none, stream reader ended)
        else (some (err (expected_comma b)), stream reader ended)
    separated (ok none, reader) = (some (err missing_end), stream reader ended)
    separated (err e, reader) = (some (err (io e)), stream reader ended)

    unfoldable pub next_in : Reader E → FcState → Item E F × FcFeatureStream E
    unfolding find_array array_found peek_non_ws first_peeked next_non_ws separated
    next_in reader before_features = array_found (find_array reader)
    next_in reader first_element = first_peeked (peek_non_ws reader)
    next_in reader during_features = separated (next_non_ws reader)
    next_in reader ended = (none, record { reader = none; state = ended })

    unfoldable pub next_of : FcFeatureStream E → Option (Reader E) → Item E F × FcFeatureStream E
    unfolding next_in
    next_of s none = (none, s)
    next_of s (some reader) = next_in reader s.state

    unfoldable pub next_feature : FcFeatureStream E → Item E F × FcFeatureStream E
    unfolding next_of
    next_feature s = next_of s s.reader

-- The lines that are left, how many were read, and whether a read has failed.
pub record NdjsonStream (E : Type 0) : Type 0 where
  pub lines : List (Result E Text)
  pub lineno : ℕ
  pub done : Bool

-- `trimmed.is_empty() || trimmed.starts_with('#')`
abbrev pub is_skipped : Text → Bool
is_skipped [] = true
is_skipped (b ∷ rest) = b == 35

-- `trimmed.strip_prefix('\u{feff}').unwrap_or(trimmed)`
abbrev pub without_bom : Text → Text
without_bom (a ∷ b ∷ c ∷ rest) =
    if a == 239 && (b == 187 && c == 191) then rest else a ∷ b ∷ c ∷ rest
without_bom (a ∷ b ∷ []) = a ∷ b ∷ []
without_bom (a ∷ []) = a ∷ []
without_bom [] = []

module _ {E F : Type 0} (trim : Text → Text) (from_str : Text → Result E F) where
  -- `parsed.map_err(..)`
  unfoldable pub at_line : ℕ → Result E F → Result (StreamError E) F
  at_line lineno (ok f) = ok f
  at_line lineno (err e) = err (bad_line lineno e)

  unfoldable pub next_line :
      List (Result E Text) → ℕ → Option (Result (StreamError E) F) × NdjsonStream E
  unfolding at_line
  next_line [] lineno = (none, record { lines = []; lineno = lineno; done = false })
  next_line (err e ∷ lines) lineno =
      (some (err (io e)), record { lines = lines; lineno = lineno; done = true })
  next_line (ok raw ∷ lines) lineno =
      let skipped = next_line lines (suc lineno) in
      if is_skipped (trim raw) then skipped else (
        some (at_line (suc lineno) (from_str (without_bom (trim raw)))),
        record { lines = lines; lineno = suc lineno; done = false },
      )

  unfoldable pub next_ndjson : NdjsonStream E → Option (Result (StreamError E) F) × NdjsonStream E
  unfolding next_line
  next_ndjson s = if s.done then (none, s) else next_line s.lines s.lineno
