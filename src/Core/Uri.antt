-- ===== src/Core/Uri.antt =====
-- crates/shpx-core/src/uri.rs: paths and URLs of the command line, as their UTF-8 bytes.
-- `extension` stands for the extension of a path as `std::path` finds it.
pub mod Schemes
mod Runs
use shpx.Prelude.{
  Text, eq_text, to_ascii_lowercase, is_ascii_alphabetic, ℕ, suc, ◌+◌, List, [], ◌∷◌, Option, none,
  some, Bool, true, false, not, ltb, leb, ◌==◌, ◌&&◌, ◌||◌, if◌then◌else◌, length, take, drop,
}

pub record Uri : Type 0 where
  pub scheme : Text
  pub raw : Text

abbrev is_ascii_alphanumeric : ℕ → Bool
is_ascii_alphanumeric b = is_ascii_alphabetic b || (leb 48 b && leb b 57)

-- A byte that may stand behind the first of a scheme: also `+`, `-` and `.`.
unfoldable pub allowed : ℕ → Bool
allowed b = is_ascii_alphanumeric b || (b == 43 || (b == 45 || b == 46))

-- The loop over `i`: how many of the bytes are allowed before the first that is not.
unfoldable pub allowed_run : Text → ℕ
unfolding allowed
allowed_run [] = 0
allowed_run (b ∷ rest) = let more = allowed_run rest in if not (allowed b) then 0 else suc more

-- `b"://"`
abbrev pub separator : Text
separator = 58 ∷ 47 ∷ 47 ∷ []

unfoldable pub detect_url_scheme : Text → Option Text
unfolding allowed_run
detect_url_scheme [] = none
detect_url_scheme (first ∷ rest) =
    let s = first ∷ rest in
    let i = suc (allowed_run rest) in
    if not (is_ascii_alphabetic first)
    then none
    else if ltb (length s) (i + 3)
    then none
    else if not (eq_text (take 3 (drop i s)) separator)
    then none
    else some (to_ascii_lowercase (take i s))

abbrev pub pg : Text
pg = 112 ∷ 103 ∷ []

abbrev pub postgres : Text
postgres = 112 ∷ 111 ∷ 115 ∷ 116 ∷ 103 ∷ 114 ∷ 101 ∷ 115 ∷ []

abbrev pub postgresql : Text
postgresql = 112 ∷ 111 ∷ 115 ∷ 116 ∷ 103 ∷ 114 ∷ 101 ∷ 115 ∷ 113 ∷ 108 ∷ []

unfoldable pub normalize_scheme : Text → Text
normalize_scheme scheme =
    if eq_text scheme postgres || eq_text scheme postgresql then pg else scheme

abbrev or_empty : Option Text → Text
or_empty none = []
or_empty (some t) = t

module _ (extension : Text → Option Text) where
  unfoldable pub from_path : Text → Uri
  unfolding detect_url_scheme normalize_scheme
  from_path raw = elim (detect_url_scheme raw) [
    | some scheme ↦ record { scheme = normalize_scheme scheme; raw = raw }
    | none ↦ record { scheme = to_ascii_lowercase (or_empty (extension raw)); raw = raw }
  ]

unfoldable pub is_url : Uri → Bool
unfolding detect_url_scheme
is_url uri = elim (detect_url_scheme uri.raw) [ some scheme ↦ true | none ↦ false ]
