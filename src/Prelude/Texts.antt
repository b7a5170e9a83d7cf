-- ===== src/Prelude/Texts.antt =====
-- Strings as their UTF-8 bytes.
use Prim.Native.Nat.{ℕ, ◌+◌, ◌-◌}
use mathlib.Core.Bool.{Bool, true, false, ◌&&◌, ◌||◌}
use mathlib.Core.List.{List, [], ◌∷◌}
use Prim.Native.Char.{code}
use Prim.Native.String.{String}
use shpx.Prelude.Tests.{◌==◌, leb, if◌then◌else◌}

abbrev pub Text : Type 0
Text = List ℕ

abbrev pub eq_text : Text → Text → Bool
eq_text [] [] = true
eq_text [] (y ∷ ys) = false
eq_text (x ∷ xs) [] = false
eq_text (x ∷ xs) (y ∷ ys) = (x == y) && eq_text xs ys

abbrev pub to_ascii_lowercase : Text → Text
to_ascii_lowercase [] = []
to_ascii_lowercase (b ∷ rest) =
    (if leb 65 b && leb b 90 then b + 32 else b) ∷ to_ascii_lowercase rest

abbrev pub to_ascii_uppercase : Text → Text
to_ascii_uppercase [] = []
to_ascii_uppercase (b ∷ rest) =
    (if leb 97 b && leb b 122 then b - 32 else b) ∷ to_ascii_uppercase rest

abbrev pub is_ascii_alphabetic : ℕ → Bool
is_ascii_alphabetic b = (leb 65 b && leb b 90) || (leb 97 b && leb b 122)

abbrev pub is_ascii_digit : ℕ → Bool
is_ascii_digit b = leb 48 b && leb b 57

-- The bytes of a text of ASCII.
abbrev pub codes : String → Text
codes String.[] = []
codes (String.◌∷◌ c s) = code c ∷ codes s

-- `&str` patterns of a `match`, and `iter().any(|t| t == s)`.
abbrev pub is_one_of : List Text → Text → Bool
is_one_of [] s = false
is_one_of (t ∷ ts) s = eq_text t s || is_one_of ts s
