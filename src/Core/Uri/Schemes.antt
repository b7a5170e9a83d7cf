-- ===== src/Core/Uri/Schemes.antt =====
-- Which texts are URLs: RFC 3986's scheme and `://`.
use shpx.Prelude.{
  is_ascii_alphabetic, Text, eq_text, to_ascii_lowercase, suc, ℕ, ◌+◌, ◌≡◌, refl, sym, ◌∙◌, ap,
  arith, [], ◌∷◌, ◌++◌, none, some, Bool, true, false, not, ltb, if◌then◌else◌, length, take, drop,
  All, Bool-cases, inl, inr, ◌↔◌, length-append, take-append-drop,
}
use shpx.Core.Uri.{allowed, allowed_run, separator, detect_url_scheme}

abbrev pub IsScheme : Text → Type 0
IsScheme [] = ⊥
IsScheme (b ∷ bs) = (is_ascii_alphabetic b ≡ true) × All (λ c. allowed c ≡ true) bs

-- The text is a URL, of the scheme `t` in lower case.
abbrev pub HasScheme : Text → Text → Type 0
HasScheme s t =
    (scheme : Text) × (rest : Text) × (s ≡ scheme ++ (separator ++ rest))
    × IsScheme scheme
    × (t ≡ to_ascii_lowercase scheme)

pub eq_text-eq : (xs ys : Text) → eq_text xs ys ≡ true → xs ≡ ys
eq_text-eq [] [] e = refl
eq_text-eq [] (y ∷ ys) e = cc
eq_text-eq (x ∷ xs) [] e = cc
eq_text-eq (x ∷ xs) (y ∷ ys) e =
    let same : x ≡ y = ground arith in let rest = eq_text-eq xs ys (ground arith) in cc

allowed_run-append :
    (bs rest : Text)
    → All (λ c. allowed c ≡ true) bs
    → allowed_run (bs ++ (separator ++ rest)) ≡ length bs
unfolding allowed_run
allowed_run-append [] rest h = unfold allowed in refl
allowed_run-append (b ∷ bs) rest (hb, hbs) = rw (hb, allowed_run-append bs rest hbs) (omega arith)

allowed_run-All : (s : Text) → All (λ c. allowed c ≡ true) (take (allowed_run s) s)
unfolding allowed_run
allowed_run-All [] = tt
allowed_run-All (b ∷ rest) = elim (Bool-cases (allowed b)) [
  | inl t ↦ rw t (t, allowed_run-All rest)
  | inr f ↦ rw f tt
]

take-length-append : (xs ys : Text) → take (length xs) (xs ++ ys) ≡ xs
take-length-append [] ys = refl
take-length-append (x ∷ xs) ys = ap (λ zs. x ∷ zs) (take-length-append xs ys)

drop-length-append : (xs ys : Text) → drop (length xs) (xs ++ ys) ≡ ys
drop-length-append [] ys = refl
drop-length-append (x ∷ xs) ys = drop-length-append xs ys

-- A URL is found, with its scheme.
found :
    (scheme rest : Text)
    → IsScheme scheme
    → detect_url_scheme (scheme ++ (separator ++ rest)) ≡ some (to_ascii_lowercase scheme)
unfolding detect_url_scheme
found [] rest h = absurd h
found (b ∷ bs) rest (hb, hbs) =
    rw
      (
        hb,
        allowed_run-append bs rest hbs,
        drop-length-append bs (separator ++ rest),
        take-length-append bs (separator ++ rest),
      )
      (rw
        (let e : ltb (length (b ∷ (bs ++ (separator ++ rest)))) (suc (length bs) + 3) ≡ false =
            ground (arith, length-append bs (separator ++ rest)) in
          e)
        refl)

three_checks :
    (p q r : Bool) (v t : Text)
    → (if not p then none else if q then none else if not r then none else some v) ≡ some t
    → (p ≡ true) × (r ≡ true) × (t ≡ v)
three_checks true false true v t e = (refl, refl, cc)
three_checks true false false v t e = cc
three_checks true true r v t e = cc
three_checks false q r v t e = cc

split_url : (b : ℕ) (rest t : Text) → detect_url_scheme (b ∷ rest) ≡ some t → HasScheme (b ∷ rest) t
unfolding detect_url_scheme
split_url b rest t e =
    let (letter, slashes, lower) =
      three_checks (is_ascii_alphabetic b) (ltb (length (b ∷ rest)) (suc (allowed_run rest) + 3))
        (eq_text (take 3 behind) separator) (to_ascii_lowercase (b ∷ front)) t e in
    (
      b ∷ front,
      drop 3 behind,
      ap (λ s. b ∷ s)
          (sym (take-append-drop (allowed_run rest) rest)
            ∙ ap (λ s. front ++ s)
                (sym (take-append-drop 3 behind)
                  ∙ ap (λ s. s ++ drop 3 behind) (eq_text-eq (take 3 behind) separator slashes))),
      (letter, allowed_run-All rest),
      lower,
    )
  where
    front : Text
    front = take (allowed_run rest) rest

    behind : Text
    behind = drop (allowed_run rest) rest

-- `detect_url_scheme` finds the scheme `t` exactly where the text is a scheme of RFC 3986, then
-- `://`, then anything, and `t` is that scheme in lower case.
pub detect_url_scheme-iff-HasScheme : (s t : Text) → (detect_url_scheme s ≡ some t) ↔ HasScheme s t
unfolding detect_url_scheme
detect_url_scheme-iff-HasScheme s t = (split s, joined)
  where
    split : (s' : Text) → detect_url_scheme s' ≡ some t → HasScheme s' t
    split [] e = cc
    split (b ∷ rest) e = split_url b rest t e

    joined : HasScheme s t → detect_url_scheme s ≡ some t
    joined (scheme, rest, e, h, lower) =
        ap detect_url_scheme e ∙ found scheme rest h ∙ ap some (sym lower)
