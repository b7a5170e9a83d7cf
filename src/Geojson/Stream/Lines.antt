-- ===== src/Geojson/Stream/Lines.antt =====
-- The features of newline-delimited GeoJSON.
use shpx.Prelude.{
  Text, ℕ, suc, ◌≡◌, refl, sym, ap, ◌∙◌, subst, List, [], ◌∷◌, Option, none, some, true, false,
  Result, ok, err, if◌then◌else◌, Bool-cases, inl, inr,
}
use shpx.Geojson.Stream.{
  StreamError, io, NdjsonStream, Gives, ends, more, is_skipped, without_bom, at_line, next_line,
  next_ndjson,
}
use shpx.Geojson.Stream.Collection.{Gives-ends, Gives-more}

abbrev pub at : {E : Type 0} → List (Result E Text) → ℕ → NdjsonStream E
at lines lineno = record { lines = lines; lineno = lineno; done = false }

-- Two states from which `next` does the same.
Gives-same :
    {X S : Type 0} (next : S → Option X × S) {s s' : S} {xs : List X}
    → next s ≡ next s'
    → Gives next s' xs
    → Gives next s xs
Gives-same next e (ends h) = ends (ap (λ r. r.0) e ∙ h)
Gives-same next e (more {xs} h g) =
    more (ap (λ r. r.0) e ∙ h) (subst (λ r. Gives next (r.1) xs) (sym e) g)

module _ {E F : Type 0} (trim : Text → Text) (from_str : Text → Result E F) where
  -- The lines that are no comments, each parsed, up to the first read that fails.
  abbrev pub records : ℕ → List (Result E Text) → List (Result (StreamError E) F)
  records lineno [] = []
  records lineno (err e ∷ lines) = err (io e) ∷ []
  records lineno (ok raw ∷ lines) =
      if is_skipped (trim raw)
      then records (suc lineno) lines
      else (at_line trim from_str (suc lineno) (from_str (without_bom (trim raw)))
          ∷ records (suc lineno) lines)

  next-at :
      (lines : List (Result E Text)) (lineno : ℕ)
      → next_ndjson trim from_str (at lines lineno) ≡ next_line trim from_str lines lineno
  unfolding next_ndjson
  next-at lines lineno = refl

  next-done :
      (lines : List (Result E Text)) (lineno : ℕ)
      → next_ndjson trim from_str (record { lines = lines; lineno = lineno; done = true })
        ≡ (none, record { lines = lines; lineno = lineno; done = true })
  unfolding next_ndjson
  next-done lines lineno = refl

  line_read :
      (raw : Text) (lines : List (Result E Text)) (lineno : ℕ)
      → is_skipped (trim raw) ≡ false
      → next_line trim from_str (ok raw ∷ lines) lineno ≡ (
        some (at_line trim from_str (suc lineno) (from_str (without_bom (trim raw)))),
        at lines (suc lineno),
      )
  unfolding next_line
  line_read raw lines lineno e = rw e refl

  line_skipped :
      (raw : Text) (lines : List (Result E Text)) (lineno : ℕ)
      → is_skipped (trim raw) ≡ true
      → next_line trim from_str (ok raw ∷ lines) lineno ≡ next_line trim from_str lines (suc lineno)
  unfolding next_line
  line_skipped raw lines lineno e = rw e refl

  -- The stream gives every line that is no comment, parsed, with its number in the file where that
  -- fails, and goes on behind it; a read that fails is the last that it gives before None.
  pub next_ndjson-Gives :
      (lines : List (Result E Text)) (lineno : ℕ)
      → Gives (next_ndjson trim from_str) (at lines lineno) (records lineno lines)
  unfolding next_line
  next_ndjson-Gives [] lineno = Gives-ends (next_ndjson trim from_str) (next-at [] lineno)
  next_ndjson-Gives (err e ∷ lines) lineno =
      Gives-more (next_ndjson trim from_str) (next-at (err e ∷ lines) lineno)
        (Gives-ends (next_ndjson trim from_str) (next-done lines lineno))
  next_ndjson-Gives (ok raw ∷ lines) lineno = elim (Bool-cases (is_skipped (trim raw))) [
    | inl e ↦ rw e (
        Gives-same (next_ndjson trim from_str)
          (next-at (ok raw ∷ lines) lineno
            ∙ line_skipped raw lines lineno e
            ∙ sym (next-at lines (suc lineno)))
          (next_ndjson-Gives lines (suc lineno)))
    | inr e ↦ rw e (
        Gives-more (next_ndjson trim from_str)
          (next-at (ok raw ∷ lines) lineno ∙ line_read raw lines lineno e)
          (next_ndjson-Gives lines (suc lineno)))
  ]
