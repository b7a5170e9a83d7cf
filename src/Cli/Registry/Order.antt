-- ===== src/Cli/Registry/Order.antt =====
-- The order of names.
use shpx.Prelude.{
  Text, ℕ, ◌<◌, ◌≡◌, ◌≢◌, refl, sym, ap, ◌∙◌, arith, [], ◌∷◌, true, false, ltb, ◌==◌, ◌&&◌, ◌||◌,
  ◌⊎◌, inl, inr, Bool-cases,
}
use shpx.Cli.Registry.{leb_text}

-- How two bytes compare decides, unless they are equal.
leb_text-below : (b c : ℕ) (s t : Text) → b < c → leb_text (b ∷ s) (c ∷ t) ≡ true
unfolding leb_text
leb_text-below b c s t h = rw (let e : ltb b c ≡ true = ground arith in e) refl

leb_text-same : (b : ℕ) (s t : Text) → leb_text (b ∷ s) (b ∷ t) ≡ leb_text s t
unfolding leb_text
leb_text-same b s t =
    rw (let e : ltb b b ≡ false = ground arith in e, let e : (b == b) ≡ true = ground arith in e)
      refl

false_is_not_true : false ≢ true
false_is_not_true e = cc

empty_first : (u : Text) → leb_text [] u ≡ true
unfolding leb_text
empty_first u = refl

not_below_empty : (b : ℕ) (s : Text) → leb_text (b ∷ s) [] ≢ true
unfolding leb_text
not_below_empty b s h = cc

leb_text-parts :
    (b c : ℕ) (s t : Text)
    → leb_text (b ∷ s) (c ∷ t) ≡ true
    → (b < c) ⊎ ((b ≡ c) × (leb_text s t ≡ true))
unfolding leb_text
leb_text-parts b c s t h = elim (Bool-cases (ltb b c)) [
  | inl e ↦ inl (ground arith)
  | inr e ↦
      let h' = sym (ap (λ x. x || ((b == c) && leb_text s t)) e) ∙ h in
      elim (Bool-cases (b == c)) [
        | inl e' ↦ inr (ground arith, sym (ap (λ x. x && leb_text s t) e') ∙ h')
        | inr e' ↦ absurd (false_is_not_true (sym (ap (λ x. x && leb_text s t) e') ∙ h'))
      ]
]

pub leb_text_total : (s t : Text) → leb_text s t ≡ false → leb_text t s ≡ true
unfolding leb_text
leb_text_total [] t h = cc
leb_text_total (b ∷ s) [] h = refl
leb_text_total (b ∷ s) (c ∷ t) h = elim (Bool-cases (ltb b c)) [
  | inl e ↦ absurd (false_is_not_true (sym h ∙ leb_text-below b c s t (ground arith)))
  | inr e ↦ elim (Bool-cases (b == c)) [
    | inl e' ↦
        let same : b ≡ c = ground arith in
        ap (λ x. leb_text (c ∷ t) (x ∷ s)) same
        ∙ leb_text-same c t s
        ∙ leb_text_total s t
            (sym (ap (λ x. leb_text (x ∷ s) (c ∷ t)) same ∙ leb_text-same c s t) ∙ h)
    | inr e' ↦ leb_text-below c b t s (ground arith)
  ]
]

pub leb_text_trans :
    (s t u : Text) → leb_text s t ≡ true → leb_text t u ≡ true → leb_text s u ≡ true
leb_text_trans [] t u h k = empty_first u
leb_text_trans (b ∷ s) [] u h k = absurd (not_below_empty b s h)
leb_text_trans (b ∷ s) (c ∷ t) [] h k = absurd (not_below_empty c t k)
leb_text_trans (b ∷ s) (c ∷ t) (d ∷ u) h k = elim (leb_text-parts b c s t h) [
  | inl lt ↦ elim (leb_text-parts c d t u k) [
    | inl lt' ↦ leb_text-below b d s u (omega arith)
    | inr same' ↦ leb_text-below b d s u (omega (arith, same'.0))
  ]
  | inr same ↦ elim (leb_text-parts c d t u k) [
    | inl lt' ↦ leb_text-below b d s u (omega (arith, same.0))
    | inr same' ↦
        ap (λ x. leb_text (x ∷ s) (d ∷ u)) ((same.0) ∙ (same'.0))
        ∙ leb_text-same d s u
        ∙ leb_text_trans s t u (same.1) (same'.1)
  ]
]

pub leb_text_refl : (s : Text) → leb_text s s ≡ true
leb_text_refl [] = empty_first []
leb_text_refl (b ∷ s) = leb_text-same b s s ∙ leb_text_refl s
