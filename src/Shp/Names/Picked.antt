-- ===== src/Shp/Names/Picked.antt =====
-- What `truncate_at_char_boundary` and `pick_dbf_name` return.
use shpx.Prelude.{
  Text, ℕ, zero, suc, ◌+◌, ◌-◌, ◌/◌, ◌%◌, ◌≤◌, ◌<◌, ◌≡◌, refl, ◌∙◌, ap, subst, ◌==◌, arith, List,
  [], ◌∷◌, ◌++◌, append-nil, true, false, Result, ok, ltb, leb, ◌&&◌, not, if◌then◌else◌, length,
  take, drop, Ensures, holds, fails, Ensures-if, Ensures-map, Bool-cases, ◌⊎◌, inl, inr,
  length-append, length-take, take-append-drop,
}
use shpx.Prelude.Outcome.{◌>>=◌}
use shpx.Shp.Loss.{
  OnLoss, PlanError, apply_on_loss, dbf_name_truncation, no_unique_name, error, warn, skip, on_loss,
}
use shpx.Shp.Names.{
  contains, begins_char, boundary_at_most, truncate_at_char_boundary, decimal, to_string, candidate,
  pick_numbered, pick_truncated, pick_dbf_name, dbf_name_max_bytes,
}

-- The last character boundary up to `end`, in a text that begins with a character.
abbrev pub IsBoundary : Text → ℕ → ℕ → Type 0
IsBoundary s end k =
    (k ≤ end)
    × (begins_char (drop k s) ≡ true)
    × ((j : ℕ) → j ≤ end → begins_char (drop j s) ≡ true → j ≤ k)

not_last :
    (s : Text) (end j : ℕ)
    → j ≤ suc end
    → begins_char (drop j s) ≡ true
    → begins_char (drop (suc end) s) ≡ false
    → j ≤ end
not_last s end j le b f = elim (Bool-cases (leb j end)) [
  | inl t ↦ ground arith
  | inr g ↦ let e : j ≡ suc end = ground arith in let e' = ap (λ k. begins_char (drop k s)) e in cc
]

boundary_at_most-IsBoundary :
    (s : Text) (end : ℕ) → begins_char s ≡ true → IsBoundary s end (boundary_at_most s end)
unfolding boundary_at_most
boundary_at_most-IsBoundary s zero h = (omega arith, h, λ j le _. omega arith)
boundary_at_most-IsBoundary s (suc end) h =
    let (le, here, most) = boundary_at_most-IsBoundary s end h in
    elim (Bool-cases (begins_char (drop (suc end) s))) [
      | inl t ↦ rw t (omega arith, t, λ j le' _. omega arith)
      | inr f ↦ rw f (omega arith, here, λ j le' b. most j (not_last s end j le' b f) b)
    ]

boundary_at_most-le : (s : Text) (end : ℕ) → boundary_at_most s end ≤ end
unfolding boundary_at_most
boundary_at_most-le s zero = omega arith
boundary_at_most-le s (suc end) = elim (Bool-cases (begins_char (drop (suc end) s))) [
  | inl t ↦ rw t (omega arith)
  | inr f ↦ rw f (omega (arith, boundary_at_most-le s end))
]

length-take-le : (n : ℕ) (s : Text) → length (take n s) ≤ n
length-take-le zero s = omega arith
length-take-le (suc n) [] = omega arith
length-take-le (suc n) (b ∷ s) = omega (arith, length-take-le n s)

-- The longest prefix of at most `max_bytes` bytes that ends where a character begins.
abbrev pub IsTruncated : Text → ℕ → Text → Type 0
IsTruncated s max_bytes r =
    (length r ≤ max_bytes)
    × (r ++ drop (length r) s ≡ s)
    × (begins_char (drop (length r) s) ≡ true)
    × ((j : ℕ) → j ≤ max_bytes → j ≤ length s → begins_char (drop j s) ≡ true → j ≤ length r)

drop-all : (s : Text) → drop (length s) s ≡ []
drop-all [] = refl
drop-all (b ∷ s) = drop-all s

-- `truncate_at_char_boundary` of a text that begins with a character is its longest prefix of at
-- most `max_bytes` bytes behind which a character begins or nothing is left.
pub truncate_at_char_boundary-IsTruncated :
    (s : Text) (max_bytes : ℕ)
    → begins_char s ≡ true
    → IsTruncated s max_bytes (truncate_at_char_boundary s max_bytes)
unfolding truncate_at_char_boundary
truncate_at_char_boundary-IsTruncated s max_bytes h = elim (Bool-cases (leb (length s) max_bytes)) [
  | inl t ↦ rw t (
    ground arith,
    ap (λ r. s ++ r) (drop-all s) ∙ append-nil s,
    ap begins_char (drop-all s),
    λ j le le' b. le',
  )
  | inr f ↦
      let (le, here, most) = boundary_at_most-IsBoundary s max_bytes h in
      let n : length (take (boundary_at_most s max_bytes) s) ≡ boundary_at_most s max_bytes =
        length-take _ s (ground arith) in
      rw (f, n) (le, take-append-drop _ s, here, λ j le _ b. most j le b)
]

truncate-length :
    (s : Text) (max_bytes : ℕ) → length (truncate_at_char_boundary s max_bytes) ≤ max_bytes
unfolding truncate_at_char_boundary
truncate-length s max_bytes = elim (Bool-cases (leb (length s) max_bytes)) [
  | inl t ↦ rw t (ground arith)
  | inr f ↦ rw f (
      omega
        (arith, length-take-le (boundary_at_most s max_bytes) s, boundary_at_most-le s max_bytes))
]

length-decimal : (digits n : ℕ) → length (decimal digits n) ≤ digits
unfolding decimal
length-decimal zero n = omega arith
length-decimal (suc digits) n = elim (Bool-cases (ltb n 10)) [
  | inl t ↦ rw t (omega arith)
  | inr f ↦ rw f (
      omega (
        arith,
        length-append (decimal digits (n / 10)) ((48 + n % 10) ∷ []),
        length-decimal digits (n / 10),
      ))
]

length-to_string : (n : ℕ) → length (to_string n) ≤ 4
unfolding to_string
length-to_string n = length-decimal 4 n

length-candidate : (base : Text) (n : ℕ) → length (candidate base n) ≤ dbf_name_max_bytes
unfolding candidate
length-candidate base n = omega (
  arith,
  length-append (truncate_at_char_boundary base (10 - length (to_string n))) (to_string n),
  truncate-length base (10 - length (to_string n)),
  length-to_string n,
)

-- A name for a DBF field beside the used ones.
abbrev pub IsFree : List Text → Text → Type 0
IsFree used name = (length name ≤ dbf_name_max_bytes) × (contains used name ≡ false)

-- The truncated name is used, and so is each one with a number from 1 to 9999 at its end.
abbrev pub IsExhausted : List Text → Text → Type 0
IsExhausted used original =
    let base = truncate_at_char_boundary original dbf_name_max_bytes in
    (contains used base ≡ true)
    × ((n : ℕ) → 1 ≤ n → n ≤ 9999 → contains used (candidate base n) ≡ true)

-- What an error of `pick_dbf_name` means.
abbrev pub PickFault : List Text → Text → OnLoss → PlanError → Type 0
PickFault used original mode e =
    ((e ≡ on_loss dbf_name_truncation original)
      × (mode ≡ error)
      × (dbf_name_max_bytes < length original))
    ⊎ ((e ≡ no_unique_name original) × IsExhausted used original)

unless_used :
    (used : List Text) (Q : PlanError → Type 0) (name : Text) (other : Result PlanError Text)
    → length name ≤ dbf_name_max_bytes
    → (contains used name ≡ true → Ensures (IsFree used) Q other)
    → Ensures (IsFree used) Q (if not (contains used name) then ok name else other)
unless_used used Q name other le h =
    Ensures-if _ _ (not (contains used name)) _ _ (λ e. holds (le, ground arith))
      (λ e. h (ground arith))

-- The candidates of `rounds` rounds from `n` on are used.
abbrev AllUsed : Text → List Text → ℕ → ℕ → Type 0
AllUsed base used rounds n =
    (m : ℕ) → n ≤ m → m < n + rounds → contains used (candidate base m) ≡ true

one_more :
    (base : Text) (used : List Text) (rounds n : ℕ)
    → contains used (candidate base n) ≡ true
    → AllUsed base used rounds (n + 1)
    → AllUsed base used (suc rounds) n
one_more base used rounds n here behind m le lt = elim (Bool-cases (n == m)) [
  | inl t ↦
      subst (λ k. contains used (candidate base k) ≡ true) (let e : n ≡ m = ground arith in e) here
  | inr f ↦ behind m (ground arith) (omega arith)
]

pick_numbered-Ensures :
    (original base : Text) (used : List Text) (rounds n : ℕ)
    → Ensures
        (IsFree used)
        (λ e. (e ≡ no_unique_name original) × AllUsed base used rounds n)
        (pick_numbered original base used rounds n)
unfolding pick_numbered
pick_numbered-Ensures original base used zero n = fails (refl, λ m le lt. absurd (omega arith))
pick_numbered-Ensures original base used (suc rounds) n =
    unless_used used _ (candidate base n) _ (length-candidate base n) (λ taken.
      Ensures-map (pick_numbered-Ensures original base used rounds (n + 1)) (λ name h. h)
        (λ e h. (h.0, one_more base used rounds n taken h.1)))

pick_truncated-Ensures :
    (original : Text) (used : List Text)
    → Ensures
        (IsFree used)
        (λ e. (e ≡ no_unique_name original) × IsExhausted used original)
        (pick_truncated original used)
unfolding pick_truncated
pick_truncated-Ensures original used =
    let base = truncate_at_char_boundary original dbf_name_max_bytes in
    unless_used used _ base _ (truncate-length original 10) (λ taken.
      Ensures-map (pick_numbered-Ensures original base used 9999 1) (λ name h. h)
        (λ e h. (h.0, (taken, λ n le le'. h.1 n le (omega arith)))))

-- `pick_dbf_name` returns a name of at most 10 bytes that is not used, or fails because a name of
-- more than 10 bytes meets `OnLoss::Error`, or because the truncated name and each one that ends in
-- a number from 1 to 9999 are used.
pub pick_dbf_name-Ensures :
    (original : Text) (used : List Text) (mode : OnLoss)
    → Ensures (IsFree used) (PickFault used original mode) (pick_dbf_name original used mode)
unfolding pick_dbf_name apply_on_loss
pick_dbf_name-Ensures original used mode =
    Ensures-if _ _ (leb (length original) 10 && not (contains used original)) _ _
      (λ e. holds (ground arith, ground arith))
      (λ _.
        Ensures-if _ _ (ltb 10 (length original)) _ _ (λ e. long mode (ground arith))
          (λ _. truncated mode))
  where
    truncated :
        (m : OnLoss)
        → Ensures (IsFree used) (PickFault used original m) (pick_truncated original used)
    truncated m = Ensures-map (pick_truncated-Ensures original used) (λ name h. h) (λ e h. inr h)

    long :
        (m : OnLoss)
        → 10 < length original
        → Ensures
            (IsFree used)
            (PickFault used original m)
            (apply_on_loss dbf_name_truncation original m >>= λ _. pick_truncated original used)
    long error h = fails (inl (refl, refl, h))
    long warn h = truncated warn
    long skip h = truncated skip
