-- ===== src/Geom/Cursor/Spends.antt =====
-- What a reader that succeeds has consumed, and that it fails for a reason of the program.
use shpx.Prelude.{
  ℕ, ◌+◌, ◌-◌, ◌*◌, ◌^◌, ◌≤◌, ◌<◌, ◌≡◌, ◌≢◌, refl, sym, ◌∙◌, ap, subst, arith, ok, err, Bool,
  Ensures, holds, fails, Ensures-ok, Ensures-err, Ensures-map, length, take, drop, All, All-take,
  All-drop, length-take, length-drop, ltb, false, Bool-cases, inl, inr,
}
use shpx.Geom.Types.{Fault, IsF64, IsCoord, out_of_fuel}
use shpx.Geom.Bytes.{IsByte, from_bytes, from_bytes-lt}
use shpx.Geom.Cursor.Defs.{
  Cursor, Reader, pure, fail, and_then, ◌>>=◌, remaining, ensure_remaining_for, take_bytes,
  take_byte, read_u32, read_f64, read_coord,
}

abbrev pub IsValid : Cursor → Type 0
IsValid c = All IsByte c.bytes × (c.pos ≤ length c.bytes)

-- `a` was read with `n` bytes, of which `R` speaks, and the cursor stands `n` bytes further on.
abbrev pub Spent : {A : Type 0} → Cursor → (A → ℕ → Type 0) → A × Cursor → Type 0
Spent c R (a, c') =
    (n : ℕ) × R a n × (c'.bytes ≡ c.bytes) × (c'.pos ≡ c.pos + n) × (c'.pos ≤ length c.bytes)

-- From any cursor with fewer than `limit` bytes before it.
abbrev pub Spends : {A : Type 0} → ℕ → Reader A → (A → ℕ → Type 0) → Type 0
Spends limit p R =
    (c : Cursor)
    → IsValid c
    → length c.bytes < c.pos + limit
    → Ensures (Spent c R) (λ e. e ≢ out_of_fuel) (p c)

pub Spends-pure :
    {A : Type 0} (limit : ℕ) (a : A) (R : A → ℕ → Type 0) → R a 0 → Spends limit (pure a) R
Spends-pure limit a R r c v h = holds (0, r, refl, omega arith, v.1)

pub Spends-fail :
    {A : Type 0} (limit : ℕ) (e : Fault) (R : A → ℕ → Type 0)
    → e ≢ out_of_fuel
    → Spends limit (fail e) R
Spends-fail limit e R ne c v h = fails ne

pub Spends-bind :
    {A B : Type 0} (limit : ℕ) (p : Reader A) (f : A → Reader B) (R : A → ℕ → Type 0)
    (S : B → ℕ → Type 0)
    → Spends limit p R
    → ((a : A) (n : ℕ) → R a n → Spends (limit - n) (f a) (λ b m. S b (n + m)))
    → Spends limit (p >>= f) S
Spends-bind limit p f R S hp hf c v h = go (p c) (hp c v h)
  where
    after :
        (a : _) (c' : Cursor) (n : ℕ)
        → R a n
        → c'.bytes ≡ c.bytes
        → c'.pos ≡ c.pos + n
        → c'.pos ≤ length c.bytes
        → Ensures (Spent c S) (λ e. e ≢ out_of_fuel) (f a c')
    after a c' n r same at in_range =
        Ensures-map
          (hf a n r c' (subst (All IsByte) (sym same) v.0, omega (arith, ap length same))
            (omega (arith, ap length same)))
          (λ (b, c'') (m, s, same', at', in_range').
            (n + m, s, same' ∙ same, omega arith, omega (arith, ap length same)))
          (λ e ne. ne)

    go :
        (r : _)
        → Ensures (Spent c R) (λ e. e ≢ out_of_fuel) r
        → Ensures (Spent c S) (λ e. e ≢ out_of_fuel) (and_then r f)
    go (ok (a, c')) e =
        let (n, r, same, at, in_range) = Ensures-ok e refl in after a c' n r same at in_range
    go (err x) e = fails (Ensures-err e refl)

-- A reader whose result is all that its caller needs to know.
pub Spends-map :
    {A B : Type 0} (limit : ℕ) (p : Reader A) (f : A → B) (R : A → ℕ → Type 0) (S : B → ℕ → Type 0)
    → Spends limit p R
    → ((a : A) (n : ℕ) → R a n → S (f a) n)
    → Spends limit (p >>= λ a. pure (f a)) S
Spends-map limit p f R S hp hf = Spends-bind limit p _ R S hp (λ a n r.
    Spends-pure (limit - n) (f a) _
      (subst (S (f a)) (let e : n ≡ n + 0 = omega arith in e) (hf a n r)))

pub Spends-conv :
    {A : Type 0} (limit : ℕ) (p : Reader A) (R S : A → ℕ → Type 0)
    → Spends limit p R
    → ((a : A) (n : ℕ) → R a n → S a n)
    → Spends limit p S
Spends-conv limit p R S hp k c v h =
    Ensures-map (hp c v h) (λ (a, c') (n, r, same, at, in_range). (n, k a n r, same, at, in_range))
      (λ e ne. ne)

pub Spends-weaken :
    {A : Type 0} (limit limit' : ℕ) (p : Reader A) (R : A → ℕ → Type 0)
    → limit' ≤ limit
    → Spends limit p R
    → Spends limit' p R
Spends-weaken limit limit' p R le hp c v h = hp c v (omega arith)

pub Spends-take :
    (limit n : ℕ) → Spends limit (take_bytes n) (λ s m. All IsByte s × (length s ≡ n) × (m ≡ n))
unfolding take_bytes
Spends-take limit n c v h = elim (Bool-cases (ltb (c.pos + n) (2 ^ 64))) [
  | inr large ↦ rw large (fails (λ e. cc))
  | inl small ↦ elim (Bool-cases (ltb (length c.bytes) (c.pos + n))) [
    | inl past ↦ rw (small, past) (fails (λ e. cc))
    | inr within ↦
        rw (small, within) (holds (n, (bytes, size within, refl), refl, refl, ground arith))
  ]
]
  where
    bytes : All IsByte (take n (drop c.pos c.bytes))
    bytes = All-take IsByte n _ (All-drop IsByte c.pos c.bytes v.0)

    size : ltb (length c.bytes) (c.pos + n) ≡ false → length (take n (drop c.pos c.bytes)) ≡ n
    size within = length-take n _ (ground (arith, length-drop c.pos c.bytes))

pub Spends-take_byte : (limit : ℕ) → Spends limit take_byte (λ b m. m ≡ 1)
unfolding take_byte
Spends-take_byte limit = Spends-map limit (take_bytes 1) _ _ _ (Spends-take limit 1) (λ a n r. r.2)

pub Spends-read_u32 :
    (limit : ℕ) (little : Bool) → Spends limit (read_u32 little) (λ v m. (v < 2 ^ 32) × (m ≡ 4))
unfolding read_u32
Spends-read_u32 limit little =
    Spends-map limit (take_bytes 4) _ _ _ (Spends-take limit 4) (λ s n (all, e, m).
      (subst (λ k. from_bytes little s < 256 ^ k) e (from_bytes-lt little s all), m))

pub Spends-read_f64 :
    (limit : ℕ) (little : Bool) → Spends limit (read_f64 little) (λ v m. IsF64 v × (m ≡ 8))
unfolding read_f64
Spends-read_f64 limit little =
    Spends-map limit (take_bytes 8) _ _ _ (Spends-take limit 8) (λ s n (all, e, m).
      (subst (λ k. from_bytes little s < 256 ^ k) e (from_bytes-lt little s all), m))

pub Spends-read_coord :
    (limit : ℕ) (little : Bool) → Spends limit (read_coord little) (λ c m. IsCoord c × (m ≡ 16))
unfolding read_coord
Spends-read_coord limit little =
    Spends-bind limit (read_f64 little) _ _ _ (Spends-read_f64 limit little) (λ x n hx.
      Spends-map _ (read_f64 little) _ _ _ (Spends-read_f64 _ little)
        (λ y m hy. ((hx.0, hy.0), omega arith)))

-- A check before an allocation reads nothing.
pub Spends-ensure :
    {A : Type 0} (limit count per_item : ℕ) (p : Reader A) (R : A → ℕ → Type 0)
    → Spends limit p R
    → Spends limit (ensure_remaining_for count per_item >>= λ _. p) R
unfolding ensure_remaining_for
Spends-ensure limit count per_item p R hp c v h =
    elim (Bool-cases (ltb (count * per_item) (2 ^ 64))) [
      | inr large ↦ rw large (fails (λ e. cc))
      | inl small ↦ elim (Bool-cases (ltb (remaining c) (count * per_item))) [
        | inl past ↦ rw (small, past) (fails (λ e. cc))
        | inr within ↦ rw (small, within) (hp c v h)
      ]
    ]
