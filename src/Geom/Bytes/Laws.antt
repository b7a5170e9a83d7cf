-- ===== src/Geom/Bytes/Laws.antt =====
-- Reading the bytes of a number gives the number, in either order, and every read is in range.
use shpx.Prelude.{
  ℕ, zero, suc, ◌+◌, ◌*◌, ◌/◌, ◌%◌, ◌^◌, ◌<◌, ◌≡◌, refl, sym, ap, ◌∙◌, arith, List, [], ◌∷◌,
  reverse, Bool, true, false, length, All, All-append, length-append,
}
use shpx.Geom.Bytes.Defs.{IsByte, to_le_bytes, from_le_bytes, to_bytes, from_bytes}
use mathlib.Core.List.{reverse-reverse, reverse-append}
use native.Mathlib.Nat.{pow-suc}

pub length-to_le_bytes : (k v : ℕ) → length (to_le_bytes k v) ≡ k
unfolding to_le_bytes
length-to_le_bytes zero v = refl
length-to_le_bytes (suc k) v = ap suc (length-to_le_bytes k (v / 256))

pub from_le_bytes-to_le_bytes : (k v : ℕ) → v < 256 ^ k → from_le_bytes (to_le_bytes k v) ≡ v
unfolding to_le_bytes from_le_bytes
from_le_bytes-to_le_bytes zero v h = omega arith
from_le_bytes-to_le_bytes (suc k) v h =
    omega (arith, from_le_bytes-to_le_bytes k (v / 256) (omega (arith, pow-suc 256 k)))

pub to_le_bytes-IsByte : (k v : ℕ) → All IsByte (to_le_bytes k v)
unfolding to_le_bytes
to_le_bytes-IsByte zero v = tt
to_le_bytes-IsByte (suc k) v = (omega arith, to_le_bytes-IsByte k (v / 256))

pub from_le_bytes-lt : (bs : List ℕ) → All IsByte bs → from_le_bytes bs < 256 ^ length bs
unfolding from_le_bytes
from_le_bytes-lt [] h = omega arith
from_le_bytes-lt (b ∷ bs) h = omega (arith, pow-suc 256 (length bs), from_le_bytes-lt bs h.1)

pub length-reverse : (xs : List ℕ) → length (reverse xs) ≡ length xs
length-reverse [] = refl
length-reverse (x ∷ xs) =
    ap length (reverse-append (x ∷ []) xs)
    ∙ length-append (reverse xs) (x ∷ [])
    ∙ omega (arith, length-reverse xs)

All-reverse : (xs : List ℕ) → All IsByte xs → All IsByte (reverse xs)
All-reverse [] h = tt
All-reverse (x ∷ xs) h =
    rw (reverse-append (x ∷ []) xs)
      (All-append IsByte (reverse xs) (x ∷ []) (All-reverse xs h.1) (h.0, tt))

pub length-to_bytes : (little : Bool) (k v : ℕ) → length (to_bytes little k v) ≡ k
unfolding to_bytes
length-to_bytes true k v = length-to_le_bytes k v
length-to_bytes false k v = length-reverse (to_le_bytes k v) ∙ length-to_le_bytes k v

pub from_bytes-to_bytes :
    (little : Bool) (k v : ℕ) → v < 256 ^ k → from_bytes little (to_bytes little k v) ≡ v
unfolding to_bytes from_bytes
from_bytes-to_bytes true k v h = from_le_bytes-to_le_bytes k v h
from_bytes-to_bytes false k v h = rw reverse-reverse (from_le_bytes-to_le_bytes k v h)

pub from_bytes-lt :
    (little : Bool) (bs : List ℕ) → All IsByte bs → from_bytes little bs < 256 ^ length bs
unfolding from_bytes
from_bytes-lt true bs h = from_le_bytes-lt bs h
from_bytes-lt false bs h =
    rw (ap (λ n. 256 ^ n) (sym (length-reverse bs)))
      (from_le_bytes-lt (reverse bs) (All-reverse bs h))

pub to_bytes-IsByte : (little : Bool) (k v : ℕ) → All IsByte (to_bytes little k v)
unfolding to_bytes
to_bytes-IsByte true k v = to_le_bytes-IsByte k v
to_bytes-IsByte false k v = All-reverse (to_le_bytes k v) (to_le_bytes-IsByte k v)

to_le_bytes-from_le_bytes :
    (bs : List ℕ) → All IsByte bs → to_le_bytes (length bs) (from_le_bytes bs) ≡ bs
unfolding to_le_bytes from_le_bytes
to_le_bytes-from_le_bytes [] h = refl
to_le_bytes-from_le_bytes (b ∷ bs) (hb, hbs) =
    let low : (b + 256 * from_le_bytes bs) % 256 ≡ b = omega arith in
    let high : (b + 256 * from_le_bytes bs) / 256 ≡ from_le_bytes bs = omega arith in
    rw (low, high, to_le_bytes-from_le_bytes bs hbs)

-- Writing inverts reading.
pub to_bytes-from_bytes :
    (little : Bool) (bs : List ℕ)
    → All IsByte bs
    → to_bytes little (length bs) (from_bytes little bs) ≡ bs
unfolding to_bytes from_bytes
to_bytes-from_bytes true bs h = to_le_bytes-from_le_bytes bs h
to_bytes-from_bytes false bs h =
    ap reverse (
      ap (λ k. to_le_bytes k (from_le_bytes (reverse bs))) (sym (length-reverse bs))
      ∙ to_le_bytes-from_le_bytes (reverse bs) (All-reverse bs h))
    ∙ reverse-reverse bs
