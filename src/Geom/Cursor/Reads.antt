-- ===== src/Geom/Cursor/Reads.antt =====
-- Complete reads: what a reader makes of input that begins with given bytes.
use shpx.Prelude.{
  ℕ, ◌+◌, ◌*◌, ◌^◌, ◌≤◌, ◌<◌, ◌≡◌, refl, sym, ap, ◌∙◌, arith, List, [], ◌∷◌, ◌++◌, append_assoc, ok,
  Bool, length, drop, length-append, length-drop, drop-append, take-append, drop-drop, subst,
}
use shpx.Geom.Types.{F64, IsF64}
use shpx.Geom.Bytes.{from_bytes, to_bytes, from_bytes-to_bytes, length-to_bytes}
use shpx.Geom.Cursor.Defs.{
  Cursor, Reader, pure, and_then, ◌>>=◌, ensure_remaining_for, take_bytes, take_byte, read_u32,
  read_f64,
}

-- `p` reads `a` off the bytes `xs`, whatever follows them, and moves past them.
abbrev pub Reads : {A : Type 0} → Reader A → List ℕ → A → Type 0
Reads p xs a =
    (c : Cursor) (rest : List ℕ)
    → drop c.pos c.bytes ≡ xs ++ rest
    → length c.bytes < 2 ^ 64
    → p c ≡ ok (a, record c { pos = c.pos + length xs })

pub Reads-pure : {A : Type 0} (a : A) → Reads (pure a) [] a
Reads-pure a c rest e h = ap (λ n. ok (a, record c { pos = n })) (omega arith)

left_after :
    (c : Cursor) (xs rest : List ℕ)
    → drop c.pos c.bytes ≡ xs ++ rest
    → drop (c.pos + length xs) c.bytes ≡ rest
left_after c xs rest e =
    sym (drop-drop (length xs) c.pos c.bytes) ∙ ap (drop (length xs)) e ∙ drop-append xs rest

pub Reads-bind :
    {A B : Type 0} (p : Reader A) (f : A → Reader B) (xs ys : List ℕ) (a : A) (b : B)
    → Reads p xs a
    → Reads (f a) ys b
    → Reads (p >>= f) (xs ++ ys) b
Reads-bind p f xs ys a b hp hf c rest e h =
    let here = e ∙ append_assoc xs ys rest in
    ap (λ r. and_then r f) (hp c (ys ++ rest) here h)
    ∙ hf (record c { pos = c.pos + length xs }) rest (left_after c xs (ys ++ rest) here) h
    ∙ ap (λ n. ok (b, record c { pos = n })) (omega (arith, length-append xs ys))

-- The last read of a chain.
pub Reads-map :
    {A B : Type 0} (p : Reader A) (f : A → B) (xs : List ℕ) (a : A)
    → Reads p xs a
    → Reads (p >>= λ x. pure (f x)) xs (f a)
Reads-map p f xs a hp c rest e h = ap (λ r. and_then r (λ x. pure (f x))) (hp c rest e h)

end_in_range :
    (c : Cursor) (xs rest : List ℕ)
    → drop c.pos c.bytes ≡ xs ++ rest
    → 0 < length xs
    → c.pos + length xs ≤ length c.bytes
end_in_range c xs rest e h =
    omega (arith, ap length e, length-append xs rest, length-drop c.pos c.bytes)

pub Reads-take : (n : ℕ) (xs : List ℕ) → length xs ≡ n → 0 < n → Reads (take_bytes n) xs xs
unfolding take_bytes
Reads-take n xs k pos c rest e h =
    rw (← k) (rw (e, take-append xs rest) (ground (arith, end_in_range c xs rest e)))

pub Reads-byte : (b : ℕ) → Reads take_byte (b ∷ []) b
unfolding take_byte
Reads-byte b =
    Reads-map (take_bytes 1) _ (b ∷ []) (b ∷ []) (Reads-take 1 (b ∷ []) refl (omega arith))

Reads-number :
    (little : Bool) (k v : ℕ)
    → 0 < k
    → v < 256 ^ k
    → Reads (take_bytes k >>= λ s. pure (from_bytes little s)) (to_bytes little k v) v
Reads-number little k v pos h =
    subst (Reads _ (to_bytes little k v)) (from_bytes-to_bytes little k v h) (
      Reads-map (take_bytes k) (from_bytes little) (to_bytes little k v) _
        (Reads-take k _ (length-to_bytes little k v) pos))

pub Reads-u32 :
    (little : Bool) (v : ℕ) → v < 2 ^ 32 → Reads (read_u32 little) (to_bytes little 4 v) v
unfolding read_u32
Reads-u32 little v h = Reads-number little 4 v (omega arith) h

pub Reads-f64 :
    (little : Bool) (v : F64) → IsF64 v → Reads (read_f64 little) (to_bytes little 8 v) v
unfolding read_f64
Reads-f64 little v h = Reads-number little 8 v (omega arith) h

-- A check before an allocation passes if the items are there.
pub ensure-Reads :
    {A : Type 0} (count per_item : ℕ) (p : Reader A) (xs : List ℕ) (a : A)
    → count * per_item ≤ length xs
    → Reads p xs a
    → Reads (ensure_remaining_for count per_item >>= λ _. p) xs a
unfolding ensure_remaining_for
ensure-Reads count per_item p xs a fits hp c rest e h =
    ap (λ r. and_then r (λ _. p)) passes ∙ hp c rest e h
  where
    passes : ensure_remaining_for count per_item c ≡ ok (tt, c)
    passes = ground (arith, ap length e, length-append xs rest, length-drop c.pos c.bytes)
