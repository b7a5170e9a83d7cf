-- ===== src/Rdb/Paging/Table.antt =====
-- A table as the rows of a query see it, in the order of its rowids.
use shpx.Prelude.{
  ℕ, zero, suc, ◌+◌, ◌≤◌, ◌<◌, ◌≡◌, refl, sym, ◌∙◌, ap, subst, arith, List, [], ◌∷◌, ◌++◌, map,
  append_assoc, Option, none, some, true, false, Result, ok, err, ltb, ◌==◌, if◌then◌else◌, length,
  take, drop, All, All-take, length-append, ==_iff, Bool-cases, inl, inr,
}
use shpx.Rdb.Paging.{Row, read_values, read_keyed, read_plain}

abbrev pub join : {A : Type 0} → List (List A) → List A
join [] = []
join (xs ∷ xss) = xs ++ join xss

-- The batches that an iterator gives until its first `None`.
pub data Yields {B S E : Type 0} (next : S → Result E (Option B) × S) : S → List B → Type 0 where
  ends : {s : S} → (next s).0 ≡ ok none → Yields next s []
  more :
      {s : S} {b : B} {bs : List B}
      → (next s).0 ≡ ok (some b)
      → Yields next (next s).1 bs
      → Yields next s (b ∷ bs)

module _ {B S E : Type 0} (next : S → Result E (Option B) × S) where
  pub Yields-ends : {s s' : S} → next s ≡ (ok none, s') → Yields next s []
  Yields-ends e = ends (ap (λ r. r.0) e)

  pub Yields-more :
      {s s' : S} {b : B} {bs : List B}
      → next s ≡ (ok (some b), s')
      → Yields next s' bs
      → Yields next s (b ∷ bs)
  Yields-more {bs} e y = more (ap (λ r. r.0) e) (subst (λ r. Yields next (r.1) bs) (sym e) y)

module _ {A : Type 0} where
  pub take-none : (b : ℕ) (xs : List A) → 0 < b → length (take b xs) ≡ 0 → xs ≡ []
  take-none zero xs h e = absurd (omega arith)
  take-none (suc b) [] h e = refl
  take-none (suc b) (x ∷ xs) h e = absurd (omega (arith, e))

  pub length-take_pos : (b : ℕ) (xs : List A) → 0 < length (take b xs) → 0 < length xs
  length-take_pos zero xs h = absurd (omega arith)
  length-take_pos (suc b) [] h = h
  length-take_pos (suc b) (x ∷ xs) h = omega arith

  pub take-short : (b : ℕ) (xs : List A) → length (take b xs) < b → take b xs ≡ xs
  take-short zero xs h = absurd (omega arith)
  take-short (suc b) [] h = refl
  take-short (suc b) (x ∷ xs) h = ap (λ q. x ∷ q) (take-short b xs (omega arith))

  pub length-take-length : (b : ℕ) (xs : List A) → length (take b xs) ≤ length xs
  length-take-length zero xs = omega arith
  length-take-length (suc b) [] = omega arith
  length-take-length (suc b) (x ∷ xs) = omega (arith, length-take-length b xs)

  pub length-take-le : (b : ℕ) (xs : List A) → length (take b xs) ≤ b
  length-take-le zero xs = omega arith
  length-take-le (suc b) [] = omega arith
  length-take-le (suc b) (x ∷ xs) = omega (arith, length-take-le b xs)

-- A rowid and the values.
abbrev pub Record : Type 0 → Type 0
Record V = ℕ × List V

module _ {V : Type 0} where
  abbrev pub IsSorted : List (Record V) → Type 0
  IsSorted [] = Unit {0}
  IsSorted (r ∷ t) = All (λ q. r.0 < q.0) t × IsSorted t

  -- `WHERE rowid > last ORDER BY rowid`
  unfoldable pub after : ℕ → List (Record V) → List (Record V)
  after last [] = []
  after last (r ∷ t) = let rest = after last t in if ltb last (r.0) then r ∷ rest else rest

  unfoldable pub last_of : ℕ → List (Record V) → ℕ
  last_of last [] = last
  last_of last (r ∷ page) = last_of (r.0) page

  abbrev pub cells : List (Record V) → List (List V)
  cells [] = []
  cells (r ∷ t) = r.1 ∷ cells t

  All-trans : (a b : ℕ) (t : List (Record V)) → a < b → All (λ q. b < q.0) t → All (λ q. a < q.0) t
  All-trans a b [] h hs = tt
  All-trans a b (r ∷ t) h (hr, hs) = (omega arith, All-trans a b t h hs)

  All-le : (a b : ℕ) (t : List (Record V)) → b ≤ a → All (λ q. a ≤ q.0) t → All (λ q. b ≤ q.0) t
  All-le a b [] h hs = tt
  All-le a b (r ∷ t) h (hr, hs) = (omega arith, All-le a b t h hs)

  pub length-cells : (t : List (Record V)) → length (cells t) ≡ length t
  length-cells [] = refl
  length-cells (r ∷ t) = ap suc (length-cells t)

  pub cells-append : (t u : List (Record V)) → cells (t ++ u) ≡ cells t ++ cells u
  cells-append [] u = refl
  cells-append (r ∷ t) u = ap (λ q. (r.1) ∷ q) (cells-append t u)

  last_of-ge :
      (m last : ℕ) (page : List (Record V))
      → m ≤ last
      → All (λ r. m ≤ r.0) page
      → m ≤ last_of last page
  unfolding last_of
  last_of-ge m last [] h hs = h
  last_of-ge m last (r ∷ page) h (hr, hs) = last_of-ge m (r.0) page hr hs

  after-All : (last : ℕ) (t : List (Record V)) → All (λ r. last ≤ r.0) (after last t)
  unfolding after
  after-All last [] = tt
  after-All last (r ∷ t) = elim (Bool-cases (ltb last (r.0))) [
    | inl h ↦ rw h (ground arith, after-All last t)
    | inr h ↦ rw h (after-All last t)
  ]

  after-lower : (last : ℕ) (t : List (Record V)) → All (λ r. last < r.0) t → after last t ≡ t
  unfolding after
  after-lower last [] h = refl
  after-lower last (r ∷ t) (hr, hs) =
      rw (let e : ltb last (r.0) ≡ true = ground arith in e)
        (ap (λ q. r ∷ q) (after-lower last t hs))

  after-taken :
      (last : ℕ) (r : Record V) (t : List (Record V))
      → ltb last (r.0) ≡ true
      → after last (r ∷ t) ≡ r ∷ after last t
  unfolding after
  after-taken last r t e = rw e refl

  after-skipped :
      (last : ℕ) (r : Record V) (t : List (Record V))
      → ltb last (r.0) ≡ false
      → after last (r ∷ t) ≡ after last t
  unfolding after
  after-skipped last r t e = rw e refl

  -- What a page of `k` rows leaves is what is behind its last rowid.
  pub after-page :
      (k last : ℕ) (t : List (Record V))
      → IsSorted t
      → after (last_of last (take k (after last t))) t ≡ drop k (after last t)
  unfolding after last_of
  after-page zero last t h = refl
  after-page (suc k) last [] h = refl
  after-page (suc k) last (r ∷ t) (hr, h) = elim (Bool-cases (ltb last (r.0))) [
    | inl e ↦ at (sym (after-taken last r t e)) (taken e (after-page k (r.0) t h))
    | inr e ↦ at (sym (after-skipped last r t e)) (skipped e (after-page (suc k) last t h))
  ]
    where
      at :
          {xs ys : List (Record V)}
          → xs ≡ ys
          → after (last_of last (take (suc k) xs)) (r ∷ t) ≡ drop (suc k) xs
          → after (last_of last (take (suc k) ys)) (r ∷ t) ≡ drop (suc k) ys
      at e = subst (λ zs. after (last_of last (take (suc k) zs)) (r ∷ t) ≡ drop (suc k) zs) e

      passed : (m : ℕ) (xs : List (Record V)) → r.0 ≤ m → after m t ≡ xs → after m (r ∷ t) ≡ xs
      passed m xs le e = rw (let f : ltb m (r.0) ≡ false = ground arith in f) e

      taken :
          ltb last (r.0) ≡ true
          → after (last_of (r.0) (take k (after (r.0) t))) t ≡ drop k (after (r.0) t)
          → after (last_of (r.0) (take k (after last t))) (r ∷ t) ≡ drop k (after last t)
      taken e ih =
          subst (λ xs. after (last_of (r.0) (take k xs)) (r ∷ t) ≡ drop k xs)
            (after-lower (r.0) t hr
              ∙ sym (after-lower last t (All-trans last (r.0) t (ground arith) hr)))
            (passed (last_of (r.0) (take k (after (r.0) t))) _
              (last_of-ge (r.0) (r.0) _ (omega arith)
                (All-take (λ q. r.0 ≤ q.0) k _ (after-All (r.0) t)))
              ih)

      skipped :
          ltb last (r.0) ≡ false
          → after (last_of last (take (suc k) (after last t))) t ≡ drop (suc k) (after last t)
          → after (last_of last (take (suc k) (after last t))) (r ∷ t) ≡ drop (suc k) (after last t)
      skipped e ih =
          passed (last_of last (take (suc k) (after last t))) _
            (last_of-ge (r.0) last _ (ground arith) (
              All-take (λ q. r.0 ≤ q.0) (suc k) _
                (All-le last (r.0) _ (ground arith) (after-All last t))))
            ih

-- A column of a row, and the error of one that is not there.
module _ {V E : Type 0} (missing : E) where
  abbrev pub nth : List V → ℕ → Result E V
  nth [] i = err missing
  nth (v ∷ vs) zero = ok v
  nth (v ∷ vs) (suc i) = nth vs i

  -- The values, and the rowid in the column behind them.
  abbrev pub keyed_row : Record V → Row V E
  keyed_row r = record {
    get = nth (r.1);
    get_i64 = λ i. if i == length (r.1) then ok (r.0) else err missing;
  }

  abbrev pub plain_row : List V → Row V E
  plain_row vs = record { get = nth vs; get_i64 = λ i. err missing }

  nth-append : (pre vs : List V) (v : V) → nth (pre ++ v ∷ vs) (length pre) ≡ ok v
  nth-append [] vs v = refl
  nth-append (u ∷ pre) vs v = nth-append pre vs v

  read_values-from :
      (row : Row V E) (pre vs : List V)
      → row.get ≡ nth (pre ++ vs)
      → read_values row (length vs) (length pre) ≡ ok vs
  unfolding read_values
  read_values-from row pre [] e = refl
  read_values-from row pre (v ∷ vs) e = rw (ap (λ g. g (length pre)) e ∙ nth-append pre vs v) (
      rw
        (let n : length pre + 1 ≡ length (pre ++ v ∷ []) =
            omega (arith, length-append pre (v ∷ [])) in
          n)
        (rw
          (read_values-from row (pre ++ v ∷ []) vs
            (e ∙ ap nth (sym (append_assoc pre (v ∷ []) vs))))
          refl))

  values_read :
      (row : Row V E) (vs : List V) (n : ℕ)
      → length vs ≡ n
      → row.get ≡ nth vs
      → read_values row n 0 ≡ ok vs
  values_read row vs n e h = rw (← e) (read_values-from row [] vs h)

  pub read_keyed-rows :
      (n last : ℕ) (page : List (Record V))
      → All (λ r. length (r.1) ≡ n) page
      → read_keyed (map (λ r. ok (keyed_row r)) page) n last ≡ ok (cells page, last_of last page)
  unfolding read_keyed last_of
  read_keyed-rows n last [] h = refl
  read_keyed-rows n last (r ∷ page) (hr, hs) =
      rw
        (
          values_read (keyed_row r) (r.1) n hr refl,
          (==_iff n (length (r.1))).1 (sym hr),
          read_keyed-rows n (r.0) page hs,
        )
        refl

  pub read_plain-rows :
      (n : ℕ) (page : List (List V))
      → All (λ vs. length vs ≡ n) page
      → read_plain (map (λ vs. ok (plain_row vs)) page) n ≡ ok page
  unfolding read_plain
  read_plain-rows n [] h = refl
  read_plain-rows n (vs ∷ page) (hr, hs) =
      rw (values_read (plain_row vs) vs n hr refl, read_plain-rows n page hs) refl
