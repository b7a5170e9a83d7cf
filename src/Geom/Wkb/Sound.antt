-- ===== src/Geom/Wkb/Sound.antt =====
-- Whatever `decode` accepts is a representable geometry of exactly the input's size, and its
-- recursion never runs out of the model's fuel.
use shpx.Prelude.{
  ℕ, zero, suc, ◌+◌, ◌-◌, ◌*◌, ◌≡◌, refl, ◌∙◌, arith, List, [], ◌∷◌, Bool, length, All,
}
use shpx.Geom.Types.{
  Coord, Geom, IsCoord, IsPoints, IsRings, IsCounted, IsGeom, point, line_string, polygon,
  bad_child,
}
use shpx.Geom.Cursor.{Reader, pure, ◌>>=◌, ensure_remaining_for, read_u32, read_coord}
use shpx.Geom.Cursor.Spends.{
  Spends, Spends-pure, Spends-fail, Spends-bind, Spends-map, Spends-weaken, Spends-conv,
  Spends-read_u32, Spends-read_coord, Spends-ensure,
}
use shpx.Geom.Wkb.Encode.{estimate_size, ring_size, line_size, polygon_size, sum_map}
use shpx.Geom.Wkb.Layout.{sum_map-const}
use shpx.Geom.Wkb.Decode.{
  read_many, read_pts, read_ring, read_members, as_point, as_line_string, as_polygon,
}

pub Spends-many :
    {A : Type 0} (P : A → Type 0) (size : A → ℕ) (read : Reader A) (count limit : ℕ)
    → Spends limit read (λ a n. P a × (n ≡ size a))
    → Spends limit
        (read_many read count)
        (λ xs n. (length xs ≡ count) × All P xs × (n ≡ sum_map size xs))
unfolding read_many
Spends-many P size read zero limit h = Spends-pure limit [] _ (refl, tt, refl)
Spends-many P size read (suc count) limit h = Spends-bind limit read _ _ _ h (λ a n ha.
    Spends-map _ (read_many read count) (λ rest. a ∷ rest) _ _
      (Spends-many P size read count (limit - n)
        (Spends-weaken limit (limit - n) read _ (omega arith) h))
      (λ xs m hxs. (omega arith, (ha.0, hxs.1), omega arith)))

module _ (little : Bool) where
  Spends-pts :
      (limit n : ℕ)
      → Spends limit
          (read_pts n little)
          (λ pts m. (length pts ≡ n) × All IsCoord pts × (m ≡ length pts * 16))
  unfolding read_pts
  Spends-pts limit n = Spends-ensure limit n 16 (read_many (read_coord little) n) _ (
      Spends-conv limit _ _ _
        (Spends-many IsCoord (λ _. 16) (read_coord little) n limit (Spends-read_coord limit little))
        (λ pts m (e, all, sum). (e, all, sum ∙ sum_map-const 16 pts)))

  -- A u32 count and that many points.
  pub Spends-counted_pts :
      {B : Type 0} (limit : ℕ) (make : List Coord → B) (S : B → ℕ → Type 0)
      → ((pts : List Coord) (m : ℕ) → IsPoints pts → m ≡ ring_size pts → S (make pts) m)
      → Spends limit (do n ← read_u32 little; pts ← read_pts n little; pure (make pts)) S
  Spends-counted_pts limit make S k =
      Spends-bind limit (read_u32 little) _ _ S (Spends-read_u32 limit little) (λ np n hn.
        Spends-map _ (read_pts np little) make _ _ (Spends-pts (limit - n) np)
          (λ pts m (e, all, sum). k pts (n + m) (omega arith, all) (omega arith)))

  pub Spends-ring :
      (limit : ℕ) → Spends limit (read_ring little) (λ pts m. IsPoints pts × (m ≡ ring_size pts))
  unfolding read_ring
  Spends-ring limit =
      Spends-bind limit (read_u32 little) _ _ _ (Spends-read_u32 limit little) (λ np n hn.
        Spends-conv _ _ _ _ (Spends-pts (limit - n) np)
          (λ pts m (e, all, sum). ((omega arith, all), omega arith)))

  -- A u32 count, the check before the allocation, and that many items.
  pub Spends-counted :
      {A B : Type 0} (P : A → Type 0) (size : A → ℕ) (read : Reader A) (least limit : ℕ)
      (make : List A → B) (S : B → ℕ → Type 0)
      → Spends limit read (λ a n. P a × (n ≡ size a))
      → ((xs : List A) (m : ℕ) → IsCounted P xs → m ≡ 4 + sum_map size xs → S (make xs) m)
      → Spends limit
          (do
            n ← read_u32 little
            _ ← ensure_remaining_for n least
            xs ← read_many read n
            pure (make xs))
          S
  Spends-counted P size read least limit make S h k =
      Spends-bind limit (read_u32 little) _ _ S (Spends-read_u32 limit little) (λ np n hn.
        Spends-ensure (limit - n) np least _ _ (
          Spends-map (limit - n) (read_many read np) make _ _
            (Spends-many P size read np (limit - n)
              (Spends-weaken limit (limit - n) read _ (omega arith) h))
            (λ xs m (e, all, sum). k xs (n + m) (omega arith, all) (omega arith))))

  pub Spends-members :
      {A : Type 0} (P : A → Type 0) (size : A → ℕ) (child : Reader Geom)
      (as_member : Geom → Reader A) (least limit : ℕ)
      → Spends limit (child >>= as_member) (λ a n. P a × (n ≡ size a))
      → Spends limit
          (read_members child as_member least little)
          (λ xs m. IsCounted P xs × (m ≡ 4 + sum_map size xs))
  unfolding read_members
  Spends-members P size child as_member least limit h =
      Spends-bind limit (read_u32 little) _ _ _ (Spends-read_u32 limit little) (λ np n hn.
        Spends-ensure (limit - n) np least _ _ (
          Spends-conv _ _ _ _
            (Spends-many P size (child >>= as_member) np (limit - n)
              (Spends-weaken limit (limit - n) _ _ (omega arith) h))
            (λ xs m (e, all, sum). ((omega arith, all), omega arith))))

-- A child and the test of its kind.
module _ (limit : ℕ) (child : Reader Geom)
    (h : Spends limit child (λ g n. IsGeom g × (n ≡ estimate_size g))) where
  pub Spends-as_point : Spends limit (child >>= as_point) (λ c n. IsCoord c × (n ≡ 21))
  unfolding as_point estimate_size
  Spends-as_point = Spends-bind limit child as_point _ _ h (elim [
    | point x y ↦ λ n r. Spends-pure _ (x, y) _ (r.0, omega arith)
    | g ↦ λ n r. Spends-fail _ (bad_child _) _ (λ e. cc)
  ])

  pub Spends-as_line_string :
      Spends limit (child >>= as_line_string) (λ l n. IsPoints l × (n ≡ line_size l))
  unfolding as_line_string estimate_size
  Spends-as_line_string = Spends-bind limit child as_line_string _ _ h (elim [
    | line_string l ↦ λ n r. Spends-pure _ l _ (r.0, omega arith)
    | g ↦ λ n r. Spends-fail _ (bad_child _) _ (λ e. cc)
  ])

  pub Spends-as_polygon :
      Spends limit (child >>= as_polygon) (λ p n. IsRings p × (n ≡ polygon_size p))
  unfolding as_polygon estimate_size
  Spends-as_polygon = Spends-bind limit child as_polygon _ _ h (elim [
    | polygon p ↦ λ n r. Spends-pure _ p _ (r.0, omega arith)
    | g ↦ λ n r. Spends-fail _ (bad_child _) _ (λ e. cc)
  ])
