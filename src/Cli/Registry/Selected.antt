-- ===== src/Cli/Registry/Selected.antt =====
-- Which driver is selected, in whatever order the linker collected them.
use shpx.Prelude.{
  Text, ◌≡◌, refl, subst, List, [], ◌∷◌, Option, none, some, true, false, if◌then◌else◌, All,
  Bool-cases, inl, inr,
}
use mathlib.Core.List.{Mem, mem-cons_self, mem-cons_of_mem}
use shpx.Core.Uri.{Uri}
use shpx.Cli.Driver.{Driver}
use shpx.Cli.Registry.{
  leb_text, contains, insert_driver, collect_drivers, find_driver, select_driver,
}
use shpx.Cli.Registry.Order.{leb_text_total, leb_text_trans, leb_text_refl}

module _ {S D T B I : Type 0} where
  abbrev Named : Driver S D T B I → Driver S D T B I → Type 0
  Named d e = leb_text d.name e.name ≡ true

  -- A list of drivers in the order of their names.
  abbrev IsSorted : List (Driver S D T B I) → Type 0
  IsSorted [] = Unit {0}
  IsSorted (d ∷ drivers) = All (Named d) drivers × IsSorted drivers

  All-insert :
      (P : Driver S D T B I → Type 0) (d : Driver S D T B I) (drivers : List (Driver S D T B I))
      → P d
      → All P drivers
      → All P (insert_driver d drivers)
  unfolding insert_driver
  All-insert P d [] h hs = (h, tt)
  All-insert P d (e ∷ drivers) h (he, hs) = elim (Bool-cases (leb_text d.name e.name)) [
    | inl le ↦ rw le (h, (he, hs))
    | inr gt ↦ rw gt (he, All-insert P d drivers h hs)
  ]

  All-trans :
      (d e : Driver S D T B I) (drivers : List (Driver S D T B I))
      → Named d e
      → All (Named e) drivers
      → All (Named d) drivers
  All-trans d e [] h hs = tt
  All-trans d e (f ∷ drivers) h (hf, hs) =
      (leb_text_trans d.name e.name f.name h hf, All-trans d e drivers h hs)

  insert_driver-IsSorted :
      (d : Driver S D T B I) (drivers : List (Driver S D T B I))
      → IsSorted drivers
      → IsSorted (insert_driver d drivers)
  unfolding insert_driver
  insert_driver-IsSorted d [] h = (tt, tt)
  insert_driver-IsSorted d (e ∷ drivers) (hs, h) = elim (Bool-cases (leb_text d.name e.name)) [
    | inl le ↦ rw le ((le, All-trans d e drivers le hs), (hs, h))
    | inr gt ↦ rw gt (
      All-insert (Named e) d drivers (leb_text_total d.name e.name gt) hs,
      insert_driver-IsSorted d drivers h,
    )
  ]

  collect_drivers-IsSorted :
      (drivers : List (Driver S D T B I)) → IsSorted (collect_drivers drivers)
  unfolding collect_drivers
  collect_drivers-IsSorted [] = tt
  collect_drivers-IsSorted (d ∷ drivers) =
      insert_driver-IsSorted d (collect_drivers drivers) (collect_drivers-IsSorted drivers)

  All-of_insert :
      (P : Driver S D T B I → Type 0) (d : Driver S D T B I) (drivers : List (Driver S D T B I))
      → All P (insert_driver d drivers)
      → P d × All P drivers
  unfolding insert_driver
  All-of_insert P d [] h = h
  All-of_insert P d (e ∷ drivers) h = elim (Bool-cases (leb_text d.name e.name)) [
    | inl le ↦ subst (λ b. All P (if b then d ∷ e ∷ drivers else e ∷ insert_driver d drivers)) le h
    | inr gt ↦
        let (he, hs) =
          subst (λ b. All P (if b then d ∷ e ∷ drivers else e ∷ insert_driver d drivers)) gt h in
        let (hd, ht) = All-of_insert P d drivers hs in (hd, (he, ht))
  ]

  All-of_collect :
      (P : Driver S D T B I → Type 0) (drivers : List (Driver S D T B I))
      → All P (collect_drivers drivers)
      → All P drivers
  unfolding collect_drivers
  All-of_collect P [] h = tt
  All-of_collect P (d ∷ drivers) h =
      let (hd, hs) = All-of_insert P d (collect_drivers drivers) h in
      (hd, All-of_collect P drivers hs)

  All-mem :
      (drivers all : List (Driver S D T B I))
      → ((d : Driver S D T B I) → Mem d drivers → Mem d all)
      → All (λ d. Mem d all) drivers
  All-mem [] all h = tt
  All-mem (d ∷ drivers) all h = (
    h d (mem-cons_self {a = d} {l = drivers}),
    All-mem drivers all (λ e m. h e (mem-cons_of_mem d m)),
  )

  All-collect :
      (P : Driver S D T B I → Type 0) (drivers : List (Driver S D T B I))
      → All P drivers
      → All P (collect_drivers drivers)
  unfolding collect_drivers
  All-collect P [] h = tt
  All-collect P (d ∷ drivers) (hd, hs) =
      All-insert P d (collect_drivers drivers) hd (All-collect P drivers hs)

  abbrev Claims : Text → Driver S D T B I → Type 0
  Claims scheme d = contains d.supported_schemes scheme ≡ true

  -- What is found in a list: a driver that claims the scheme, the first by name that does, or
  -- nothing, where no driver does. `P` is any property of the drivers of the list.
  abbrev FoundIn :
      (Driver S D T B I → Type 0)
      → List (Driver S D T B I)
      → Text
      → Option (Driver S D T B I)
      → Type 0
  FoundIn P drivers scheme none = All (λ e. contains e.supported_schemes scheme ≡ false) drivers
  FoundIn P drivers scheme (some d) =
      P d × Claims scheme d × All (λ e. Claims scheme e → Named d e) drivers

  no_claim :
      (d e : Driver S D T B I) (scheme : Text)
      → contains e.supported_schemes scheme ≡ false
      → Claims scheme e
      → Named d e
  no_claim d e scheme h k = absurd (cc)

  found_behind :
      (P : Driver S D T B I → Type 0) (d : Driver S D T B I) (drivers : List (Driver S D T B I))
      (scheme : Text)
      → contains d.supported_schemes scheme ≡ false
      → (found : Option (Driver S D T B I)) → FoundIn P drivers scheme found
      → FoundIn P (d ∷ drivers) scheme found
  found_behind P d drivers scheme h none f = (h, f)
  found_behind P d drivers scheme h (some e) (p, c, a) = (p, c, (no_claim e d scheme h, a))

  All-map :
      (P Q : Driver S D T B I → Type 0) (drivers : List (Driver S D T B I))
      → ((e : Driver S D T B I) → P e → Q e)
      → All P drivers
      → All Q drivers
  All-map P Q [] k h = tt
  All-map P Q (d ∷ drivers) k (hd, hs) = (k d hd, All-map P Q drivers k hs)

  find_driver-FoundIn :
      (P : Driver S D T B I → Type 0) (drivers : List (Driver S D T B I)) (scheme : Text)
      → IsSorted drivers
      → All P drivers
      → FoundIn P drivers scheme (find_driver drivers scheme)
  unfolding find_driver
  find_driver-FoundIn P [] scheme s h = tt
  find_driver-FoundIn P (d ∷ drivers) scheme (hs, s) (hd, h) =
      elim (Bool-cases (contains d.supported_schemes scheme)) [
        | inl it ↦
            rw it (hd, it, (λ c. leb_text_refl d.name, All-map (Named d) _ drivers (λ e n c. n) hs))
        | inr it ↦ rw it (
            found_behind P d drivers scheme it (find_driver drivers scheme)
              (find_driver-FoundIn P drivers scheme s h))
      ]

  of_collected :
      (P : Driver S D T B I → Type 0) (drivers : List (Driver S D T B I)) (scheme : Text)
      (found : Option (Driver S D T B I))
      → FoundIn P (collect_drivers drivers) scheme found
      → FoundIn P drivers scheme found
  of_collected P drivers scheme none f = All-of_collect _ drivers f
  of_collected P drivers scheme (some d) (p, c, a) = (p, c, All-of_collect _ drivers a)

  -- Of a URI without a scheme no driver is selected, of another the one that `FoundIn` says.
  abbrev pub IsSelection : List (Driver S D T B I) → Text → Option (Driver S D T B I) → Type 0
  IsSelection drivers [] found = found ≡ none
  IsSelection drivers (b ∷ scheme) found = FoundIn (λ d. Mem d drivers) drivers (b ∷ scheme) found

  -- For drivers that were collected in any order, select_driver of a URI with a scheme is a driver of
  -- them that supports the scheme, and none that supports it comes before it by name; it is None only
  -- where none supports the scheme, or the URI has none.
  pub select_driver-IsSelection :
      (drivers : List (Driver S D T B I)) (uri : Uri)
      → IsSelection drivers uri.scheme (select_driver drivers uri)
  unfolding select_driver
  select_driver-IsSelection drivers uri = of_scheme uri.scheme
    where
      of_scheme :
          (scheme : Text)
          → IsSelection drivers scheme
              (select_driver drivers (record { scheme = scheme; raw = uri.raw }))
      of_scheme [] = refl
      of_scheme (b ∷ scheme) =
          of_collected (λ d. Mem d drivers) drivers (b ∷ scheme) _
            (find_driver-FoundIn (λ d. Mem d drivers) (collect_drivers drivers) (b ∷ scheme)
              (collect_drivers-IsSorted drivers)
              (All-collect _ drivers (All-mem drivers drivers (λ d m. m))))
