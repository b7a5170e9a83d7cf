-- ===== src/Cli/Registry.antt =====
-- crates/shpx-cli/src/registry.rs. What the linker collected is a list of drivers in any order.
pub mod Order
pub mod Selected
mod Runs
use shpx.Prelude.{
  Text, eq_text, ℕ, List, [], ◌∷◌, Option, none, some, Bool, true, false, ltb, ◌==◌, ◌&&◌, ◌||◌,
  if◌then◌else◌,
}
use shpx.Core.Uri.{Uri}
use shpx.Cli.Driver.{Driver, Error, no_extension, no_driver}

-- The order of `str`, byte by byte.
unfoldable pub leb_text : Text → Text → Bool
leb_text [] t = true
leb_text (b ∷ s) [] = false
leb_text (b ∷ s) (c ∷ t) = ltb b c || ((b == c) && leb_text s t)

-- `schemes.contains(&scheme)`
unfoldable pub contains : List Text → Text → Bool
contains [] scheme = false
contains (s ∷ schemes) scheme = eq_text s scheme || contains schemes scheme

module _ {S D T B I : Type 0} where
  -- `v.sort_by_key(|d| d.name())` keeps the order of equal names.
  unfoldable pub insert_driver :
      Driver S D T B I → List (Driver S D T B I) → List (Driver S D T B I)
  unfolding leb_text
  insert_driver d [] = d ∷ []
  insert_driver d (e ∷ drivers) =
      let behind = insert_driver d drivers in
      if leb_text d.name e.name then d ∷ e ∷ drivers else e ∷ behind

  unfoldable pub collect_drivers : List (Driver S D T B I) → List (Driver S D T B I)
  unfolding insert_driver
  collect_drivers [] = []
  collect_drivers (d ∷ drivers) = insert_driver d (collect_drivers drivers)

  -- `drivers.find(|d| d.supported_schemes().contains(&scheme))`
  unfoldable pub find_driver : List (Driver S D T B I) → Text → Option (Driver S D T B I)
  unfolding contains
  find_driver [] scheme = none
  find_driver (d ∷ drivers) scheme =
      let rest = find_driver drivers scheme in
      if contains d.supported_schemes scheme then some d else rest

  unfoldable pub select_driver : List (Driver S D T B I) → Uri → Option (Driver S D T B I)
  unfolding collect_drivers find_driver
  select_driver drivers uri = elim uri.scheme [
    | [] ↦ none
    | b ∷ scheme ↦ find_driver (collect_drivers drivers) uri.scheme
  ]

unfoldable pub driver_not_found : {D : Type 0} → Uri → Error D
driver_not_found uri = elim uri.scheme [
  | [] ↦ no_extension uri.raw
  | b ∷ scheme ↦ no_driver uri.scheme
]
