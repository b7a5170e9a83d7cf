-- ===== src/Cli/Registry/Runs.antt =====
-- A registry of three drivers, two of which support one scheme.
use shpx.Prelude.{Text, ℕ, ◌≡◌, refl, List, [], ◌∷◌, none, some, true, false, err, ok}
use shpx.Core.Uri.{Uri}
use shpx.Cli.Driver.{Driver, Capabilities, fixed, raised}
use shpx.Cli.Registry.{select_driver}
use shpx.Cli.Registry.Selected.{IsSelection, select_driver-IsSelection}

abbrev no_bulk : Capabilities
no_bulk = record {
  read = true;
  write = true;
  random_access = false;
  bulk_load = false;
  supports_blob = false;
  supports_decimal = false;
  supports_timestamp_tz = false;
  string_encoding = fixed [];
  max_decimal_precision = none;
}

abbrev Plain : Type 0
Plain = Driver ℕ ℕ ℕ ℕ ℕ

abbrev driver : Text → List Text → Plain
driver name schemes = record {
  name = name;
  supported_schemes = schemes;
  capabilities = no_bulk;
  open_read = λ uri opts s. err (raised 0);
  open_write = λ uri schema crs opts s. (err (raised 0), s);
  open_bulk_write = λ uri schema crs opts s. (ok none, s);
}

abbrev linked : List Plain
linked =
    driver (115 ∷ []) ((120 ∷ []) ∷ [])
    ∷ driver (99 ∷ []) ((121 ∷ []) ∷ [])
    ∷ driver (103 ∷ []) ((122 ∷ []) ∷ (120 ∷ []) ∷ [])
    ∷ []

abbrev file_x : Uri
file_x = record { scheme = 120 ∷ []; raw = 97 ∷ 46 ∷ 120 ∷ [] }

select_driver-IsSelection_example : IsSelection linked file_x.scheme (select_driver linked file_x)
select_driver-IsSelection_example = select_driver-IsSelection linked file_x

-- The driver g, which comes before s.
first_by_name :
    select_driver linked file_x ≡ some (driver (103 ∷ []) ((122 ∷ []) ∷ (120 ∷ []) ∷ []))
unfolding select_driver
first_by_name = refl
