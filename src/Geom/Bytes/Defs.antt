-- ===== src/Geom/Bytes/Defs.antt =====
-- `to_le_bytes`, `from_le_bytes` and the big-endian pair, for a number of `k` bytes.
use shpx.Prelude.{
  ℕ, zero, suc, ◌+◌, ◌*◌, ◌/◌, ◌%◌, ◌<◌, List, [], ◌∷◌, reverse, Bool, if◌then◌else◌,
}

abbrev pub IsByte : ℕ → Type 0
IsByte b = b < 256

unfoldable pub to_le_bytes : ℕ → ℕ → List ℕ
to_le_bytes zero v = []
to_le_bytes (suc k) v = (v % 256) ∷ to_le_bytes k (v / 256)

unfoldable pub from_le_bytes : List ℕ → ℕ
from_le_bytes [] = 0
from_le_bytes (b ∷ bs) = b + 256 * from_le_bytes bs

unfoldable pub to_be_bytes : ℕ → ℕ → List ℕ
unfolding to_le_bytes
to_be_bytes k v = reverse (to_le_bytes k v)

unfoldable pub from_be_bytes : List ℕ → ℕ
unfolding from_le_bytes
from_be_bytes bs = from_le_bytes (reverse bs)

-- `if little { from_le_bytes } else { from_be_bytes }`
unfoldable pub from_bytes : Bool → List ℕ → ℕ
unfolding from_le_bytes from_be_bytes
from_bytes little bs = if little then from_le_bytes bs else from_be_bytes bs

-- `if little { to_le_bytes } else { to_be_bytes }`
unfoldable pub to_bytes : Bool → ℕ → ℕ → List ℕ
unfolding to_le_bytes to_be_bytes
to_bytes little k v = if little then to_le_bytes k v else to_be_bytes k v
