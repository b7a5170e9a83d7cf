-- ===== src/Postgis/Numeric/Runs.antt =====
-- Concrete numerics, and the theorem at one.
use shpx.Prelude.{◌^◌, ◌-◌, ◌≡◌, refl, arith, [], ◌∷◌}
use shpx.Postgis.Numeric.{from_i128_scale, from_u128_scale, write_payload, numeric_pos}
use shpx.Postgis.Numeric.Value.{IsNumeric, from_u128_scale-IsNumeric}

-- 1.5, of the scale 1
one_and_a_half :
    from_i128_scale 15 1 ≡ record { digits = 1 ∷ 5000 ∷ []; weight = 0; sign = 0; dscale = 1 }
unfolding from_i128_scale
one_and_a_half = refl

-- 0.0001 of the scale 4 has the weight -1.
small_fraction :
    from_i128_scale 1 4 ≡ record { digits = 1 ∷ []; weight = 65535; sign = 0; dscale = 4 }
unfolding from_i128_scale
small_fraction = refl

minus_one :
    from_i128_scale (2 ^ 128 - 1) 0
    ≡ record { digits = 1 ∷ []; weight = 0; sign = 0x4000; dscale = 0 }
unfolding from_i128_scale
minus_one = refl

payload_of_one :
    write_payload (record { digits = 1 ∷ []; weight = 0; sign = 0; dscale = 0 }) []
    ≡ 0 ∷ 1 ∷ 0 ∷ 0 ∷ 0 ∷ 0 ∷ 0 ∷ 0 ∷ 0 ∷ 1 ∷ []
unfolding write_payload
payload_of_one = refl

from_u128_scale-IsNumeric_example :
    let n = from_u128_scale 1500000 2 numeric_pos 2 in
    IsNumeric 1500000 2 n × (n.sign ≡ numeric_pos) × (n.dscale ≡ 2)
from_u128_scale-IsNumeric_example =
    from_u128_scale-IsNumeric 1500000 2 numeric_pos 2 (omega arith) (omega arith) (omega arith)
