-- ===== src/Asset/Properties.antt =====
-- Mosaic properties, as the REST API sends them and as the SDK keeps them.
use go_xpx_chain_sdk.Base.{ℕ, ◌≡◌, Bool, arith}
use go_xpx_chain_sdk.Asset.{new_mosaic_properties, duration}

-- The duration that properties are made with is read back, also where it is 0 and no entry is kept.
pub duration-new_mosaic_properties :
    (mutable transferable : Bool) (divisibility d : ℕ)
    → duration (new_mosaic_properties mutable transferable divisibility d) ≡ d
unfolding duration new_mosaic_properties
duration-new_mosaic_properties mutable transferable divisibility d = ground arith
