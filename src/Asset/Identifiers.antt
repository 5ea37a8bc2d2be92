-- ===== src/Asset/Identifiers.antt =====
-- The top bit of a 64-bit identifier separates namespaces from mosaics.
use go_xpx_chain_sdk.Base.{
  ℕ, ◌+◌, ◌*◌, ◌^◌, ◌<◌, ◌≡◌, ok, err, arith, leb, if◌then◌else◌, ◌||◌, ◌==◌,
  err_wrong_bit_mosaic_id, err_wrong_bit_namespace_id,
}
use go_xpx_chain_sdk.Uint64.Halves.{has_bits_top, to_uint64_lem}
use go_xpx_chain_sdk.Asset.{
  AssetId, namespace_asset, mosaic_asset, new_namespace_id, new_mosaic_id, asset_id_dto_to_struct,
}

abbrev pub asset_of : ℕ → AssetId
asset_of n =
    if leb (2 ^ 63) n
    then namespace_asset (record { base_int64 = n })
    else mosaic_asset (record { base_int64 = n })

-- An identifier of a response is always accepted: its halves make a namespace identifier exactly where
-- the top bit is set, a mosaic identifier everywhere else, and the number is kept.
pub asset_id_dto_to_struct_total :
    (low high : ℕ)
    → low < 2 ^ 32
    → high < 2 ^ 32
    → asset_id_dto_to_struct (low, high) ≡ ok (asset_of (high * 2 ^ 32 + low))
unfolding asset_id_dto_to_struct new_namespace_id new_mosaic_id
asset_id_dto_to_struct_total low high hl hh =
    rw (to_uint64_lem low high hl hh)
      (ground (arith, has_bits_top (high * 2 ^ 32 + low) (omega arith)))

-- A 64-bit number is accepted by one of the two constructors and refused by the other, but for 0, which
-- both accept.
pub constructors_disjoint :
    (n : ℕ)
    → n < 2 ^ 64
    → (new_namespace_id n ≡ (
        if leb (2 ^ 63) n || n == 0
        then ok (record { base_int64 = n })
        else err err_wrong_bit_namespace_id))
      × (new_mosaic_id n ≡ (
          if leb (2 ^ 63) n then err err_wrong_bit_mosaic_id else ok (record { base_int64 = n })))
unfolding new_namespace_id new_mosaic_id
constructors_disjoint n h = rw (has_bits_top n h) (ground arith, ground arith)
