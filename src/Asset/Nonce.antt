-- ===== src/Asset/Nonce.antt =====
-- The identifier of a mosaic from its nonce and its owner: sdk/mosaic_model.go and
-- sdk/mosaic_internal.go. The SHA3-256 digest of what is written to the hash is the parameter `sha3`.
use Prim.Native.Nat.{bit_and}
use go_xpx_chain_sdk.Base.{
  Bytes, Result, err, err_invalid_owner_public_key, if◌then◌else◌, length, ℕ, ◌++◌, ◌-◌, ◌==◌,
  ◌>>=◌, ◌^◌,
}
use go_xpx_chain_sdk.Asset.{MosaicId, namespace_bit, new_mosaic_id}
use go_xpx_chain_sdk.Encoding.{hex_decode_string}
use go_xpx_chain_sdk.Namespace.{little_endian_uint64}
use go_xpx_chain_sdk.Word.{to_le}

module _ (sha3 : Bytes → Bytes) where
  unfoldable pub generate_mosaic_id : ℕ → Bytes → Result MosaicId
  generate_mosaic_id nonce owner_public_key = do
    owner_bytes ← hex_decode_string owner_public_key
    t ← little_endian_uint64 (sha3 (to_le 4 nonce ++ owner_bytes))
    new_mosaic_id (bit_and t (2 ^ 64 - 1 - namespace_bit))

  unfoldable pub new_mosaic_id_from_nonce_and_owner : ℕ → Bytes → Result MosaicId
  unfolding generate_mosaic_id
  new_mosaic_id_from_nonce_and_owner nonce owner_public_key =
      if length owner_public_key == 64
      then generate_mosaic_id nonce owner_public_key
      else err err_invalid_owner_public_key
