-- ===== src/Info/Mosaics.antt =====
-- sdk/mosaic_internal.go: infos and names of mosaics.
use go_xpx_chain_sdk.Base.{
  Bytes, List, Result, err, if◌then◌else◌, length, ltb, new_error, ok, ℕ, ◌>>=◌,
}
use go_xpx_chain_sdk.Account.{new_account_from_public_key}
use go_xpx_chain_sdk.Asset.{
  MosaicId, MosaicProperties, mosaic_id_dto_to_struct, mosaic_properties_dto_to_struct,
}
use go_xpx_chain_sdk.Info.{all_to_struct}
use go_xpx_chain_sdk.Secret.{Hashes}
use go_xpx_chain_sdk.Transaction.{PublicAccount}
use go_xpx_chain_sdk.Uint64.{to_uint64}

pub record MosaicDefinitionDto : Type 0 where
  pub mosaic_id : ℕ × ℕ
  pub supply : ℕ × ℕ
  pub height : ℕ × ℕ
  pub owner : Bytes
  pub revision : ℕ
  pub properties : List (ℕ × (ℕ × ℕ))

pub record MosaicInfo : Type 0 where
  pub mosaic_id : MosaicId
  pub supply : ℕ
  pub height : ℕ
  pub owner : PublicAccount
  pub revision : ℕ
  pub properties : MosaicProperties

module _ (crypto : Hashes) (network_type : ℕ) where
  -- What follows the test of the number of properties.
  unfoldable pub mosaic_info_of : PublicAccount → MosaicDefinitionDto → Result MosaicInfo
  unfolding mosaic_id_dto_to_struct mosaic_properties_dto_to_struct
  mosaic_info_of owner ref = do
    mosaic_id ← mosaic_id_dto_to_struct ref.mosaic_id
    properties ← mosaic_properties_dto_to_struct ref.properties
    ok (record {
      mosaic_id = mosaic_id;
      supply = to_uint64 ref.supply;
      height = to_uint64 ref.height;
      owner = owner;
      revision = ref.revision;
      properties = properties;
    })

  unfoldable pub mosaic_info_dto_to_struct : MosaicDefinitionDto → Result MosaicInfo
  unfolding mosaic_info_of new_account_from_public_key
  mosaic_info_dto_to_struct ref = do
    owner ← new_account_from_public_key crypto ref.owner network_type
    if ltb (length ref.properties) 3
        then err (new_error "mosaic Properties is not valid")
        else mosaic_info_of owner ref

  unfoldable pub mosaic_info_dtos_to_struct : List MosaicDefinitionDto → Result (List MosaicInfo)
  unfolding all_to_struct mosaic_info_dto_to_struct
  mosaic_info_dtos_to_struct dtos = all_to_struct mosaic_info_dto_to_struct dtos

pub record MosaicName : Type 0 where
  pub mosaic_id : MosaicId
  pub names : List Bytes

unfoldable pub mosaic_name_dto_to_struct : (ℕ × ℕ) × List Bytes → Result MosaicName
unfolding mosaic_id_dto_to_struct
mosaic_name_dto_to_struct (id, names) = do
  mosaic_id ← mosaic_id_dto_to_struct id
  ok (record { mosaic_id = mosaic_id; names = names })

unfoldable pub mosaic_name_dtos_to_struct : List ((ℕ × ℕ) × List Bytes) → Result (List MosaicName)
unfolding all_to_struct mosaic_name_dto_to_struct
mosaic_name_dtos_to_struct dtos = all_to_struct mosaic_name_dto_to_struct dtos
