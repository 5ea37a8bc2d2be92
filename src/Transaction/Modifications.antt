-- ===== src/Transaction/Modifications.antt =====
-- What sdk/transaction_model.go makes of the modifications and the cosignatures in responses.
use go_xpx_chain_sdk.Base.{Bytes, List, Result, ok, some, ℕ, ◌>>=◌}
use go_xpx_chain_sdk.Account.{new_account_from_public_key, new_address_from_base32}
use go_xpx_chain_sdk.Asset.{asset_id_dto_to_struct}
use go_xpx_chain_sdk.Info.{all_to_struct}
use go_xpx_chain_sdk.Secret.{Hashes}
use go_xpx_chain_sdk.Transaction.{PublicAccount}
use go_xpx_chain_sdk.Transaction.AccountProperties.{
  AccountPropertiesAddressModification, AccountPropertiesEntityTypeModification,
  AccountPropertiesMosaicModification,
}
use go_xpx_chain_sdk.Transaction.ModifyMetadata.{MetadataModification}
use go_xpx_chain_sdk.Transaction.ModifyMultisig.{MultisigCosignatoryModification}

unfoldable pub address_modification_dto_to_struct :
    ℕ × Bytes → Result AccountPropertiesAddressModification
unfolding new_address_from_base32
address_modification_dto_to_struct (type, address) = do
  a ← new_address_from_base32 address
  ok (record { modification_type = type; address = some a })

unfoldable pub mosaic_modification_dto_to_struct :
    ℕ × (ℕ × ℕ) → Result AccountPropertiesMosaicModification
unfolding asset_id_dto_to_struct
mosaic_modification_dto_to_struct (type, id) = do
  asset_id ← asset_id_dto_to_struct id
  ok (record { modification_type = type; asset_id = asset_id })

unfoldable pub entity_type_modification_dto_to_struct :
    ℕ × ℕ → Result AccountPropertiesEntityTypeModification
entity_type_modification_dto_to_struct (type, entity_type) =
    ok (record { modification_type = type; entity_type = entity_type })

unfoldable pub metadata_modification_dto_to_struct :
    ℕ × (Bytes × Bytes) → Result MetadataModification
metadata_modification_dto_to_struct (type, (key, value)) =
    ok (record { type = type; key = key; value = value })

unfoldable pub metadata_dto_array_to_struct :
    List (ℕ × (Bytes × Bytes)) → Result (List MetadataModification)
unfolding all_to_struct metadata_modification_dto_to_struct
metadata_dto_array_to_struct modifications =
    all_to_struct metadata_modification_dto_to_struct modifications

pub record AggregateTransactionCosignature : Type 0 where
  pub signature : Bytes
  pub signer : PublicAccount

module _ (crypto : Hashes) (network_type : ℕ) where
  unfoldable pub multisig_cosignatory_modification_dto_to_struct :
      ℕ × Bytes → Result MultisigCosignatoryModification
  unfolding new_account_from_public_key
  multisig_cosignatory_modification_dto_to_struct (type, public_account) = do
    acc ← new_account_from_public_key crypto public_account network_type
    ok (record { type = type; public_account = acc })

  unfoldable pub multisig_cosignatory_dto_array_to_struct :
      List (ℕ × Bytes) → Result (List MultisigCosignatoryModification)
  unfolding all_to_struct multisig_cosignatory_modification_dto_to_struct
  multisig_cosignatory_dto_array_to_struct modifications =
      all_to_struct multisig_cosignatory_modification_dto_to_struct modifications

  unfoldable pub aggregate_transaction_cosignature_dto_to_struct :
      Bytes × Bytes → Result AggregateTransactionCosignature
  unfolding new_account_from_public_key
  aggregate_transaction_cosignature_dto_to_struct (signature, signer) = do
    acc ← new_account_from_public_key crypto signer network_type
    ok (record { signature = signature; signer = acc })
