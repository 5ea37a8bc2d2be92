-- ===== src/Client/Builders.antt =====
-- The makers of transactions of sdk/sdk.go: each calls the constructor with the network of the client and
-- then `modifyTransaction`.
use go_xpx_chain_sdk.Client.Instances.Accounts.{
  address_alias_is_transaction, mosaic_alias_is_transaction, account_link_is_transaction,
  account_properties_address_is_transaction, account_properties_mosaic_is_transaction,
  account_properties_entity_type_is_transaction, modify_metadata_address_is_transaction,
  modify_metadata_mosaic_is_transaction, modify_metadata_namespace_is_transaction,
  modify_multisig_account_is_transaction, modify_contract_is_transaction,
}
use go_xpx_chain_sdk.Client.Instances.Assets.{
  blockchain_upgrade_is_transaction, aggregate_is_transaction, mosaic_definition_is_transaction,
  mosaic_supply_change_is_transaction, transfer_is_transaction, register_namespace_is_transaction,
  lock_funds_is_transaction, secret_lock_is_transaction, secret_proof_is_transaction,
  network_config_is_transaction,
}
use go_xpx_chain_sdk.Base.{Bytes, List, Option, Result, ℕ, ◌>>=◌}
use go_xpx_chain_sdk.Asset.{AssetId, Mosaic, MosaicId, MosaicProperties, NamespaceId}
use go_xpx_chain_sdk.Client.{Config, modify_transaction}
use go_xpx_chain_sdk.Network.{NetworkConfig}
use go_xpx_chain_sdk.Network.Entities.{EntityDto, SupportedEntities}
use go_xpx_chain_sdk.Secret.{Secret, hash_type}
use go_xpx_chain_sdk.Transaction.{Address, Deadline, PublicAccount, SignedTransaction}
use go_xpx_chain_sdk.Transaction.AccountLink.{AccountLinkTransaction, new_account_link_transaction}
use go_xpx_chain_sdk.Transaction.AccountProperties.{
  AccountPropertiesAddressModification, AccountPropertiesAddressTransaction,
  AccountPropertiesEntityTypeModification, AccountPropertiesEntityTypeTransaction,
  AccountPropertiesMosaicModification, AccountPropertiesMosaicTransaction,
  new_account_properties_address_transaction, new_account_properties_entity_type_transaction,
  new_account_properties_mosaic_transaction,
}
use go_xpx_chain_sdk.Transaction.Aggregate.{
  AggregateTransaction, new_bonded_aggregate_transaction, new_complete_aggregate_transaction,
}
use go_xpx_chain_sdk.Transaction.Alias.{
  AddressAliasTransaction, MosaicAliasTransaction, new_address_alias_transaction,
  new_mosaic_alias_transaction,
}
use go_xpx_chain_sdk.Transaction.BlockchainUpgrade.{
  BlockchainUpgradeTransaction, new_blockchain_upgrade_transaction,
}
use go_xpx_chain_sdk.Transaction.LockFunds.{LockFundsTransaction, new_lock_funds_transaction}
use go_xpx_chain_sdk.Transaction.ModifyContract.{
  ModifyContractTransaction, new_modify_contract_transaction,
}
use go_xpx_chain_sdk.Transaction.ModifyMetadata.{
  MetadataModification, ModifyMetadataAddressTransaction, ModifyMetadataMosaicTransaction,
  ModifyMetadataNamespaceTransaction, new_modify_metadata_address_transaction,
  new_modify_metadata_mosaic_transaction, new_modify_metadata_namespace_transaction,
}
use go_xpx_chain_sdk.Transaction.ModifyMultisig.{
  ModifyMultisigAccountTransaction, MultisigCosignatoryModification,
  new_modify_multisig_account_transaction,
}
use go_xpx_chain_sdk.Transaction.MosaicDefinition.{
  MosaicDefinitionTransaction, new_mosaic_definition_transaction,
}
use go_xpx_chain_sdk.Transaction.MosaicSupplyChange.{
  MosaicSupplyChangeTransaction, new_mosaic_supply_change_transaction,
}
use go_xpx_chain_sdk.Transaction.NetworkConfig.{
  NetworkConfigTransaction, new_network_config_transaction,
}
use go_xpx_chain_sdk.Transaction.RegisterNamespace.{
  RegisterNamespaceTransaction, new_register_root_namespace_transaction,
  new_register_sub_namespace_transaction,
}
use go_xpx_chain_sdk.Transaction.SecretLock.{SecretLockTransaction, new_secret_lock_transaction}
use go_xpx_chain_sdk.Transaction.SecretProof.{SecretProofTransaction, new_secret_proof_transaction}
use go_xpx_chain_sdk.Transaction.Signing.{Transaction}
use go_xpx_chain_sdk.Transaction.Transfer.{
  Message, TransferTransaction, new_transfer_transaction, new_transfer_transaction_with_namespace,
}
use go_xpx_chain_sdk.Uint64.{new_block_chain_version}

unfoldable pub client_new_address_alias_transaction :
    Config
    → Option Deadline
    → Option Address
    → Option NamespaceId
    → ℕ
    → Result AddressAliasTransaction
unfolding modify_transaction
client_new_address_alias_transaction c deadline address namespace_id action_type = do
  tx ← new_address_alias_transaction deadline address namespace_id action_type c.network_type
  modify_transaction c tx

unfoldable pub client_new_mosaic_alias_transaction :
    Config
    → Option Deadline
    → Option MosaicId
    → Option NamespaceId
    → ℕ
    → Result MosaicAliasTransaction
unfolding modify_transaction
client_new_mosaic_alias_transaction c deadline mosaic_id namespace_id action_type = do
  tx ← new_mosaic_alias_transaction deadline mosaic_id namespace_id action_type c.network_type
  modify_transaction c tx

unfoldable pub client_new_account_link_transaction :
    Config → Option Deadline → Option PublicAccount → ℕ → Result AccountLinkTransaction
unfolding modify_transaction
client_new_account_link_transaction c deadline remote_account link_action = do
  tx ← new_account_link_transaction deadline remote_account link_action c.network_type
  modify_transaction c tx

unfoldable pub client_new_account_properties_address_transaction :
    Config
    → Option Deadline
    → ℕ
    → List AccountPropertiesAddressModification
    → Result AccountPropertiesAddressTransaction
unfolding modify_transaction
client_new_account_properties_address_transaction c deadline property_type modifications = do
  tx ←
      new_account_properties_address_transaction deadline property_type modifications c.network_type
  modify_transaction c tx

unfoldable pub client_new_account_properties_mosaic_transaction :
    Config
    → Option Deadline
    → ℕ
    → List AccountPropertiesMosaicModification
    → Result AccountPropertiesMosaicTransaction
unfolding modify_transaction
client_new_account_properties_mosaic_transaction c deadline property_type modifications = do
  tx ← new_account_properties_mosaic_transaction deadline property_type modifications c.network_type
  modify_transaction c tx

unfoldable pub client_new_account_properties_entity_type_transaction :
    Config
    → Option Deadline
    → ℕ
    → List AccountPropertiesEntityTypeModification
    → Result AccountPropertiesEntityTypeTransaction
unfolding modify_transaction
client_new_account_properties_entity_type_transaction c deadline property_type modifications = do
  tx ←
      new_account_properties_entity_type_transaction deadline property_type modifications
        c.network_type
  modify_transaction c tx

unfoldable pub client_new_network_config_transaction :
    (List EntityDto → Result Bytes)
    → Config
    → Option Deadline
    → ℕ
    → Option NetworkConfig
    → Option SupportedEntities
    → Result NetworkConfigTransaction
unfolding modify_transaction
client_new_network_config_transaction json_marshal_indent c deadline delta config entities = do
  tx ← new_network_config_transaction deadline delta config entities c.network_type
  modify_transaction ⦃i = network_config_is_transaction json_marshal_indent⦄ c tx

unfoldable pub client_new_blockchain_upgrade_transaction :
    Config → Option Deadline → ℕ → ℕ → Result BlockchainUpgradeTransaction
unfolding modify_transaction
client_new_blockchain_upgrade_transaction c deadline upgrade_period new_block_chain_version = do
  tx ←
      new_blockchain_upgrade_transaction deadline upgrade_period new_block_chain_version
        c.network_type
  modify_transaction c tx

unfoldable pub client_new_complete_aggregate_transaction :
    Config → Option Deadline → Option (List Transaction) → Result AggregateTransaction
unfolding modify_transaction
client_new_complete_aggregate_transaction c deadline inner_txs = do
  tx ← new_complete_aggregate_transaction deadline inner_txs c.network_type
  modify_transaction c tx

unfoldable pub client_new_bonded_aggregate_transaction :
    Config → Option Deadline → Option (List Transaction) → Result AggregateTransaction
unfolding modify_transaction
client_new_bonded_aggregate_transaction c deadline inner_txs = do
  tx ← new_bonded_aggregate_transaction deadline inner_txs c.network_type
  modify_transaction c tx

unfoldable pub client_new_modify_metadata_address_transaction :
    Config
    → Option Deadline
    → Option Address
    → List MetadataModification
    → Result ModifyMetadataAddressTransaction
unfolding modify_transaction
client_new_modify_metadata_address_transaction c deadline address modifications = do
  tx ← new_modify_metadata_address_transaction deadline address modifications c.network_type
  modify_transaction c tx

unfoldable pub client_new_modify_metadata_mosaic_transaction :
    Config
    → Option Deadline
    → Option MosaicId
    → List MetadataModification
    → Result ModifyMetadataMosaicTransaction
unfolding modify_transaction
client_new_modify_metadata_mosaic_transaction c deadline mosaic_id modifications = do
  tx ← new_modify_metadata_mosaic_transaction deadline mosaic_id modifications c.network_type
  modify_transaction c tx

unfoldable pub client_new_modify_metadata_namespace_transaction :
    Config
    → Option Deadline
    → Option NamespaceId
    → List MetadataModification
    → Result ModifyMetadataNamespaceTransaction
unfolding modify_transaction
client_new_modify_metadata_namespace_transaction c deadline namespace_id modifications = do
  tx ← new_modify_metadata_namespace_transaction deadline namespace_id modifications c.network_type
  modify_transaction c tx

unfoldable pub client_new_modify_multisig_account_transaction :
    Config
    → Option Deadline
    → ℕ
    → ℕ
    → List MultisigCosignatoryModification
    → Result ModifyMultisigAccountTransaction
unfolding modify_transaction
client_new_modify_multisig_account_transaction c deadline min_approval_delta min_removal_delta
      modifications =
    do
      tx ←
          new_modify_multisig_account_transaction deadline min_approval_delta min_removal_delta
            modifications c.network_type
      modify_transaction c tx

unfoldable pub client_new_modify_contract_transaction :
    Config
    → Option Deadline
    → ℕ
    → Option Bytes
    → List MultisigCosignatoryModification
    → List MultisigCosignatoryModification
    → List MultisigCosignatoryModification
    → Result ModifyContractTransaction
unfolding modify_transaction
client_new_modify_contract_transaction c deadline duration_delta hash customers executors
      verifiers =
    do
      tx ←
          new_modify_contract_transaction deadline duration_delta hash customers executors verifiers
            c.network_type
      modify_transaction c tx

unfoldable pub client_new_mosaic_definition_transaction :
    (Bytes → Bytes)
    → Config
    → Option Deadline
    → ℕ
    → Bytes
    → Option MosaicProperties
    → Result MosaicDefinitionTransaction
unfolding modify_transaction
client_new_mosaic_definition_transaction sha3 c deadline nonce owner_public_key mosaic_props = do
  tx ←
      new_mosaic_definition_transaction sha3 deadline nonce owner_public_key mosaic_props
        c.network_type
  modify_transaction c tx

unfoldable pub client_new_mosaic_supply_change_transaction :
    Config → Option Deadline → Option AssetId → ℕ → ℕ → Result MosaicSupplyChangeTransaction
unfolding modify_transaction
client_new_mosaic_supply_change_transaction c deadline asset_id supply_type delta = do
  tx ← new_mosaic_supply_change_transaction deadline asset_id supply_type delta c.network_type
  modify_transaction c tx

unfoldable pub client_new_transfer_transaction :
    Config
    → Option Deadline
    → Option Address
    → Option (List Mosaic)
    → Option Message
    → Result TransferTransaction
unfolding modify_transaction
client_new_transfer_transaction c deadline recipient mosaics message = do
  tx ← new_transfer_transaction deadline recipient mosaics message c.network_type
  modify_transaction c tx

unfoldable pub client_new_transfer_transaction_with_namespace :
    Config
    → Option Deadline
    → Option NamespaceId
    → Option (List Mosaic)
    → Option Message
    → Result TransferTransaction
unfolding modify_transaction
client_new_transfer_transaction_with_namespace c deadline recipient mosaics message = do
  tx ← new_transfer_transaction_with_namespace deadline recipient mosaics message c.network_type
  modify_transaction c tx

unfoldable pub client_new_register_root_namespace_transaction :
    (Bytes → Bytes) → Config → Option Deadline → Bytes → ℕ → Result RegisterNamespaceTransaction
unfolding modify_transaction
client_new_register_root_namespace_transaction sha3 c deadline namespace_name duration = do
  tx ← new_register_root_namespace_transaction sha3 deadline namespace_name duration c.network_type
  modify_transaction c tx

unfoldable pub client_new_register_sub_namespace_transaction :
    (Bytes → Bytes)
    → Config
    → Option Deadline
    → Bytes
    → Option NamespaceId
    → Result RegisterNamespaceTransaction
unfolding modify_transaction
client_new_register_sub_namespace_transaction sha3 c deadline namespace_name parent_id = do
  tx ← new_register_sub_namespace_transaction sha3 deadline namespace_name parent_id c.network_type
  modify_transaction c tx

unfoldable pub client_new_lock_funds_transaction :
    Config
    → Option Deadline
    → Option Mosaic
    → ℕ
    → Option SignedTransaction
    → Result LockFundsTransaction
unfolding modify_transaction
client_new_lock_funds_transaction c deadline mosaic duration signed_tx = do
  tx ← new_lock_funds_transaction deadline mosaic duration signed_tx c.network_type
  modify_transaction c tx

unfoldable pub client_new_secret_lock_transaction :
    Config
    → Option Deadline
    → Option Mosaic
    → ℕ
    → Option Secret
    → Option Address
    → Result SecretLockTransaction
unfolding modify_transaction
client_new_secret_lock_transaction c deadline mosaic duration secret recipient = do
  tx ← new_secret_lock_transaction deadline mosaic duration secret recipient c.network_type
  modify_transaction c tx

unfoldable pub client_new_secret_proof_transaction :
    Config → Option Deadline → ℕ → Option Bytes → Option Address → Result SecretProofTransaction
unfolding modify_transaction
client_new_secret_proof_transaction c deadline hash_type proof recipient = do
  tx ← new_secret_proof_transaction deadline hash_type proof recipient c.network_type
  modify_transaction c tx
