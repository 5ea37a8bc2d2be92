-- ===== src/Schema/Definitions.antt =====
-- sdk/transaction_schema.go: the wire layout of each type of transaction.
use go_xpx_chain_sdk.Schema.{
  Schema, SchemaAttribute, no_attribute, attribute, array_attribute, scalar_attribute,
  table_array_attribute, table_attribute, byte_size, short_size, int_size,
}

infixr 6 ◌▹◌
abbrev ◌▹◌ : SchemaAttribute → Schema → Schema
a ▹ rest = attribute a rest

-- The seven attributes that every schema of the file begins with.
header : Schema → Schema
header rest =
    scalar_attribute "size" int_size
    ▹ array_attribute "signature" byte_size
    ▹ array_attribute "signer" byte_size
    ▹ scalar_attribute "version" int_size
    ▹ scalar_attribute "type" short_size
    ▹ array_attribute "maxFee" int_size
    ▹ array_attribute "deadline" int_size
    ▹ rest

unfoldable pub account_link_transaction_schema : Schema
unfolding header
account_link_transaction_schema = header (
    array_attribute "remoteAccountKey" byte_size
    ▹ scalar_attribute "linkAction" byte_size
    ▹ no_attribute)

unfoldable pub account_property_transaction_schema : Schema
unfolding header
account_property_transaction_schema = header (
    scalar_attribute "propertyType" byte_size
    ▹ scalar_attribute "modificationCount" byte_size
    ▹ table_array_attribute "modifications" (
        scalar_attribute "modificationType" byte_size
        ▹ array_attribute "value" byte_size
        ▹ no_attribute)
    ▹ no_attribute)

unfoldable pub alias_transaction_schema : Schema
unfolding header
alias_transaction_schema = header (
    scalar_attribute "actionType" byte_size
    ▹ array_attribute "namespaceId" int_size
    ▹ array_attribute "aliasId" byte_size
    ▹ no_attribute)

unfoldable pub aggregate_transaction_schema : Schema
unfolding header
aggregate_transaction_schema = header (
    scalar_attribute "transactionsSize" int_size
    ▹ array_attribute "transactions" byte_size
    ▹ no_attribute)

unfoldable pub network_config_transaction_schema : Schema
unfolding header
network_config_transaction_schema = header (
    array_attribute "applyHeightDelta" int_size
    ▹ scalar_attribute "networkConfigSize" short_size
    ▹ scalar_attribute "supportedEntityVersionsSize" short_size
    ▹ array_attribute "networkConfig" byte_size
    ▹ array_attribute "supportedEntityVersions" byte_size
    ▹ no_attribute)

unfoldable pub blockchain_upgrade_transaction_schema : Schema
unfolding header
blockchain_upgrade_transaction_schema = header (
    array_attribute "upgradePeriod" int_size
    ▹ array_attribute "newBlockChainVersion" int_size
    ▹ no_attribute)

unfoldable pub modify_metadata_transaction_schema : Schema
unfolding header
modify_metadata_transaction_schema = header (
    scalar_attribute "metadataType" byte_size
    ▹ array_attribute "metadataId" byte_size
    ▹ table_array_attribute "modifications" (
        scalar_attribute "size" int_size
        ▹ scalar_attribute "modificationType" byte_size
        ▹ scalar_attribute "keySize" byte_size
        ▹ array_attribute "valueSize" byte_size
        ▹ array_attribute "key" byte_size
        ▹ array_attribute "value" byte_size
        ▹ no_attribute)
    ▹ no_attribute)

unfoldable pub mosaic_definition_transaction_schema : Schema
unfolding header
mosaic_definition_transaction_schema = header (
    scalar_attribute "mosaicNonce" int_size
    ▹ array_attribute "mosaicId" int_size
    ▹ scalar_attribute "numOptionalProperties" byte_size
    ▹ scalar_attribute "flags" byte_size
    ▹ scalar_attribute "divisibility" byte_size
    ▹ table_array_attribute "modifications" (
        scalar_attribute "mosaicPropertyId" byte_size
        ▹ array_attribute "value" int_size
        ▹ no_attribute)
    ▹ no_attribute)

unfoldable pub mosaic_supply_change_transaction_schema : Schema
unfolding header
mosaic_supply_change_transaction_schema = header (
    array_attribute "mosaicId" int_size
    ▹ scalar_attribute "direction" byte_size
    ▹ array_attribute "delta" int_size
    ▹ no_attribute)

unfoldable pub transfer_transaction_schema : Schema
unfolding header
transfer_transaction_schema = header (
    array_attribute "recipient" byte_size
    ▹ scalar_attribute "messageSize" short_size
    ▹ scalar_attribute "numMosaics" byte_size
    ▹ table_attribute "message"
        (scalar_attribute "type" byte_size ▹ array_attribute "payload" byte_size ▹ no_attribute)
    ▹ table_array_attribute "mosaics"
        (array_attribute "id" int_size ▹ array_attribute "amount" int_size ▹ no_attribute)
    ▹ no_attribute)

unfoldable pub modify_multisig_account_transaction_schema : Schema
unfolding header
modify_multisig_account_transaction_schema = header (
    scalar_attribute "minRemovalDelta" byte_size
    ▹ scalar_attribute "minApprovalDelta" byte_size
    ▹ scalar_attribute "numModifications" byte_size
    ▹ table_array_attribute "modification" (
        scalar_attribute "type" byte_size
        ▹ array_attribute "cosignatoryPublicKey" byte_size
        ▹ no_attribute)
    ▹ no_attribute)

unfoldable pub modify_contract_transaction_schema : Schema
unfolding header
modify_contract_transaction_schema = header (
    array_attribute "durationDelta" int_size
    ▹ array_attribute "hash" byte_size
    ▹ scalar_attribute "numCustomers" byte_size
    ▹ scalar_attribute "numExecutors" byte_size
    ▹ scalar_attribute "numVerifiers" byte_size
    ▹ table_array_attribute "customers" (
        scalar_attribute "type" byte_size
        ▹ array_attribute "cosignatoryPublicKey" byte_size
        ▹ no_attribute)
    ▹ table_array_attribute "executors" (
        scalar_attribute "type" byte_size
        ▹ array_attribute "cosignatoryPublicKey" byte_size
        ▹ no_attribute)
    ▹ table_array_attribute "verifiers" (
        scalar_attribute "type" byte_size
        ▹ array_attribute "cosignatoryPublicKey" byte_size
        ▹ no_attribute)
    ▹ no_attribute)

unfoldable pub register_namespace_transaction_schema : Schema
unfolding header
register_namespace_transaction_schema = header (
    scalar_attribute "namespaceType" byte_size
    ▹ array_attribute "durationParentId" int_size
    ▹ array_attribute "namespaceId" int_size
    ▹ scalar_attribute "namespaceNameSize" byte_size
    ▹ array_attribute "name" byte_size
    ▹ no_attribute)

unfoldable pub lock_funds_transaction_schema : Schema
unfolding header
lock_funds_transaction_schema = header (
    array_attribute "mosaicId" int_size
    ▹ array_attribute "mosaicAmount" int_size
    ▹ array_attribute "duration" int_size
    ▹ array_attribute "hash" byte_size
    ▹ no_attribute)

unfoldable pub secret_lock_transaction_schema : Schema
unfolding header
secret_lock_transaction_schema = header (
    array_attribute "mosaicId" int_size
    ▹ array_attribute "mosaicAmount" int_size
    ▹ array_attribute "duration" int_size
    ▹ scalar_attribute "hashAlgorithm" byte_size
    ▹ array_attribute "secret" byte_size
    ▹ array_attribute "recipient" byte_size
    ▹ no_attribute)

unfoldable pub secret_proof_transaction_schema : Schema
unfolding header
secret_proof_transaction_schema = header (
    scalar_attribute "hashAlgorithm" byte_size
    ▹ array_attribute "secret" byte_size
    ▹ array_attribute "recipient" byte_size
    ▹ scalar_attribute "proofSize" short_size
    ▹ array_attribute "proof" byte_size
    ▹ no_attribute)
