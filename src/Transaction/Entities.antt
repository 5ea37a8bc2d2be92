-- ===== src/Transaction/Entities.antt =====
-- The entity types, the entity versions and the property types of sdk/transaction_model.go.
use go_xpx_chain_sdk.Base.{ℕ, ◌+◌}

abbrev pub entity_account_property_address : ℕ
entity_account_property_address = 0x4150

abbrev pub entity_account_property_mosaic : ℕ
entity_account_property_mosaic = 0x4250

abbrev pub entity_account_property_entity_type : ℕ
entity_account_property_entity_type = 0x4350

abbrev pub entity_address_alias : ℕ
entity_address_alias = 0x424e

abbrev pub entity_aggregate_bonded : ℕ
entity_aggregate_bonded = 0x4241

abbrev pub entity_aggregate_completed : ℕ
entity_aggregate_completed = 0x4141

abbrev pub entity_block : ℕ
entity_block = 0x8143

abbrev pub entity_nemesis_block : ℕ
entity_nemesis_block = 0x8043

abbrev pub entity_network_config : ℕ
entity_network_config = 0x4159

abbrev pub entity_blockchain_upgrade : ℕ
entity_blockchain_upgrade = 0x4158

abbrev pub entity_link_account : ℕ
entity_link_account = 0x414c

abbrev pub entity_lock : ℕ
entity_lock = 0x4148

abbrev pub entity_metadata_address : ℕ
entity_metadata_address = 0x413d

abbrev pub entity_metadata_mosaic : ℕ
entity_metadata_mosaic = 0x423d

abbrev pub entity_metadata_namespace : ℕ
entity_metadata_namespace = 0x433d

abbrev pub entity_modify_contract : ℕ
entity_modify_contract = 0x4157

abbrev pub entity_modify_multisig : ℕ
entity_modify_multisig = 0x4155

abbrev pub entity_mosaic_alias : ℕ
entity_mosaic_alias = 0x434e

abbrev pub entity_mosaic_definition : ℕ
entity_mosaic_definition = 0x414d

abbrev pub entity_mosaic_supply_change : ℕ
entity_mosaic_supply_change = 0x424d

abbrev pub entity_register_namespace : ℕ
entity_register_namespace = 0x414e

abbrev pub entity_secret_lock : ℕ
entity_secret_lock = 0x4152

abbrev pub entity_secret_proof : ℕ
entity_secret_proof = 0x4252

abbrev pub entity_transfer : ℕ
entity_transfer = 0x4154

abbrev pub account_property_address_version : ℕ
account_property_address_version = 1

abbrev pub account_property_mosaic_version : ℕ
account_property_mosaic_version = 1

abbrev pub account_property_entity_type_version : ℕ
account_property_entity_type_version = 1

abbrev pub address_alias_version : ℕ
address_alias_version = 1

abbrev pub aggregate_bonded_version : ℕ
aggregate_bonded_version = 2

abbrev pub aggregate_completed_version : ℕ
aggregate_completed_version = 2

abbrev pub network_config_version : ℕ
network_config_version = 1

abbrev pub blockchain_upgrade_version : ℕ
blockchain_upgrade_version = 1

abbrev pub link_account_version : ℕ
link_account_version = 2

abbrev pub lock_version : ℕ
lock_version = 1

abbrev pub metadata_address_version : ℕ
metadata_address_version = 1

abbrev pub metadata_mosaic_version : ℕ
metadata_mosaic_version = 1

abbrev pub metadata_namespace_version : ℕ
metadata_namespace_version = 1

abbrev pub modify_contract_version : ℕ
modify_contract_version = 3

abbrev pub modify_multisig_version : ℕ
modify_multisig_version = 3

abbrev pub mosaic_alias_version : ℕ
mosaic_alias_version = 1

abbrev pub mosaic_definition_version : ℕ
mosaic_definition_version = 3

abbrev pub mosaic_supply_change_version : ℕ
mosaic_supply_change_version = 2

abbrev pub register_namespace_version : ℕ
register_namespace_version = 2

abbrev pub secret_lock_version : ℕ
secret_lock_version = 1

abbrev pub secret_proof_version : ℕ
secret_proof_version = 1

abbrev pub transfer_version : ℕ
transfer_version = 3

abbrev pub allow_address : ℕ
allow_address = 0x01

abbrev pub allow_mosaic : ℕ
allow_mosaic = 0x02

abbrev pub allow_transaction : ℕ
allow_transaction = 0x04

abbrev pub sentinel : ℕ
sentinel = 0x05

abbrev pub block_address : ℕ
block_address = 0x80 + 0x01

abbrev pub block_mosaic : ℕ
block_mosaic = 0x80 + 0x02

abbrev pub block_transaction : ℕ
block_transaction = 0x80 + 0x04
