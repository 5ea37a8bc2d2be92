-- ===== src/Transaction/Sizes.antt =====
-- The sizes in bytes of sdk/transaction_model.go.
use go_xpx_chain_sdk.Base.{ℕ, ◌*◌, ◌+◌, ◌/◌}

abbrev pub address_size : ℕ
address_size = 25

abbrev pub base_int64_size : ℕ
base_int64_size = 8

abbrev pub amount_size : ℕ
amount_size = base_int64_size

abbrev pub key_size : ℕ
key_size = 32

abbrev pub hash256 : ℕ
hash256 = 32

abbrev pub mosaic_id_size : ℕ
mosaic_id_size = base_int64_size

abbrev pub namespace_size : ℕ
namespace_size = base_int64_size

abbrev pub size_size : ℕ
size_size = 4

abbrev pub max_string_size : ℕ
max_string_size = 2

abbrev pub signer_size : ℕ
signer_size = key_size

abbrev pub signature_size : ℕ
signature_size = 64

abbrev pub half_of_signature : ℕ
half_of_signature = signature_size / 2

abbrev pub version_size : ℕ
version_size = 4

abbrev pub type_size : ℕ
type_size = 2

abbrev pub max_fee_size : ℕ
max_fee_size = base_int64_size

abbrev pub dead_line_size : ℕ
dead_line_size = base_int64_size

abbrev pub duration_size : ℕ
duration_size = base_int64_size

abbrev pub transaction_header_size : ℕ
transaction_header_size =
    size_size + signer_size + signature_size + version_size + type_size + max_fee_size
    + dead_line_size

abbrev pub property_type_size : ℕ
property_type_size = 2

abbrev pub property_modification_type_size : ℕ
property_modification_type_size = 1

abbrev pub account_properties_address_modification_size : ℕ
account_properties_address_modification_size = property_modification_type_size + address_size

abbrev pub account_properties_mosaic_modification_size : ℕ
account_properties_mosaic_modification_size = property_modification_type_size + mosaic_id_size

abbrev pub account_properties_entity_modification_size : ℕ
account_properties_entity_modification_size = property_modification_type_size + type_size

abbrev pub account_property_address_header : ℕ
account_property_address_header = transaction_header_size + property_type_size

abbrev pub account_property_mosaic_header : ℕ
account_property_mosaic_header = transaction_header_size + property_type_size

abbrev pub account_property_entity_type_header : ℕ
account_property_entity_type_header = transaction_header_size + property_type_size

abbrev pub link_action_size : ℕ
link_action_size = 1

abbrev pub account_link_transaction_size : ℕ
account_link_transaction_size = transaction_header_size + key_size + link_action_size

abbrev pub alias_action_size : ℕ
alias_action_size = 1

abbrev pub alias_transaction_header_size : ℕ
alias_transaction_header_size = transaction_header_size + namespace_size + alias_action_size

abbrev pub aggregate_bonded_header_size : ℕ
aggregate_bonded_header_size = transaction_header_size + size_size

abbrev pub network_config_header_size : ℕ
network_config_header_size =
    transaction_header_size + base_int64_size + max_string_size + max_string_size

abbrev pub blockchain_upgrade_transaction_size : ℕ
blockchain_upgrade_transaction_size = transaction_header_size + duration_size + base_int64_size

abbrev pub hash_type_size : ℕ
hash_type_size = 1

abbrev pub lock_size : ℕ
lock_size = transaction_header_size + mosaic_id_size + amount_size + duration_size + hash256

abbrev pub metadata_type_size : ℕ
metadata_type_size = 1

abbrev pub metadata_header_size : ℕ
metadata_header_size = transaction_header_size + metadata_type_size

abbrev pub modifications_size_size : ℕ
modifications_size_size = 1

abbrev pub modify_contract_header_size : ℕ
modify_contract_header_size =
    transaction_header_size + duration_size + hash256 + 3 * modifications_size_size

abbrev pub min_approval_size : ℕ
min_approval_size = 1

abbrev pub min_removal_size : ℕ
min_removal_size = 1

abbrev pub modify_multisig_header_size : ℕ
modify_multisig_header_size =
    transaction_header_size + min_approval_size + min_removal_size + modifications_size_size

abbrev pub mosaic_nonce_size : ℕ
mosaic_nonce_size = 4

abbrev pub mosaic_properties_header_size : ℕ
mosaic_properties_header_size = 3

abbrev pub mosaic_property_id_size : ℕ
mosaic_property_id_size = 1

abbrev pub mosaic_optional_property_size : ℕ
mosaic_optional_property_size = mosaic_property_id_size + base_int64_size

abbrev pub mosaic_definition_transaction_header_size : ℕ
mosaic_definition_transaction_header_size =
    transaction_header_size + mosaic_nonce_size + mosaic_id_size + mosaic_properties_header_size

abbrev pub mosaic_supply_direction_size : ℕ
mosaic_supply_direction_size = 1

abbrev pub mosaic_supply_change_transaction_size : ℕ
mosaic_supply_change_transaction_size =
    transaction_header_size + mosaic_id_size + amount_size + mosaic_supply_direction_size

abbrev pub namespace_type_size : ℕ
namespace_type_size = 1

abbrev pub namespace_name_size_size : ℕ
namespace_name_size_size = 1

abbrev pub register_namespace_header_size : ℕ
register_namespace_header_size =
    transaction_header_size + namespace_type_size + duration_size + namespace_size
    + namespace_name_size_size

abbrev pub secret_lock_size : ℕ
secret_lock_size =
    transaction_header_size + mosaic_id_size + amount_size + duration_size + hash_type_size
    + hash256 + address_size

abbrev pub proof_size_size : ℕ
proof_size_size = 2

abbrev pub secret_proof_header_size : ℕ
secret_proof_header_size =
    transaction_header_size + hash_type_size + hash256 + address_size + proof_size_size

abbrev pub mosaics_size_size : ℕ
mosaics_size_size = 1

abbrev pub message_size_size : ℕ
message_size_size = 2

abbrev pub transfer_header_size : ℕ
transfer_header_size =
    transaction_header_size + address_size + mosaics_size_size + message_size_size
