-- ===== src/Buffers/Chain.antt =====
-- The setters of the generated table builders: which slot of the object each of them fills.
use go_xpx_chain_sdk.Base.{ℕ}
use go_xpx_chain_sdk.Buffers.{add_slot, start_object}
use go_xpx_chain_sdk.Schema.Format.{Slot, Slots, number}

-- transactions/network_config_transaction_buffer.go
unfoldable pub network_config_transaction_buffer_start : Slots
unfolding start_object
network_config_transaction_buffer_start = start_object 12

unfoldable pub network_config_transaction_buffer_add_apply_height_delta : Slot → Slots → Slots
unfolding add_slot
network_config_transaction_buffer_add_apply_height_delta content t = add_slot 7 content t

unfoldable pub network_config_transaction_buffer_add_network_config_size : ℕ → Slots → Slots
unfolding add_slot
network_config_transaction_buffer_add_network_config_size value t = add_slot 8 (number 2 value) t

unfoldable pub network_config_transaction_buffer_add_supported_entity_versions_size :
    ℕ → Slots → Slots
unfolding add_slot
network_config_transaction_buffer_add_supported_entity_versions_size value t =
    add_slot 9 (number 2 value) t

unfoldable pub network_config_transaction_buffer_add_network_config : Slot → Slots → Slots
unfolding add_slot
network_config_transaction_buffer_add_network_config content t = add_slot 10 content t

unfoldable pub network_config_transaction_buffer_add_supported_entity_versions :
    Slot → Slots → Slots
unfolding add_slot
network_config_transaction_buffer_add_supported_entity_versions content t = add_slot 11 content t

-- transactions/blockchain_update_transaction_buffer.go
unfoldable pub blockchain_upgrade_transaction_buffer_start : Slots
unfolding start_object
blockchain_upgrade_transaction_buffer_start = start_object 9

unfoldable pub blockchain_upgrade_transaction_buffer_add_upgrade_period : Slot → Slots → Slots
unfolding add_slot
blockchain_upgrade_transaction_buffer_add_upgrade_period content t = add_slot 7 content t

unfoldable pub blockchain_upgrade_transaction_buffer_add_new_block_chain_version :
    Slot → Slots → Slots
unfolding add_slot
blockchain_upgrade_transaction_buffer_add_new_block_chain_version content t = add_slot 8 content t
