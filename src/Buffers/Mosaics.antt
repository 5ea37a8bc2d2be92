-- ===== src/Buffers/Mosaics.antt =====
-- The setters of the generated table builders: which slot of the object each of them fills.
use go_xpx_chain_sdk.Base.{ℕ}
use go_xpx_chain_sdk.Buffers.{add_slot, start_object}
use go_xpx_chain_sdk.Schema.Format.{Slot, Slots, number}

-- transactions/mosaic_buffer.go
unfoldable pub mosaic_buffer_start : Slots
unfolding start_object
mosaic_buffer_start = start_object 2

unfoldable pub mosaic_buffer_add_id : Slot → Slots → Slots
unfolding add_slot
mosaic_buffer_add_id content t = add_slot 0 content t

unfoldable pub mosaic_buffer_add_amount : Slot → Slots → Slots
unfolding add_slot
mosaic_buffer_add_amount content t = add_slot 1 content t

-- transactions/mosaic_definition_transaction_buffer.go
unfoldable pub mosaic_property_start : Slots
unfolding start_object
mosaic_property_start = start_object 2

unfoldable pub mosaic_property_add_mosaic_property_id : ℕ → Slots → Slots
unfolding add_slot
mosaic_property_add_mosaic_property_id value t = add_slot 0 (number 1 value) t

unfoldable pub mosaic_property_add_value : Slot → Slots → Slots
unfolding add_slot
mosaic_property_add_value content t = add_slot 1 content t

unfoldable pub mosaic_definition_transaction_buffer_start : Slots
unfolding start_object
mosaic_definition_transaction_buffer_start = start_object 13

unfoldable pub mosaic_definition_transaction_buffer_add_mosaic_nonce : ℕ → Slots → Slots
unfolding add_slot
mosaic_definition_transaction_buffer_add_mosaic_nonce value t = add_slot 7 (number 4 value) t

unfoldable pub mosaic_definition_transaction_buffer_add_mosaic_id : Slot → Slots → Slots
unfolding add_slot
mosaic_definition_transaction_buffer_add_mosaic_id content t = add_slot 8 content t

unfoldable pub mosaic_definition_transaction_buffer_add_num_optional_properties : ℕ → Slots → Slots
unfolding add_slot
mosaic_definition_transaction_buffer_add_num_optional_properties value t =
    add_slot 9 (number 1 value) t

unfoldable pub mosaic_definition_transaction_buffer_add_flags : ℕ → Slots → Slots
unfolding add_slot
mosaic_definition_transaction_buffer_add_flags value t = add_slot 10 (number 1 value) t

unfoldable pub mosaic_definition_transaction_buffer_add_divisibility : ℕ → Slots → Slots
unfolding add_slot
mosaic_definition_transaction_buffer_add_divisibility value t = add_slot 11 (number 1 value) t

unfoldable pub mosaic_definition_transaction_buffer_add_optional_properties : Slot → Slots → Slots
unfolding add_slot
mosaic_definition_transaction_buffer_add_optional_properties content t = add_slot 12 content t

-- transactions/mosaic_supply_change_transaction_buffer.go
unfoldable pub mosaic_supply_change_transaction_buffer_start : Slots
unfolding start_object
mosaic_supply_change_transaction_buffer_start = start_object 10

unfoldable pub mosaic_supply_change_transaction_buffer_add_mosaic_id : Slot → Slots → Slots
unfolding add_slot
mosaic_supply_change_transaction_buffer_add_mosaic_id content t = add_slot 7 content t

unfoldable pub mosaic_supply_change_transaction_buffer_add_direction : ℕ → Slots → Slots
unfolding add_slot
mosaic_supply_change_transaction_buffer_add_direction value t = add_slot 8 (number 1 value) t

unfoldable pub mosaic_supply_change_transaction_buffer_add_delta : Slot → Slots → Slots
unfolding add_slot
mosaic_supply_change_transaction_buffer_add_delta content t = add_slot 9 content t

-- transactions/transfer_transaction_buffer.go
unfoldable pub transfer_transaction_buffer_start : Slots
unfolding start_object
transfer_transaction_buffer_start = start_object 12

unfoldable pub transfer_transaction_buffer_add_recipient : Slot → Slots → Slots
unfolding add_slot
transfer_transaction_buffer_add_recipient content t = add_slot 7 content t

unfoldable pub transfer_transaction_buffer_add_message_size : ℕ → Slots → Slots
unfolding add_slot
transfer_transaction_buffer_add_message_size value t = add_slot 8 (number 2 value) t

unfoldable pub transfer_transaction_buffer_add_num_mosaics : ℕ → Slots → Slots
unfolding add_slot
transfer_transaction_buffer_add_num_mosaics value t = add_slot 9 (number 1 value) t

unfoldable pub transfer_transaction_buffer_add_message : Slot → Slots → Slots
unfolding add_slot
transfer_transaction_buffer_add_message content t = add_slot 10 content t

unfoldable pub transfer_transaction_buffer_add_mosaics : Slot → Slots → Slots
unfolding add_slot
transfer_transaction_buffer_add_mosaics content t = add_slot 11 content t

-- transactions/message_buffer.go
unfoldable pub message_buffer_start : Slots
unfolding start_object
message_buffer_start = start_object 2

unfoldable pub message_buffer_add_type : ℕ → Slots → Slots
unfolding add_slot
message_buffer_add_type value t = add_slot 0 (number 1 value) t

unfoldable pub message_buffer_add_payload : Slot → Slots → Slots
unfolding add_slot
message_buffer_add_payload content t = add_slot 1 content t
