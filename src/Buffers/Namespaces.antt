-- ===== src/Buffers/Namespaces.antt =====
-- The setters of the generated table builders: which slot of the object each of them fills.
use go_xpx_chain_sdk.Base.{ℕ}
use go_xpx_chain_sdk.Buffers.{add_slot, start_object}
use go_xpx_chain_sdk.Schema.Format.{Slot, Slots, number}

-- transactions/alias_transaction_buffer.go
unfoldable pub alias_transaction_buffer_start : Slots
unfolding start_object
alias_transaction_buffer_start = start_object 10

unfoldable pub alias_transaction_buffer_add_action_type : ℕ → Slots → Slots
unfolding add_slot
alias_transaction_buffer_add_action_type value t = add_slot 7 (number 1 value) t

unfoldable pub alias_transaction_buffer_add_namespace_id : Slot → Slots → Slots
unfolding add_slot
alias_transaction_buffer_add_namespace_id content t = add_slot 8 content t

unfoldable pub alias_transaction_buffer_add_alias_id : Slot → Slots → Slots
unfolding add_slot
alias_transaction_buffer_add_alias_id content t = add_slot 9 content t

-- transactions/register_namespace_transaction_buffer.go
unfoldable pub register_namespace_transaction_buffer_start : Slots
unfolding start_object
register_namespace_transaction_buffer_start = start_object 12

unfoldable pub register_namespace_transaction_buffer_add_namespace_type : ℕ → Slots → Slots
unfolding add_slot
register_namespace_transaction_buffer_add_namespace_type value t = add_slot 7 (number 1 value) t

unfoldable pub register_namespace_transaction_buffer_add_duration_parent_id : Slot → Slots → Slots
unfolding add_slot
register_namespace_transaction_buffer_add_duration_parent_id content t = add_slot 8 content t

unfoldable pub register_namespace_transaction_buffer_add_namespace_id : Slot → Slots → Slots
unfolding add_slot
register_namespace_transaction_buffer_add_namespace_id content t = add_slot 9 content t

unfoldable pub register_namespace_transaction_buffer_add_namespace_name_size : ℕ → Slots → Slots
unfolding add_slot
register_namespace_transaction_buffer_add_namespace_name_size value t =
    add_slot 10 (number 1 value) t

unfoldable pub register_namespace_transaction_buffer_add_namespace_name : Slot → Slots → Slots
unfolding add_slot
register_namespace_transaction_buffer_add_namespace_name content t = add_slot 11 content t

-- transactions/modify_metadata_transaction_buffer.go
unfoldable pub metadata_modification_buffer_start : Slots
unfolding start_object
metadata_modification_buffer_start = start_object 6

unfoldable pub metadata_modification_buffer_add_size : ℕ → Slots → Slots
unfolding add_slot
metadata_modification_buffer_add_size value t = add_slot 0 (number 4 value) t

unfoldable pub metadata_modification_buffer_add_modification_type : ℕ → Slots → Slots
unfolding add_slot
metadata_modification_buffer_add_modification_type value t = add_slot 1 (number 1 value) t

unfoldable pub metadata_modification_buffer_add_key_size : ℕ → Slots → Slots
unfolding add_slot
metadata_modification_buffer_add_key_size value t = add_slot 2 (number 1 value) t

unfoldable pub metadata_modification_buffer_add_value_size : Slot → Slots → Slots
unfolding add_slot
metadata_modification_buffer_add_value_size content t = add_slot 3 content t

unfoldable pub metadata_modification_buffer_add_key : Slot → Slots → Slots
unfolding add_slot
metadata_modification_buffer_add_key content t = add_slot 4 content t

unfoldable pub metadata_modification_buffer_add_value : Slot → Slots → Slots
unfolding add_slot
metadata_modification_buffer_add_value content t = add_slot 5 content t

unfoldable pub modify_metadata_transaction_buffer_start : Slots
unfolding start_object
modify_metadata_transaction_buffer_start = start_object 10

unfoldable pub modify_metadata_transaction_buffer_add_metadata_type : ℕ → Slots → Slots
unfolding add_slot
modify_metadata_transaction_buffer_add_metadata_type value t = add_slot 7 (number 1 value) t

unfoldable pub modify_metadata_transaction_buffer_add_metadata_id : Slot → Slots → Slots
unfolding add_slot
modify_metadata_transaction_buffer_add_metadata_id content t = add_slot 8 content t

unfoldable pub modify_metadata_transaction_buffer_add_modifications : Slot → Slots → Slots
unfolding add_slot
modify_metadata_transaction_buffer_add_modifications content t = add_slot 9 content t
