-- ===== src/Buffers/Accounts.antt =====
-- The setters of the generated table builders: which slot of the object each of them fills.
use go_xpx_chain_sdk.Base.{ℕ}
use go_xpx_chain_sdk.Buffers.{add_slot, start_object}
use go_xpx_chain_sdk.Schema.Format.{Slot, Slots, number}

-- transactions/account_link_transaction_buffer.go
unfoldable pub account_link_transaction_buffer_start : Slots
unfolding start_object
account_link_transaction_buffer_start = start_object 9

unfoldable pub account_link_transaction_buffer_add_remote_account_key : Slot → Slots → Slots
unfolding add_slot
account_link_transaction_buffer_add_remote_account_key content t = add_slot 7 content t

unfoldable pub account_link_transaction_buffer_add_link_action : ℕ → Slots → Slots
unfolding add_slot
account_link_transaction_buffer_add_link_action value t = add_slot 8 (number 1 value) t

-- transactions/account_properties_transaction_buffer.go
unfoldable pub property_modification_buffer_start : Slots
unfolding start_object
property_modification_buffer_start = start_object 2

unfoldable pub property_modification_buffer_add_modification_type : ℕ → Slots → Slots
unfolding add_slot
property_modification_buffer_add_modification_type value t = add_slot 0 (number 1 value) t

unfoldable pub property_modification_buffer_add_value : Slot → Slots → Slots
unfolding add_slot
property_modification_buffer_add_value content t = add_slot 1 content t

unfoldable pub account_properties_transaction_buffer_start : Slots
unfolding start_object
account_properties_transaction_buffer_start = start_object 10

unfoldable pub account_properties_transaction_buffer_add_property_type : ℕ → Slots → Slots
unfolding add_slot
account_properties_transaction_buffer_add_property_type value t = add_slot 7 (number 1 value) t

unfoldable pub account_properties_transaction_buffer_add_modification_count : ℕ → Slots → Slots
unfolding add_slot
account_properties_transaction_buffer_add_modification_count value t = add_slot 8 (number 1 value) t

unfoldable pub account_properties_transaction_buffer_add_modifications : Slot → Slots → Slots
unfolding add_slot
account_properties_transaction_buffer_add_modifications content t = add_slot 9 content t

-- transactions/modify_multisig_account_transaction_buffer.go
unfoldable pub modify_multisig_account_transaction_buffer_start : Slots
unfolding start_object
modify_multisig_account_transaction_buffer_start = start_object 11

unfoldable pub modify_multisig_account_transaction_buffer_add_min_removal_delta : ℕ → Slots → Slots
unfolding add_slot
modify_multisig_account_transaction_buffer_add_min_removal_delta value t =
    add_slot 7 (number 1 value) t

unfoldable pub modify_multisig_account_transaction_buffer_add_min_approval_delta : ℕ → Slots → Slots
unfolding add_slot
modify_multisig_account_transaction_buffer_add_min_approval_delta value t =
    add_slot 8 (number 1 value) t

unfoldable pub modify_multisig_account_transaction_buffer_add_num_modifications : ℕ → Slots → Slots
unfolding add_slot
modify_multisig_account_transaction_buffer_add_num_modifications value t =
    add_slot 9 (number 1 value) t

unfoldable pub modify_multisig_account_transaction_buffer_add_modifications : Slot → Slots → Slots
unfolding add_slot
modify_multisig_account_transaction_buffer_add_modifications content t = add_slot 10 content t

-- transactions/cosignatory_modification_buffer.go
unfoldable pub cosignatory_modification_buffer_start : Slots
unfolding start_object
cosignatory_modification_buffer_start = start_object 2

unfoldable pub cosignatory_modification_buffer_add_type : ℕ → Slots → Slots
unfolding add_slot
cosignatory_modification_buffer_add_type value t = add_slot 0 (number 1 value) t

unfoldable pub cosignatory_modification_buffer_add_cosignatory_public_key : Slot → Slots → Slots
unfolding add_slot
cosignatory_modification_buffer_add_cosignatory_public_key content t = add_slot 1 content t

-- transactions/modify_contract_transaction_buffer.go
unfoldable pub modify_contract_transaction_buffer_start : Slots
unfolding start_object
modify_contract_transaction_buffer_start = start_object 15

unfoldable pub modify_contract_transaction_buffer_add_duration_delta : Slot → Slots → Slots
unfolding add_slot
modify_contract_transaction_buffer_add_duration_delta content t = add_slot 7 content t

unfoldable pub modify_contract_transaction_buffer_add_hash : Slot → Slots → Slots
unfolding add_slot
modify_contract_transaction_buffer_add_hash content t = add_slot 8 content t

unfoldable pub modify_contract_transaction_buffer_add_num_customers : ℕ → Slots → Slots
unfolding add_slot
modify_contract_transaction_buffer_add_num_customers value t = add_slot 9 (number 1 value) t

unfoldable pub modify_contract_transaction_buffer_add_num_executors : ℕ → Slots → Slots
unfolding add_slot
modify_contract_transaction_buffer_add_num_executors value t = add_slot 10 (number 1 value) t

unfoldable pub modify_contract_transaction_buffer_add_num_verifiers : ℕ → Slots → Slots
unfolding add_slot
modify_contract_transaction_buffer_add_num_verifiers value t = add_slot 11 (number 1 value) t

unfoldable pub modify_contract_transaction_buffer_add_customers : Slot → Slots → Slots
unfolding add_slot
modify_contract_transaction_buffer_add_customers content t = add_slot 12 content t

unfoldable pub modify_contract_transaction_buffer_add_executors : Slot → Slots → Slots
unfolding add_slot
modify_contract_transaction_buffer_add_executors content t = add_slot 13 content t

unfoldable pub modify_contract_transaction_buffer_add_verifiers : Slot → Slots → Slots
unfolding add_slot
modify_contract_transaction_buffer_add_verifiers content t = add_slot 14 content t
