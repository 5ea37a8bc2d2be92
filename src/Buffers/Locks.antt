-- ===== src/Buffers/Locks.antt =====
-- The setters of the generated table builders: which slot of the object each of them fills.
use go_xpx_chain_sdk.Base.{ℕ}
use go_xpx_chain_sdk.Buffers.{add_slot, start_object}
use go_xpx_chain_sdk.Schema.Format.{Slot, Slots, number}

-- transactions/lock_funds_transaction_buffer.go
unfoldable pub lock_funds_transaction_buffer_start : Slots
unfolding start_object
lock_funds_transaction_buffer_start = start_object 11

unfoldable pub lock_funds_transaction_buffer_add_mosaic_id : Slot → Slots → Slots
unfolding add_slot
lock_funds_transaction_buffer_add_mosaic_id content t = add_slot 7 content t

unfoldable pub lock_funds_transaction_buffer_add_mosaic_amount : Slot → Slots → Slots
unfolding add_slot
lock_funds_transaction_buffer_add_mosaic_amount content t = add_slot 8 content t

unfoldable pub lock_funds_transaction_buffer_add_duration : Slot → Slots → Slots
unfolding add_slot
lock_funds_transaction_buffer_add_duration content t = add_slot 9 content t

unfoldable pub lock_funds_transaction_buffer_add_hash : Slot → Slots → Slots
unfolding add_slot
lock_funds_transaction_buffer_add_hash content t = add_slot 10 content t

-- transactions/secret_lock_transaction_buffer.go
unfoldable pub secret_lock_transaction_buffer_start : Slots
unfolding start_object
secret_lock_transaction_buffer_start = start_object 13

unfoldable pub secret_lock_transaction_buffer_add_mosaic_id : Slot → Slots → Slots
unfolding add_slot
secret_lock_transaction_buffer_add_mosaic_id content t = add_slot 7 content t

unfoldable pub secret_lock_transaction_buffer_add_mosaic_amount : Slot → Slots → Slots
unfolding add_slot
secret_lock_transaction_buffer_add_mosaic_amount content t = add_slot 8 content t

unfoldable pub secret_lock_transaction_buffer_add_duration : Slot → Slots → Slots
unfolding add_slot
secret_lock_transaction_buffer_add_duration content t = add_slot 9 content t

unfoldable pub secret_lock_transaction_buffer_add_hash_algorithm : ℕ → Slots → Slots
unfolding add_slot
secret_lock_transaction_buffer_add_hash_algorithm value t = add_slot 10 (number 1 value) t

unfoldable pub secret_lock_transaction_buffer_add_secret : Slot → Slots → Slots
unfolding add_slot
secret_lock_transaction_buffer_add_secret content t = add_slot 11 content t

unfoldable pub secret_lock_transaction_buffer_add_recipient : Slot → Slots → Slots
unfolding add_slot
secret_lock_transaction_buffer_add_recipient content t = add_slot 12 content t

-- transactions/secret_proof_transaction_buffer.go
unfoldable pub secret_proof_transaction_buffer_start : Slots
unfolding start_object
secret_proof_transaction_buffer_start = start_object 12

unfoldable pub secret_proof_transaction_buffer_add_hash_algorithm : ℕ → Slots → Slots
unfolding add_slot
secret_proof_transaction_buffer_add_hash_algorithm value t = add_slot 7 (number 1 value) t

unfoldable pub secret_proof_transaction_buffer_add_secret : Slot → Slots → Slots
unfolding add_slot
secret_proof_transaction_buffer_add_secret content t = add_slot 8 content t

unfoldable pub secret_proof_transaction_buffer_add_recipient : Slot → Slots → Slots
unfolding add_slot
secret_proof_transaction_buffer_add_recipient content t = add_slot 9 content t

unfoldable pub secret_proof_transaction_buffer_add_proof_size : ℕ → Slots → Slots
unfolding add_slot
secret_proof_transaction_buffer_add_proof_size value t = add_slot 10 (number 2 value) t

unfoldable pub secret_proof_transaction_buffer_add_proof : Slot → Slots → Slots
unfolding add_slot
secret_proof_transaction_buffer_add_proof content t = add_slot 11 content t

-- transactions/aggregate_transaction_buffer.go
unfoldable pub aggregate_transaction_buffer_start : Slots
unfolding start_object
aggregate_transaction_buffer_start = start_object 9

unfoldable pub aggregate_transaction_buffer_add_transactions_size : ℕ → Slots → Slots
unfolding add_slot
aggregate_transaction_buffer_add_transactions_size value t = add_slot 7 (number 4 value) t

unfoldable pub aggregate_transaction_buffer_add_transactions : Slot → Slots → Slots
unfolding add_slot
aggregate_transaction_buffer_add_transactions content t = add_slot 8 content t
