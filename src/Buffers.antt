-- ===== src/Buffers.antt =====
-- transactions/*.go: the calls of the flatbuffers builder that make up an object. An object is the
-- list of its slots, filled by setters in any order; the bytes are the business of flatbuffers.
pub mod Accounts
pub mod Namespaces
pub mod Mosaics
pub mod Locks
pub mod Chain
use go_xpx_chain_sdk.Base.{ℕ, zero, suc, ◌*◌, ◌%◌, ◌^◌, List, [], ◌∷◌, ◌++◌, Bytes}
use go_xpx_chain_sdk.Word.{to_le}
use go_xpx_chain_sdk.Schema.Format.{
  Slot, Slots, Objects, unset, number, vector, objects, no_slot, slot, no_object, one_object,
}

-- `builder.StartObject(n)`
unfoldable pub start_object : ℕ → Slots
start_object zero = no_slot
start_object (suc n) = slot unset (start_object n)

-- `builder.Prepend…Slot(i, …)`
unfoldable pub add_slot : ℕ → Slot → Slots → Slots
add_slot i content no_slot = no_slot
add_slot zero content (slot s rest) = slot content rest
add_slot (suc i) content (slot s rest) = slot s (add_slot i content rest)

-- transactions/transaction_buffer.go
unfoldable pub transaction_buffer_add_size : ℕ → Slots → Slots
unfolding add_slot
transaction_buffer_add_size size t = add_slot 0 (number 4 (size % 2 ^ 32)) t

unfoldable pub transaction_buffer_add_signature : Slot → Slots → Slots
unfolding add_slot
transaction_buffer_add_signature content t = add_slot 1 content t

unfoldable pub transaction_buffer_add_signer : Slot → Slots → Slots
unfolding add_slot
transaction_buffer_add_signer content t = add_slot 2 content t

unfoldable pub transaction_buffer_add_version : ℕ → Slots → Slots
unfolding add_slot
transaction_buffer_add_version value t = add_slot 3 (number 4 value) t

unfoldable pub transaction_buffer_add_type : ℕ → Slots → Slots
unfolding add_slot
transaction_buffer_add_type value t = add_slot 4 (number 2 value) t

unfoldable pub transaction_buffer_add_max_fee : Slot → Slots → Slots
unfolding add_slot
transaction_buffer_add_max_fee content t = add_slot 5 content t

unfoldable pub transaction_buffer_add_deadline : Slot → Slots → Slots
unfolding add_slot
transaction_buffer_add_deadline content t = add_slot 6 content t

unfoldable pub transaction_buffer_create_byte_vector : Bytes → Slot
transaction_buffer_create_byte_vector bytes = vector 1 bytes

-- The vector of the two halves of a 64-bit number.
unfoldable pub transaction_buffer_create_uint32_vector : ℕ × ℕ → Slot
transaction_buffer_create_uint32_vector (low, high) = vector 4 (to_le 4 low ++ to_le 4 high)

abbrev pub to_objects : List Slots → Objects
to_objects [] = no_object
to_objects (t ∷ ts) = one_object t (to_objects ts)

unfoldable pub transaction_buffer_create_uoffset_vector : List Slots → Slot
transaction_buffer_create_uoffset_vector ts = objects (to_objects ts)
