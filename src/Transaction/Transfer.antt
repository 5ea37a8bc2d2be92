-- ===== src/Transaction/Transfer.antt =====
-- `TransferTransaction` of sdk/transaction_model.go, with the messages of sdk/message.go.
use go_xpx_chain_sdk.Asset.{id, Mosaic, NamespaceId}
use go_xpx_chain_sdk.Schema.{serialize, array_attribute, attribute, int_size, no_attribute}
use go_xpx_chain_sdk.Base.{
  Bytes, List, Option, Result, append-nil, append_assoc, arith, err, length, length-append, map,
  new_error, none, ok, refl, some, true, ℕ, ◌%◌, ◌*◌, ◌++◌, ◌+◌, ◌<◌, ◌>>=◌, ◌^◌, ◌∷◌, ◌≡◌, ◌≢◌,
}
use go_xpx_chain_sdk.Account.{alias_address, new_address_from_namespace}
use go_xpx_chain_sdk.Account.Addresses.{new_address_from_namespace_lem}
use go_xpx_chain_sdk.Buffers.{
  transaction_buffer_add_size, transaction_buffer_create_byte_vector,
  transaction_buffer_create_uint32_vector, transaction_buffer_create_uoffset_vector,
}
use go_xpx_chain_sdk.Buffers.Mosaics.{
  message_buffer_add_payload, message_buffer_add_type, message_buffer_start,
  mosaic_buffer_add_amount, mosaic_buffer_add_id, mosaic_buffer_start,
  transfer_transaction_buffer_add_message, transfer_transaction_buffer_add_message_size,
  transfer_transaction_buffer_add_mosaics, transfer_transaction_buffer_add_num_mosaics,
  transfer_transaction_buffer_add_recipient, transfer_transaction_buffer_start,
}
use go_xpx_chain_sdk.Encoding.{base32_decode_string}
use go_xpx_chain_sdk.Schema.Definitions.{transfer_transaction_schema}
use go_xpx_chain_sdk.Schema.Format.{Slot, Slots, finished, fits, wire}
use go_xpx_chain_sdk.Transaction.{
  AbstractTransaction, Address, Deadline, build_vectors, following_deadline,
  new_abstract_transaction, ◌⊳◌,
}
use go_xpx_chain_sdk.Transaction.Entities.{entity_transfer, transfer_version}
use go_xpx_chain_sdk.Transaction.Header.{Carries, header_bytes, serialized, stored, stored_byte}
use go_xpx_chain_sdk.Transaction.Parts.{
  concat_map, length-concat_map, objects_fit-map, wire_objects-map,
}
use go_xpx_chain_sdk.Transaction.Sizes.{
  address_size, amount_size, mosaic_id_size, transfer_header_size,
}
use go_xpx_chain_sdk.Uint64.{to_little_endian, uint64_to_array}
use go_xpx_chain_sdk.Uint64.Halves.{halves-to_le, length-to_little_endian}
use go_xpx_chain_sdk.Word.{length-to_le, to_le, zeros}

pub data Message : Type 0 where
  plain_message : Bytes → Message
  secure_message : Bytes → Message

-- `Message.Type` and `Message.Payload`
abbrev pub message_type : Message → ℕ
message_type (plain_message bytes) = 0
message_type (secure_message bytes) = 1

abbrev pub payload : Message → Bytes
payload (plain_message bytes) = bytes
payload (secure_message bytes) = bytes

pub record TransferTransaction : Type 0 where
  pub abstract_transaction : AbstractTransaction
  pub message : Message
  pub mosaics : List Mosaic
  pub recipient : Address

-- Pointers, slices and interface values may be nil.
unfoldable pub new_transfer_transaction :
    Option Deadline
    → Option Address
    → Option (List Mosaic)
    → Option Message
    → ℕ
    → Result TransferTransaction
new_transfer_transaction deadline none mosaics message network_type =
    err (new_error "recipient must not be nil")
new_transfer_transaction deadline (some recipient) none message network_type =
    err (new_error "mosaics must not be nil")
new_transfer_transaction deadline (some recipient) (some mosaics) none network_type =
    err (new_error "message must not be nil, but could be with empty payload")
new_transfer_transaction deadline (some recipient) (some mosaics) (some message) network_type =
    ok (record {
      abstract_transaction =
          new_abstract_transaction deadline entity_transfer transfer_version network_type;
      message = message;
      mosaics = mosaics;
      recipient = recipient;
    })

-- `NewTransferTransactionWithNamespace`
unfoldable pub new_transfer_transaction_with_namespace :
    Option Deadline
    → Option NamespaceId
    → Option (List Mosaic)
    → Option Message
    → ℕ
    → Result TransferTransaction
new_transfer_transaction_with_namespace deadline none mosaics message network_type =
    err (new_error "recipient namespace must not be nil")
new_transfer_transaction_with_namespace deadline (some recipient) none message network_type =
    err (new_error "mosaics must not be nil")
new_transfer_transaction_with_namespace deadline (some recipient) (some mosaics) none network_type =
    err (new_error "message must not be nil, but could be with empty payload")
new_transfer_transaction_with_namespace deadline (some recipient) (some mosaics) (some message)
      network_type =
    do
      address ← new_address_from_namespace recipient
      ok (record {
        abstract_transaction =
            new_abstract_transaction deadline entity_transfer transfer_version network_type;
        message = message;
        mosaics = mosaics;
        recipient = address;
      })

unfoldable pub message_size : TransferTransaction → ℕ
message_size tx = length (payload tx.message) + 1

unfoldable pub size : TransferTransaction → ℕ
unfolding message_size
size tx =
    transfer_header_size + (mosaic_id_size + amount_size) * length tx.mosaics + message_size tx

unfoldable pub mosaic_object : Mosaic → Slots
unfolding transaction_buffer_create_uint32_vector mosaic_buffer_start mosaic_buffer_add_id
    mosaic_buffer_add_amount
mosaic_object m =
    mosaic_buffer_start
    ⊳ mosaic_buffer_add_id
        (transaction_buffer_create_uint32_vector (uint64_to_array (id m.asset_id)))
    ⊳ mosaic_buffer_add_amount (transaction_buffer_create_uint32_vector (uint64_to_array m.amount))

unfoldable pub message_object : Message → Slots
unfolding transaction_buffer_create_byte_vector message_buffer_start message_buffer_add_type
    message_buffer_add_payload
message_object m =
    message_buffer_start
    ⊳ message_buffer_add_type (message_type m)
    ⊳ message_buffer_add_payload (transaction_buffer_create_byte_vector (payload m))

-- The object that `generateBytes` has the builder make, from the decoded recipient.
unfoldable pub object : TransferTransaction → Bytes → Slots
unfolding transaction_buffer_create_byte_vector transaction_buffer_create_uoffset_vector
    transfer_transaction_buffer_start transaction_buffer_add_size build_vectors
    transfer_transaction_buffer_add_recipient transfer_transaction_buffer_add_num_mosaics
    transfer_transaction_buffer_add_message_size transfer_transaction_buffer_add_message
    transfer_transaction_buffer_add_mosaics
object tx recipient =
    transfer_transaction_buffer_start
    ⊳ transaction_buffer_add_size (size tx)
    ⊳ build_vectors tx.abstract_transaction
    ⊳ transfer_transaction_buffer_add_recipient (transaction_buffer_create_byte_vector recipient)
    ⊳ transfer_transaction_buffer_add_num_mosaics (length tx.mosaics % 256)
    ⊳ transfer_transaction_buffer_add_message_size (message_size tx % 2 ^ 16)
    ⊳ transfer_transaction_buffer_add_message (Slot.object (message_object tx.message))
    ⊳ transfer_transaction_buffer_add_mosaics
        (transaction_buffer_create_uoffset_vector (map mosaic_object tx.mosaics))

pub generate_bytes : (Slots → Bytes) → TransferTransaction → Result Bytes
generate_bytes finished_bytes tx = do
  recipient ← base32_decode_string tx.recipient.address
  following_deadline tx.abstract_transaction
      (serialize transfer_transaction_schema (finished_bytes (object tx recipient)))

-- One mosaic of the wire: the identifier and the amount.
unfoldable pub mosaic_bytes : Mosaic → Bytes
mosaic_bytes m = to_little_endian (id m.asset_id) ++ to_little_endian m.amount

-- What follows the header in the layout of the protocol.
unfoldable pub body : TransferTransaction → Bytes → Bytes
body tx recipient =
    recipient
    ++ (to_le 2 (message_size tx)
        ++ (to_le 1 (length tx.mosaics)
            ++ (to_le 1 (message_type tx.message)
                ++ (payload tx.message ++ concat_map mosaic_bytes tx.mosaics))))

mosaic_object-fits :
    (m : Mosaic)
    → fits (mosaic_object m) (
        attribute
          (array_attribute "id" int_size)
          (attribute (array_attribute "amount" int_size) no_attribute))
      ≡ true
unfolding mosaic_object fits
mosaic_object-fits m = refl

wire-mosaic_object : (m : Mosaic) → wire (mosaic_object m) ≡ mosaic_bytes m
unfolding mosaic_object mosaic_bytes wire
wire-mosaic_object m = simp (halves-to_le, append-nil)

length-mosaic_bytes : (m : Mosaic) → length (mosaic_bytes m) ≡ 16
unfolding mosaic_bytes
length-mosaic_bytes m = simp (length-append, length-to_little_endian)

-- On the flatbuffer that holds its object, with the type and the version of its kind, a network of one
-- byte and a deadline, a transfer whose recipient decodes to an address of 25 bytes, whose message
-- fits 16 bits with the byte of its type, and which has fewer than 256 mosaics, is serialised to its
-- bytes in the order of the protocol: the recipient, the two counts, the message and every mosaic.
-- They are as many as `Size` says.
pub transfer-wire :
    (finished_bytes : Slots → Bytes) (tx : TransferTransaction) (recipient : Bytes)
    → Carries entity_transfer transfer_version tx.abstract_transaction
    → base32_decode_string tx.recipient.address ≡ ok recipient
    → length recipient ≡ address_size
    → message_size tx < 2 ^ 16
    → length tx.mosaics < 2 ^ 8
    → finished (finished_bytes (object tx recipient)) (object tx recipient) ≡ true
    → (generate_bytes finished_bytes tx
        ≡ ok (header_bytes (size tx) tx.abstract_transaction ++ body tx recipient))
      × (length (header_bytes (size tx) tx.abstract_transaction ++ body tx recipient) ≡ size tx)
unfolding generate_bytes object body fits transfer_transaction_schema wire size message_object
transfer-wire finished_bytes tx recipient c d l m n h =
    let some_message : message_size tx ≢ 0 = omega arith in
    let short : message_size tx % 2 ^ 16 ≡ message_size tx = omega arith in
    let few : length tx.mosaics % 256 ≡ length tx.mosaics = omega arith in
    rw d (
      serialized transfer_transaction_schema (size tx) entity_transfer transfer_version (size tx)
        tx.abstract_transaction (object tx recipient) (body tx recipient)
        (finished_bytes (object tx recipient)) (omega arith) c h refl
        (rw (objects_fit-map mosaic_object _ mosaic_object-fits tx.mosaics))
        (simp (
          short,
          few,
          stored_byte,
          stored 2 (message_size tx) some_message,
          wire_objects-map mosaic_object mosaic_bytes wire-mosaic_object,
          append-nil,
          append_assoc,
        ))
        (simp
          (length-append, length-to_le, length-concat_map mosaic_bytes 16 length-mosaic_bytes, l)
          (omega arith)))

-- A transfer to a namespace is the transfer to an address of the alias network, which decodes to the
-- number of that network, the identifier of the namespace in eight bytes, and sixteen zeros.
pub new_transfer_transaction_with_namespace_lem :
    (deadline : Option Deadline) (recipient : NamespaceId) (mosaics : List Mosaic)
    (message : Message) (network_type : ℕ)
    → (address : Address) × (new_transfer_transaction_with_namespace deadline
          (some recipient)
          (some mosaics)
          (some message)
          network_type
        ≡ new_transfer_transaction deadline
            (some address)
            (some mosaics)
            (some message)
            network_type)
      × (address.type ≡ alias_address)
      × (base32_decode_string address.address
          ≡ ok (alias_address ∷ (to_le 8 recipient.base_int64 ++ zeros 16)))
unfolding new_transfer_transaction_with_namespace new_transfer_transaction
new_transfer_transaction_with_namespace_lem deadline recipient mosaics message network_type =
    let (made, decoded) = new_address_from_namespace_lem recipient in
    (_, rw made refl, refl, decoded)
