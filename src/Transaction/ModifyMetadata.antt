-- ===== src/Transaction/ModifyMetadata.antt =====
-- `ModifyMetadataTransaction` of sdk/transaction_model.go with its kinds for addresses, mosaics and
-- namespaces, and `MetadataModification`.
pub mod Wire
use go_xpx_chain_sdk.Schema.{serialize, u32}
use go_xpx_chain_sdk.Base.{
  Bytes, List, Option, Result, [], deref, err, if◌then◌else◌, length, new_error, ok, ℕ, ◌%◌, ◌+◌,
  ◌==◌, ◌>>=◌, ◌^◌, ◌∷◌,
}
use go_xpx_chain_sdk.Asset.{MosaicId, NamespaceId}
use go_xpx_chain_sdk.Buffers.{
  transaction_buffer_add_size, transaction_buffer_create_byte_vector,
  transaction_buffer_create_uoffset_vector,
}
use go_xpx_chain_sdk.Buffers.Namespaces.{
  metadata_modification_buffer_add_key, metadata_modification_buffer_add_key_size,
  metadata_modification_buffer_add_modification_type, metadata_modification_buffer_add_size,
  metadata_modification_buffer_add_value, metadata_modification_buffer_add_value_size,
  metadata_modification_buffer_start, modify_metadata_transaction_buffer_add_metadata_id,
  modify_metadata_transaction_buffer_add_metadata_type,
  modify_metadata_transaction_buffer_add_modifications, modify_metadata_transaction_buffer_start,
}
use go_xpx_chain_sdk.Encoding.{base32_decode_string}
use go_xpx_chain_sdk.Schema.Definitions.{modify_metadata_transaction_schema}
use go_xpx_chain_sdk.Schema.Format.{Slot, Slots}
use go_xpx_chain_sdk.Transaction.{
  AbstractTransaction, Address, Deadline, build_vectors, following_deadline,
  new_abstract_transaction, ◌⊳◌,
}
use go_xpx_chain_sdk.Transaction.Entities.{
  entity_metadata_address, entity_metadata_mosaic, entity_metadata_namespace,
  metadata_address_version, metadata_mosaic_version, metadata_namespace_version,
}
use go_xpx_chain_sdk.Transaction.Sizes.{
  address_size, metadata_header_size, mosaic_id_size, namespace_size, size_size,
}
use go_xpx_chain_sdk.Uint64.{to_little_endian}
use go_xpx_chain_sdk.Word.{to_le}

-- `MetadataModification`; its strings are their bytes.
pub record MetadataModification : Type 0 where
  pub type : ℕ
  pub key : Bytes
  pub value : Bytes

-- The embedded transaction that the three kinds share.
pub record ModifyMetadataTransaction : Type 0 where
  pub abstract_transaction : AbstractTransaction
  pub metadata_type : ℕ
  pub modifications : List MetadataModification

-- The subjects are pointers that the constructors do not test.
pub record ModifyMetadataAddressTransaction : Type 0 where
  pub modify_metadata_transaction : ModifyMetadataTransaction
  pub address : Option Address

pub record ModifyMetadataMosaicTransaction : Type 0 where
  pub modify_metadata_transaction : ModifyMetadataTransaction
  pub mosaic_id : Option MosaicId

pub record ModifyMetadataNamespaceTransaction : Type 0 where
  pub modify_metadata_transaction : ModifyMetadataTransaction
  pub namespace_id : Option NamespaceId

abbrev pub metadata_address_type : ℕ
metadata_address_type = 1

abbrev pub metadata_mosaic_type : ℕ
metadata_mosaic_type = 2

abbrev pub metadata_namespace_type : ℕ
metadata_namespace_type = 3

-- What the three constructors do before they add the subject.
pub new_modify_metadata_transaction :
    Option Deadline → ℕ → ℕ → ℕ → List MetadataModification → ℕ → Result ModifyMetadataTransaction
new_modify_metadata_transaction deadline type version metadata_type modifications network_type =
    if length modifications == 0
    then err (new_error "modifications must not empty")
    else ok (record {
      abstract_transaction = new_abstract_transaction deadline type version network_type;
      metadata_type = metadata_type;
      modifications = modifications;
    })

pub new_modify_metadata_address_transaction :
    Option Deadline
    → Option Address
    → List MetadataModification
    → ℕ
    → Result ModifyMetadataAddressTransaction
unfolding new_modify_metadata_transaction
new_modify_metadata_address_transaction deadline address modifications network_type = do
  tx ←
      new_modify_metadata_transaction deadline entity_metadata_address metadata_address_version
        metadata_address_type modifications network_type
  ok (record { modify_metadata_transaction = tx; address = address })

pub new_modify_metadata_mosaic_transaction :
    Option Deadline
    → Option MosaicId
    → List MetadataModification
    → ℕ
    → Result ModifyMetadataMosaicTransaction
unfolding new_modify_metadata_transaction
new_modify_metadata_mosaic_transaction deadline mosaic_id modifications network_type = do
  tx ←
      new_modify_metadata_transaction deadline entity_metadata_mosaic metadata_mosaic_version
        metadata_mosaic_type modifications network_type
  ok (record { modify_metadata_transaction = tx; mosaic_id = mosaic_id })

pub new_modify_metadata_namespace_transaction :
    Option Deadline
    → Option NamespaceId
    → List MetadataModification
    → ℕ
    → Result ModifyMetadataNamespaceTransaction
unfolding new_modify_metadata_transaction
new_modify_metadata_namespace_transaction deadline namespace_id modifications network_type = do
  tx ←
      new_modify_metadata_transaction deadline entity_metadata_namespace metadata_namespace_version
        metadata_namespace_type modifications network_type
  ok (record { modify_metadata_transaction = tx; namespace_id = namespace_id })

-- `MetadataModification.Size`
unfoldable pub modification_size : MetadataModification → ℕ
modification_size m = size_size + 1 + 1 + 2 + length m.key + length m.value

-- `ModifyMetadataTransaction.Size`: the loop adds up the modifications.
unfoldable pub size_of_modifications : List MetadataModification → ℕ
unfolding modification_size
size_of_modifications [] = 0
size_of_modifications (m ∷ ms) = modification_size m + size_of_modifications ms

unfoldable pub metadata_size : ModifyMetadataTransaction → ℕ
unfolding size_of_modifications
metadata_size tx = metadata_header_size + size_of_modifications tx.modifications

unfoldable pub metadata_address_size : ModifyMetadataAddressTransaction → ℕ
unfolding metadata_size
metadata_address_size tx = metadata_size tx.modify_metadata_transaction + address_size

unfoldable pub metadata_mosaic_size : ModifyMetadataMosaicTransaction → ℕ
unfolding metadata_size
metadata_mosaic_size tx = metadata_size tx.modify_metadata_transaction + mosaic_id_size

unfoldable pub metadata_namespace_size : ModifyMetadataNamespaceTransaction → ℕ
unfolding metadata_size
metadata_namespace_size tx = metadata_size tx.modify_metadata_transaction + namespace_size

-- One object of `metadataModificationArrayToBuffer`. The size of the value is a vector of two bytes.
unfoldable pub metadata_object : MetadataModification → Slots
unfolding modification_size transaction_buffer_create_byte_vector metadata_modification_buffer_start
    metadata_modification_buffer_add_size metadata_modification_buffer_add_modification_type
    metadata_modification_buffer_add_key_size metadata_modification_buffer_add_value_size
    metadata_modification_buffer_add_key metadata_modification_buffer_add_value
metadata_object m =
    metadata_modification_buffer_start
    ⊳ metadata_modification_buffer_add_size (u32 (modification_size m))
    ⊳ metadata_modification_buffer_add_modification_type m.type
    ⊳ metadata_modification_buffer_add_key_size (length m.key % 256)
    ⊳ metadata_modification_buffer_add_value_size
        (transaction_buffer_create_byte_vector (to_le 2 (length m.value % 2 ^ 16)))
    ⊳ metadata_modification_buffer_add_key (transaction_buffer_create_byte_vector m.key)
    ⊳ metadata_modification_buffer_add_value (transaction_buffer_create_byte_vector m.value)

pub metadata_objects : List MetadataModification → Result (List Slots)
metadata_objects [] = ok []
metadata_objects (m ∷ ms) =
    if length m.key == 0
    then err (new_error "key must not empty")
    else (do rest ← metadata_objects ms; ok (metadata_object m ∷ rest))

pub metadata_modification_array_to_buffer : List MetadataModification → Result Slot
unfolding metadata_objects
metadata_modification_array_to_buffer modifications = do
  msb ← metadata_objects modifications
  ok (transaction_buffer_create_uoffset_vector msb)

-- The object that `ModifyMetadataTransaction.generateBytes` has the builder make.
unfoldable pub object : ModifyMetadataTransaction → Bytes → ℕ → Slot → Slots
unfolding metadata_size transaction_buffer_create_byte_vector
    modify_metadata_transaction_buffer_start transaction_buffer_add_size build_vectors
    modify_metadata_transaction_buffer_add_metadata_type
    modify_metadata_transaction_buffer_add_metadata_id
    modify_metadata_transaction_buffer_add_modifications
object tx metadata size_of_metadata modifications =
    modify_metadata_transaction_buffer_start
    ⊳ transaction_buffer_add_size (metadata_size tx + size_of_metadata)
    ⊳ build_vectors tx.abstract_transaction
    ⊳ modify_metadata_transaction_buffer_add_metadata_type tx.metadata_type
    ⊳ modify_metadata_transaction_buffer_add_metadata_id
        (transaction_buffer_create_byte_vector metadata)
    ⊳ modify_metadata_transaction_buffer_add_modifications modifications

pub generate_metadata_bytes : (Slots → Bytes) → ModifyMetadataTransaction → Bytes → ℕ → Result Bytes
generate_metadata_bytes finished_bytes tx metadata size_of_metadata = do
  m ← metadata_modification_array_to_buffer tx.modifications
  following_deadline tx.abstract_transaction (
      serialize modify_metadata_transaction_schema
        (finished_bytes (object tx metadata size_of_metadata m)))

pub generate_metadata_address_bytes :
    (Slots → Bytes) → ModifyMetadataAddressTransaction → Result Bytes
generate_metadata_address_bytes finished_bytes tx = do
  address ← deref tx.address
  a ← base32_decode_string address.address
  generate_metadata_bytes finished_bytes tx.modify_metadata_transaction a address_size

pub generate_metadata_mosaic_bytes :
    (Slots → Bytes) → ModifyMetadataMosaicTransaction → Result Bytes
generate_metadata_mosaic_bytes finished_bytes tx = do
  mosaic_id ← deref tx.mosaic_id
  generate_metadata_bytes finished_bytes tx.modify_metadata_transaction
      (to_little_endian mosaic_id.base_int64) mosaic_id_size

pub generate_metadata_namespace_bytes :
    (Slots → Bytes) → ModifyMetadataNamespaceTransaction → Result Bytes
generate_metadata_namespace_bytes finished_bytes tx = do
  namespace_id ← deref tx.namespace_id
  generate_metadata_bytes finished_bytes tx.modify_metadata_transaction
      (to_little_endian namespace_id.base_int64) namespace_size
