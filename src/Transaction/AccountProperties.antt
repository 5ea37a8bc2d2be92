-- ===== src/Transaction/AccountProperties.antt =====
-- The transactions on account properties of sdk/transaction_model.go: for addresses, mosaics and types of
-- transactions.
pub mod Wire
pub mod Values
use go_xpx_chain_sdk.Schema.{serialize}
use go_xpx_chain_sdk.Asset.{id, AssetId}
use Prim.Native.Nat.{bit_and}
use go_xpx_chain_sdk.Base.{
  Bytes, List, Option, Result, [], deref, err, if◌then◌else◌, length, map, new_error, ok, ℕ, ◌%◌,
  ◌*◌, ◌+◌, ◌==◌, ◌>>=◌, ◌∷◌,
}
use go_xpx_chain_sdk.Buffers.{
  transaction_buffer_add_size, transaction_buffer_create_byte_vector,
  transaction_buffer_create_uoffset_vector,
}
use go_xpx_chain_sdk.Buffers.Accounts.{
  account_properties_transaction_buffer_add_modification_count,
  account_properties_transaction_buffer_add_modifications,
  account_properties_transaction_buffer_add_property_type,
  account_properties_transaction_buffer_start, property_modification_buffer_add_modification_type,
  property_modification_buffer_add_value, property_modification_buffer_start,
}
use go_xpx_chain_sdk.Encoding.{base32_decode_string}
use go_xpx_chain_sdk.Schema.Definitions.{account_property_transaction_schema}
use go_xpx_chain_sdk.Schema.Format.{Slots}
use go_xpx_chain_sdk.Transaction.{
  AbstractTransaction, Address, Deadline, build_vectors, following_deadline,
  new_abstract_transaction, ◌⊳◌,
}
use go_xpx_chain_sdk.Transaction.Entities.{
  account_property_address_version, account_property_entity_type_version,
  account_property_mosaic_version, allow_address, allow_mosaic, allow_transaction,
  entity_account_property_address, entity_account_property_entity_type,
  entity_account_property_mosaic,
}
use go_xpx_chain_sdk.Transaction.Sizes.{
  account_properties_address_modification_size, account_properties_entity_modification_size,
  account_properties_mosaic_modification_size, account_property_address_header,
  account_property_entity_type_header, account_property_mosaic_header,
}
use go_xpx_chain_sdk.Uint64.{to_little_endian}
use go_xpx_chain_sdk.Word.{to_le}

pub record AccountPropertiesAddressModification : Type 0 where
  pub modification_type : ℕ
  pub address : Option Address

pub record AccountPropertiesAddressTransaction : Type 0 where
  pub abstract_transaction : AbstractTransaction
  pub property_type : ℕ
  pub modifications : List AccountPropertiesAddressModification

pub new_account_properties_address_transaction :
    Option Deadline
    → ℕ
    → List AccountPropertiesAddressModification
    → ℕ
    → Result AccountPropertiesAddressTransaction
new_account_properties_address_transaction deadline property_type modifications network_type =
    if length modifications == 0
    then err (new_error "modifications must not be empty")
    else if bit_and property_type allow_address == 0
    then err (new_error "wrong propertyType for address account properties")
    else ok (record {
      abstract_transaction =
          new_abstract_transaction deadline entity_account_property_address
            account_property_address_version network_type;
      property_type = property_type;
      modifications = modifications;
    })

unfoldable pub address_properties_size : AccountPropertiesAddressTransaction → ℕ
address_properties_size tx =
    account_property_address_header
    + account_properties_address_modification_size * length tx.modifications

pub record AccountPropertiesMosaicModification : Type 0 where
  pub modification_type : ℕ
  pub asset_id : AssetId

pub record AccountPropertiesMosaicTransaction : Type 0 where
  pub abstract_transaction : AbstractTransaction
  pub property_type : ℕ
  pub modifications : List AccountPropertiesMosaicModification

pub new_account_properties_mosaic_transaction :
    Option Deadline
    → ℕ
    → List AccountPropertiesMosaicModification
    → ℕ
    → Result AccountPropertiesMosaicTransaction
new_account_properties_mosaic_transaction deadline property_type modifications network_type =
    if length modifications == 0
    then err (new_error "modifications must not be empty")
    else if bit_and property_type allow_mosaic == 0
    then err (new_error "wrong propertyType for mosaic account properties")
    else ok (record {
      abstract_transaction =
          new_abstract_transaction deadline entity_account_property_mosaic
            account_property_mosaic_version network_type;
      property_type = property_type;
      modifications = modifications;
    })

unfoldable pub mosaic_properties_size : AccountPropertiesMosaicTransaction → ℕ
mosaic_properties_size tx =
    account_property_mosaic_header
    + account_properties_mosaic_modification_size * length tx.modifications

pub record AccountPropertiesEntityTypeModification : Type 0 where
  pub modification_type : ℕ
  pub entity_type : ℕ

pub record AccountPropertiesEntityTypeTransaction : Type 0 where
  pub abstract_transaction : AbstractTransaction
  pub property_type : ℕ
  pub modifications : List AccountPropertiesEntityTypeModification

pub new_account_properties_entity_type_transaction :
    Option Deadline
    → ℕ
    → List AccountPropertiesEntityTypeModification
    → ℕ
    → Result AccountPropertiesEntityTypeTransaction
new_account_properties_entity_type_transaction deadline property_type modifications network_type =
    if length modifications == 0
    then err (new_error "modifications must not be empty")
    else if bit_and property_type allow_transaction == 0
    then err (new_error "wrong propertyType for entityType account properties")
    else ok (record {
      abstract_transaction =
          new_abstract_transaction deadline entity_account_property_entity_type
            account_property_entity_type_version network_type;
      property_type = property_type;
      modifications = modifications;
    })

unfoldable pub entity_type_properties_size : AccountPropertiesEntityTypeTransaction → ℕ
entity_type_properties_size tx =
    account_property_entity_type_header
    + account_properties_entity_modification_size * length tx.modifications

-- One object of the loops of the three `generateBytes`, from the type and the bytes of a modification.
unfoldable pub account_property_object : ℕ × Bytes → Slots
unfolding transaction_buffer_create_byte_vector property_modification_buffer_start
    property_modification_buffer_add_modification_type property_modification_buffer_add_value
account_property_object (type, value) =
    property_modification_buffer_start
    ⊳ property_modification_buffer_add_modification_type type
    ⊳ property_modification_buffer_add_value (transaction_buffer_create_byte_vector value)

-- The object that the three `generateBytes` have the builder make.
unfoldable pub object : ℕ → AbstractTransaction → ℕ → ℕ → List Slots → Slots
unfolding account_properties_transaction_buffer_start transaction_buffer_add_size build_vectors
    transaction_buffer_create_uoffset_vector account_properties_transaction_buffer_add_property_type
    account_properties_transaction_buffer_add_modification_count
    account_properties_transaction_buffer_add_modifications
object size abstract_transaction property_type count msb =
    account_properties_transaction_buffer_start
    ⊳ transaction_buffer_add_size size
    ⊳ build_vectors abstract_transaction
    ⊳ account_properties_transaction_buffer_add_property_type property_type
    ⊳ account_properties_transaction_buffer_add_modification_count (count % 256)
    ⊳ account_properties_transaction_buffer_add_modifications
        (transaction_buffer_create_uoffset_vector msb)

-- The loop for addresses, which have to decode.
pub address_objects : List AccountPropertiesAddressModification → Result (List Slots)
unfolding account_property_object
address_objects [] = ok []
address_objects (m ∷ ms) = do
  address ← deref m.address
  a ← base32_decode_string address.address
  rest ← address_objects ms
  ok (account_property_object (m.modification_type, a) ∷ rest)

unfoldable pub mosaic_property_object : AccountPropertiesMosaicModification → Slots
unfolding account_property_object
mosaic_property_object m =
    account_property_object (m.modification_type, to_little_endian (id m.asset_id))

unfoldable pub entity_type_property_object : AccountPropertiesEntityTypeModification → Slots
unfolding account_property_object
entity_type_property_object m = account_property_object (m.modification_type, to_le 2 m.entity_type)

pub generate_address_bytes : (Slots → Bytes) → AccountPropertiesAddressTransaction → Result Bytes
generate_address_bytes finished_bytes tx = do
  msb ← address_objects tx.modifications
  following_deadline tx.abstract_transaction (
      serialize account_property_transaction_schema (
        finished_bytes (
          object (address_properties_size tx) tx.abstract_transaction tx.property_type
            (length tx.modifications) msb)))

pub generate_mosaic_bytes : (Slots → Bytes) → AccountPropertiesMosaicTransaction → Result Bytes
generate_mosaic_bytes finished_bytes tx = following_deadline tx.abstract_transaction (
    serialize account_property_transaction_schema (
      finished_bytes (
        object (mosaic_properties_size tx) tx.abstract_transaction tx.property_type
          (length tx.modifications) (map mosaic_property_object tx.modifications))))

pub generate_entity_type_bytes :
    (Slots → Bytes) → AccountPropertiesEntityTypeTransaction → Result Bytes
generate_entity_type_bytes finished_bytes tx = following_deadline tx.abstract_transaction (
    serialize account_property_transaction_schema (
      finished_bytes (
        object (entity_type_properties_size tx) tx.abstract_transaction tx.property_type
          (length tx.modifications) (map entity_type_property_object tx.modifications))))
