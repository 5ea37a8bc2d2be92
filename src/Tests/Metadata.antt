-- ===== src/Tests/Metadata.antt =====
-- Concrete transactions on metadata and account properties, and a concrete network configuration.
use go_xpx_chain_sdk.Transaction.ModifyMetadata
use go_xpx_chain_sdk.Transaction.AccountProperties
use go_xpx_chain_sdk.Base.{Bytes, List, [], arith, length, ok, refl, some, true, ℕ, ◌++◌, ◌∷◌, ◌≡◌}
use go_xpx_chain_sdk.Network.{NetworkConfig}
use go_xpx_chain_sdk.Network.Reading.{breaks}
use go_xpx_chain_sdk.Schema.Format.{bytes_at, finished, number_at, offset_at, reads, slots_hold}
use go_xpx_chain_sdk.Tests.Flatbuffer.{layout}
use go_xpx_chain_sdk.Tests.Samples.{decoded, head, head-Carries, recipient, recipient_decodes}
use go_xpx_chain_sdk.Transaction.{
  deadline_timestamp, new_abstract_transaction, to_blockchain_timestamp,
}
use go_xpx_chain_sdk.Transaction.AccountProperties.{
  AccountPropertiesAddressTransaction, account_property_object, address_properties_size,
  generate_address_bytes,
}
use go_xpx_chain_sdk.Transaction.AccountProperties.Wire.{
  account_properties_address-wire, no_address, one_address, properties_object,
}
use go_xpx_chain_sdk.Transaction.Entities.{
  account_property_address_version, block_address, entity_account_property_address,
  entity_metadata_address, metadata_address_version,
}
use go_xpx_chain_sdk.Transaction.Header.{header_bytes}
use go_xpx_chain_sdk.Transaction.ModifyMetadata.{
  MetadataModification, ModifyMetadataAddressTransaction, generate_metadata_address_bytes,
  metadata_address_size, metadata_address_type, metadata_object, metadata_size,
}
use go_xpx_chain_sdk.Transaction.ModifyMetadata.Wire.{
  metadata_object_of, modifications_vector, modify_metadata_address-wire,
}
use go_xpx_chain_sdk.Transaction.Sizes.{address_size}
use go_xpx_chain_sdk.Uint64.{uint64_to_array}
use go_xpx_chain_sdk.Word.{from_le, to_le, zeros}

abbrev changes : List MetadataModification
changes =
    (record { type = 0; key = b'k' ∷ []; value = b'v' ∷ (b'w' ∷ []) })
    ∷ ((record { type = 1; key = b'o' ∷ []; value = [] }) ∷ [])

abbrev metadata : ModifyMetadataAddressTransaction
metadata = record {
  modify_metadata_transaction = record {
    abstract_transaction = head entity_metadata_address metadata_address_version;
    metadata_type = metadata_address_type;
    modifications = changes;
  };
  address = some recipient;
}

metadata_written :
    finished
      (layout (metadata_object_of metadata.modify_metadata_transaction decoded address_size))
      (metadata_object_of metadata.modify_metadata_transaction decoded address_size)
    ≡ true
unfolding finished layout ModifyMetadata.object to_le new_abstract_transaction zeros number_at
    bytes_at from_le slots_hold offset_at reads uint64_to_array deadline_timestamp
    to_blockchain_timestamp metadata_object_of modifications_vector metadata_object
    ModifyMetadata.metadata_size
metadata_written = refl

modify_metadata_address-wire_example :
    (generate_metadata_address_bytes layout metadata
      ≡ ok (
          header_bytes
            (metadata_address_size metadata)
            metadata.modify_metadata_transaction.abstract_transaction
          ++ ModifyMetadata.Wire.body metadata.modify_metadata_transaction decoded))
    × (length (
          header_bytes
            (metadata_address_size metadata)
            metadata.modify_metadata_transaction.abstract_transaction
          ++ ModifyMetadata.Wire.body metadata.modify_metadata_transaction decoded)
        ≡ metadata_address_size metadata)
unfolding metadata_address_size
modify_metadata_address-wire_example =
    modify_metadata_address-wire layout metadata recipient decoded
      (head-Carries entity_metadata_address metadata_address_version) (omega arith) (omega arith)
      refl recipient_decodes refl metadata_written

abbrev blocked : AccountPropertiesAddressTransaction
blocked = record {
  abstract_transaction = head entity_account_property_address account_property_address_version;
  property_type = block_address;
  modifications = (record { modification_type = 0; address = some recipient }) ∷ [];
}

abbrev blocked_address : List (ℕ × Bytes)
blocked_address = (0, decoded) ∷ []

blocked_written :
    finished
      (layout (
        properties_object
          (address_properties_size blocked)
          blocked.abstract_transaction
          blocked.property_type
          1
          blocked_address))
      (properties_object
        (address_properties_size blocked)
        blocked.abstract_transaction
        blocked.property_type
        1
        blocked_address)
    ≡ true
unfolding finished layout AccountProperties.object to_le new_abstract_transaction zeros number_at
    bytes_at from_le slots_hold offset_at reads uint64_to_array deadline_timestamp
    to_blockchain_timestamp properties_object address_properties_size account_property_object
blocked_written = refl

account_properties_address-wire_example :
    (generate_address_bytes layout blocked
      ≡ ok (
          header_bytes (address_properties_size blocked) blocked.abstract_transaction
          ++ AccountProperties.Wire.body blocked.property_type blocked_address))
    × (length (
          header_bytes (address_properties_size blocked) blocked.abstract_transaction
          ++ AccountProperties.Wire.body blocked.property_type blocked_address)
        ≡ address_properties_size blocked)
account_properties_address-wire_example =
    account_properties_address-wire layout blocked blocked_address
      (head-Carries entity_account_property_address account_property_address_version) (omega arith)
      (one_address refl recipient_decodes refl no_address) blocked_written

-- `[net]`, a comment, and `id = x`.
abbrev settings : NetworkConfig
settings = record {
  sections =
      (record {
        name = b'n' ∷ (b'e' ∷ (b't' ∷ []));
        comment = breaks 1;
        index = 0;
        fields =
            (record {
              key = b'i' ∷ (b'd' ∷ []);
              value = b'x' ∷ [];
              comment = breaks 1 ++ ((b'#' ∷ (b'a' ∷ [])) ++ breaks 0);
              index = 0;
            })
            ∷ ((record { key = b'k' ∷ []; value = []; comment = []; index = 1 }) ∷ []);
      })
      ∷ [];
}
