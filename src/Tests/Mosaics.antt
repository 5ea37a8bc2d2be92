-- ===== src/Tests/Mosaics.antt =====
-- Concrete transactions on mosaics.
use go_xpx_chain_sdk.Transaction.MosaicDefinition
use go_xpx_chain_sdk.Asset.{id, new_mosaic_properties}
use go_xpx_chain_sdk.Base.{[], arith, false, length, ok, refl, true, ◌++◌, ◌+◌, ◌∷◌, ◌≡◌}
use go_xpx_chain_sdk.Schema.Format.{bytes_at, finished, number_at, offset_at, reads, slots_hold}
use go_xpx_chain_sdk.Tests.Flatbuffer.{layout}
use go_xpx_chain_sdk.Tests.Samples.{head, head-Carries}
use go_xpx_chain_sdk.Transaction.{
  deadline_timestamp, new_abstract_transaction, to_blockchain_timestamp,
}
use go_xpx_chain_sdk.Transaction.Entities.{entity_mosaic_definition, mosaic_definition_version}
use go_xpx_chain_sdk.Transaction.Header.{header_bytes}
use go_xpx_chain_sdk.Transaction.MosaicDefinition.{
  MosaicDefinitionTransaction, after_nonce, mosaic_definition-wire, mosaic_definition_zero_nonce,
}
use go_xpx_chain_sdk.Uint64.{uint64_to_array}
use go_xpx_chain_sdk.Word.{from_le, to_le, zeros}

abbrev definition : MosaicDefinitionTransaction
definition = record {
  abstract_transaction = head entity_mosaic_definition mosaic_definition_version;
  mosaic_properties = new_mosaic_properties true false 4 500;
  mosaic_nonce = 7;
  mosaic_id = record { base_int64 = 0x0dc67fbe1cad29e3 };
}

definition_written :
    finished (layout (MosaicDefinition.object definition)) (MosaicDefinition.object definition)
    ≡ true
unfolding finished layout MosaicDefinition.object to_le new_abstract_transaction zeros number_at
    bytes_at from_le slots_hold offset_at reads uint64_to_array deadline_timestamp
    to_blockchain_timestamp id new_mosaic_properties MosaicDefinition.size
definition_written = refl

mosaic_definition-wire_example :
    (MosaicDefinition.generate_bytes layout definition
      ≡ ok (
          header_bytes (MosaicDefinition.size definition) definition.abstract_transaction
          ++ (to_le 4 7 ++ MosaicDefinition.after_nonce definition)))
    × (length (
          header_bytes (MosaicDefinition.size definition) definition.abstract_transaction
          ++ (to_le 4 7 ++ MosaicDefinition.after_nonce definition))
        ≡ MosaicDefinition.size definition)
unfolding new_mosaic_properties
mosaic_definition-wire_example =
    mosaic_definition-wire layout definition
      (head-Carries entity_mosaic_definition mosaic_definition_version) (omega arith)
      definition_written (omega arith)

abbrev fresh_definition : MosaicDefinitionTransaction
fresh_definition = record definition { mosaic_nonce = 0 }

fresh_definition_written :
    finished
      (layout (MosaicDefinition.object fresh_definition))
      (MosaicDefinition.object fresh_definition)
    ≡ true
unfolding finished layout MosaicDefinition.object to_le new_abstract_transaction zeros number_at
    bytes_at from_le slots_hold offset_at reads uint64_to_array deadline_timestamp
    to_blockchain_timestamp id new_mosaic_properties MosaicDefinition.size
fresh_definition_written = refl

mosaic_definition_zero_nonce_example :
    (MosaicDefinition.generate_bytes layout fresh_definition
      ≡ ok (
          header_bytes
            (MosaicDefinition.size fresh_definition)
            fresh_definition.abstract_transaction
          ++ (0 ∷ [] ++ MosaicDefinition.after_nonce fresh_definition)))
    × (length (
            header_bytes
              (MosaicDefinition.size fresh_definition)
              fresh_definition.abstract_transaction
            ++ (0 ∷ [] ++ MosaicDefinition.after_nonce fresh_definition))
          + 3
        ≡ MosaicDefinition.size fresh_definition)
unfolding new_mosaic_properties
mosaic_definition_zero_nonce_example =
    mosaic_definition_zero_nonce layout fresh_definition
      (head-Carries entity_mosaic_definition mosaic_definition_version) (omega arith)
      fresh_definition_written refl
