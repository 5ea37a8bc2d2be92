-- ===== src/Transaction/AccountProperties/Values.antt =====
-- What the transactions on account properties for mosaics and for types of transactions are serialised to.
use go_xpx_chain_sdk.Asset.{id}
use go_xpx_chain_sdk.Transaction.AccountProperties.Wire.{
  body, HaveSize, properties-wire, properties_object,
}
use go_xpx_chain_sdk.Base.{
  Bytes, List, [], arith, length, map, ok, refl, true, ℕ, ◌++◌, ◌<◌, ◌^◌, ◌∷◌, ◌≡◌,
}
use go_xpx_chain_sdk.Base.Text.{same}
use go_xpx_chain_sdk.Schema.Format.{Slots, finished}
use go_xpx_chain_sdk.Transaction.AccountProperties.{
  AccountPropertiesEntityTypeModification, AccountPropertiesEntityTypeTransaction,
  AccountPropertiesMosaicModification, AccountPropertiesMosaicTransaction, account_property_object,
  entity_type_properties_size, entity_type_property_object, generate_entity_type_bytes,
  generate_mosaic_bytes, mosaic_properties_size, mosaic_property_object,
}
use go_xpx_chain_sdk.Transaction.Entities.{
  account_property_entity_type_version, account_property_mosaic_version,
  entity_account_property_entity_type, entity_account_property_mosaic,
}
use go_xpx_chain_sdk.Transaction.Header.{Carries, header_bytes}
use go_xpx_chain_sdk.Transaction.Sizes.{mosaic_id_size, type_size}
use go_xpx_chain_sdk.Uint64.{to_little_endian}
use go_xpx_chain_sdk.Uint64.Halves.{length-to_little_endian}
use go_xpx_chain_sdk.Word.{length-to_le, to_le}

abbrev pub mosaic_property : AccountPropertiesMosaicModification → ℕ × Bytes
mosaic_property m = (m.modification_type, to_little_endian (id m.asset_id))

abbrev pub entity_type_property : AccountPropertiesEntityTypeModification → ℕ × Bytes
entity_type_property m = (m.modification_type, to_le 2 m.entity_type)

mosaic_property-HaveSize :
    (ms : List AccountPropertiesMosaicModification)
    → (length (map mosaic_property ms) ≡ length ms)
      × HaveSize mosaic_id_size (map mosaic_property ms)
      × (map mosaic_property_object ms ≡ map account_property_object (map mosaic_property ms))
unfolding mosaic_property_object
mosaic_property-HaveSize [] = (refl, tt, refl)
mosaic_property-HaveSize (m ∷ ms) =
    let (e, sizes, same) = mosaic_property-HaveSize ms in
    (omega arith, (length-to_little_endian (id m.asset_id), sizes), cc)

entity_type_property-HaveSize :
    (ms : List AccountPropertiesEntityTypeModification)
    → (length (map entity_type_property ms) ≡ length ms)
      × HaveSize type_size (map entity_type_property ms)
      × (map entity_type_property_object ms
          ≡ map account_property_object (map entity_type_property ms))
unfolding entity_type_property_object
entity_type_property-HaveSize [] = (refl, tt, refl)
entity_type_property-HaveSize (m ∷ ms) =
    let (e, sizes, same) = entity_type_property-HaveSize ms in
    (omega arith, (length-to_le 2 m.entity_type, sizes), cc)

-- What the transactions on the properties of an account for mosaics are serialised to.
pub account_properties_mosaic-wire :
    (finished_bytes : Slots → Bytes) (tx : AccountPropertiesMosaicTransaction)
    → Carries entity_account_property_mosaic account_property_mosaic_version tx.abstract_transaction
    → length tx.modifications < 2 ^ 8
    → finished
        (finished_bytes (
          properties_object
            (mosaic_properties_size tx)
            tx.abstract_transaction
            tx.property_type
            (length tx.modifications)
            (map mosaic_property tx.modifications)))
        (properties_object
          (mosaic_properties_size tx)
          tx.abstract_transaction
          tx.property_type
          (length tx.modifications)
          (map mosaic_property tx.modifications))
      ≡ true
    → (generate_mosaic_bytes finished_bytes tx
        ≡ ok (
            header_bytes (mosaic_properties_size tx) tx.abstract_transaction
            ++ body tx.property_type (map mosaic_property tx.modifications)))
      × (length (
            header_bytes (mosaic_properties_size tx) tx.abstract_transaction
            ++ body tx.property_type (map mosaic_property tx.modifications))
          ≡ mosaic_properties_size tx)
unfolding generate_mosaic_bytes mosaic_properties_size properties_object
account_properties_mosaic-wire finished_bytes tx c few written =
    let ps = map mosaic_property tx.modifications in
    let (counted, sizes, same) = mosaic_property-HaveSize tx.modifications in
    rw same (
      properties-wire
        (finished_bytes (
          properties_object (mosaic_properties_size tx) tx.abstract_transaction tx.property_type
            (length tx.modifications) ps))
        (mosaic_properties_size tx) entity_account_property_mosaic mosaic_id_size tx.property_type
        (length tx.modifications) tx.abstract_transaction ps (omega arith) c sizes counted few
        (omega arith) (omega arith) written)

-- The same for types of transactions.
pub account_properties_entity_type-wire :
    (finished_bytes : Slots → Bytes) (tx : AccountPropertiesEntityTypeTransaction)
    → Carries entity_account_property_entity_type account_property_entity_type_version
        tx.abstract_transaction
    → length tx.modifications < 2 ^ 8
    → finished
        (finished_bytes (
          properties_object
            (entity_type_properties_size tx)
            tx.abstract_transaction
            tx.property_type
            (length tx.modifications)
            (map entity_type_property tx.modifications)))
        (properties_object
          (entity_type_properties_size tx)
          tx.abstract_transaction
          tx.property_type
          (length tx.modifications)
          (map entity_type_property tx.modifications))
      ≡ true
    → (generate_entity_type_bytes finished_bytes tx
        ≡ ok (
            header_bytes (entity_type_properties_size tx) tx.abstract_transaction
            ++ body tx.property_type (map entity_type_property tx.modifications)))
      × (length (
            header_bytes (entity_type_properties_size tx) tx.abstract_transaction
            ++ body tx.property_type (map entity_type_property tx.modifications))
          ≡ entity_type_properties_size tx)
unfolding generate_entity_type_bytes entity_type_properties_size properties_object
account_properties_entity_type-wire finished_bytes tx c few written =
    let ps = map entity_type_property tx.modifications in
    let (counted, sizes, same) = entity_type_property-HaveSize tx.modifications in
    rw same (
      properties-wire
        (finished_bytes (
          properties_object (entity_type_properties_size tx) tx.abstract_transaction
            tx.property_type (length tx.modifications) ps))
        (entity_type_properties_size tx) entity_account_property_entity_type type_size
        tx.property_type (length tx.modifications) tx.abstract_transaction ps (omega arith) c sizes
        counted few (omega arith) (omega arith) written)
