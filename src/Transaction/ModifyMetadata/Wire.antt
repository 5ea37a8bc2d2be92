-- ===== src/Transaction/ModifyMetadata/Wire.antt =====
-- What the metadata transactions of sdk/transaction_model.go are serialised to.
use go_xpx_chain_sdk.Transaction.ModifyMetadata.{
  object, MetadataModification, ModifyMetadataAddressTransaction, ModifyMetadataMosaicTransaction,
  ModifyMetadataNamespaceTransaction, ModifyMetadataTransaction, generate_metadata_address_bytes,
  generate_metadata_bytes, generate_metadata_mosaic_bytes, generate_metadata_namespace_bytes,
  metadata_address_size, metadata_modification_array_to_buffer, metadata_mosaic_size,
  metadata_namespace_size, metadata_object, metadata_objects, metadata_size, modification_size,
  size_of_modifications,
}
use go_xpx_chain_sdk.Base.{
  Bytes, List, [], append-nil, arith, false, length, length-append, map, ok, refl, some, true, ℕ,
  ◌%◌, ◌++◌, ◌+◌, ◌<◌, ◌==◌, ◌^◌, ◌∷◌, ◌≡◌, ◌≢◌,
}
use go_xpx_chain_sdk.Asset.{MosaicId, NamespaceId}
use go_xpx_chain_sdk.Buffers.{to_objects, transaction_buffer_create_uoffset_vector}
use go_xpx_chain_sdk.Encoding.{base32_decode_string}
use go_xpx_chain_sdk.Schema.{
  Schema, array_attribute, attribute, byte_size, int_size, no_attribute, scalar_attribute, u32,
}
use go_xpx_chain_sdk.Schema.Definitions.{modify_metadata_transaction_schema}
use go_xpx_chain_sdk.Schema.Format.{Slot, Slots, finished, fits, wire, wire_objects}
use go_xpx_chain_sdk.Transaction.{Address}
use go_xpx_chain_sdk.Transaction.Entities.{
  entity_metadata_address, entity_metadata_mosaic, entity_metadata_namespace,
  metadata_address_version, metadata_mosaic_version, metadata_namespace_version,
}
use go_xpx_chain_sdk.Transaction.Header.{Carries, header_bytes, serialized, stored, stored_byte}
use go_xpx_chain_sdk.Transaction.Parts.{concat_map, objects_fit-map}
use go_xpx_chain_sdk.Transaction.Sizes.{address_size, mosaic_id_size, namespace_size}
use go_xpx_chain_sdk.Uint64.{to_little_endian}
use go_xpx_chain_sdk.Uint64.Halves.{length-to_little_endian}
use go_xpx_chain_sdk.Word.{length-to_le, to_le}

-- What the fields of a modification must fit: an 8-bit size of a key that is not empty, and a 16-bit size
-- of a value.
abbrev pub AreSmall : List MetadataModification → Type 0
AreSmall [] = Unit
AreSmall (m ∷ ms) =
    (0 < length m.key) × (length m.key < 2 ^ 8) × (length m.value < 2 ^ 16) × AreSmall ms

unfoldable pub modification_bytes : MetadataModification → Bytes
unfolding modification_size
modification_bytes m =
    to_le 4 (modification_size m)
    ++ (to_le 1 m.type
        ++ (to_le 1 (length m.key) ++ (to_le 2 (length m.value) ++ (m.key ++ m.value))))

-- What follows the header in the layout of the protocol.
unfoldable pub body : ModifyMetadataTransaction → Bytes → Bytes
body tx metadata =
    to_le 1 tx.metadata_type ++ (metadata ++ concat_map modification_bytes tx.modifications)

abbrev modification_schema : Schema
modification_schema = attribute (scalar_attribute "size" int_size) (
    attribute (scalar_attribute "modificationType" byte_size) (
      attribute (scalar_attribute "keySize" byte_size) (
        attribute (array_attribute "valueSize" byte_size) (
          attribute (array_attribute "key" byte_size)
            (attribute (array_attribute "value" byte_size) no_attribute)))))

metadata_object-fits :
    (m : MetadataModification) → fits (metadata_object m) modification_schema ≡ true
unfolding metadata_object fits
metadata_object-fits m = refl

metadata_objects_lem :
    (ms : List MetadataModification)
    → AreSmall ms
    → metadata_objects ms ≡ ok (map metadata_object ms)
unfolding metadata_objects
metadata_objects_lem [] h = refl
metadata_objects_lem (m ∷ ms) (k, _, _, h) =
    let some_key : (length m.key == 0) ≡ false = ground arith in
    rw (some_key, metadata_objects_lem ms h)

wire-metadata_object :
    (m : MetadataModification)
    → length m.key < 2 ^ 8
    → length m.value < 2 ^ 16
    → wire (metadata_object m) ≡ modification_bytes m
unfolding metadata_object modification_bytes wire modification_size
wire-metadata_object m k v =
    let small_key : length m.key % 256 ≡ length m.key = omega arith in
    let small_value : length m.value % 2 ^ 16 ≡ length m.value = omega arith in
    let small : u32 (modification_size m) ≡ modification_size m = omega arith in
    rw (small, stored 4 (modification_size m) (omega arith))
      (simp (small_key, small_value, stored_byte, append-nil))

wire-metadata_objects :
    (ms : List MetadataModification)
    → AreSmall ms
    → wire_objects (to_objects (map metadata_object ms)) ≡ concat_map modification_bytes ms
unfolding wire_objects concat_map
wire-metadata_objects [] h = refl
wire-metadata_objects (m ∷ ms) (_, k, v, h) =
    rw (wire-metadata_object m k v, wire-metadata_objects ms h)

length-modifications :
    (ms : List MetadataModification)
    → length (concat_map modification_bytes ms) ≡ size_of_modifications ms
unfolding concat_map modification_bytes size_of_modifications modification_size
length-modifications [] = refl
length-modifications (m ∷ ms) =
    simp (length-append, length-to_le, length-modifications ms) (omega arith)

-- The vector of the modifications.
unfoldable pub modifications_vector : List MetadataModification → Slot
unfolding transaction_buffer_create_uoffset_vector
modifications_vector ms = transaction_buffer_create_uoffset_vector (map metadata_object ms)

module _ (finished_bytes : Slots → Bytes) (tx : ModifyMetadataTransaction) (type : ℕ)
    (t : (type ≢ 0) × (type < 2 ^ 16)) (carries : Carries type 1 tx.abstract_transaction)
    (small : AreSmall tx.modifications) where
  -- The common part, for a subject of any kind.
  pub metadata-wire :
      (metadata : Bytes) (n : ℕ)
      → length metadata ≡ n
      → metadata_size tx + n < 2 ^ 32
      → finished
          (finished_bytes (object tx metadata n (modifications_vector tx.modifications)))
          (object tx metadata n (modifications_vector tx.modifications))
        ≡ true
      → (generate_metadata_bytes finished_bytes tx metadata n
          ≡ ok (header_bytes (metadata_size tx + n) tx.abstract_transaction ++ body tx metadata))
        × (length (header_bytes (metadata_size tx + n) tx.abstract_transaction ++ body tx metadata)
            ≡ metadata_size tx + n)
  unfolding generate_metadata_bytes metadata_modification_array_to_buffer object body fits wire
      modify_metadata_transaction_schema modifications_vector metadata_size
      transaction_buffer_create_uoffset_vector
  metadata-wire metadata n l below written = rw (metadata_objects_lem tx.modifications small) (
      serialized modify_metadata_transaction_schema (metadata_size tx + n) type 1
        (metadata_size tx + n) tx.abstract_transaction
        (object tx metadata n (modifications_vector tx.modifications)) (body tx metadata)
        (finished_bytes (object tx metadata n (modifications_vector tx.modifications)))
        (omega arith) carries written refl
        (rw (objects_fit-map metadata_object _ metadata_object-fits tx.modifications))
        (simp (stored_byte, wire-metadata_objects tx.modifications small, append-nil))
        (simp (length-append, length-to_le, length-modifications, l) (omega arith)))

-- The object for a subject.
unfoldable pub metadata_object_of : ModifyMetadataTransaction → Bytes → ℕ → Slots
unfolding modifications_vector
metadata_object_of tx metadata n = object tx metadata n (modifications_vector tx.modifications)

-- On the flatbuffer that holds its object, with the type and the version of its kind, a network of one
-- byte and a deadline, a change of the metadata of an address that decodes to 25 bytes, with keys of 1
-- to 255 bytes and values below 64 KiB and less than 2 ^ 32 bytes in all, is serialised to its bytes
-- in the order of the protocol: each modification has its own size, and an empty value keeps its size
-- of two bytes. They are as many as `Size` says.
pub modify_metadata_address-wire :
    (finished_bytes : Slots → Bytes) (tx : ModifyMetadataAddressTransaction) (address : Address)
    (a : Bytes)
    → Carries entity_metadata_address metadata_address_version
        tx.modify_metadata_transaction.abstract_transaction
    → AreSmall tx.modify_metadata_transaction.modifications
    → metadata_address_size tx < 2 ^ 32
    → tx.address ≡ some address
    → base32_decode_string address.address ≡ ok a
    → length a ≡ address_size
    → finished
        (finished_bytes (metadata_object_of tx.modify_metadata_transaction (a) address_size))
        (metadata_object_of tx.modify_metadata_transaction (a) address_size)
      ≡ true
    → (generate_metadata_address_bytes finished_bytes tx
        ≡ ok (
            header_bytes
              (metadata_address_size tx)
              tx.modify_metadata_transaction.abstract_transaction
            ++ body tx.modify_metadata_transaction (a)))
      × (length (
            header_bytes
              (metadata_address_size tx)
              tx.modify_metadata_transaction.abstract_transaction
            ++ body tx.modify_metadata_transaction (a))
          ≡ metadata_address_size tx)
unfolding generate_metadata_address_bytes metadata_address_size metadata_object_of
modify_metadata_address-wire finished_bytes tx address a c small below s d l written =
    rw (s, d)
      (metadata-wire finished_bytes tx.modify_metadata_transaction entity_metadata_address
        (omega arith) c small a address_size l below written)

-- The same for the metadata of a mosaic.
pub modify_metadata_mosaic-wire :
    (finished_bytes : Slots → Bytes) (tx : ModifyMetadataMosaicTransaction) (id : MosaicId)
    → Carries entity_metadata_mosaic metadata_mosaic_version
        tx.modify_metadata_transaction.abstract_transaction
    → AreSmall tx.modify_metadata_transaction.modifications
    → metadata_mosaic_size tx < 2 ^ 32
    → tx.mosaic_id ≡ some id
    → finished
        (finished_bytes (
          metadata_object_of tx.modify_metadata_transaction
            (to_little_endian id.base_int64)
            mosaic_id_size))
        (metadata_object_of tx.modify_metadata_transaction
          (to_little_endian id.base_int64)
          mosaic_id_size)
      ≡ true
    → (generate_metadata_mosaic_bytes finished_bytes tx
        ≡ ok (
            header_bytes
              (metadata_mosaic_size tx)
              tx.modify_metadata_transaction.abstract_transaction
            ++ body tx.modify_metadata_transaction (to_little_endian id.base_int64)))
      × (length (
            header_bytes
              (metadata_mosaic_size tx)
              tx.modify_metadata_transaction.abstract_transaction
            ++ body tx.modify_metadata_transaction (to_little_endian id.base_int64))
          ≡ metadata_mosaic_size tx)
unfolding generate_metadata_mosaic_bytes metadata_mosaic_size metadata_object_of
modify_metadata_mosaic-wire finished_bytes tx id c small below s written = rw s (
    metadata-wire finished_bytes tx.modify_metadata_transaction entity_metadata_mosaic (omega arith)
      c small (to_little_endian id.base_int64) mosaic_id_size
      (length-to_little_endian id.base_int64) below written)

-- The same for the metadata of a namespace.
pub modify_metadata_namespace-wire :
    (finished_bytes : Slots → Bytes) (tx : ModifyMetadataNamespaceTransaction) (id : NamespaceId)
    → Carries entity_metadata_namespace metadata_namespace_version
        tx.modify_metadata_transaction.abstract_transaction
    → AreSmall tx.modify_metadata_transaction.modifications
    → metadata_namespace_size tx < 2 ^ 32
    → tx.namespace_id ≡ some id
    → finished
        (finished_bytes (
          metadata_object_of tx.modify_metadata_transaction
            (to_little_endian id.base_int64)
            namespace_size))
        (metadata_object_of tx.modify_metadata_transaction
          (to_little_endian id.base_int64)
          namespace_size)
      ≡ true
    → (generate_metadata_namespace_bytes finished_bytes tx
        ≡ ok (
            header_bytes
              (metadata_namespace_size tx)
              tx.modify_metadata_transaction.abstract_transaction
            ++ body tx.modify_metadata_transaction (to_little_endian id.base_int64)))
      × (length (
            header_bytes
              (metadata_namespace_size tx)
              tx.modify_metadata_transaction.abstract_transaction
            ++ body tx.modify_metadata_transaction (to_little_endian id.base_int64))
          ≡ metadata_namespace_size tx)
unfolding generate_metadata_namespace_bytes metadata_namespace_size metadata_object_of
modify_metadata_namespace-wire finished_bytes tx id c small below s written = rw s (
    metadata-wire finished_bytes tx.modify_metadata_transaction entity_metadata_namespace
      (omega arith) c small (to_little_endian id.base_int64) namespace_size
      (length-to_little_endian id.base_int64) below written)
