-- ===== src/Transaction/MosaicDefinition.antt =====
-- `MosaicDefinitionTransaction` of sdk/transaction_model.go.
use go_xpx_chain_sdk.Schema.{
  serialize, array_attribute, attribute, byte_size, int_size, no_attribute, scalar_attribute,
}
use go_xpx_chain_sdk.Base.{
  Bool, Bytes, List, Option, Result, [], append-nil, append_assoc, arith, err,
  err_invalid_owner_public_key, err_nil_mosaic_properties, false, if◌then◌else◌, length,
  length-append, map, none, ok, refl, some, true, ℕ, ◌%◌, ◌*◌, ◌++◌, ◌+◌, ◌-◌, ◌<◌, ◌==◌, ◌>>=◌,
  ◌^◌, ◌∷◌, ◌≡◌, ◌≢◌,
}
use go_xpx_chain_sdk.Asset.{MosaicId, MosaicProperties, MosaicProperty}
use go_xpx_chain_sdk.Asset.Nonce.{new_mosaic_id_from_nonce_and_owner}
use go_xpx_chain_sdk.Buffers.{
  transaction_buffer_add_size, transaction_buffer_create_uint32_vector,
  transaction_buffer_create_uoffset_vector,
}
use go_xpx_chain_sdk.Buffers.Mosaics.{
  mosaic_definition_transaction_buffer_add_divisibility,
  mosaic_definition_transaction_buffer_add_flags,
  mosaic_definition_transaction_buffer_add_mosaic_id,
  mosaic_definition_transaction_buffer_add_mosaic_nonce,
  mosaic_definition_transaction_buffer_add_num_optional_properties,
  mosaic_definition_transaction_buffer_add_optional_properties,
  mosaic_definition_transaction_buffer_start, mosaic_property_add_mosaic_property_id,
  mosaic_property_add_value, mosaic_property_start,
}
use go_xpx_chain_sdk.Schema.Definitions.{mosaic_definition_transaction_schema}
use go_xpx_chain_sdk.Schema.Format.{Slot, Slots, finished, fits, wire}
use go_xpx_chain_sdk.Transaction.{
  AbstractTransaction, Deadline, build_vectors, following_deadline, new_abstract_transaction, ◌⊳◌,
}
use go_xpx_chain_sdk.Transaction.Entities.{entity_mosaic_definition, mosaic_definition_version}
use go_xpx_chain_sdk.Transaction.Header.{Carries, header_bytes, serialized, stored, stored_byte}
use go_xpx_chain_sdk.Transaction.Parts.{
  concat_map, length-concat_map, objects_fit-map, wire_objects-map,
}
use go_xpx_chain_sdk.Transaction.Sizes.{
  mosaic_definition_transaction_header_size, mosaic_optional_property_size,
}
use go_xpx_chain_sdk.Uint64.{to_little_endian, uint64_to_array}
use go_xpx_chain_sdk.Uint64.Halves.{halves-to_le, length-to_little_endian}
use go_xpx_chain_sdk.Word.{length-to_le, to_le}

pub record MosaicDefinitionTransaction : Type 0 where
  pub abstract_transaction : AbstractTransaction
  pub mosaic_properties : MosaicProperties
  pub mosaic_nonce : ℕ
  pub mosaic_id : MosaicId

pub new_mosaic_definition_transaction :
    (Bytes → Bytes)
    → Option Deadline
    → ℕ
    → Bytes
    → Option MosaicProperties
    → ℕ
    → Result MosaicDefinitionTransaction
new_mosaic_definition_transaction sha3 deadline nonce owner_public_key none network_type =
    if length owner_public_key == 64
    then err err_nil_mosaic_properties
    else err err_invalid_owner_public_key
new_mosaic_definition_transaction sha3 deadline nonce owner_public_key (some p) network_type =
    if length owner_public_key == 64
    then (do
      mosaic_id ← new_mosaic_id_from_nonce_and_owner sha3 nonce owner_public_key
      ok (record {
        abstract_transaction =
            new_abstract_transaction deadline entity_mosaic_definition mosaic_definition_version
              network_type;
        mosaic_properties = p;
        mosaic_nonce = nonce;
        mosaic_id = mosaic_id;
      }))
    else err err_invalid_owner_public_key

unfoldable pub size : MosaicDefinitionTransaction → ℕ
size tx =
    mosaic_definition_transaction_header_size
    + length tx.mosaic_properties.optional_properties * mosaic_optional_property_size

-- One object of `mosaicPropertyArrayToBuffer`.
unfoldable pub property_object : MosaicProperty → Slots
unfolding transaction_buffer_create_uint32_vector mosaic_property_start
    mosaic_property_add_mosaic_property_id mosaic_property_add_value
property_object p =
    mosaic_property_start
    ⊳ mosaic_property_add_mosaic_property_id p.property
    ⊳ mosaic_property_add_value (transaction_buffer_create_uint32_vector (uint64_to_array p.value))

unfoldable pub mosaic_property_array_to_buffer : List MosaicProperty → Slot
unfolding property_object transaction_buffer_create_uoffset_vector
mosaic_property_array_to_buffer properties =
    transaction_buffer_create_uoffset_vector (map property_object properties)

-- `Supply_Mutable` and `Transferable`
unfoldable pub flags : MosaicProperties → ℕ
flags p = (if p.supply_mutable then 1 else 0) + (if p.transferable then 2 else 0)

-- The object that `generateBytes` has the builder make.
unfoldable pub object : MosaicDefinitionTransaction → Slots
unfolding flags mosaic_property_array_to_buffer transaction_buffer_create_uint32_vector
    mosaic_definition_transaction_buffer_start transaction_buffer_add_size build_vectors
    mosaic_definition_transaction_buffer_add_mosaic_nonce
    mosaic_definition_transaction_buffer_add_mosaic_id
    mosaic_definition_transaction_buffer_add_flags
    mosaic_definition_transaction_buffer_add_divisibility
    mosaic_definition_transaction_buffer_add_num_optional_properties
    mosaic_definition_transaction_buffer_add_optional_properties
object tx =
    let p = tx.mosaic_properties in
    mosaic_definition_transaction_buffer_start
    ⊳ transaction_buffer_add_size (size tx)
    ⊳ build_vectors tx.abstract_transaction
    ⊳ mosaic_definition_transaction_buffer_add_mosaic_nonce tx.mosaic_nonce
    ⊳ mosaic_definition_transaction_buffer_add_mosaic_id
        (transaction_buffer_create_uint32_vector (uint64_to_array tx.mosaic_id.base_int64))
    ⊳ mosaic_definition_transaction_buffer_add_flags (flags p)
    ⊳ mosaic_definition_transaction_buffer_add_divisibility p.divisibility
    ⊳ mosaic_definition_transaction_buffer_add_num_optional_properties
        (length p.optional_properties % 256)
    ⊳ mosaic_definition_transaction_buffer_add_optional_properties
        (mosaic_property_array_to_buffer p.optional_properties)

pub generate_bytes : (Slots → Bytes) → MosaicDefinitionTransaction → Result Bytes
generate_bytes finished_bytes tx =
    following_deadline tx.abstract_transaction
      (serialize mosaic_definition_transaction_schema (finished_bytes (object tx)))

unfoldable pub property_bytes : MosaicProperty → Bytes
property_bytes p = to_le 1 p.property ++ to_little_endian p.value

-- The byte of the flags by the protocol: the lowest bit says that the supply can be changed, the next one
-- that the mosaic can be transferred.
unfoldable pub flag_byte : Bool → Bool → ℕ
flag_byte false false = 0
flag_byte true false = 1
flag_byte false true = 2
flag_byte true true = 3

flags_lem : (p : MosaicProperties) → flags p ≡ flag_byte p.supply_mutable p.transferable
unfolding flags flag_byte
flags_lem p = by_flags p.supply_mutable p.transferable
  where
    by_flags : (s t : Bool) → (if s then 1 else 0) + (if t then 2 else 0) ≡ flag_byte s t
    by_flags false false = refl
    by_flags true false = refl
    by_flags false true = refl
    by_flags true true = refl

-- What follows the nonce in the layout of the protocol.
unfoldable pub after_nonce : MosaicDefinitionTransaction → Bytes
after_nonce tx =
    let p = tx.mosaic_properties in
    to_little_endian tx.mosaic_id.base_int64
    ++ (to_le 1 (length p.optional_properties)
        ++ (to_le 1 (flag_byte p.supply_mutable p.transferable)
            ++ (to_le 1 p.divisibility ++ concat_map property_bytes p.optional_properties)))

property_object-fits :
    (p : MosaicProperty)
    → fits (property_object p) (
        attribute
          (scalar_attribute "mosaicPropertyId" byte_size)
          (attribute (array_attribute "value" int_size) no_attribute))
      ≡ true
unfolding property_object fits
property_object-fits p = refl

wire-property_object : (p : MosaicProperty) → wire (property_object p) ≡ property_bytes p
unfolding property_object property_bytes wire
wire-property_object p = simp (stored_byte, halves-to_le, append-nil)

length-property_bytes : (p : MosaicProperty) → length (property_bytes p) ≡ 9
unfolding property_bytes
length-property_bytes p = simp (length-append, length-to_le, length-to_little_endian)

module _ (finished_bytes : Slots → Bytes) (tx : MosaicDefinitionTransaction)
    (carries : Carries entity_mosaic_definition mosaic_definition_version tx.abstract_transaction)
    (few : length tx.mosaic_properties.optional_properties < 2 ^ 8)
    (written : finished (finished_bytes (object tx)) (object tx) ≡ true) where
  -- The wire bytes with whatever the serialiser makes of the nonce.
  with_nonce :
      (nonce : Bytes) (total : ℕ)
      → (if tx.mosaic_nonce == 0 then 0 ∷ [] else to_le 4 tx.mosaic_nonce) ≡ nonce
      → length nonce + 133 + 9 * length tx.mosaic_properties.optional_properties ≡ total
      → (generate_bytes finished_bytes tx
          ≡ ok (header_bytes (size tx) tx.abstract_transaction ++ (nonce ++ after_nonce tx)))
        × (length (header_bytes (size tx) tx.abstract_transaction ++ (nonce ++ after_nonce tx))
            ≡ total)
  unfolding generate_bytes object after_nonce fits mosaic_definition_transaction_schema wire size
  with_nonce nonce total n l =
      let small : length tx.mosaic_properties.optional_properties % 256
          ≡ length tx.mosaic_properties.optional_properties =
        omega arith in
      serialized mosaic_definition_transaction_schema (size tx) entity_mosaic_definition
        mosaic_definition_version total tx.abstract_transaction (object tx)
        (nonce ++ after_nonce tx) (finished_bytes (object tx)) (omega arith) carries written refl
        (rw (
          objects_fit-map property_object _ property_object-fits
            tx.mosaic_properties.optional_properties))
        (simp (
          n,
          small,
          flags_lem,
          stored_byte,
          halves-to_le,
          wire_objects-map property_object property_bytes wire-property_object,
          append-nil,
          append_assoc,
        ))
        (simp
          (
            length-append,
            length-to_le,
            length-to_little_endian,
            length-concat_map property_bytes 9 length-property_bytes,
          )
          (omega arith))

  -- On the flatbuffer that holds its object, with the type and the version of its kind, a network of
  -- one byte and a deadline, a mosaic definition with a nonce other than 0 and fewer than 256 optional
  -- properties, is serialised to its bytes in the order of the protocol, and they are as many as
  -- `Size` says.
  pub mosaic_definition-wire :
      tx.mosaic_nonce ≢ 0
      → (generate_bytes finished_bytes tx
          ≡ ok (
              header_bytes (size tx) tx.abstract_transaction
              ++ (to_le 4 tx.mosaic_nonce ++ after_nonce tx)))
        × (length (
              header_bytes (size tx) tx.abstract_transaction
              ++ (to_le 4 tx.mosaic_nonce ++ after_nonce tx))
            ≡ size tx)
  unfolding size
  mosaic_definition-wire nonzero =
      with_nonce (to_le 4 tx.mosaic_nonce) (size tx) (stored 4 tx.mosaic_nonce nonzero)
        (rw length-to_le (omega arith))

  -- On the flatbuffer that holds its object, with the type and the version of its kind, a network of
  -- one byte and a deadline, and fewer than 256 optional properties, but with the nonce 0, a mosaic
  -- definition loses three of the four bytes of its nonce: the transaction is three bytes shorter than
  -- the size that its header announces, and everything behind the nonce is displaced.
  pub mosaic_definition_zero_nonce :
      tx.mosaic_nonce ≡ 0
      → (generate_bytes finished_bytes tx
          ≡ ok (header_bytes (size tx) tx.abstract_transaction ++ (0 ∷ [] ++ after_nonce tx)))
        × (length (header_bytes (size tx) tx.abstract_transaction ++ (0 ∷ [] ++ after_nonce tx)) + 3
            ≡ size tx)
  unfolding size
  mosaic_definition_zero_nonce zeroed =
      let (e, l) = with_nonce (0 ∷ []) (size tx - 3) (rw zeroed) (omega arith) in (e, omega arith)
