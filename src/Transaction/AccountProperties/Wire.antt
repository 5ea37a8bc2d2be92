-- ===== src/Transaction/AccountProperties/Wire.antt =====
-- What the transactions on account properties of sdk/transaction_model.go are serialised to.
use go_xpx_chain_sdk.Schema.{
  serialize, array_attribute, attribute, byte_size, no_attribute, scalar_attribute,
}
use go_xpx_chain_sdk.Transaction.AccountProperties.{
  object, AccountPropertiesAddressModification, AccountPropertiesAddressTransaction,
  account_property_object, address_objects, address_properties_size, generate_address_bytes,
}
use go_xpx_chain_sdk.Base.{
  Bytes, List, [], append-nil, arith, length, length-append, map, ok, refl, some, true, ℕ, ◌%◌, ◌*◌,
  ◌++◌, ◌+◌, ◌<◌, ◌^◌, ◌∷◌, ◌≡◌, ◌≢◌,
}
use go_xpx_chain_sdk.Base.Text.{same}
use go_xpx_chain_sdk.Buffers.{transaction_buffer_create_uoffset_vector}
use go_xpx_chain_sdk.Encoding.{base32_decode_string}
use go_xpx_chain_sdk.Schema.Definitions.{account_property_transaction_schema}
use go_xpx_chain_sdk.Schema.Format.{Slots, finished, fits, wire}
use go_xpx_chain_sdk.Transaction.{AbstractTransaction, Address, following_deadline}
use go_xpx_chain_sdk.Transaction.Entities.{
  account_property_address_version, entity_account_property_address,
}
use go_xpx_chain_sdk.Transaction.Header.{Carries, header_bytes, serialized, stored_byte}
use go_xpx_chain_sdk.Transaction.Parts.{concat_map, objects_fit-map, wire_objects-map}
use go_xpx_chain_sdk.Transaction.Sizes.{address_size, transaction_header_size}
use go_xpx_chain_sdk.Word.{length-to_le, to_le}

-- A modification in the layout of the protocol: its type and its value.
unfoldable pub property_bytes : ℕ × Bytes → Bytes
property_bytes (type, value) = to_le 1 type ++ value

-- What follows the header in the layout of the protocol.
unfoldable pub body : ℕ → List (ℕ × Bytes) → Bytes
body property_type ps =
    to_le 1 property_type ++ (to_le 1 (length ps) ++ concat_map property_bytes ps)

pub account_property_object-fits :
    (p : ℕ × Bytes)
    → fits (account_property_object p) (
        attribute
          (scalar_attribute "modificationType" byte_size)
          (attribute (array_attribute "value" byte_size) no_attribute))
      ≡ true
unfolding account_property_object fits
account_property_object-fits (type, value) = refl

pub wire-account_property_object :
    (p : ℕ × Bytes) → wire (account_property_object p) ≡ property_bytes p
unfolding account_property_object property_bytes wire
wire-account_property_object (type, value) = simp (stored_byte, append-nil)

-- The modifications have values of the same size.
abbrev pub HaveSize : ℕ → List (ℕ × Bytes) → Type 0
HaveSize k [] = Unit
HaveSize k ((type, value) ∷ ps) = (length value ≡ k) × HaveSize k ps

pub length-properties :
    (k : ℕ) (ps : List (ℕ × Bytes))
    → HaveSize k ps
    → length (concat_map property_bytes ps) ≡ (1 + k) * length ps
unfolding concat_map property_bytes
length-properties k [] h = omega arith
length-properties k ((type, value) ∷ ps) (e, h) =
    simp (length-append, length-to_le) (grind (arith, e, length-properties k ps h))

-- The common part of the three kinds.
pub properties-wire :
    (buffer : Bytes) (size type k property_type count : ℕ) (a : AbstractTransaction)
    (ps : List (ℕ × Bytes))
    → (type ≢ 0) × (type < 2 ^ 16)
    → Carries type 1 a
    → HaveSize k ps
    → length ps ≡ count
    → count < 2 ^ 8
    → size < 2 ^ 32
    → transaction_header_size + 2 + (1 + k) * count ≡ size
    → finished buffer (object size a property_type count (map account_property_object ps)) ≡ true
    → (following_deadline a (serialize account_property_transaction_schema buffer)
        ≡ ok (header_bytes size a ++ body property_type ps))
      × (length (header_bytes size a ++ body property_type ps) ≡ size)
unfolding object body fits wire account_property_transaction_schema
    transaction_buffer_create_uoffset_vector
properties-wire buffer size type k property_type count a ps t c h same few small total written =
    let counted : count % 256 ≡ length ps = omega arith in
    serialized account_property_transaction_schema size type 1 size a
      (object size a property_type count (map account_property_object ps)) (body property_type ps)
      buffer (omega arith) c written refl
      (rw (objects_fit-map account_property_object _ account_property_object-fits ps))
      (simp (
        counted,
        stored_byte,
        wire_objects-map account_property_object property_bytes wire-account_property_object,
        append-nil,
      ))
      (simp (length-append, length-to_le, length-properties k ps h, same) (omega arith))

-- The addresses of the modifications decode to addresses, beside which stand the types.
pub data AreAddresses : List AccountPropertiesAddressModification → List (ℕ × Bytes) → Type 0 where
  no_address : AreAddresses [] []
  one_address :
      {m : AccountPropertiesAddressModification} {ms : List AccountPropertiesAddressModification}
      {address : Address} {a : Bytes} {ps : List (ℕ × Bytes)}
      → m.address ≡ some address
      → base32_decode_string address.address ≡ ok a
      → length a ≡ address_size
      → AreAddresses ms ps
      → AreAddresses (m ∷ ms) ((m.modification_type, a) ∷ ps)

address_objects_lem :
    {ms : List AccountPropertiesAddressModification} {ps : List (ℕ × Bytes)}
    → AreAddresses ms ps
    → address_objects ms ≡ ok (map account_property_object ps)
unfolding address_objects
address_objects_lem no_address = refl
address_objects_lem (one_address s d l h) = rw (s, d, address_objects_lem h)

AreAddresses-HaveSize :
    {ms : List AccountPropertiesAddressModification} {ps : List (ℕ × Bytes)}
    → AreAddresses ms ps
    → (length ps ≡ length ms) × HaveSize address_size ps
AreAddresses-HaveSize no_address = (refl, tt)
AreAddresses-HaveSize (one_address s d l h) =
    let (e, sizes) = AreAddresses-HaveSize h in (omega arith, (l, sizes))

-- The object of any of the three, from the types and values of its modifications.
unfoldable pub properties_object : ℕ → AbstractTransaction → ℕ → ℕ → List (ℕ × Bytes) → Slots
properties_object size a property_type count ps =
    object size a property_type count (map account_property_object ps)

-- On the flatbuffer that holds its object, with the type and the version of its kind, a network of one
-- byte and a deadline, a transaction on fewer than 256 account properties whose addresses decode to 25
-- bytes is serialised to its bytes in the order of the protocol: the type, the count, and each
-- modification with its address. They are as many as `Size` says.
pub account_properties_address-wire :
    (finished_bytes : Slots → Bytes) (tx : AccountPropertiesAddressTransaction)
    (ps : List (ℕ × Bytes))
    → Carries entity_account_property_address account_property_address_version
        tx.abstract_transaction
    → length tx.modifications < 2 ^ 8
    → AreAddresses tx.modifications ps
    → finished
        (finished_bytes (
          properties_object
            (address_properties_size tx)
            tx.abstract_transaction
            tx.property_type
            (length tx.modifications)
            ps))
        (properties_object
          (address_properties_size tx)
          tx.abstract_transaction
          tx.property_type
          (length tx.modifications)
          ps)
      ≡ true
    → (generate_address_bytes finished_bytes tx
        ≡ ok (
            header_bytes (address_properties_size tx) tx.abstract_transaction
            ++ body tx.property_type (ps)))
      × (length (
            header_bytes (address_properties_size tx) tx.abstract_transaction
            ++ body tx.property_type (ps))
          ≡ address_properties_size tx)
unfolding generate_address_bytes address_properties_size properties_object
account_properties_address-wire finished_bytes tx ps c few h written =
    let (counted, sizes) = AreAddresses-HaveSize h in
    rw (address_objects_lem h) (
      properties-wire
        (finished_bytes (
          properties_object (address_properties_size tx) tx.abstract_transaction tx.property_type
            (length tx.modifications) ps))
        (address_properties_size tx) entity_account_property_address address_size tx.property_type
        (length tx.modifications) tx.abstract_transaction ps (omega arith) c sizes counted few
        (omega arith) (omega arith) written)
