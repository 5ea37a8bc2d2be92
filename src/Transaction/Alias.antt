-- ===== src/Transaction/Alias.antt =====
-- `AliasTransaction`, `AddressAliasTransaction` and `MosaicAliasTransaction` of
-- sdk/transaction_model.go.
use go_xpx_chain_sdk.Schema.{serialize}
use go_xpx_chain_sdk.Base.{
  Bytes, Option, Result, append-nil, arith, err, length, length-append, new_error, none, ok, refl,
  some, true, ℕ, ◌++◌, ◌+◌, ◌<◌, ◌>>=◌, ◌^◌, ◌≡◌, ◌≢◌,
}
use go_xpx_chain_sdk.Asset.{MosaicId, NamespaceId}
use go_xpx_chain_sdk.Buffers.{
  transaction_buffer_add_size, transaction_buffer_create_byte_vector,
  transaction_buffer_create_uint32_vector,
}
use go_xpx_chain_sdk.Buffers.Namespaces.{
  alias_transaction_buffer_add_action_type, alias_transaction_buffer_add_alias_id,
  alias_transaction_buffer_add_namespace_id, alias_transaction_buffer_start,
}
use go_xpx_chain_sdk.Encoding.{base32_decode_string}
use go_xpx_chain_sdk.Schema.Definitions.{alias_transaction_schema}
use go_xpx_chain_sdk.Schema.Format.{Slots, finished, fits, wire}
use go_xpx_chain_sdk.Transaction.{
  AbstractTransaction, Address, Deadline, build_vectors, following_deadline,
  new_abstract_transaction, ◌⊳◌,
}
use go_xpx_chain_sdk.Transaction.Entities.{
  address_alias_version, entity_address_alias, entity_mosaic_alias, mosaic_alias_version,
}
use go_xpx_chain_sdk.Transaction.Header.{Carries, header_bytes, serialized, stored_byte}
use go_xpx_chain_sdk.Transaction.Sizes.{address_size, alias_transaction_header_size, mosaic_id_size}
use go_xpx_chain_sdk.Uint64.{to_little_endian, uint64_to_array}
use go_xpx_chain_sdk.Uint64.Halves.{halves-to_le, length-to_little_endian}
use go_xpx_chain_sdk.Word.{length-to_le, to_le}

pub record AliasTransaction : Type 0 where
  pub abstract_transaction : AbstractTransaction
  pub action_type : ℕ
  pub namespace_id : NamespaceId

pub record AddressAliasTransaction : Type 0 where
  pub alias_transaction : AliasTransaction
  pub address : Address

pub record MosaicAliasTransaction : Type 0 where
  pub alias_transaction : AliasTransaction
  pub mosaic_id : MosaicId

-- The literal `AliasTransaction{…}` of the two constructors.
new_alias_transaction : Option Deadline → ℕ → ℕ → NamespaceId → ℕ → ℕ → AliasTransaction
new_alias_transaction deadline type version namespace_id action_type network_type = record {
  abstract_transaction = new_abstract_transaction deadline type version network_type;
  action_type = action_type;
  namespace_id = namespace_id;
}

pub new_address_alias_transaction :
    Option Deadline → Option Address → Option NamespaceId → ℕ → ℕ → Result AddressAliasTransaction
unfolding new_alias_transaction
new_address_alias_transaction deadline none namespace_id action_type network_type =
    err (new_error "address must not be nil")
new_address_alias_transaction deadline (some address) none action_type network_type =
    err (new_error "namespaceId must not be nil")
new_address_alias_transaction deadline (some address) (some n) action_type network_type =
    ok (record {
      alias_transaction =
          new_alias_transaction deadline entity_address_alias address_alias_version n action_type
            network_type;
      address = address;
    })

pub new_mosaic_alias_transaction :
    Option Deadline → Option MosaicId → Option NamespaceId → ℕ → ℕ → Result MosaicAliasTransaction
unfolding new_alias_transaction
new_mosaic_alias_transaction deadline none namespace_id action_type network_type =
    err (new_error "mosaicId must not bu nil")
new_mosaic_alias_transaction deadline (some mosaic_id) none action_type network_type =
    err (new_error "namespaceId must not bu nil")
new_mosaic_alias_transaction deadline (some mosaic_id) (some n) action_type network_type =
    ok (record {
      alias_transaction =
          new_alias_transaction deadline entity_mosaic_alias mosaic_alias_version n action_type
            network_type;
      mosaic_id = mosaic_id;
    })

-- `AliasTransaction.Size`
unfoldable pub alias_size : AliasTransaction → ℕ
alias_size tx = alias_transaction_header_size

unfoldable pub address_alias_size : AddressAliasTransaction → ℕ
unfolding alias_size
address_alias_size tx = alias_size tx.alias_transaction + address_size

unfoldable pub mosaic_alias_size : MosaicAliasTransaction → ℕ
unfolding alias_size
mosaic_alias_size tx = alias_size tx.alias_transaction + mosaic_id_size

-- The object that `AliasTransaction.generateBytes` has the builder make for the bytes of an alias.
unfoldable pub object : AliasTransaction → Bytes → ℕ → Slots
unfolding alias_size transaction_buffer_create_uint32_vector transaction_buffer_create_byte_vector
    alias_transaction_buffer_start transaction_buffer_add_size build_vectors
    alias_transaction_buffer_add_action_type alias_transaction_buffer_add_namespace_id
    alias_transaction_buffer_add_alias_id
object tx alias_bytes size_of_alias =
    let n = transaction_buffer_create_uint32_vector (uint64_to_array tx.namespace_id.base_int64) in
    alias_transaction_buffer_start
    ⊳ transaction_buffer_add_size (alias_size tx + size_of_alias)
    ⊳ build_vectors tx.abstract_transaction
    ⊳ alias_transaction_buffer_add_action_type tx.action_type
    ⊳ alias_transaction_buffer_add_namespace_id n
    ⊳ alias_transaction_buffer_add_alias_id (transaction_buffer_create_byte_vector alias_bytes)

generate_alias_bytes : (Slots → Bytes) → AliasTransaction → Bytes → ℕ → Result Bytes
generate_alias_bytes finished_bytes tx alias_bytes size_of_alias =
    following_deadline tx.abstract_transaction
      (serialize alias_transaction_schema (finished_bytes (object tx alias_bytes size_of_alias)))

pub generate_address_alias_bytes : (Slots → Bytes) → AddressAliasTransaction → Result Bytes
unfolding generate_alias_bytes
generate_address_alias_bytes finished_bytes tx = do
  a ← base32_decode_string tx.address.address
  generate_alias_bytes finished_bytes tx.alias_transaction a address_size

pub generate_mosaic_alias_bytes : (Slots → Bytes) → MosaicAliasTransaction → Result Bytes
unfolding generate_alias_bytes
generate_mosaic_alias_bytes finished_bytes tx =
    generate_alias_bytes finished_bytes tx.alias_transaction
      (to_little_endian tx.mosaic_id.base_int64) mosaic_id_size

-- What follows the header in the layout of the protocol.
unfoldable pub body : AliasTransaction → Bytes → Bytes
body tx alias_bytes =
    to_le 1 tx.action_type ++ (to_little_endian tx.namespace_id.base_int64 ++ alias_bytes)

module _ (finished_bytes : Slots → Bytes) (tx : AliasTransaction) (alias_bytes : Bytes) (type : ℕ)
    (t : (type ≢ 0) × (type < 2 ^ 16)) (carries : Carries type 1 tx.abstract_transaction) where
  -- The common part, for an alias of either kind.
  alias-wire :
      (n : ℕ)
      → length alias_bytes ≡ n
      → n < 2 ^ 16
      → finished (finished_bytes (object tx alias_bytes n)) (object tx alias_bytes n) ≡ true
      → (generate_alias_bytes finished_bytes tx alias_bytes n
          ≡ ok (header_bytes (alias_size tx + n) tx.abstract_transaction ++ body tx alias_bytes))
        × (length (header_bytes (alias_size tx + n) tx.abstract_transaction ++ body tx alias_bytes)
            ≡ alias_size tx + n)
  unfolding generate_alias_bytes object body fits alias_transaction_schema wire alias_size
  alias-wire n l small written =
      serialized alias_transaction_schema (alias_size tx + n) type 1 (alias_size tx + n)
        tx.abstract_transaction (object tx alias_bytes n) (body tx alias_bytes)
        (finished_bytes (object tx alias_bytes n)) (omega arith) carries written refl refl
        (simp (stored_byte, halves-to_le, append-nil))
        (simp (length-append, length-to_le, length-to_little_endian, l) (omega arith))

-- On the flatbuffer that holds its object, with the type and the version of its kind, a network of one
-- byte and a deadline, an address alias whose address decodes to 25 bytes is serialised to its bytes
-- in the order of the protocol, and they are as many as `Size` says.
pub address_alias-wire :
    (finished_bytes : Slots → Bytes) (tx : AddressAliasTransaction) (a : Bytes)
    → Carries entity_address_alias address_alias_version tx.alias_transaction.abstract_transaction
    → base32_decode_string tx.address.address ≡ ok a
    → length a ≡ address_size
    → finished
        (finished_bytes (object tx.alias_transaction a address_size))
        (object tx.alias_transaction a address_size)
      ≡ true
    → (generate_address_alias_bytes finished_bytes tx
        ≡ ok (
            header_bytes (address_alias_size tx) tx.alias_transaction.abstract_transaction
            ++ body tx.alias_transaction a))
      × (length (
            header_bytes (address_alias_size tx) tx.alias_transaction.abstract_transaction
            ++ body tx.alias_transaction a)
          ≡ address_alias_size tx)
unfolding generate_address_alias_bytes address_alias_size
address_alias-wire finished_bytes tx a c d l h = rw d (
    alias-wire finished_bytes tx.alias_transaction a entity_address_alias (omega arith) c
      address_size l (omega arith) h)

-- On the flatbuffer that holds its object, with the type and the version of its kind, a network of one
-- byte and a deadline, a mosaic alias is serialised to its bytes in the order of the protocol, and
-- they are as many as `Size` says.
pub mosaic_alias-wire :
    (finished_bytes : Slots → Bytes) (tx : MosaicAliasTransaction)
    → Carries entity_mosaic_alias mosaic_alias_version tx.alias_transaction.abstract_transaction
    → finished
        (finished_bytes
          (object tx.alias_transaction (to_little_endian tx.mosaic_id.base_int64) mosaic_id_size))
        (object tx.alias_transaction (to_little_endian tx.mosaic_id.base_int64) mosaic_id_size)
      ≡ true
    → (generate_mosaic_alias_bytes finished_bytes tx
        ≡ ok (
            header_bytes (mosaic_alias_size tx) tx.alias_transaction.abstract_transaction
            ++ body tx.alias_transaction (to_little_endian tx.mosaic_id.base_int64)))
      × (length (
            header_bytes (mosaic_alias_size tx) tx.alias_transaction.abstract_transaction
            ++ body tx.alias_transaction (to_little_endian tx.mosaic_id.base_int64))
          ≡ mosaic_alias_size tx)
unfolding generate_mosaic_alias_bytes mosaic_alias_size
mosaic_alias-wire finished_bytes tx c h =
    alias-wire finished_bytes tx.alias_transaction (to_little_endian tx.mosaic_id.base_int64)
      entity_mosaic_alias (omega arith) c mosaic_id_size
      (length-to_little_endian tx.mosaic_id.base_int64) (omega arith) h
