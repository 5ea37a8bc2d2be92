-- ===== src/Transaction/LockFunds.antt =====
-- `LockFundsTransaction` of sdk/transaction_model.go.
use go_xpx_chain_sdk.Asset.{id, Mosaic}
use go_xpx_chain_sdk.Schema.{serialize}
use go_xpx_chain_sdk.Base.{
  Bytes, Option, Result, append-nil, arith, err, if◌then◌else◌, length, length-append, new_error,
  none, not, ok, panic, refl, some, true, ℕ, ◌++◌, ◌==◌, ◌≡◌,
}
use go_xpx_chain_sdk.Buffers.{
  transaction_buffer_add_size, transaction_buffer_create_byte_vector,
  transaction_buffer_create_uint32_vector,
}
use go_xpx_chain_sdk.Buffers.Locks.{
  lock_funds_transaction_buffer_add_duration, lock_funds_transaction_buffer_add_hash,
  lock_funds_transaction_buffer_add_mosaic_amount, lock_funds_transaction_buffer_add_mosaic_id,
  lock_funds_transaction_buffer_start,
}
use go_xpx_chain_sdk.Schema.Definitions.{lock_funds_transaction_schema}
use go_xpx_chain_sdk.Schema.Format.{Slots, finished, fits, wire}
use go_xpx_chain_sdk.Transaction.{
  AbstractTransaction, Deadline, SignedTransaction, build_vectors, following_deadline,
  new_abstract_transaction, ◌⊳◌,
}
use go_xpx_chain_sdk.Transaction.Entities.{entity_aggregate_bonded, entity_lock, lock_version}
use go_xpx_chain_sdk.Transaction.Header.{Carries, header_bytes, serialized}
use go_xpx_chain_sdk.Transaction.Sizes.{lock_size}
use go_xpx_chain_sdk.Uint64.{to_little_endian, uint64_to_array}
use go_xpx_chain_sdk.Uint64.Halves.{halves-to_le, length-to_little_endian}

pub record LockFundsTransaction : Type 0 where
  pub abstract_transaction : AbstractTransaction
  pub mosaic : Mosaic
  pub duration : ℕ
  pub signed_transaction : SignedTransaction

pub new_lock_funds_transaction :
    Option Deadline → Option Mosaic → ℕ → Option SignedTransaction → ℕ → Result LockFundsTransaction
new_lock_funds_transaction deadline none duration signed_tx network_type =
    err (new_error "mosaic must not be nil")
new_lock_funds_transaction deadline (some mosaic) duration none network_type =
    err (new_error "signedTx must not be nil")
new_lock_funds_transaction deadline (some mosaic) duration (some signed_tx) network_type =
    if not (signed_tx.entity_type == entity_aggregate_bonded)
    then err (new_error "signedTx must be of type AggregateBonded")
    else ok (record {
      abstract_transaction =
          new_abstract_transaction deadline entity_lock lock_version network_type;
      mosaic = mosaic;
      duration = duration;
      signed_transaction = signed_tx;
    })

unfoldable pub size : LockFundsTransaction → ℕ
size tx = lock_size

-- The object that `generateBytes` has the builder make, from the hash of the signed transaction.
unfoldable pub object : LockFundsTransaction → Bytes → Slots
unfolding size transaction_buffer_create_uint32_vector transaction_buffer_create_byte_vector
    lock_funds_transaction_buffer_start transaction_buffer_add_size build_vectors
    lock_funds_transaction_buffer_add_mosaic_id lock_funds_transaction_buffer_add_mosaic_amount
    lock_funds_transaction_buffer_add_duration lock_funds_transaction_buffer_add_hash
object tx hash =
    let m = transaction_buffer_create_uint32_vector (uint64_to_array (id tx.mosaic.asset_id)) in
    let a = transaction_buffer_create_uint32_vector (uint64_to_array tx.mosaic.amount) in
    let d = transaction_buffer_create_uint32_vector (uint64_to_array tx.duration) in
    lock_funds_transaction_buffer_start
    ⊳ transaction_buffer_add_size (size tx)
    ⊳ build_vectors tx.abstract_transaction
    ⊳ lock_funds_transaction_buffer_add_mosaic_id m
    ⊳ lock_funds_transaction_buffer_add_mosaic_amount a
    ⊳ lock_funds_transaction_buffer_add_duration d
    ⊳ lock_funds_transaction_buffer_add_hash (transaction_buffer_create_byte_vector hash)

-- The hash is a pointer, and `Hash[:]` panics when it is nil.
pub generate_bytes : (Slots → Bytes) → LockFundsTransaction → Result Bytes
generate_bytes finished_bytes tx = bytes_of tx.signed_transaction.hash
  where
    bytes_of : Option Bytes → Result Bytes
    bytes_of none = panic
    bytes_of (some hash) =
        following_deadline tx.abstract_transaction
          (serialize lock_funds_transaction_schema (finished_bytes (object tx hash)))

-- What follows the header in the layout of the protocol.
unfoldable pub body : LockFundsTransaction → Bytes → Bytes
body tx hash =
    to_little_endian (id tx.mosaic.asset_id)
    ++ (to_little_endian tx.mosaic.amount ++ (to_little_endian tx.duration ++ hash))

-- On the flatbuffer that holds its object, with the type and the version of its kind, a network of one
-- byte and a deadline, a hash lock for a signed transaction with a 32-byte hash is serialised to its
-- bytes in the order of the protocol, and they are as many as `Size` says.
pub lock_funds-wire :
    (finished_bytes : Slots → Bytes) (tx : LockFundsTransaction) (hash : Bytes)
    → Carries entity_lock lock_version tx.abstract_transaction
    → tx.signed_transaction.hash ≡ some hash
    → length hash ≡ 32
    → finished (finished_bytes (object tx hash)) (object tx hash) ≡ true
    → (generate_bytes finished_bytes tx
        ≡ ok (header_bytes (size tx) tx.abstract_transaction ++ body tx hash))
      × (length (header_bytes (size tx) tx.abstract_transaction ++ body tx hash) ≡ size tx)
unfolding generate_bytes object body fits lock_funds_transaction_schema wire
lock_funds-wire finished_bytes tx hash c some_hash l h = rw some_hash (
    serialized lock_funds_transaction_schema (size tx) entity_lock lock_version (size tx)
      tx.abstract_transaction (object tx hash) (body tx hash) (finished_bytes (object tx hash))
      (omega arith) c h refl refl (simp (halves-to_le, append-nil))
      (simp (length-append, length-to_little_endian, l)))
