-- ===== src/Transaction/SecretLock.antt =====
-- `SecretLockTransaction` of sdk/transaction_model.go.
use go_xpx_chain_sdk.Asset.{id, Mosaic}
use go_xpx_chain_sdk.Schema.{serialize}
use go_xpx_chain_sdk.Base.{
  Bytes, Option, Result, append-nil, arith, err, err_nil_secret, length, length-append, new_error,
  none, ok, refl, some, true, ℕ, ◌++◌, ◌>>=◌, ◌≡◌,
}
use go_xpx_chain_sdk.Buffers.{
  transaction_buffer_add_size, transaction_buffer_create_byte_vector,
  transaction_buffer_create_uint32_vector,
}
use go_xpx_chain_sdk.Buffers.Locks.{
  secret_lock_transaction_buffer_add_duration, secret_lock_transaction_buffer_add_hash_algorithm,
  secret_lock_transaction_buffer_add_mosaic_amount, secret_lock_transaction_buffer_add_mosaic_id,
  secret_lock_transaction_buffer_add_recipient, secret_lock_transaction_buffer_add_secret,
  secret_lock_transaction_buffer_start,
}
use go_xpx_chain_sdk.Encoding.{base32_decode_string}
use go_xpx_chain_sdk.Schema.Definitions.{secret_lock_transaction_schema}
use go_xpx_chain_sdk.Schema.Format.{Slots, finished, fits, wire}
use go_xpx_chain_sdk.Secret.{Secret}
use go_xpx_chain_sdk.Transaction.{
  AbstractTransaction, Address, Deadline, build_vectors, following_deadline,
  new_abstract_transaction, ◌⊳◌,
}
use go_xpx_chain_sdk.Transaction.Entities.{entity_secret_lock, secret_lock_version}
use go_xpx_chain_sdk.Transaction.Header.{Carries, header_bytes, serialized, stored_byte}
use go_xpx_chain_sdk.Transaction.Sizes.{address_size, secret_lock_size}
use go_xpx_chain_sdk.Uint64.{to_little_endian, uint64_to_array}
use go_xpx_chain_sdk.Uint64.Halves.{halves-to_le, length-to_little_endian}
use go_xpx_chain_sdk.Word.{length-to_le, to_le}

pub record SecretLockTransaction : Type 0 where
  pub abstract_transaction : AbstractTransaction
  pub mosaic : Mosaic
  pub duration : ℕ
  pub secret : Secret
  pub recipient : Address

pub new_secret_lock_transaction :
    Option Deadline
    → Option Mosaic
    → ℕ
    → Option Secret
    → Option Address
    → ℕ
    → Result SecretLockTransaction
new_secret_lock_transaction deadline none duration secret recipient network_type =
    err (new_error "mosaic must not be nil")
new_secret_lock_transaction deadline (some mosaic) duration none recipient network_type =
    err err_nil_secret
new_secret_lock_transaction deadline (some mosaic) duration (some secret) none network_type =
    err (new_error "recipient must not be nil")
new_secret_lock_transaction deadline (some mosaic) duration (some secret) (some r) network_type =
    ok (record {
      abstract_transaction =
          new_abstract_transaction deadline entity_secret_lock secret_lock_version network_type;
      mosaic = mosaic;
      duration = duration;
      secret = secret;
      recipient = r;
    })

unfoldable pub size : SecretLockTransaction → ℕ
size tx = secret_lock_size

-- The object that `generateBytes` has the builder make, from the decoded recipient.
unfoldable pub object : SecretLockTransaction → Bytes → Slots
unfolding size transaction_buffer_create_uint32_vector transaction_buffer_create_byte_vector
    secret_lock_transaction_buffer_start transaction_buffer_add_size build_vectors
    secret_lock_transaction_buffer_add_mosaic_id secret_lock_transaction_buffer_add_mosaic_amount
    secret_lock_transaction_buffer_add_duration secret_lock_transaction_buffer_add_hash_algorithm
    secret_lock_transaction_buffer_add_secret secret_lock_transaction_buffer_add_recipient
object tx addr =
    let m = transaction_buffer_create_uint32_vector (uint64_to_array (id tx.mosaic.asset_id)) in
    let a = transaction_buffer_create_uint32_vector (uint64_to_array tx.mosaic.amount) in
    let d = transaction_buffer_create_uint32_vector (uint64_to_array tx.duration) in
    secret_lock_transaction_buffer_start
    ⊳ transaction_buffer_add_size (size tx)
    ⊳ build_vectors tx.abstract_transaction
    ⊳ secret_lock_transaction_buffer_add_mosaic_id m
    ⊳ secret_lock_transaction_buffer_add_mosaic_amount a
    ⊳ secret_lock_transaction_buffer_add_duration d
    ⊳ secret_lock_transaction_buffer_add_hash_algorithm tx.secret.type
    ⊳ secret_lock_transaction_buffer_add_secret
        (transaction_buffer_create_byte_vector tx.secret.hash)
    ⊳ secret_lock_transaction_buffer_add_recipient (transaction_buffer_create_byte_vector addr)

pub generate_bytes : (Slots → Bytes) → SecretLockTransaction → Result Bytes
generate_bytes finished_bytes tx = do
  addr ← base32_decode_string tx.recipient.address
  following_deadline tx.abstract_transaction
      (serialize secret_lock_transaction_schema (finished_bytes (object tx addr)))

-- What follows the header in the layout of the protocol.
unfoldable pub body : SecretLockTransaction → Bytes → Bytes
body tx addr =
    to_little_endian (id tx.mosaic.asset_id)
    ++ (to_little_endian tx.mosaic.amount
        ++ (to_little_endian tx.duration ++ (to_le 1 tx.secret.type ++ (tx.secret.hash ++ addr))))

-- On the flatbuffer that holds its object, with the type and the version of its kind, a network of one
-- byte and a deadline, a secret lock with a secret of 32 bytes whose recipient decodes to an address
-- of 25 bytes is serialised to its bytes in the order of the protocol, and they are as many as `Size`
-- says.
pub secret_lock-wire :
    (finished_bytes : Slots → Bytes) (tx : SecretLockTransaction) (addr : Bytes)
    → Carries entity_secret_lock secret_lock_version tx.abstract_transaction
    → base32_decode_string tx.recipient.address ≡ ok addr
    → length addr ≡ address_size
    → length tx.secret.hash ≡ 32
    → finished (finished_bytes (object tx addr)) (object tx addr) ≡ true
    → (generate_bytes finished_bytes tx
        ≡ ok (header_bytes (size tx) tx.abstract_transaction ++ body tx addr))
      × (length (header_bytes (size tx) tx.abstract_transaction ++ body tx addr) ≡ size tx)
unfolding generate_bytes object body fits secret_lock_transaction_schema wire
secret_lock-wire finished_bytes tx addr c d l k h = rw d (
    serialized secret_lock_transaction_schema (size tx) entity_secret_lock secret_lock_version
      (size tx) tx.abstract_transaction (object tx addr) (body tx addr)
      (finished_bytes (object tx addr)) (omega arith) c h refl refl
      (simp (stored_byte, halves-to_le, append-nil))
      (simp (length-append, length-to_le, length-to_little_endian, k, l)))
