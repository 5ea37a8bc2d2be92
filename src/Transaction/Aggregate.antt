-- ===== src/Transaction/Aggregate.antt =====
-- `AggregateTransaction` of sdk/transaction_model.go.
use go_xpx_chain_sdk.Schema.{serialize}
use go_xpx_chain_sdk.Base.{
  Bytes, List, Option, Result, [], append-nil, arith, err, length, length-append, length_nonzero,
  new_error, none, ok, refl, some, true, ℕ, ◌%◌, ◌++◌, ◌+◌, ◌-◌, ◌<◌, ◌>>=◌, ◌^◌, ◌∙◌, ◌∷◌, ◌≡◌,
  ◌≢◌, ◌⊎◌,
}
use go_xpx_chain_sdk.Buffers.{transaction_buffer_add_size, transaction_buffer_create_byte_vector}
use go_xpx_chain_sdk.Buffers.Locks.{
  aggregate_transaction_buffer_add_transactions, aggregate_transaction_buffer_add_transactions_size,
  aggregate_transaction_buffer_start,
}
use go_xpx_chain_sdk.Schema.Definitions.{aggregate_transaction_schema}
use go_xpx_chain_sdk.Schema.Format.{Slots, finished, fits, wire}
use go_xpx_chain_sdk.Transaction.{
  AbstractTransaction, Deadline, build_vectors, following_deadline, new_abstract_transaction, ◌⊳◌,
}
use go_xpx_chain_sdk.Transaction.Entities.{
  aggregate_bonded_version, aggregate_completed_version, entity_aggregate_bonded,
  entity_aggregate_completed,
}
use go_xpx_chain_sdk.Transaction.Header.{Carries, header_bytes, serialized, stored}
use go_xpx_chain_sdk.Transaction.Signing.{Transaction, to_aggregate_transaction_bytes}
use go_xpx_chain_sdk.Transaction.Sizes.{
  aggregate_bonded_header_size, dead_line_size, max_fee_size, signature_size,
}
use go_xpx_chain_sdk.Word.{length-to_le, to_le}

pub record AggregateTransaction : Type 0 where
  pub abstract_transaction : AbstractTransaction
  pub inner_transactions : List Transaction

-- A slice may be nil.
pub new_complete_aggregate_transaction :
    Option Deadline → Option (List Transaction) → ℕ → Result AggregateTransaction
new_complete_aggregate_transaction deadline none network_type =
    err (new_error "innerTransactions must not be nil")
new_complete_aggregate_transaction deadline (some inner_txs) network_type = ok (record {
  abstract_transaction =
      new_abstract_transaction deadline entity_aggregate_completed aggregate_completed_version
        network_type;
  inner_transactions = inner_txs;
})

pub new_bonded_aggregate_transaction :
    Option Deadline → Option (List Transaction) → ℕ → Result AggregateTransaction
new_bonded_aggregate_transaction deadline none network_type =
    err (new_error "innerTransactions must not be nil")
new_bonded_aggregate_transaction deadline (some inner_txs) network_type = ok (record {
  abstract_transaction =
      new_abstract_transaction deadline entity_aggregate_bonded aggregate_bonded_version
        network_type;
  inner_transactions = inner_txs;
})

-- The loop of `Size`; the size of a transaction is never below that of its header.
unfoldable pub size_of_inner_transactions : List Transaction → ℕ
size_of_inner_transactions [] = 0
size_of_inner_transactions (itx ∷ txs) =
    itx.size - (signature_size + max_fee_size + dead_line_size) + size_of_inner_transactions txs

unfoldable pub size : AggregateTransaction → ℕ
unfolding size_of_inner_transactions
size tx = aggregate_bonded_header_size + size_of_inner_transactions tx.inner_transactions

-- The loop of `generateBytes`.
inner_bytes : List Transaction → Result Bytes
inner_bytes [] = ok []
inner_bytes (itx ∷ txs) = do
  txb ← to_aggregate_transaction_bytes itx
  txsb ← inner_bytes txs
  ok (txb ++ txsb)

-- The object that `generateBytes` has the builder make, from the bytes of the inner transactions.
unfoldable pub object : AggregateTransaction → Bytes → Slots
unfolding size transaction_buffer_create_byte_vector aggregate_transaction_buffer_start
    transaction_buffer_add_size build_vectors aggregate_transaction_buffer_add_transactions_size
    aggregate_transaction_buffer_add_transactions
object tx txsb =
    aggregate_transaction_buffer_start
    ⊳ transaction_buffer_add_size (size tx)
    ⊳ build_vectors tx.abstract_transaction
    ⊳ aggregate_transaction_buffer_add_transactions_size (length txsb % 2 ^ 32)
    ⊳ aggregate_transaction_buffer_add_transactions (transaction_buffer_create_byte_vector txsb)

pub generate_bytes : (Slots → Bytes) → AggregateTransaction → Result Bytes
unfolding inner_bytes
generate_bytes finished_bytes tx = do
  txsb ← inner_bytes tx.inner_transactions
  following_deadline tx.abstract_transaction
      (serialize aggregate_transaction_schema (finished_bytes (object tx txsb)))

-- The inner transactions are embedded one after the other, and each is as long as its size without the
-- fields that are left out.
pub data AreEmbedded : List Transaction → Bytes → Type 0 where
  no_transaction : AreEmbedded [] []
  one_transaction :
      {tx : Transaction} {txs : List Transaction} {txb txsb : Bytes}
      → to_aggregate_transaction_bytes tx ≡ ok txb
      → length txb ≡ tx.size - (signature_size + max_fee_size + dead_line_size)
      → AreEmbedded txs txsb
      → AreEmbedded (tx ∷ txs) (txb ++ txsb)

inner_bytes_lem :
    {txs : List Transaction} {txsb : Bytes}
    → AreEmbedded txs txsb
    → (inner_bytes txs ≡ ok txsb) × (length txsb ≡ size_of_inner_transactions txs)
unfolding inner_bytes size_of_inner_transactions
inner_bytes_lem no_transaction = (refl, refl)
inner_bytes_lem (one_transaction {txb = txb} {txsb = txsb} e l rest) =
    let (es, ls) = inner_bytes_lem rest in (rw (e, es) refl, length-append txb txsb ∙ omega arith)

-- On the flatbuffer that holds its object, with the type and the version of its kind, a network of one
-- byte and a deadline, an aggregate of either type is serialised to its header, the length of the
-- inner transactions and these themselves, and the bytes are as many as `Size` says, if it has an
-- inner transaction, every one is embedded, and together they have less than 2 ^ 31 bytes.
pub aggregate-wire :
    (finished_bytes : Slots → Bytes) (tx : AggregateTransaction) (type : ℕ) (txsb : Bytes)
    → (type ≡ entity_aggregate_completed) ⊎ (type ≡ entity_aggregate_bonded)
    → Carries type aggregate_bonded_version tx.abstract_transaction
    → AreEmbedded tx.inner_transactions txsb
    → txsb ≢ []
    → length txsb < 2 ^ 31
    → finished (finished_bytes (object tx txsb)) (object tx txsb) ≡ true
    → (generate_bytes finished_bytes tx
        ≡ ok (header_bytes (size tx) tx.abstract_transaction ++ (to_le 4 (length txsb) ++ txsb)))
      × (length (header_bytes (size tx) tx.abstract_transaction ++ (to_le 4 (length txsb) ++ txsb))
          ≡ size tx)
unfolding generate_bytes object fits aggregate_transaction_schema wire size
aggregate-wire finished_bytes tx type txsb which c embedded some_bytes small h =
    let (e, l) = inner_bytes_lem embedded in
    let known : (type ≢ 0) × (type < 2 ^ 16) = ground arith in
    let nonzero : length txsb ≢ 0 = length_nonzero txsb some_bytes in
    let fits_size : length txsb % 2 ^ 32 ≡ length txsb = omega arith in
    rw e (
      serialized aggregate_transaction_schema (size tx) type aggregate_bonded_version (size tx)
        tx.abstract_transaction (object tx txsb) (to_le 4 (length txsb) ++ txsb)
        (finished_bytes (object tx txsb)) (omega arith) c h refl refl
        (simp (fits_size, stored 4 (length txsb) nonzero, append-nil))
        (simp (length-append, length-to_le) (omega arith)))
