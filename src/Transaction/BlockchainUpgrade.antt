-- ===== src/Transaction/BlockchainUpgrade.antt =====
-- `BlockchainUpgradeTransaction` of sdk/transaction_model.go.
use go_xpx_chain_sdk.Schema.{serialize}
use go_xpx_chain_sdk.Base.{
  Bytes, Option, Result, append-nil, arith, length, length-append, ok, refl, true, ℕ, ◌++◌, ◌≡◌,
}
use go_xpx_chain_sdk.Buffers.{transaction_buffer_add_size, transaction_buffer_create_uint32_vector}
use go_xpx_chain_sdk.Buffers.Chain.{
  blockchain_upgrade_transaction_buffer_add_new_block_chain_version,
  blockchain_upgrade_transaction_buffer_add_upgrade_period,
  blockchain_upgrade_transaction_buffer_start,
}
use go_xpx_chain_sdk.Schema.Definitions.{blockchain_upgrade_transaction_schema}
use go_xpx_chain_sdk.Schema.Format.{Slots, finished, fits, wire}
use go_xpx_chain_sdk.Transaction.{
  AbstractTransaction, Deadline, build_vectors, following_deadline, new_abstract_transaction, ◌⊳◌,
}
use go_xpx_chain_sdk.Transaction.Entities.{blockchain_upgrade_version, entity_blockchain_upgrade}
use go_xpx_chain_sdk.Transaction.Header.{Carries, header_bytes, serialized}
use go_xpx_chain_sdk.Transaction.Sizes.{blockchain_upgrade_transaction_size}
use go_xpx_chain_sdk.Uint64.{to_little_endian, uint64_to_array}
use go_xpx_chain_sdk.Uint64.Halves.{halves-to_le, length-to_little_endian}

pub record BlockchainUpgradeTransaction : Type 0 where
  pub abstract_transaction : AbstractTransaction
  pub upgrade_period : ℕ
  pub new_block_chain_version : ℕ

pub new_blockchain_upgrade_transaction :
    Option Deadline → ℕ → ℕ → ℕ → Result BlockchainUpgradeTransaction
new_blockchain_upgrade_transaction deadline upgrade_period new_block_chain_version network_type =
    ok (record {
      abstract_transaction =
          new_abstract_transaction deadline entity_blockchain_upgrade blockchain_upgrade_version
            network_type;
      upgrade_period = upgrade_period;
      new_block_chain_version = new_block_chain_version;
    })

unfoldable pub size : BlockchainUpgradeTransaction → ℕ
size tx = blockchain_upgrade_transaction_size

-- The object that `generateBytes` has the builder make.
unfoldable pub object : BlockchainUpgradeTransaction → Slots
unfolding size transaction_buffer_create_uint32_vector blockchain_upgrade_transaction_buffer_start
    transaction_buffer_add_size build_vectors
    blockchain_upgrade_transaction_buffer_add_upgrade_period
    blockchain_upgrade_transaction_buffer_add_new_block_chain_version
object tx =
    let upgrade = transaction_buffer_create_uint32_vector (uint64_to_array tx.upgrade_period) in
    let version =
      transaction_buffer_create_uint32_vector (uint64_to_array tx.new_block_chain_version) in
    blockchain_upgrade_transaction_buffer_start
    ⊳ transaction_buffer_add_size (size tx)
    ⊳ build_vectors tx.abstract_transaction
    ⊳ blockchain_upgrade_transaction_buffer_add_upgrade_period upgrade
    ⊳ blockchain_upgrade_transaction_buffer_add_new_block_chain_version version

pub generate_bytes : (Slots → Bytes) → BlockchainUpgradeTransaction → Result Bytes
generate_bytes finished_bytes tx =
    following_deadline tx.abstract_transaction
      (serialize blockchain_upgrade_transaction_schema (finished_bytes (object tx)))

-- What follows the header in the layout of the protocol.
unfoldable pub body : BlockchainUpgradeTransaction → Bytes
body tx = to_little_endian tx.upgrade_period ++ to_little_endian tx.new_block_chain_version

-- On the flatbuffer that holds its object, with the type and the version of its kind, a network of one
-- byte and a deadline, a blockchain upgrade is serialised to its bytes in the order of the protocol,
-- and they are as many as `Size` says.
pub blockchain_upgrade-wire :
    (finished_bytes : Slots → Bytes) (tx : BlockchainUpgradeTransaction)
    → Carries entity_blockchain_upgrade blockchain_upgrade_version tx.abstract_transaction
    → finished (finished_bytes (object tx)) (object tx) ≡ true
    → (generate_bytes finished_bytes tx
        ≡ ok (header_bytes (size tx) tx.abstract_transaction ++ body tx))
      × (length (header_bytes (size tx) tx.abstract_transaction ++ body tx) ≡ size tx)
unfolding generate_bytes object body fits blockchain_upgrade_transaction_schema wire
blockchain_upgrade-wire finished_bytes tx c h =
    serialized blockchain_upgrade_transaction_schema (size tx) entity_blockchain_upgrade
      blockchain_upgrade_version (size tx) tx.abstract_transaction (object tx) (body tx)
      (finished_bytes (object tx)) (omega arith) c h refl refl (simp (halves-to_le, append-nil))
      (simp (length-append, length-to_little_endian))
