-- ===== src/Transaction/MosaicSupplyChange.antt =====
-- `MosaicSupplyChangeTransaction` of sdk/transaction_model.go.
use go_xpx_chain_sdk.Asset.{id, AssetId}
use go_xpx_chain_sdk.Schema.{serialize}
use go_xpx_chain_sdk.Base.{
  Bytes, Option, Result, append-nil, arith, err, err_nil_asset_id, if◌then◌else◌, length,
  length-append, new_error, none, not, ok, refl, some, true, ℕ, ◌++◌, ◌==◌, ◌||◌, ◌≡◌,
}
use go_xpx_chain_sdk.Buffers.{transaction_buffer_add_size, transaction_buffer_create_uint32_vector}
use go_xpx_chain_sdk.Buffers.Mosaics.{
  mosaic_supply_change_transaction_buffer_add_delta,
  mosaic_supply_change_transaction_buffer_add_direction,
  mosaic_supply_change_transaction_buffer_add_mosaic_id,
  mosaic_supply_change_transaction_buffer_start,
}
use go_xpx_chain_sdk.Schema.Definitions.{mosaic_supply_change_transaction_schema}
use go_xpx_chain_sdk.Schema.Format.{Slots, finished, fits, wire}
use go_xpx_chain_sdk.Transaction.{
  AbstractTransaction, Deadline, build_vectors, following_deadline, new_abstract_transaction, ◌⊳◌,
}
use go_xpx_chain_sdk.Transaction.Entities.{
  entity_mosaic_supply_change, mosaic_supply_change_version,
}
use go_xpx_chain_sdk.Transaction.Header.{Carries, header_bytes, serialized, stored_byte}
use go_xpx_chain_sdk.Transaction.Sizes.{mosaic_supply_change_transaction_size}
use go_xpx_chain_sdk.Uint64.{to_little_endian, uint64_to_array}
use go_xpx_chain_sdk.Uint64.Halves.{halves-to_le, length-to_little_endian}
use go_xpx_chain_sdk.Word.{length-to_le, to_le}

pub record MosaicSupplyChangeTransaction : Type 0 where
  pub abstract_transaction : AbstractTransaction
  pub mosaic_supply_type : ℕ
  pub asset_id : AssetId
  pub delta : ℕ

pub new_mosaic_supply_change_transaction :
    Option Deadline → Option AssetId → ℕ → ℕ → ℕ → Result MosaicSupplyChangeTransaction
new_mosaic_supply_change_transaction deadline none supply_type delta network_type =
    err err_nil_asset_id
new_mosaic_supply_change_transaction deadline (some asset_id) supply_type delta network_type =
    if id asset_id == 0
    then err err_nil_asset_id
    else if not (supply_type == 1 || supply_type == 0)
    then err (new_error "supplyType must not be nil")
    else ok (record {
      abstract_transaction =
          new_abstract_transaction deadline entity_mosaic_supply_change mosaic_supply_change_version
            network_type;
      mosaic_supply_type = supply_type;
      asset_id = asset_id;
      delta = delta;
    })

unfoldable pub size : MosaicSupplyChangeTransaction → ℕ
size tx = mosaic_supply_change_transaction_size

-- The object that `generateBytes` has the builder make.
unfoldable pub object : MosaicSupplyChangeTransaction → Slots
unfolding size transaction_buffer_create_uint32_vector mosaic_supply_change_transaction_buffer_start
    transaction_buffer_add_size build_vectors mosaic_supply_change_transaction_buffer_add_mosaic_id
    mosaic_supply_change_transaction_buffer_add_direction
    mosaic_supply_change_transaction_buffer_add_delta
object tx =
    let m = transaction_buffer_create_uint32_vector (uint64_to_array (id tx.asset_id)) in
    let d = transaction_buffer_create_uint32_vector (uint64_to_array tx.delta) in
    mosaic_supply_change_transaction_buffer_start
    ⊳ transaction_buffer_add_size (size tx)
    ⊳ build_vectors tx.abstract_transaction
    ⊳ mosaic_supply_change_transaction_buffer_add_mosaic_id m
    ⊳ mosaic_supply_change_transaction_buffer_add_direction tx.mosaic_supply_type
    ⊳ mosaic_supply_change_transaction_buffer_add_delta d

pub generate_bytes : (Slots → Bytes) → MosaicSupplyChangeTransaction → Result Bytes
generate_bytes finished_bytes tx =
    following_deadline tx.abstract_transaction
      (serialize mosaic_supply_change_transaction_schema (finished_bytes (object tx)))

-- What follows the header in the layout of the protocol.
unfoldable pub body : MosaicSupplyChangeTransaction → Bytes
body tx =
    to_little_endian (id tx.asset_id)
    ++ (to_le 1 tx.mosaic_supply_type ++ to_little_endian tx.delta)

-- On the flatbuffer that holds its object, with the type and the version of its kind, a network of one
-- byte and a deadline, a supply change is serialised to its bytes in the order of the protocol, and
-- they are as many as `Size` says.
pub supply_change-wire :
    (finished_bytes : Slots → Bytes) (tx : MosaicSupplyChangeTransaction)
    → Carries entity_mosaic_supply_change mosaic_supply_change_version tx.abstract_transaction
    → finished (finished_bytes (object tx)) (object tx) ≡ true
    → (generate_bytes finished_bytes tx
        ≡ ok (header_bytes (size tx) tx.abstract_transaction ++ body tx))
      × (length (header_bytes (size tx) tx.abstract_transaction ++ body tx) ≡ size tx)
unfolding generate_bytes object body fits mosaic_supply_change_transaction_schema wire
supply_change-wire finished_bytes tx c h =
    serialized mosaic_supply_change_transaction_schema (size tx) entity_mosaic_supply_change
      mosaic_supply_change_version (size tx) tx.abstract_transaction (object tx) (body tx)
      (finished_bytes (object tx)) (omega arith) c h refl refl
      (simp (stored_byte, halves-to_le, append-nil))
      (simp (length-append, length-to_le, length-to_little_endian))
