-- ===== src/Tests/Transfers.antt =====
-- A concrete transfer, alone and made by a client.
use go_xpx_chain_sdk.Transaction.Transfer
use go_xpx_chain_sdk.Client.Instances.Assets.{transfer_is_transaction}
use go_xpx_chain_sdk.Asset.{id, Mosaic}
use go_xpx_chain_sdk.Base.{List, [], arith, length, ok, refl, some, true, ◌*◌, ◌++◌, ◌∷◌, ◌≡◌}
use go_xpx_chain_sdk.Account.{mijin_test}
use go_xpx_chain_sdk.Client.{Config, middle_calculation_strategy}
use go_xpx_chain_sdk.Client.Builders.{client_new_transfer_transaction}
use go_xpx_chain_sdk.Client.Fee.{client_new_transfer_transaction-wire, paid_transfer}
use go_xpx_chain_sdk.Schema.Format.{bytes_at, finished, number_at, offset_at, reads, slots_hold}
use go_xpx_chain_sdk.Tests.Flatbuffer.{layout}
use go_xpx_chain_sdk.Tests.Samples.{
  deadline, decoded, head, head-Carries, recipient, recipient_decodes, xpx,
}
use go_xpx_chain_sdk.Transaction.{
  Deadline, deadline_timestamp, new_abstract_transaction, to_blockchain_timestamp,
}
use go_xpx_chain_sdk.Transaction.BlockchainUpgrade.{BlockchainUpgradeTransaction}
use go_xpx_chain_sdk.Transaction.Entities.{
  blockchain_upgrade_version, entity_blockchain_upgrade, entity_transfer, transfer_version,
}
use go_xpx_chain_sdk.Transaction.Header.{header_bytes}
use go_xpx_chain_sdk.Transaction.Transfer.{
  Message, TransferTransaction, message_object, message_size, mosaic_object, plain_message,
  transfer-wire,
}
use go_xpx_chain_sdk.Uint64.{uint64_to_array}
use go_xpx_chain_sdk.Word.{from_le, to_le, zeros}

abbrev gift : TransferTransaction
gift = record {
  abstract_transaction = head entity_transfer transfer_version;
  message = plain_message (b'h' ∷ (b'i' ∷ []));
  mosaics = xpx ∷ (xpx ∷ []);
  recipient = recipient;
}

gift_written :
    finished (layout (Transfer.object gift decoded)) (Transfer.object gift decoded) ≡ true
unfolding finished layout Transfer.object to_le new_abstract_transaction zeros number_at bytes_at
    from_le slots_hold offset_at reads uint64_to_array deadline_timestamp to_blockchain_timestamp id
    Transfer.size Transfer.message_object Transfer.mosaic_object
gift_written = refl

transfer-wire_example :
    (Transfer.generate_bytes layout gift
      ≡ ok (
          header_bytes (Transfer.size gift) gift.abstract_transaction
          ++ Transfer.body gift decoded))
    × (length (
          header_bytes (Transfer.size gift) gift.abstract_transaction ++ Transfer.body gift decoded)
        ≡ Transfer.size gift)
unfolding Transfer.message_size
transfer-wire_example =
    transfer-wire layout gift decoded (head-Carries entity_transfer transfer_version)
      recipient_decodes refl (omega arith) (omega arith) gift_written

abbrev upgrade : BlockchainUpgradeTransaction
upgrade = record {
  abstract_transaction = head entity_blockchain_upgrade blockchain_upgrade_version;
  upgrade_period = 300;
  new_block_chain_version = 65536;
}

abbrev client : Config
client = record {
  network_type = mijin_test;
  fee_calculation_strategy = middle_calculation_strategy;
}

abbrev gift_message : Message
gift_message = plain_message (b'h' ∷ (b'i' ∷ []))

abbrev gift_mosaics : List Mosaic
gift_mosaics = xpx ∷ (xpx ∷ [])

-- 185 bytes by 250.
-- The time of the samples' deadline.
abbrev time : Deadline
time = record { unix_nano = 1500000000 * 1000000000 }

abbrev paid_gift : TransferTransaction
paid_gift = paid_transfer client time recipient gift_mosaics gift_message 46250

paid_gift_written :
    finished (layout (Transfer.object paid_gift decoded)) (Transfer.object paid_gift decoded) ≡ true
unfolding finished layout Transfer.object to_le new_abstract_transaction zeros number_at bytes_at
    from_le slots_hold offset_at reads uint64_to_array deadline_timestamp to_blockchain_timestamp id
    Transfer.size Transfer.message_object Transfer.mosaic_object
paid_gift_written = refl

client_new_transfer_transaction-wire_example :
    (client_new_transfer_transaction client deadline
        (some recipient)
        (some gift_mosaics)
        (some gift_message)
      ≡ ok paid_gift)
    × (Transfer.generate_bytes layout paid_gift
        ≡ ok (header_bytes 185 paid_gift.abstract_transaction ++ Transfer.body paid_gift decoded))
    × (length (header_bytes 185 paid_gift.abstract_transaction ++ Transfer.body paid_gift decoded)
        ≡ 185)
unfolding Transfer.size Transfer.message_size
client_new_transfer_transaction-wire_example =
    client_new_transfer_transaction-wire layout client time recipient gift_mosaics gift_message
      decoded 185 46250 (omega arith) recipient_decodes refl (omega arith) (omega arith) refl
      (omega arith) refl paid_gift_written
