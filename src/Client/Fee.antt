-- ===== src/Client/Fee.antt =====
-- The fee that the client of sdk/sdk.go sets.
use Prim.Native.Nat.{min}
use go_xpx_chain_sdk.Transaction.Transfer
use go_xpx_chain_sdk.Base.{
  Bytes, List, ap, arith, length, ok, refl, some, subst, sym, true, ℕ, ◌%◌, ◌*◌, ◌++◌, ◌+◌, ◌<◌,
  ◌^◌, ◌∙◌, ◌≡◌,
}
use go_xpx_chain_sdk.Asset.{Mosaic}
use go_xpx_chain_sdk.Client.{Config, default_max_fee, fee}
use go_xpx_chain_sdk.Client.Builders.{client_new_transfer_transaction}
use go_xpx_chain_sdk.Encoding.{base32_decode_string}
use go_xpx_chain_sdk.Schema.Format.{Slots, finished}
use go_xpx_chain_sdk.Transaction.{Address, Deadline, new_abstract_transaction}
use go_xpx_chain_sdk.Transaction.Entities.{entity_transfer, transfer_version}
use go_xpx_chain_sdk.Transaction.Header.{Carries, header_bytes}
use go_xpx_chain_sdk.Transaction.Sizes.{address_size}
use go_xpx_chain_sdk.Transaction.Transfer.{
  Message, TransferTransaction, message_size, new_transfer_transaction, payload, transfer-wire,
}

-- What fits an `int` is not wrapped.
fee_lem :
    (c : Config) (n : ℕ)
    → n * c.fee_calculation_strategy < 2 ^ 63
    → fee c n ≡ min (n * c.fee_calculation_strategy) default_max_fee
unfolding fee
fee_lem c n h =
    let unwrapped : n * c.fee_calculation_strategy % 2 ^ 64 ≡ n * c.fee_calculation_strategy =
      omega arith in
    rw unwrapped (ground arith)

-- A transfer of the network with a fee.
abbrev pub paid_transfer :
    Config → Deadline → Address → List Mosaic → Message → ℕ → TransferTransaction
paid_transfer c d r ms m max_fee = record {
  abstract_transaction =
      record (new_abstract_transaction (some d) entity_transfer transfer_version c.network_type) {
        max_fee = max_fee;
      };
  message = m;
  mosaics = ms;
  recipient = r;
}

paid_size :
    (c : Config) (d : Deadline) (r : Address) (ms : List Mosaic) (m : Message) (max_fee : ℕ)
    → Transfer.size (paid_transfer c d r ms m max_fee) ≡ Transfer.size (paid_transfer c d r ms m 0)
unfolding Transfer.size
paid_size c d r ms m max_fee = refl

paid_message_size :
    (c : Config) (d : Deadline) (r : Address) (ms : List Mosaic) (m : Message) (max_fee : ℕ)
    → length (payload m) + 1 < 2 ^ 16
    → message_size (paid_transfer c d r ms m max_fee) < 2 ^ 16
unfolding message_size
paid_message_size c d r ms m max_fee h = h

-- A transfer that the client makes for its network, whose type has one byte, to an address that
-- decodes to 25 bytes, with a message that fits 16 bits with the byte of its type and with fewer than
-- 256 mosaics, and whose size by the strategy is less than 2 ^ 63, has the fee of its size by the
-- strategy, or five million if that is less. With a deadline, and on the flatbuffer that holds its
-- object, its bytes are those of the protocol, with that fee in the header, as many as `Size` says.
pub client_new_transfer_transaction-wire :
    (finished_bytes : Slots → Bytes) (c : Config) (d : Deadline) (r : Address) (ms : List Mosaic)
    (m : Message) (recipient : Bytes) (n max_fee : ℕ)
    → c.network_type < 256
    → base32_decode_string r.address ≡ ok recipient
    → length recipient ≡ address_size
    → length (payload m) + 1 < 2 ^ 16
    → length ms < 2 ^ 8
    → Transfer.size (paid_transfer c d r ms m 0) ≡ n
    → n * c.fee_calculation_strategy < 2 ^ 63
    → max_fee ≡ min (n * c.fee_calculation_strategy) default_max_fee
    → finished
        (finished_bytes (Transfer.object (paid_transfer c d r ms m max_fee) recipient))
        (Transfer.object (paid_transfer c d r ms m max_fee) recipient)
      ≡ true
    → (client_new_transfer_transaction c (some d) (some r) (some ms) (some m)
        ≡ ok (paid_transfer c d r ms m max_fee))
      × (Transfer.generate_bytes finished_bytes (paid_transfer c d r ms m max_fee)
          ≡ ok (
              header_bytes n (paid_transfer c d r ms m max_fee).abstract_transaction
              ++ Transfer.body (paid_transfer c d r ms m max_fee) recipient))
      × (length (
            header_bytes n (paid_transfer c d r ms m max_fee).abstract_transaction
            ++ Transfer.body (paid_transfer c d r ms m max_fee) recipient)
          ≡ n)
unfolding client_new_transfer_transaction new_transfer_transaction new_abstract_transaction
client_new_transfer_transaction-wire finished_bytes c d r ms m recipient n max_fee net e l short few
      s small paid h =
    let tx = paid_transfer c d r ms m max_fee in
    let carries : Carries entity_transfer transfer_version tx.abstract_transaction = record {
      type_is = refl;
      version_is = refl;
      has_deadline = λ e. cc;
      network_fits = net;
    } in
    let same : Transfer.size tx ≡ n = paid_size c d r ms m max_fee ∙ s in
    let wire =
      transfer-wire finished_bytes tx recipient carries e l
        (paid_message_size c d r ms m max_fee short) few h in
    let total : fee c (Transfer.size (paid_transfer c d r ms m 0)) ≡ max_fee =
      ap (fee c) s ∙ fee_lem c n small ∙ sym paid in
    let (bytes, counted) =
      subst
        (λ (k : ℕ).
          (Transfer.generate_bytes finished_bytes tx
            ≡ ok (header_bytes k tx.abstract_transaction ++ Transfer.body tx recipient))
          × (length (header_bytes k tx.abstract_transaction ++ Transfer.body tx recipient) ≡ k))
        same wire in
    (ap (λ f. ok (paid_transfer c d r ms m f)) total, bytes, counted)
