-- ===== src/Tests/Signing.antt =====
-- A concrete supply change, signed and inside an aggregate.
use go_xpx_chain_sdk.Transaction.MosaicSupplyChange
use go_xpx_chain_sdk.Transaction.Aggregate
use go_xpx_chain_sdk.Asset.{id}
use go_xpx_chain_sdk.Schema.{serialize, u32}
use go_xpx_chain_sdk.Base.{
  Bytes, [], arith, inl, length, ok, refl, replicate, some, true, ◌++◌, ◌+◌, ◌-◌, ◌<◌, ◌^◌, ◌∷◌,
  ◌≡◌, ◌≢◌,
}
use go_xpx_chain_sdk.Encoding.{hex_decode_string, hex_encode_string, to_upper}
use go_xpx_chain_sdk.Encoding.RoundTrip.{are_bytes, hex_decode_string-hex_encode_string}
use go_xpx_chain_sdk.Schema.Decoding.{serialize-wire}
use go_xpx_chain_sdk.Schema.Definitions.{mosaic_supply_change_transaction_schema}
use go_xpx_chain_sdk.Schema.Format.{
  bytes_at, finished, fits, number_at, offset_at, reads, slots_hold, wire,
}
use go_xpx_chain_sdk.Secret.{Hashes}
use go_xpx_chain_sdk.Tests.Flatbuffer.{layout}
use go_xpx_chain_sdk.Tests.Samples.{head, head-Carries, recipient, xpx}
use go_xpx_chain_sdk.Transaction.{
  AbstractTransaction, PublicAccount, SignedTransaction, deadline_timestamp,
  new_abstract_transaction, to_aggregate, to_blockchain_timestamp,
}
use go_xpx_chain_sdk.Transaction.Aggregate.{
  AggregateTransaction, AreEmbedded, aggregate-wire, no_transaction, one_transaction,
}
use go_xpx_chain_sdk.Transaction.Entities.{
  aggregate_completed_version, entity_aggregate_completed, entity_mosaic_supply_change,
  mosaic_supply_change_version,
}
use go_xpx_chain_sdk.Transaction.Header.{Carries, header_bytes, version_word}
use go_xpx_chain_sdk.Transaction.MosaicSupplyChange.{
  MosaicSupplyChangeTransaction, supply_change-wire,
}
use go_xpx_chain_sdk.Transaction.Signing.{
  Account, Transaction, sign_transaction_with, to_aggregate_transaction_bytes,
}
use go_xpx_chain_sdk.Transaction.Signing.Cosigning.{
  AreCosignatures, nobody, sign_transaction_with_cosignatures,
  sign_transaction_with_cosignatures_lem, somebody,
}
use go_xpx_chain_sdk.Transaction.Signing.Payload.{
  Serialises, fee_and_deadline, serialises, sign_transaction_with_lem, signed_part,
  to_aggregate_transaction_bytes_lem, version_and_type,
}
use go_xpx_chain_sdk.Transaction.Sizes.{dead_line_size, max_fee_size, signature_size}
use go_xpx_chain_sdk.Uint64.{to_little_endian, uint64_to_array}
use go_xpx_chain_sdk.Word.{from_le, length-to_le, to_le, zeros}

abbrev key : Bytes
key = replicate 32 171

abbrev signer : PublicAccount
signer = record { address = recipient; public_key = replicate 64 b'a' }

abbrev owned : AbstractTransaction
owned = to_aggregate signer (head entity_mosaic_supply_change mosaic_supply_change_version)

owned-Carries : Carries entity_mosaic_supply_change mosaic_supply_change_version owned
unfolding to_aggregate new_abstract_transaction
owned-Carries = record {
  type_is = refl;
  version_is = refl;
  has_deadline = λ e. cc;
  network_fits = omega arith;
}

abbrev change : MosaicSupplyChangeTransaction
change = record {
  abstract_transaction = owned;
  mosaic_supply_type = 1;
  asset_id = xpx.asset_id;
  delta = 1000;
}

change_written :
    finished (layout (MosaicSupplyChange.object change)) (MosaicSupplyChange.object change) ≡ true
unfolding finished layout MosaicSupplyChange.object to_le new_abstract_transaction zeros number_at
    bytes_at from_le slots_hold offset_at reads uint64_to_array deadline_timestamp
    to_blockchain_timestamp id to_aggregate
change_written = refl

change-fits : fits (MosaicSupplyChange.object change) mosaic_supply_change_transaction_schema ≡ true
unfolding fits MosaicSupplyChange.object mosaic_supply_change_transaction_schema
change-fits = refl

serialize-wire_example :
    serialize mosaic_supply_change_transaction_schema (layout (MosaicSupplyChange.object change))
    ≡ ok (wire (MosaicSupplyChange.object change))
serialize-wire_example =
    serialize-wire mosaic_supply_change_transaction_schema (MosaicSupplyChange.object change)
      (layout (MosaicSupplyChange.object change)) change_written change-fits

abbrev inner : Transaction
inner = record {
  abstract_transaction = owned;
  size = MosaicSupplyChange.size change;
  generated_bytes = MosaicSupplyChange.generate_bytes layout change;
}

inner-Serialises : Serialises inner (MosaicSupplyChange.body change)
inner-Serialises =
    serialises inner (MosaicSupplyChange.body change)
      (supply_change-wire layout change owned-Carries change_written)

key_decodes : hex_decode_string signer.public_key ≡ ok (replicate 32 170)
unfolding hex_decode_string
key_decodes = refl

owned_signer : owned.signer ≡ some signer
unfolding to_aggregate
owned_signer = refl

abbrev embedded : Bytes
embedded =
    to_le 4 (inner.size - 80)
    ++ (replicate 32 170 ++ (version_and_type owned ++ MosaicSupplyChange.body change))

to_aggregate_transaction_bytes_lem_example :
    (to_aggregate_transaction_bytes inner ≡ ok embedded)
    × (length embedded ≡ inner.size - (signature_size + max_fee_size + dead_line_size))
to_aggregate_transaction_bytes_lem_example =
    to_aggregate_transaction_bytes_lem inner (MosaicSupplyChange.body change) inner-Serialises
      signer (replicate 32 170) owned_signer key_decodes refl

abbrev bundle : AggregateTransaction
bundle = record {
  abstract_transaction = head entity_aggregate_completed aggregate_completed_version;
  inner_transactions = inner ∷ [];
}

bundle_AreEmbedded : AreEmbedded (inner ∷ []) (embedded ++ [])
bundle_AreEmbedded =
    let (e, l) =
      to_aggregate_transaction_bytes_lem inner (MosaicSupplyChange.body change) inner-Serialises
        signer (replicate 32 170) owned_signer key_decodes refl in
    one_transaction e l no_transaction

bundle_written :
    finished
      (layout (Aggregate.object bundle (embedded ++ [])))
      (Aggregate.object bundle (embedded ++ []))
    ≡ true
unfolding finished layout Aggregate.object to_le new_abstract_transaction zeros number_at bytes_at
    from_le slots_hold offset_at reads uint64_to_array deadline_timestamp to_blockchain_timestamp id
    to_aggregate version_and_type version_word MosaicSupplyChange.size MosaicSupplyChange.body
    to_little_endian Aggregate.size
bundle_written = refl

bundle_some : embedded ++ [] ≢ []
unfolding to_le
bundle_some e = cc

bundle_small : length (embedded ++ []) < 2 ^ 31
unfolding to_le to_aggregate new_abstract_transaction id version_and_type version_word
    MosaicSupplyChange.size MosaicSupplyChange.body to_little_endian
bundle_small = omega arith

aggregate-wire_example :
    (Aggregate.generate_bytes layout bundle
      ≡ ok (
          header_bytes (Aggregate.size bundle) bundle.abstract_transaction
          ++ (to_le 4 (length (embedded ++ [])) ++ (embedded ++ []))))
    × (length (
          header_bytes (Aggregate.size bundle) bundle.abstract_transaction
          ++ (to_le 4 (length (embedded ++ [])) ++ (embedded ++ [])))
        ≡ Aggregate.size bundle)
aggregate-wire_example =
    aggregate-wire layout bundle entity_aggregate_completed (embedded ++ []) (inl refl)
      (head-Carries entity_aggregate_completed aggregate_completed_version) bundle_AreEmbedded
      bundle_some bundle_small bundle_written

abbrev account : Account
account = record {
  public_key = key;
  sign = λ b. ok (replicate 64 9);
  generation_hash = some (replicate 32 5);
}

abbrev hashes : Hashes
hashes = record {
  hashes_sha3_256 = λ b. ok (replicate 32 17);
  hashes_keccak_256 = λ b. ok (replicate 32 17);
  hashes_sha_256 = λ b. ok (replicate 32 17);
  hashes_ripemd160 = λ b. ok (replicate 20 3);
}

body_bytes : are_bytes (MosaicSupplyChange.body change) ≡ true
unfolding MosaicSupplyChange.body to_little_endian to_le id are_bytes
body_bytes = refl

key_bytes : are_bytes key ≡ true
unfolding are_bytes
key_bytes = refl

signature_bytes : are_bytes (replicate 64 9) ≡ true
unfolding are_bytes
signature_bytes = refl

sign_transaction_with_lem_example :
    (signed : SignedTransaction) × (sign_transaction_with hashes inner account ≡ ok signed)
    × (signed.entity_type ≡ inner.abstract_transaction.type)
    × (signed.hash ≡ some (replicate 32 17))
    × (hex_decode_string signed.payload
        ≡ ok (
            to_le 4 (u32 inner.size)
            ++ (replicate 64 9
                ++ (account.public_key
                    ++ signed_part inner.abstract_transaction (MosaicSupplyChange.body change)))))
    × (signed.payload
        ≡ to_upper (
            hex_encode_string (
              to_le 4 (u32 inner.size)
              ++ (replicate 64 9
                  ++ (account.public_key
                      ++ signed_part inner.abstract_transaction
                          (MosaicSupplyChange.body change))))))
sign_transaction_with_lem_example =
    sign_transaction_with_lem inner (MosaicSupplyChange.body change) inner-Serialises hashes account
      (replicate 64 9) (replicate 32 17) refl refl refl refl refl key_bytes signature_bytes
      body_bytes

abbrev unsized : Bytes
unsized =
    replicate 64 9
    ++ (account.public_key
        ++ signed_part inner.abstract_transaction (MosaicSupplyChange.body change))

abbrev cosigned : Bytes
cosigned = key ++ (replicate 64 9 ++ [])

one_cosignatory : AreCosignatures hex_encode_string (replicate 32 17) (account ∷ []) cosigned
one_cosignatory =
    somebody account (replicate 64 9) refl signature_bytes
      (hex_decode_string-hex_encode_string key key_bytes) nobody

cosigned_bytes : are_bytes (unsized ++ cosigned) ≡ true
unfolding are_bytes to_le signed_part version_and_type version_word fee_and_deadline to_aggregate
    new_abstract_transaction MosaicSupplyChange.body to_little_endian id deadline_timestamp
    to_blockchain_timestamp
cosigned_bytes = refl

sign_transaction_with_cosignatures_lem_example :
    (signed : SignedTransaction) × (sign_transaction_with_cosignatures hex_encode_string hashes
        inner account
        (account ∷ [])
      ≡ ok signed)
    × (signed.entity_type ≡ inner.abstract_transaction.type)
    × (signed.hash ≡ some (replicate 32 17))
    × (hex_decode_string signed.payload
        ≡ ok (
            to_le 4 (length (to_le 4 (u32 inner.size) ++ (unsized ++ cosigned)))
            ++ (unsized ++ cosigned)))
sign_transaction_with_cosignatures_lem_example =
    sign_transaction_with_cosignatures_lem hex_encode_string hashes inner account (account ∷ [])
      sign_transaction_with_lem_example.0 (replicate 32 17) (to_le 4 (u32 inner.size)) unsized
      sign_transaction_with_lem_example.1 sign_transaction_with_lem_example.3
      sign_transaction_with_lem_example.4 (length-to_le 4 (u32 inner.size)) cosigned_bytes
      one_cosignatory
