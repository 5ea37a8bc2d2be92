-- ===== src/Tests/Addresses.antt =====
-- Concrete addresses, headers and states of transactions.
use go_xpx_chain_sdk.Base.{
  Bytes, [], arith, false, none, ok, refl, replicate, some, take, true, ◌++◌, ◌<◌, ◌^◌, ◌∷◌, ◌≡◌,
}
use go_xpx_chain_sdk.Account.{
  address_net, alias_address, mijin_test, new_address, new_address_from_public_key,
  new_address_from_raw, pretty,
}
use go_xpx_chain_sdk.Account.Addresses.{new_address_from_public_key_lem}
use go_xpx_chain_sdk.Account.Pretty.{new_address-pretty}
use go_xpx_chain_sdk.Asset.{NamespaceId}
use go_xpx_chain_sdk.Encoding.{base32_decode_string, base32_encode_to_string, hex_decode_string}
use go_xpx_chain_sdk.Encoding.RoundTrip.{are_bytes}
use go_xpx_chain_sdk.Secret.{Hashes}
use go_xpx_chain_sdk.Tests.Samples.{deadline, head}
use go_xpx_chain_sdk.Transaction.{
  Address, TransactionInfo, generate_vectors, new_abstract_transaction,
}
use go_xpx_chain_sdk.Transaction.Entities.{entity_transfer, transfer_version}
use go_xpx_chain_sdk.Transaction.Responses.{
  Answers, IsInOneState, extract_network_type, extract_network_type-generate_vectors,
  extract_version, one_state,
}
use go_xpx_chain_sdk.Transaction.Transfer.{
  new_transfer_transaction, new_transfer_transaction_with_namespace,
  new_transfer_transaction_with_namespace_lem, plain_message,
}
use go_xpx_chain_sdk.Word.{to_le, zeros}

abbrev hashes : Hashes
hashes = record {
  hashes_sha3_256 = λ b. ok (replicate 32 17);
  hashes_keccak_256 = λ b. ok (replicate 32 17);
  hashes_sha_256 = λ b. ok (replicate 32 17);
  hashes_ripemd160 = λ b. ok (replicate 20 3);
}

key_decodes : hex_decode_string (replicate 64 b'a') ≡ ok (replicate 32 170)
unfolding hex_decode_string
key_decodes = refl

mijin_known : address_net mijin_test ≡ some mijin_test
unfolding address_net
mijin_known = refl

threes : are_bytes (replicate 20 3) ≡ true
unfolding are_bytes
threes = refl

digest_bytes : are_bytes (replicate 32 17) ≡ true
unfolding are_bytes
digest_bytes = refl

new_address_from_public_key_lem_example :
    (a : Address) × (new_address_from_public_key hashes (replicate 64 b'a') mijin_test ≡ ok a)
    × (a.type ≡ mijin_test)
    × (base32_decode_string a.address
        ≡ ok (mijin_test ∷ (replicate 20 3 ++ take 4 (replicate 32 17))))
    × (new_address_from_raw a.address ≡ ok a)
new_address_from_public_key_lem_example =
    new_address_from_public_key_lem hashes (replicate 64 b'a') (replicate 32 170) (replicate 32 17)
      (replicate 20 3) (replicate 32 17) mijin_test mijin_known (omega arith) key_decodes refl refl
      refl refl refl threes digest_bytes

abbrev address_bytes : Bytes
address_bytes = mijin_test ∷ replicate 24 201

address_bytes-are : are_bytes address_bytes ≡ true
unfolding are_bytes
address_bytes-are = refl

new_address-pretty_example :
    let ad : Address = record {
      type = mijin_test;
      address = base32_encode_to_string address_bytes;
    } in
    (p : Bytes) × (pretty ad ≡ ok p) × (new_address p mijin_test ≡ ad)
new_address-pretty_example = new_address-pretty address_bytes mijin_test refl address_bytes-are

abbrev space : NamespaceId
space = record { base_int64 = 0x84b3552d375ffa4b }

new_transfer_transaction_with_namespace_lem_example :
    (address : Address) × (new_transfer_transaction_with_namespace deadline
        (some space)
        (some [])
        (some (plain_message (1 ∷ [])))
        mijin_test
      ≡ new_transfer_transaction deadline
          (some address)
          (some [])
          (some (plain_message (1 ∷ [])))
          mijin_test)
    × (address.type ≡ alias_address)
    × (base32_decode_string address.address
        ≡ ok (alias_address ∷ (to_le 8 0x84b3552d375ffa4b ++ zeros 16)))
new_transfer_transaction_with_namespace_lem_example =
    new_transfer_transaction_with_namespace_lem deadline space [] (plain_message (1 ∷ []))
      mijin_test

abbrev info : TransactionInfo
info = record {
  height = 0;
  index = 0;
  id = [];
  transaction_hash = some (1 ∷ []);
  merkle_component_hash = some (1 ∷ []);
  aggregate_hash = none;
  aggregate_id = [];
}

one_state_example : Answers none true false false false × IsInOneState info (1 ∷ []) (1 ∷ [])
one_state_example = one_state info (1 ∷ []) (1 ∷ []) refl refl

head_network : (head entity_transfer transfer_version).network_type < 256
unfolding new_abstract_transaction
head_network = omega arith

head_version : (head entity_transfer transfer_version).version < 2 ^ 24
unfolding new_abstract_transaction
head_version = omega arith

extract_network_type-generate_vectors_example :
    (extract_network_type (generate_vectors (head entity_transfer transfer_version)).version
      ≡ (head entity_transfer transfer_version).network_type)
    × (extract_version (generate_vectors (head entity_transfer transfer_version)).version
        ≡ (head entity_transfer transfer_version).version)
extract_network_type-generate_vectors_example =
    extract_network_type-generate_vectors (head entity_transfer transfer_version) head_network
      head_version
